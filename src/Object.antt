-- ===== src/Object.antt =====
-- The objects of a process, of server/global.h and server/object.c: what an object holds, the table
-- of a process, and the test OBJ_VALID through which every request from a client goes.
--
-- An `int32_t` id is its bit pattern, a number below 2 ^ 32: -1 is `minus_one`. A table has fewer
-- than 2 ^ 31 entries, so that the pattern of a negative number is past its end, and the test
-- `oid >= 0 && oid < n_obj` is that the pattern is an index. `n_obj` is the length of the table, to
-- which every operation that changes it reallocates it. Of the matrix and of the name of a process
-- nothing here depends. A float is a value of a type `F` with the operations that the code uses.
pub mod Data
pub mod Push
pub mod Pep
pub mod Load
pub mod Del
pub mod Texture
pub mod Flags
pub mod Frame
pub mod Sizes
pub mod Request
pub mod Draws
pub mod Bounds
pub mod Textures
pub mod Drawable
pub mod Buffers
pub mod Memory
pub mod Served
pub mod Links
pub mod Clones
pub mod Arrays
pub mod Effects
pub mod Keeps
pub mod Counts
mod Tests
use Prim.Native.Nat.{bit_and}
use s3d.Base.{ℕ, ◌-◌, ◌^◌, List, Option, none, some, Bool, true, false, get_elem?, set, ◌==◌, not}

abbrev pub minus_one : ℕ
minus_one = 2 ^ 32 - 1

-- The operations of `float` and `double` that the code uses.
pub record Floats (F : Type 0) : Type 0 where
  pub zero_f : F
  pub add : F → F → F
  pub mul : F → F → F
  pub div : F → F → F
  pub sqrt : F → F
  pub is_zero : F → Bool

-- `struct t_vertex`
pub record Vertex (F : Type 0) : Type 0 where
  pub x : F
  pub y : F
  pub z : F

-- `struct t_texc`
pub record Texc (F : Type 0) : Type 0 where
  pub x : F
  pub y : F

-- `struct t_poly`: the arrays of three written out
pub record Poly (F : Type 0) : Type 0 where
  pub v0 : ℕ
  pub v1 : ℕ
  pub v2 : ℕ
  pub n0 : Vertex F
  pub n1 : Vertex F
  pub n2 : Vertex F
  pub mat : ℕ
  pub tc0 : Texc F
  pub tc1 : Texc F
  pub tc2 : Texc F

-- `struct t_line`
pub record Line (F : Type 0) : Type 0 where
  pub v0 : ℕ
  pub v1 : ℕ
  pub n0 : Vertex F
  pub n1 : Vertex F
  pub mat : ℕ

-- four floats r, g, b, a
pub record Rgba (F : Type 0) : Type 0 where
  pub r : F
  pub g : F
  pub b : F
  pub a : F

-- `struct t_mat`
pub record Mat (F : Type 0) : Type 0 where
  pub amb : Rgba F
  pub spec : Rgba F
  pub diff : Rgba F
  pub tex : ℕ

-- `struct t_tex`, without the scales `xs` and `ys`, which only the renderer reads. `buf` is the
-- memory behind the pointer, or `none` for NULL.
pub record Tex : Type 0 where
  pub tw : ℕ
  pub th : ℕ
  pub w : ℕ
  pub h : ℕ
  pub buf : Option (List ℕ)
  pub shmid : ℕ
  pub gl_texnum : ℕ

-- `struct t_obj`. A list `p_x` is the memory behind the pointer of that name, `n_x` the counter.
pub record Obj (F : Type 0) : Type 0 where
  pub oflags : ℕ
  pub virtual_pid : ℕ
  pub clone_ooid : ℕ
  pub n_vertex : ℕ
  pub n_mat : ℕ
  pub n_poly : ℕ
  pub n_tex : ℕ
  pub n_line : ℕ
  pub dplist : ℕ
  pub linkid : ℕ
  pub lsub : ℕ
  pub lnext : ℕ
  pub lprev : ℕ
  pub p_vertex : List (Vertex F)
  pub p_mat : List (Mat F)
  pub p_poly : List (Poly F)
  pub p_line : List (Line F)
  pub p_tex : List Tex
  pub translate : Vertex F
  pub rotate : Vertex F
  pub scale : F
  pub r : F
  pub o_r : F

-- `object` and `n_obj` of `struct t_process`: `none` is a NULL entry
abbrev pub Table : Type 0 → Type 0
Table F = List (Option (Obj F))

-- the values 0 and -1 that the operations return
pub data Status : Type 0 where
  done failed : Status

abbrev pub of_nodata : ℕ
of_nodata = 0xF0000000

-- `obj->oflags & OF_NODATA`: one of the four highest bits is set
unfoldable pub nodata : {F : Type 0} → Obj F → Bool
nodata o = not (bit_and o.oflags of_nodata == 0)

-- OBJ_VALID: the object of that id, if there is one
unfoldable pub obj_valid : {F : Type 0} → Table F → ℕ → Option (Obj F)
obj_valid t oid = elim (get_elem? t oid) [ none ↦ none | some entry ↦ entry ]
