-- ===== src/Object/Textures.antt =====
-- `obj_push_tex` of server/object.c: `n` textures are appended, each with a buffer of the next powers
-- of two. `mem` is whether `realloc` finds the memory. The code does not test the `malloc` of a buffer before
-- `memset` writes to it: the model is of the calls where each finds memory.
use s3d.Base.{
  ℕ, zero, suc, ◌+◌, ◌*◌, ◌%◌, ◌^◌, ◌&&◌, Bool, Option, none, some, List, [], ◌∷◌, ◌++◌, replicate,
  get_or, if◌then◌else◌, ltb, leb,
}
use s3d.Object.{minus_one, Tex, Table, Status, done}
use s3d.Object.Data.{with_obj, unless_nodata, gather}

-- `TEXTURE_MAX_W` and `TEXTURE_MAX_H`
abbrev pub texture_max : ℕ
texture_max = 4096

-- `for (; hm < limit; hm *= 2)` on a `uint16_t`, at most `rounds` rounds
unfoldable pub doubled : ℕ → ℕ → ℕ → ℕ
doubled zero hm limit = hm
doubled (suc rounds) hm limit =
    let rest = doubled rounds (hm * 2 % 2 ^ 16) limit in if ltb hm limit then rest else hm

-- Thirteen rounds are enough up to 4096.
unfoldable pub power_for : ℕ → ℕ
unfolding doubled
power_for limit = doubled 13 1 limit

-- the test for the size
unfoldable pub has_size : ℕ → ℕ → Bool
has_size tw th = leb tw texture_max && (leb th texture_max && (ltb 0 tw && ltb 0 th))

-- A texture with a size that is allowed. `segment` is the one that `texture_shm_register` gets.
unfoldable pub set_up : Option ℕ → ℕ → ℕ → Tex
unfolding power_for
set_up segment tw th = record {
  tw = tw;
  th = th;
  w = power_for tw;
  h = power_for th;
  buf = some (replicate (power_for th * power_for tw * 4) 0);
  shmid = elim segment [ none ↦ minus_one | some id ↦ id ];
  gl_texnum = minus_one;
}

-- A texture with a bad size: `w` and `h` keep what the memory held.
unfoldable pub refused : ℕ × ℕ → ℕ → ℕ → Tex
refused junk tw th = record {
  tw = tw;
  th = th;
  w = junk.0;
  h = junk.1;
  buf = none;
  shmid = minus_one;
  gl_texnum = minus_one;
}

-- one round of the loop, for the texture number `i`
unfoldable pub new_tex : (ℕ → Option ℕ) → (ℕ → ℕ × ℕ) → ℕ → List ℕ → Tex
unfolding has_size set_up refused
new_tex shm junk i px =
    let tw = get_or px 0 0 in
    let th = get_or px 1 0 in
    if has_size tw th then set_up (shm i) tw th else refused (junk i) tw th

-- The entries below `m` of the array that `realloc` returns: behind the old ones, what the memory
-- held.
unfoldable pub up_to : (ℕ → Tex) → ℕ → ℕ → List Tex → List Tex
up_to gap i zero ts = []
up_to gap i (suc m) [] = gap i ∷ up_to gap (suc i) m []
up_to gap i (suc m) (tx ∷ ts) = tx ∷ up_to gap (suc i) m ts

module _ {F : Type 0} where
  -- `gap` is what the entries between the end of the array and the place `n_tex` hold.
  unfoldable pub obj_push_tex :
      (ℕ → Option ℕ) → (ℕ → ℕ × ℕ) → (ℕ → Tex) → Bool → Table F → ℕ → List ℕ → ℕ → Status × Table F
  unfolding with_obj unless_nodata up_to
  obj_push_tex shm junk gap mem t oid x n = with_obj t oid λ obj. unless_nodata obj (
      if mem
      then (
        done,
        record obj {
          p_tex = up_to gap 0 obj.n_tex obj.p_tex ++ gather n obj.n_tex 2 (new_tex shm junk) x;
          n_tex = obj.n_tex + n;
        },
      )
      else (done, obj))
