-- ===== src/SharedTex.antt =====
-- The textures that a client has in shared memory with the server: libs3d/texture.c. They are kept in a
-- table of libs3d/hash.c. `shmat` is an argument: the bytes of a segment, or none where it fails.
pub mod Keys
pub mod Handle
pub mod Copies
mod Tests
use s3d.Base.{
  ℕ, zero, suc, ◌+◌, ◌-◌, ◌*◌, ◌%◌, ◌^◌, ◌&&◌, ◌||◌, Bool, true, Option, none, some, List, [], ◌∷◌,
  if◌then◌else◌, ltb, leb, ◌==◌,
}
use s3d.Events.Incoming.{Texshm}
use s3d.Object.{minus_one}
use s3d.Object.Texture.{Copy, draw}
use s3d.Hash.{Callbacks, HashTable, hash_new, hash_delete, hash_add, hash_find, hash_remove}

-- `struct s3d_tex`: what the server told, and the bytes of the segment. A `struct s3d_texshm` that is
-- looked for is one with no bytes.
pub record S3dTex : Type 0 where
  pub tshm : Texshm
  pub buf : List ℕ

abbrev pub key_of : Texshm → S3dTex
key_of t = record { tshm = t; buf = [] }

-- `_s3d_compare_cb` is 0
unfoldable pub compare_cb : S3dTex → S3dTex → Bool
compare_cb a b = (a.tshm.oid == b.tshm.oid) && (a.tshm.tex == b.tshm.tex)

-- `_s3d_choose_cb`. The sum is an `int`; the remainder of a negative one is negative or 0, and is given
-- by its bit pattern.
unfoldable pub choose_cb : S3dTex → ℕ → ℕ
choose_cb a size =
    let sum = (a.tshm.oid * 32 + a.tshm.tex) % 2 ^ 32 in
    if ltb sum (2 ^ 31) then sum % size else (2 ^ 32 - (2 ^ 32 - sum) % size) % 2 ^ 32

abbrev pub tex_cbs : Callbacks S3dTex
tex_cbs = record { same = compare_cb; choose = choose_cb }

-- `_s3d_texture_init` and `_s3d_texture_quit`; the memory for the table is there or not
unfoldable pub texture_init : Bool → Bool → Option (HashTable S3dTex)
unfolding hash_new
texture_init control array = hash_new control array 256

-- `_s3d_texture_quit`: what is given back, or none for -1
unfoldable pub texture_quit :
    Option (HashTable S3dTex) → Option (List S3dTex) × Option (HashTable S3dTex)
unfolding hash_delete
texture_quit none = (none, none)
texture_quit (some h) = (some (hash_delete h), none)

-- what `_s3d_handle_texshm` puts in for a texture: the segment, if there is one and it can be attached
unfoldable pub attached : (ℕ → Option (List ℕ)) → Texshm → Option S3dTex
attached shmat t =
    if t.shmid == minus_one
    then none
    else elim (shmat t.shmid) [ none ↦ none | some buf ↦ some (record { tshm = t; buf = buf }) ]

-- `_s3d_handle_texshm`: the old texture goes, and the new one comes.
unfoldable pub handle_texshm :
    (ℕ → Option (List ℕ)) → Bool → Option (HashTable S3dTex) → Texshm → Option (HashTable S3dTex)
handle_texshm shmat memory none t = none
handle_texshm shmat memory (some h) t =
    let h1 = (hash_remove tex_cbs h (key_of t)).1 in
    elim (attached shmat t) [ none ↦ some h1 | some new ↦ some (hash_add tex_cbs memory h1 new).1 ]

-- `mw` and `mh`
unfoldable pub clip16 : ℕ → ℕ → ℕ → ℕ
clip16 limit at size = if ltb limit (at + size) then (limit + 2 ^ 16 - at) % 2 ^ 16 else size

-- the rounds of the loop over the lines, `k` of them left
unfoldable pub scanlines : Texshm → ℕ → ℕ → ℕ → ℕ → ℕ → ℕ → List Copy
scanlines t xpos ypos w mw zero i = []
scanlines t xpos ypos w mw (suc k) i =
    let rest = scanlines t xpos ypos w mw k (suc i) in
    let p1 = (ypos + i) * t.w + xpos in
    if ltb (t.w * t.th + t.tw) p1
    then []
    else record { dest = 4 * p1; src = 4 * i * w; size = 4 * mw } ∷ rest

-- the `memcpy` calls for a texture that is found; `mw` and `mh` are of type `int16_t`
unfoldable pub shm_copies : Texshm → ℕ → ℕ → ℕ → ℕ → List Copy
unfolding scanlines clip16
shm_copies t xpos ypos w h =
    let mw = clip16 t.tw xpos w in
    let mh = clip16 t.th ypos h in
    if (mw == 0) || leb (2 ^ 15) mw
    then []
    else scanlines t xpos ypos w mw (if leb (2 ^ 15) mh then 0 else mh) 0

-- `_s3d_load_texture_shm`: the texture with the bytes that are then in the segment, or none for -1
unfoldable pub load_texture_shm :
    Option (HashTable S3dTex) → ℕ → ℕ → ℕ → ℕ → ℕ → ℕ → List ℕ → Option S3dTex
unfolding shm_copies draw hash_find
load_texture_shm none object tid xpos ypos w h image = none
load_texture_shm (some table) object tid xpos ypos w h image =
    elim (hash_find tex_cbs table
      (key_of (record { oid = object; tex = tid; shmid = 0; tw = 0; th = 0; w = 0; h = 0 }))) [
        | none ↦ none
        | some tex ↦
            some (record tex { buf = draw (shm_copies tex.tshm xpos ypos w h) image tex.buf })
      ]
