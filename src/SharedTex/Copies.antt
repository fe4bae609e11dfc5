-- ===== src/SharedTex/Copies.antt =====
-- The `memcpy` calls of `_s3d_load_texture_shm` of libs3d/texture.c, beside those of `obj_load_tex` of
-- server/object.c.
use s3d.Base.{
  ℕ, zero, suc, ◌+◌, ◌*◌, ◌^◌, ◌<◌, ◌≤◌, ◌≡◌, refl, arith, none, some, Option-cases, inl, inr, List,
  [],
}
use s3d.Events.Incoming.{Texshm}
use s3d.Object.{Tex}
use s3d.Object.Texture.{extent, rows, copies}
use s3d.Object.Bounds.{IsTexture, AllWithin, copies_within}
use s3d.SharedTex.{clip16, scanlines, shm_copies}

-- the texture that the server has for a segment
abbrev pub server_side : Texshm → List ℕ → Tex
server_side t buf = record {
  tw = t.tw;
  th = t.th;
  w = t.w;
  h = t.h;
  buf = some buf;
  shmid = t.shmid;
  gl_texnum = 0;
}

scanlines-rows :
    (t : Texshm) (buf : List ℕ) (x y w mw k i : ℕ)
    → scanlines t x y w mw k i ≡ rows (server_side t buf) x y w mw k i
unfolding scanlines rows
scanlines-rows t buf x y w mw zero i = refl
scanlines-rows t buf x y w mw (suc k) i = rw (scanlines-rows t buf x y w mw k (suc i)) refl

clip16-extent : (limit at size : ℕ) → clip16 limit at size ≡ extent limit at size
unfolding clip16 extent
clip16-extent limit at size = refl

-- A client copies into a shared segment the same lines as the server would into the texture; where the
-- server returns -1 because there is nothing to do, the client copies none.
pub shm_copies-copies :
    (t : Texshm) (buf : List ℕ) (x y w h : ℕ)
    → shm_copies t x y w h
      ≡ (elim (copies (server_side t buf) x y w h) [ none ↦ [] | some cs ↦ cs ])
unfolding shm_copies copies
shm_copies-copies t buf x y w h = ground (
  arith,
  clip16-extent t.tw x w,
  clip16-extent t.th y h,
  scanlines-rows t buf x y w (extent t.tw x w) (extent t.th y h) 0,
  scanlines-rows t buf x y w (extent t.tw x w) 0 0,
)

-- Where the distance of `x` from the right edge fits an `int16_t`, every `memcpy` of a client into the
-- segment of a texture that the server set up stays in the segment and in the picture.
pub shm_copies_within :
    (t : Texshm) (x y w h : ℕ)
    → IsTexture (server_side t [])
    → x ≤ t.tw + 2 ^ 15
    → x < 2 ^ 16
    → y < 2 ^ 16
    → AllWithin (4 * (t.w * t.h)) (4 * (w * h)) (shm_copies t x y w h)
shm_copies_within t x y w h v ax bx by = elim (Option-cases (copies (server_side t []) x y w h)) [
  | inl e ↦ rw (shm_copies-copies t [] x y w h, e) tt
  | inr (cs, e) ↦
      rw (shm_copies-copies t [] x y w h, e) (copies_within (server_side t []) x y w h v ax bx by e)
]
