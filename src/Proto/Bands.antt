-- ===== src/Proto/Bands.antt =====
-- The arithmetic of the bands of `s3d_load_texture` of libs3d/proto_out.c, and how `prot_com_in` of
-- server/proto.c reads one.
use native.Mathlib.Nat.{mul_comm, le-div_iff_mul-le, div-mul-le_self}
use s3d.Base.{
  ◌⊎◌, ℕ, zero, suc, ◌+◌, ◌-◌, ◌*◌, ◌^◌, ◌≤◌, ◌<◌, ◌≡◌, refl, ap, arith, Bool-cases, inl, inr, List,
  [], ◌++◌, length, ltb,
}
use s3d.Wire.{put16, put32}
use s3d.Wire.Words.{get32-put32, get16-put16}
use s3d.Client.Picture.{linestep, lines_at}
use s3d.Object.Request.{Request}
use s3d.Proto.{Command, pixels}

-- A packet whose pixels fill its width and its height is read as it was written.
pub pixels-read :
    (object tex x y w h : ℕ) (pixbuf : List ℕ)
    → object < 2 ^ 32
    → tex < 2 ^ 32
    → x < 2 ^ 16
    → y < 2 ^ 16
    → w < 2 ^ 16
    → h < 2 ^ 16
    → 0 < length pixbuf
    → length pixbuf ≤ 65514
    → w * h * 4 ≡ length pixbuf
    → pixels
        (put32 object ++ (put32 tex ++ (put16 x ++ (put16 y ++ (put16 w ++ (put16 h ++ pixbuf))))))
      ≡ Command.on_data (Request.load_tex object tex x y w h pixbuf)
unfolding pixels
pixels-read object tex x y w h pixbuf ho ht hx hy hw hh h0 h1 e =
    rw
      (
        get32-put32 object [] ho,
        get32-put32 tex [] ht,
        get16-put16 x [] hx,
        get16-put16 y [] hy,
        get16-put16 w [] hw,
        get16-put16 h [] hh,
      )
      (rw e (ground arith))

pub dist : (a b w : ℕ) → (a + b) * w * 4 ≡ a * w * 4 + b * w * 4
dist a b w = grind arith

pub step_fits : (w : ℕ) → linestep w * w * 4 ≤ 65514
step_fits w = grind (arith, div-mul-le_self 65514 (w * 4))

pub linestep_pos : (w : ℕ) → 0 < w → w ≤ 16378 → 0 < linestep w
linestep_pos w a b = (le-div_iff_mul-le (omega arith)).1 (omega arith)

pub area : (l w : ℕ) → w * l * 4 ≡ l * w * 4
area l w = ap (λ k. k * 4) (mul_comm w l)

pub area_pos : (a b : ℕ) → 0 < a → 0 < b → 0 < a * b * 4
area_pos zero b h k = absurd (omega arith)
area_pos (suc a) zero h k = absurd (omega arith)
area_pos (suc a) (suc b) h k = grind arith

pub lines_at-cases :
    (step h i : ℕ)
    → i < h
    → ((lines_at step h i ≡ step) × (i + step ≤ h)) ⊎ ((lines_at step h i ≡ h - i) × (h ≤ i + step))
unfolding lines_at
lines_at-cases step h i a = elim (Bool-cases (ltb step (h - i))) [
  | inl e ↦ inl (rw e (refl, ground arith))
  | inr e ↦ inr (rw e (refl, ground arith))
]
