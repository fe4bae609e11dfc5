-- ===== src/Object/Drawable.antt =====
-- The buffers of the textures of server/object.c: what `obj_push_tex` sets up is what the `memcpy`
-- calls of `obj_load_tex` rely on.
use native.Mathlib.Nat.{mul_comm}
use s3d.Base.{
  some_of_eq, ℕ, zero, suc, ◌*◌, ◌%◌, ◌^◌, ◌≤◌, ◌<◌, ◌≡◌, refl, sym, ap, ◌∙◌, arith, Bool, true,
  false, Bool-cases, inl, inr, Option, some, List, [], ◌∷◌, ◌++◌, length, take, drop, replicate,
  get_or, if◌then◌else◌, ltb,
}
use s3d.Object.{Tex}
use s3d.Object.Data.{gather}
use s3d.Object.Textures.{doubled, power_for, has_size, set_up, refused, new_tex}
use s3d.Object.Bounds.{IsTexture}

-- `hm` doubled so often
abbrev grown : ℕ → ℕ → ℕ
grown zero hm = hm
grown (suc rounds) hm = grown rounds (hm * 2)

doubled_fits :
    (rounds hm limit : ℕ)
    → limit ≤ 4096
    → hm < 2 * limit
    → limit ≤ grown rounds hm
    → (limit ≤ doubled rounds hm limit) × (doubled rounds hm limit < 2 * limit)
unfolding doubled
doubled_fits zero hm limit a b c = (c, b)
doubled_fits (suc rounds) hm limit a b c = elim (Bool-cases (ltb hm limit)) [
  | inl e ↦
      let nowrap : hm * 2 % 2 ^ 16 ≡ hm * 2 = ground arith in
      rw (e, nowrap) (doubled_fits rounds (hm * 2) limit a (ground arith) c)
  | inr e ↦ rw e (ground arith, b)
]

doubled_power :
    (rounds j limit : ℕ) → limit ≤ 4096 → (i : ℕ) × (doubled rounds (2 ^ j) limit ≡ 2 ^ i)
unfolding doubled
doubled_power zero j limit a = (j, refl)
doubled_power (suc rounds) j limit a = elim (Bool-cases (ltb (2 ^ j) limit)) [
  | inl e ↦
      let nowrap : 2 ^ j * 2 % 2 ^ 16 ≡ 2 ^ suc j = ground arith in
      rw (e, nowrap) (doubled_power rounds (suc j) limit a)
  | inr e ↦ rw e (j, refl)
]

-- For a width or height from 1 to 4096 the loop of `obj_push_tex` ends at the least power of two that
-- holds it.
pub power_for-least :
    (limit : ℕ)
    → 1 ≤ limit
    → limit ≤ 4096
    → (i : ℕ) × (power_for limit ≡ 2 ^ i)
      × (limit ≤ power_for limit)
      × (power_for limit < 2 * limit)
unfolding power_for
power_for-least limit a b =
    let (i, e) = doubled_power 13 0 limit b in
    let (lo, hi) = doubled_fits 13 1 limit b (omega arith) (omega arith) in (i, e, lo, hi)

-- What is drawn into a texture stays in its buffer.
abbrev pub IsDrawable : Tex → Type 0
IsDrawable t = (b : List ℕ) → t.buf ≡ some b → IsTexture t × (length b ≡ 4 * (t.w * t.h))

abbrev pub AllDrawable : List Tex → Type 0
AllDrawable [] = Unit
AllDrawable (t ∷ ts) = IsDrawable t × AllDrawable ts

pub AllDrawable-take : (n : ℕ) (ts : List Tex) → AllDrawable ts → AllDrawable (take n ts)
AllDrawable-take zero ts h = tt
AllDrawable-take (suc n) [] h = tt
AllDrawable-take (suc n) (t ∷ ts) h = (h.0, AllDrawable-take n ts h.1)

pub AllDrawable-append :
    (ts us : List Tex) → AllDrawable ts → AllDrawable us → AllDrawable (ts ++ us)
AllDrawable-append [] us h k = k
AllDrawable-append (t ∷ ts) us h k = (h.0, AllDrawable-append ts us h.1 k)

length-replicate : (n : ℕ) (v : ℕ) → length (replicate n v) ≡ n
length-replicate zero v = refl
length-replicate (suc n) v = omega (arith, length-replicate n v)

pub if-IsDrawable :
    (c : Bool) (x y : Tex)
    → (c ≡ true → IsDrawable x)
    → (c ≡ false → IsDrawable y)
    → IsDrawable (if c then x else y)
if-IsDrawable true x y h k = h refl
if-IsDrawable false x y h k = k refl

area : (h w : ℕ) → h * w * 4 ≡ 4 * (w * h)
area h w = omega (arith, mul_comm h w)

zeros-IsDrawable :
    (t : Tex) → t.buf ≡ some (replicate (t.h * t.w * 4) 0) → IsTexture t → IsDrawable t
zeros-IsDrawable t e v b f =
    (v, ap length (some_of_eq (sym f ∙ e)) ∙ length-replicate (t.h * t.w * 4) 0 ∙ area t.h t.w)

set_up-IsDrawable :
    (segment : Option ℕ) (tw th : ℕ) → has_size tw th ≡ true → IsDrawable (set_up segment tw th)
unfolding set_up has_size
set_up-IsDrawable segment tw th c =
    let small_w : tw ≤ 4096 = ground arith in
    let small_h : th ≤ 4096 = ground arith in
    let some_w : 1 ≤ tw = ground arith in
    let some_h : 1 ≤ th = ground arith in
    zeros-IsDrawable (set_up segment tw th) refl record {
      width = (power_for-least tw some_w small_w).2;
      height = (power_for-least th some_h small_h).2;
      some_width = some_w;
      width_max = small_w;
      height_max = small_h;
    }

refused-IsDrawable : (junk : ℕ × ℕ) (tw th : ℕ) → IsDrawable (refused junk tw th)
unfolding refused
refused-IsDrawable junk tw th b e = absurd (cc e)

module _ (shm : ℕ → Option ℕ) (junk : ℕ → ℕ × ℕ) where
  new_tex-IsDrawable : (i : ℕ) (px : List ℕ) → IsDrawable (new_tex shm junk i px)
  unfolding new_tex
  new_tex-IsDrawable i px =
      let tw = get_or px 0 0 in
      let th = get_or px 1 0 in
      if-IsDrawable (has_size tw th) (set_up (shm i) tw th) (refused (junk i) tw th)
        (set_up-IsDrawable (shm i) tw th) (λ c. refused-IsDrawable (junk i) tw th)

  pub gather-AllDrawable :
      (n m : ℕ) (px : List ℕ) → AllDrawable (gather n m 2 (new_tex shm junk) px)
  unfolding gather
  gather-AllDrawable zero m px = tt
  gather-AllDrawable (suc n) m px =
      (new_tex-IsDrawable m px, gather-AllDrawable n (suc m) (drop 2 px))
