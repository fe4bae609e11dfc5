-- ===== src/Object/Bounds.antt =====
-- Which `memcpy` calls of `obj_load_tex` stay in their buffers. The buffer of a texture has
-- `4 * w * h` bytes, that of the request `4 * w * h` with the width and height of the request.
use s3d.Base.{
  some_of_eq, ℕ, zero, suc, ◌+◌, ◌-◌, ◌*◌, ◌^◌, ◌≤◌, ◌<◌, ◌≡◌, refl, arith, true, false, none, some,
  List, [], ◌∷◌, if◌then◌else◌, ltb, leb, ◌==◌, ◌||◌, Bool-cases, lt→ltb, inl, inr, ◌⊎◌, sym, ◌∙◌,
}
use mathlib.Core.Path.{subst}
use s3d.Object.{Tex}
use s3d.Object.Texture.{Copy, extent, rows, copies}

-- A texture as `obj_push_tex` sets it up: powers of two hold a width and height of at most 4096.
pub record IsTexture (t : Tex) : Type 0 where
  pub width : t.tw ≤ t.w
  pub height : t.th ≤ t.h
  pub some_width : 0 < t.tw
  pub width_max : t.tw ≤ 4096
  pub height_max : t.th ≤ 4096

-- the copies read below `src_end` and write below `dest_end`
abbrev pub AllWithin : ℕ → ℕ → List Copy → Type 0
AllWithin dest_end src_end [] = Unit
AllWithin dest_end src_end (c ∷ cs) =
    (c.dest + c.size ≤ dest_end) × (c.src + c.size ≤ src_end) × AllWithin dest_end src_end cs

row_within :
    (W H tw th x mw r : ℕ)
    → tw ≤ W
    → th ≤ H
    → x + mw ≤ tw
    → r < th
    → 4 * (r * W + x) + 4 * mw ≤ 4 * (W * H)
row_within W H tw th x mw r a b c d = omega (arith, last, rest)
  where
    last : r * W + W ≤ th * W
    last = grind arith

    rest : th * W ≤ W * H
    rest = grind arith

src_within : (w h mw i : ℕ) → mw ≤ w → i < h → 4 * i * w + 4 * mw ≤ 4 * (w * h)
src_within w h mw i a b = omega (arith, last)
  where
    last : i * w + w ≤ w * h
    last = grind arith

rows_within :
    (t : Tex) (x y w h mw k i : ℕ)
    → IsTexture t
    → x + mw ≤ t.tw
    → mw ≤ w
    → y + i + k ≤ t.th
    → i + k ≤ h
    → AllWithin (4 * (t.w * t.h)) (4 * (w * h)) (rows t x y w mw k i)
unfolding rows
rows_within t x y w h mw zero i v a b c d = tt
rows_within t x y w h mw (suc k) i v a b c d =
    elim (Bool-cases (ltb (t.w * t.th + t.tw) ((y + i) * t.w + x))) [
      | inl e ↦ rw e tt
      | inr e ↦ rw e (
        row_within t.w t.h t.tw t.th x mw (y + i) v.width v.height a (omega arith),
        src_within w h mw i b (omega arith),
        rows_within t x y w h mw k (suc i) v a b (omega arith) (omega arith),
      )
    ]

mul_mono : (a b c : ℕ) → a ≤ b → a * c ≤ b * c
mul_mono a b c p = grind arith

-- far below the texture the first test already stops the loop
rows_far : (t : Tex) (x y w mw k : ℕ) → IsTexture t → t.th + 4096 < y → rows t x y w mw k 0 ≡ []
unfolding rows
rows_far t x y w mw zero v h = refl
rows_far t x y w mw (suc k) v h = rw stop
  where
    stop : ltb (t.w * t.th + t.tw) ((y + 0) * t.w + x) ≡ true
    stop =
        lt→ltb (t.w * t.th + t.tw) ((y + 0) * t.w + x)
          (omega (arith, mul_mono (t.th + 4097) y t.w (omega arith)))

extent_width :
    (tw x w : ℕ)
    → tw ≤ 4096
    → x ≤ tw + 2 ^ 15
    → x < 2 ^ 16
    → ((extent tw x w == 0) || leb (2 ^ 15) (extent tw x w)) ≡ false
    → (x + extent tw x w ≤ tw) × (extent tw x w ≤ w)
unfolding extent
extent_width tw x w a b c g = ground arith

-- the rounds of the loop: none, within the height, or from far below
extent_height :
    (th y h : ℕ)
    → th ≤ 4096
    → y < 2 ^ 16
    → let k = if leb (2 ^ 15) (extent th y h) then 0 else extent th y h in
      (k ≡ 0) ⊎ ((y + 0 + k ≤ th) × (0 + k ≤ h)) ⊎ (th + 4096 < y)
unfolding extent
extent_height th y h a b = ground arith

height_within :
    (t : Tex) (x y w h mw k : ℕ)
    → IsTexture t
    → x + mw ≤ t.tw
    → mw ≤ w
    → (k ≡ 0) ⊎ ((y + 0 + k ≤ t.th) × (0 + k ≤ h)) ⊎ (t.th + 4096 < y)
    → AllWithin (4 * (t.w * t.h)) (4 * (w * h)) (rows t x y w mw k 0)
height_within t x y w h mw k v a b (inl e) = rw e (unfold rows in tt)
height_within t x y w h mw k v a b (inr (inl (c, d))) = rows_within t x y w h mw k 0 v a b c d
height_within t x y w h mw k v a b (inr (inr f)) = rw (rows_far t x y w mw k v f) tt

-- Where the distance of `x` from the right edge fits an `int16_t`, every `memcpy` of `obj_load_tex`
-- stays in the buffer of the texture and in that of the request.
pub copies_within :
    (t : Tex) (x y w h : ℕ) {cs : List Copy}
    → IsTexture t
    → x ≤ t.tw + 2 ^ 15
    → x < 2 ^ 16
    → y < 2 ^ 16
    → copies t x y w h ≡ some cs
    → AllWithin (4 * (t.w * t.h)) (4 * (w * h)) cs
unfolding copies
copies_within t x y w h {cs} v ax bx by e =
    elim (Bool-cases ((extent t.tw x w == 0) || leb (2 ^ 15) (extent t.tw x w))) [
      | inl g ↦ cc (e, none_of g)
      | inr g ↦
          let (in_row, in_request) = extent_width t.tw x w v.width_max ax bx g in
          let these =
            height_within t x y w h (extent t.tw x w) _ v in_row in_request
              (extent_height t.th y h v.height_max by) in
          subst (AllWithin (4 * (t.w * t.h)) (4 * (w * h))) (some_of_eq (sym (some_of g) ∙ e)) these
    ]
  where
    none_of :
        ((extent t.tw x w == 0) || leb (2 ^ 15) (extent t.tw x w)) ≡ true → copies t x y w h ≡ none
    none_of g = unfold copies in rw g

    some_of :
        ((extent t.tw x w == 0) || leb (2 ^ 15) (extent t.tw x w)) ≡ false
        → copies t x y w h
          ≡ some (
              rows t x y w
                (extent t.tw x w)
                (if leb (2 ^ 15) (extent t.th y h) then 0 else extent t.th y h)
                0)
    some_of g = unfold copies in rw g

extent_wrapped :
    (tw x w : ℕ) → tw ≤ 4096 → tw + 2 ^ 15 < x → x < 2 ^ 16 → extent tw x w ≡ 2 ^ 16 + tw - x
unfolding extent
extent_wrapped tw x w a b c = ground arith

extent_inside : (th y h : ℕ) → th ≤ 4096 → y + h ≤ th → extent th y h ≡ h
unfolding extent
extent_inside th y h a b = ground arith

-- Where `x` lies more than 2 ^ 15 to the right of the texture, the `int16_t` wraps and the test for
-- "nothing to do" passes: for a row inside the texture from which the pixel `x` is still before the
-- position that the assertion allows, the first `memcpy` writes up to the pixel `2 ^ 16 + tw` of the
-- row. If the buffer ends before, it writes past the end of the buffer.
pub copies_escape :
    (t : Tex) (x y w k : ℕ)
    → IsTexture t
    → t.tw + 2 ^ 15 < x
    → x < 2 ^ 16
    → y + suc k ≤ t.th
    → y * t.w + x ≤ t.w * t.th + t.tw
    → t.w * t.h < y * t.w + 2 ^ 16 + t.tw
    → (c : Copy) × (cs : List Copy) × (copies t x y w (suc k) ≡ some (c ∷ cs))
      × (4 * (t.w * t.h) < c.dest + c.size)
unfolding copies rows
copies_escape t x y w k v a b c p q = (
  record { dest = 4 * ((y + 0) * t.w + x); src = 4 * 0 * w; size = 4 * (2 ^ 16 + t.tw - x) },
  rows t x y w (2 ^ 16 + t.tw - x) k 1,
  rw (extent_wrapped t.tw x w v.width_max a b, extent_inside t.th y (suc k) v.height_max c)
      (ground arith),
  omega arith,
)
