-- ===== src/Object/Links/Count.antt =====
-- The number of ids below a bound that pass a test, by which the loop of `obj_free` in
-- server/object.c over the children of an object ends.
use s3d.Base.{
  ℕ, zero, suc, ◌+◌, ◌≤◌, ◌<◌, ◌≡◌, ◌⊎◌, inl, inr, ap, refl, arith, Bool, true, false,
  if◌then◌else◌, ◌==◌,
}

abbrev pub count : ℕ → (ℕ → Bool) → ℕ
count zero f = 0
count (suc m) f = (if f m then 1 else 0) + count m f

pub count-le : (m : ℕ) (f : ℕ → Bool) → count m f ≤ m
count-le zero f = ground arith
count-le (suc m) f = ground (arith, count-le m f)

pub count-same :
    (m c : ℕ) (f f' : ℕ → Bool)
    → m ≤ c
    → ((i : ℕ) → f' i ≡ (if c == i then false else f i))
    → count m f' ≡ count m f
count-same zero c f f' le e = refl
count-same (suc m) c f f' le e = ground (arith, e m, count-same m c f f' (ground arith) e)

eq-or-lt : (c m : ℕ) → c < suc m → (c ≡ m) ⊎ (c < m)
eq-or-lt c m lt = ground arith

-- One id fewer passes.
pub count-drop :
    (m c : ℕ) (f f' : ℕ → Bool)
    → c < m
    → f c ≡ true
    → ((i : ℕ) → f' i ≡ (if c == i then false else f i))
    → suc (count m f') ≡ count m f
count-drop zero c f f' lt t e = ground arith
count-drop (suc m) c f f' lt t e = elim (eq-or-lt c m lt) [
  | inl eq ↦ ground (arith, e m, count-same m c f f' (ground arith) e, ap f eq)
  | inr l ↦ ground (arith, e m, count-drop m c f f' l t e)
]
