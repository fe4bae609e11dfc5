-- ===== src/Animation/Stack.antt =====
-- s3dw_ani_add of libs3dw/animate.c: the stack.
use s3d.Base.{
  ℕ, ◌⊎◌, suc, ◌≤◌, ◌≡◌, refl, arith, Bool-cases, Option-cases, inl, inr, true, false, not, ◌&&◌,
  none, some, List, [], ◌∷◌, ◌++◌, length, ltb, ◌==◌, count, count-append, length-append,
}
use s3d.Object.{Floats}
use s3d.Animation.{Animation, maxani, tcam, finished, stackpos_from, ani_stackpos, ani_add}
use s3d.Animation.Rounds.{IsDistinct}

-- The stack has room for its widgets, and none is there twice.
abbrev pub IsStack : List ℕ → Type 0
IsStack stack = (length stack ≤ maxani) × IsDistinct stack

pub stackpos_from-count :
    (f : ℕ) (xs : List ℕ) (i : ℕ) → stackpos_from xs f i ≡ none → count f xs ≡ 0
unfolding stackpos_from
stackpos_from-count f [] i h = refl
stackpos_from-count f (x ∷ xs) i h = ground (arith, stackpos_from-count f xs (suc i))

stackpos_from-Found :
    (f : ℕ) (xs : List ℕ) (i j : ℕ) → stackpos_from xs f i ≡ some j → 1 ≤ count f xs
unfolding stackpos_from
stackpos_from-Found f [] i j h = ground arith
stackpos_from-Found f (x ∷ xs) i j h = ground (arith, stackpos_from-Found f xs (suc i) j)

same_id : (f : ℕ) → (f == f) ≡ true
same_id f = ground arith

count_self : (f : ℕ) → count f (f ∷ []) ≡ 1
count_self f = ground arith

append-IsStack :
    (xs : List ℕ) (f : ℕ)
    → IsStack xs
    → ltb (length xs) maxani ≡ true
    → count f xs ≡ 0
    → IsStack (xs ++ (f ∷ []))
append-IsStack xs f (short, once) c h = (
  ground (arith, length-append xs (f ∷ [])),
  λ v. ground (arith, count-append v xs (f ∷ []), once v),
)

module _ {F : Type 0} (fl : Floats F) (zooms zooms_1 : F) where
  pub ani_add-IsStack :
      (a : Animation F) (f : ℕ)
      → (((a.widgets f).oid == 0) && not ((a.widgets f).type == tcam)) ≡ false
      → IsStack a.stack
      → let after = ani_add fl zooms zooms_1 a f in
        IsStack after.stack
        × ((count f after.stack ≡ 1) ⊎ ((after.widgets f).now ≡ (a.widgets f).goal))
  unfolding ani_add finished
  ani_add-IsStack a f known (short, once) =
      elim (Bool-cases (ltb (length a.stack) maxani && a.on)) [
        | inl c ↦ elim (Option-cases (ani_stackpos a.stack f)) [
          | inl n ↦
              let room : ltb (length a.stack) maxani ≡ true = ground arith in
              let absent = stackpos_from-count f a.stack 0 n in
              rw (known, c, n)
                (
                  append-IsStack a.stack f (short, once) room absent,
                  inl (omega (arith, count-append f a.stack (f ∷ []), absent, count_self f)),
                )
          | inr (i, e) ↦
              rw (known, c, e)
                ((short, once), inl (omega (arith, once f, stackpos_from-Found f a.stack 0 i e)))
        ]
        | inr c ↦ rw (known, c) ((short, once), inr (rw (same_id f) refl))
      ]
