-- ===== src/Animation/Removal.antt =====
-- s3dw_ani_del and s3dw_ani_stackpos of libs3dw/animate.c.
use s3d.Base.{
  ℕ, suc, ◌+◌, ◌-◌, ◌≡◌, refl, ap, ◌∙◌, arith, true, List, [], ◌∷◌, ◌++◌, length, take, set, get_or,
  ltb, count, length-append, length-take, length-take,
}
use s3d.Animation.{ani_del}

module _ {A : Type 0} where
  pub get_or-behind : (pre xs : List A) (x d : A) → get_or (pre ++ (x ∷ xs)) (length pre) d ≡ x
  get_or-behind [] xs x d = refl
  get_or-behind (y ∷ pre) xs x d = get_or-behind pre xs x d

  pub set-behind :
      (pre xs : List A) (x y : A) → set (pre ++ (x ∷ xs)) (length pre) y ≡ pre ++ (y ∷ xs)
  set-behind [] xs x y = refl
  set-behind (z ∷ pre) xs x y = ap (λ l. z ∷ l) (set-behind pre xs x y)

  pub take-behind : (pre xs : List A) (n : ℕ) → take (length pre + n) (pre ++ xs) ≡ pre ++ take n xs
  take-behind [] xs n = ap (λ k. take k xs) (omega arith)
  take-behind (y ∷ pre) xs n =
      ap (λ k. take k (y ∷ (pre ++ xs)))
        (let e : suc (length pre) + n ≡ suc (length pre + n) = omega arith in e)
      ∙ ap (λ l. y ∷ l) (take-behind pre xs n)

  pub get_or-behind_at :
      (pre xs : List A) (n : ℕ) (d : A) → get_or (pre ++ xs) (length pre + n) d ≡ get_or xs n d
  get_or-behind_at [] xs n d = ap (λ k. get_or xs k d) (omega arith)
  get_or-behind_at (y ∷ pre) xs n d =
      ap (λ k. get_or (y ∷ (pre ++ xs)) k d)
        (let e : suc (length pre) + n ≡ suc (length pre + n) = omega arith in e)
      ∙ get_or-behind_at pre xs n d

-- what stands behind a widget that is removed: the last one comes first
pub moved_up : List ℕ → List ℕ
moved_up [] = []
moved_up (y ∷ xs) = get_or (y ∷ xs) (length xs) 0 ∷ take (length xs) (y ∷ xs)

pub count-moved_up : (v : ℕ) (xs : List ℕ) → count v (moved_up xs) ≡ count v xs
unfolding moved_up
count-moved_up v [] = refl
count-moved_up v (y ∷ []) = refl
count-moved_up v (y ∷ z ∷ xs) = ground (arith, count-moved_up v (z ∷ xs))

pub ani_del-behind :
    (pre xs : List ℕ) (x : ℕ) → ani_del (pre ++ (x ∷ xs)) (length pre) ≡ pre ++ moved_up xs
unfolding ani_del moved_up
ani_del-behind pre [] x =
    let inside : ltb (length pre) (length (pre ++ (x ∷ []))) ≡ true =
      ground (arith, length-append pre (x ∷ [])) in
    let short : length (pre ++ (x ∷ [])) - 1 ≡ length pre + 0 =
      omega (arith, length-append pre (x ∷ [])) in
    rw (inside, short, set-behind pre [] x (get_or (pre ++ (x ∷ [])) (length pre + 0) 0))
      (take-behind pre (get_or (pre ++ (x ∷ [])) (length pre + 0) 0 ∷ []) 0)
ani_del-behind pre (y ∷ xs) x =
    let inside : ltb (length pre) (length (pre ++ (x ∷ y ∷ xs))) ≡ true =
      ground (arith, length-append pre (x ∷ y ∷ xs)) in
    let short : length (pre ++ (x ∷ y ∷ xs)) - 1 ≡ length pre + suc (length xs) =
      omega (arith, length-append pre (x ∷ y ∷ xs)) in
    let last = get_or (y ∷ xs) (length xs) 0 in
    rw
      (
        inside,
        short,
        get_or-behind_at pre (x ∷ y ∷ xs) (suc (length xs)) 0,
        set-behind pre (y ∷ xs) x last,
      )
      (take-behind pre (last ∷ y ∷ xs) (suc (length xs)))

pub length-moved_up : (xs : List ℕ) → length (moved_up xs) ≡ length xs
unfolding moved_up
length-moved_up [] = refl
length-moved_up (y ∷ xs) = omega (arith, length-take (length xs) (y ∷ xs))
