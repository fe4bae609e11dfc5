-- ===== src/Hash/AllData.antt =====
-- All the data of a table of libs3d/hash.c, list after list.
use s3d.Base.{
  ℕ, zero, suc, ◌+◌, ◌≡◌, ◌≢◌, refl, arith, none, List, [], ◌∷◌, ◌++◌, Option-cases, get_or,
}
use s3d.Hash.{Callbacks, all_data, find_bucket}
use s3d.Hash.Buckets.{IsKeyed, Distinct, empty, cons, find_bucket-append}

module _ {D : Type 0} (cb : Callbacks D) (keyed : IsKeyed cb) where
  pub nowhere :
      (bs : List (List D)) (key : D)
      → ((j : ℕ) → find_bucket cb (get_or bs j []) key ≡ none)
      → find_bucket cb (all_data bs) key ≡ none
  unfolding all_data find_bucket
  nowhere [] key f = refl
  nowhere (b ∷ bs) key f =
      ground
        (arith, find_bucket-append cb b (all_data bs) key, f 0, nowhere bs key (λ j. f (suc j)))

  -- Among all the data a key is found in its list, if it is in no other list.
  pub find-all_data :
      (bs : List (List D)) (i : ℕ) (key : D)
      → ((j : ℕ) → j ≢ i → find_bucket cb (get_or bs j []) key ≡ none)
      → find_bucket cb (all_data bs) key ≡ find_bucket cb (get_or bs i []) key
  unfolding all_data
  find-all_data [] i key f = refl
  find-all_data (b ∷ bs) zero key f = ground (
    arith,
    find_bucket-append cb b (all_data bs) key,
    nowhere bs key (λ j. f (suc j) (ground arith)),
  )
  find-all_data (b ∷ bs) (suc i) key f = ground (
    arith,
    find_bucket-append cb b (all_data bs) key,
    f 0,
    find-all_data bs i key (λ j d. f (suc j) (ground arith)),
  )

  append-Distinct_lists :
      (b c : List D)
      → Distinct cb b
      → Distinct cb c
      → ((key : D) → find_bucket cb b key ≢ none → find_bucket cb c key ≡ none)
      → Distinct cb (b ++ c)
  unfolding find_bucket
  append-Distinct_lists [] c d e f = e
  append-Distinct_lists (x ∷ b) c (cons g d) e f =
      cons (ground (arith, find_bucket-append cb b c x, f x, keyed.same_refl x))
        (append-Distinct_lists b c d e (λ key. ground (arith, f key)))

  -- Lists in which every key is at the place of its list have no key in common.
  pub Distinct-all_data :
      (bs : List (List D)) (offset : ℕ) (place : D → ℕ)
      → ((i : ℕ) → Distinct cb (get_or bs i []))
      → ((i : ℕ) (key : D) → find_bucket cb (get_or bs i []) key ≢ none → place key ≡ offset + i)
      → Distinct cb (all_data bs)
  unfolding all_data
  Distinct-all_data [] offset place d f = empty
  Distinct-all_data (b ∷ bs) offset place d f =
      append-Distinct_lists b (all_data bs) (d 0)
        (Distinct-all_data bs (suc offset) place (λ i. d (suc i))
          (λ i key g. ground (arith, f (suc i) key g)))
        (λ key g. nowhere bs key (λ j.
          ground
            (arith, f 0 key g, f (suc j) key, Option-cases (find_bucket cb (get_or bs j []) key))))
