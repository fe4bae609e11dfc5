-- ===== src/Hash/Counts.antt =====
-- The counter `elements` of libs3d/hash.c.
use s3d.Base.{
  ℕ, zero, suc, ◌+◌, ◌≤◌, ◌<◌, ◌≡◌, ◌≢◌, arith, true, none, List, [], ◌∷◌, ◌++◌, length, get_or,
  set, length-append,
}
use s3d.Hash.{
  Callbacks, HashTable, all_data, find_bucket, unlink_bucket, hash_add, hash_find, hash_remove,
}
use s3d.Hash.Buckets.{IsKeyed}
use s3d.Hash.Lookup.{
  IsPlaced, bucket_of, hash_add-IsPlaced, hash_remove-IsPlaced, hash_add_lem, hash_remove_lem,
}

-- The counter is the number of the data in the table.
abbrev pub IsCounted : {D : Type 0} → HashTable D → Type 0
IsCounted h = h.elements ≡ length (all_data h.table)

module _ {D : Type 0} where
  length-all_data-set :
      (bs : List (List D)) (i : ℕ) (b : List D)
      → i < length bs
      → length (all_data (set bs i b)) + length (get_or bs i []) ≡ length (all_data bs) + length b
  unfolding all_data
  length-all_data-set [] i b lt = ground arith
  length-all_data-set (x ∷ bs) zero b lt =
      ground (arith, length-append b (all_data bs), length-append x (all_data bs))
  length-all_data-set (x ∷ bs) (suc i) b lt = ground (
    arith,
    length-all_data-set bs i b,
    length-append x (all_data bs),
    length-append x (all_data (set bs i b)),
  )

  length-get_or-le : (bs : List (List D)) (i : ℕ) → length (get_or bs i []) ≤ length (all_data bs)
  unfolding all_data
  length-get_or-le [] i = ground arith
  length-get_or-le (x ∷ bs) zero = ground (arith, length-append x (all_data bs))
  length-get_or-le (x ∷ bs) (suc i) =
      ground (arith, length-append x (all_data bs), length-get_or-le bs i)

module _ {D : Type 0} (cb : Callbacks D) (keyed : IsKeyed cb) where
  length-unlink :
      (b : List D) (item : D)
      → find_bucket cb b item ≢ none
      → suc (length (unlink_bucket cb b item).1) ≡ length b
  unfolding unlink_bucket find_bucket
  length-unlink [] item f = ground arith
  length-unlink (x ∷ b) item f = ground (arith, length-unlink b item)

  pub hash_add-IsCounted :
      (h : HashTable D) (item : D)
      → IsPlaced cb h
      → IsCounted h
      → IsCounted (hash_add cb true h item).1
  hash_add-IsCounted h item p c = ground (
    arith,
    hash_add_lem cb keyed h item,
    length-all_data-set h.table (cb.choose item h.size) (bucket_of cb keyed h item ++ (item ∷ [])),
    p.sized,
    p.not_empty,
    keyed.choose_lt item h.size,
    length-append (bucket_of cb keyed h item) (item ∷ []),
  )

  pub hash_remove-IsCounted :
      (h : HashTable D) (item : D)
      → IsPlaced cb h
      → IsCounted h
      → IsCounted (hash_remove cb h item).1
  unfolding hash_find
  hash_remove-IsCounted h item p c = ground (
    arith,
    hash_remove_lem cb keyed h item,
    length-all_data-set h.table (cb.choose item h.size)
        (unlink_bucket cb (bucket_of cb keyed h item) item).1,
    length-get_or-le h.table (cb.choose item h.size),
    p.sized,
    p.not_empty,
    keyed.choose_lt item h.size,
    length-unlink (bucket_of cb keyed h item) item,
  )

  -- With callbacks that compare and hash keys, an addition, for which there is memory, and a removal
  -- keep every datum in its list, one for a key, and the counter right.
  pub add_remove-keep :
      (h : HashTable D) (item : D)
      → IsPlaced cb h
      → IsCounted h
      → (IsPlaced cb (hash_add cb true h item).1 × IsCounted (hash_add cb true h item).1)
        × (IsPlaced cb (hash_remove cb h item).1 × IsCounted (hash_remove cb h item).1)
  add_remove-keep h item p c = (
    (hash_add-IsPlaced cb keyed h item p, hash_add-IsCounted h item p c),
    (hash_remove-IsPlaced cb keyed h item p, hash_remove-IsCounted h item p c),
  )
