-- ===== src/Hash/Lookup.antt =====
-- What is found in a table of libs3d/hash.c after an addition or a removal.
use s3d.Base.{
  ℕ, ◌+◌, ◌-◌, ◌<◌, ◌≡◌, ◌≢◌, ap, ◌∙◌, arith, true, none, some, List, [], ◌∷◌, ◌++◌, length,
  Bool-cases, Option-cases, inl, inr, if◌then◌else◌, ◌==◌, get_or, set, get_or-set, length-set,
}
use mathlib.Core.Path.{subst⁻¹}
use s3d.Hash.{
  Callbacks, HashTable, ok, error, find_bucket, unlink_bucket, hash_add, hash_find, hash_remove,
}
use s3d.Hash.Buckets.{
  IsKeyed, Distinct, append_bucket_lem, find_bucket-append, find_bucket-one, find_bucket-same,
  find_bucket-unlink, unlink_bucket-Distinct, unlink_bucket-find, append-Distinct,
}

-- The list at an index holds data that belong there, one for each key.
pub record IsPlaced {D : Type 0} (cb : Callbacks D) (h : HashTable D) : Type 0 where
  pub sized : length h.table ≡ h.size
  pub not_empty : 0 < h.size
  pub distinct : (i : ℕ) → Distinct cb (get_or h.table i [])
  pub placed :
      (i : ℕ) (key : D) → find_bucket cb (get_or h.table i []) key ≢ none → cb.choose key h.size ≡ i

module _ {D : Type 0} (cb : Callbacks D) (keyed : IsKeyed cb) where
  abbrev pub bucket_of : HashTable D → D → List D
  bucket_of h key = get_or h.table (cb.choose key h.size) []

  -- the table with another list for a key
  abbrev pub replaced : HashTable D → D → List D → ℕ → HashTable D
  replaced h item b n = record h { table = set h.table (cb.choose item h.size) b; elements = n }

  pub hash_add_lem :
      (h : HashTable D) (item : D)
      → hash_add cb true h item ≡ (elim (hash_find cb h item) [
        | none ↦ (ok, replaced h item (bucket_of h item ++ (item ∷ [])) (h.elements + 1))
        | some x ↦ (error, h)
      ])
  unfolding hash_find hash_add
  hash_add_lem h item = ground (arith, append_bucket_lem cb (bucket_of h item) item)

  bucket_of-replaced :
      (h : HashTable D) (item key : D) (b : List D) (n : ℕ)
      → IsPlaced cb h
      → bucket_of (replaced h item b n) key
        ≡ (if cb.choose item h.size == cb.choose key h.size then b else bucket_of h key)
  bucket_of-replaced h item key b n p =
      get_or-set h.table (cb.choose item h.size) (cb.choose key h.size) b []
        (ground (arith, p.sized, p.not_empty, keyed.choose_lt item h.size))

  -- With callbacks that compare and hash keys, a well-formed table finds after an addition, for which
  -- there is memory, what it found before, and the new datum for its key if there was none of that key.
  pub find-add :
      (h : HashTable D) (item key : D)
      → IsPlaced cb h
      → hash_find cb (hash_add cb true h item).1 key ≡ (elim (hash_find cb h key) [
        | none ↦ if cb.same item key then some item else none
        | some x ↦ some x
      ])
  unfolding hash_find
  find-add h item key p = ground (
    arith,
    hash_add_lem h item,
    bucket_of-replaced h item key (bucket_of h item ++ (item ∷ [])) (h.elements + 1) p,
    ap (get_or h.table),
    keyed.choose_same item key h.size,
    find_bucket-append cb (bucket_of h item) (item ∷ []) key,
    find_bucket-one cb item key,
    find_bucket-same cb keyed (bucket_of h item) item key,
  )

  pub hash_remove_lem :
      (h : HashTable D) (item : D)
      → hash_remove cb h item ≡ (elim (hash_find cb h item) [
        | none ↦ (none, h)
        | some x ↦
            (some x, replaced h item (unlink_bucket cb (bucket_of h item) item).1 (h.elements - 1))
      ])
  unfolding hash_find hash_remove
  hash_remove_lem h item = ground (arith, unlink_bucket-find cb keyed (bucket_of h item) item)

  -- With callbacks that compare and hash keys, a well-formed table finds after a removal nothing for
  -- that key, and for the others what it found before.
  pub find-remove :
      (h : HashTable D) (item key : D)
      → IsPlaced cb h
      → hash_find cb (hash_remove cb h item).1 key
        ≡ (if cb.same item key then none else hash_find cb h key)
  unfolding hash_find
  find-remove h item key p = ground (
    arith,
    hash_remove_lem h item,
    bucket_of-replaced h item key (unlink_bucket cb (bucket_of h item) item).1 (h.elements - 1) p,
    ap (get_or h.table),
    keyed.choose_same item key h.size,
    find_bucket-unlink cb keyed (bucket_of h item) item key (p.distinct (cb.choose item h.size)),
    find_bucket-same cb keyed (bucket_of h item) item key,
  )

  -- a list that may take the place of another one
  replaced-IsPlaced :
      (h : HashTable D) (item : D) (b : List D) (n : ℕ)
      → IsPlaced cb h
      → Distinct cb b
      → ((key : D) → find_bucket cb b key ≢ none → cb.choose key h.size ≡ cb.choose item h.size)
      → IsPlaced cb (replaced h item b n)
  replaced-IsPlaced h item b n p d f =
      let at = λ (i : ℕ).
        get_or-set h.table (cb.choose item h.size) i b []
          (ground (arith, p.sized, p.not_empty, keyed.choose_lt item h.size)) in
      record {
        sized = length-set h.table (cb.choose item h.size) b ∙ p.sized;
        not_empty = p.not_empty;
        distinct = λ i.
            subst⁻¹ (Distinct cb) (at i) (elim (Bool-cases (cb.choose item h.size == i)) [
              | inl e ↦ rw e d
              | inr e ↦ rw e (p.distinct i)
            ]);
        placed = λ i key. ground (arith, at i, f key, p.placed i key);
      }

  pub hash_add-IsPlaced :
      (h : HashTable D) (item : D) → IsPlaced cb h → IsPlaced cb (hash_add cb true h item).1
  unfolding hash_find
  hash_add-IsPlaced h item p = elim (Option-cases (hash_find cb h item)) [
    | inl e ↦
        rw (hash_add_lem h item, e)
          (replaced-IsPlaced h item (bucket_of h item ++ (item ∷ [])) (h.elements + 1) p
            (append-Distinct cb keyed (bucket_of h item) item e
              (p.distinct (cb.choose item h.size)))
            (λ key. ground (
              arith,
              find_bucket-append cb (bucket_of h item) (item ∷ []) key,
              find_bucket-one cb item key,
              keyed.choose_same item key h.size,
              p.placed (cb.choose item h.size) key,
            )))
    | inr (x, e) ↦ rw (hash_add_lem h item, e) p
  ]

  pub hash_remove-IsPlaced :
      (h : HashTable D) (item : D) → IsPlaced cb h → IsPlaced cb (hash_remove cb h item).1
  unfolding hash_find
  hash_remove-IsPlaced h item p = elim (Option-cases (hash_find cb h item)) [
    | inl e ↦ rw (hash_remove_lem h item, e) p
    | inr (x, e) ↦
        rw (hash_remove_lem h item, e)
          (replaced-IsPlaced h item (unlink_bucket cb (bucket_of h item) item).1 (h.elements - 1) p
            (unlink_bucket-Distinct cb keyed (bucket_of h item) item
              (p.distinct (cb.choose item h.size)))
            (λ key. ground (
              arith,
              find_bucket-unlink cb keyed (bucket_of h item) item key
                  (p.distinct (cb.choose item h.size)),
              p.placed (cb.choose item h.size) key,
            )))
  ]
