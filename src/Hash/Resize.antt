-- ===== src/Hash/Resize.antt =====
-- `_s3d_hash_resize` of libs3d/hash.c: a new table with the data of the old one.
use mathlib.Core.Path.{subst⁻¹}
use s3d.Base.{
  ℕ, zero, suc, ◌+◌, ◌<◌, ◌≡◌, ◌≢◌, refl, ap, sym, ◌∙◌, arith, true, none, some, List, [], ◌∷◌,
  ◌++◌, length, Option-cases, get_or, replicate,
}
use s3d.Hash.{
  Callbacks, HashTable, all_data, find_bucket, hash_init, hash_new, hash_add, hash_find, add_bucket,
  add_table, hash_resize,
}
use s3d.Hash.Buckets.{IsKeyed, Distinct, empty, cons, find_bucket-same}
use s3d.Hash.Lookup.{IsPlaced, hash_add_lem, find-add, hash_add-IsPlaced}
use s3d.Hash.AllData.{find-all_data, Distinct-all_data}

module _ (D : Type 0) where
  abbrev no_data : List D
  no_data = []

  length-replicate : (n : ℕ) → length (replicate n no_data) ≡ n
  length-replicate zero = refl
  length-replicate (suc n) = ap suc (length-replicate n)

  get_or-replicate : (n i : ℕ) → get_or (replicate n no_data) i [] ≡ []
  get_or-replicate zero i = refl
  get_or-replicate (suc n) zero = refl
  get_or-replicate (suc n) (suc i) = get_or-replicate n i

  all_data-replicate : (n : ℕ) → all_data (replicate n no_data) ≡ []
  unfolding all_data
  all_data-replicate zero = refl
  all_data-replicate (suc n) = all_data-replicate n

module _ {D : Type 0} where
  -- the table that `_s3d_hash_new` returns
  abbrev pub empty_table : ℕ → HashTable D
  empty_table size = record { table = replicate size []; elements = 0; size = size }

module _ {D : Type 0} (cb : Callbacks D) where
  pub empty_table-IsPlaced : (size : ℕ) → 0 < size → IsPlaced cb (empty_table size)
  unfolding find_bucket
  empty_table-IsPlaced size lt = record {
    sized = length-replicate D size;
    not_empty = lt;
    distinct = λ i. subst⁻¹ (Distinct cb) (get_or-replicate D size i) empty;
    placed = λ i key. ground (arith, get_or-replicate D size i);
  }

  empty_table-find : (size : ℕ) (key : D) → hash_find cb (empty_table size) key ≡ none
  unfolding hash_find find_bucket
  empty_table-find size key = ground (arith, get_or-replicate D size (cb.choose key size))

module _ {D : Type 0} (cb : Callbacks D) (keyed : IsKeyed cb) where
  add_bucket-IsPlaced :
      (h : HashTable D) (b : List D) → IsPlaced cb h → IsPlaced cb (add_bucket cb h b)
  unfolding add_bucket
  add_bucket-IsPlaced h [] p = p
  add_bucket-IsPlaced h (x ∷ b) p =
      add_bucket-IsPlaced (hash_add cb true h x).1 b (hash_add-IsPlaced cb keyed h x p)

  find-add_bucket :
      (h : HashTable D) (b : List D) (key : D)
      → IsPlaced cb h
      → hash_find cb (add_bucket cb h b) key
        ≡ (elim (hash_find cb h key) [ none ↦ find_bucket cb b key | some x ↦ some x ])
  unfolding add_bucket find_bucket
  find-add_bucket h [] key p = ground arith
  find-add_bucket h (x ∷ b) key p = ground (
    arith,
    find-add_bucket (hash_add cb true h x).1 b key (hash_add-IsPlaced cb keyed h x p),
    find-add cb keyed h x key p,
  )

  add_bucket-append :
      (h : HashTable D) (b c : List D)
      → add_bucket cb h (b ++ c) ≡ add_bucket cb (add_bucket cb h b) c
  unfolding add_bucket
  add_bucket-append h [] c = refl
  add_bucket-append h (x ∷ b) c = add_bucket-append (hash_add cb true h x).1 b c

  -- the loop over the lists adds their data one after the other
  add_table_lem :
      (h : HashTable D) (bs : List (List D)) → add_table cb h bs ≡ add_bucket cb h (all_data bs)
  unfolding add_table add_bucket all_data
  add_table_lem h [] = refl
  add_table_lem h (b ∷ bs) =
      add_table_lem (add_bucket cb h b) bs ∙ sym (add_bucket-append h b (all_data bs))

  -- Data of keys that are not there yet are all counted.
  add_bucket-elements :
      (h : HashTable D) (b : List D)
      → IsPlaced cb h
      → Distinct cb b
      → ((key : D) → find_bucket cb b key ≢ none → hash_find cb h key ≡ none)
      → (add_bucket cb h b).elements ≡ h.elements + length b
  unfolding add_bucket find_bucket
  add_bucket-elements h [] p d f = ground arith
  add_bucket-elements h (x ∷ b) p (cons e d) f = ground (
    arith,
    f x,
    keyed.same_refl x,
    hash_add_lem cb keyed h x,
    add_bucket-elements (hash_add cb true h x).1 b (hash_add-IsPlaced cb keyed h x p) d (λ key.
        ground (arith, f key, find-add cb keyed h x key p, find_bucket-same cb keyed b x key)),
  )

  resize_lem :
      (h : HashTable D) (size : ℕ)
      → hash_resize cb true true h size ≡ some (add_bucket cb (empty_table size) (all_data h.table))
  unfolding hash_resize hash_new hash_init
  resize_lem h size = ap some (add_table_lem (empty_table size) h.table)

  -- With callbacks that compare and hash keys, a well-formed table that is resized, to a size that is not
  -- 0 and with memory for it, is well formed, finds what the old one found, and counts its data.
  pub find-resize :
      (h : HashTable D) (size : ℕ)
      → IsPlaced cb h
      → 0 < size
      → (h' : HashTable D) × (hash_resize cb true true h size ≡ some h')
        × IsPlaced cb h'
        × (h'.elements ≡ length (all_data h.table))
        × ((key : D) → hash_find cb h' key ≡ hash_find cb h key)
  unfolding hash_find
  find-resize h size p lt = (
    add_bucket cb (empty_table size) (all_data h.table),
    resize_lem h size,
    add_bucket-IsPlaced (empty_table size) (all_data h.table) (empty_table-IsPlaced cb size lt),
    ground (
      arith,
      add_bucket-elements (empty_table size) (all_data h.table) (empty_table-IsPlaced cb size lt)
          (Distinct-all_data cb keyed h.table 0 (λ k. cb.choose k h.size) p.distinct
            (λ i k d. ground (arith, p.placed i k d)))
          (λ key d. empty_table-find cb size key),
    ),
    λ key. ground (
      arith,
      find-add_bucket (empty_table size) (all_data h.table) key (empty_table-IsPlaced cb size lt),
      empty_table-find cb size key,
      find-all_data cb keyed h.table (cb.choose key h.size) key (λ j d.
          ground (arith, p.placed j key, Option-cases (find_bucket cb (get_or h.table j []) key))),
    ),
  )
