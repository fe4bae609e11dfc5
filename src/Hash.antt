-- ===== src/Hash.antt =====
-- The hash table of libs3d/hash.c, which the event loops of libs3d and its programs keep their data in:
-- an array of lists of buckets. `compare` and `choose` are callbacks of the program that makes the
-- table, a record of the two; `compare` is kept as its test for 0. A list of buckets is the list of
-- their data, NULL the empty one. `malloc` is a Boolean argument of what calls it.
pub mod Buckets
pub mod Lookup
pub mod Counts
pub mod AllData
pub mod Resize
mod Tests
use s3d.Base.{
  ℕ, zero, suc, ◌+◌, ◌-◌, ◌<◌, ◌≡◌, Bool, true, false, Option, none, some, List, [], ◌∷◌, ◌++◌,
  length, replicate, get_or, set, if◌then◌else◌,
}

-- `hashdata_compare_cb`, which returns 0 for the same key, and `hashdata_choose_cb`
pub record Callbacks (D : Type 0) : Type 0 where
  pub same : D → D → Bool
  pub choose : D → ℕ → ℕ

-- `struct hashtable_t` without its callbacks
pub record HashTable (D : Type 0) : Type 0 where
  pub table : List (List D)
  pub elements : ℕ
  pub size : ℕ

-- the values 0 and -1
pub data Added : Type 0 where
  ok error : Added

module _ {D : Type 0} where
  unfoldable pub hash_init : HashTable D → HashTable D
  hash_init h = record h { table = replicate h.size []; elements = 0 }

  -- the two results of `malloc`
  unfoldable pub hash_new : Bool → Bool → ℕ → Option (HashTable D)
  unfolding hash_init
  hash_new control array size =
      if control
      then if array
        then some (hash_init (record { table = []; elements = 0; size = size }))
        else none
      else none

  -- what `free_cb` is called with, in order
  unfoldable pub all_data : List (List D) → List D
  all_data [] = []
  all_data (b ∷ bs) = b ++ all_data bs

  unfoldable pub hash_delete : HashTable D → List D
  unfolding all_data
  hash_delete h = all_data h.table

module _ {D : Type 0} (cb : Callbacks D) where
  -- the way to the end of a list of buckets, which a bucket of the same key stops
  unfoldable pub append_bucket : List D → D → Option (List D)
  append_bucket [] item = some (item ∷ [])
  append_bucket (x ∷ b) item =
      let rest = append_bucket b item in
      if cb.same x item then none else elim rest [ none ↦ none | some b' ↦ some (x ∷ b') ]

  unfoldable pub find_bucket : List D → D → Option D
  find_bucket [] key = none
  find_bucket (x ∷ b) key = let rest = find_bucket b key in if cb.same x key then some x else rest

  -- the first bucket of the same key is unlinked
  unfoldable pub unlink_bucket : List D → D → Option D × List D
  unlink_bucket [] item = (none, [])
  unlink_bucket (x ∷ b) item =
      let rest = unlink_bucket b item in
      if cb.same x item then (some x, b) else (rest.0, x ∷ rest.1)

  unfoldable pub hash_add : Bool → HashTable D → D → Added × HashTable D
  unfolding append_bucket
  hash_add memory h item =
      let index = cb.choose item h.size in
      elim (append_bucket (get_or h.table index []) item) [
        | none ↦ (error, h)
        | some b ↦
            if memory
            then (ok, record h { table = set h.table index b; elements = h.elements + 1 })
            else (error, h)
      ]

  unfoldable pub hash_find : HashTable D → D → Option D
  unfolding find_bucket
  hash_find h key = find_bucket (get_or h.table (cb.choose key h.size) []) key

  unfoldable pub hash_remove : HashTable D → D → Option D × HashTable D
  unfolding unlink_bucket
  hash_remove h item =
      let index = cb.choose item h.size in
      let r = unlink_bucket (get_or h.table index []) item in
      elim r.0 [
        | none ↦ (none, h)
        | some x ↦ (some x, record h { table = set h.table index r.1; elements = h.elements - 1 })
      ]

  -- the two loops of the copy: over the lists, and over the buckets of one
  unfoldable pub add_bucket : HashTable D → List D → HashTable D
  unfolding hash_add
  add_bucket h [] = h
  add_bucket h (x ∷ b) = add_bucket (hash_add true h x).1 b

  unfoldable pub add_table : HashTable D → List (List D) → HashTable D
  unfolding add_bucket
  add_table h [] = h
  add_table h (b ∷ bs) = add_table (add_bucket h b) bs

  -- with the memory for the new table; that for the buckets is there
  unfoldable pub hash_resize : Bool → Bool → HashTable D → ℕ → Option (HashTable D)
  unfolding add_table hash_new
  hash_resize control array h size = elim (hash_new control array size) [
    | none ↦ none
    | some new_hash ↦ some (add_table new_hash h.table)
  ]
