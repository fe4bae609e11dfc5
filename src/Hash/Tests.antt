-- ===== src/Hash/Tests.antt =====
-- Tables of values with a number, which is their key.
use s3d.Base.{
  ℕ, ◌%◌, ◌<◌, ◌≡◌, ◌≢◌, refl, get_or, arith, true, none, some, [], ◌∷◌, length, if◌then◌else◌,
  ◌==◌, zero, suc,
}
use s3d.Hash.{
  Callbacks, HashTable, error, all_data, find_bucket, hash_add, hash_find, hash_remove, hash_resize,
  hash_delete,
}
use s3d.Hash.Buckets.{IsKeyed, Distinct, empty, cons}
use s3d.Hash.Lookup.{IsPlaced, find-add, find-remove}
use s3d.Hash.Counts.{IsCounted, add_remove-keep}
use s3d.Hash.Resize.{find-resize}

abbrev by_number : Callbacks (ℕ × ℕ)
by_number = record { same = λ a b. a.0 == b.0; choose = λ a size. a.0 % size }

by_number-IsKeyed : IsKeyed by_number
by_number-IsKeyed = record {
  same_refl = λ a. ground arith;
  same_sym = λ a b. ground arith;
  same_trans = λ a b c e f. ground arith;
  choose_same = λ a b size e. ground arith;
  choose_lt = λ a size lt. ground arith;
}

-- 5 and 2 share a list of a table of three
abbrev three : HashTable (ℕ × ℕ)
three = record { table = [] ∷ [] ∷ ((5, 50) ∷ (2, 20) ∷ []) ∷ []; elements = 2; size = 3 }

add_taken : hash_add by_number true three (2, 21) ≡ (error, three)
unfolding hash_add
add_taken = refl

remove_first :
    hash_remove by_number three (5, 0)
    ≡ (some (5, 50), record { table = [] ∷ [] ∷ ((2, 20) ∷ []) ∷ []; elements = 1; size = 3 })
unfolding hash_remove
remove_first = refl

resize_two :
    hash_resize by_number true true three 2
    ≡ some (record { table = ((2, 20) ∷ []) ∷ ((5, 50) ∷ []) ∷ []; elements = 2; size = 2 })
unfolding hash_resize
resize_two = refl

delete_order : hash_delete three ≡ (5, 50) ∷ (2, 20) ∷ []
unfolding hash_delete
delete_order = refl

three-not_empty : 0 < three.size
three-not_empty = ground arith

two_positive : 0 < 2
two_positive = ground arith

three-Distinct : (i : ℕ) → Distinct by_number (get_or three.table i [])
unfolding find_bucket
three-Distinct zero = empty
three-Distinct (suc zero) = empty
three-Distinct (suc (suc zero)) = cons refl (cons refl empty)
three-Distinct (suc (suc (suc i))) = empty

three-placed :
    (i : ℕ) (key : ℕ × ℕ)
    → find_bucket by_number (get_or three.table i []) key ≢ none
    → by_number.choose key three.size ≡ i
unfolding find_bucket
three-placed zero key f = ground arith
three-placed (suc zero) key f = ground arith
three-placed (suc (suc zero)) key f = ground arith
three-placed (suc (suc (suc i))) key f = ground arith

abbrev three-IsPlaced : IsPlaced by_number three
three-IsPlaced = record {
  sized = refl;
  not_empty = three-not_empty;
  distinct = three-Distinct;
  placed = three-placed;
}

three-IsCounted : IsCounted three
unfolding all_data
three-IsCounted = refl

find-add_example :
    hash_find by_number (hash_add by_number true three (8, 80)).1 (2, 0)
    ≡ (elim (hash_find by_number three (2, 0)) [
      | none ↦ if by_number.same (8, 80) (2, 0) then some (8, 80) else none
      | some x ↦ some x
    ])
find-add_example = find-add by_number by_number-IsKeyed three (8, 80) (2, 0) three-IsPlaced

find-remove_example :
    hash_find by_number (hash_remove by_number three (5, 0)).1 (2, 0)
    ≡ (if by_number.same (5, 0) (2, 0) then none else hash_find by_number three (2, 0))
find-remove_example = find-remove by_number by_number-IsKeyed three (5, 0) (2, 0) three-IsPlaced

add_remove-keep_example :
    (IsPlaced by_number (hash_add by_number true three (8, 80)).1
      × IsCounted (hash_add by_number true three (8, 80)).1)
    × (IsPlaced by_number (hash_remove by_number three (8, 80)).1
        × IsCounted (hash_remove by_number three (8, 80)).1)
add_remove-keep_example =
    add_remove-keep by_number by_number-IsKeyed three (8, 80) three-IsPlaced three-IsCounted

find-resize_example :
    (h' : HashTable (ℕ × ℕ)) × (hash_resize by_number true true three 2 ≡ some h')
    × IsPlaced by_number h'
    × (h'.elements ≡ length (all_data three.table))
    × ((key : ℕ × ℕ) → hash_find by_number h' key ≡ hash_find by_number three key)
find-resize_example = find-resize by_number by_number-IsKeyed three 2 three-IsPlaced two_positive
