-- ===== src/Object/Links/New.antt =====
-- `obj_new` of server/object.c on well-formed links.
use s3d.Base.{
  ℕ, zero, suc, ◌≡◌, ◌≢◌, refl, ap, ◌∙◌, arith, true, if◌then◌else◌, ◌==◌, Bool-cases, none, some,
  [], ◌∷◌, inl, inr,
}
use s3d.Object.{minus_one, Floats, Obj, Table, obj_valid}
use s3d.Object.Links.View.{Node, absent, node_at, node, IsLinked}
use s3d.Object.Links.Listed.{Listed-same}
use s3d.Object.Links.Forest.{IsForest, Rooted-same}
use s3d.Object.Links.Life.{new_obj, free_entry, put_entry, obj_new}

abbrev single : Node
single = record absent { there = true }

module _ {F : Type 0} where
  pub free_entry-free : (t : Table F) → obj_valid t (free_entry t) ≡ none
  unfolding free_entry obj_valid
  free_entry-free [] = refl
  free_entry-free (none ∷ t) = refl
  free_entry-free (some o ∷ t) = free_entry-free t

  pub put_entry-valid :
      (t : Table F) (obj : Obj F) (j : ℕ)
      → obj_valid (put_entry t obj) j ≡ (if free_entry t == j then some obj else obj_valid t j)
  unfolding free_entry put_entry obj_valid
  put_entry-valid [] obj zero = ground arith
  put_entry-valid [] obj (suc j) = ground arith
  put_entry-valid (none ∷ t) obj zero = ground arith
  put_entry-valid (none ∷ t) obj (suc j) = ground arith
  put_entry-valid (some o ∷ t) obj zero = ground arith
  put_entry-valid (some o ∷ t) obj (suc j) = ground (arith, put_entry-valid t obj j)

  -- `obj_new` puts an object without links into an entry where there was none.
  obj_new-node :
      (fl : Floats F) (one_f : F) (t : Table F) (j : ℕ)
      → node (obj_new fl one_f t).1 j ≡ (if (obj_new fl one_f t).0 == j then single else node t j)
  unfolding node obj_new new_obj
  obj_new-node fl one_f t j =
      ap node_at (put_entry-valid t (new_obj fl one_f) j)
      ∙ (elim (Bool-cases (free_entry t == j)) [ inl e ↦ rw e refl | inr e ↦ rw e refl ])

module _ {n n' : ℕ → Node} (pos : ℕ) (h : IsLinked n) (free : n pos ≡ absent)
    (in_range : pos ≢ minus_one) (e : (j : ℕ) → n' j ≡ (if pos == j then single else n j)) where
  with_single-IsLinked : IsLinked n'
  with_single-IsLinked = record {
    bounded = ground (arith, e minus_one, h.bounded);
    gone = λ i. ground (arith, e i, h.gone i);
    next_ok = λ i. ground (arith, e i, e (n i).next, h.next_ok i, h.bounded, h.gone minus_one);
    prev_ok = λ i. ground (arith, e i, e (n i).prev, h.prev_ok i, h.bounded, h.gone minus_one);
    sub_ok = λ i. ground (arith, e i, e (n i).sub, h.sub_ok i, h.bounded, h.gone minus_one);
    first_ok = λ i. ground (arith, e i, e (n i).parent, h.first_ok i, h.parent_ok i);
    free_ok = λ i. ground (arith, e i, h.free_ok i);
    parent_ok = λ i. ground (arith, e i, e (n i).parent, h.parent_ok i);
    flag_ok = λ i. ground (arith, e i, h.flag_ok i);
  }

module _ {F : Type 0} where
  -- A new object leaves the links well formed and without a circle, in a table of fewer than 2 ^ 32 - 1
  -- entries.
  pub obj_new-IsForest :
      (fl : Floats F) (one_f : F) (t : Table F)
      → (obj_new fl one_f t).0 ≢ minus_one
      → IsForest (node t)
      → IsForest (node (obj_new fl one_f t).1)
  unfolding node obj_new
  obj_new-IsForest fl one_f t r h = record {
    links =
        with_single-IsLinked (free_entry t) h.links (ap node_at (free_entry-free t)) r
          (obj_new-node fl one_f t);
    rooted = λ i.
        Rooted-same (λ j. ground (arith, obj_new-node fl one_f t j, ap node_at (free_entry-free t)))
          (h.rooted i);
    listed = λ i.
        Listed-same (λ j. ground (arith, obj_new-node fl one_f t j, ap node_at (free_entry-free t)))
          (h.listed i);
  }
