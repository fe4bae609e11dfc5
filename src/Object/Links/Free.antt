-- ===== src/Object/Links/Free.antt =====
-- `obj_free` of server/object.c on well-formed links.
use s3d.Base.{
  ℕ, zero, suc, ◌<◌, ◌≡◌, ◌≢◌, refl, ◌∙◌, arith, true, if◌then◌else◌, ◌==◌, Option-cases, none,
  some, [], ◌∷◌, inl, inr, length, set,
}
use s3d.Object.{minus_one, Table, obj_valid}
use s3d.Object.Links.{link_delete}
use s3d.Object.Links.View.{node, node-update, IsLinked}
use s3d.Object.Links.Chains.{node_of-if, node-none, node-some}
use s3d.Object.Links.Delete.{without, link_delete-node}
use s3d.Object.Links.Life.{drop_child, drop_children, trim, keep_none}

module _ {F : Type 0} where
  keep_none-valid : (t : Table F) (j : ℕ) → obj_valid (keep_none t) j ≡ obj_valid (none ∷ t) j
  unfolding keep_none obj_valid
  keep_none-valid [] zero = refl
  keep_none-valid [] (suc j) = refl
  keep_none-valid (x ∷ t) j = refl

  pub trim-valid : (t : Table F) (j : ℕ) → obj_valid (trim t) j ≡ obj_valid t j
  unfolding trim obj_valid
  trim-valid [] j = refl
  trim-valid (some o ∷ t) zero = refl
  trim-valid (some o ∷ t) (suc j) = trim-valid t j
  trim-valid (none ∷ t) zero = keep_none-valid (trim t) zero
  trim-valid (none ∷ t) (suc j) = keep_none-valid (trim t) (suc j) ∙ trim-valid t j

  pub set-none-valid :
      (t : Table F) (i j : ℕ)
      → obj_valid (set t i none) j ≡ (if i == j then none else obj_valid t j)
  unfolding obj_valid
  set-none-valid [] i j = ground arith
  set-none-valid (x ∷ t) zero zero = ground arith
  set-none-valid (x ∷ t) zero (suc j) = ground arith
  set-none-valid (x ∷ t) (suc i) zero = ground arith
  set-none-valid (x ∷ t) (suc i) (suc j) = ground (arith, set-none-valid t i j)

  pub node-within : (t : Table F) (i : ℕ) → (node t i).there ≡ true → i < length t
  unfolding node obj_valid
  node-within [] i e = ground arith
  node-within (x ∷ t) zero e = ground arith
  node-within (x ∷ t) (suc i) e = ground (arith, node-within t i e)

  -- The child that a round of the loop takes out is not the first one afterwards.
  pub drop_child-node :
      (t : Table F) (oid j : ℕ)
      → IsLinked (node t)
      → (node t oid).sub ≢ minus_one
      → node (drop_child t oid (node t oid).sub) j
        ≡ without (node t (node t oid).sub) (node t oid).sub j (node t j)
  unfolding without drop_child
  drop_child-node t oid j h d = ground (
    arith,
    link_delete-node t (node t oid).sub j,
    h.sub_ok oid,
    h.next_ok (node t oid).sub,
    h.gone (node t oid).sub,
    h.gone oid,
    h.bounded,
    node-update (link_delete t (node t oid).sub) oid j
        (λ o1. if (node t oid).sub == o1.lsub then record o1 { lsub = minus_one } else o1)
        (λ n. if (node t oid).sub == n.sub then record n { sub = minus_one } else n)
        (λ o. node_of-if ((node t oid).sub == o.lsub) (record o { lsub = minus_one }) o),
  )

  pub drop_children-step :
      (fuel : ℕ) (t : Table F) (oid : ℕ)
      → (node t oid).there ≡ true
      → drop_children (suc fuel) t oid ≡ (
          if (node t oid).sub == minus_one
          then some t
          else drop_children fuel (drop_child t oid (node t oid).sub) oid)
  unfolding drop_children drop_child
  drop_children-step fuel t oid there = elim (Option-cases (obj_valid t oid)) [
    | inl e ↦ ground (arith, node-none t oid e)
    | inr (o, e) ↦ rw (e, drop_children, node-some t oid e) refl
  ]
