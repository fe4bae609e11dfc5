-- ===== src/Server/Untagged.antt =====
-- What `obj_free` of server/object.c leaves of the virtual objects of the mcp.
use s3d.Base.{
  ℕ, zero, suc, ◌≤◌, ◌≡◌, refl, ap, ◌∙◌, arith, Bool-cases, Option-cases, inl, inr, none, some, [],
  ◌∷◌, length, set, if◌then◌else◌, ◌==◌, length-set,
}
use s3d.Object.{Obj, Table, obj_valid, minus_one}
use s3d.Object.Links.{link_delete}
use s3d.Object.Links.Life.{drop_child, drop_children, trim, keep_none, free_entry_of, obj_free}
use s3d.Server.Tags.{tag_if, tag_at, tag_of-if, Alike, Alike-update, Alike-trans, link_delete-Alike}
use s3d.Object.Links.Freed.{free_entry_of-valid}

module _ {F : Type 0} where
  drop_child-Alike : (t : Table F) (oid c : ℕ) → Alike t (drop_child t oid c)
  unfolding drop_child
  drop_child-Alike t oid c =
      Alike-trans t (link_delete t c) (drop_child t oid c) (link_delete-Alike t c) (
        Alike-update (link_delete t c) oid
          (λ o1. if c == o1.lsub then record o1 { lsub = minus_one } else o1)
          (λ o1. tag_of-if (c == o1.lsub) (record o1 { lsub = minus_one }) o1 refl))

  drop_children-Alike :
      (fuel : ℕ) (t : Table F) (oid : ℕ) {t' : Table F}
      → drop_children fuel t oid ≡ some t'
      → Alike t t'
  unfolding drop_children
  drop_children-Alike zero t oid e = cc
  drop_children-Alike (suc fuel) t oid {t'} e = elim (Option-cases (obj_valid t oid)) [
    | inl f ↦ ground (arith, e, f)
    | inr (o, f) ↦ elim (Bool-cases (o.lsub == minus_one)) [
      | inl g ↦ let same : t ≡ t' = ground (arith, e, f, g) in rw (← same) (refl, λ j. refl)
      | inr g ↦
          let next : drop_children fuel (drop_child t oid o.lsub) oid ≡ some t' =
            ground (arith, e, f, g) in
          Alike-trans t (drop_child t oid o.lsub) t' (drop_child-Alike t oid o.lsub)
            (drop_children-Alike fuel (drop_child t oid o.lsub) oid next)
    ]
  ]

  keep_none-length : (t : Table F) → length (keep_none t) ≤ suc (length t)
  unfolding keep_none
  keep_none-length [] = omega arith
  keep_none-length (x ∷ t) = omega arith

  trim-length : (t : Table F) → length (trim t) ≤ length t
  unfolding trim
  trim-length [] = omega arith
  trim-length (some o ∷ t) = omega (arith, trim-length t)
  trim-length (none ∷ t) = omega (arith, trim-length t, keep_none-length (trim t))

  free_entry_of-length : (t : Table F) (oid : ℕ) → length (free_entry_of t oid) ≤ length t
  unfolding free_entry_of
  free_entry_of-length t oid = ground (arith, trim-length (set t oid none), length-set t oid none)

  -- what `obj_free` starts its loop from
  abbrev unlinked : Table F → Obj F → ℕ → Table F
  unlinked t o oid = if o.linkid == minus_one then t else link_delete t oid

  unlinked-Alike : (t : Table F) (o : Obj F) (oid : ℕ) → Alike t (unlinked t o oid)
  unlinked-Alike t o oid = elim (Bool-cases (o.linkid == minus_one)) [
    | inl e ↦ rw e (refl, λ j. refl)
    | inr e ↦ rw e (link_delete-Alike t oid)
  ]

  tag_at-free :
      (t : Table F) (oid j : ℕ)
      → tag_at (free_entry_of t oid) j ≡ (if oid == j then none else tag_at t j)
  unfolding tag_at
  tag_at-free t oid j =
      ap tag_if (free_entry_of-valid t oid j)
      ∙ (elim (Bool-cases (oid == j)) [ inl e ↦ rw e refl | inr e ↦ rw e refl ])

  -- `obj_free` takes one tag away, and the table does not grow.
  pub obj_free-tags :
      (fuel : ℕ) (t : Table F) (oid : ℕ) {t' : Table F}
      → obj_free fuel t oid ≡ some t'
      → (length t' ≤ length t) × ((j : ℕ) → tag_at t' j ≡ (if oid == j then none else tag_at t j))
  unfolding obj_free
  obj_free-tags fuel t oid {t'} e = elim (Option-cases (obj_valid t oid)) [
    | inl f ↦ ground (arith, e, f)
    | inr (o, f) ↦ elim (Option-cases (drop_children fuel (unlinked t o oid) oid)) [
      | inl g ↦ ground (arith, e, f, g)
      | inr (t1, g) ↦
          let a =
            Alike-trans t (unlinked t o oid) t1 (unlinked-Alike t o oid)
              (drop_children-Alike fuel (unlinked t o oid) oid g) in
          let same : free_entry_of t1 oid ≡ t' = ground (arith, e, f, g) in
          rw (← same) (
            omega (arith, free_entry_of-length t1 oid, a.0),
            λ j. ground (arith, tag_at-free t1 oid j, a.1 j),
          )
    ]
  ]
