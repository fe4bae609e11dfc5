-- ===== src/Server/Frees.antt =====
-- The loops of `p_del` in server/process.c over the objects of the mcp and of a program.
use s3d.Base.{
  ℕ, zero, suc, ◌≡◌, refl, ap, sym, arith, Bool, true, false, Bool-cases, Option-cases, inl, inr,
  none, some, [], ◌∷◌, length, if◌then◌else◌, ◌==◌, ◌&&◌,
}
use mathlib.Core.Path.{subst}
use s3d.Object.{Obj, Table, obj_valid}
use s3d.Object.Links.{has_flag, clear_flag, of_link}
use s3d.Object.Links.View.{node, node_of}
use s3d.Object.Links.Chains.{node-some}
use s3d.Object.Links.Forest.{IsForest}
use s3d.Object.Links.Freed.{obj_free-Freed}
use s3d.Object.Clones.{of_clone, of_virtual}
use s3d.Server.{drop_clones, free_object, free_where}
use s3d.Server.Tags.{Tag, tag_at, tag_if, tag_of, has_virtual-clear_clone}
use s3d.Server.Untagged.{obj_free-tags}

has_link-clear_clone :
    (flags : ℕ) → has_flag of_link (clear_flag of_clone flags) ≡ has_flag of_link flags
has_link-clear_clone flags = ground arith

module _ {F : Type 0} where
  -- On a forest an object that is there is freed.
  pub free_object_lem :
      (t : Table F) (oid : ℕ)
      → IsForest (node t)
      → (node t oid).there ≡ true
      → (t' : Table F) × (free_object t oid ≡ some t')
        × IsForest (node t')
        × ((j : ℕ) → tag_at t' j ≡ (if oid == j then none else tag_at t j))
  unfolding free_object
  free_object_lem t oid h there =
      let (t', e, f) = obj_free-Freed (suc (length t)) t oid h there (omega arith) in
      (t', e, f.forest, (obj_free-tags (suc (length t)) t oid e).1)

  -- An object that is not kept carried no tag that has to stay.
  freed_other :
      {keep : Obj F → Bool} (t u : Table F) (i : ℕ) (o : Obj F)
      → ((o : Obj F) → keep o ≡ false → has_flag of_virtual o.oflags ≡ false)
      → obj_valid t i ≡ some o
      → keep o ≡ false
      → ((j : ℕ) → tag_at u j ≡ (if i == j then none else tag_at t j))
      → (j v : ℕ) → tag_at t j ≡ some (v, true)
      → tag_at u j ≡ some (v, true)
  unfolding tag_at
  freed_other t u i o k f g tags j v q =
      let here : tag_if (obj_valid t i) ≡ some (tag_of o) = ap tag_if f in
      ground (arith, tags j, q, here, k o g)

  -- The loop does not fail on a forest, and leaves the tags of the virtual objects if these are kept.
  pub free_where_lem :
      (keep : Obj F → Bool) (rounds : ℕ) (t : Table F) (i : ℕ)
      → IsForest (node t)
      → (t' : Table F) × (free_where keep rounds t i ≡ some t')
        × IsForest (node t')
        × (((o : Obj F) → keep o ≡ false → has_flag of_virtual o.oflags ≡ false)
            → (j v : ℕ) → tag_at t j ≡ some (v, true)
            → tag_at t' j ≡ some (v, true))
  unfolding free_where
  free_where_lem keep zero t i h = (t, refl, h, λ k j v e. e)
  free_where_lem keep (suc rounds) t i h = elim (Option-cases (obj_valid t i)) [
    | inl f ↦
        let r = free_where_lem keep rounds t (suc i) h in (r.0, rw (f, free_where) r.1, r.2, r.3)
    | inr (o, f) ↦ elim (Bool-cases (keep o)) [
      | inl g ↦
          let r = free_where_lem keep rounds t (suc i) h in
          (r.0, rw (f, free_where) (rw g r.1), r.2, r.3)
      | inr g ↦
          let there : (node t i).there ≡ true = ground (arith, node-some t i f) in
          let (u, e, hu, tags) = free_object_lem t i h there in
          let r = free_where_lem keep rounds u (suc i) hu in
          (
            r.0,
            rw (f, free_where) (rw (g, e) r.1),
            r.2,
            λ k j v q. r.3 k j v (freed_other t u i o k f g tags j v q),
          )
    ]
  ]

  -- Clones of an object that lose it keep their links and their tags.
  node-drop_clones :
      (zero_f : F) (t : Table F) (oid j : ℕ) → node (drop_clones zero_f t oid) j ≡ node t j
  unfolding node drop_clones obj_valid
  node-drop_clones zero_f [] oid j = refl
  node-drop_clones zero_f (none ∷ t) oid zero = refl
  node-drop_clones zero_f (none ∷ t) oid (suc j) = node-drop_clones zero_f t oid j
  node-drop_clones zero_f (some o ∷ t) oid zero =
      elim (Bool-cases (has_flag of_clone o.oflags && (o.clone_ooid == oid))) [
        | inl e ↦ rw e (ap (λ b. record (node_of o) { linked = b }) (has_link-clear_clone o.oflags))
        | inr e ↦ rw e refl
      ]
  node-drop_clones zero_f (some o ∷ t) oid (suc j) = node-drop_clones zero_f t oid j

  tag_at-drop_clones :
      (zero_f : F) (t : Table F) (oid j : ℕ) → tag_at (drop_clones zero_f t oid) j ≡ tag_at t j
  unfolding tag_at drop_clones obj_valid
  tag_at-drop_clones zero_f [] oid j = refl
  tag_at-drop_clones zero_f (none ∷ t) oid zero = refl
  tag_at-drop_clones zero_f (none ∷ t) oid (suc j) = tag_at-drop_clones zero_f t oid j
  tag_at-drop_clones zero_f (some o ∷ t) oid zero =
      elim (Bool-cases (has_flag of_clone o.oflags && (o.clone_ooid == oid))) [
        | inl e ↦ rw e (ap (λ b. some (o.virtual_pid, b)) (has_virtual-clear_clone o.oflags))
        | inr e ↦ rw e refl
      ]
  tag_at-drop_clones zero_f (some o ∷ t) oid (suc j) = tag_at-drop_clones zero_f t oid j

  pub drop_clones_lem :
      (zero_f : F) (t : Table F) (oid : ℕ)
      → IsForest (node t)
      → IsForest (node (drop_clones zero_f t oid))
        × ((j : ℕ) → tag_at (drop_clones zero_f t oid) j ≡ tag_at t j)
  drop_clones_lem zero_f t oid h =
      let e : node t ≡ node (drop_clones zero_f t oid) =
        λ i j. sym (node-drop_clones zero_f t oid j) i in
      (subst IsForest e h, tag_at-drop_clones zero_f t oid)

  pub tag_there : (t : Table F) (j : ℕ) {v : Tag} → tag_at t j ≡ some v → (node t j).there ≡ true
  unfolding tag_at node
  tag_there t j h = elim (Option-cases (obj_valid t j)) [
    | inl e ↦ ground (arith, ap tag_if e, h)
    | inr (o, e) ↦ rw e refl
  ]
