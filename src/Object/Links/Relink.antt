-- ===== src/Object/Links/Relink.antt =====
-- The change of a parent in `obj_link` of server/object.c, on well-formed links.
use s3d.Base.{
  ℕ, ◌≡◌, ◌≢◌, ap, arith, true, if◌then◌else◌, ◌==◌, ◌&&◌, false, Bool-cases, some, inl, inr,
}
use mathlib.Core.Path.{subst⁻¹}
use s3d.Object.{minus_one, Obj, Table, obj_valid}
use s3d.Object.Links.{
  has_flag, set_flag, of_link, of_link_src, of_system, is_pointer, update, link_delete, link_insert,
}
use s3d.Object.Links.View.{node_of, node, node-update, IsLinked}
use s3d.Object.Links.Chains.{node-some}
use s3d.Object.Links.Delete.{without, link_delete-node, link_delete-IsLinked}
use s3d.Object.Links.Insert.{with_first, link_insert-node, link_insert-IsLinked}
use s3d.Object.Links.Rooted.{Above}
use s3d.Object.Links.Listed.{Listed, Listed-same, without-back, with_first-Listed}
use s3d.Object.Links.Forest.{IsForest, Rooted-same, Rooted-cut, Rooted-set}
use s3d.Object.Links.Link.{relink}

-- the flag of the new parent is another one
of_link-set_flag :
    (flags : ℕ) → has_flag of_link (set_flag of_link_src flags) ≡ has_flag of_link flags
of_link-set_flag flags = ground arith

-- when it accepts, from the process `pid`
pub record Accepted {F : Type 0} (t : Table F) (pid oid_from oid_to : ℕ) : Type 0 where
  pub object : Obj F
  pub is_object : obj_valid t oid_from ≡ some object
  pub is_parent : (node t oid_to).there ≡ true
  pub no_pointer : is_pointer object.oflags ≡ false
  pub other : oid_from ≢ oid_to
  pub no_circle : ¬ (Above (node t) oid_from oid_to)
  pub no_system : (has_flag of_system object.oflags && (pid == 0)) ≡ false

module _ {F : Type 0} where
  mark-node :
      (t : Table F) (id j : ℕ)
      → node (update t id (λ o. record o { oflags = set_flag of_link_src o.oflags })) j ≡ node t j
  mark-node t id j = ground (
    arith,
    node-update t id j (λ o. record o { oflags = set_flag of_link_src o.oflags }) (λ n. n)
        (λ o. ap (λ b. record (node_of o) { linked = b }) (of_link-set_flag o.oflags)),
  )

module _ {F : Type 0} where
  -- with another parent, for an object that is not above it
  relink-IsLinked :
      (t : Table F) (oid_from oid_to : ℕ) {o : Obj F}
      → obj_valid t oid_from ≡ some o
      → oid_from ≢ oid_to
      → IsLinked (node t)
      → IsLinked (node (relink t o oid_from oid_to))
  unfolding relink without
  relink-IsLinked t oid_from oid_to {o} e d h = elim (Bool-cases (oid_to == o.linkid)) [
    | inl same ↦ rw same h
    | inr new ↦ rw new (
        subst⁻¹ IsLinked
          (λ i j.
            mark-node
              (link_insert (if o.linkid == minus_one then t else link_delete t oid_from) oid_from
                oid_to)
              oid_to j i)
          (elim (Bool-cases (o.linkid == minus_one)) [
            | inl free ↦ rw free (
                link_insert-IsLinked t oid_from oid_to (ground (arith, node-some t oid_from e)) d h)
            | inr bound ↦ rw bound (
                link_insert-IsLinked (link_delete t oid_from) oid_from oid_to
                  (ground (arith, node-some t oid_from e, link_delete-node t oid_from oid_from)) d
                  (link_delete-IsLinked t oid_from h))
          ]))
  ]

  relink-Listed :
      (t : Table F) (oid_from oid_to : ℕ) {o : Obj F}
      → obj_valid t oid_from ≡ some o
      → IsForest (node t)
      → (i : ℕ) → Listed (node (relink t o oid_from oid_to)) i
  unfolding relink without
  relink-Listed t oid_from oid_to {o} e h i = elim (Bool-cases (oid_to == o.linkid)) [
    | inl same ↦ rw same (h.listed i)
    | inr new ↦ rw new (
        Listed-same
          {n = node (
            link_insert (if o.linkid == minus_one then t else link_delete t oid_from) oid_from
              oid_to)}
          (λ j.
            ap (λ c. c.prev)
              (mark-node
                (link_insert (if o.linkid == minus_one then t else link_delete t oid_from) oid_from
                  oid_to)
                oid_to j))
          (elim (Bool-cases (o.linkid == minus_one)) [
            | inl free ↦ rw free (
                with_first-Listed oid_from oid_to h.links (ground (arith, node-some t oid_from e))
                  (link_insert-node t oid_from oid_to) (h.listed i))
            | inr bound ↦ rw bound (
                with_first-Listed oid_from oid_to (link_delete-IsLinked t oid_from h.links)
                  (ground (arith, node-some t oid_from e, link_delete-node t oid_from oid_from))
                  (link_insert-node (link_delete t oid_from) oid_from oid_to)
                  (without-back oid_from h.links (link_delete-node t oid_from) (h.listed i)).0)
          ]))
  ]

  relink-parent :
      (t : Table F) (oid_from oid_to j : ℕ) {o : Obj F}
      → obj_valid t oid_from ≡ some o
      → (node t oid_to).there ≡ true
      → oid_from ≢ oid_to
      → (node (relink t o oid_from oid_to) j).parent
        ≡ (if oid_from == j then oid_to else (node t j).parent)
  unfolding relink with_first without
  relink-parent t oid_from oid_to j {o} e there d = ground (
    arith,
    node-some t oid_from e,
    mark-node
        (link_insert (if o.linkid == minus_one then t else link_delete t oid_from) oid_from oid_to)
        oid_to j,
    link_insert-node (if o.linkid == minus_one then t else link_delete t oid_from) oid_from oid_to
        j,
    link_delete-node t oid_from j,
    link_delete-node t oid_from oid_from,
    link_delete-node t oid_from oid_to,
  )

  pub relink-IsForest :
      (t : Table F) (oid_from oid_to : ℕ) {o : Obj F}
      → obj_valid t oid_from ≡ some o
      → (node t oid_to).there ≡ true
      → oid_from ≢ oid_to
      → ¬ (Above (node t) oid_from oid_to)
      → IsForest (node t)
      → IsForest (node (relink t o oid_from oid_to))
  relink-IsForest t oid_from oid_to e there d a h = record {
    links = relink-IsLinked t oid_from oid_to e d h.links;
    rooted = λ i.
        Rooted-set oid_from oid_to (λ j. relink-parent t oid_from oid_to j e there d) h.rooted d a
          (λ m. ground (arith, h.links.bounded, ap (λ i. (node t i).there) m)) (h.rooted i);
    listed = relink-Listed t oid_from oid_to e h;
  }

  pub link_delete-IsForest :
      (t : Table F) (oid : ℕ) → IsForest (node t) → IsForest (node (link_delete t oid))
  unfolding without
  link_delete-IsForest t oid h = record {
    links = link_delete-IsLinked t oid h.links;
    rooted = λ i. elim (Bool-cases (node t oid).there) [
      | inl there ↦
          Rooted-cut oid (λ j. ground (arith, link_delete-node t oid j, h.links.gone j))
            (h.rooted i)
      | inr gone ↦ Rooted-same (λ j. ground (arith, link_delete-node t oid j)) (h.rooted i)
    ];
    listed = λ i. (without-back oid h.links (link_delete-node t oid) (h.listed i)).0;
  }

  relink-sub :
      (t : Table F) (pid oid_from oid_to : ℕ) (a : Accepted t pid oid_from oid_to)
      → (node t oid_from).parent ≢ oid_to
      → (node (relink t a.object oid_from oid_to) oid_to).sub ≡ oid_from
  unfolding relink with_first without
  relink-sub t pid oid_from oid_to a new =
      let start = if a.object.linkid == minus_one then t else link_delete t oid_from in
      ground (
        arith,
        a.is_parent,
        a.other,
        node-some t oid_from a.is_object,
        mark-node (link_insert start oid_from oid_to) oid_to oid_to,
        link_insert-node start oid_from oid_to oid_to,
        link_delete-node t oid_from oid_from,
        link_delete-node t oid_from oid_to,
      )

  -- What a change makes of the parents and of the first child of a new parent.
  pub relink-family :
      (t : Table F) (pid oid_from oid_to : ℕ) (a : Accepted t pid oid_from oid_to)
      → (let t' = relink t a.object oid_from oid_to in
          ((j : ℕ) → (node t' j).parent ≡ (if oid_from == j then oid_to else (node t j).parent))
          × (((node t oid_from).parent ≢ oid_to → (node t' oid_to).sub ≡ oid_from)))
  unfolding relink with_first without
  relink-family t pid oid_from oid_to a = (
    λ j. relink-parent t oid_from oid_to j a.is_object a.is_parent a.other,
    relink-sub t pid oid_from oid_to a,
  )
