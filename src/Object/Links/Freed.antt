-- ===== src/Object/Links/Freed.antt =====
-- `obj_free` of server/object.c on well-formed links: the whole call.
use s3d.Base.{
  ℕ, suc, ◌<◌, ◌≡◌, refl, ap, sym, ◌∙◌, arith, true, false, ◌||◌, if◌then◌else◌, ◌==◌, Bool-cases,
  Option-cases, none, some, inl, inr, length, set,
}
use s3d.Object.{minus_one, Obj, Table, obj_valid}
use s3d.Object.Links.{link_delete}
use s3d.Object.Links.View.{Node, absent, node_at, node, IsLinked}
use s3d.Object.Links.Chains.{node-none, node-some}
use s3d.Object.Links.Delete.{without, link_delete-node}
use s3d.Object.Links.Forest.{IsForest, Rooted-same}
use s3d.Object.Links.Count.{count-le}
use s3d.Object.Links.Free.{trim-valid, set-none-valid, node-within}
use s3d.Object.Links.Listed.{Listed-same}
use s3d.Object.Links.Relink.{link_delete-IsForest}
use s3d.Object.Links.Life.{free_entry_of, obj_free}
use s3d.Object.Links.Children.{child_of, no_children, drop_children-ends}

-- An object without a parent and without children goes.
module _ {n n' : ℕ → Node} (oid : ℕ) (h : IsForest n) (there : (n oid).there ≡ true)
    (top : (n oid).parent ≡ minus_one) (alone : (n oid).sub ≡ minus_one)
    (e : (j : ℕ) → n' j ≡ (if oid == j then absent else n j)) where
  gone-IsLinked : IsLinked n'
  gone-IsLinked = record {
    bounded = ground (arith, e minus_one, h.links.bounded);
    gone = λ i. ground (arith, e i, h.links.gone i);
    next_ok = λ i. ground (
      arith,
      e i,
      e (n i).next,
      h.links.next_ok i,
      h.links.free_ok oid,
      h.links.gone minus_one,
      h.links.bounded,
    );
    prev_ok = λ i. ground (
      arith,
      e i,
      e (n i).prev,
      h.links.prev_ok i,
      h.links.free_ok oid,
      h.links.gone minus_one,
      h.links.bounded,
    );
    sub_ok = λ i.
        ground (arith, e i, e (n i).sub, h.links.sub_ok i, h.links.gone minus_one, h.links.bounded);
    first_ok = λ i.
        ground (arith, e i, e (n i).parent, h.links.first_ok i, no_children n oid h there alone i);
    free_ok = λ i. ground (arith, e i, h.links.free_ok i);
    parent_ok = λ i.
        ground (arith, e i, e (n i).parent, h.links.parent_ok i, no_children n oid h there alone i);
    flag_ok = λ i. ground (arith, e i, h.links.flag_ok i);
  }

  gone-IsForest : IsForest n'
  gone-IsForest = record {
    links = gone-IsLinked;
    rooted = λ i. Rooted-same (λ j. ground (arith, e j)) (h.rooted i);
    listed = λ i. Listed-same (λ j. ground (arith, e j, h.links.free_ok oid)) (h.listed i);
  }

-- what the whole call leaves
pub record Freed (n n' : ℕ → Node) (oid : ℕ) : Type 0 where
  pub forest : IsForest n'
  pub objects : (j : ℕ) → (n' j).there ≡ (if oid == j then false else (n j).there)
  pub parents :
      (j : ℕ)
      → (n' j).parent ≡ (if (oid == j) || ((n j).parent == oid) then minus_one else (n j).parent)

module _ {F : Type 0} where
  pub free_entry_of-valid :
      (t : Table F) (oid j : ℕ)
      → obj_valid (free_entry_of t oid) j ≡ (if oid == j then none else obj_valid t j)
  unfolding free_entry_of
  free_entry_of-valid t oid j = elim (Bool-cases (suc oid == length (set t oid none))) [
    | inl e ↦ rw e (trim-valid (set t oid none) j ∙ set-none-valid t oid j)
    | inr e ↦ rw e (set-none-valid t oid j)
  ]

  free_entry_of-node :
      (t : Table F) (oid j : ℕ)
      → node (free_entry_of t oid) j ≡ (if oid == j then absent else node t j)
  unfolding node
  free_entry_of-node t oid j =
      ap node_at (free_entry_of-valid t oid j)
      ∙ (elim (Bool-cases (oid == j)) [ inl e ↦ rw e refl | inr e ↦ rw e refl ])

  -- the table in which the loop starts
  abbrev start : Table F → Obj F → ℕ → Table F
  start t o oid = if o.linkid == minus_one then t else link_delete t oid

  start-IsForest :
      (t : Table F) (o : Obj F) (oid : ℕ) → IsForest (node t) → IsForest (node (start t o oid))
  start-IsForest t o oid h = elim (Bool-cases (o.linkid == minus_one)) [
    | inl e ↦ rw e h
    | inr e ↦ rw e (link_delete-IsForest t oid h)
  ]

  start-node :
      (t : Table F) (oid j : ℕ) {o : Obj F}
      → obj_valid t oid ≡ some o
      → ((node (start t o oid) j).there ≡ (node t j).there)
        × ((node (start t o oid) j).parent ≡ (if oid == j then minus_one else (node t j).parent))
  unfolding without
  start-node t oid j {o} e = ground (arith, link_delete-node t oid j, node-some t oid e)

  -- On a forest, with fuel for more rounds than the table has entries, `obj_free` of an object that is
  -- there ends and frees that object and no other: its children have no parent then, the others the one
  -- they had, and the links form a forest again.
  pub obj_free-Freed :
      (fuel : ℕ) (t : Table F) (oid : ℕ)
      → IsForest (node t)
      → (node t oid).there ≡ true
      → length t < fuel
      → (t' : Table F) × (obj_free fuel t oid ≡ some t') × Freed (node t) (node t') oid
  unfolding obj_free
  obj_free-Freed fuel t oid h there lt = elim (Option-cases (obj_valid t oid)) [
    | inl e ↦ ground (arith, node-none t oid e)
    | inr (o, e) ↦
        (let t0 = start t o oid in
          let (t1, f, c) =
            drop_children-ends (length t) fuel t0 oid (start-IsForest t o oid h)
              ((start-node t oid oid e).0 ∙ there)
              (λ i th. node-within t i (sym (start-node t oid i e).0 ∙ th))
              (ground (arith, count-le (length t) (child_of (node t0) oid))) in
          let top : (node t1 oid).parent ≡ minus_one =
            ground (arith, c.parents oid, start-node t oid oid e) in
          (
            free_entry_of t1 oid,
            rw (e, obj_free, f, obj_free) refl,
            record {
              forest =
                  gone-IsForest oid c.forest (c.kept oid ∙ (start-node t oid oid e).0 ∙ there) top
                    c.childless (free_entry_of-node t1 oid);
              objects =
                  λ j. ground (arith, free_entry_of-node t1 oid j, c.kept j, start-node t oid j e);
              parents = λ j.
                  ground (arith, free_entry_of-node t1 oid j, c.parents j, start-node t oid j e);
            },
          ))
  ]
