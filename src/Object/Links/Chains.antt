-- ===== src/Object/Links/Chains.antt =====
-- The five steps of `link_delete` and the steps of `link_insert` of server/object.c, on what the links
-- read of the objects.
use s3d.Base.{
  ℕ, ◌≡◌, refl, ap, arith, Bool, true, false, not, ◌&&◌, none, some, Option-cases, inl, inr,
  if◌then◌else◌, ◌==◌,
}
use s3d.Object.{minus_one, Obj, Table, obj_valid}
use s3d.Object.Links.{
  with_current, fix_previous, fix_parent, fix_next, detach, has_flag, of_link, clear_flag, set_flag,
  attach, take_first, link_back, become_first,
}
use s3d.Object.Links.View.{Node, absent, node_of, node, node-update}

pub has_flag-clear_flag : (flags : ℕ) → has_flag of_link (clear_flag of_link flags) ≡ false
has_flag-clear_flag flags = ground arith

pub has_flag-set_flag : (flags : ℕ) → has_flag of_link (set_flag of_link flags) ≡ true
has_flag-set_flag flags = ground arith

-- an unlinked node with these children
abbrev linked_as : ℕ → Bool → Node
linked_as sub linked = record {
  there = true;
  parent = minus_one;
  next = minus_one;
  prev = minus_one;
  sub = sub;
  linked = linked;
}

module _ {F : Type 0} where
  pub node-none : (t : Table F) (id : ℕ) → obj_valid t id ≡ none → node t id ≡ absent
  unfolding node
  node-none t id e = rw e refl

  pub node-some :
      (t : Table F) (id : ℕ) {o : Obj F} → obj_valid t id ≡ some o → node t id ≡ node_of o
  unfolding node
  node-some t id e = rw e refl

  pub node_of-if :
      (b : Bool) (x y : Obj F) → node_of (if b then x else y) ≡ (if b then node_of x else node_of y)
  node_of-if true x y = refl
  node_of-if false x y = refl

  pub fix_previous-node :
      (t : Table F) (oid j : ℕ)
      → node (fix_previous t oid) j ≡ (
          let p = node t oid in
          if p.there
            && (not (p.parent == minus_one)
                && (not (p.prev == minus_one) && ((p.prev == j) && (node t j).there)))
          then record (node t j) { next = p.next }
          else node t j)
  unfolding fix_previous with_current
  fix_previous-node t oid j = elim (Option-cases (obj_valid t oid)) [
    | inl e ↦ rw (e, with_current, node-none t oid e) refl
    | inr (o, e) ↦
        rw (e, with_current, node-some t oid e)
          (ground (
            arith,
            node-update t o.lprev j (λ o2. record o2 { lnext = o.lnext })
                (λ n. record n { next = o.lnext }) (λ x. refl),
          ))
  ]

  pub fix_parent-node :
      (t : Table F) (oid j : ℕ)
      → node (fix_parent t oid) j ≡ (
          let p = node t oid in
          if p.there
            && (not (p.parent == minus_one)
                && ((p.parent == j) && ((node t j).there && ((node t j).sub == oid))))
          then record (node t j) { sub = p.next }
          else node t j)
  unfolding fix_parent with_current
  fix_parent-node t oid j = elim (Option-cases (obj_valid t oid)) [
    | inl e ↦ rw (e, with_current, node-none t oid e) refl
    | inr (o, e) ↦
        rw (e, with_current, node-some t oid e)
          (ground (
            arith,
            node-update t o.linkid j
                (λ o2. if o2.lsub == oid then record o2 { lsub = o.lnext } else o2)
                (λ n. if n.sub == oid then record n { sub = o.lnext } else n)
                (λ x. node_of-if (x.lsub == oid) (record x { lsub = o.lnext }) x),
          ))
  ]

  pub fix_next-node :
      (t : Table F) (oid j : ℕ)
      → node (fix_next t oid) j ≡ (
          let p = node t oid in
          if p.there
            && (not (p.parent == minus_one)
                && (not (p.next == minus_one) && ((p.next == j) && (node t j).there)))
          then record (node t j) { prev = p.prev }
          else node t j)
  unfolding fix_next with_current
  fix_next-node t oid j = elim (Option-cases (obj_valid t oid)) [
    | inl e ↦ rw (e, with_current, node-none t oid e) refl
    | inr (o, e) ↦
        rw (e, with_current, node-some t oid e)
          (ground (
            arith,
            node-update t o.lnext j (λ o2. record o2 { lprev = o.lprev })
                (λ n. record n { prev = o.lprev }) (λ x. refl),
          ))
  ]

  pub detach-node :
      (t : Table F) (oid j : ℕ)
      → node (detach t oid) j ≡ (
          if (oid == j) && (node t j).there
          then record (node t j) {
            parent = minus_one;
            next = minus_one;
            prev = minus_one;
            linked = false;
          }
          else node t j)
  unfolding detach
  detach-node t oid j =
      node-update t oid j
        (λ o. record o {
          lnext = minus_one;
          lprev = minus_one;
          linkid = minus_one;
          oflags = clear_flag of_link o.oflags;
        })
        (λ n. record n { parent = minus_one; next = minus_one; prev = minus_one; linked = false })
        (λ x. ap (linked_as x.lsub) (has_flag-clear_flag x.oflags))

  pub attach-node :
      (t : Table F) (oid target j : ℕ)
      → node (attach t oid target) j ≡ (
          if (oid == j) && (node t j).there
          then record (node t j) { parent = target; linked = true }
          else node t j)
  unfolding attach
  attach-node t oid target j =
      node-update t oid j (λ o. record o { oflags = set_flag of_link o.oflags; linkid = target })
        (λ n. record n { parent = target; linked = true })
        (λ x.
          ap (λ b. record (node_of x) { parent = target; linked = b }) (has_flag-set_flag x.oflags))

  pub take_first-node :
      (t : Table F) (oid target j : ℕ)
      → node (take_first t oid target) j ≡ (
          if (node t target).there && ((oid == j) && (node t j).there)
          then record (node t j) { next = (node t target).sub }
          else node t j)
  unfolding take_first with_current
  take_first-node t oid target j = elim (Option-cases (obj_valid t target)) [
    | inl e ↦ rw (e, with_current, node-none t target e) refl
    | inr (o, e) ↦
        rw (e, with_current, node-some t target e)
          (node-update t oid j (λ o2. record o2 { lnext = o.lsub })
            (λ n. record n { next = o.lsub }) (λ x. refl))
  ]

  pub link_back-node :
      (t : Table F) (oid j : ℕ)
      → node (link_back t oid) j ≡ (
          let p = node t oid in
          if p.there && (not (p.next == minus_one) && ((p.next == j) && (node t j).there))
          then record (node t j) { prev = oid }
          else node t j)
  unfolding link_back with_current
  link_back-node t oid j = elim (Option-cases (obj_valid t oid)) [
    | inl e ↦ rw (e, with_current, node-none t oid e) refl
    | inr (o, e) ↦
        rw (e, with_current, node-some t oid e)
          (ground (
            arith,
            node-update t o.lnext j (λ o2. record o2 { lprev = oid }) (λ n. record n { prev = oid })
                (λ x. refl),
          ))
  ]

  pub become_first-node :
      (t : Table F) (oid target j : ℕ)
      → node (become_first t oid target) j
        ≡ (if (target == j) && (node t j).there then record (node t j) { sub = oid } else node t j)
  unfolding become_first
  become_first-node t oid target j =
      node-update t target j (λ o. record o { lsub = oid }) (λ n. record n { sub = oid })
        (λ x. refl)
