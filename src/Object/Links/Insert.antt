-- ===== src/Object/Links/Insert.antt =====
-- What `link_insert` of server/object.c does to every object, in one step.
use s3d.Base.{
  ℕ, ◌≡◌, ◌≢◌, refl, arith, true, not, ◌&&◌, if◌then◌else◌, ◌==◌, Option-cases, inl, inr,
}
use s3d.Object.{minus_one, Table, obj_valid}
use s3d.Object.Links.{attach, take_first, link_back, link_insert, with_current}
use s3d.Object.Links.View.{Node, node, IsLinked}
use s3d.Object.Links.Chains.{
  attach-node, take_first-node, link_back-node, become_first-node, node-none, node-some,
}

-- The list of the children of `target`, whose node is `q`, with `oid` as its first, at the id `j`.
-- `link_insert` does not write `lprev` of `oid`.
unfoldable pub with_first : Node → Node → ℕ → ℕ → ℕ → Node → Node
with_first p q oid target j c =
    if p.there && (q.there && c.there)
    then record {
      there = true;
      parent = if oid == j then target else c.parent;
      next = if oid == j then q.sub else c.next;
      prev = if not (q.sub == minus_one) && (q.sub == j) then oid else c.prev;
      sub = if target == j then oid else c.sub;
      linked = if oid == j then true else c.linked;
    }
    else c

module _ {F : Type 0} where
  pub link_insert-node :
      (t : Table F) (oid target j : ℕ)
      → node (link_insert t oid target) j
        ≡ with_first (node t oid) (node t target) oid target j (node t j)
  unfolding link_insert with_current with_first
  link_insert-node t oid target j = elim (Option-cases (obj_valid t oid)) [
    | inl e ↦ rw (e, with_current, node-none t oid e) refl
    | inr (o, e) ↦ elim (Option-cases (obj_valid t target)) [
      | inl e2 ↦ rw (e, with_current, e2, with_current, node-none t target e2) (ground arith)
      | inr (o2, e2) ↦
          rw (e, with_current, e2, with_current)
            (ground (
              arith,
              node-some t oid e,
              node-some t target e2,
              attach-node t oid target oid,
              attach-node t oid target target,
              attach-node t oid target j,
              take_first-node (attach t oid target) oid target oid,
              take_first-node (attach t oid target) oid target j,
              link_back-node (take_first (attach t oid target) oid target) oid j,
              become_first-node (link_back (take_first (attach t oid target) oid target) oid) oid
                  target j,
            ))
    ]
  ]

-- `link_insert` of an object that has no parent, on well-formed links
module _ {n n' : ℕ → Node} (oid target : ℕ) (h : IsLinked n) (free : (n oid).parent ≡ minus_one)
    (d : oid ≢ target) (e : (j : ℕ) → n' j ≡ with_first (n oid) (n target) oid target j (n j)) where
  with_first-next_ok :
      (i : ℕ)
      → (n' i).next ≢ minus_one
      → ((n' (n' i).next).prev ≡ i) × ((n' (n' i).next).parent ≡ (n' i).parent)
  unfolding with_first
  with_first-next_ok i = ground (
    arith,
    e i,
    e (n i).next,
    e (n target).sub,
    e oid,
    h.next_ok i,
    h.sub_ok target,
    h.next_ok oid,
    h.free_ok i,
    h.free_ok oid,
    h.bounded,
    h.gone i,
    h.gone oid,
    h.gone (n i).next,
    h.gone target,
    h.gone (n target).sub,
    h.gone minus_one,
  )

  with_first-prev_ok :
      (i : ℕ)
      → (n' i).prev ≢ minus_one
      → ((n' (n' i).prev).next ≡ i) × ((n' (n' i).prev).parent ≡ (n' i).parent)
  unfolding with_first
  with_first-prev_ok i = ground (
    arith,
    e i,
    e (n i).prev,
    e oid,
    h.prev_ok i,
    h.sub_ok target,
    h.free_ok i,
    h.free_ok oid,
    h.bounded,
    h.gone i,
    h.gone oid,
    h.gone (n i).prev,
    h.gone target,
    h.gone minus_one,
  )

  with_first-sub_ok :
      (i : ℕ)
      → (n' i).sub ≢ minus_one
      → ((n' (n' i).sub).parent ≡ i) × ((n' (n' i).sub).prev ≡ minus_one)
  unfolding with_first
  with_first-sub_ok i = ground (
    arith,
    e i,
    e (n i).sub,
    e oid,
    h.sub_ok i,
    h.sub_ok target,
    h.free_ok oid,
    h.bounded,
    h.gone i,
    h.gone oid,
    h.gone (n i).sub,
    h.gone target,
    h.gone minus_one,
  )

  with_first-first_ok :
      (i : ℕ) → (n' i).parent ≢ minus_one → (n' i).prev ≡ minus_one → (n' (n' i).parent).sub ≡ i
  unfolding with_first
  with_first-first_ok i = ground (
    arith,
    e i,
    e (n i).parent,
    e target,
    e oid,
    h.first_ok i,
    h.sub_ok target,
    h.free_ok oid,
    h.free_ok i,
    h.parent_ok i,
    h.bounded,
    h.gone i,
    h.gone oid,
    h.gone (n i).parent,
    h.gone target,
    h.gone minus_one,
  )

  with_first-free_ok :
      (i : ℕ) → (n' i).parent ≡ minus_one → ((n' i).next ≡ minus_one) × ((n' i).prev ≡ minus_one)
  unfolding with_first
  with_first-free_ok i = ground (
    arith,
    e i,
    e oid,
    h.free_ok i,
    h.sub_ok target,
    h.bounded,
    h.gone i,
    h.gone target,
    h.gone oid,
  )

  with_first-IsLinked : IsLinked n'
  unfolding with_first
  with_first-IsLinked = record {
    bounded = ground (arith, e minus_one, h.bounded);
    gone = λ i. ground (arith, e i, h.gone i);
    next_ok = with_first-next_ok;
    prev_ok = with_first-prev_ok;
    sub_ok = with_first-sub_ok;
    first_ok = with_first-first_ok;
    free_ok = with_first-free_ok;
    parent_ok =
        λ i. ground (arith, e i, e (n i).parent, e target, h.parent_ok i, h.bounded, h.gone target);
    flag_ok = λ i. ground (arith, e i, h.flag_ok i, h.bounded);
  }

module _ {F : Type 0} where
  -- Putting an object that has no parent first into the list of another one keeps the links well
  -- formed.
  pub link_insert-IsLinked :
      (t : Table F) (oid target : ℕ)
      → (node t oid).parent ≡ minus_one
      → oid ≢ target
      → IsLinked (node t)
      → IsLinked (node (link_insert t oid target))
  link_insert-IsLinked t oid target free d h =
      with_first-IsLinked oid target h free d (link_insert-node t oid target)
