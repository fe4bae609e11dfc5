-- ===== src/Object/Links/Delete.antt =====
-- What `link_delete` of server/object.c does to every object, in one step.
use s3d.Base.{ℕ, ◌≡◌, ◌≢◌, arith, true, false, not, ◌&&◌, if◌then◌else◌, ◌==◌}
use s3d.Object.{minus_one, Table}
use s3d.Object.Links.{fix_previous, fix_parent, fix_next, link_delete}
use s3d.Object.Links.View.{Node, node, IsLinked}
use s3d.Object.Links.Chains.{fix_previous-node, fix_parent-node, fix_next-node, detach-node}

-- The list of the parent without `p`, which has the id `oid`, at the id `j`.
unfoldable pub without : Node → ℕ → ℕ → Node → Node
without p oid j c =
    if p.there && c.there
    then record {
      there = true;
      parent = if oid == j then minus_one else c.parent;
      next =
          if oid == j
          then minus_one
          else if not (p.parent == minus_one) && (not (p.prev == minus_one) && (p.prev == j))
          then p.next
          else c.next;
      prev =
          if oid == j
          then minus_one
          else if not (p.parent == minus_one) && (not (p.next == minus_one) && (p.next == j))
          then p.prev
          else c.prev;
      sub =
          if not (p.parent == minus_one) && ((p.parent == j) && (c.sub == oid))
          then p.next
          else c.sub;
      linked = if oid == j then false else c.linked;
    }
    else c

module _ {F : Type 0} where
  pub link_delete-node :
      (t : Table F) (oid j : ℕ) → node (link_delete t oid) j ≡ without (node t oid) oid j (node t j)
  unfolding link_delete without
  link_delete-node t oid j = ground (
    arith,
    fix_previous-node t oid oid,
    fix_previous-node t oid j,
    fix_parent-node (fix_previous t oid) oid oid,
    fix_parent-node (fix_previous t oid) oid j,
    fix_next-node (fix_parent (fix_previous t oid) oid) oid oid,
    fix_next-node (fix_parent (fix_previous t oid) oid) oid j,
    detach-node (fix_next (fix_parent (fix_previous t oid) oid) oid) oid j,
  )

-- `link_delete` on well-formed links
module _ {n n' : ℕ → Node} (oid : ℕ) (h : IsLinked n)
    (e : (j : ℕ) → n' j ≡ without (n oid) oid j (n j)) where
  without-next_ok :
      (i : ℕ)
      → (n' i).next ≢ minus_one
      → ((n' (n' i).next).prev ≡ i) × ((n' (n' i).next).parent ≡ (n' i).parent)
  unfolding without
  without-next_ok i = ground (
    arith,
    e i,
    e (n i).next,
    e (n oid).next,
    e oid,
    h.next_ok i,
    h.next_ok oid,
    h.prev_ok oid,
    h.prev_ok i,
    h.free_ok i,
    h.free_ok oid,
    h.bounded,
    h.gone i,
    h.gone oid,
    h.gone (n i).next,
    h.gone (n oid).next,
    h.gone minus_one,
  )

  without-prev_ok :
      (i : ℕ)
      → (n' i).prev ≢ minus_one
      → ((n' (n' i).prev).next ≡ i) × ((n' (n' i).prev).parent ≡ (n' i).parent)
  unfolding without
  without-prev_ok i = ground (
    arith,
    e i,
    e (n i).prev,
    e (n oid).prev,
    e oid,
    h.next_ok i,
    h.next_ok oid,
    h.prev_ok oid,
    h.prev_ok i,
    h.free_ok i,
    h.free_ok oid,
    h.bounded,
    h.gone i,
    h.gone oid,
    h.gone (n i).prev,
    h.gone (n oid).prev,
    h.gone minus_one,
  )

  without-sub_ok :
      (i : ℕ)
      → (n' i).sub ≢ minus_one
      → ((n' (n' i).sub).parent ≡ i) × ((n' (n' i).sub).prev ≡ minus_one)
  unfolding without
  without-sub_ok i = ground (
    arith,
    e i,
    e (n i).sub,
    e (n oid).next,
    e oid,
    h.sub_ok i,
    h.next_ok oid,
    h.prev_ok oid,
    h.first_ok oid,
    h.free_ok oid,
    h.bounded,
    h.gone i,
    h.gone oid,
    h.gone (n i).sub,
    h.gone (n oid).next,
    h.gone minus_one,
  )

  without-first_ok :
      (i : ℕ) → (n' i).parent ≢ minus_one → (n' i).prev ≡ minus_one → (n' (n' i).parent).sub ≡ i
  unfolding without
  without-first_ok i = ground (
    arith,
    e i,
    e (n i).parent,
    e (n oid).parent,
    e oid,
    h.first_ok i,
    h.first_ok oid,
    h.next_ok oid,
    h.prev_ok oid,
    h.prev_ok i,
    h.free_ok i,
    h.free_ok oid,
    h.parent_ok i,
    h.bounded,
    h.gone i,
    h.gone oid,
    h.gone (n i).parent,
    h.gone minus_one,
  )

  without-free_ok :
      (i : ℕ) → (n' i).parent ≡ minus_one → ((n' i).next ≡ minus_one) × ((n' i).prev ≡ minus_one)
  unfolding without
  without-free_ok i = ground (
    arith,
    e i,
    h.free_ok i,
    h.next_ok oid,
    h.prev_ok oid,
    h.free_ok oid,
    h.bounded,
    h.gone i,
    h.gone oid,
  )

  pub without-IsLinked : IsLinked n'
  unfolding without
  without-IsLinked = record {
    bounded = ground (arith, e minus_one, h.bounded);
    gone = λ i. ground (arith, e i, h.gone i);
    next_ok = without-next_ok;
    prev_ok = without-prev_ok;
    sub_ok = without-sub_ok;
    first_ok = without-first_ok;
    free_ok = without-free_ok;
    parent_ok = λ i. ground (arith, e i, e (n i).parent, h.parent_ok i);
    flag_ok = λ i. ground (arith, e i, h.flag_ok i);
  }

module _ {F : Type 0} where
  -- Taking an object out of the list of its parent keeps the links well formed, whatever object it is.
  pub link_delete-IsLinked :
      (t : Table F) (oid : ℕ) → IsLinked (node t) → IsLinked (node (link_delete t oid))
  link_delete-IsLinked t oid h = without-IsLinked oid h (link_delete-node t oid)
