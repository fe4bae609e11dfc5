-- ===== src/Object/Links/Rooted.antt =====
-- The way up from an object along its parents, which `obj_link` of server/object.c searches.
use s3d.Base.{
  ℕ, zero, suc, ◌≤◌, ◌≡◌, ◌≢◌, ◌⊎◌, refl, arith, true, if◌then◌else◌, ◌==◌, ==_iff, Option-cases,
  Bool-cases, inl, inr,
}
use s3d.Object.{minus_one, Table, obj_valid}
use s3d.Object.Links.View.{Node, node, IsLinked}
use s3d.Object.Links.Chains.{node-none, node-some}
use s3d.Object.Links.Link.{circular, apart, search_up}

-- The way up ends at an object without a parent.
pub data Rooted (n : ℕ → Node) : ℕ → Type 0 where
  root : {i : ℕ} → (n i).parent ≡ minus_one → Rooted n i
  under : {i : ℕ} → (n i).parent ≢ minus_one → Rooted n (n i).parent → Rooted n i

-- `a` is the parent of `i`, or further up
pub data Above (n : ℕ → Node) (a : ℕ) : ℕ → Type 0 where
  parent : {i : ℕ} → (n i).parent ≢ minus_one → (n i).parent ≡ a → Above n a i
  up : {i : ℕ} → (n i).parent ≢ minus_one → Above n a (n i).parent → Above n a i

-- the number of objects on the way up
abbrev pub height : {n : ℕ → Node} {i : ℕ} → Rooted n i → ℕ
height (root e) = 1
height (under e r) = suc (height r)

module _ {F : Type 0} where
  search_up-step :
      (t : Table F) (oid_from fuel i : ℕ)
      → (node t i).there ≡ true
      → search_up t oid_from (suc fuel) i ≡ (
          if (node t i).linked
          then if (node t i).parent == oid_from
            then circular
            else search_up t oid_from fuel (node t i).parent
          else apart)
  unfolding search_up
  search_up-step t oid_from fuel i there = elim (Option-cases (obj_valid t i)) [
    | inl e ↦ ground (arith, node-none t i e)
    | inr (o, e) ↦ rw (e, search_up, node-some t i e) refl
  ]

pub Above-root : {n : ℕ → Node} {a i : ℕ} → (n i).parent ≡ minus_one → ¬ (Above n a i)
Above-root e (parent d f) = d e
Above-root e (up d r) = d e

Above-under :
    {n : ℕ → Node} {a i : ℕ} → (n i).parent ≢ a → ¬ (Above n a (n i).parent) → ¬ (Above n a i)
Above-under e f (parent d g) = e g
Above-under e f (up d r) = f r

module _ {F : Type 0} (t : Table F) (h : IsLinked (node t)) where
  -- The search ends within as many steps as there are objects on the way up, and finds out whether
  -- `oid_from` is one of them.
  pub search_up-Rooted :
      (oid_from fuel : ℕ) {i : ℕ} (r : Rooted (node t) i)
      → (node t i).there ≡ true
      → height r ≤ fuel
      → ((search_up t oid_from fuel i ≡ circular) × Above (node t) oid_from i)
        ⊎ ((search_up t oid_from fuel i ≡ apart) × ¬ (Above (node t) oid_from i))
  search_up-Rooted oid_from zero (root e) there le = ground arith
  search_up-Rooted oid_from zero (under d r) there le = ground (arith, height r)
  search_up-Rooted oid_from (suc fuel) {i} (root e) there le =
      inr (ground (arith, search_up-step t oid_from fuel i there, h.flag_ok i), Above-root e)
  search_up-Rooted oid_from (suc fuel) {i} (under d r) there le =
      elim (Bool-cases ((node t i).parent == oid_from)) [
        | inl e ↦ inl (
          ground (arith, search_up-step t oid_from fuel i there, h.flag_ok i),
          parent d ((==_iff _ _).0 e),
        )
        | inr e ↦ elim (search_up-Rooted oid_from fuel r (h.parent_ok i d) (ground arith)) [
          | inl (f, a) ↦
              inl (ground (arith, search_up-step t oid_from fuel i there, h.flag_ok i), up d a)
          | inr (f, a) ↦ inr (
            ground (arith, search_up-step t oid_from fuel i there, h.flag_ok i),
            Above-under (ground arith) a,
          )
        ]
      ]
