-- ===== src/Object/Links/Forest.antt =====
-- The links of the objects of a process, of server/object.c, as a forest.
use s3d.Base.{ℕ, ◌≡◌, ◌≢◌, sym, ◌∙◌, arith, false, if◌then◌else◌, ◌==◌, Bool-cases, inl, inr}
use s3d.Object.{minus_one}
use s3d.Object.Links.View.{Node, IsLinked}
use s3d.Object.Links.Listed.{Listed}
use s3d.Object.Links.Rooted.{Rooted, root, under, Above, parent, up}

-- well-formed links without a circle
pub record IsForest (n : ℕ → Node) : Type 0 where
  pub links : IsLinked n
  pub rooted : (i : ℕ) → Rooted n i
  pub listed : (i : ℕ) → Listed n i

≢→false : (a b : ℕ) → a ≢ b → (a == b) ≡ false
≢→false a b d = ground arith

-- the same parents
pub Rooted-same :
    {n n' : ℕ → Node}
    → ((j : ℕ) → (n' j).parent ≡ (n j).parent)
    → {i : ℕ} → Rooted n i
    → Rooted n' i
Rooted-same e {i} (root f) = root (e i ∙ f)
Rooted-same {n = n} {n' = n'} e {i} (under d r) =
    under (rw (e i) d) (rw (e i) (Rooted-same {n = n} {n' = n'} e r))

-- one parent taken away
pub Rooted-cut :
    {n n' : ℕ → Node} (oid : ℕ)
    → ((j : ℕ) → (n' j).parent ≡ (if oid == j then minus_one else (n j).parent))
    → {i : ℕ} → Rooted n i
    → Rooted n' i
Rooted-cut oid e {i} (root f) = root (ground (arith, e i))
Rooted-cut {n = n} {n' = n'} oid e {i} (under d r) = elim (Bool-cases (oid == i)) [
  | inl same ↦ root (ground (arith, e i))
  | inr other ↦ under (ground (arith, e i)) (rw (e i, other) (Rooted-cut {n = n} {n' = n'} oid e r))
]

module _ {n n' : ℕ → Node} (oid target : ℕ)
    (e : (j : ℕ) → (n' j).parent ≡ (if oid == j then target else (n j).parent)) where
  -- one parent set, seen from where that object is not above
  Rooted-aside : {i : ℕ} → Rooted n i → oid ≢ i → ¬ (Above n oid i) → Rooted n' i
  Rooted-aside {i} (root f) d a = root (ground (arith, e i))
  Rooted-aside {i} (under f r) d a =
      under (ground (arith, e i))
        (rw (e i, ≢→false oid i d) (Rooted-aside r (λ g. a (parent f (sym g))) (λ b. a (up f b))))

  pub Rooted-set :
      ((i : ℕ) → Rooted n i)
      → oid ≢ target
      → ¬ (Above n oid target)
      → target ≢ minus_one
      → {i : ℕ} → Rooted n i
      → Rooted n' i
  Rooted-set all d a m {i} (root f) = elim (Bool-cases (oid == i)) [
    | inl same ↦ under (ground (arith, e i)) (rw (e i, same) (Rooted-aside (all target) d a))
    | inr other ↦ root (ground (arith, e i))
  ]
  Rooted-set all d a m {i} (under f r) = elim (Bool-cases (oid == i)) [
    | inl same ↦ under (ground (arith, e i)) (rw (e i, same) (Rooted-aside (all target) d a))
    | inr other ↦ under (ground (arith, e i)) (rw (e i, other) (Rooted-set all d a m r))
  ]
