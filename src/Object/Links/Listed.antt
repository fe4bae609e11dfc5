-- ===== src/Object/Links/Listed.antt =====
-- The way back along the list of the children of a parent, of server/object.c.
use s3d.Base.{ℕ, ◌≡◌, ◌≢◌, sym, ◌∙◌, arith, true, false, ◌==◌, ==_iff, Bool-cases, inl, inr}
use mathlib.Core.Path.{subst⁻¹}
use s3d.Object.{minus_one}
use s3d.Object.Links.View.{Node, IsLinked}
use s3d.Object.Links.Delete.{without}
use s3d.Object.Links.Insert.{with_first}

-- The way back ends at the first one of the list.
pub data Listed (n : ℕ → Node) : ℕ → Type 0 where
  first : {i : ℕ} → (n i).prev ≡ minus_one → Listed n i
  after : {i : ℕ} → (n i).prev ≢ minus_one → Listed n (n i).prev → Listed n i

pub Listed-same :
    {n n' : ℕ → Node} → ((j : ℕ) → (n' j).prev ≡ (n j).prev) → {i : ℕ} → Listed n i → Listed n' i
Listed-same e {i} (first f) = first (e i ∙ f)
Listed-same {n = n} {n' = n'} e {i} (after d r) =
    after (rw (e i) d) (rw (e i) (Listed-same {n = n} {n' = n'} e r))

-- A child has a parent with a first child.
pub Listed-sub :
    {n : ℕ → Node} (h : IsLinked n) {i : ℕ}
    → Listed n i
    → (n i).there ≡ true
    → (n i).parent ≢ minus_one
    → (n (n i).parent).sub ≢ minus_one
Listed-sub h {i} (first f) t p = ground (arith, h.first_ok i p f, h.bounded)
Listed-sub {n} h {i} (after d r) t p = rw (sym (h.prev_ok i d).1) (
    Listed-sub {n = n} h r (ground (arith, h.gone (n i).prev, h.prev_ok i, h.bounded))
      (ground (arith, h.prev_ok i)))

module _ {n n' : ℕ → Node} (oid : ℕ) (h : IsLinked n)
    (e : (j : ℕ) → n' j ≡ without (n oid) oid j (n j)) where
  without-prev_kept :
      (i : ℕ) → ((n i).prev == oid) ≡ false → (n' i).prev ≢ minus_one → (n' i).prev ≡ (n i).prev
  unfolding without
  without-prev_kept i other d = ground (arith, e i, h.next_ok oid, h.bounded, h.gone oid)

  without-prev_skip :
      (i : ℕ)
      → ((n i).prev == oid) ≡ true
      → (n i).prev ≢ minus_one
      → (n' i).prev ≢ minus_one
      → (n' i).prev ≡ (n (n i).prev).prev
  unfolding without
  without-prev_skip i same d d' =
      ground
        (arith, e i, h.next_ok oid, h.prev_ok i, h.free_ok oid, h.bounded, h.gone oid, h.gone i)

  pub without-back :
      {i : ℕ} → Listed n i → Listed n' i × ((n i).prev ≢ minus_one → Listed n' (n i).prev)
  unfolding without
  without-back {i} (first f) =
      (first (ground (arith, e i, h.next_ok oid, h.bounded, h.gone oid)), λ d. elim (d f) [ ])
  without-back {i} (after d r) =
      let b = without-back r in
      (
        elim (Bool-cases ((n' i).prev == minus_one)) [
          | inl f ↦ first ((==_iff _ _).0 f)
          | inr f ↦ elim (Bool-cases ((n i).prev == oid)) [
            | inl g ↦ after (ground arith) (
                subst⁻¹ (Listed n') (without-prev_skip i g d (ground arith))
                  (b.1 (ground (arith, without-prev_skip i g d))))
            | inr g ↦
                after (ground arith)
                  (subst⁻¹ (Listed n') (without-prev_kept i g (ground arith)) b.0)
          ]
        ],
        λ d. b.0,
      )

module _ {n n' : ℕ → Node} (oid target : ℕ) (h : IsLinked n) (free : (n oid).parent ≡ minus_one)
    (e : (j : ℕ) → n' j ≡ with_first (n oid) (n target) oid target j (n j)) where
  with_first-first : (n' oid).prev ≡ minus_one
  unfolding with_first
  with_first-first = ground (arith, e oid, h.free_ok oid, h.sub_ok target, h.gone target, h.bounded)

  pub with_first-Listed : {i : ℕ} → Listed n i → Listed n' i
  unfolding with_first
  with_first-Listed {i} (first f) = elim (Bool-cases ((n' i).prev == minus_one)) [
    | inl g ↦ first ((==_iff _ _).0 g)
    | inr g ↦
        after (ground arith) (subst⁻¹ (Listed n') (ground (arith, e i)) (first with_first-first))
  ]
  with_first-Listed {i} (after d r) = elim (Bool-cases ((n target).sub == i)) [
    | inl same ↦ elim (d (ground (arith, h.sub_ok target, h.bounded, h.gone minus_one))) [ ]
    | inr other ↦
        after (ground (arith, e i))
          (subst⁻¹ (Listed n') (ground (arith, e i)) (with_first-Listed r))
  ]
