-- ===== src/Object/Links/Children.antt =====
-- The loop of `obj_free` in server/object.c over the children.
use s3d.Base.{
  ℕ, zero, suc, ◌<◌, ◌≡◌, ◌≢◌, refl, sym, ◌∙◌, arith, Bool, true, false, if◌then◌else◌, ◌==◌,
  Bool-cases, ==_iff, some, inl, inr,
}
use s3d.Object.{minus_one, Table}
use s3d.Object.Links.View.{Node, node}
use s3d.Object.Links.Delete.{without, without-IsLinked}
use s3d.Object.Links.Forest.{IsForest, Rooted-cut}
use s3d.Object.Links.Count.{count, count-drop}
use s3d.Object.Links.Free.{drop_child-node, drop_children-step}
use s3d.Object.Links.Listed.{Listed-sub, without-back}
use s3d.Object.Links.Life.{drop_child, drop_children}

-- the test for a child
abbrev pub child_of : (ℕ → Node) → ℕ → ℕ → Bool
child_of n oid i = (n i).parent == oid

-- what is left when the children of `oid` are gone
pub record Childless (n n' : ℕ → Node) (oid : ℕ) : Type 0 where
  pub forest : IsForest n'
  pub childless : (n' oid).sub ≡ minus_one
  pub kept : (j : ℕ) → (n' j).there ≡ (n j).there
  pub parents : (j : ℕ) → (n' j).parent ≡ (if (n j).parent == oid then minus_one else (n j).parent)

module _ {n n1 : ℕ → Node} (oid : ℕ) (h : IsForest n) (there : (n oid).there ≡ true)
    (d : (n oid).sub ≢ minus_one)
    (e : (j : ℕ) → n1 j ≡ without (n (n oid).sub) (n oid).sub j (n j)) where
  after_child-parent :
      (j : ℕ) → (n1 j).parent ≡ (if (n oid).sub == j then minus_one else (n j).parent)
  unfolding without
  after_child-parent j =
      ground (
        arith,
        e j,
        h.links.sub_ok oid d,
        h.links.gone (n oid).sub,
        h.links.gone j,
        h.links.bounded,
      )

  after_child-there : (j : ℕ) → (n1 j).there ≡ (n j).there
  unfolding without
  after_child-there j = ground (arith, e j)

  after_child-IsForest : IsForest n1
  after_child-IsForest = record {
    links = without-IsLinked (n oid).sub h.links e;
    rooted = λ i. Rooted-cut (n oid).sub after_child-parent (h.rooted i);
    listed = λ i. (without-back (n oid).sub h.links e (h.listed i)).0;
  }

  after_child-count :
      (m : ℕ) → (n oid).sub < m → suc (count m (child_of n1 oid)) ≡ count m (child_of n oid)
  after_child-count m lt =
      count-drop m (n oid).sub (child_of n oid) (child_of n1 oid) lt
        (ground (arith, h.links.sub_ok oid d))
        (λ i. ground (arith, after_child-parent i, h.links.bounded))

  Childless-before : {n' : ℕ → Node} → Childless n1 n' oid → Childless n n' oid
  Childless-before c = record {
    forest = c.forest;
    childless = c.childless;
    kept = λ j. c.kept j ∙ after_child-there j;
    parents = λ j.
        ground (arith, c.parents j, after_child-parent j, h.links.sub_ok oid d, h.links.bounded);
  }

pub no_children :
    (n : ℕ → Node) (oid : ℕ) (h : IsForest n)
    → (n oid).there ≡ true
    → (n oid).sub ≡ minus_one
    → (j : ℕ) → ((n j).parent == oid) ≡ false
no_children n oid h there s j = elim (Bool-cases ((n j).parent == oid)) [
  | inl e ↦
      elim (Listed-sub h.links (h.listed j) (ground (arith, h.links.gone j, h.links.bounded))
        (ground (arith, h.links.bounded)) (rw ((==_iff _ _).0 e) s)) [ ]
  | inr e ↦ e
]

module _ {F : Type 0} where
  -- The loop over the children ends within as many rounds as there are children, and every one of them
  -- has no parent then.
  pub drop_children-ends :
      (m fuel : ℕ) (t : Table F) (oid : ℕ)
      → IsForest (node t)
      → (node t oid).there ≡ true
      → ((i : ℕ) → (node t i).there ≡ true → i < m)
      → count m (child_of (node t) oid) < fuel
      → (t' : Table F) × (drop_children fuel t oid ≡ some t') × Childless (node t) (node t') oid
  drop_children-ends m zero t oid h there within lt = ground arith
  drop_children-ends m (suc fuel) t oid h there within lt =
      elim (Bool-cases ((node t oid).sub == minus_one)) [
        | inl e ↦ (
          t,
          drop_children-step fuel t oid there ∙ rw e refl,
          record {
            forest = h;
            childless = ground arith;
            kept = λ j. refl;
            parents = λ j. ground (arith, no_children (node t) oid h there (ground arith) j);
          },
        )
        | inr e ↦
            (let t1 = drop_child t oid (node t oid).sub in
              let d : (node t oid).sub ≢ minus_one = ground arith in
              let eqs : (j : ℕ)
                  → node t1 j ≡ without (node t (node t oid).sub) (node t oid).sub j (node t j) =
                λ j. drop_child-node t oid j h.links d in
              let (t', f, c) =
                drop_children-ends m fuel t1 oid (after_child-IsForest oid h there d eqs)
                  (after_child-there oid h there d eqs oid ∙ there)
                  (λ i th. within i (sym (after_child-there oid h there d eqs i) ∙ th))
                  (ground (
                    arith,
                    after_child-count oid h there d eqs m (
                        within (node t oid).sub (
                          ground (
                            arith,
                            h.links.sub_ok oid,
                            h.links.gone (node t oid).sub,
                            h.links.bounded,
                          ))),
                  )) in
              (
                t',
                drop_children-step fuel t oid there ∙ rw e f,
                Childless-before oid h there d eqs c,
              ))
      ]
