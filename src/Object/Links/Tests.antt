-- ===== src/Object/Links/Tests.antt =====
-- The links of small tables. A float is a natural number.
use s3d.Base.{
  ℕ, zero, suc, ◌≡◌, ◌⊎◌, inl, inr, refl, arith, Bool, true, false, if◌then◌else◌, ◌==◌, some, [],
  ◌∷◌, ◌<◌, ◌≤◌,
}
use s3d.Object.{minus_one, Floats, Obj, Table, Vertex, Status, done, failed, obj_valid}
use s3d.Object.Links.{update, link_insert, of_link, of_link_src}
use s3d.Object.Links.View.{Node, absent, node, IsLinked}
use s3d.Object.Links.Rooted.{Rooted, root, under, height}
use s3d.Object.Links.Listed.{first}
use s3d.Object.Links.Forest.{IsForest}
use s3d.Object.Links.Life.{obj_new, obj_free}
use s3d.Object.Links.Link.{returned, relink, obj_link}
use s3d.Object.Links.Relink.{Accepted}
use s3d.Object.Links.Calls.{Refused, obj_link-cases, obj_link-family, obj_link-IsForest}
use s3d.Object.Links.Reach.{Step, new, link, Reachable, start, step, Reachable-IsForest}
use s3d.Object.Links.Freed.{Freed, obj_free-Freed}

abbrev naturals : Floats ℕ
naturals = record {
  zero_f = 0;
  add = λ a b. a;
  mul = λ a b. a;
  div = λ a b. a;
  sqrt = λ a. a;
  is_zero = λ a. a == 0;
}

abbrev point : Vertex ℕ
point = record { x = 0; y = 0; z = 0 }

abbrev thing : ℕ → ℕ → ℕ → Obj ℕ
thing flags above below = record {
  oflags = flags;
  virtual_pid = 0;
  clone_ooid = 0;
  n_vertex = 0;
  n_mat = 0;
  n_poly = 0;
  n_tex = 0;
  n_line = 0;
  dplist = 0;
  linkid = above;
  lsub = below;
  lnext = minus_one;
  lprev = minus_one;
  p_vertex = [];
  p_mat = [];
  p_poly = [];
  p_line = [];
  p_tex = [];
  translate = point;
  rotate = point;
  scale = 1;
  r = 0;
  o_r = 0;
}

-- an object 0 with a child 1, and an object 2
abbrev family : Table ℕ
family =
    some (thing 0 minus_one 1)
    ∷ some (thing of_link 0 minus_one)
    ∷ some (thing 0 minus_one minus_one)
    ∷ []

-- the objects of the family, one by one
abbrev member : ℕ → ℕ → Bool → Node
member p s l = record {
  there = true;
  parent = p;
  next = minus_one;
  prev = minus_one;
  sub = s;
  linked = l;
}

family-node :
    (i : ℕ)
    → ((i ≡ 0) × (node family i ≡ member minus_one 1 false))
      ⊎ (((i ≡ 1) × (node family i ≡ member 0 minus_one true))
          ⊎ (((i ≡ 2) × (node family i ≡ member minus_one minus_one false))
              ⊎ ((2 < i) × (node family i ≡ absent))))
unfolding node obj_valid
family-node zero = inl (refl, refl)
family-node (suc zero) = inr (inl (refl, refl))
family-node (suc (suc zero)) = inr (inr (inl (refl, refl)))
family-node (suc (suc (suc i))) = inr (inr (inr (ground arith, refl)))

family-IsLinked : IsLinked (node family)
family-IsLinked = record {
  bounded = ground (arith, family-node minus_one);
  gone = λ i. ground (arith, family-node i);
  next_ok = λ i. ground (arith, family-node i);
  prev_ok = λ i. ground (arith, family-node i);
  sub_ok = λ i. ground (arith, family-node i, family-node (node family i).sub);
  first_ok = λ i. ground (arith, family-node i, family-node (node family i).parent);
  free_ok = λ i. ground (arith, family-node i);
  parent_ok = λ i. ground (arith, family-node i, family-node (node family i).parent);
  flag_ok = λ i. ground (arith, family-node i);
}

family-rooted : (i : ℕ) → Rooted (node family) i
unfolding node obj_valid
family-rooted zero = root refl
family-rooted (suc zero) = under (ground arith) (root refl)
family-rooted (suc (suc zero)) = root refl
family-rooted (suc (suc (suc i))) = root refl

family-height : (i : ℕ) → height (family-rooted i) ≤ 2
unfolding family-rooted
family-height zero = ground arith
family-height (suc zero) = ground arith
family-height (suc (suc zero)) = ground arith
family-height (suc (suc (suc i))) = ground arith

family-first : (i : ℕ) → (node family i).prev ≡ minus_one
family-first i = ground (arith, family-node i)

abbrev family-IsForest : IsForest (node family)
family-IsForest = record {
  links = family-IsLinked;
  rooted = family-rooted;
  listed = λ i. first (family-first i);
}

-- The parent cannot go under its child; another object can.
obj_link-circle_run : obj_link 3 1 family 0 1 ≡ returned failed family
unfolding obj_link obj_valid
obj_link-circle_run = refl

obj_link-cases_example :
    (Refused family 1 0 1 × (obj_link 2 1 family 0 1 ≡ returned failed family))
    ⊎ ((a : Accepted family 1 0 1) × (obj_link 2 1 family 0 1
          ≡ returned done (relink family a.object 0 1)))
obj_link-cases_example = obj_link-cases 2 1 family 0 1 family-IsForest (family-height 1)

obj_link-IsForest_example :
    (s : Status) × (t' : Table ℕ) × (obj_link 2 1 family 1 2 ≡ returned s t') × IsForest (node t')
obj_link-IsForest_example = obj_link-IsForest 2 1 family 1 2 family-IsForest (family-height 2)

-- the child 1 goes under 2
abbrev moved : Table ℕ
moved = relink family (thing of_link 0 minus_one) 1 2

one_to_two : obj_link 2 1 family 1 2 ≡ returned done moved
unfolding obj_link obj_valid
one_to_two = refl

obj_link-family_example :
    IsForest (node moved)
    × ((j : ℕ) → (node moved j).parent ≡ (if 1 == j then 2 else (node family j).parent))
    × (((node family 1).parent ≡ 2) ⊎ ((node moved 2).sub ≡ 1))
obj_link-family_example =
    obj_link-family 2 1 family moved 1 2 family-IsForest (family-height 2) one_to_two

-- two objects, and the second under the first
abbrev one_made : Table ℕ
one_made = some (thing 0 minus_one minus_one) ∷ []

abbrev two_made : Table ℕ
two_made = some (thing 0 minus_one minus_one) ∷ some (thing 0 minus_one minus_one) ∷ []

abbrev two_linked : Table ℕ
two_linked = some (thing of_link_src minus_one 1) ∷ some (thing of_link 0 minus_one) ∷ []

link_two : (fuel : ℕ) → 1 ≤ fuel → obj_link fuel 1 two_made 1 0 ≡ returned done two_linked
unfolding obj_link obj_valid update link_insert
link_two zero le = ground arith
link_two (suc fuel) le = refl

make_one : Step [] one_made
unfolding obj_new
make_one = new naturals 1 (ground arith)

make_two : Step one_made two_made
unfolding obj_new
make_two = new naturals 1 (ground arith)

two_linked-Reachable : Reachable two_linked
two_linked-Reachable = step (step (step start make_one) make_two) (link 1 1 0 1 done link_two)

Reachable-IsForest_example : IsForest (node two_linked)
Reachable-IsForest_example = Reachable-IsForest two_linked-Reachable

obj_free-Freed_example :
    (t' : Table ℕ) × (obj_free 4 family 0 ≡ some t') × Freed (node family) (node t') 0
obj_free-Freed_example =
    obj_free-Freed 4 family 0 family-IsForest (ground (arith, family-node 0)) (ground arith)
