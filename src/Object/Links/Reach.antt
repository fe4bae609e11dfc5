-- ===== src/Object/Links/Reach.antt =====
-- The tables that the calls of server/object.c make of the empty one: `obj_new`, `obj_link`,
-- `obj_unlink` and `obj_free`, one after the other, with any arguments.
use s3d.Base.{ℕ, ◌+◌, ◌≤◌, ◌≡◌, ◌≢◌, refl, sym, ◌∙◌, arith, true, some, some_of_eq, [], length}
use mathlib.Core.Path.{subst}
use s3d.Object.{minus_one, Floats, Table, Status, obj_valid}
use s3d.Object.Links.View.{node, absent}
use s3d.Object.Links.Rooted.{root, height}
use s3d.Object.Links.Listed.{first}
use s3d.Object.Links.Forest.{IsForest}
use s3d.Object.Links.Life.{obj_new, obj_free}
use s3d.Object.Links.Link.{returned, obj_link, obj_unlink}
use s3d.Object.Links.Calls.{obj_link-IsForest, obj_unlink-IsForest}
use s3d.Object.Links.New.{obj_new-IsForest}
use s3d.Object.Links.Freed.{obj_free-Freed}

-- One call. Those that run on fuel return the same with any fuel from some on.
pub data Step {F : Type 0} : Table F → Table F → Type 0 where
  new :
      {t : Table F} (fl : Floats F) (one_f : F)
      → (obj_new fl one_f t).0 ≢ minus_one
      → Step t (obj_new fl one_f t).1
  link :
      {t t' : Table F} (pid oid_from oid_to enough : ℕ) (s : Status)
      → ((fuel : ℕ) → enough ≤ fuel → obj_link fuel pid t oid_from oid_to ≡ returned s t')
      → Step t t'
  unlink : {t : Table F} (oid : ℕ) → Step t (obj_unlink t oid).1
  free :
      {t t' : Table F} (oid enough : ℕ)
      → (node t oid).there ≡ true
      → ((fuel : ℕ) → enough ≤ fuel → obj_free fuel t oid ≡ some t')
      → Step t t'

pub data Reachable {F : Type 0} : Table F → Type 0 where
  start : Reachable []
  step : {t t' : Table F} → Reachable t → Step t t' → Reachable t'

module _ (F : Type 0) where
  abbrev pub no_objects : Table F
  no_objects = []

  no_objects-node : (i : ℕ) → node no_objects i ≡ absent
  unfolding node obj_valid
  no_objects-node i = refl

  pub no_objects-IsForest : IsForest (node no_objects)
  no_objects-IsForest = record {
    links = record {
      bounded = ground (arith, no_objects-node minus_one);
      gone = λ i e. no_objects-node i;
      next_ok = λ i. ground (arith, no_objects-node i);
      prev_ok = λ i. ground (arith, no_objects-node i);
      sub_ok = λ i. ground (arith, no_objects-node i);
      first_ok = λ i. ground (arith, no_objects-node i);
      free_ok = λ i. ground (arith, no_objects-node i);
      parent_ok = λ i. ground (arith, no_objects-node i);
      flag_ok = λ i. ground (arith, no_objects-node i);
    };
    rooted = λ i. root (ground (arith, no_objects-node i));
    listed = λ i. first (ground (arith, no_objects-node i));
  }

module _ {F : Type 0} where
  same_table : (s s' : Status) (t t' : Table F) → returned s t ≡ returned s' t' → t ≡ t'
  same_table s s' t t' e = cc

  pub Step-IsForest : {t t' : Table F} → Step t t' → IsForest (node t) → IsForest (node t')
  Step-IsForest (new {t = t} fl one_f d) h = obj_new-IsForest fl one_f t d h
  Step-IsForest (unlink {t = t} oid) h = obj_unlink-IsForest t oid h
  Step-IsForest (link {t = t} {t' = t'} pid oid_from oid_to enough s e) h =
      let fuel = enough + height (h.rooted oid_to) in
      let (s', u, f, g) = obj_link-IsForest fuel pid t oid_from oid_to h (ground arith) in
      subst (λ v. IsForest (node v)) (same_table s' s u t' (sym f ∙ e fuel (ground arith))) g
  Step-IsForest (free {t = t} {t' = t'} oid enough there e) h =
      let fuel = enough + (length t + 1) in
      let (u, f, g) = obj_free-Freed fuel t oid h there (ground arith) in
      subst (λ v. IsForest (node v)) (some_of_eq (sym f ∙ e fuel (ground arith))) g.forest

  -- In every table that calls make of the empty one, those on fuel with enough of it and `obj_new` with
  -- an id other than 2 ^ 32 - 1, the links form a forest.
  pub Reachable-IsForest : {t : Table F} → Reachable t → IsForest (node t)
  Reachable-IsForest start = no_objects-IsForest F
  Reachable-IsForest (step r s) = Step-IsForest s (Reachable-IsForest r)
