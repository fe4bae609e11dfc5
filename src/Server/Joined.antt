-- ===== src/Server/Joined.antt =====
-- `process_add` of server/process.c on a well-formed list of processes, and the object of the mcp that a
-- program gets.
use s3d.Base.{
  ℕ, ◌<◌, ◌≡◌, ◌≢◌, refl, ap, sym, arith, true, Bool-cases, inl, inr, none, some, List, [], ◌∷◌,
  ◌++◌, length, if◌then◌else◌, ◌==◌, length-append,
}
use mathlib.Core.Path.{subst}
use s3d.Object.{Floats, Obj, Table, obj_valid, minus_one}
use s3d.Object.Links.{has_flag, of_link, update}
use s3d.Object.Links.View.{node, node_of, node-update}
use s3d.Object.Links.Forest.{IsForest}
use s3d.Object.Links.Life.{obj_new, new_obj, free_entry}
use s3d.Object.Links.New.{obj_new-IsForest, free_entry-free, put_entry-valid}
use s3d.Object.Links.Reach.{no_objects-IsForest}
use s3d.Object.Clones.{of_virtual}
use s3d.Object.Frame.{obj_valid-set}
use s3d.Server.{Process, Connection, mcp_objects, process_add, stand_for}
use s3d.Server.Tags.{tag_at, tag_if}
use s3d.Server.Lists.{get_elem?-append_one}
use s3d.Server.Invariant.{IsServer}

module _ {F : Type 0} where
  mcp_objects-append :
      (ps qs : List (Process F)) → 0 < length ps → mcp_objects (ps ++ qs) ≡ mcp_objects ps
  mcp_objects-append [] qs h = absurd (omega arith)
  mcp_objects-append (p ∷ ps) qs h = refl

  -- A program that is added has the first number that is free, no objects and none of the mcp; the list
  -- stays well formed.
  pub process_add-IsServer :
      (ps : List (Process F)) (con : Connection) → IsServer ps → IsServer (process_add ps con)
  unfolding process_add
  process_add-IsServer ps con h =
      let new : Process F = record {
        id = length ps;
        con_type = con;
        name = [];
        mcp_oid = minus_one;
        object = [];
      } in
      let at = λ (i : ℕ). get_elem?-append_one ps new i in
      record {
        some_mcp = omega (arith, length-append ps (new ∷ []), h.some_mcp);
        ids = λ i p q. ground (arith, at i, q, h.ids i p);
        forests = λ i p q. elim (Bool-cases (i == length ps)) [
          | inl e ↦
              let same : new ≡ p = ground (arith, e, at i, q) in rw (← same) (no_objects-IsForest F)
          | inr e ↦ h.forests i p (ground (arith, e, at i, q))
        ];
        registered = λ i p q.
            ground (arith, at i, q, h.registered i p, mcp_objects-append ps (new ∷ []) h.some_mcp);
      }

  has_virtual-stand_for :
      (o : Obj F) (pid : ℕ) → has_flag of_virtual (stand_for o pid).oflags ≡ true
  unfolding stand_for
  has_virtual-stand_for o pid = ground arith

  has_link-stand_for :
      (o : Obj F) (pid : ℕ) → has_flag of_link (stand_for o pid).oflags ≡ has_flag of_link o.oflags
  unfolding stand_for
  has_link-stand_for o pid = ground arith

  stand_for_pid : (o : Obj F) (pid : ℕ) → (stand_for o pid).virtual_pid ≡ pid
  unfolding stand_for
  stand_for_pid o pid = refl

  stand_for_node : (o : Obj F) (pid : ℕ) → node_of (stand_for o pid) ≡ node_of o
  unfolding stand_for
  stand_for_node o pid = ap (λ b. record (node_of o) { linked = b }) (has_link-stand_for o pid)

  update-valid :
      (t : Table F) (oid j : ℕ) (change : Obj F → Obj F) {o : Obj F}
      → obj_valid t oid ≡ some o
      → obj_valid (update t oid change) j ≡ (if oid == j then some (change o) else obj_valid t j)
  unfolding update
  update-valid t oid j change {o} e = rw (e, update) (obj_valid-set t oid j (change o) e)

  -- the objects of the mcp with one for the program `pid`
  abbrev pub joined : Floats F → F → Table F → ℕ → Table F
  joined fl one_f t pid =
      update (obj_new fl one_f t).1 (obj_new fl one_f t).0 (λ o. stand_for o pid)

  module _ (fl : Floats F) (one_f : F) (t : Table F) (pid : ℕ) where
    joined_new : obj_valid (obj_new fl one_f t).1 (obj_new fl one_f t).0 ≡ some (new_obj fl one_f)
    unfolding obj_new
    joined_new = ground (arith, put_entry-valid t (new_obj fl one_f) (free_entry t))

    joined_at :
        (j : ℕ)
        → obj_valid (obj_new fl one_f t).1 j
          ≡ (if (obj_new fl one_f t).0 == j then some (new_obj fl one_f) else obj_valid t j)
    unfolding obj_new
    joined_at j = put_entry-valid t (new_obj fl one_f) j

    pub joined_tag :
        (j : ℕ)
        → tag_at (joined fl one_f t pid) j
          ≡ (if (obj_new fl one_f t).0 == j then some (pid, true) else tag_at t j)
    unfolding tag_at
    joined_tag j =
        let at : tag_if (obj_valid (joined fl one_f t pid) j)
            ≡ tag_if (
                if (obj_new fl one_f t).0 == j
                then some (stand_for (new_obj fl one_f) pid)
                else obj_valid (obj_new fl one_f t).1 j) =
          ap tag_if (
            update-valid (obj_new fl one_f t).1 (obj_new fl one_f t).0 j (λ o. stand_for o pid)
              joined_new) in
        elim (Bool-cases ((obj_new fl one_f t).0 == j)) [
          | inl e ↦ ground (
            arith,
            at,
            e,
            has_virtual-stand_for (new_obj fl one_f) pid,
            stand_for_pid (new_obj fl one_f) pid,
          )
          | inr e ↦ ground (arith, at, e, joined_at j)
        ]

    pub joined_fresh : tag_at t (obj_new fl one_f t).0 ≡ none
    unfolding tag_at obj_new
    joined_fresh = ap tag_if (free_entry-free t)

    pub joined-IsForest :
        (obj_new fl one_f t).0 ≢ minus_one
        → IsForest (node t)
        → IsForest (node (joined fl one_f t pid))
    joined-IsForest ne h =
        let same = λ (j : ℕ).
          let e : node (joined fl one_f t pid) j ≡ node (obj_new fl one_f t).1 j = ground (
            arith,
            node-update (obj_new fl one_f t).1 (obj_new fl one_f t).0 j (λ o. stand_for o pid)
                (λ n. n) (λ o. stand_for_node o pid),
          ) in
          sym e in
        let e : node (obj_new fl one_f t).1 ≡ node (joined fl one_f t pid) = λ i j. same j i in
        subst IsForest e (obj_new-IsForest fl one_f t ne h)
