-- ===== src/Object/Clones.antt =====
-- `obj_clone_change` of server/object.c, up to `obj_size_update` and `obj_check_biggest_object`, which
-- follow a change, and of which the flags and the target of a clone are not touched.
pub mod Flags
pub mod Chains
mod Tests
use s3d.Base.{
  ℕ, zero, suc, ◌+◌, Bool, true, false, not, ◌&&◌, ◌||◌, Option, none, some, List, [], ◌∷◌,
  if◌then◌else◌, ◌==◌,
}
use s3d.Object.{Obj, Table, Status, done, failed, obj_valid}
use s3d.Object.Links.{has_flag, set_flag, clear_flag, update}

abbrev pub of_clone_src : ℕ
of_clone_src = 0x01000000

abbrev pub of_clone : ℕ
of_clone = 0x10000000

abbrev pub of_virtual : ℕ
of_virtual = 0x20000000

module _ {F : Type 0} where
  -- the loop over all objects: whether one of them is a clone of that object
  unfoldable pub any_clone : Table F → ℕ → Bool
  any_clone [] oid = false
  any_clone (none ∷ t) oid = any_clone t oid
  any_clone (some o ∷ t) oid =
      (has_flag of_clone o.oflags && (o.clone_ooid == oid)) || any_clone t oid

  -- `o->n_vertex | o->n_mat | o->n_poly | o->n_tex` is 0
  unfoldable pub is_empty : Obj F → Bool
  is_empty o = (o.n_vertex == 0) && ((o.n_mat == 0) && ((o.n_poly == 0) && (o.n_tex == 0)))

  -- the three writes of a change
  unfoldable pub make_clone : Table F → ℕ → ℕ → Table F
  unfolding update
  make_clone t oid toid =
      let t1 = update t oid (λ o. record o { oflags = set_flag of_clone o.oflags }) in
      let t2 = update t1 toid (λ o. record o { oflags = set_flag of_clone_src o.oflags }) in
      update t2 oid (λ o. record o { clone_ooid = toid })

  unfoldable pub no_source : Table F → ℕ → Table F
  unfolding update
  no_source t oid = update t oid (λ o. record o { oflags = clear_flag of_clone_src o.oflags })

  -- `if (oid != toid)`
  unfoldable pub clone_unless_same : Table F → ℕ → ℕ → Status × Table F
  unfolding make_clone
  clone_unless_same t oid toid = if oid == toid then (failed, t) else (done, make_clone t oid toid)

  unfoldable pub obj_clone_change : Table F → ℕ → ℕ → Status × Table F
  unfolding any_clone is_empty no_source clone_unless_same
  obj_clone_change t oid toid = elim (obj_valid t oid) [
    | none ↦ (done, t)
    | some o ↦ elim (obj_valid t toid) [
      | none ↦ (done, t)
      | some other ↦
          (let already_clone = has_flag of_clone o.oflags in
            if not ((already_clone || is_empty o) && not (has_flag of_virtual o.oflags))
            then (failed, t)
            else if has_flag of_clone other.oflags
            then (failed, t)
            else if already_clone || not (has_flag of_clone_src o.oflags)
            then clone_unless_same t oid toid
            else if any_clone t oid
            then (failed, t)
            else clone_unless_same (no_source t oid) oid toid)
    ]
  ]
