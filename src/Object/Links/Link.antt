-- ===== src/Object/Links/Link.antt =====
-- `obj_link` and `obj_unlink` of server/object.c. The search of `obj_link` for a circle goes up from
-- the new parent for as long as OF_LINK is set; it runs on fuel, one for each object it looks at.
use s3d.Base.{ℕ, zero, suc, ◌&&◌, none, some, if◌then◌else◌, ◌==◌}
use s3d.Object.{minus_one, Obj, Table, Status, done, failed, obj_valid}
use s3d.Object.Links.{
  has_flag, set_flag, of_link, of_link_src, of_system, is_pointer, update, link_delete, link_insert,
}

-- how the search ends; `bad_link` is a `p->object[o2->linkid]` where there is no object
pub data Search : Type 0 where
  circular apart bad_link out_of_fuel : Search

-- how the call ends: with a status and the objects, or not
pub data Outcome (F : Type 0) : Type 0 where
  returned : Status → Table F → Outcome F
  crashed stuck : Outcome F

module _ {F : Type 0} where
  unfoldable pub search_up : Table F → ℕ → ℕ → ℕ → Search
  search_up t oid_from zero id = out_of_fuel
  search_up t oid_from (suc fuel) id = elim (obj_valid t id) [
    | none ↦ bad_link
    | some o2 ↦
        (let rest = search_up t oid_from fuel o2.linkid in
          if has_flag of_link o2.oflags
          then if o2.linkid == oid_from then circular else rest
          else apart)
  ]

  -- the links of an object that may be linked, `o` from before
  unfoldable pub relink : Table F → Obj F → ℕ → ℕ → Table F
  relink t o oid_from oid_to =
      if oid_to == o.linkid
      then t
      else update
          (link_insert (if o.linkid == minus_one then t else link_delete t oid_from) oid_from
            oid_to)
          oid_to (λ ot. record ot { oflags = set_flag of_link_src ot.oflags })

  unfoldable pub obj_link : ℕ → ℕ → Table F → ℕ → ℕ → Outcome F
  unfolding search_up relink
  obj_link fuel pid t oid_from oid_to = elim (obj_valid t oid_from) [
    | none ↦ returned failed t
    | some o ↦ elim (obj_valid t oid_to) [
      | none ↦ returned failed t
      | some o2 ↦
          if oid_to == oid_from
          then returned failed t
          else if is_pointer o.oflags
          then returned failed t
          else elim (search_up t oid_from fuel oid_to) [
            | circular ↦ returned failed t
            | bad_link ↦ crashed
            | out_of_fuel ↦ stuck
            | apart ↦
                if has_flag of_system o.oflags && (pid == 0)
                then returned failed t
                else returned done (relink t o oid_from oid_to)
          ]
    ]
  ]

  unfoldable pub obj_unlink : Table F → ℕ → Status × Table F
  unfolding link_delete
  obj_unlink t oid = elim (obj_valid t oid) [
    | none ↦ (failed, t)
    | some o ↦ if is_pointer o.oflags then (failed, t) else (done, link_delete t oid)
  ]
