-- ===== src/Object/Links.antt =====
-- The links between objects, of server/object.c: `link_delete`, `link_insert`, `obj_link` and
-- `obj_unlink`. An object is linked to a parent (`linkid`); the children of a parent form a list that
-- is linked in both directions (`lnext`, `lprev`) and starts at `lsub`. -1 is `minus_one`.
--
-- `obj_link` and `obj_unlink` are modelled up to `obj_pos_update`, which follows a change and leaves
-- the links alone.
pub mod View
pub mod Chains
pub mod Delete
pub mod Insert
pub mod Link
pub mod Rooted
pub mod Listed
pub mod Forest
pub mod Relink
pub mod Calls
mod Tests
pub mod Life
pub mod New
pub mod Count
pub mod Free
pub mod Children
pub mod Freed
pub mod Reach
use s3d.Base.{
  ℕ, zero, suc, ◌+◌, ◌-◌, ◌*◌, ◌/◌, ◌%◌, ◌^◌, ◌&&◌, Bool, true, false, not, Option, none, some, set,
  if◌then◌else◌, ◌==◌,
}
use s3d.Object.{minus_one, Obj, Table, Status, done, failed, obj_valid}

-- a flag of one bit, given by its value, set, cleared and tested
abbrev pub has_flag : ℕ → ℕ → Bool
has_flag flag flags = (flags / flag) % 2 == 1

abbrev pub set_flag : ℕ → ℕ → ℕ
set_flag flag flags = if (flags / flag) % 2 == 1 then flags else flags + flag

abbrev pub clear_flag : ℕ → ℕ → ℕ
clear_flag flag flags = if (flags / flag) % 2 == 1 then flags - flag else flags

abbrev pub of_link_src : ℕ
of_link_src = 0x02000000

abbrev pub of_link : ℕ
of_link = 0x04000000

abbrev pub of_system : ℕ
of_system = 0x80000000

-- `OF_POINTER == (o->oflags & 0xF0000000)`
abbrev pub is_pointer : ℕ → Bool
is_pointer flags = (flags / 2 ^ 28) % 16 == 10

module _ {F : Type 0} where
  -- a write through `o2` behind `if (OBJ_VALID(p, id, o2))`
  unfoldable pub update : Table F → ℕ → (Obj F → Obj F) → Table F
  update t id change = elim (obj_valid t id) [ none ↦ t | some o ↦ set t id (some (change o)) ]

  -- what follows if an object is there, as it is then
  unfoldable pub with_current : Table F → ℕ → (Obj F → Table F) → Table F
  with_current t id rest = elim (obj_valid t id) [ none ↦ t | some o ↦ rest o ]

  -- The three writes of `link_delete` to other objects. Each reads the object anew.
  unfoldable pub fix_previous : Table F → ℕ → Table F
  unfolding with_current update
  fix_previous t oid = with_current t oid λ o.
      if o.linkid == minus_one
      then t
      else if o.lprev == minus_one
      then t
      else update t o.lprev (λ o2. record o2 { lnext = o.lnext })

  unfoldable pub fix_parent : Table F → ℕ → Table F
  unfolding with_current update
  fix_parent t oid = with_current t oid λ o.
      if o.linkid == minus_one
      then t
      else update t o.linkid (λ o2. if o2.lsub == oid then record o2 { lsub = o.lnext } else o2)

  unfoldable pub fix_next : Table F → ℕ → Table F
  unfolding with_current update
  fix_next t oid = with_current t oid λ o.
      if o.linkid == minus_one
      then t
      else if o.lnext == minus_one
      then t
      else update t o.lnext (λ o2. record o2 { lprev = o.lprev })

  unfoldable pub detach : Table F → ℕ → Table F
  unfolding update
  detach t oid = update t oid λ o. record o {
    lnext = minus_one;
    lprev = minus_one;
    linkid = minus_one;
    oflags = clear_flag of_link o.oflags;
  }

  unfoldable pub link_delete : Table F → ℕ → Table F
  unfolding fix_previous fix_parent fix_next detach
  link_delete t oid = detach (fix_next (fix_parent (fix_previous t oid) oid) oid) oid

  -- the writes of `link_insert`, in their order
  unfoldable pub attach : Table F → ℕ → ℕ → Table F
  unfolding update
  attach t oid target =
      update t oid λ o. record o { oflags = set_flag of_link o.oflags; linkid = target }

  unfoldable pub take_first : Table F → ℕ → ℕ → Table F
  unfolding with_current update
  take_first t oid target =
      with_current t target λ ot. update t oid (λ o. record o { lnext = ot.lsub })

  unfoldable pub link_back : Table F → ℕ → Table F
  unfolding with_current update
  link_back t oid =
      with_current t oid
        λ o. if o.lnext == minus_one then t else update t o.lnext (λ o2. record o2 { lprev = oid })

  unfoldable pub become_first : Table F → ℕ → ℕ → Table F
  unfolding update
  become_first t oid target = update t target (λ ot. record ot { lsub = oid })

  unfoldable pub link_insert : Table F → ℕ → ℕ → Table F
  unfolding with_current attach take_first link_back become_first
  link_insert t oid target = with_current t oid λ o.
      with_current t target
        λ ot. become_first (link_back (take_first (attach t oid target) oid target) oid) oid target
