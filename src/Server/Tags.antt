-- ===== src/Server/Tags.antt =====
-- What the operations of the links leave of the objects of the mcp that stand for programs: their number
-- `virtual_pid` and the flag OF_VIRTUAL.
use s3d.Base.{
  ℕ, ◌≡◌, refl, ap, ◌∙◌, arith, Bool, true, false, Bool-cases, Option, Option-cases, inl, inr, none,
  some, length, if◌then◌else◌, ◌==◌, length-set,
}
use s3d.Object.{Obj, Table, obj_valid, minus_one}
use s3d.Object.Frame.{obj_valid-set}
use s3d.Object.Links.{
  has_flag, clear_flag, of_link, update, with_current, fix_previous, fix_parent, fix_next, detach,
  link_delete,
}
use s3d.Object.Clones.{of_clone, of_virtual}

abbrev pub Tag : Type 0
Tag = ℕ × Bool

abbrev pub tag_of : {F : Type 0} → Obj F → Tag
tag_of o = (o.virtual_pid, has_flag of_virtual o.oflags)

abbrev pub tag_if : {F : Type 0} → Option (Obj F) → Option Tag
tag_if none = none
tag_if (some o) = some (tag_of o)

unfoldable pub tag_at : {F : Type 0} → Table F → ℕ → Option Tag
tag_at t j = tag_if (obj_valid t j)

pub tag_of-if :
    {F : Type 0} (b : Bool) (x y : Obj F)
    → tag_of x ≡ tag_of y
    → tag_of (if b then x else y) ≡ tag_of y
tag_of-if true x y e = e
tag_of-if false x y e = refl

pub has_virtual-clear_link :
    (flags : ℕ) → has_flag of_virtual (clear_flag of_link flags) ≡ has_flag of_virtual flags
has_virtual-clear_link flags = ground arith

pub has_virtual-clear_clone :
    (flags : ℕ) → has_flag of_virtual (clear_flag of_clone flags) ≡ has_flag of_virtual flags
has_virtual-clear_clone flags = ground arith

module _ {F : Type 0} where
  pub tag_at-update :
      (t : Table F) (id j : ℕ) (change : Obj F → Obj F)
      → ((o : Obj F) → tag_of (change o) ≡ tag_of o)
      → tag_at (update t id change) j ≡ tag_at t j
  unfolding tag_at update
  tag_at-update t id j change h = elim (Option-cases (obj_valid t id)) [
    | inl e ↦ rw (e, update) refl
    | inr (o, e) ↦ ground (arith, obj_valid-set t id j (change o) e, h o)
  ]

  length-update :
      (t : Table F) (id : ℕ) (change : Obj F → Obj F) → length (update t id change) ≡ length t
  unfolding update
  length-update t id change = elim (Option-cases (obj_valid t id)) [
    | inl e ↦ rw (e, update) refl
    | inr (o, e) ↦ rw (e, update) (length-set t id (some (change o)))
  ]

  -- A table with as many entries and the same tags
  abbrev pub Alike : Table F → Table F → Type 0
  Alike t t' = (length t' ≡ length t) × ((j : ℕ) → tag_at t' j ≡ tag_at t j)

  pub Alike-update :
      (t : Table F) (id : ℕ) (change : Obj F → Obj F)
      → ((o : Obj F) → tag_of (change o) ≡ tag_of o)
      → Alike t (update t id change)
  Alike-update t id change h = (length-update t id change, λ j. tag_at-update t id j change h)

  pub Alike-trans : (t u v : Table F) → Alike t u → Alike u v → Alike t v
  Alike-trans t u v a b = (b.0 ∙ a.0, λ j. b.1 j ∙ a.1 j)

  fix_previous-Alike : (t : Table F) (oid : ℕ) → Alike t (fix_previous t oid)
  unfolding fix_previous
  fix_previous-Alike t oid = elim (Option-cases (obj_valid t oid)) [
    | inl e ↦ rw (e, with_current) (refl, λ j. refl)
    | inr (o, e) ↦
        rw (e, with_current)
          (elim (Bool-cases (o.linkid == minus_one)) [
            | inl f ↦ rw f (refl, λ j. refl)
            | inr f ↦ rw f (elim (Bool-cases (o.lprev == minus_one)) [
              | inl g ↦ rw g (refl, λ j. refl)
              | inr g ↦
                  rw g (Alike-update t o.lprev (λ o2. record o2 { lnext = o.lnext }) (λ o2. refl))
            ])
          ])
  ]

  fix_parent-Alike : (t : Table F) (oid : ℕ) → Alike t (fix_parent t oid)
  unfolding fix_parent
  fix_parent-Alike t oid = elim (Option-cases (obj_valid t oid)) [
    | inl e ↦ rw (e, with_current) (refl, λ j. refl)
    | inr (o, e) ↦
        rw (e, with_current)
          (elim (Bool-cases (o.linkid == minus_one)) [
            | inl f ↦ rw f (refl, λ j. refl)
            | inr f ↦ rw f (
                Alike-update t o.linkid
                  (λ o2. if o2.lsub == oid then record o2 { lsub = o.lnext } else o2)
                  (λ o2. tag_of-if (o2.lsub == oid) (record o2 { lsub = o.lnext }) o2 refl))
          ])
  ]

  fix_next-Alike : (t : Table F) (oid : ℕ) → Alike t (fix_next t oid)
  unfolding fix_next
  fix_next-Alike t oid = elim (Option-cases (obj_valid t oid)) [
    | inl e ↦ rw (e, with_current) (refl, λ j. refl)
    | inr (o, e) ↦
        rw (e, with_current)
          (elim (Bool-cases (o.linkid == minus_one)) [
            | inl f ↦ rw f (refl, λ j. refl)
            | inr f ↦ rw f (elim (Bool-cases (o.lnext == minus_one)) [
              | inl g ↦ rw g (refl, λ j. refl)
              | inr g ↦
                  rw g (Alike-update t o.lnext (λ o2. record o2 { lprev = o.lprev }) (λ o2. refl))
            ])
          ])
  ]

  pub link_delete-Alike : (t : Table F) (oid : ℕ) → Alike t (link_delete t oid)
  unfolding link_delete detach
  link_delete-Alike t oid =
      let t1 = fix_previous t oid in
      let t2 = fix_parent t1 oid in
      let t3 = fix_next t2 oid in
      Alike-trans t t1 (link_delete t oid) (fix_previous-Alike t oid) (
        Alike-trans t1 t2 (link_delete t oid) (fix_parent-Alike t1 oid) (
          Alike-trans t2 t3 (link_delete t oid) (fix_next-Alike t2 oid) (
            Alike-update t3 oid
              (λ o. record o {
                lnext = minus_one;
                lprev = minus_one;
                linkid = minus_one;
                oflags = clear_flag of_link o.oflags;
              })
              (λ o. ap (λ b. (o.virtual_pid, b)) (has_virtual-clear_link o.oflags)))))

  -- a new number for the program behind an object
  pub tag_at-renumber :
      (t : Table F) (oid j pid : ℕ) {v : ℕ}
      → tag_at t oid ≡ some (v, true)
      → tag_at (update t oid (λ o. record o { virtual_pid = pid })) j
        ≡ (if oid == j then some (pid, true) else tag_at t j)
  unfolding tag_at update
  tag_at-renumber t oid j pid {v} h = elim (Option-cases (obj_valid t oid)) [
    | inl e ↦ ground (arith, e, h)
    | inr (o, e) ↦
        let here : tag_if (obj_valid t oid) ≡ some (tag_of o) = ap tag_if e in
        ground (arith, obj_valid-set t oid j (record o { virtual_pid = pid }) e, h, here, e)
  ]
