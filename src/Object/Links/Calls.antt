-- ===== src/Object/Links/Calls.antt =====
-- The calls `obj_link` and `obj_unlink` of server/object.c on well-formed links: how they return.
use s3d.Base.{
  ℕ, ◌≤◌, ◌≡◌, ◌⊎◌, refl, sym, ◌∙◌, arith, true, ◌&&◌, if◌then◌else◌, ◌==◌, ==_iff, Bool-cases,
  Option-cases, none, some, inl, inr,
}
use s3d.Object.{minus_one, Obj, Table, Status, done, failed, obj_valid}
use s3d.Object.Links.{has_flag, of_system, is_pointer}
use s3d.Object.Links.View.{node}
use s3d.Object.Links.Chains.{node-some}
use s3d.Object.Links.Delete.{without, link_delete-node}
use s3d.Object.Links.Rooted.{Above, height, search_up-Rooted}
use s3d.Object.Links.Forest.{IsForest}
use s3d.Object.Links.Link.{returned, relink, obj_link, obj_unlink}
use s3d.Object.Links.Relink.{Accepted, relink-IsForest, relink-family, link_delete-IsForest}

-- why `obj_link` refuses
pub data Refused {F : Type 0} (t : Table F) (pid oid_from oid_to : ℕ) : Type 0 where
  no_object : obj_valid t oid_from ≡ none → Refused t pid oid_from oid_to
  no_parent : obj_valid t oid_to ≡ none → Refused t pid oid_from oid_to
  itself : oid_to ≡ oid_from → Refused t pid oid_from oid_to
  pointer :
      (o : Obj F)
      → obj_valid t oid_from ≡ some o
      → is_pointer o.oflags ≡ true
      → Refused t pid oid_from oid_to
  circle : Above (node t) oid_from oid_to → Refused t pid oid_from oid_to
  system :
      (o : Obj F)
      → obj_valid t oid_from ≡ some o
      → has_flag of_system o.oflags ≡ true
      → pid ≡ 0
      → Refused t pid oid_from oid_to

module _ {F : Type 0} where
  failed-done : {t t' : Table F} → returned failed t ≡ returned done t' → ⊥
  failed-done e = cc

  returned_table : {t t' : Table F} → returned done t ≡ returned done t' → t ≡ t'
  returned_table e = cc

  -- On a forest, with fuel for the way up from the new parent, `obj_link` refuses for one of the reasons
  -- and changes nothing, or none of them is there, and it returns 0 and relinks the object.
  pub obj_link-cases :
      (fuel pid : ℕ) (t : Table F) (oid_from oid_to : ℕ) (h : IsForest (node t))
      → height (h.rooted oid_to) ≤ fuel
      → (Refused t pid oid_from oid_to × (obj_link fuel pid t oid_from oid_to ≡ returned failed t))
        ⊎ ((a : Accepted t pid oid_from oid_to) × (obj_link fuel pid t oid_from oid_to
              ≡ returned done (relink t a.object oid_from oid_to)))
  unfolding obj_link
  obj_link-cases fuel pid t oid_from oid_to h le = elim (Option-cases (obj_valid t oid_from)) [
    | inl e ↦ inl (no_object e, rw (e, obj_link) refl)
    | inr (o, e) ↦ elim (Option-cases (obj_valid t oid_to)) [
      | inl e2 ↦ inl (no_parent e2, rw (e, obj_link, e2, obj_link) refl)
      | inr (o2, e2) ↦ elim (Bool-cases (oid_to == oid_from)) [
        | inl f ↦ inl (itself ((==_iff _ _).0 f), rw (e, obj_link, e2, obj_link, f) refl)
        | inr f ↦ elim (Bool-cases (is_pointer o.oflags)) [
          | inl g ↦ inl (pointer o e g, rw (e, obj_link, e2, obj_link, f, g) refl)
          | inr g ↦
              elim (search_up-Rooted t h.links oid_from fuel (h.rooted oid_to)
                (ground (arith, node-some t oid_to e2)) le) [
                  | inl (s, a) ↦
                      inl (circle a, rw (e, obj_link, e2, obj_link, f, g, s, obj_link) refl)
                  | inr (s, a) ↦ elim (Bool-cases (has_flag of_system o.oflags && (pid == 0))) [
                    | inl k ↦ inl (
                      system o e (ground arith) (ground arith),
                      rw (e, obj_link, e2, obj_link, f, g, s, obj_link, k) refl,
                    )
                    | inr k ↦ inr (
                      record {
                        object = o;
                        is_object = e;
                        is_parent = ground (arith, node-some t oid_to e2);
                        other = ground arith;
                        no_circle = a;
                        no_pointer = g;
                        no_system = k;
                      },
                      rw (e, obj_link, e2, obj_link, f, g, s, obj_link, k) refl,
                    )
                  ]
                ]
        ]
      ]
    ]
  ]

  -- On a forest, with fuel for the objects on the way up from the new parent, `obj_link` returns, without
  -- reading a NULL entry, and the links form a forest again.
  pub obj_link-IsForest :
      (fuel pid : ℕ) (t : Table F) (oid_from oid_to : ℕ) (h : IsForest (node t))
      → height (h.rooted oid_to) ≤ fuel
      → (s : Status) × (t' : Table F) × (obj_link fuel pid t oid_from oid_to ≡ returned s t')
        × IsForest (node t')
  obj_link-IsForest fuel pid t oid_from oid_to h le =
      elim (obj_link-cases fuel pid t oid_from oid_to h le) [
        | inl (r, e) ↦ (failed, t, e, h)
        | inr (a, e) ↦ (
          done,
          relink t a.object oid_from oid_to,
          e,
          relink-IsForest t oid_from oid_to a.is_object a.is_parent a.other a.no_circle h,
        )
      ]

  -- On a forest, with fuel for the way up from the new parent, a call of `obj_link` that returns 0
  -- leaves a forest, in which the object has the parent that the call names and every other object
  -- keeps its own; if that is another parent than before, the object is its first child.
  pub obj_link-family :
      (fuel pid : ℕ) (t t' : Table F) (oid_from oid_to : ℕ) (h : IsForest (node t))
      → height (h.rooted oid_to) ≤ fuel
      → obj_link fuel pid t oid_from oid_to ≡ returned done t'
      → IsForest (node t')
        × ((j : ℕ) → (node t' j).parent ≡ (if oid_from == j then oid_to else (node t j).parent))
        × (((node t oid_from).parent ≡ oid_to) ⊎ ((node t' oid_to).sub ≡ oid_from))
  obj_link-family fuel pid t t' oid_from oid_to h le r =
      elim (obj_link-cases fuel pid t oid_from oid_to h le) [
        | inl (_, e) ↦ absurd (failed-done (sym e ∙ r))
        | inr (a, e) ↦
            let same : relink t a.object oid_from oid_to ≡ t' = returned_table (sym e ∙ r) in
            let (parents, first) = relink-family t pid oid_from oid_to a in
            rw (← same) (
              relink-IsForest t oid_from oid_to a.is_object a.is_parent a.other a.no_circle h,
              parents,
              elim (Bool-cases ((node t oid_from).parent == oid_to)) [
                | inl old ↦ inl ((==_iff _ _).0 old)
                | inr new ↦ inr (first (λ p. ground arith))
              ],
            )
      ]

  -- An object whose new parent is below it is refused.
  pub obj_link-circle :
      (fuel pid : ℕ) (t : Table F) (oid_from oid_to : ℕ) (h : IsForest (node t))
      → height (h.rooted oid_to) ≤ fuel
      → Above (node t) oid_from oid_to
      → obj_link fuel pid t oid_from oid_to ≡ returned failed t
  obj_link-circle fuel pid t oid_from oid_to h le b =
      elim (obj_link-cases fuel pid t oid_from oid_to h le) [
        | inl (r, e) ↦ e
        | inr (a, e) ↦ elim (a.no_circle b) [ ]
      ]

  -- `obj_unlink` takes the parent of that object away, and of no other, if it returns 0, and leaves the
  -- parent of every object as it is if it returns -1.
  pub obj_unlink-parent :
      (t : Table F) (oid j : ℕ)
      → (node (obj_unlink t oid).1 j).parent ≡ (elim (obj_unlink t oid).0 [
        | done ↦ if oid == j then minus_one else (node t j).parent
        | failed ↦ (node t j).parent
      ])
  unfolding obj_unlink without
  obj_unlink-parent t oid j = elim (Option-cases (obj_valid t oid)) [
    | inl e ↦ rw (e, obj_unlink) refl
    | inr (o, e) ↦ rw (e, obj_unlink) (ground (arith, link_delete-node t oid j, node-some t oid e))
  ]

  pub obj_unlink-IsForest :
      (t : Table F) (oid : ℕ) → IsForest (node t) → IsForest (node (obj_unlink t oid).1)
  unfolding obj_unlink
  obj_unlink-IsForest t oid h = elim (Option-cases (obj_valid t oid)) [
    | inl e ↦ rw (e, obj_unlink) h
    | inr (o, e) ↦
        rw (e, obj_unlink)
          (elim (Bool-cases (is_pointer o.oflags)) [
            | inl f ↦ rw f h
            | inr f ↦ rw f (link_delete-IsForest t oid h)
          ])
  ]
