-- ===== src/Object/Clones/Chains.antt =====
-- No clone of a clone: what `obj_clone_change` of server/object.c keeps.
use s3d.Base.{
  ℕ, zero, suc, ◌≡◌, ◌≢◌, ap, arith, true, false, not, ◌&&◌, ◌||◌, none, some, [], ◌∷◌,
  if◌then◌else◌, ◌==◌, Option-cases, Bool-cases, inl, inr,
}
use s3d.Object.{Obj, Table, Status, done, failed, obj_valid}
use s3d.Object.Links.{has_flag}
use s3d.Object.Clones.{
  of_clone, of_clone_src, of_virtual, any_clone, is_empty, make_clone, no_source, clone_unless_same,
  obj_clone_change,
}
use s3d.Object.Clones.Flags.{
  Flags, flags, flags-none, flags-some, no_source-flags, make_clone-flags,
}

-- A clone, but for system objects, whose types have the bit OF_CLONE too, has an origin that is no
-- clone and is marked as a source.
abbrev pub IsCloned : (ℕ → Flags) → Type 0
IsCloned n =
    (i : ℕ)
    → (n i).clone ≡ true
    → (n i).system ≡ false
    → ((n (n i).origin).there ≡ true)
      × ((n (n i).origin).clone ≡ false)
      × ((n (n i).origin).source ≡ true)

module _ {F : Type 0} where
  any_clone-none :
      (t : Table F) (oid i : ℕ)
      → any_clone t oid ≡ false
      → (flags t i).clone ≡ true
      → (flags t i).origin ≢ oid
  unfolding any_clone flags obj_valid
  any_clone-none [] oid i e c = ground arith
  any_clone-none (none ∷ t) oid zero e c = ground arith
  any_clone-none (none ∷ t) oid (suc i) e c = any_clone-none t oid i e c
  any_clone-none (some o ∷ t) oid zero e c = ground arith
  any_clone-none (some o ∷ t) oid (suc i) e c = any_clone-none t oid i (ground arith) c

  -- a change that the guards of `obj_clone_change` let through
  make_clone-IsCloned :
      (t : Table F) (oid toid : ℕ)
      → IsCloned (flags t)
      → oid ≢ toid
      → (flags t toid).there ≡ true
      → (flags t toid).clone ≡ false
      → ((i : ℕ) → (flags t i).clone ≡ true → (flags t i).system ≡ false → (flags t i).origin ≢ oid)
      → IsCloned (flags (make_clone t oid toid))
  make_clone-IsCloned t oid toid h d there c nobody i = ground (
    arith,
    make_clone-flags t oid toid i,
    make_clone-flags t oid toid (flags t i).origin,
    make_clone-flags t oid toid toid,
    h i,
    nobody i,
  )

  no_source-IsCloned :
      (t : Table F) (oid : ℕ)
      → IsCloned (flags t)
      → ((i : ℕ) → (flags t i).clone ≡ true → (flags t i).origin ≢ oid)
      → IsCloned (flags (no_source t oid))
  no_source-IsCloned t oid h nobody i =
      ground
        (arith, no_source-flags t oid i, no_source-flags t oid (flags t i).origin, h i, nobody i)

  -- the result of a call for two objects that are there
  abbrev pub IsChanged : ℕ → ℕ → Status × Table F → Type 0
  IsChanged oid toid r =
      IsCloned (flags r.1)
      × (r.0 ≡ done → ((flags r.1 oid).clone ≡ true) × ((flags r.1 oid).origin ≡ toid))

  refused-IsChanged :
      (t : Table F) (oid toid : ℕ) → IsCloned (flags t) → IsChanged oid toid (failed, t)
  refused-IsChanged t oid toid h = (h, λ e. ground arith)

  clone_unless_same-IsChanged :
      (t : Table F) (oid toid : ℕ)
      → IsCloned (flags t)
      → (flags t oid).there ≡ true
      → (flags t toid).there ≡ true
      → (flags t toid).clone ≡ false
      → ((i : ℕ) → (flags t i).clone ≡ true → (flags t i).system ≡ false → (flags t i).origin ≢ oid)
      → IsChanged oid toid (clone_unless_same t oid toid)
  unfolding clone_unless_same
  clone_unless_same-IsChanged t oid toid h here there c nobody = elim (Bool-cases (oid == toid)) [
    | inl e ↦ rw e (refused-IsChanged t oid toid h)
    | inr e ↦ rw e (
      make_clone-IsCloned t oid toid h (ground arith) there c nobody,
      λ q. ground (arith, make_clone-flags t oid toid oid),
    )
  ]

  guarded :
      (t : Table F) (oid toid : ℕ) {o other : Obj F}
      → IsCloned (flags t)
      → obj_valid t oid ≡ some o
      → obj_valid t toid ≡ some other
      → IsChanged oid toid (
          if not ((has_flag of_clone o.oflags || is_empty o) && not (has_flag of_virtual o.oflags))
          then (failed, t)
          else if has_flag of_clone other.oflags
          then (failed, t)
          else if has_flag of_clone o.oflags || not (has_flag of_clone_src o.oflags)
          then clone_unless_same t oid toid
          else if any_clone t oid
          then (failed, t)
          else clone_unless_same (no_source t oid) oid toid)
  guarded t oid toid {o} {other} h e e2 =
      elim (Bool-cases
        (not ((has_flag of_clone o.oflags || is_empty o) && not (has_flag of_virtual o.oflags)))) [
          | inl f ↦ rw f (refused-IsChanged t oid toid h)
          | inr f ↦ elim (Bool-cases (has_flag of_clone other.oflags)) [
            | inl g ↦ rw (f, g) (refused-IsChanged t oid toid h)
            | inr g ↦
                elim (Bool-cases
                  (has_flag of_clone o.oflags || not (has_flag of_clone_src o.oflags))) [
                    | inl k ↦
                        rw (f, g, k)
                          (clone_unless_same-IsChanged t oid toid h
                            (ground (arith, flags-some t oid e))
                            (ground (arith, flags-some t toid e2))
                            (ground (arith, flags-some t toid e2))
                            (λ i. ground (arith, h i, flags-some t oid e, ap (flags t))))
                    | inr k ↦ elim (Bool-cases (any_clone t oid)) [
                      | inl m ↦ rw (f, g, k, m) (refused-IsChanged t oid toid h)
                      | inr m ↦
                          rw (f, g, k, m)
                            (clone_unless_same-IsChanged (no_source t oid) oid toid
                              (no_source-IsCloned t oid h (λ i. any_clone-none t oid i m))
                              (ground (arith, no_source-flags t oid oid, flags-some t oid e))
                              (ground (arith, no_source-flags t oid toid, flags-some t toid e2))
                              (ground (arith, no_source-flags t oid toid, flags-some t toid e2))
                              (λ i.
                                ground (arith, no_source-flags t oid i, any_clone-none t oid i m)))
                    ]
                  ]
          ]
        ]

  -- If every clone that is no system object has an origin that is there, is no clone itself, and is
  -- marked as a source, that is so after `obj_clone_change`, whatever its arguments. If it returns 0 for
  -- two objects that are there, the one is a clone of the other then.
  pub obj_clone_change-IsCloned :
      (t : Table F) (oid toid : ℕ)
      → IsCloned (flags t)
      → IsCloned (flags (obj_clone_change t oid toid).1)
        × ((flags t oid).there ≡ true
            → (flags t toid).there ≡ true
            → (obj_clone_change t oid toid).0 ≡ done
            → ((flags (obj_clone_change t oid toid).1 oid).clone ≡ true)
              × ((flags (obj_clone_change t oid toid).1 oid).origin ≡ toid))
  unfolding obj_clone_change
  obj_clone_change-IsCloned t oid toid h = elim (Option-cases (obj_valid t oid)) [
    | inl e ↦ rw (e, obj_clone_change) (h, λ here. ground (arith, flags-none t oid e))
    | inr (o, e) ↦ elim (Option-cases (obj_valid t toid)) [
      | inl e2 ↦
          rw (e, obj_clone_change, e2, obj_clone_change)
            (h, λ here there. ground (arith, flags-none t toid e2))
      | inr (other, e2) ↦
          rw (e, obj_clone_change, e2, obj_clone_change)
            (let r = guarded t oid toid h e e2 in (r.0, λ here there. r.1))
    ]
  ]
