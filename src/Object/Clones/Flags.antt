-- ===== src/Object/Clones/Flags.antt =====
-- What `obj_clone_change` of server/object.c reads of an object, and how its writes change it.
use s3d.Base.{
  ℕ, ◌≡◌, refl, ap, arith, Bool, true, false, ◌&&◌, Option, none, some, if◌then◌else◌, ◌==◌,
  Option-cases, Bool-cases, inl, inr,
}
use s3d.Object.{Obj, Table, obj_valid}
use s3d.Object.Frame.{obj_valid-set}
use s3d.Object.Links.{has_flag, set_flag, clear_flag, of_system, update}
use s3d.Object.Clones.{of_clone, of_clone_src, make_clone, no_source}

-- what the test for clones reads of an object
pub record Flags : Type 0 where
  pub there : Bool
  pub clone : Bool
  pub source : Bool
  pub system : Bool
  pub origin : ℕ

abbrev pub flags_of : {F : Type 0} → Obj F → Flags
flags_of o = record {
  there = true;
  clone = has_flag of_clone o.oflags;
  source = has_flag of_clone_src o.oflags;
  system = has_flag of_system o.oflags;
  origin = o.clone_ooid;
}

abbrev pub flags_at : {F : Type 0} → Option (Obj F) → Flags
flags_at none = record { there = false; clone = false; source = false; system = false; origin = 0 }
flags_at (some o) = flags_of o

unfoldable pub flags : {F : Type 0} → Table F → ℕ → Flags
flags t i = flags_at (obj_valid t i)

clone-set_source : (f : ℕ) → has_flag of_clone (set_flag of_clone_src f) ≡ has_flag of_clone f
clone-set_source f = ground arith

system-set_source : (f : ℕ) → has_flag of_system (set_flag of_clone_src f) ≡ has_flag of_system f
system-set_source f = ground arith

clone-clear_source : (f : ℕ) → has_flag of_clone (clear_flag of_clone_src f) ≡ has_flag of_clone f
clone-clear_source f = ground arith

system-clear_source :
    (f : ℕ) → has_flag of_system (clear_flag of_clone_src f) ≡ has_flag of_system f
system-clear_source f = ground arith

source-set_clone : (f : ℕ) → has_flag of_clone_src (set_flag of_clone f) ≡ has_flag of_clone_src f
source-set_clone f = ground arith

system-set_clone : (f : ℕ) → has_flag of_system (set_flag of_clone f) ≡ has_flag of_system f
system-set_clone f = ground arith

clone-set_clone : (f : ℕ) → has_flag of_clone (set_flag of_clone f) ≡ true
clone-set_clone f = ground arith

source-set_source : (f : ℕ) → has_flag of_clone_src (set_flag of_clone_src f) ≡ true
source-set_source f = ground arith

source-clear_source : (f : ℕ) → has_flag of_clone_src (clear_flag of_clone_src f) ≡ false
source-clear_source f = ground arith

-- the flags of an object that is there
abbrev marked : Bool → Bool → Bool → ℕ → Flags
marked a b c n = record { there = true; clone = a; source = b; system = c; origin = n }

marked_eq :
    {a a' b b' c c' : Bool} {n : ℕ} → a ≡ a' → b ≡ b' → c ≡ c' → marked a b c n ≡ marked a' b' c' n
marked_eq p q r = cc

module _ {F : Type 0} where
  pub flags-none : (t : Table F) (id : ℕ) → obj_valid t id ≡ none → (flags t id).there ≡ false
  unfolding flags
  flags-none t id e = rw e refl

  pub flags-some :
      (t : Table F) (id : ℕ) {o : Obj F} → obj_valid t id ≡ some o → flags t id ≡ flags_of o
  unfolding flags
  flags-some t id e = rw e refl

  flags-update :
      (t : Table F) (id j : ℕ) (change : Obj F → Obj F) (step : Flags → Flags)
      → ((o : Obj F) → flags_of (change o) ≡ step (flags_of o))
      → flags (update t id change) j
        ≡ (if (id == j) && (flags t j).there then step (flags t j) else flags t j)
  unfolding flags update
  flags-update t id j change step h = elim (Option-cases (obj_valid t id)) [
    | inl e ↦ elim (Bool-cases (id == j)) [
      | inl same ↦ ground (arith, flags-none t id e, ap (obj_valid t))
      | inr other ↦ rw (e, update, other) refl
    ]
    | inr (o, e) ↦
        ground (arith, obj_valid-set t id j (change o) e, h o, flags-some t id e, ap (obj_valid t))
  ]

  pub no_source-flags :
      (t : Table F) (oid j : ℕ)
      → flags (no_source t oid) j ≡ (
          if (oid == j) && (flags t j).there
          then record (flags t j) { source = false }
          else flags t j)
  unfolding no_source
  no_source-flags t oid j =
      flags-update t oid j (λ o. record o { oflags = clear_flag of_clone_src o.oflags })
        (λ n. record n { source = false })
        (λ o.
          marked_eq (clone-clear_source o.oflags) (source-clear_source o.oflags)
            (system-clear_source o.oflags))

  -- all three writes of a change
  pub make_clone-flags :
      (t : Table F) (oid toid j : ℕ)
      → flags (make_clone t oid toid) j ≡ (
          if (flags t j).there
          then record {
            there = true;
            clone = if oid == j then true else (flags t j).clone;
            source = if toid == j then true else (flags t j).source;
            system = (flags t j).system;
            origin = if oid == j then toid else (flags t j).origin;
          }
          else flags t j)
  unfolding make_clone
  make_clone-flags t oid toid j =
      let t1 = update t oid (λ o. record o { oflags = set_flag of_clone o.oflags }) in
      let t2 = update t1 toid (λ o. record o { oflags = set_flag of_clone_src o.oflags }) in
      ground (
        arith,
        flags-update t oid j (λ o. record o { oflags = set_flag of_clone o.oflags })
            (λ n. record n { clone = true })
            (λ o.
              marked_eq (clone-set_clone o.oflags) (source-set_clone o.oflags)
                (system-set_clone o.oflags)),
        flags-update t1 toid j (λ o. record o { oflags = set_flag of_clone_src o.oflags })
            (λ n. record n { source = true })
            (λ o.
              marked_eq (clone-set_source o.oflags) (source-set_source o.oflags)
                (system-set_source o.oflags)),
        flags-update t2 oid j (λ o. record o { clone_ooid = toid })
            (λ n. record n { origin = toid }) (λ o. refl),
      )
