-- ===== src/Events/Drain.antt =====
-- The loop of `s3d_process_stack` in libs3d/event.c to its end.
use s3d.Base.{
  ℕ, zero, suc, ◌+◌, ◌<◌, ◌≤◌, ◌≡◌, refl, ap, sym, ap₂, ◌∙◌, arith, none, some, List, [], ◌∷◌, ◌++◌,
  if◌then◌else◌, append-nil, append_assoc, Option-cases, ==_iff, inl, inr,
}
use s3d.Events.{Event, Events, Callbacks, call, process, s3d_process_stack}
use s3d.Events.Stack.{call-IsAfter}

-- the work that events mean, where each one means so much and one more
abbrev pub work : (Event → ℕ) → List Event → ℕ
work weight [] = 0
work weight (e ∷ es) = suc (weight e) + work weight es

-- the events that have a callback, in order
abbrev pub with_callback : Callbacks → List Event → List Event
with_callback cbs [] = []
with_callback cbs (e ∷ es) = elim (cbs e.event) [
  | none ↦ with_callback cbs es
  | some cb ↦ e ∷ with_callback cbs es
]

work-append :
    (weight : Event → ℕ) (a b : List Event) → work weight (a ++ b) ≡ work weight a + work weight b
work-append weight [] b = ground arith
work-append weight (e ∷ a) b = ground (arith, work-append weight a b)

with_callback-append :
    (cbs : Callbacks) (a b : List Event)
    → with_callback cbs (a ++ b) ≡ with_callback cbs a ++ with_callback cbs b
with_callback-append cbs [] b = refl
with_callback-append cbs (e ∷ a) b = elim (Option-cases (cbs e.event)) [
  | inl f ↦ rw (f, with_callback) (with_callback-append cbs a b)
  | inr (cb, f) ↦ rw (f, with_callback) (ap (λ l. e ∷ l) (with_callback-append cbs a b))
]

-- what the loop leaves: `later` was pushed by callbacks and handled behind what was there
pub record IsDrained (cbs : Callbacks) (s t : Events) : Type 0 where
  pub empty : t.stack ≡ []
  pub unlocked : t.cb_lock ≡ s.cb_lock
  pub later : List Event
  pub in_order : t.handled ≡ s.handled ++ (with_callback cbs s.stack ++ later)

behind :
    (h a b c : List Event) (e : Event)
    → (h ++ (e ∷ [])) ++ ((a ++ b) ++ c) ≡ h ++ ((e ∷ a) ++ (b ++ c))
behind h a b c e =
    append_assoc h (e ∷ []) ((a ++ b) ++ c) ∙ ap (λ l. h ++ (e ∷ l)) (append_assoc a b c)

with_callback-none :
    (cbs : Callbacks) (e : Event) (es : List Event)
    → cbs e.event ≡ none
    → with_callback cbs (e ∷ es) ≡ with_callback cbs es
with_callback-none cbs e es f = rw (f, with_callback) refl

with_callback-some :
    (cbs : Callbacks) (e : Event) (es : List Event) {cb : Event → List Event}
    → cbs e.event ≡ some cb
    → with_callback cbs (e ∷ es) ≡ e ∷ with_callback cbs es
with_callback-some cbs e es f = rw (f, with_callback) refl

module _ (oid_of : List ℕ → ℕ) (cbs : Callbacks) (weight : Event → ℕ)
    (bounded : (e : Event) (cb : Event → List Event)
      → cbs e.event ≡ some cb
      → work weight (cb e) ≤ weight e) where
  process-drains :
      (fuel : ℕ) (l : List Event) (s : Events)
      → work weight l < fuel
      → (t : Events) × (process oid_of fuel cbs (record s { stack = l }) ≡ some t)
        × IsDrained cbs (record s { stack = l }) t
  unfolding process
  process-drains zero l s lt = ground arith
  process-drains (suc fuel) [] s lt = (
    record s { stack = [] },
    refl,
    record { empty = refl; unlocked = refl; later = []; in_order = sym (append-nil s.handled) },
  )
  process-drains (suc fuel) (e ∷ es) s lt = elim (Option-cases (cbs e.event)) [
    | inl f ↦
        (let (t, g, d) = process-drains fuel es s (ground arith) in
          (
            t,
            rw (f, process) g,
            record {
              empty = d.empty;
              unlocked = d.unlocked;
              later = d.later;
              in_order = rw (with_callback-none cbs e es f) d.in_order;
            },
          ))
    | inr (cb, f) ↦
        (let u = call oid_of (record s { stack = es }) e cb in
          let a = call-IsAfter oid_of (record s { stack = es }) e cb in
          let (t, g, d) = process-drains fuel u.stack u (
            ground
              (arith, ap (work weight) a.stack, work-append weight es (cb e), bounded e cb f)) in
          (
            t,
            rw (f, process) g,
            record {
              empty = d.empty;
              unlocked = d.unlocked ∙ a.cb_lock;
              later = with_callback cbs (cb e) ++ d.later;
              in_order =
                  d.in_order
                  ∙ ap₂ (λ h l. h ++ (l ++ d.later)) a.handled
                      (ap (with_callback cbs) a.stack ∙ with_callback-append cbs es (cb e))
                  ∙ behind s.handled (with_callback cbs es) (with_callback cbs (cb e)) d.later e
                  ∙ ap (λ l. s.handled ++ (l ++ (with_callback cbs (cb e) ++ d.later)))
                      (sym (with_callback-some cbs e es f));
            },
          ))
  ]

  -- With no callback under way and fuel for the work of the events that wait, `s3d_process_stack` ends
  -- with an empty stack and the lock as it was, if no callback pushes more work than its event means
  -- beside itself: of the events that waited those with a callback are handled first, in the order in
  -- which they came.
  pub process_stack-IsDrained :
      (fuel : ℕ) (s : Events)
      → s.cb_lock ≡ 0
      → work weight s.stack < fuel
      → (t : Events) × (s3d_process_stack oid_of fuel cbs s ≡ some t) × IsDrained cbs s t
  unfolding s3d_process_stack
  process_stack-IsDrained fuel s free lt =
      let (t, g, d) = process-drains fuel s.stack s lt in
      (
        t,
        ap (λ b. if b then process oid_of fuel cbs s else some s) ((==_iff s.cb_lock 0).1 free) ∙ g,
        d,
      )
