-- ===== src/Events/Stack.antt =====
-- What a call of a callback does to the stack and the lock of libs3d/event.c.
use s3d.Base.{ℕ, ◌+◌, ◌≡◌, refl, ap, sym, ◌∙◌, arith, List, [], ◌∷◌, ◌++◌, append-nil, append_assoc}
use s3d.Events.{Event, Events, note_object, append_event, push_locked, call}

-- the parts of the state beside the queue of objects
pub record IsAfter (s t : Events) (pushed called : List Event) : Type 0 where
  pub stack : t.stack ≡ s.stack ++ pushed
  pub handled : t.handled ≡ s.handled ++ called
  pub cb_lock : t.cb_lock ≡ s.cb_lock

module _ (oid_of : List ℕ → ℕ) where
  push_one :
      (s : Events) (e : Event) → IsAfter s (append_event (note_object oid_of s e) e) (e ∷ []) []
  unfolding append_event note_object
  push_one s e = record {
    stack = ground arith;
    handled = ground (arith, append-nil s.handled);
    cb_lock = ground arith;
  }

  push_locked-IsAfter : (s : Events) (es : List Event) → IsAfter s (push_locked oid_of s es) es []
  unfolding push_locked
  push_locked-IsAfter s [] = record {
    stack = sym (append-nil s.stack);
    handled = sym (append-nil s.handled);
    cb_lock = refl;
  }
  push_locked-IsAfter s (e ∷ es) =
      let a = push_one s e in
      let b = push_locked-IsAfter (append_event (note_object oid_of s e) e) es in
      record {
        stack = b.stack ∙ ap (λ l. l ++ es) a.stack ∙ append_assoc s.stack (e ∷ []) es;
        handled = b.handled ∙ append-nil _ ∙ a.handled;
        cb_lock = b.cb_lock ∙ a.cb_lock;
      }

  -- A call puts what the callback pushes behind the events that wait, and gives the lock back.
  pub call-IsAfter :
      (s : Events) (e : Event) (cb : Event → List Event)
      → IsAfter s (call oid_of s e cb) (cb e) (e ∷ [])
  unfolding call
  call-IsAfter s e cb =
      let a =
        push_locked-IsAfter (record s { cb_lock = s.cb_lock + 1; handled = s.handled ++ (e ∷ []) })
          (cb e) in
      record {
        stack = a.stack;
        handled = a.handled ∙ append-nil _;
        cb_lock = ground (arith, a.cb_lock);
      }
