-- ===== src/Events.antt =====
-- The events of a client, of libs3d/event.c and libs3d/callback.c: the stack of events that wait, in
-- the order in which they came, and the lock that keeps a callback from being called within another.
--
-- A callback is code of the program. Of what it does, the model has the events that it pushes, a list;
-- it runs with the lock set, so that they are put on the stack. `handled` is the list of the events
-- that callbacks were called with. `oid_of` reads an `unsigned int` from a buffer.
pub mod Stack
pub mod Drain
pub mod Incoming
pub mod Sent
mod Tests
use s3d.Base.{
  ℕ, zero, suc, ◌+◌, ◌-◌, ◌≡◌, Bool, true, false, Option, none, some, List, [], ◌∷◌, ◌++◌,
  if◌then◌else◌, ◌==◌, leb,
}
use s3d.Client.Queue.{Queue, queue_new_object}

-- `struct s3d_evt`, with its address in place of `next`
pub record Event : Type 0 where
  pub address : ℕ
  pub event : ℕ
  pub length : ℕ
  pub buf : List ℕ

-- `s3d_stack` and `cb_lock`, with the queue of objects
pub record Events : Type 0 where
  pub stack : List Event
  pub cb_lock : ℕ
  pub handled : List Event
  pub queue : Queue

-- `s3d_cb_list`, `none` for S3D_CBNIL
abbrev pub Callbacks : Type 0
Callbacks = ℕ → Option (Event → List Event)

-- `_s3d_ignore`
abbrev pub ignore : Event → List Event
ignore e = []

-- the list at the start: the events 1 to 5, 16, 17 and 32 are ignored
unfoldable pub cb_list : Callbacks
cb_list event = if leb 1 event then if leb event 5 then some ignore else other else none
  where
    other : Option (Event → List Event)
    other =
        if event == 16
        then some ignore
        else if event == 17
        then some ignore
        else if event == 32
        then some ignore
        else none

abbrev pub event_new_object : ℕ
event_new_object = 16

-- the end of `s3d_push_event`
unfoldable pub append_event : Events → Event → Events
append_event s e = record s { stack = s.stack ++ (e ∷ []) }

module _ (oid_of : List ℕ → ℕ) where
  -- its beginning
  unfoldable pub note_object : Events → Event → Events
  unfolding queue_new_object
  note_object s e =
      if e.event == event_new_object
      then record s { queue = (queue_new_object (oid_of e.buf) s.queue).1 }
      else s

  -- what a callback pushes, with the lock set
  unfoldable pub push_locked : Events → List Event → Events
  unfolding note_object append_event
  push_locked s [] = s
  push_locked s (e ∷ es) = push_locked (append_event (note_object s e) e) es

  -- `cb_lock++; cb(e); cb_lock--;`
  unfoldable pub call : Events → Event → (Event → List Event) → Events
  unfolding push_locked
  call s e cb =
      let r =
        push_locked (record s { cb_lock = s.cb_lock + 1; handled = s.handled ++ (e ∷ []) })
          (cb e) in
      record r { cb_lock = r.cb_lock - 1 }

  unfoldable pub s3d_push_event : Callbacks → Events → Event → Events
  unfolding note_object append_event call
  s3d_push_event cbs s e =
      let t = note_object s e in
      if t.cb_lock == 0
      then elim (cbs e.event) [ none ↦ append_event t e | some cb ↦ call t e cb ]
      else append_event t e

  -- the loop of `s3d_process_stack` with `fuel` rounds to go; `none` if these are not enough
  unfoldable pub process : ℕ → Callbacks → Events → Option Events
  unfolding call
  process zero cbs s = none
  process (suc fuel) cbs s = elim s.stack [
    | [] ↦ some s
    | e ∷ es ↦
        (let t = record s { stack = es } in
          process fuel cbs (elim (cbs e.event) [ none ↦ t | some cb ↦ call t e cb ]))
  ]

  unfoldable pub s3d_process_stack : ℕ → Callbacks → Events → Option Events
  unfolding process
  s3d_process_stack fuel cbs s = if s.cb_lock == 0 then process fuel cbs s else some s

  -- the list with another callback for an event, and the events that were processed with it
  unfoldable pub s3d_set_callback :
      ℕ → Callbacks → Events → ℕ → (Event → List Event) → Callbacks × Option Events
  unfolding s3d_process_stack
  s3d_set_callback fuel cbs s event func =
      let new = λ (i : ℕ). if i == event then some func else cbs i in
      (new, s3d_process_stack fuel new s)

  unfoldable pub s3d_ignore_callback : ℕ → Callbacks → Events → ℕ → Callbacks × Option Events
  unfolding s3d_set_callback
  s3d_ignore_callback fuel cbs s event = s3d_set_callback fuel cbs s event ignore

unfoldable pub s3d_clear_callback : Callbacks → ℕ → Callbacks
s3d_clear_callback cbs event i = if i == event then none else cbs i

unfoldable pub s3d_pop_event : Events → Option Event × Events
s3d_pop_event s = elim s.stack [ [] ↦ (none, s) | e ∷ es ↦ (some e, record s { stack = es }) ]

unfoldable pub find_from : List Event → ℕ → Option Event
find_from [] event = none
find_from (e ∷ es) event =
    let rest = find_from es event in if e.event == event then some e else rest

unfoldable pub s3d_find_event : Events → ℕ → Option Event
unfolding find_from
s3d_find_event s event = find_from s.stack event

-- the loop of `s3d_delete_event`, which goes on behind the event
unfoldable pub without_event : List Event → ℕ → List Event
without_event [] address = []
without_event (e ∷ es) address =
    let rest = without_event es address in if e.address == address then rest else e ∷ rest

unfoldable pub s3d_delete_event : Events → ℕ → Events
unfolding without_event
s3d_delete_event s address = record s { stack = without_event s.stack address }
