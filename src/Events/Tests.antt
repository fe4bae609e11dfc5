-- ===== src/Events/Tests.antt =====
-- Events of a program with callbacks for two kinds of events.
use s3d.Base.{
  ℕ, ◌≡◌, ◌<◌, ◌≤◌, refl, arith, some_of_eq, Bool, true, false, none, some, List, [], ◌∷◌,
  if◌then◌else◌, ◌==◌,
}
use mathlib.Core.Path.{subst}
use s3d.Client.Queue.{queue_init}
use s3d.Events.{
  Event, Events, Callbacks, ignore, s3d_push_event, s3d_process_stack, s3d_pop_event,
  s3d_find_event, s3d_delete_event,
}
use s3d.Object.{Table, obj_valid}
use s3d.Events.Incoming.{net_prot_in, receive}
use s3d.Events.Sent.{event_key_pressed, key, packet_of, Fits, told, net_prot_in-sent}
use s3d.Events.Drain.{IsDrained, work, process_stack-IsDrained}

abbrev event_of : ℕ → ℕ → Event
event_of address kind = record { address = address; event = kind; length = 0; buf = [] }

-- the callback of a click pushes an event of kind 40, whose callback pushes nothing
abbrev clicks : Callbacks
clicks i = if i == 1 then some (λ e. event_of 9 40 ∷ []) else if i == 40 then some ignore else none

abbrev first_byte : List ℕ → ℕ
first_byte [] = 0
first_byte (b ∷ bs) = b

abbrev waiting : Events
waiting = record {
  stack = event_of 1 1 ∷ event_of 2 3 ∷ event_of 3 40 ∷ [];
  cb_lock = 0;
  handled = [];
  queue = queue_init;
}

-- A callback is not called within another one: its event waits.
push_click :
    s3d_push_event first_byte clicks (record waiting { stack = [] }) (event_of 5 1)
    ≡ record waiting { stack = event_of 9 40 ∷ []; handled = event_of 5 1 ∷ [] }
unfolding s3d_push_event
push_click = refl

process_clicks :
    s3d_process_stack first_byte 5 clicks waiting
    ≡ some
        (record waiting { stack = []; handled = event_of 1 1 ∷ event_of 3 40 ∷ event_of 9 40 ∷ [] })
unfolding s3d_process_stack
process_clicks = refl

find_oldest : s3d_find_event waiting 3 ≡ some (event_of 2 3)
unfolding s3d_find_event
find_oldest = refl

delete_middle :
    s3d_delete_event waiting 2 ≡ record waiting { stack = event_of 1 1 ∷ event_of 3 40 ∷ [] }
unfolding s3d_delete_event
delete_middle = refl

pop_oldest : (s3d_pop_event waiting).0 ≡ some (event_of 1 1)
unfolding s3d_pop_event
pop_oldest = refl

-- a click means one event more
abbrev click_weight : Event → ℕ
click_weight e = if e.event == 1 then 1 else 0

clicks_bounded_by :
    (click other : Bool) (e : Event) (cb : Event → List Event)
    → (if click
        then some (λ (e : Event). event_of 9 40 ∷ [])
        else if other
        then some ignore
        else none)
      ≡ some cb
    → work click_weight (cb e) ≤ (if click then 1 else 0)
clicks_bounded_by true other e cb f =
    subst (λ g. work click_weight (g e) ≤ 1) (some_of_eq f) (ground arith)
clicks_bounded_by false true e cb f =
    subst (λ g. work click_weight (g e) ≤ 0) (some_of_eq f) (ground arith)
clicks_bounded_by false false e cb f = ground arith

clicks_bounded :
    (e : Event) (cb : Event → List Event)
    → clicks e.event ≡ some cb
    → work click_weight (cb e) ≤ click_weight e
clicks_bounded e cb f = clicks_bounded_by (e.event == 1) (e.event == 40) e cb f

enough : work click_weight waiting.stack < 5
enough = ground arith

process_stack-IsDrained_example :
    (t : Events) × (s3d_process_stack first_byte 5 clicks waiting ≡ some t)
    × IsDrained clicks waiting t
process_stack-IsDrained_example =
    process_stack-IsDrained first_byte clicks click_weight clicks_bounded 5 waiting refl enough

abbrev no_objects : Table ℕ
no_objects = []

-- without a focus a key goes to the mcp alone
key_to_mcp :
    event_key_pressed no_objects 3 97 97 0 0 ≡ (0, (4, 0 ∷ 97 ∷ 0 ∷ 97 ∷ 0 ∷ 0 ∷ 0 ∷ 0 ∷ [])) ∷ []
unfolding event_key_pressed obj_valid
key_to_mcp = refl

received_click :
    receive first_byte clicks (record waiting { stack = []; cb_lock = 1 }) 7 3 (0 ∷ 0 ∷ 1 ∷ 2 ∷ [])
    ≡ record waiting {
      stack = record { address = 7; event = 1; length = 4; buf = 258 ∷ [] } ∷ [];
      cb_lock = 1;
    }
unfolding receive
received_click = refl

key-Fits : Fits (key 97 65 1 0)
key-Fits = (ground arith, ground arith, ground arith, ground arith)

net_prot_in-sent_example :
    net_prot_in (packet_of (key 97 65 1 0)).0 (packet_of (key 97 65 1 0)).1 ≡ told (key 97 65 1 0)
net_prot_in-sent_example = net_prot_in-sent (key 97 65 1 0) key-Fits
