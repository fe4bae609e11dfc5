-- ===== src/Client/Queue.antt =====
-- libs3d/object_queue.c: the ids of objects that the server has made in advance, waiting in slots.
-- `queue_size` is the number of slots. `requested` is an `int`, given by its bit pattern. The packets
-- that ask for a new object are counted in `sent`.
use s3d.Base.{
  true, false, ℕ, zero, suc, ◌+◌, ◌-◌, ◌%◌, ◌^◌, ◌||◌, Bool, Option, none, some, List, [], ◌∷◌,
  ◌++◌, length, if◌then◌else◌, ltb, leb, ◌==◌,
}

-- `Q_UNUSED`, and -1 as an `unsigned int`
abbrev pub q_unused : ℕ
q_unused = 2 ^ 32 - 1

abbrev pub max_req : ℕ
max_req = 100

pub record Queue : Type 0 where
  pub slots : List ℕ
  pub requested : ℕ
  pub sent : ℕ

-- `_queue_init`, with the `_queue_fill` of its one slot
abbrev pub queue_init : Queue
queue_init = record { slots = q_unused ∷ []; requested = 0; sent = 1 }

-- the id put into the first slot that is not used
unfoldable pub place : ℕ → List ℕ → Option (List ℕ)
place oid [] = none
place oid (s ∷ ss) =
    let rest = place oid ss in
    if s == q_unused then some (oid ∷ ss) else elim rest [ none ↦ none | some r ↦ some (s ∷ r) ]

-- `_queue_new_object`: whether it returns 0, and the queue
unfoldable pub queue_new_object : ℕ → Queue → Bool × Queue
unfolding place
queue_new_object oid q =
    let fewer = (q.requested + 2 ^ 32 - 1) % 2 ^ 32 in
    elim (place oid q.slots) [
      | some ss ↦ (true, record q { slots = ss; requested = fewer })
      | none ↦
          if length q.slots == 0
          then (false, q)
          else (true, record q { slots = q.slots ++ oid ∷ []; requested = fewer })
    ]

-- the first slot that is used, emptied, and the id that was in it
unfoldable pub take_slot : List ℕ → Option (ℕ × List ℕ)
take_slot [] = none
take_slot (s ∷ ss) =
    let rest = take_slot ss in
    if s == q_unused
    then elim rest [ none ↦ none | some r ↦ some (r.0, s ∷ r.1) ]
    else some (s, q_unused ∷ ss)

-- the ids that one `s3d_net_check` delivers
unfoldable pub deliver : List ℕ → Queue → Queue
unfolding queue_new_object
deliver [] q = q
deliver (oid ∷ oids) q = deliver oids (queue_new_object oid q).1

-- another request, unless there are many on the way
unfoldable pub request : Queue → Queue
request q =
    if leb (2 ^ 31) q.requested || ltb q.requested max_req
    then record q { sent = q.sent + 1; requested = (q.requested + 1) % 2 ^ 32 }
    else q

-- The loop of `_queue_want_object`, with `passes` to go. `later` has what each of the following calls
-- of `s3d_net_check` delivers; what is left of it is given back with the id and the queue.
unfoldable pub queue_want_object : ℕ → List (List ℕ) → Queue → ℕ × Queue × List (List ℕ)
unfolding take_slot deliver request
queue_want_object zero later q = (q_unused, q, later)
queue_want_object (suc passes) later q = elim (take_slot q.slots) [
  | some r ↦ (r.0, record q { slots = r.1; sent = q.sent + 1 }, later)
  | none ↦ if length q.slots == 0 then (q_unused, q, later) else elim later [
    | [] ↦ queue_want_object passes [] (request q)
    | oids ∷ rest ↦ queue_want_object passes rest (deliver oids (request q))
  ]
]

-- `_queue_quit`
unfoldable pub queue_quit : Queue → Queue
queue_quit q = record q { slots = [] }
