-- ===== src/Client/Handout.antt =====
-- Where the ids of libs3d/object_queue.c go: what comes in waits in a slot or is handed out.
use mathlib.Core.Path.{subst}
use s3d.Base.{
  count, length-append, false, ℕ, zero, suc, ◌+◌, ◌<◌, ◌≡◌, ◌≢◌, refl, ap, arith, Bool-cases,
  Option-cases, inl, inr, Option, none, some, List, [], ◌∷◌, ◌++◌, length, ◌==◌,
}
use s3d.Client.Queue.{
  q_unused, Queue, place, queue_new_object, take_slot, deliver, request, queue_want_object,
}

abbrev pub count_all : ℕ → List (List ℕ) → ℕ
count_all v [] = 0
count_all v (xs ∷ rest) = count v xs + count_all v rest

count-append : (v : ℕ) (xs ys : List ℕ) → count v (xs ++ ys) ≡ count v xs + count v ys
count-append v [] ys = omega arith
count-append v (x ∷ xs) ys = ground (arith, count-append v xs ys)

-- what a search for a slot is to do to the count of an id
abbrev Placed : ℕ → ℕ → List ℕ → Option (List ℕ) → Type 0
Placed v oid ss none = Unit
Placed v oid ss (some r) = (count v r ≡ count v (oid ∷ []) + count v ss) × (length r ≡ length ss)

abbrev Taken : ℕ → List ℕ → Option (ℕ × List ℕ) → Type 0
Taken v ss none = Unit
Taken v ss (some r) = (count v (r.0 ∷ []) + count v r.1 ≡ count v ss) × (length r.1 ≡ length ss)

place-Placed : (v oid : ℕ) (ss : List ℕ) → v ≢ q_unused → Placed v oid ss (place oid ss)
unfolding place
place-Placed v oid [] u = tt
place-Placed v oid (s ∷ ss) u = elim (Bool-cases (s == q_unused)) [
  | inl c ↦ rw c (ground arith, refl)
  | inr c ↦ elim (Option-cases (place oid ss)) [
    | inl e ↦ rw (c, e) tt
    | inr (r, e) ↦
        let ih : Placed v oid ss (some r) = subst (Placed v oid ss) e (place-Placed v oid ss u) in
        let k = ih.0 in rw (c, e) (ground arith, ap suc ih.1)
  ]
]

take_slot-Taken : (v : ℕ) (ss : List ℕ) → v ≢ q_unused → Taken v ss (take_slot ss)
unfolding take_slot
take_slot-Taken v [] u = tt
take_slot-Taken v (s ∷ ss) u = elim (Bool-cases (s == q_unused)) [
  | inl c ↦ elim (Option-cases (take_slot ss)) [
    | inl e ↦ rw (c, e) tt
    | inr (r, e) ↦
        let ih : Taken v ss (some r) = subst (Taken v ss) e (take_slot-Taken v ss u) in
        let k = ih.0 in rw (c, e) (ground arith, ap suc ih.1)
  ]
  | inr c ↦ rw c (ground arith, refl)
]

count-new_object :
    (v oid : ℕ) (q : Queue)
    → v ≢ q_unused
    → 0 < length q.slots
    → (count v (queue_new_object oid q).1.slots ≡ count v (oid ∷ []) + count v q.slots)
      × (0 < length (queue_new_object oid q).1.slots)
unfolding queue_new_object
count-new_object v oid q u h = elim (Option-cases (place oid q.slots)) [
  | inl e ↦
      let n : (length q.slots == 0) ≡ false = ground arith in
      rw (e, queue_new_object)
        (rw n (
          ground (arith, count-append v q.slots (oid ∷ [])),
          omega (arith, length-append q.slots (oid ∷ [])),
        ))
  | inr (r, e) ↦
      let p : Placed v oid q.slots (some r) =
        subst (Placed v oid q.slots) e (place-Placed v oid q.slots u) in
      rw (e, queue_new_object) (p.0, omega (arith, p.1))
]

count-deliver :
    (v : ℕ) (oids : List ℕ) (q : Queue)
    → v ≢ q_unused
    → 0 < length q.slots
    → (count v (deliver oids q).slots ≡ count v oids + count v q.slots)
      × (0 < length (deliver oids q).slots)
unfolding deliver
count-deliver v [] q u h = (omega arith, h)
count-deliver v (oid ∷ oids) q u h =
    let (a, b) = count-new_object v oid q u h in
    let (c, d) = count-deliver v oids (queue_new_object oid q).1 u b in (ground (arith, a, c), d)

request-slots : (q : Queue) → (request q).slots ≡ q.slots
unfolding request
request-slots q = ground arith

-- the equation of `want_object-conserves`, for one state of the loop
abbrev Conserves : ℕ → ℕ → List (List ℕ) → Queue → Type 0
Conserves v passes later q =
    let (id, q', left) = queue_want_object passes later q in
    count v (id ∷ []) + count v q'.slots + count_all v left ≡ count v q.slots + count_all v later

handed :
    (v passes : ℕ) (later : List (List ℕ)) (q : Queue) {r : ℕ × List ℕ}
    → v ≢ q_unused
    → take_slot q.slots ≡ some r
    → Conserves v (suc passes) later q
unfolding queue_want_object
handed v passes later q {r} u e =
    let p : Taken v q.slots (some r) = subst (Taken v q.slots) e (take_slot-Taken v q.slots u) in
    let k = p.0 in rw (e, queue_want_object) (ground arith)

-- No id gets lost or is handed out twice: with a queue that has slots, however often an id was waiting
-- or comes in while `_queue_want_object` runs, so often it is handed out, still waits or has not come
-- in yet.
pub want_object-conserves :
    (v passes : ℕ) (later : List (List ℕ)) (q : Queue)
    → v ≢ q_unused
    → 0 < length q.slots
    → let (id, q', left) = queue_want_object passes later q in
      count v (id ∷ []) + count v q'.slots + count_all v left ≡ count v q.slots + count_all v later
unfolding queue_want_object
want_object-conserves v zero later q u h = ground arith
want_object-conserves v (suc passes) [] q u h = elim (Option-cases (take_slot q.slots)) [
  | inl e ↦
      let n : (length q.slots == 0) ≡ false = ground arith in
      let ih = want_object-conserves v passes [] (request q) u (rw (request-slots q) h) in
      let same = ap (count v) (request-slots q) in
      rw (e, queue_want_object) (rw n (omega (arith, ih, same)))
  | inr (r, e) ↦ handed v passes [] q u e
]
want_object-conserves v (suc passes) (oids ∷ rest) q u h = elim (Option-cases (take_slot q.slots)) [
  | inl e ↦
      let n : (length q.slots == 0) ≡ false = ground arith in
      let (a, b) = count-deliver v oids (request q) u (rw (request-slots q) h) in
      let ih = want_object-conserves v passes rest (deliver oids (request q)) u b in
      let same = ap (count v) (request-slots q) in
      rw (e, queue_want_object) (rw n (omega (arith, ih, a, same)))
  | inr (r, e) ↦ handed v passes (oids ∷ rest) q u e
]
