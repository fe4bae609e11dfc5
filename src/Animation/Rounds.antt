-- ===== src/Animation/Rounds.antt =====
-- s3dw_ani_mate of libs3dw/animate.c: the round over the stack.
use s3d.Base.{
  ℕ, zero, suc, ◌+◌, ◌≤◌, ◌≡◌, refl, ap, arith, Bool, Bool-cases, inl, inr, true, false, List, [],
  ◌∷◌, ◌++◌, length, if◌then◌else◌, ltb, ◌==◌, count, count-append, length-append, append-nil,
  append_assoc,
}
use s3d.Object.{Floats}
use s3d.Animation.{
  Widget, Animation, change, finished, ani_iterate, ani_check, Limits, ani_round, ani_mate,
}
use s3d.Animation.Removal.{get_or-behind, moved_up, count-moved_up, length-moved_up, ani_del-behind}

-- No widget is twice on the stack.
abbrev pub IsDistinct : List ℕ → Type 0
IsDistinct stack = (v : ℕ) → count v stack ≤ 1

module _ {F : Type 0} (fl : Floats F) (zooms zooms_1 : F) (check : Widget F → Bool) where
  -- what a round makes of a widget of the stack
  abbrev pub stepped : Widget F → Widget F
  stepped f = let f' = ani_iterate fl zooms zooms_1 f in if check f' then finished f' else f'

  abbrev step : Widget F → Widget F
  step = ani_iterate fl zooms zooms_1

  -- whether it is off the stack then
  abbrev pub arrives : Widget F → Bool
  arrives f = check (step f)

  -- the state in the loop, with `todo` still to come
  abbrev state : List ℕ → List ℕ → Bool → Bool → (ℕ → Widget F) → Animation F
  state pre todo o m ws = record { stack = pre ++ todo; on = o; need_arr = m; widgets = ws }

  abbrev loop : ℕ → ℕ → Animation F → Animation F
  loop = ani_round fl zooms zooms_1 check

  loop-end :
      (fuel : ℕ) (pre : List ℕ) (o m : Bool) (ws : ℕ → Widget F)
      → loop fuel (length pre) (state pre [] o m ws) ≡ state pre [] o m ws
  unfolding ani_round
  loop-end zero pre o m ws = refl
  loop-end (suc fuel) pre o m ws = ground (arith, ap length (append-nil pre))

  module _ (fuel : ℕ) (pre : List ℕ) (x : ℕ) (todo : List ℕ) (o m : Bool) (ws : ℕ → Widget F) where
    abbrev iterated : ℕ → Widget F
    iterated = change ws x step

    inside : ltb (length pre) (length (pre ++ (x ∷ todo))) ≡ true
    inside = ground (arith, length-append pre (x ∷ todo))

    iterated_self : iterated x ≡ ani_iterate fl zooms zooms_1 (ws x)
    iterated_self = ground arith

    loop-arrives :
        arrives (ws x) ≡ true
        → loop (suc fuel) (length pre) (state pre (x ∷ todo) o m ws)
          ≡ loop fuel (length pre) (state pre (moved_up todo) o m (change iterated x finished))
    unfolding ani_round
    loop-arrives c =
        rw
          (
            ani_round,
            inside,
            get_or-behind pre todo x 0,
            iterated_self,
            c,
            ani_del-behind pre todo x,
          )
          (ap
            (λ y.
              loop fuel (length pre)
                (state pre (moved_up todo) o m (change (change ws y step) y finished)))
            (get_or-behind pre todo x 0))

    loop-stays :
        arrives (ws x) ≡ false
        → loop (suc fuel) (length pre) (state pre (x ∷ todo) o m ws)
          ≡ loop fuel (length (pre ++ (x ∷ []))) (state (pre ++ (x ∷ [])) todo o m iterated)
    unfolding ani_round
    loop-stays c =
        let e : suc (length pre) ≡ length (pre ++ (x ∷ [])) =
          omega (arith, length-append pre (x ∷ [])) in
        rw
          (
            ani_round,
            inside,
            get_or-behind pre todo x 0,
            iterated_self,
            c,
            e,
            append_assoc pre (x ∷ []) todo,
          )
          (ap
            (λ y.
              loop fuel (length (pre ++ (x ∷ []))) (state pre (x ∷ todo) o m (change ws y step)))
            (get_or-behind pre todo x 0))

  -- What the loop makes of widget `v`, when `done` stood before the index and `todo` from it on.
  abbrev Steps : ℕ → List ℕ → List ℕ → (ℕ → Widget F) → Animation F → Type 0
  Steps v done todo ws a =
      (count v a.stack ≡ count v done + (if arrives (ws v) then 0 else count v todo))
      × (a.widgets v ≡ (if count v todo == 0 then ws v else stepped (ws v)))

  module _ (v : ℕ) (pre : List ℕ) (x : ℕ) (todo : List ℕ) (ws : ℕ → Widget F) (a : Animation F)
      (once : count v (x ∷ todo) ≤ 1) where
    arrives-Steps :
        arrives (ws x) ≡ true
        → Steps v pre (moved_up todo) (change (change ws x step) x finished) a
        → Steps v pre (x ∷ todo) ws a
    arrives-Steps c h = ground (arith, count-moved_up v todo)

    stays-Steps :
        arrives (ws x) ≡ false
        → Steps v (pre ++ (x ∷ [])) todo (change ws x step) a
        → Steps v pre (x ∷ todo) ws a
    stays-Steps c h = ground (arith, count-append v pre (x ∷ []))

  loop-Steps :
      (fuel : ℕ) (pre todo : List ℕ) (o m : Bool) (ws : ℕ → Widget F)
      → length todo ≤ fuel
      → IsDistinct todo
      → (v : ℕ) → Steps v pre todo ws (loop fuel (length pre) (state pre todo o m ws))
  loop-Steps fuel pre [] o m ws enough once v =
      rw (loop-end fuel pre o m ws) (ground (arith, count-append v pre []), refl)
  loop-Steps zero pre (x ∷ todo) o m ws enough once v = ground arith
  loop-Steps (suc fuel) pre (x ∷ todo) o m ws enough once v =
      let fewer : length todo ≤ fuel = omega arith in
      elim (Bool-cases (arrives (ws x))) [
        | inl c ↦
            let same : IsDistinct (moved_up todo) =
              λ w. ground (arith, count-moved_up w todo, once w) in
            rw (loop-arrives fuel pre x todo o m ws c) (
              arrives-Steps v pre x todo ws
                (loop fuel (length pre)
                  (state pre (moved_up todo) o m (change (change ws x step) x finished)))
                (once v) c
                (loop-Steps fuel pre (moved_up todo) o m (change (change ws x step) x finished)
                  (omega (arith, length-moved_up todo)) same v))
        | inr c ↦
            let rest_once : IsDistinct todo = λ w. ground (arith, once w) in
            rw (loop-stays fuel pre x todo o m ws c) (
              stays-Steps v pre x todo ws
                (loop fuel (length (pre ++ (x ∷ [])))
                  (state (pre ++ (x ∷ [])) todo o m (change ws x step)))
                (once v) c
                (loop-Steps fuel (pre ++ (x ∷ [])) todo o m (change ws x step) fewer rest_once v))
      ]

-- the state in which the loop starts
abbrev pub ready : {F : Type 0} → (Animation F → Animation F) → Animation F → Animation F
ready arrange a = let a1 = record a { on = true } in if a1.need_arr then arrange a1 else a1

-- When no widget is twice on the stack, after the arrangement if one was needed, every widget on it
-- makes exactly one step of the animation, also when one before it arrives and the last one takes its
-- place; the others do not move. A widget that arrives gets its goal as its place and is off the
-- stack, and the others stand there as often as before.
pub ani_mate-steps :
    {F : Type 0} (fl : Floats F) (lim : Limits F) (zooms zooms_1 : F)
    (arrange : Animation F → Animation F) (a : Animation F)
    → IsDistinct (ready arrange a).stack
    → (v : ℕ)
    → let before = ready arrange a in
      let after = ani_mate fl lim zooms zooms_1 arrange a in
      let w = before.widgets v in
      let arrived = arrives fl zooms zooms_1 (ani_check fl lim) w in
      let moved = stepped fl zooms zooms_1 (ani_check fl lim) w in
      (count v after.stack ≡ (if arrived then 0 else count v before.stack))
      × (after.widgets v ≡ (if count v before.stack == 0 then w else moved))
unfolding ani_mate
ani_mate-steps fl lim zooms zooms_1 arrange a once v =
    let b = ready arrange a in
    let h =
      loop-Steps fl zooms zooms_1 (ani_check fl lim) (length b.stack) [] b.stack b.on b.need_arr
        b.widgets (omega arith) once v in
    (omega (arith, h.0), h.1)
