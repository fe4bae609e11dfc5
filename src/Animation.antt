-- ===== src/Animation.antt =====
-- The animation of the widgets of libs3dw, of libs3dw/animate.c: a stack of the widgets that move, each
-- of which makes a step towards its place in every round. A widget is known by a number. What
-- s3dw_ani_doit sends to the server is not in the state. What s3dw_arrange does is an argument.
pub mod Removal
pub mod Rounds
pub mod Stack
mod Tests
use s3d.Base.{
  ℕ, zero, suc, ◌+◌, ◌-◌, ◌&&◌, ◌||◌, Bool, true, false, not, Option, none, some, List, [], ◌∷◌,
  ◌++◌, length, take, set, get_or, if◌then◌else◌, ltb, ◌==◌,
}
use s3d.Object.{Floats}

-- MAXANI
abbrev pub maxani : ℕ
maxani = 128

-- S3DW_TCAM
abbrev pub tcam : ℕ
tcam = 1

-- the place, the angles and the scale of a widget
pub record Place (F : Type 0) : Type 0 where
  pub x : F
  pub y : F
  pub z : F
  pub rx : F
  pub ry : F
  pub rz : F
  pub s : F

-- What the animation reads of an s3dw_widget: `goal` is x to s, `now` is ax to as.
pub record Widget (F : Type 0) : Type 0 where
  pub oid : ℕ
  pub type : ℕ
  pub goal : Place F
  pub now : Place F

-- `ani_s` up to `ani_n`, `animation_on`, and the widgets
pub record Animation (F : Type 0) : Type 0 where
  pub stack : List ℕ
  pub on : Bool
  pub need_arr : Bool
  pub widgets : ℕ → Widget F

unfoldable pub stackpos_from : List ℕ → ℕ → ℕ → Option ℕ
stackpos_from [] f i = none
stackpos_from (x ∷ xs) f i =
    let rest = stackpos_from xs f (suc i) in if x == f then some i else rest

-- s3dw_ani_stackpos, none for -1
unfoldable pub ani_stackpos : List ℕ → ℕ → Option ℕ
unfolding stackpos_from
ani_stackpos stack f = stackpos_from stack f 0

-- s3dw_ani_del: the last one takes the place
unfoldable pub ani_del : List ℕ → ℕ → List ℕ
ani_del stack i =
    if ltb i (length stack)
    then take (length stack - 1) (set stack i (get_or stack (length stack - 1) 0))
    else stack

module _ {F : Type 0} where
  abbrev pub change : (ℕ → Widget F) → ℕ → (Widget F → Widget F) → ℕ → Widget F
  change ws f g j = if f == j then g (ws j) else ws j

  -- s3dw_ani_finish, without the removal from the stack
  unfoldable pub finished : Widget F → Widget F
  finished f = record f { now = f.goal }

-- the operations on floats of s3dw_ani_check alone: `sub`, fabs and the test `> 0.01`
pub record Limits (F : Type 0) : Type 0 where
  pub sub : F → F → F
  pub fabs : F → F
  pub above : F → Bool

module _ {F : Type 0} (fl : Floats F) (lim : Limits F) where
  abbrev norm : F → F → F → F
  norm x y z = fl.sqrt (fl.add (fl.add (fl.mul x x) (fl.mul y y)) (fl.mul z z))

  unfoldable pub ani_check : Widget F → Bool
  ani_check f =
      let x = lim.sub f.now.x f.goal.x in
      let y = lim.sub f.now.y f.goal.y in
      let z = lim.sub f.now.z f.goal.z in
      let rx = lim.sub f.now.rx f.goal.rx in
      let ry = lim.sub f.now.ry f.goal.ry in
      let rz = lim.sub f.now.rz f.goal.rz in
      not (
        lim.above (fl.div (lim.fabs (lim.sub f.now.s f.goal.s)) f.goal.s)
        || lim.above (norm x y z)
        || lim.above (norm rx ry rz))

-- `zooms` is ZOOMS, and `zooms_1` is ZOOMS + 1
module _ {F : Type 0} (fl : Floats F) (zooms zooms_1 : F) where
  abbrev pub nearer : F → F → F
  nearer x ax = fl.div (fl.add x (fl.mul ax zooms)) zooms_1

  -- s3dw_ani_iterate
  unfoldable pub ani_iterate : Widget F → Widget F
  ani_iterate f = record f {
    now = record {
      x = nearer f.goal.x f.now.x;
      y = nearer f.goal.y f.now.y;
      z = nearer f.goal.z f.now.z;
      rx = nearer f.goal.rx f.now.rx;
      ry = nearer f.goal.ry f.now.ry;
      rz = nearer f.goal.rz f.now.rz;
      s = nearer f.goal.s f.now.s;
    };
  }

  unfoldable pub ani_add : Animation F → ℕ → Animation F
  unfolding ani_stackpos finished ani_iterate
  ani_add a f =
      if ((a.widgets f).oid == 0) && not ((a.widgets f).type == tcam)
      then a
      else if ltb (length a.stack) maxani && a.on
      then elim (ani_stackpos a.stack f) [
        | some i ↦ a
        | none ↦ record a { stack = a.stack ++ (f ∷ []); widgets = change a.widgets f ani_iterate }
      ]
      else record a { widgets = change a.widgets f finished }

  module _ (check : Widget F → Bool) where
    -- The loop of s3dw_ani_mate from index `i` on. Each round either ends with a shorter stack or with
    -- the next index.
    unfoldable pub ani_round : ℕ → ℕ → Animation F → Animation F
    unfolding ani_iterate finished ani_del
    ani_round zero i a = a
    ani_round (suc fuel) i a = elim (ltb i (length a.stack)) [
      | false ↦ a
      | true ↦
          let f = get_or a.stack i 0 in
          let ws = change a.widgets f ani_iterate in
          elim (check (ws f)) [
            | true ↦
                ani_round fuel i
                  (record a { stack = ani_del a.stack i; widgets = change ws f finished })
            | false ↦ ani_round fuel (suc i) (record a { widgets = ws })
          ]
    ]

module _ {F : Type 0} (fl : Floats F) (lim : Limits F) (zooms zooms_1 : F) where
  -- s3dw_ani_mate, with at most one round per entry of the stack
  unfoldable pub ani_mate : (Animation F → Animation F) → Animation F → Animation F
  unfolding ani_round ani_check
  ani_mate arrange a =
      let a1 = record a { on = true } in
      let a2 = if a1.need_arr then arrange a1 else a1 in
      ani_round fl zooms zooms_1 (ani_check fl lim) (length a2.stack) 0 a2
