-- ===== src/Widgets/Off.antt =====
-- s3dw_widget_remove of libs3dw/widget.c: the stack of the animation and the children together.
use s3d.Base.{
  ℕ, suc, ◌+◌, ◌-◌, ◌<◌, ◌≡◌, refl, ap, arith, Bool-cases, Option-cases, inl, inr, none, some, List,
  [], ◌∷◌, ◌++◌, length, get_or, if◌then◌else◌, ◌==◌, count, count-append, ==_iff,
}
use mathlib.Core.Path.{subst}
use s3d.Animation.{ani_del, ani_stackpos, stackpos_from}
use s3d.Animation.Removal.{ani_del-behind, moved_up, count-moved_up}
use s3d.Animation.Rounds.{IsDistinct}
use s3d.Animation.Stack.{stackpos_from-count}
use s3d.Widgets.{Parent, is_at, off_stack, remove_child, widget_remove}
use s3d.Widgets.Focus.{IsApart, IsFocus, focused, remove_child-focused}

stackpos_from-splits :
    (f : ℕ) (xs : List ℕ) (i j : ℕ)
    → stackpos_from xs f i ≡ some j
    → (pre : List ℕ) × (post : List ℕ) × (xs ≡ pre ++ (f ∷ post)) × (j ≡ i + length pre)
unfolding stackpos_from
stackpos_from-splits f [] i j h = ground arith
stackpos_from-splits f (x ∷ xs) i j h = elim (Bool-cases (x == f)) [
  | inl c ↦ ([], xs, ap (λ y. y ∷ xs) ((==_iff x f).0 c), ground (arith, c))
  | inr c ↦
      let g : stackpos_from xs f (suc i) ≡ some j = ground (arith, c) in
      let (pre, post, e, k) = stackpos_from-splits f xs (suc i) j g in
      (x ∷ pre, post, ap (λ l. x ∷ l) e, omega (arith, k))
]

count-del :
    (v w : ℕ) (pre post : List ℕ)
    → IsDistinct (pre ++ (w ∷ post))
    → count v (ani_del (pre ++ (w ∷ post)) (length pre))
      ≡ (if w == v then 0 else count v (pre ++ (w ∷ post)))
count-del v w pre post once = rw (ani_del-behind pre post w) (
    ground (
      arith,
      count-append v pre (moved_up post),
      count-append v pre (w ∷ post),
      count-moved_up v post,
      once v,
    ))

pub count-off_stack :
    (v w : ℕ) (stack : List ℕ)
    → IsDistinct stack
    → count v (off_stack w stack) ≡ (if w == v then 0 else count v stack)
unfolding off_stack ani_stackpos
count-off_stack v w stack once = elim (Option-cases (ani_stackpos stack w)) [
  | inl n ↦
      let absent = stackpos_from-count w stack 0 n in rw (off_stack, n) (ground (arith, absent))
  | inr (j, e) ↦
      let (pre, post, split, k) = stackpos_from-splits w stack 0 j e in
      let at : j ≡ length pre = omega (arith, k) in
      let distinct : IsDistinct (pre ++ (w ∷ post)) = subst IsDistinct split once in
      rw (off_stack, e, at, split) (count-del v w pre post distinct)
]

-- s3dw_widget_remove of the child at place k of a widget that has no child twice, and whose focus is
-- on a child if anywhere, with no widget twice on the stack of the animation: that widget is off the
-- stack, and no other. The parent loses that child and no other: there is one less, the others stand
-- where they stood, but the last one at place k. The child that had the focus keeps it, also when it
-- changes its place, and no child has it if the one that is removed had it.
pub widget_remove-leaves :
    (stack : List ℕ) (p : Parent) (k : ℕ)
    → IsDistinct stack
    → IsApart p.pobj
    → IsFocus p
    → k < length p.pobj
    → let w = get_or p.pobj k 0 in
      (after : Parent) × ((widget_remove w stack (some p)).1 ≡ some after)
      × ((v : ℕ)
          → count v (widget_remove w stack (some p)).0 ≡ (if w == v then 0 else count v stack))
      × (suc (length after.pobj) ≡ length p.pobj)
      × ((j : ℕ)
          → j < length after.pobj
          → get_or after.pobj j 0 ≡ get_or p.pobj (if k == j then length p.pobj - 1 else j) 0)
      × (focused after ≡ (if is_at (focused p) w then none else focused p))
unfolding widget_remove
widget_remove-leaves stack p k once apart focus inside =
    let w = get_or p.pobj k 0 in
    let (fewer, others, kept) = remove_child-focused p k apart focus inside in
    (remove_child w p, refl, (λ v. count-off_stack v w stack once), fewer, others, kept)
