-- ===== src/Widgets.antt =====
-- The children of a widget of libs3dw: s3dw_widget_remove of libs3dw/widget.c. A widget is known by a
-- number.
pub mod Focus
pub mod Off
mod Tests
use s3d.Base.{
  ℕ, zero, suc, ◌-◌, ◌&&◌, Bool, true, false, Option, none, some, List, [], ◌∷◌, length, get_or,
  if◌then◌else◌, ltb, ◌==◌,
}
use s3d.Animation.{ani_del, ani_stackpos}

-- `pobj` up to `nobj`, and `focus`, none for -1
pub record Parent : Type 0 where
  pub pobj : List ℕ
  pub focus : Option ℕ

abbrev pub is_at : Option ℕ → ℕ → Bool
is_at none i = false
is_at (some j) i = j == i

-- One child taken away. The last one takes the place, as in s3dw_ani_del.
unfoldable pub remove_at : Parent → ℕ → Parent
remove_at p i =
    let focus1 = if is_at p.focus i then none else p.focus in
    let focus2 = if is_at focus1 (length p.pobj - 1) then some i else focus1 in
    record { pobj = ani_del p.pobj i; focus = focus2 }

-- the loop over the children, from index `i` on
unfoldable pub remove_from : ℕ → ℕ → ℕ → Parent → Parent
unfolding remove_at
remove_from zero w i p = p
remove_from (suc fuel) w i p = elim (ltb i (length p.pobj)) [
  | false ↦ p
  | true ↦ elim (get_or p.pobj i 0 == w) [
    | true ↦ remove_from fuel w (suc i) (remove_at p i)
    | false ↦ remove_from fuel w (suc i) p
  ]
]

unfoldable pub remove_child : ℕ → Parent → Parent
unfolding remove_from
remove_child w p = remove_from (length p.pobj) w 0 p

-- A widget that is removed is off the stack `ani_s` too.
unfoldable pub off_stack : ℕ → List ℕ → List ℕ
off_stack w stack = elim (ani_stackpos stack w) [ none ↦ stack | some i ↦ ani_del stack i ]

-- s3dw_widget_remove, on `ani_s` and the parent, if there is one
unfoldable pub widget_remove : ℕ → List ℕ → Option Parent → List ℕ × Option Parent
unfolding off_stack remove_child
widget_remove w stack parent =
    (off_stack w stack, elim parent [ none ↦ none | some p ↦ some (remove_child w p) ])
