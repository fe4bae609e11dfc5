-- ===== src/Widgets/Tests.antt =====
-- A widget with two children.
use s3d.Base.{
  ℕ, zero, suc, ◌≡◌, ◌<◌, refl, arith, some, [], ◌∷◌, length, get_or, count, if◌then◌else◌, ◌==◌,
}
use s3d.Animation.{ani_del, ani_stackpos}
use s3d.Widgets.{Parent, widget_remove}
use s3d.Widgets.Focus.{IsApart, focused}
use s3d.Widgets.Off.{widget_remove-leaves}

abbrev family : Parent
family = record { pobj = 5 ∷ 8 ∷ []; focus = some 1 }

left_children :
    widget_remove 5 (4 ∷ 5 ∷ 6 ∷ []) (some family)
    ≡ (4 ∷ 6 ∷ [], some (record { pobj = 8 ∷ []; focus = some 0 }))
unfolding widget_remove ani_del ani_stackpos
left_children = refl

family-IsApart : IsApart family.pobj
family-IsApart zero zero h g e = refl
family-IsApart zero (suc zero) h g e = omega arith
family-IsApart (suc zero) zero h g e = omega arith
family-IsApart (suc zero) (suc zero) h g e = refl
family-IsApart i (suc (suc j)) h g e = omega arith
family-IsApart (suc (suc i)) j h g e = omega arith

widget_remove-leaves_example :
    (after : Parent) × ((widget_remove 5 (5 ∷ 6 ∷ []) (some family)).1 ≡ some after)
    × ((v : ℕ)
        → count v (widget_remove 5 (5 ∷ 6 ∷ []) (some family)).0
          ≡ (if 5 == v then 0 else count v (5 ∷ 6 ∷ [])))
    × (suc (length after.pobj) ≡ 2)
    × ((j : ℕ)
        → j < length after.pobj
        → get_or after.pobj j 0 ≡ get_or (5 ∷ 8 ∷ []) (if 0 == j then 1 else j) 0)
    × (focused after ≡ some 8)
widget_remove-leaves_example =
    widget_remove-leaves (5 ∷ 6 ∷ []) family 0 (λ v. ground arith) family-IsApart
      (λ j h. ground arith) (omega arith)
