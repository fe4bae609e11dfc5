-- ===== src/Widgets/Focus.antt =====
-- s3dw_widget_remove of libs3dw/widget.c: the children that are left, and the focus.
use s3d.Base.{
  ==_iff, ℕ, zero, suc, ◌-◌, ◌≤◌, ◌<◌, ◌≡◌, ◌≢◌, refl, sym, ap, ◌∙◌, arith, Bool-cases, inl, inr,
  true, false, Option, none, some, List, length, set, get_or, get_or-set, get_or-take, length-set,
  length-take, if◌then◌else◌, ltb, ◌==◌,
}
use mathlib.Core.Path.{subst}
use s3d.Animation.{ani_del}
use s3d.Widgets.{Parent, is_at, remove_at, remove_from, remove_child}

-- No widget stands at two places.
abbrev pub IsApart : List ℕ → Type 0
IsApart xs = (i j : ℕ) → i < length xs → j < length xs → get_or xs i 0 ≡ get_or xs j 0 → i ≡ j

-- The focus is on a child, if anywhere.
abbrev pub IsFocus : Parent → Type 0
IsFocus p = (j : ℕ) → p.focus ≡ some j → j < length p.pobj

-- the child that has the focus
abbrev pub focused : Parent → Option ℕ
focused p = elim p.focus [ none ↦ none | some j ↦ some (get_or p.pobj j 0) ]

length-ani_del : (xs : List ℕ) (k : ℕ) → k < length xs → suc (length (ani_del xs k)) ≡ length xs
unfolding ani_del
length-ani_del xs k h = ground (
  arith,
  length-take (length xs - 1) (set xs k (get_or xs (length xs - 1) 0)),
  length-set xs k (get_or xs (length xs - 1) 0),
)

get_or-ani_del :
    (xs : List ℕ) (k j : ℕ)
    → k < length xs
    → j < length xs - 1
    → get_or (ani_del xs k) j 0 ≡ get_or xs (if k == j then length xs - 1 else j) 0
unfolding ani_del
get_or-ani_del xs k j h g = ground (
  arith,
  get_or-take (length xs - 1) (set xs k (get_or xs (length xs - 1) 0)) j 0,
  get_or-set xs k j (get_or xs (length xs - 1) 0) 0 h,
)

remove_from-idle :
    (fuel w i : ℕ) (p : Parent)
    → ((j : ℕ) → j < length p.pobj → get_or p.pobj j 0 ≢ w)
    → remove_from fuel w i p ≡ p
unfolding remove_from
remove_from-idle zero w i p h = refl
remove_from-idle (suc fuel) w i p h = elim (Bool-cases (ltb i (length p.pobj))) [
  | inl c ↦
      let other : (get_or p.pobj i 0 == w) ≡ false = ground (arith, h i (ground arith)) in
      rw (remove_from, c, other) (remove_from-idle fuel w (suc i) p h)
  | inr c ↦ rw (remove_from, c) refl
]

module _ (p : Parent) (apart : IsApart p.pobj) (k : ℕ) (inside : k < length p.pobj) where
  pub gone :
      (j : ℕ)
      → j < length (remove_at p k).pobj
      → get_or (remove_at p k).pobj j 0 ≢ get_or p.pobj k 0
  unfolding remove_at
  gone j h e =
      let short : j < length p.pobj - 1 = omega (arith, length-ani_del p.pobj k inside) in
      let from = if k == j then length p.pobj - 1 else j in
      let there : from < length p.pobj = ground arith in
      let same : from ≡ k =
        apart from k there inside (sym (get_or-ani_del p.pobj k j inside short) ∙ e) in
      ground arith

  remove_from-here : (fuel : ℕ) → remove_from (suc fuel) (get_or p.pobj k 0) k p ≡ remove_at p k
  unfolding remove_from
  remove_from-here fuel =
      let before : ltb k (length p.pobj) ≡ true = ground arith in
      let found : (get_or p.pobj k 0 == get_or p.pobj k 0) ≡ true = ground arith in
      rw (remove_from, before, found)
        (remove_from-idle fuel (get_or p.pobj k 0) (suc k) (remove_at p k) gone)

  remove_from-reaches :
      (fuel i : ℕ) → i ≤ k → k - i < fuel → remove_from fuel (get_or p.pobj k 0) i p ≡ remove_at p k
  unfolding remove_from
  remove_from-reaches zero i h g = absurd (omega arith)
  remove_from-reaches (suc fuel) i h g =
      let before : ltb i (length p.pobj) ≡ true = ground arith in
      elim (Bool-cases (i == k)) [
        | inl c ↦
            subst (λ n. remove_from (suc fuel) (get_or p.pobj k 0) n p ≡ remove_at p k)
              (sym ((==_iff i k).0 c)) (remove_from-here fuel)
        | inr c ↦
            let other : (get_or p.pobj i 0 == get_or p.pobj k 0) ≡ false =
              let differ : get_or p.pobj i 0 ≢ get_or p.pobj k 0 =
                λ e. ground (arith, apart i k (omega arith) inside e) in
              ground arith in
            rw (remove_from, before, other)
              (remove_from-reaches fuel (suc i) (ground arith) (ground arith))
      ]

  -- The loop of s3dw_widget_remove takes away the one child that it is called for.
  remove_child-at : remove_child (get_or p.pobj k 0) p ≡ remove_at p k
  unfolding remove_child
  remove_child-at = remove_from-reaches (length p.pobj) 0 (omega arith) (omega arith)

module _ (xs : List ℕ) (apart : IsApart xs) (k : ℕ) (inside : k < length xs) where
  remove_at-focused :
      (o : Option ℕ)
      → IsFocus (record { pobj = xs; focus = o })
      → focused (remove_at (record { pobj = xs; focus = o }) k) ≡ (
          if is_at (focused (record { pobj = xs; focus = o })) (get_or xs k 0)
          then none
          else focused (record { pobj = xs; focus = o }))
  unfolding remove_at
  remove_at-focused none h = refl
  remove_at-focused (some j) h = elim (Bool-cases (j == k)) [
    | inl c ↦ let same : (get_or xs j 0 == get_or xs k 0) ≡ true = ground arith in rw (c, same) refl
    | inr c ↦
        let there : j < length xs = h j refl in
        let differ : get_or xs j 0 ≢ get_or xs k 0 =
          λ e. ground (arith, apart j k there inside e) in
        let other : (get_or xs j 0 == get_or xs k 0) ≡ false = ground arith in
        elim (Bool-cases (j == length xs - 1)) [
          | inl last ↦
              let before : k < length xs - 1 = ground arith in
              rw (remove_at, c, last, other)
                (ap some (ground (arith, get_or-ani_del xs k k inside before)))
          | inr last ↦
              let before : j < length xs - 1 = ground arith in
              rw (remove_at, c, last, other)
                (ap some (ground (arith, get_or-ani_del xs k j inside before)))
        ]
  ]

-- The loop of s3dw_widget_remove for the child at place k of a widget that has no child twice, and whose focus is
-- on a child if anywhere, takes that child away and no other: there is one child less, the others
-- stand where they stood, but the last one at place k. The child that had the focus keeps it, also
-- when it changes its place, and no child has it if the one that is removed had it.
pub remove_child-focused :
    (p : Parent) (k : ℕ)
    → IsApart p.pobj
    → IsFocus p
    → k < length p.pobj
    → let w = get_or p.pobj k 0 in
      let after = remove_child w p in
      (suc (length after.pobj) ≡ length p.pobj)
      × ((j : ℕ)
          → j < length after.pobj
          → get_or after.pobj j 0 ≡ get_or p.pobj (if k == j then length p.pobj - 1 else j) 0)
      × (focused after ≡ (if is_at (focused p) w then none else focused p))
unfolding remove_at
remove_child-focused p k apart focus inside = rw (remove_child-at p apart k inside) (
  length-ani_del p.pobj k inside,
  (λ j h. get_or-ani_del p.pobj k j inside (omega (arith, length-ani_del p.pobj k inside))),
  remove_at-focused p.pobj apart k inside p.focus focus,
)
