-- ===== src/Object/Sizes.antt =====
-- The counters of an object and the arrays that they count.
use s3d.Base.{
  ℕ, zero, suc, ◌+◌, ◌≡◌, refl, sym, ◌∙◌, arith, true, ◌==◌, Bool-cases, Option-cases, inl, inr,
  some, List, [], ◌∷◌, length, take, drop, set, if◌then◌else◌, min, length-append, length-take,
  length-drop,
}
use s3d.Object.{Obj, Table, Status, obj_valid}
use s3d.Object.Frame.{obj_valid-set}
use s3d.Object.Data.{with_obj, gather, rewrite, rewrite_from, extend}

-- Each counter is the number of elements in its array.
pub record IsSized {F : Type 0} (o : Obj F) : Type 0 where
  pub vertices : o.n_vertex ≡ length o.p_vertex
  pub mats : o.n_mat ≡ length o.p_mat
  pub polys : o.n_poly ≡ length o.p_poly
  pub lines : o.n_line ≡ length o.p_line
  pub texs : o.n_tex ≡ length o.p_tex

-- every object of a table is so
abbrev pub AllSized : {F : Type 0} → Table F → Type 0
AllSized {F} t = (i : ℕ) (o : Obj F) → obj_valid t i ≡ some o → IsSized o

module _ {A D : Type 0} where
  pub length-gather :
      (n m width : ℕ) (new : ℕ → List D → A) (px : List D) → length (gather n m width new px) ≡ n
  unfolding gather
  length-gather zero m width new px = refl
  length-gather (suc n) m width new px =
      omega (arith, length-gather n (suc m) width new (drop width px))

  pub length-rewrite :
      (n width : ℕ) (change : A → List D → A) (xs : List A) (px : List D)
      → length (rewrite n width change xs px) ≡ length xs
  unfolding rewrite
  length-rewrite zero width change xs px = refl
  length-rewrite (suc n) width change [] px = refl
  length-rewrite (suc n) width change (a ∷ xs) px =
      omega (arith, length-rewrite n width change xs (drop width px))

  pub length-rewrite_from :
      (start n width : ℕ) (change : A → List D → A) (xs : List A) (px : List D)
      → length (rewrite_from start n width change xs px) ≡ length xs
  unfolding rewrite_from
  length-rewrite_from start n width change xs px = omega (
    arith,
    length-append (take start xs) (rewrite n width change (drop start xs) px),
    length-rewrite n width change (drop start xs) px,
    length-take start xs,
    length-drop start xs,
  )

module _ {A : Type 0} where
  pub length-extend :
      (xs : List A) (m : ℕ) (new : List A)
      → length (extend xs m new) ≡ min m (length xs) + length new
  unfolding extend
  length-extend xs m new = omega (arith, length-append (take m xs) new, length-take m xs)

module _ {F : Type 0} where
  pub set-AllSized :
      (t : Table F) (oid : ℕ) {o : Obj F} (o' : Obj F)
      → obj_valid t oid ≡ some o
      → IsSized o'
      → AllSized t
      → AllSized (set t oid (some o'))
  set-AllSized t oid {o} o' e s h i x p = elim (Bool-cases (oid == i)) [
    | inl same ↦ rw (← found same) s
    | inr other ↦ h i x (sym (obj_valid-set t oid i o' e ∙ rw other) ∙ p)
  ]
    where
      found : (oid == i) ≡ true → o' ≡ x
      found same = cc (obj_valid-set t oid i o' e, at same, p)
        where
          at : (oid == i) ≡ true → (if oid == i then some o' else obj_valid t i) ≡ some o'
          at same = rw same

  pub with_obj-AllSized :
      (t : Table F) (oid : ℕ) (body : Obj F → Status × Obj F)
      → ((o : Obj F) → IsSized o → IsSized (body o).1)
      → AllSized t
      → AllSized (with_obj t oid body).1
  unfolding with_obj
  with_obj-AllSized t oid body keep h = elim (Option-cases (obj_valid t oid)) [
    | inl e ↦ rw (e, with_obj) h
    | inr (o, e) ↦ rw (e, with_obj) (set-AllSized t oid (body o).1 e (keep o (h oid o e)) h)
  ]
