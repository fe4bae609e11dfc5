-- ===== src/Object/Frame.antt =====
-- What an operation on one object leaves alone: the other objects of the table.
use s3d.Base.{
  ℕ, zero, suc, ◌≡◌, ◌≢◌, ◌∙◌, false, arith, none, some, [], ◌∷◌, set, if◌then◌else◌, ◌==◌,
  Option-cases, inl, inr,
}
use s3d.Object.{Obj, Table, Status, failed, nodata, obj_valid}
use s3d.Object.Data.{with_obj, unless_nodata}

module _ {F : Type 0} where
  pub obj_valid-set :
      (t : Table F) (i j : ℕ) {o : Obj F} (o' : Obj F)
      → obj_valid t i ≡ some o
      → obj_valid (set t i (some o')) j ≡ (if i == j then some o' else obj_valid t j)
  unfolding obj_valid
  obj_valid-set [] i j o' e = cc
  obj_valid-set (x ∷ t) zero zero o' e = ground arith
  obj_valid-set (x ∷ t) zero (suc j) o' e = ground arith
  obj_valid-set (x ∷ t) (suc i) zero o' e = ground arith
  obj_valid-set (x ∷ t) (suc i) (suc j) o' e = ground (arith, obj_valid-set t i j o' e)

  -- `with_obj` at an id that is not valid, and at the other ids
  pub with_obj-none :
      (t : Table F) (oid : ℕ) (body : Obj F → Status × Obj F)
      → obj_valid t oid ≡ none
      → with_obj t oid body ≡ (failed, t)
  unfolding with_obj
  with_obj-none t oid body e = rw (e, with_obj)

  pub with_obj-some :
      (t : Table F) (oid : ℕ) (body : Obj F → Status × Obj F) {o : Obj F}
      → obj_valid t oid ≡ some o
      → with_obj t oid body ≡ ((body o).0, set t oid (some (body o).1))
  unfolding with_obj
  with_obj-some t oid body e = rw (e, with_obj)

  pub with_obj-other :
      (t : Table F) (oid j : ℕ) (body : Obj F → Status × Obj F)
      → oid ≢ j
      → obj_valid (with_obj t oid body).1 j ≡ obj_valid t j
  unfolding with_obj
  with_obj-other t oid j body n = elim (Option-cases (obj_valid t oid)) [
    | inl e ↦ rw (e, with_obj)
    | inr (o, e) ↦ rw (e, with_obj) (ground (arith, obj_valid-set t oid j (body o).1 e))
  ]

  pub with_obj-at :
      (t : Table F) (oid : ℕ) (body : Obj F → Status × Obj F) {o : Obj F}
      → obj_valid t oid ≡ some o
      → obj_valid (with_obj t oid body).1 oid ≡ some (body o).1
  unfolding with_obj
  with_obj-at t oid body {o} e =
      rw (e, with_obj) (ground (arith, obj_valid-set t oid oid (body o).1 e))

  -- the same for an object that may have data
  pub with_obj-allowed :
      (t : Table F) (oid : ℕ) (rest : Obj F → Status × Obj F) {o : Obj F}
      → obj_valid t oid ≡ some o
      → nodata o ≡ false
      → obj_valid (with_obj t oid (λ obj. unless_nodata obj (rest obj))).1 oid ≡ some (rest o).1
  unfolding unless_nodata
  with_obj-allowed t oid rest e d = with_obj-at t oid (λ obj. unless_nodata obj (rest obj)) e ∙ rw d
