-- ===== src/Object/Keeps.antt =====
-- Each operation on the data of an object, and whether its counters still match its arrays.
use s3d.Base.{ℕ, ◌-◌, arith, Bool, List, set, length-set, length-take, Option-cases, inl, inr}
use s3d.Object.{Obj, Tex, Table, Floats, obj_valid}
use s3d.Object.Data.{gather}
use s3d.Object.Sizes.{
  IsSized, AllSized, set-AllSized, with_obj-AllSized, length-gather, length-extend,
  length-rewrite_from,
}
use s3d.Object.Push.{obj_push_mat, obj_push_poly, obj_push_line, new_mat, new_poly, new_line}
use s3d.Object.Pep.{
  obj_pep_poly_normal, obj_pep_line_normal, obj_pep_poly_texc, obj_pep_mat, obj_pep_line,
  obj_pep_mat_tex, put_poly_normal, put_line_normal, put_poly_texc, put_mat, put_line, put_mat_tex,
  clip,
}
use s3d.Object.Load.{
  obj_load_poly_normal, obj_load_line_normal, obj_load_poly_texc, obj_load_mat, rounds,
}
use s3d.Object.Del.{obj_del_mat, obj_del_poly, obj_del_line}
use s3d.Object.Texture.{obj_update_tex, obj_load_tex, load_into}
use s3d.Object.Flags.{obj_toggle_flags, toggle}
use s3d.Object.Draws.{load_tex-cases}

module _ {F : Type 0} (fl : Floats F) (junk : ℕ → ℕ → F) (mem : Bool) where
  pub push_mat-AllSized :
      (t : Table F) (oid : ℕ) (x : List F) (n : ℕ)
      → AllSized t
      → AllSized (obj_push_mat fl mem t oid x n).1
  unfolding obj_push_mat
  push_mat-AllSized t oid x n = with_obj-AllSized t oid _ λ o v. ground (
    arith,
    length-extend o.p_mat o.n_mat (gather n o.n_mat 12 (new_mat fl) x),
    length-gather n o.n_mat 12 (new_mat fl) x,
  )

  pub push_poly-AllSized :
      (t : Table F) (oid : ℕ) (x : List ℕ) (n : ℕ)
      → AllSized t
      → AllSized (obj_push_poly fl junk mem t oid x n).1
  unfolding obj_push_poly
  push_poly-AllSized t oid x n = with_obj-AllSized t oid _ λ o v. ground (
    arith,
    length-extend o.p_poly o.n_poly (gather n o.n_poly 4 (new_poly fl junk) x),
    length-gather n o.n_poly 4 (new_poly fl junk) x,
  )

  pub push_line-AllSized :
      (t : Table F) (oid : ℕ) (x : List ℕ) (n : ℕ)
      → AllSized t
      → AllSized (obj_push_line fl mem t oid x n).1
  unfolding obj_push_line
  push_line-AllSized t oid x n = with_obj-AllSized t oid _ λ o v. ground (
    arith,
    length-extend o.p_line o.n_line (gather n o.n_line 3 (new_line fl) x),
    length-gather n o.n_line 3 (new_line fl) x,
  )

  pub pep_poly_normal-AllSized :
      (t : Table F) (oid : ℕ) (x : List F) (n : ℕ)
      → AllSized t
      → AllSized (obj_pep_poly_normal fl t oid x n).1
  unfolding obj_pep_poly_normal
  pep_poly_normal-AllSized t oid x n = with_obj-AllSized t oid _ λ o v. ground (
    arith,
    length-rewrite_from (o.n_poly - clip o.n_poly n) (clip o.n_poly n) 9 (put_poly_normal fl)
        o.p_poly x,
  )

  pub pep_line_normal-AllSized :
      (t : Table F) (oid : ℕ) (x : List F) (n : ℕ)
      → AllSized t
      → AllSized (obj_pep_line_normal fl t oid x n).1
  unfolding obj_pep_line_normal
  pep_line_normal-AllSized t oid x n = with_obj-AllSized t oid _ λ o v. ground (
    arith,
    length-rewrite_from (o.n_line - clip o.n_line n) (clip o.n_line n) 6 (put_line_normal fl)
        o.p_line x,
  )

  pub pep_poly_texc-AllSized :
      (t : Table F) (oid : ℕ) (x : List F) (n : ℕ)
      → AllSized t
      → AllSized (obj_pep_poly_texc fl t oid x n).1
  unfolding obj_pep_poly_texc
  pep_poly_texc-AllSized t oid x n = with_obj-AllSized t oid _ λ o v. ground (
    arith,
    length-rewrite_from (o.n_poly - clip o.n_poly n) (clip o.n_poly n) 6 (put_poly_texc fl) o.p_poly
        x,
  )

  pub pep_mat-AllSized :
      (t : Table F) (oid : ℕ) (x : List F) (n : ℕ)
      → AllSized t
      → AllSized (obj_pep_mat fl t oid x n).1
  unfolding obj_pep_mat
  pep_mat-AllSized t oid x n = with_obj-AllSized t oid _ λ o v. ground (
    arith,
    length-rewrite_from (o.n_mat - clip o.n_mat n) (clip o.n_mat n) 12 (put_mat fl) o.p_mat x,
  )

  pub pep_line-AllSized :
      (t : Table F) (oid : ℕ) (x : List ℕ) (n : ℕ)
      → AllSized t
      → AllSized (obj_pep_line fl t oid x n).1
  unfolding obj_pep_line
  pep_line-AllSized t oid x n = with_obj-AllSized t oid _ λ o v. ground (
    arith,
    length-rewrite_from (o.n_line - clip o.n_line n) (clip o.n_line n) 3 (put_line fl) o.p_line x,
  )

  pub pep_mat_tex-AllSized :
      (t : Table F) (oid : ℕ) (x : List ℕ) (n : ℕ)
      → AllSized t
      → AllSized (obj_pep_mat_tex fl t oid x n).1
  unfolding obj_pep_mat_tex
  pep_mat_tex-AllSized t oid x n = with_obj-AllSized t oid _ λ o v. ground (
    arith,
    length-rewrite_from (o.n_mat - clip o.n_mat n) (clip o.n_mat n) 1 (put_mat_tex fl) o.p_mat x,
  )

  pub load_poly_normal-AllSized :
      (t : Table F) (oid : ℕ) (x : List F) (start n : ℕ)
      → AllSized t
      → AllSized (obj_load_poly_normal fl t oid x start n).1
  unfolding obj_load_poly_normal
  load_poly_normal-AllSized t oid x start n = with_obj-AllSized t oid _ λ o v.
      ground (
        arith,
        length-rewrite_from start (rounds o.n_poly start n) 9 (put_poly_normal fl) o.p_poly x,
      )

  pub load_line_normal-AllSized :
      (t : Table F) (oid : ℕ) (x : List F) (start n : ℕ)
      → AllSized t
      → AllSized (obj_load_line_normal fl t oid x start n).1
  unfolding obj_load_line_normal
  load_line_normal-AllSized t oid x start n = with_obj-AllSized t oid _ λ o v.
      ground (
        arith,
        length-rewrite_from start (rounds o.n_line start n) 6 (put_line_normal fl) o.p_line x,
      )

  pub load_poly_texc-AllSized :
      (t : Table F) (oid : ℕ) (x : List F) (start n : ℕ)
      → AllSized t
      → AllSized (obj_load_poly_texc fl t oid x start n).1
  unfolding obj_load_poly_texc
  load_poly_texc-AllSized t oid x start n = with_obj-AllSized t oid _ λ o v.
      ground
        (arith, length-rewrite_from start (rounds o.n_poly start n) 6 (put_poly_texc fl) o.p_poly x)

  pub load_mat-AllSized :
      (t : Table F) (oid : ℕ) (x : List F) (start n : ℕ)
      → AllSized t
      → AllSized (obj_load_mat fl t oid x start n).1
  unfolding obj_load_mat
  load_mat-AllSized t oid x start n = with_obj-AllSized t oid _ λ o v.
      ground (arith, length-rewrite_from start (rounds o.n_mat start n) 12 (put_mat fl) o.p_mat x)

  pub del_mat-AllSized :
      (t : Table F) (oid n : ℕ) → AllSized t → AllSized (obj_del_mat mem t oid n).1
  unfolding obj_del_mat
  del_mat-AllSized t oid n =
      with_obj-AllSized t oid _ λ o v. ground (arith, length-take (o.n_mat - n) o.p_mat)

  pub del_poly-AllSized :
      (t : Table F) (oid n : ℕ) → AllSized t → AllSized (obj_del_poly mem t oid n).1
  unfolding obj_del_poly
  del_poly-AllSized t oid n =
      with_obj-AllSized t oid _ λ o v. ground (arith, length-take (o.n_poly - n) o.p_poly)

  pub del_line-AllSized :
      (t : Table F) (oid n : ℕ) → AllSized t → AllSized (obj_del_line mem t oid n).1
  unfolding obj_del_line
  del_line-AllSized t oid n =
      with_obj-AllSized t oid _ λ o v. ground (arith, length-take (o.n_line - n) o.p_line)

module _ {F : Type 0} where
  pub update_tex-AllSized :
      (t : Table F) (oid tid : ℕ) → AllSized t → AllSized (obj_update_tex t oid tid).1
  unfolding obj_update_tex
  update_tex-AllSized t oid tid = with_obj-AllSized t oid _ λ o v. ground arith

  toggle-IsSized : (o : Obj F) (type f : ℕ) → IsSized o → IsSized (toggle o type f).1
  unfolding toggle
  toggle-IsSized o type f v = ground arith

  pub toggle_flags-AllSized :
      (t : Table F) (oid type flags : ℕ)
      → AllSized t
      → AllSized (obj_toggle_flags t oid type flags).1
  unfolding obj_toggle_flags
  toggle_flags-AllSized t oid type flags h = elim (Option-cases (obj_valid t oid)) [
    | inl e ↦ rw (e, obj_toggle_flags) h
    | inr (o, e) ↦
        rw (e, obj_toggle_flags) (set-AllSized t oid _ e (toggle-IsSized o type _ (h oid o e)) h)
  ]

  pub load_tex-AllSized :
      (t : Table F) (oid tex x y w h : ℕ) (pixbuf : List ℕ)
      → AllSized t
      → AllSized (obj_load_tex t oid tex x y w h pixbuf).1
  load_tex-AllSized t oid tex x y w h pixbuf s = elim (load_tex-cases t oid tex x y w h pixbuf) [
    | inl e ↦ rw e s
    | inr d ↦ rw d.result (
        unfold load_into in
        (update_tex-AllSized _ oid tex
          (set-AllSized t oid _ d.is_obj (resized d.obj tex _ (s oid d.obj d.is_obj)) s)))
  ]
    where
      resized :
          (o : Obj F) (i : ℕ) (tx : Tex)
          → IsSized o
          → IsSized (record o { p_tex = set o.p_tex i tx })
      resized o i tx v = ground (arith, length-set o.p_tex i tx)
