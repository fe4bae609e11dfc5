-- ===== src/Object/Effects.antt =====
-- What the requests of server/object.c do to the other objects of a table, and what without an object.
use s3d.Base.{ℕ, ◌≡◌, ◌≢◌, ap, ◌∙◌, arith, Bool, none, some, List, set, Option-cases, inl, inr}
use s3d.Object.{Obj, Table, Floats, done, failed, obj_valid}
use s3d.Object.Frame.{obj_valid-set, with_obj-none, with_obj-other}
use s3d.Object.Push.{obj_push_mat, obj_push_poly, obj_push_line}
use s3d.Object.Pep.{
  obj_pep_poly_normal, obj_pep_line_normal, obj_pep_poly_texc, obj_pep_mat, obj_pep_line,
  obj_pep_mat_tex,
}
use s3d.Object.Load.{obj_load_poly_normal, obj_load_line_normal, obj_load_poly_texc, obj_load_mat}
use s3d.Object.Del.{obj_del_mat, obj_del_poly, obj_del_line}
use s3d.Object.Texture.{obj_del_tex, obj_update_tex, obj_load_tex, load_into}
use s3d.Object.Flags.{obj_toggle_flags}
use s3d.Object.Request.{Request, target, serve}
use s3d.Object.Draws.{load_tex-cases}

module _ {F : Type 0} where
  set-other :
      (t : Table F) (oid j : ℕ) {o : Obj F} (o' : Obj F)
      → obj_valid t oid ≡ some o
      → oid ≢ j
      → obj_valid (set t oid (some o')) j ≡ obj_valid t j
  set-other t oid j o' e n = ground (arith, obj_valid-set t oid j o' e)

  update_tex-other :
      (t : Table F) (oid tid j : ℕ)
      → oid ≢ j
      → obj_valid (obj_update_tex t oid tid).1 j ≡ obj_valid t j
  unfolding obj_update_tex
  update_tex-other t oid tid j n = with_obj-other t oid j _ n

  toggle_flags-other :
      (t : Table F) (oid type flags j : ℕ)
      → oid ≢ j
      → obj_valid (obj_toggle_flags t oid type flags).1 j ≡ obj_valid t j
  unfolding obj_toggle_flags
  toggle_flags-other t oid type flags j n = elim (Option-cases (obj_valid t oid)) [
    | inl e ↦ rw (e, obj_toggle_flags)
    | inr (o, e) ↦ rw (e, obj_toggle_flags) (set-other t oid j _ e n)
  ]

  load_tex-other :
      (t : Table F) (oid tex x y w h : ℕ) (pixbuf : List ℕ) (j : ℕ)
      → oid ≢ j
      → obj_valid (obj_load_tex t oid tex x y w h pixbuf).1 j ≡ obj_valid t j
  load_tex-other t oid tex x y w h pixbuf j n = elim (load_tex-cases t oid tex x y w h pixbuf) [
    | inl e ↦ rw e
    | inr d ↦
        rw d.result
          (unfold load_into in (update_tex-other _ oid tex j n ∙ set-other t oid j _ d.is_obj n))
  ]

  load_tex-invalid :
      (t : Table F) (oid tex x y w h : ℕ) (pixbuf : List ℕ)
      → obj_valid t oid ≡ none
      → obj_load_tex t oid tex x y w h pixbuf ≡ (failed, t)
  unfolding obj_load_tex
  load_tex-invalid t oid tex x y w h pixbuf e = rw (e, obj_load_tex)

  toggle_flags-invalid :
      (t : Table F) (oid type flags : ℕ)
      → obj_valid t oid ≡ none
      → obj_toggle_flags t oid type flags ≡ (done, t)
  unfolding obj_toggle_flags
  toggle_flags-invalid t oid type flags e = rw (e, obj_toggle_flags)

module _ {F : Type 0} (fl : Floats F) (junk : ℕ → ℕ → F) (mem : Bool) where
  -- A request of `Request` leaves every object but the one that it names as it was.
  pub serve-other :
      (q : Request F) (t : Table F) (j : ℕ)
      → target q ≢ j
      → obj_valid (serve fl junk mem q t).1 j ≡ obj_valid t j
  unfolding serve obj_push_mat obj_push_poly obj_push_line obj_pep_poly_normal obj_pep_line_normal
      obj_pep_poly_texc obj_pep_mat obj_pep_line obj_pep_mat_tex obj_load_poly_normal
      obj_load_line_normal obj_load_poly_texc obj_load_mat obj_del_mat obj_del_poly obj_del_line
      obj_del_tex
  serve-other (Request.push_mat oid x n) t j h = with_obj-other t oid j _ h
  serve-other (Request.push_poly oid x n) t j h = with_obj-other t oid j _ h
  serve-other (Request.push_line oid x n) t j h = with_obj-other t oid j _ h
  serve-other (Request.pep_poly_normal oid x n) t j h = with_obj-other t oid j _ h
  serve-other (Request.pep_line_normal oid x n) t j h = with_obj-other t oid j _ h
  serve-other (Request.pep_poly_texc oid x n) t j h = with_obj-other t oid j _ h
  serve-other (Request.pep_mat oid x n) t j h = with_obj-other t oid j _ h
  serve-other (Request.pep_line oid x n) t j h = with_obj-other t oid j _ h
  serve-other (Request.pep_mat_tex oid x n) t j h = with_obj-other t oid j _ h
  serve-other (Request.load_poly_normal oid x start n) t j h = with_obj-other t oid j _ h
  serve-other (Request.load_line_normal oid x start n) t j h = with_obj-other t oid j _ h
  serve-other (Request.load_poly_texc oid x start n) t j h = with_obj-other t oid j _ h
  serve-other (Request.load_mat oid x start n) t j h = with_obj-other t oid j _ h
  serve-other (Request.del_mat oid n) t j h = with_obj-other t oid j _ h
  serve-other (Request.del_poly oid n) t j h = with_obj-other t oid j _ h
  serve-other (Request.del_line oid n) t j h = with_obj-other t oid j _ h
  serve-other (Request.del_tex oid n) t j h = with_obj-other t oid j _ h
  serve-other (Request.update_tex oid tid) t j h = update_tex-other t oid tid j h
  serve-other (Request.load_tex oid tex x y w k pixbuf) t j h =
      load_tex-other t oid tex x y w k pixbuf j h
  serve-other (Request.toggle_flags oid type flags) t j h = toggle_flags-other t oid type flags j h

  -- A request that names no object of the table changes nothing.
  pub serve-invalid :
      (q : Request F) (t : Table F) → obj_valid t (target q) ≡ none → (serve fl junk mem q t).1 ≡ t
  unfolding serve obj_push_mat obj_push_poly obj_push_line obj_pep_poly_normal obj_pep_line_normal
      obj_pep_poly_texc obj_pep_mat obj_pep_line obj_pep_mat_tex obj_load_poly_normal
      obj_load_line_normal obj_load_poly_texc obj_load_mat obj_del_mat obj_del_poly obj_del_line
      obj_del_tex obj_update_tex
  serve-invalid (Request.push_mat oid x n) t e = ap (λ r. r.1) (with_obj-none t oid _ e)
  serve-invalid (Request.push_poly oid x n) t e = ap (λ r. r.1) (with_obj-none t oid _ e)
  serve-invalid (Request.push_line oid x n) t e = ap (λ r. r.1) (with_obj-none t oid _ e)
  serve-invalid (Request.pep_poly_normal oid x n) t e = ap (λ r. r.1) (with_obj-none t oid _ e)
  serve-invalid (Request.pep_line_normal oid x n) t e = ap (λ r. r.1) (with_obj-none t oid _ e)
  serve-invalid (Request.pep_poly_texc oid x n) t e = ap (λ r. r.1) (with_obj-none t oid _ e)
  serve-invalid (Request.pep_mat oid x n) t e = ap (λ r. r.1) (with_obj-none t oid _ e)
  serve-invalid (Request.pep_line oid x n) t e = ap (λ r. r.1) (with_obj-none t oid _ e)
  serve-invalid (Request.pep_mat_tex oid x n) t e = ap (λ r. r.1) (with_obj-none t oid _ e)
  serve-invalid (Request.load_poly_normal oid x start n) t e =
      ap (λ r. r.1) (with_obj-none t oid _ e)
  serve-invalid (Request.load_line_normal oid x start n) t e =
      ap (λ r. r.1) (with_obj-none t oid _ e)
  serve-invalid (Request.load_poly_texc oid x start n) t e = ap (λ r. r.1) (with_obj-none t oid _ e)
  serve-invalid (Request.load_mat oid x start n) t e = ap (λ r. r.1) (with_obj-none t oid _ e)
  serve-invalid (Request.del_mat oid n) t e = ap (λ r. r.1) (with_obj-none t oid _ e)
  serve-invalid (Request.del_poly oid n) t e = ap (λ r. r.1) (with_obj-none t oid _ e)
  serve-invalid (Request.del_line oid n) t e = ap (λ r. r.1) (with_obj-none t oid _ e)
  serve-invalid (Request.del_tex oid n) t e = ap (λ r. r.1) (with_obj-none t oid _ e)
  serve-invalid (Request.update_tex oid tid) t e = ap (λ r. r.1) (with_obj-none t oid _ e)
  serve-invalid (Request.load_tex oid tex x y w h pixbuf) t e =
      ap (λ r. r.1) (load_tex-invalid t oid tex x y w h pixbuf e)
  serve-invalid (Request.toggle_flags oid type flags) t e =
      ap (λ r. r.1) (toggle_flags-invalid t oid type flags e)
