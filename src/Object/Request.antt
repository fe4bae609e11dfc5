-- ===== src/Object/Request.antt =====
-- Requests that change the data of one object, as `prot_com_in` of server/proto.c hands them to the
-- functions of server/object.c: those on materials, polygons, lines, pixels and flags, and the
-- deletion of textures. Those on vertices, which change the radius of other objects too, and
-- `obj_push_tex` are not among them.
use s3d.Base.{ℕ, Bool, List}
use s3d.Object.{Floats, Table, Status}
use s3d.Object.Push.{obj_push_mat, obj_push_poly, obj_push_line}
use s3d.Object.Pep.{
  obj_pep_poly_normal, obj_pep_line_normal, obj_pep_poly_texc, obj_pep_mat, obj_pep_line,
  obj_pep_mat_tex,
}
use s3d.Object.Load.{obj_load_poly_normal, obj_load_line_normal, obj_load_poly_texc, obj_load_mat}
use s3d.Object.Del.{obj_del_mat, obj_del_poly, obj_del_line}
use s3d.Object.Texture.{obj_del_tex, obj_update_tex, obj_load_tex}
use s3d.Object.Flags.{obj_toggle_flags}

-- One constructor for each function, with its arguments. The first is the id of the object.
pub data Request (F : Type 0) : Type 0 where
  push_mat : ℕ → List F → ℕ → Request F
  push_poly : ℕ → List ℕ → ℕ → Request F
  push_line : ℕ → List ℕ → ℕ → Request F
  pep_poly_normal : ℕ → List F → ℕ → Request F
  pep_line_normal : ℕ → List F → ℕ → Request F
  pep_poly_texc : ℕ → List F → ℕ → Request F
  pep_mat : ℕ → List F → ℕ → Request F
  pep_line : ℕ → List ℕ → ℕ → Request F
  pep_mat_tex : ℕ → List ℕ → ℕ → Request F
  load_poly_normal : ℕ → List F → ℕ → ℕ → Request F
  load_line_normal : ℕ → List F → ℕ → ℕ → Request F
  load_poly_texc : ℕ → List F → ℕ → ℕ → Request F
  load_mat : ℕ → List F → ℕ → ℕ → Request F
  del_mat : ℕ → ℕ → Request F
  del_poly : ℕ → ℕ → Request F
  del_line : ℕ → ℕ → Request F
  del_tex : ℕ → ℕ → Request F
  update_tex : ℕ → ℕ → Request F
  load_tex : ℕ → ℕ → ℕ → ℕ → ℕ → ℕ → List ℕ → Request F
  toggle_flags : ℕ → ℕ → ℕ → Request F

-- the id that a request names
abbrev pub target : {F : Type 0} → Request F → ℕ
target (push_mat oid x n) = oid
target (push_poly oid x n) = oid
target (push_line oid x n) = oid
target (pep_poly_normal oid x n) = oid
target (pep_line_normal oid x n) = oid
target (pep_poly_texc oid x n) = oid
target (pep_mat oid x n) = oid
target (pep_line oid x n) = oid
target (pep_mat_tex oid x n) = oid
target (load_poly_normal oid x start n) = oid
target (load_line_normal oid x start n) = oid
target (load_poly_texc oid x start n) = oid
target (load_mat oid x start n) = oid
target (del_mat oid n) = oid
target (del_poly oid n) = oid
target (del_line oid n) = oid
target (del_tex oid n) = oid
target (update_tex oid tid) = oid
target (load_tex oid tex x y w h pixbuf) = oid
target (toggle_flags oid type flags) = oid

module _ {F : Type 0} (fl : Floats F) (junk : ℕ → ℕ → F) (mem : Bool) where
  -- The call that a request makes. `mem` and `junk` are what `realloc` answers, as in `Push`.
  unfoldable pub serve : Request F → Table F → Status × Table F
  serve (push_mat oid x n) t = obj_push_mat fl mem t oid x n
  serve (push_poly oid x n) t = obj_push_poly fl junk mem t oid x n
  serve (push_line oid x n) t = obj_push_line fl mem t oid x n
  serve (pep_poly_normal oid x n) t = obj_pep_poly_normal fl t oid x n
  serve (pep_line_normal oid x n) t = obj_pep_line_normal fl t oid x n
  serve (pep_poly_texc oid x n) t = obj_pep_poly_texc fl t oid x n
  serve (pep_mat oid x n) t = obj_pep_mat fl t oid x n
  serve (pep_line oid x n) t = obj_pep_line fl t oid x n
  serve (pep_mat_tex oid x n) t = obj_pep_mat_tex fl t oid x n
  serve (load_poly_normal oid x start n) t = obj_load_poly_normal fl t oid x start n
  serve (load_line_normal oid x start n) t = obj_load_line_normal fl t oid x start n
  serve (load_poly_texc oid x start n) t = obj_load_poly_texc fl t oid x start n
  serve (load_mat oid x start n) t = obj_load_mat fl t oid x start n
  serve (del_mat oid n) t = obj_del_mat mem t oid n
  serve (del_poly oid n) t = obj_del_poly mem t oid n
  serve (del_line oid n) t = obj_del_line mem t oid n
  serve (del_tex oid n) t = obj_del_tex mem t oid n
  serve (update_tex oid tid) t = obj_update_tex t oid tid
  serve (load_tex oid tex x y w h pixbuf) t = obj_load_tex t oid tex x y w h pixbuf
  serve (toggle_flags oid type flags) t = obj_toggle_flags t oid type flags
