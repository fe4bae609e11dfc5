-- ===== src/Object/Pep.antt =====
-- The `obj_pep_...` functions of server/object.c: they overwrite parts of the last `n` elements, or
-- of all if there are fewer.
use s3d.Base.{ℕ, ◌-◌, List, drop, get_or, if◌then◌else◌, ltb}
use s3d.Object.{Floats, Vertex, Texc, Poly, Line, Mat, Table, Status, done}
use s3d.Object.Data.{
  with_obj, unless_nodata, free_dplist, vertex_at, rgba_at, zero_vertex, rewrite_from,
}

-- `if (m < n) n = m;`
unfoldable pub clip : ℕ → ℕ → ℕ
clip m n = if ltb m n then m else n

module _ {F : Type 0} (fl : Floats F) where
  open fl use {zero_f, add, mul, div, sqrt, is_zero}

  -- the normal that is read at the reading position, scaled to length 1 unless it is zero
  unfoldable pub normal_at : List F → Vertex F
  unfolding vertex_at zero_vertex
  normal_at px =
      let v = vertex_at fl px in
      let len = sqrt (add (add (mul v.x v.x) (mul v.y v.y)) (mul v.z v.z)) in
      if is_zero len
      then zero_vertex fl
      else record { x = div v.x len; y = div v.y len; z = div v.z len }

  unfoldable pub texc_at : List F → Texc F
  texc_at px = record { x = get_or px 0 zero_f; y = get_or px 1 zero_f }

  -- one round of each loop
  unfoldable pub put_poly_normal : Poly F → List F → Poly F
  unfolding normal_at
  put_poly_normal p px = record p {
    n0 = normal_at px;
    n1 = normal_at (drop 3 px);
    n2 = normal_at (drop 6 px);
  }

  unfoldable pub put_line_normal : Line F → List F → Line F
  unfolding normal_at
  put_line_normal l px = record l { n0 = normal_at px; n1 = normal_at (drop 3 px) }

  unfoldable pub put_poly_texc : Poly F → List F → Poly F
  unfolding texc_at
  put_poly_texc p px = record p {
    tc0 = texc_at px;
    tc1 = texc_at (drop 2 px);
    tc2 = texc_at (drop 4 px);
  }

  unfoldable pub put_mat : Mat F → List F → Mat F
  unfolding rgba_at
  put_mat m px = record m {
    amb = rgba_at fl px;
    spec = rgba_at fl (drop 4 px);
    diff = rgba_at fl (drop 8 px);
  }

  unfoldable pub put_line : Line F → List ℕ → Line F
  unfolding zero_vertex
  put_line l px = record l {
    v0 = get_or px 0 0;
    v1 = get_or px 1 0;
    mat = get_or px 2 0;
    n0 = zero_vertex fl;
    n1 = zero_vertex fl;
  }

  unfoldable pub put_mat_tex : Mat F → List ℕ → Mat F
  put_mat_tex m px = record m { tex = get_or px 0 0 }

  unfoldable pub obj_pep_poly_normal : Table F → ℕ → List F → ℕ → Status × Table F
  unfolding with_obj unless_nodata free_dplist
  obj_pep_poly_normal t oid x n = with_obj t oid λ obj. unless_nodata obj (
      let m = obj.n_poly in
      let k = clip m n in
      let o = free_dplist obj in
      (done, record o { p_poly = rewrite_from (m - k) k 9 put_poly_normal obj.p_poly x }))

  unfoldable pub obj_pep_line_normal : Table F → ℕ → List F → ℕ → Status × Table F
  unfolding with_obj unless_nodata free_dplist
  obj_pep_line_normal t oid x n = with_obj t oid λ obj. unless_nodata obj (
      let m = obj.n_line in
      let k = clip m n in
      let o = free_dplist obj in
      (done, record o { p_line = rewrite_from (m - k) k 6 put_line_normal obj.p_line x }))

  unfoldable pub obj_pep_poly_texc : Table F → ℕ → List F → ℕ → Status × Table F
  unfolding with_obj unless_nodata free_dplist
  obj_pep_poly_texc t oid x n = with_obj t oid λ obj. unless_nodata obj (
      let m = obj.n_poly in
      let k = clip m n in
      let o = free_dplist obj in
      (done, record o { p_poly = rewrite_from (m - k) k 6 put_poly_texc obj.p_poly x }))

  unfoldable pub obj_pep_mat : Table F → ℕ → List F → ℕ → Status × Table F
  unfolding with_obj unless_nodata free_dplist
  obj_pep_mat t oid x n = with_obj t oid λ obj. unless_nodata obj (
      let m = obj.n_mat in
      let k = clip m n in
      let o = free_dplist obj in
      (done, record o { p_mat = rewrite_from (m - k) k 12 put_mat obj.p_mat x }))

  unfoldable pub obj_pep_line : Table F → ℕ → List ℕ → ℕ → Status × Table F
  unfolding with_obj unless_nodata free_dplist
  obj_pep_line t oid x n = with_obj t oid λ obj. unless_nodata obj (
      let m = obj.n_line in
      let k = clip m n in
      let o = free_dplist obj in
      (done, record o { p_line = rewrite_from (m - k) k 3 put_line obj.p_line x }))

  unfoldable pub obj_pep_mat_tex : Table F → ℕ → List ℕ → ℕ → Status × Table F
  unfolding with_obj unless_nodata free_dplist
  obj_pep_mat_tex t oid x n = with_obj t oid λ obj. unless_nodata obj (
      let m = obj.n_mat in
      let k = clip m n in
      let o = free_dplist obj in
      (done, record o { p_mat = rewrite_from (m - k) k 1 put_mat_tex obj.p_mat x }))
