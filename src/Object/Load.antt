-- ===== src/Object/Load.antt =====
-- The `obj_load_...` functions of server/object.c: they overwrite parts of the elements from `start`
-- on. `start` is an `int32_t`, given by its bit pattern.
use s3d.Base.{ℕ, ◌+◌, ◌-◌, ◌^◌, Bool, List, if◌then◌else◌, ltb, leb}
use s3d.Object.{Floats, Table, Status, done, failed}
use s3d.Object.Data.{with_obj, unless_nodata, free_dplist, rewrite_from}
use s3d.Object.Pep.{put_poly_normal, put_line_normal, put_poly_texc, put_mat}

-- `start < 0`
abbrev pub is_negative : ℕ → Bool
is_negative start = leb (2 ^ 31) start

-- `if (m < (start + n)) n = m - start;` and how many rounds of the loop from `start` to `start + n`
-- follow: none if `m - start` is negative. (A sum `start + n` past 2 ^ 31 is more than `m` in the
-- model; in C it overflows, and with wrap-around the loop makes no round either.)
unfoldable pub rounds : ℕ → ℕ → ℕ → ℕ
rounds m start n = if ltb m (start + n) then m - start else n

module _ {F : Type 0} (fl : Floats F) where
  unfoldable pub obj_load_poly_normal : Table F → ℕ → List F → ℕ → ℕ → Status × Table F
  unfolding with_obj unless_nodata free_dplist
  obj_load_poly_normal t oid x start n = with_obj t oid λ obj.
      if is_negative start
      then (failed, obj)
      else unless_nodata obj (
          let k = rounds obj.n_poly start n in
          let o = free_dplist obj in
          (done, record o { p_poly = rewrite_from start k 9 (put_poly_normal fl) obj.p_poly x }))

  unfoldable pub obj_load_line_normal : Table F → ℕ → List F → ℕ → ℕ → Status × Table F
  unfolding with_obj unless_nodata free_dplist
  obj_load_line_normal t oid x start n = with_obj t oid λ obj.
      if is_negative start
      then (failed, obj)
      else unless_nodata obj (
          let k = rounds obj.n_line start n in
          let o = free_dplist obj in
          (done, record o { p_line = rewrite_from start k 6 (put_line_normal fl) obj.p_line x }))

  unfoldable pub obj_load_poly_texc : Table F → ℕ → List F → ℕ → ℕ → Status × Table F
  unfolding with_obj unless_nodata free_dplist
  obj_load_poly_texc t oid x start n = with_obj t oid λ obj.
      if is_negative start
      then (failed, obj)
      else unless_nodata obj (
          let k = rounds obj.n_poly start n in
          let o = free_dplist obj in
          (done, record o { p_poly = rewrite_from start k 6 (put_poly_texc fl) obj.p_poly x }))

  unfoldable pub obj_load_mat : Table F → ℕ → List F → ℕ → ℕ → Status × Table F
  unfolding with_obj unless_nodata free_dplist
  obj_load_mat t oid x start n = with_obj t oid λ obj.
      if is_negative start
      then (failed, obj)
      else unless_nodata obj (
          let k = rounds obj.n_mat start n in
          let o = free_dplist obj in
          (done, record o { p_mat = rewrite_from start k 12 (put_mat fl) obj.p_mat x }))
