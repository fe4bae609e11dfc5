-- ===== src/Object/Del.antt =====
-- `obj_del_mat`, `obj_del_poly`, `obj_del_line` and `obj_del_tex` of server/object.c: they drop the
-- last `n` elements, or all if there are no more. `n` comes from a `uint16_t`. `mem` is whether
-- `realloc` succeeds. Freeing an array leaves its pointer NULL: the empty list.
use s3d.Base.{ℕ, ◌-◌, Bool, [], take, if◌then◌else◌, ltb, leb}
use s3d.Object.{Table, Status, done}
use s3d.Object.Data.{with_obj, unless_nodata, free_dplist}

module _ {F : Type 0} where
  unfoldable pub obj_del_mat : Bool → Table F → ℕ → ℕ → Status × Table F
  unfolding with_obj unless_nodata free_dplist
  obj_del_mat mem t oid n = with_obj t oid λ obj. unless_nodata obj (
      let m = obj.n_mat in
      if leb m n
      then (done, record obj { n_mat = 0; p_mat = [] })
      else if ltb 0 n
      then if mem
        then (done, record (free_dplist obj) { p_mat = take (m - n) obj.p_mat; n_mat = m - n })
        else (done, obj)
      else (done, obj))

  unfoldable pub obj_del_poly : Bool → Table F → ℕ → ℕ → Status × Table F
  unfolding with_obj unless_nodata free_dplist
  obj_del_poly mem t oid n = with_obj t oid λ obj. unless_nodata obj (
      let m = obj.n_poly in
      if leb m n
      then (done, record obj { n_poly = 0; p_poly = [] })
      else if ltb 0 n
      then if mem
        then (done, record (free_dplist obj) { p_poly = take (m - n) obj.p_poly; n_poly = m - n })
        else (done, obj)
      else (done, obj))

  unfoldable pub obj_del_line : Bool → Table F → ℕ → ℕ → Status × Table F
  unfolding with_obj unless_nodata free_dplist
  obj_del_line mem t oid n = with_obj t oid λ obj. unless_nodata obj (
      let m = obj.n_line in
      if leb m n
      then (done, record obj { n_line = 0; p_line = [] })
      else if ltb 0 n
      then if mem
        then (done, record (free_dplist obj) { p_line = take (m - n) obj.p_line; n_line = m - n })
        else (done, obj)
      else (done, obj))
