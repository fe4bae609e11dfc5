-- ===== src/Object/Push.antt =====
-- `obj_push_mat`, `obj_push_poly` and `obj_push_line` of server/object.c: `n` elements are appended.
-- `mem` is whether `realloc` finds the memory; if not, nothing changes and 0 is returned.
use s3d.Base.{ℕ, ◌+◌, Bool, List, drop, get_or, if◌then◌else◌}
use s3d.Object.{minus_one, Floats, Poly, Line, Mat, Table, Status, done}
use s3d.Object.Data.{with_obj, unless_nodata, free_dplist, rgba_at, zero_vertex, gather, extend}

module _ {F : Type 0} (fl : Floats F) where
  open fl use {zero_f}

  -- one round of the loop of `obj_push_mat`
  unfoldable pub new_mat : ℕ → List F → Mat F
  unfolding rgba_at
  new_mat i px = record {
    amb = rgba_at fl px;
    spec = rgba_at fl (drop 4 px);
    diff = rgba_at fl (drop 8 px);
    tex = minus_one;
  }

  unfoldable pub obj_push_mat : Bool → Table F → ℕ → List F → ℕ → Status × Table F
  unfolding with_obj unless_nodata free_dplist
  obj_push_mat mem t oid x n = with_obj t oid λ obj. unless_nodata obj (
      let o = free_dplist obj in
      if mem
      then (
        done,
        record o {
          p_mat = extend obj.p_mat obj.n_mat (gather n obj.n_mat 12 new_mat x);
          n_mat = obj.n_mat + n;
        },
      )
      else (done, obj))

  -- One round of the loop of `obj_push_poly`. The three lines that should clear the texture
  -- coordinates write `tc[i].x` and, once more, the normals: `tc[i].y` keeps what the memory held,
  -- `junk i 0`, `junk i 1` and `junk i 2` for the polygon number `i`.
  unfoldable pub new_poly : (ℕ → ℕ → F) → ℕ → List ℕ → Poly F
  unfolding zero_vertex
  new_poly junk i px = record {
    v0 = get_or px 0 0;
    v1 = get_or px 1 0;
    v2 = get_or px 2 0;
    mat = get_or px 3 0;
    n0 = zero_vertex fl;
    n1 = zero_vertex fl;
    n2 = zero_vertex fl;
    tc0 = record { x = zero_f; y = junk i 0 };
    tc1 = record { x = zero_f; y = junk i 1 };
    tc2 = record { x = zero_f; y = junk i 2 };
  }

  unfoldable pub obj_push_poly : (ℕ → ℕ → F) → Bool → Table F → ℕ → List ℕ → ℕ → Status × Table F
  unfolding with_obj unless_nodata free_dplist
  obj_push_poly junk mem t oid x n = with_obj t oid λ obj. unless_nodata obj (
      let o = free_dplist obj in
      if mem
      then (
        done,
        record o {
          p_poly = extend obj.p_poly obj.n_poly (gather n obj.n_poly 4 (new_poly junk) x);
          n_poly = obj.n_poly + n;
        },
      )
      else (done, obj))

  -- one round of the loop of `obj_push_line`
  unfoldable pub new_line : ℕ → List ℕ → Line F
  unfolding zero_vertex
  new_line i px = record {
    v0 = get_or px 0 0;
    v1 = get_or px 1 0;
    mat = get_or px 2 0;
    n0 = zero_vertex fl;
    n1 = zero_vertex fl;
  }

  unfoldable pub obj_push_line : Bool → Table F → ℕ → List ℕ → ℕ → Status × Table F
  unfolding with_obj unless_nodata free_dplist
  obj_push_line mem t oid x n = with_obj t oid λ obj. unless_nodata obj (
      let o = free_dplist obj in
      if mem
      then (
        done,
        record o {
          p_line = extend obj.p_line obj.n_line (gather n obj.n_line 3 new_line x);
          n_line = obj.n_line + n;
        },
      )
      else (done, obj))
