-- ===== src/Object/Data.antt =====
-- What the operations on the data of an object share: the guards, the display list, and the loops
-- that read elements from the buffer of a request (`*(px++)`).
use s3d.Base.{ℕ, zero, suc, none, some, List, [], ◌∷◌, ◌++◌, take, drop, set, get_or, if◌then◌else◌}
use s3d.Object.{Obj, Table, Status, failed, nodata, obj_valid, Floats, Vertex, Rgba}

module _ {F : Type 0} where
  -- `if (OBJ_VALID(p, oid, obj)) { ... } else return -1;` around a change of that one object
  unfoldable pub with_obj : Table F → ℕ → (Obj F → Status × Obj F) → Status × Table F
  with_obj t oid body = elim (obj_valid t oid) [
    | none ↦ (failed, t)
    | some o ↦ ((body o).0, set t oid (some (body o).1))
  ]

  -- `if (obj->oflags & OF_NODATA) return -1;`
  unfoldable pub unless_nodata : Obj F → Status × Obj F → Status × Obj F
  unless_nodata o rest = if nodata o then (failed, o) else rest

  -- `if (obj->dplist) { glDeleteLists(...); obj->dplist = 0; }`
  unfoldable pub free_dplist : Obj F → Obj F
  free_dplist o = record o { dplist = 0 }

  module _ (fl : Floats F) where
    open fl use {zero_f}

    -- three or four floats at the reading position
    unfoldable pub vertex_at : List F → Vertex F
    vertex_at px = record { x = get_or px 0 zero_f; y = get_or px 1 zero_f; z = get_or px 2 zero_f }

    unfoldable pub rgba_at : List F → Rgba F
    rgba_at px = record {
      r = get_or px 0 zero_f;
      g = get_or px 1 zero_f;
      b = get_or px 2 zero_f;
      a = get_or px 3 zero_f;
    }

    unfoldable pub zero_vertex : Vertex F
    zero_vertex = record { x = zero_f; y = zero_f; z = zero_f }

module _ {A D : Type 0} where
  -- `for (i = 0; i < n; i++) a[m + i] = new (m + i) px`, where each round reads `width` items of `px`
  unfoldable pub gather : ℕ → ℕ → ℕ → (ℕ → List D → A) → List D → List A
  gather zero m width new px = []
  gather (suc n) m width new px = new m px ∷ gather n (suc m) width new (drop width px)

  -- `for (i = 0; i < n; i++) change a[i]`, where each round reads `width` items of `px`
  unfoldable pub rewrite : ℕ → ℕ → (A → List D → A) → List A → List D → List A
  rewrite zero width change xs px = xs
  rewrite (suc n) width change [] px = []
  rewrite (suc n) width change (a ∷ xs) px = change a px ∷ rewrite n width change xs (drop width px)

  -- the same from `i = start` on
  unfoldable pub rewrite_from : ℕ → ℕ → ℕ → (A → List D → A) → List A → List D → List A
  unfolding rewrite
  rewrite_from start n width change xs px =
      take start xs ++ rewrite n width change (drop start xs) px

module _ {A : Type 0} where
  -- `realloc (a, n + m)` of `m` elements, with the new ones written behind them. It is for arrays of
  -- `m` elements or more: the materials, polygons and lines of an object always match their counters.
  unfoldable pub extend : List A → ℕ → List A → List A
  extend a m new = take m a ++ new
