-- ===== src/Object/Links/Life.antt =====
-- `obj_new` and `obj_free` of server/object.c: an object comes without links, in the first NULL entry
-- of the table or behind it, and goes out of its list, with its children, whose number is the fuel of
-- the loop that unlinks them. What the object points to is freed with it, and is not in the table.
use s3d.Base.{ℕ, zero, suc, Option, none, some, [], ◌∷◌, length, set, if◌then◌else◌, ◌==◌}
use s3d.Object.{minus_one, Floats, Obj, Table, obj_valid}
use s3d.Object.Data.{zero_vertex}
use s3d.Object.Links.{update, link_delete}

module _ {F : Type 0} where
  -- `memset` to 0 and the writes behind it; `one_f` is 1.0F
  unfoldable pub new_obj : Floats F → F → Obj F
  unfolding zero_vertex
  new_obj fl one_f = record {
    oflags = 0;
    virtual_pid = 0;
    clone_ooid = 0;
    n_vertex = 0;
    n_mat = 0;
    n_poly = 0;
    n_tex = 0;
    n_line = 0;
    dplist = 0;
    linkid = minus_one;
    lsub = minus_one;
    lnext = minus_one;
    lprev = minus_one;
    p_vertex = [];
    p_mat = [];
    p_poly = [];
    p_line = [];
    p_tex = [];
    translate = zero_vertex fl;
    rotate = zero_vertex fl;
    scale = one_f;
    r = fl.zero_f;
    o_r = fl.zero_f;
  }

  -- the first NULL entry, or the end
  unfoldable pub free_entry : Table F → ℕ
  free_entry [] = 0
  free_entry (none ∷ t) = 0
  free_entry (some o ∷ t) = suc (free_entry t)

  -- the write to that entry, of the table that was reallocated if it is the end
  unfoldable pub put_entry : Table F → Obj F → Table F
  put_entry [] obj = some obj ∷ []
  put_entry (none ∷ t) obj = some obj ∷ t
  put_entry (some o ∷ t) obj = some o ∷ put_entry t obj

  unfoldable pub obj_new : Floats F → F → Table F → ℕ × Table F
  unfolding new_obj free_entry put_entry
  obj_new fl one_f t = (free_entry t, put_entry t (new_obj fl one_f))

  -- A round of the loop over the children, with the first child `c`. The write, which should not happen,
  -- ends the loop if `c` is still the first one.
  unfoldable pub drop_child : Table F → ℕ → ℕ → Table F
  unfolding link_delete update
  drop_child t oid c =
      update (link_delete t c) oid
        (λ o1. if c == o1.lsub then record o1 { lsub = minus_one } else o1)

  -- `while (o->lsub != -1)`; `none` if the fuel is used up
  unfoldable pub drop_children : ℕ → Table F → ℕ → Option (Table F)
  unfolding drop_child
  drop_children zero t oid = none
  drop_children (suc fuel) t oid = elim (obj_valid t oid) [
    | none ↦ none
    | some o ↦
        (let rest = drop_children fuel (drop_child t oid o.lsub) oid in
          if o.lsub == minus_one then some t else rest)
  ]

  -- a NULL entry stays in front of others
  unfoldable pub keep_none : Table F → Table F
  keep_none [] = []
  keep_none (x ∷ u) = none ∷ x ∷ u

  -- `while ((i != -1) && (p->object[i] == NULL)) i--;` and the `realloc` to `i + 1`
  unfoldable pub trim : Table F → Table F
  unfolding keep_none
  trim [] = []
  trim (some o ∷ t) = some o ∷ trim t
  trim (none ∷ t) = keep_none (trim t)

  unfoldable pub free_entry_of : Table F → ℕ → Table F
  unfolding trim
  free_entry_of t oid = let u = set t oid none in if suc oid == length u then trim u else u

  unfoldable pub obj_free : ℕ → Table F → ℕ → Option (Table F)
  unfolding link_delete drop_children free_entry_of
  obj_free fuel t oid = elim (obj_valid t oid) [
    | none ↦ none
    | some o ↦
        elim (drop_children fuel (if o.linkid == minus_one then t else link_delete t oid) oid) [
          | none ↦ none
          | some t1 ↦ some (free_entry_of t1 oid)
        ]
  ]
