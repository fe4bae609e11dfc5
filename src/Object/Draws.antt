-- ===== src/Object/Draws.antt =====
-- When `obj_load_tex` of server/object.c draws, and what it writes then.
use s3d.Base.{
  ℕ, ◌≡◌, arith, false, some, List, get_elem?, leb, ◌||◌, Option-cases, Bool-cases, ◌⊎◌, ◌^◌, inl,
  inr,
}
use s3d.Object.{Obj, Table, Tex, failed, nodata, obj_valid}
use s3d.Object.Texture.{obj_load_tex, load_into, Copy, copies}

module _ {F : Type 0} where
  -- what a call of `obj_load_tex` comes to when it draws
  pub record Draws (t : Table F) (oid tex x y w h : ℕ) (pixbuf : List ℕ) : Type 0 where
    pub obj : Obj F
    pub tx : Tex
    pub buf : List ℕ
    pub cs : List Copy
    pub is_obj : obj_valid t oid ≡ some obj
    pub data_allowed : nodata obj ≡ false
    pub is_tex : get_elem? obj.p_tex tex ≡ some tx
    pub in_range : leb obj.n_tex tex ≡ false
    pub has_buf : tx.buf ≡ some buf
    pub is_cs : copies tx x y w h ≡ some cs
    pub result : obj_load_tex t oid tex x y w h pixbuf ≡ load_into t oid obj tex tx buf cs pixbuf

  -- `obj_load_tex` draws, or returns -1 and changes nothing.
  pub load_tex-cases :
      (t : Table F) (oid tex x y w h : ℕ) (pixbuf : List ℕ)
      → (obj_load_tex t oid tex x y w h pixbuf ≡ (failed, t)) ⊎ Draws t oid tex x y w h pixbuf
  unfolding obj_load_tex
  load_tex-cases t oid tex x y w h pixbuf = elim (Option-cases (obj_valid t oid)) [
    | inl e ↦ inl (rw (e, obj_load_tex))
    | inr (obj, e) ↦ elim (Bool-cases (nodata obj || leb (2 ^ 31) tex || leb obj.n_tex tex)) [
      | inl g ↦ inl (rw (e, obj_load_tex) (rw g))
      | inr g ↦ elim (Option-cases (get_elem? obj.p_tex tex)) [
        | inl e1 ↦ inl (rw (e, obj_load_tex) (rw (g, e1)))
        | inr (tx, e1) ↦ elim (Option-cases tx.buf) [
          | inl e2 ↦ inl (rw (e, obj_load_tex) (rw (g, e1) (rw e2)))
          | inr (buf, e2) ↦ elim (Option-cases (copies tx x y w h)) [
            | inl e3 ↦ inl (rw (e, obj_load_tex) (rw (g, e1) (rw (e2, e3))))
            | inr (cs, e3) ↦ inr (record {
              obj = obj;
              tx = tx;
              buf = buf;
              cs = cs;
              is_obj = e;
              data_allowed = ground arith;
              is_tex = e1;
              in_range = ground arith;
              has_buf = e2;
              is_cs = e3;
              result = rw (e, obj_load_tex) (rw (g, e1) (rw (e2, e3)));
            })
          ]
        ]
      ]
    ]
  ]
