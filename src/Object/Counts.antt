-- ===== src/Object/Counts.antt =====
-- The counters of the objects under the requests of the clients.
use s3d.Base.{
  ℕ, ◌-◌, ◌<◌, ◌≡◌, refl, arith, Bool, true, false, some, List, [], ◌∷◌, map, drop, length,
  length-append, length-drop, take, length-take,
}
use s3d.Object.{Obj, Tex, Table, nodata, obj_valid}
use s3d.Object.Data.{free_dplist}
use s3d.Object.Frame.{with_obj-some, obj_valid-set}
use s3d.Object.Sizes.{IsSized}
use s3d.Object.Texture.{obj_del_tex, delete_from, texture_delete}
use s3d.Object.Request.{Request}
use s3d.Object.Keeps

-- the request that `obj_del_tex` serves
abbrev pub deletes_tex : {F : Type 0} → Request F → Bool
deletes_tex (Request.del_tex oid n) = true
deletes_tex q = false

length-map : {A B : Type 0} (f : A → B) (xs : List A) → length (map f xs) ≡ length xs
length-map f [] = refl
length-map f (x ∷ xs) = omega (arith, length-map f xs)

length-delete_from : (k : ℕ) (ts : List Tex) → length (delete_from k ts) ≡ length ts
unfolding delete_from
length-delete_from k ts = omega (
  arith,
  length-append (take k ts) (map texture_delete (drop k ts)),
  length-map texture_delete (drop k ts),
  length-take k ts,
  length-drop k ts,
)

module _ {F : Type 0} where
  -- Where `obj_del_tex` deletes `n` of the `n_tex` textures of an object and keeps some, the counter
  -- becomes `n`, while `n_tex - n` textures are left. So the two differ unless half were deleted.
  pub del_tex_miscounts :
      (t : Table F) (oid n : ℕ) {o : Obj F}
      → obj_valid t oid ≡ some o
      → nodata o ≡ false
      → IsSized o
      → 0 < n
      → n < o.n_tex
      → (o' : Obj F) × (obj_valid (obj_del_tex true t oid n).1 oid ≡ some o')
        × (o'.n_tex ≡ n)
        × (length o'.p_tex ≡ o.n_tex - n)
  unfolding obj_del_tex
  del_tex_miscounts t oid n {o} e d v lo hi =
      let o' : Obj F = record (free_dplist o) {
        p_tex = take (o.n_tex - n) (delete_from (o.n_tex - n) o.p_tex);
        n_tex = n;
      } in
      (
        o',
        rw (with_obj-some t oid _ e) (ground (arith, obj_valid-set t oid oid o' e)),
        refl,
        omega (
          arith,
          length-take (o.n_tex - n) (delete_from (o.n_tex - n) o.p_tex),
          length-delete_from (o.n_tex - n) o.p_tex,
        ),
      )
