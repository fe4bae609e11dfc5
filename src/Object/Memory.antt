-- ===== src/Object/Memory.antt =====
-- The buffers of the textures: `obj_push_tex`, and the operations of server/object.c on textures one
-- by one.
use s3d.Base.{
  some_of_eq, ℕ, zero, suc, ap, [], ◌∷◌, length-append, ◌-◌, ◌*◌, ◌^◌, ◌≤◌, ◌<◌, ◌≡◌, refl, sym,
  ◌∙◌, arith, Bool, true, false, Bool-cases, Option-cases, inl, inr, Option, some, List, length,
  set, get_elem?, if◌then◌else◌, ltb, leb, ◌==◌,
}
use s3d.Object.{Tex, Obj, Table, Status, obj_valid, nodata}
use s3d.Object.Data.{gather, unless_nodata, with_obj}
use s3d.Object.Frame.{obj_valid-set}
use s3d.Object.Sizes.{IsSized, AllSized, set-AllSized, length-gather}
use s3d.Object.Texture.{Copy, copies, obj_del_tex, obj_update_tex, obj_load_tex, load_into}
use s3d.Object.Textures.{obj_push_tex, up_to, new_tex}
use s3d.Object.Bounds.{AllWithin, copies_within}
use s3d.Object.Drawable.{AllDrawable, AllDrawable-append, gather-AllDrawable}
use s3d.Object.Buffers.{AllDrawable-get, AllDrawable-set, drawn-IsDrawable, delete_from-AllDrawable}
use s3d.Object.Draws.{load_tex-cases}
use s3d.Object.Flags.{obj_toggle_flags, toggle}

-- the textures of every object are drawable
abbrev pub HasBuffers : {F : Type 0} → Table F → Type 0
HasBuffers {F} t = (i : ℕ) (o : Obj F) → obj_valid t i ≡ some o → AllDrawable o.p_tex

up_to-id : (gap : ℕ → Tex) (i m : ℕ) (ts : List Tex) → m ≡ length ts → up_to gap i m ts ≡ ts
unfolding up_to
up_to-id gap i zero [] e = refl
up_to-id gap i zero (tx ∷ ts) e = absurd (omega arith)
up_to-id gap i (suc m) [] e = absurd (omega arith)
up_to-id gap i (suc m) (tx ∷ ts) e = ap (λ l. tx ∷ l) (up_to-id gap (suc i) m ts (omega arith))

AllWithin-longer : (a b b' : ℕ) (cs : List Copy) → b ≤ b' → AllWithin a b cs → AllWithin a b' cs
AllWithin-longer a b b' [] le h = tt
AllWithin-longer a b b' (c ∷ cs) le h = (h.0, omega arith, AllWithin-longer a b b' cs le h.2)

module _ {F : Type 0} where
  set-HasBuffers :
      (t : Table F) (oid : ℕ) {o : Obj F} (o' : Obj F)
      → obj_valid t oid ≡ some o
      → AllDrawable o'.p_tex
      → HasBuffers t
      → HasBuffers (set t oid (some o'))
  set-HasBuffers t oid {o} o' e s h i x p = elim (Bool-cases (oid == i)) [
    | inl same ↦
        let here : some o' ≡ some x = sym (obj_valid-set t oid i o' e ∙ rw same refl) ∙ p in
        rw (← some_of_eq here) s
    | inr other ↦ h i x (sym (obj_valid-set t oid i o' e ∙ rw other refl) ∙ p)
  ]

  with_obj-HasBuffers :
      (t : Table F) (oid : ℕ) (body : Obj F → Status × Obj F)
      → ((o : Obj F) → AllDrawable o.p_tex → AllDrawable (body o).1.p_tex)
      → HasBuffers t
      → HasBuffers (with_obj t oid body).1
  unfolding with_obj
  with_obj-HasBuffers t oid body keep h = elim (Option-cases (obj_valid t oid)) [
    | inl e ↦ rw (e, with_obj) h
    | inr (o, e) ↦ rw (e, with_obj) (set-HasBuffers t oid (body o).1 e (keep o (h oid o e)) h)
  ]

  pub same-HasBuffers :
      (t : Table F) (oid : ℕ) (body : Obj F → Status × Obj F)
      → ((o : Obj F) → (body o).1.p_tex ≡ o.p_tex)
      → HasBuffers t
      → HasBuffers (with_obj t oid body).1
  same-HasBuffers t oid body same = with_obj-HasBuffers t oid body λ o h. rw (same o) h

  if-kept :
      (b : Bool) (x y : Status × Obj F)
      → AllDrawable x.1.p_tex
      → AllDrawable y.1.p_tex
      → AllDrawable (if b then x else y).1.p_tex
  if-kept true x y h k = h
  if-kept false x y h k = k

  -- A change of one object that keeps it both sized and drawable.
  with_obj-both :
      (t : Table F) (oid : ℕ) (body : Obj F → Status × Obj F)
      → ((o : Obj F)
          → IsSized o
          → AllDrawable o.p_tex
          → IsSized (body o).1 × AllDrawable (body o).1.p_tex)
      → AllSized t
      → HasBuffers t
      → AllSized (with_obj t oid body).1 × HasBuffers (with_obj t oid body).1
  unfolding with_obj
  with_obj-both t oid body keep z h = elim (Option-cases (obj_valid t oid)) [
    | inl e ↦ rw (e, with_obj) (z, h)
    | inr (o, e) ↦
        let (sized, drawable) = keep o (z oid o e) (h oid o e) in
        rw (e, with_obj)
          (set-AllSized t oid (body o).1 e sized z, set-HasBuffers t oid (body o).1 e drawable h)
  ]

  if-both :
      (b : Bool) (x y : Status × Obj F)
      → IsSized x.1 × AllDrawable x.1.p_tex
      → IsSized y.1 × AllDrawable y.1.p_tex
      → IsSized (if b then x else y).1 × AllDrawable (if b then x else y).1.p_tex
  if-both true x y h k = h
  if-both false x y h k = k

  -- `obj_push_tex` keeps the counters of every object of a table equal to the number of elements in its
  -- arrays and the textures drawable, if they are so before, whatever sizes are asked for, whether it
  -- gets segments or not, whether realloc succeeds or not, and if each malloc of a buffer succeeds.
  pub push_tex-HasBuffers :
      (shm : ℕ → Option ℕ) (junk : ℕ → ℕ × ℕ) (gap : ℕ → Tex) (mem : Bool) (t : Table F) (oid : ℕ)
      (x : List ℕ) (n : ℕ)
      → AllSized t
      → HasBuffers t
      → AllSized (obj_push_tex shm junk gap mem t oid x n).1
        × HasBuffers (obj_push_tex shm junk gap mem t oid x n).1
  unfolding obj_push_tex unless_nodata
  push_tex-HasBuffers shm junk gap mem t oid x n = with_obj-both t oid _ λ o z h.
      let new = gather n o.n_tex 2 (new_tex shm junk) x in
      let old = up_to-id gap 0 o.n_tex o.p_tex z.texs in
      if-both (nodata o) _ _ (z, h)
        (if-both mem _ _
          (rw old (
            record {
              vertices = z.vertices;
              mats = z.mats;
              polys = z.polys;
              lines = z.lines;
              texs = omega (
                arith,
                z.texs,
                length-append o.p_tex new,
                length-gather n o.n_tex 2 (new_tex shm junk) x,
              );
            },
            AllDrawable-append o.p_tex new h (gather-AllDrawable shm junk n o.n_tex x),
          ))
          (z, h))

  pub update_tex-HasBuffers :
      (t : Table F) (oid tid : ℕ) → HasBuffers t → HasBuffers (obj_update_tex t oid tid).1
  unfolding obj_update_tex
  update_tex-HasBuffers t oid tid = same-HasBuffers t oid _ λ o. ground arith

  pub load_tex-HasBuffers :
      (t : Table F) (oid tex x y w h : ℕ) (pixbuf : List ℕ)
      → HasBuffers t
      → HasBuffers (obj_load_tex t oid tex x y w h pixbuf).1
  load_tex-HasBuffers t oid tex x y w h pixbuf s = elim (load_tex-cases t oid tex x y w h pixbuf) [
    | inl e ↦ rw e s
    | inr d ↦
        let all = s oid d.obj d.is_obj in
        let new =
          drawn-IsDrawable d.tx d.buf d.cs pixbuf (AllDrawable-get d.obj.p_tex tex all d.is_tex)
            d.has_buf in
        rw d.result (
          unfold load_into in
          (update_tex-HasBuffers _ oid tex
            (set-HasBuffers t oid _ d.is_obj (AllDrawable-set d.obj.p_tex tex _ all new) s)))
  ]

  toggle-p_tex : (o : Obj F) (type f : ℕ) → (toggle o type f).1.p_tex ≡ o.p_tex
  unfolding toggle
  toggle-p_tex o type f = ground arith

  pub toggle_flags-HasBuffers :
      (t : Table F) (oid type flags : ℕ)
      → HasBuffers t
      → HasBuffers (obj_toggle_flags t oid type flags).1
  unfolding obj_toggle_flags
  toggle_flags-HasBuffers t oid type flags h = elim (Option-cases (obj_valid t oid)) [
    | inl e ↦ rw (e, obj_toggle_flags) h
    | inr (o, e) ↦
        rw (e, obj_toggle_flags)
          (set-HasBuffers t oid _ e (rw (toggle-p_tex o type _) (h oid o e)) h)
  ]

  pub del_tex-HasBuffers :
      (t : Table F) (oid n : ℕ) → HasBuffers t → HasBuffers (obj_del_tex true t oid n).1
  unfolding obj_del_tex unless_nodata
  del_tex-HasBuffers t oid n = with_obj-HasBuffers t oid _ λ o h. if-kept (nodata o) _ _ h (
      if-kept (leb o.n_tex n) _ _ tt
        (if-kept (ltb 0 n) _ _ (delete_from-AllDrawable o.p_tex (o.n_tex - n) h) h))

  -- In a table whose textures are drawable, every `memcpy` of `obj_load_tex` for a texture that the
  -- array of the object has stays in the buffer of the texture and in that of the request, for `x` up
  -- to 2 ^ 15, if that buffer has the 4 * w * h bytes of the picture.
  pub load_tex_within :
      (t : Table F) (oid tex x y w h : ℕ) (pixbuf : List ℕ) {o : Obj F} {tx : Tex} {buf : List ℕ}
      {cs : List Copy}
      → HasBuffers t
      → obj_valid t oid ≡ some o
      → get_elem? o.p_tex tex ≡ some tx
      → tx.buf ≡ some buf
      → copies tx x y w h ≡ some cs
      → x ≤ 2 ^ 15
      → y < 2 ^ 16
      → 4 * (w * h) ≤ length pixbuf
      → AllWithin (length buf) (length pixbuf) cs
  load_tex_within t oid tex x y w h pixbuf {o} {tx} {buf} {cs} s e0 e1 e2 e3 bx by long =
      let (v, l) = AllDrawable-get o.p_tex tex (s oid o e0) e1 buf e2 in
      rw l (
        AllWithin-longer (4 * (tx.w * tx.h)) (4 * (w * h)) (length pixbuf) cs long
          (copies_within tx x y w h v (omega arith) (omega arith) by e3))
