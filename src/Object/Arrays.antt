-- ===== src/Object/Arrays.antt =====
-- What pushing, overwriting and deleting does to the elements of an array.
use s3d.Base.{
  ℕ, zero, suc, ◌+◌, ◌-◌, ◌*◌, ◌^◌, ◌≤◌, ◌<◌, ◌≡◌, refl, sym, ap, ◌∙◌, arith, true, false, none,
  some, List, [], ◌∷◌, ◌++◌, ◌&&◌, length, take, drop, get_elem?, if◌then◌else◌, ltb, leb,
  length-take, append-nil,
}
use mathlib.Core.Option
use s3d.Object.{Obj, Table, Floats, nodata, obj_valid}
use s3d.Object.Data.{unless_nodata, free_dplist, gather, rewrite, rewrite_from, extend}
use s3d.Object.Frame.{with_obj-at, with_obj-allowed}
use s3d.Object.Sizes.{IsSized}
use s3d.Object.Push.{obj_push_mat, obj_push_poly, obj_push_line, new_mat, new_poly, new_line}
use s3d.Object.Pep.{put_mat}
use s3d.Object.Load.{obj_load_mat, rounds}
use s3d.Object.Del.{obj_del_mat, obj_del_poly, obj_del_line}

module _ {A : Type 0} where
  take-length-append : (xs ys : List A) → take (length xs) (xs ++ ys) ≡ xs
  take-length-append [] ys = refl
  take-length-append (x ∷ xs) ys = ap (λ r. x ∷ r) (take-length-append xs ys)

  take-length : (xs : List A) → take (length xs) xs ≡ xs
  take-length [] = refl
  take-length (x ∷ xs) = ap (λ r. x ∷ r) (take-length xs)

  -- the elements that were there are still in front
  take-extend : (xs new : List A) (m : ℕ) → m ≡ length xs → take m (extend xs m new) ≡ xs
  unfolding extend
  take-extend xs new m e = rw (e, take-length, take-length-append)

  eq-nil : (xs : List A) (m : ℕ) → m ≡ length xs → m ≡ 0 → xs ≡ []
  eq-nil [] m e z = refl
  eq-nil (x ∷ xs) m e z = absurd (omega arith)

  -- pushing nothing
  extend-gather_zero :
      {D : Type 0} (xs : List A) (n m width : ℕ) (new : ℕ → List D → A) (px : List D)
      → m ≡ length xs
      → n ≡ 0
      → extend xs m (gather n m width new px) ≡ xs
  unfolding extend gather
  extend-gather_zero xs zero m width new px e z = append-nil (take m xs) ∙ rw (e, take-length)
  extend-gather_zero xs (suc n) m width new px e z = absurd (omega arith)

module _ {F : Type 0} (fl : Floats F) (junk : ℕ → ℕ → F) where
  del-push_mat :
      (t : Table F) (oid n : ℕ) (x : List F) {o : Obj F}
      → obj_valid t oid ≡ some o
      → nodata o ≡ false
      → IsSized o
      → obj_valid (obj_del_mat true (obj_push_mat fl true t oid x n).1 oid n).1 oid
        ≡ some (record o { dplist = 0 })
  unfolding obj_del_mat obj_push_mat nodata
  del-push_mat t oid n x {o} e d v =
      with_obj-allowed _ oid _ (with_obj-allowed t oid _ e d) d
      ∙ ground (
        arith,
        take-extend o.p_mat (gather n o.n_mat 12 (new_mat fl) x) o.n_mat,
        extend-gather_zero o.p_mat n o.n_mat 12 (new_mat fl) x,
        eq-nil o.p_mat o.n_mat,
      )

  del-push_poly :
      (t : Table F) (oid n : ℕ) (x : List ℕ) {o : Obj F}
      → obj_valid t oid ≡ some o
      → nodata o ≡ false
      → IsSized o
      → obj_valid (obj_del_poly true (obj_push_poly fl junk true t oid x n).1 oid n).1 oid
        ≡ some (record o { dplist = 0 })
  unfolding obj_del_poly obj_push_poly nodata
  del-push_poly t oid n x {o} e d v =
      with_obj-allowed _ oid _ (with_obj-allowed t oid _ e d) d
      ∙ ground (
        arith,
        take-extend o.p_poly (gather n o.n_poly 4 (new_poly fl junk) x) o.n_poly,
        extend-gather_zero o.p_poly n o.n_poly 4 (new_poly fl junk) x,
        eq-nil o.p_poly o.n_poly,
      )

  del-push_line :
      (t : Table F) (oid n : ℕ) (x : List ℕ) {o : Obj F}
      → obj_valid t oid ≡ some o
      → nodata o ≡ false
      → IsSized o
      → obj_valid (obj_del_line true (obj_push_line fl true t oid x n).1 oid n).1 oid
        ≡ some (record o { dplist = 0 })
  unfolding obj_del_line obj_push_line nodata
  del-push_line t oid n x {o} e d v =
      with_obj-allowed _ oid _ (with_obj-allowed t oid _ e d) d
      ∙ ground (
        arith,
        take-extend o.p_line (gather n o.n_line 3 (new_line fl) x) o.n_line,
        extend-gather_zero o.p_line n o.n_line 3 (new_line fl) x,
        eq-nil o.p_line o.n_line,
      )

  -- Deleting as many elements as were pushed restores the object, but for its display list, which
  -- is gone: of materials, polygons and lines alike.
  pub del-push :
      (t : Table F) (oid n : ℕ) (x : List F) (u : List ℕ) {o : Obj F}
      → obj_valid t oid ≡ some o
      → nodata o ≡ false
      → IsSized o
      → (obj_valid (obj_del_mat true (obj_push_mat fl true t oid x n).1 oid n).1 oid
          ≡ some (record o { dplist = 0 }))
        × (obj_valid (obj_del_poly true (obj_push_poly fl junk true t oid u n).1 oid n).1 oid
            ≡ some (record o { dplist = 0 }))
        × (obj_valid (obj_del_line true (obj_push_line fl true t oid u n).1 oid n).1 oid
            ≡ some (record o { dplist = 0 }))
  del-push t oid n x u e d v =
      (del-push_mat t oid n x e d v, del-push_poly t oid n u e d v, del-push_line t oid n u e d v)

module _ {A : Type 0} where
  drop-nil : (k : ℕ) → drop {A = A} k [] ≡ []
  drop-nil zero = refl
  drop-nil (suc k) = refl

  drop-drop : (m n : ℕ) (xs : List A) → drop (m + n) xs ≡ drop n (drop m xs)
  drop-drop zero n xs = ap (λ k. drop k xs) (omega arith)
  drop-drop (suc m) n [] = drop-nil (suc m + n) ∙ sym (drop-nil n)
  drop-drop (suc m) n (x ∷ xs) =
      ap (λ k. drop k (x ∷ xs)) (let e : suc m + n ≡ suc (m + n) = omega arith in e)
      ∙ drop-drop m n xs

  get_elem?-past : (xs : List A) (i : ℕ) → length xs ≤ i → get_elem? xs i ≡ none
  get_elem?-past [] i h = refl
  get_elem?-past (x ∷ xs) zero h = absurd (omega arith)
  get_elem?-past (x ∷ xs) (suc i) h = get_elem?-past xs i (omega arith)

  get_elem?-append :
      (xs ys : List A) (i : ℕ)
      → get_elem? (xs ++ ys) i
        ≡ (if ltb i (length xs) then get_elem? xs i else get_elem? ys (i - length xs))
  get_elem?-append [] ys i = ground arith
  get_elem?-append (x ∷ xs) ys zero = ground arith
  get_elem?-append (x ∷ xs) ys (suc i) = ground (arith, get_elem?-append xs ys i)

  get_elem?-take :
      (n : ℕ) (xs : List A) (i : ℕ)
      → get_elem? (take n xs) i ≡ (if ltb i n then get_elem? xs i else none)
  get_elem?-take zero xs i = ground arith
  get_elem?-take (suc n) [] i = ground arith
  get_elem?-take (suc n) (x ∷ xs) zero = ground arith
  get_elem?-take (suc n) (x ∷ xs) (suc i) = ground (arith, get_elem?-take n xs i)

  get_elem?-drop : (n : ℕ) (xs : List A) (i : ℕ) → get_elem? (drop n xs) i ≡ get_elem? xs (n + i)
  get_elem?-drop zero xs i = ap (λ k. get_elem? xs k) (omega arith)
  get_elem?-drop (suc n) [] i = refl
  get_elem?-drop (suc n) (x ∷ xs) i = ground (arith, get_elem?-drop n xs i)

module _ {A D : Type 0} (width : ℕ) (change : A → List D → A) where
  -- the change that the round number `i` makes
  abbrev pub change_at : List D → ℕ → A → A
  change_at px i a = change a (drop (width * i) px)

  drop-next : (i : ℕ) (px : List D) → drop (width * suc i) px ≡ drop (width * i) (drop width px)
  drop-next i px =
      ap (λ k. drop k px) (let e : width * suc i ≡ width + width * i = omega arith in e)
      ∙ drop-drop width (width * i) px

  get_elem?-rewrite :
      (n : ℕ) (xs : List A) (px : List D) (i : ℕ)
      → get_elem? (rewrite n width change xs px) i
        ≡ (if ltb i n then Option.map (change_at px i) (get_elem? xs i) else get_elem? xs i)
  unfolding rewrite
  get_elem?-rewrite zero xs px i = ground arith
  get_elem?-rewrite (suc n) [] px i = ground arith
  get_elem?-rewrite (suc n) (x ∷ xs) px zero =
      let e : width * 0 ≡ 0 = omega arith in rw e (ground arith)
  get_elem?-rewrite (suc n) (x ∷ xs) px (suc i) =
      ground (arith, get_elem?-rewrite n xs (drop width px) i, drop-next i px)

  -- The loop changes the `n` elements from `start` on, each by the items at its place in the
  -- buffer, and leaves the others.
  pub get_elem?-rewrite_from :
      (start n : ℕ) (xs : List A) (px : List D) (i : ℕ)
      → start ≤ length xs
      → get_elem? (rewrite_from start n width change xs px) i ≡ (
          if leb start i && ltb i (start + n)
          then Option.map (change_at px (i - start)) (get_elem? xs i)
          else get_elem? xs i)
  unfolding rewrite_from
  get_elem?-rewrite_from start n xs px i h = ground (
    arith,
    get_elem?-append (take start xs) (rewrite n width change (drop start xs) px) i,
    length-take start xs,
    get_elem?-take start xs i,
    get_elem?-rewrite n (drop start xs) px (i - start),
    get_elem?-drop start xs (i - start),
  )

module _ {F : Type 0} (fl : Floats F) where
  -- `obj_load_mat` overwrites the colours of the materials from `start` on, as many as there are but
  -- at most `n`, each by its twelve floats of the buffer, and leaves the other materials.
  pub load_mat_elements :
      (t : Table F) (oid : ℕ) (x : List F) (start n : ℕ) {o : Obj F}
      → obj_valid t oid ≡ some o
      → nodata o ≡ false
      → IsSized o
      → start ≤ o.n_mat
      → start < 2 ^ 31
      → (o' : Obj F) × (obj_valid (obj_load_mat fl t oid x start n).1 oid ≡ some o')
        × (o'.n_mat ≡ o.n_mat)
        × ((i : ℕ)
            → get_elem? o'.p_mat i ≡ (
                if leb start i && ltb i (start + n)
                then Option.map (change_at 12 (put_mat fl) x (i - start)) (get_elem? o.p_mat i)
                else get_elem? o.p_mat i))
  unfolding obj_load_mat unless_nodata rounds
  load_mat_elements t oid x start n {o} e d v lo hi = (
    record (free_dplist o) {
      p_mat = rewrite_from start (rounds o.n_mat start n) 12 (put_mat fl) o.p_mat x;
    },
    with_obj-at t oid _ e ∙ ground arith,
    refl,
    λ i. ground (
      arith,
      get_elem?-rewrite_from 12 (put_mat fl) start (rounds o.n_mat start n) o.p_mat x i,
      get_elem?-past o.p_mat i,
    ),
  )
