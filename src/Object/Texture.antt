-- ===== src/Object/Texture.antt =====
-- The textures of an object: `texture_delete`, `obj_del_tex`, `obj_update_tex` and `obj_load_tex` of
-- server/object.c. What goes to OpenGL and to the shared memory calls is not part of the state.
use s3d.Base.{
  ℕ, zero, suc, ◌+◌, ◌-◌, ◌*◌, ◌%◌, ◌^◌, ◌||◌, Bool, Option, none, some, List, [], ◌∷◌, ◌++◌, map,
  take, drop, blit, set, get_elem?, if◌then◌else◌, ltb, leb, ◌==◌,
}
use s3d.Object.{minus_one, Tex, Obj, Table, Status, done, failed, nodata, obj_valid}
use s3d.Object.Data.{with_obj, unless_nodata, free_dplist}

-- `texture_delete`: the segment or the memory of the pixels is given back. (The `free` leaves the
-- pointer as it is; the caller drops the texture.)
unfoldable pub texture_delete : Tex → Tex
texture_delete tex =
    if tex.shmid == minus_one then tex else record tex { buf = none; shmid = minus_one }

-- the textures from the number `k` on deleted
unfoldable pub delete_from : ℕ → List Tex → List Tex
unfolding texture_delete
delete_from k ts = take k ts ++ map texture_delete (drop k ts)

-- One `memcpy` of `obj_load_tex`, in bytes.
pub record Copy : Type 0 where
  pub dest : ℕ
  pub src : ℕ
  pub size : ℕ

-- the `int16_t` that `tw - x` or `w` is stored in, by its bit pattern
unfoldable pub narrow_diff : ℕ → ℕ → ℕ
narrow_diff a b = (a + 2 ^ 16 - b) % 2 ^ 16

-- `mw`, and with the other extents `mh`
unfoldable pub extent : ℕ → ℕ → ℕ → ℕ
unfolding narrow_diff
extent limit at size = if ltb limit (at + size) then narrow_diff limit at else size

-- the rounds of `for (i = 0; i < mh; i++)`, `k` of them left, with the `break`
unfoldable pub rows : Tex → ℕ → ℕ → ℕ → ℕ → ℕ → ℕ → List Copy
rows t x y w mw zero i = []
rows t x y w mw (suc k) i =
    let rest = rows t x y w mw k (suc i) in
    let p1 = (y + i) * t.w + x in
    if ltb (t.w * t.th + t.tw) p1
    then []
    else record { dest = 4 * p1; src = 4 * i * w; size = 4 * mw } ∷ rest

-- The `memcpy` calls of `obj_load_tex` for a texture, or `none` where it returns -1 because there is
-- nothing to do.
unfoldable pub copies : Tex → ℕ → ℕ → ℕ → ℕ → Option (List Copy)
unfolding rows extent
copies t x y w h =
    let mw = extent t.tw x w in
    let mh = extent t.th y h in
    if (mw == 0) || leb (2 ^ 15) mw
    then none
    else some (rows t x y w mw (if leb (2 ^ 15) mh then 0 else mh) 0)

-- The copies carried out, from `pixbuf` into the buffer of the texture, where they stay in both. (The
-- code does not test that: a part outside, which it reads and writes all the same, is left out here.)
unfoldable pub draw : List Copy → List ℕ → List ℕ → List ℕ
draw [] pixbuf buf = buf
draw (c ∷ cs) pixbuf buf = draw cs pixbuf (blit buf c.dest (take c.size (drop c.src pixbuf)))

module _ {F : Type 0} where
  -- As it is written: the branch that keeps some textures sets `n_tex` to `n`, where its sisters
  -- subtract `n`.
  unfoldable pub obj_del_tex : Bool → Table F → ℕ → ℕ → Status × Table F
  unfolding with_obj unless_nodata free_dplist delete_from
  obj_del_tex mem t oid n = with_obj t oid λ obj. unless_nodata obj (
      let m = obj.n_tex in
      if leb m n
      then (done, record obj { n_tex = 0; p_tex = [] })
      else if ltb 0 n
      then (
        done,
        if mem
            then record (free_dplist obj) {
              p_tex = take (m - n) (delete_from (m - n) obj.p_tex);
              n_tex = n;
            }
            else record obj { p_tex = delete_from (m - n) obj.p_tex },
      )
      else (done, obj))

  -- `obj_update_tex`: the display list is dropped; OpenGL gets the pixels.
  unfoldable pub obj_update_tex : Table F → ℕ → ℕ → Status × Table F
  unfolding with_obj unless_nodata free_dplist
  obj_update_tex t oid tid = with_obj t oid λ obj.
      unless_nodata obj
        (if leb (2 ^ 31) tid || leb obj.n_tex tid then (failed, obj) else (done, free_dplist obj))

  -- what `obj_load_tex` does with the texture and its buffer; then comes `obj_update_tex`
  unfoldable pub load_into :
      Table F → ℕ → Obj F → ℕ → Tex → List ℕ → List Copy → List ℕ → Status × Table F
  unfolding obj_update_tex draw
  load_into t oid obj tex tx buf cs pixbuf =
      let drawn = record tx { buf = some (draw cs pixbuf buf) } in
      let t' = set t oid (some (record obj { p_tex = set obj.p_tex tex drawn })) in
      (done, (obj_update_tex t' oid tex).1)

  -- For a texture that the array has, or that is not below `n_tex`. (Below `n_tex` and past the array,
  -- as after `obj_del_tex`, the code takes what lies there for a texture; here it is as if that had no
  -- buffer.)
  unfoldable pub obj_load_tex : Table F → ℕ → ℕ → ℕ → ℕ → ℕ → ℕ → List ℕ → Status × Table F
  unfolding load_into copies
  obj_load_tex t oid tex x y w h pixbuf = elim (obj_valid t oid) [
    | none ↦ (failed, t)
    | some obj ↦
        if nodata obj || leb (2 ^ 31) tex || leb obj.n_tex tex
        then (failed, t)
        else elim (get_elem? obj.p_tex tex) [
          | none ↦ (failed, t)
          | some tx ↦ elim tx.buf [
            | none ↦ (failed, t)
            | some buf ↦ elim (copies tx x y w h) [
              | none ↦ (failed, t)
              | some cs ↦ load_into t oid obj tex tx buf cs pixbuf
            ]
          ]
        ]
  ]
