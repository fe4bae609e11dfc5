-- ===== src/Object/Buffers.antt =====
-- What drawing into a texture and deleting one, in server/object.c, mean for the buffers of a list of
-- textures.
use s3d.Base.{
  some_of_eq, ℕ, zero, suc, ◌≡◌, refl, sym, ap, ◌∙◌, none, some, map, List, [], ◌∷◌, length, take,
  drop, set, blit, length-blit, get_elem?, ◌==◌,
}
use s3d.Object.{minus_one, Tex}
use s3d.Object.Texture.{Copy, draw, texture_delete, delete_from}
use s3d.Object.Drawable.{
  IsDrawable, AllDrawable, AllDrawable-take, AllDrawable-append, if-IsDrawable,
}

pub AllDrawable-get :
    (ts : List Tex) (i : ℕ) {t : Tex} → AllDrawable ts → get_elem? ts i ≡ some t → IsDrawable t
AllDrawable-get [] i h e = absurd (cc e)
AllDrawable-get (x ∷ ts) zero h e = rw (← some_of_eq e) h.0
AllDrawable-get (x ∷ ts) (suc i) h e = AllDrawable-get ts i h.1 e

pub AllDrawable-set :
    (ts : List Tex) (i : ℕ) (t : Tex) → AllDrawable ts → IsDrawable t → AllDrawable (set ts i t)
AllDrawable-set [] i t h k = tt
AllDrawable-set (x ∷ ts) zero t h k = (k, h.1)
AllDrawable-set (x ∷ ts) (suc i) t h k = (h.0, AllDrawable-set ts i t h.1 k)

pub texture_delete-IsDrawable : (t : Tex) → IsDrawable t → IsDrawable (texture_delete t)
unfolding texture_delete
texture_delete-IsDrawable t h =
    if-IsDrawable (t.shmid == minus_one) t (record t { buf = none; shmid = minus_one }) (λ c. h)
      (λ c b e. absurd (cc e))

pub AllDrawable-delete : (ts : List Tex) → AllDrawable ts → AllDrawable (map texture_delete ts)
AllDrawable-delete [] h = tt
AllDrawable-delete (t ∷ ts) h = (texture_delete-IsDrawable t h.0, AllDrawable-delete ts h.1)

pub AllDrawable-drop : (n : ℕ) (ts : List Tex) → AllDrawable ts → AllDrawable (drop n ts)
AllDrawable-drop zero ts h = h
AllDrawable-drop (suc n) [] h = tt
AllDrawable-drop (suc n) (t ∷ ts) h = AllDrawable-drop n ts h.1

pub delete_from-AllDrawable :
    (ts : List Tex) (k : ℕ) → AllDrawable ts → AllDrawable (take k (delete_from k ts))
unfolding delete_from
delete_from-AllDrawable ts k h = AllDrawable-take k (delete_from k ts) (
    AllDrawable-append (take k ts) _ (AllDrawable-take k ts h)
      (AllDrawable-delete (drop k ts) (AllDrawable-drop k ts h)))

pub length-draw : (cs : List Copy) (pixbuf buf : List ℕ) → length (draw cs pixbuf buf) ≡ length buf
unfolding draw
length-draw [] pixbuf buf = refl
length-draw (c ∷ cs) pixbuf buf =
    length-draw cs pixbuf (blit buf c.dest (take c.size (drop c.src pixbuf)))
    ∙ length-blit buf c.dest (take c.size (drop c.src pixbuf))

pub drawn-IsDrawable :
    (tx : Tex) (buf : List ℕ) (cs : List Copy) (pixbuf : List ℕ)
    → IsDrawable tx
    → tx.buf ≡ some buf
    → IsDrawable (record tx { buf = some (draw cs pixbuf buf) })
drawn-IsDrawable tx buf cs pixbuf h e b f =
    let (v, l) = h buf e in
    (
      record {
        width = v.width;
        height = v.height;
        some_width = v.some_width;
        width_max = v.width_max;
        height_max = v.height_max;
      },
      ap length (sym (some_of_eq f)) ∙ length-draw cs pixbuf buf ∙ l,
    )
