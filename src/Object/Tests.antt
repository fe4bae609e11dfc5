-- ===== src/Object/Tests.antt =====
-- The operations on objects at small inputs. A float is a natural number.
use mathlib.Core.Path.{subst}
use s3d.Base.{
  sym, ap, some_of_eq, zero, suc, ℕ, ◌+◌, ◌*◌, ◌<◌, ◌≡◌, refl, arith, true, false, ◌==◌, none, some,
  List, [], ◌∷◌, length, replicate,
}
use s3d.Object.{Floats, Vertex, Rgba, Mat, Tex, Obj, Table, minus_one, nodata, obj_valid}
use s3d.Object.Sizes.{IsSized, AllSized}
use s3d.Object.Request
use s3d.Object.Push.{obj_push_mat, obj_push_poly, obj_push_line}
use s3d.Object.Del.{obj_del_mat, obj_del_poly, obj_del_line}
use s3d.Object.Texture.{Copy, copies, rows, extent, narrow_diff}
use s3d.Object.Bounds.{IsTexture, AllWithin, copies_escape}
use s3d.Object.Textures.{obj_push_tex}
use s3d.Object.Drawable.{IsDrawable, AllDrawable}
use s3d.Object.Memory.{HasBuffers, push_tex-HasBuffers, load_tex_within}
use s3d.Object.Arrays.{del-push}

abbrev naturals : Floats ℕ
naturals = record {
  zero_f = 0;
  add = λ a b. a + b;
  mul = λ a b. a * b;
  div = λ a b. a;
  sqrt = λ a. a;
  is_zero = λ a. a == 0;
}

abbrev junk : ℕ → ℕ → ℕ
junk i j = 0

abbrev grey : Rgba ℕ
grey = record { r = 5; g = 5; b = 5; a = 9 }

abbrev stone : Mat ℕ
stone = record { amb = grey; spec = grey; diff = grey; tex = minus_one }

abbrev origin : Vertex ℕ
origin = record { x = 0; y = 0; z = 0 }

abbrev tile : Tex
tile = record {
  tw = 2;
  th = 2;
  w = 2;
  h = 2;
  buf = some (replicate 16 7);
  shmid = minus_one;
  gl_texnum = minus_one;
}

abbrev box : Obj ℕ
box = record {
  oflags = 0;
  virtual_pid = 0;
  clone_ooid = 0;
  n_vertex = 1;
  n_mat = 2;
  n_poly = 0;
  n_tex = 3;
  n_line = 0;
  dplist = 4;
  linkid = minus_one;
  lsub = minus_one;
  lnext = minus_one;
  lprev = minus_one;
  p_vertex = origin ∷ [];
  p_mat = stone ∷ stone ∷ [];
  p_poly = [];
  p_line = [];
  p_tex = tile ∷ tile ∷ tile ∷ [];
  translate = origin;
  rotate = origin;
  scale = 1;
  r = 0;
  o_r = 0;
}

abbrev table : Table ℕ
table = some box ∷ none ∷ some (record box { dplist = 0 }) ∷ []

abbrev floats : List ℕ
floats = 1 ∷ 2 ∷ 3 ∷ 4 ∷ 5 ∷ 6 ∷ 7 ∷ 8 ∷ 9 ∷ 10 ∷ 11 ∷ 12 ∷ []

box-IsSized : IsSized box
box-IsSized = record { vertices = refl; mats = refl; polys = refl; lines = refl; texs = refl }

far-IsSized : IsSized (record box { dplist = 0 })
far-IsSized = record { vertices = refl; mats = refl; polys = refl; lines = refl; texs = refl }

table-AllSized : AllSized table
unfolding obj_valid
table-AllSized zero o e = subst (λ (o : Obj ℕ). IsSized o) (some_of_eq e) box-IsSized
table-AllSized (suc zero) o e = absurd (cc e)
table-AllSized (suc (suc zero)) o e = subst (λ (o : Obj ℕ). IsSized o) (some_of_eq e) far-IsSized
table-AllSized (suc (suc (suc i))) o e = absurd (cc e)

box-found : obj_valid table 0 ≡ some box
unfolding obj_valid
box-found = refl

box-data : nodata box ≡ false
unfolding nodata
box-data = refl

del-push_example :
    (obj_valid (obj_del_mat true (obj_push_mat naturals true table 0 floats 1).1 0 1).1 0
      ≡ some (record box { dplist = 0 }))
    × (obj_valid
          (obj_del_poly true
            (obj_push_poly naturals junk true table 0 (1 ∷ 2 ∷ 3 ∷ 0 ∷ []) 1).1
            0
            1).1
          0
        ≡ some (record box { dplist = 0 }))
    × (obj_valid
          (obj_del_line true (obj_push_line naturals true table 0 (1 ∷ 2 ∷ 3 ∷ 0 ∷ []) 1).1 0 1).1
          0
        ≡ some (record box { dplist = 0 }))
del-push_example =
    del-push naturals junk table 0 1 floats (1 ∷ 2 ∷ 3 ∷ 0 ∷ []) box-found box-data box-IsSized

tile-IsTexture : IsTexture tile
tile-IsTexture = record {
  width = omega arith;
  height = omega arith;
  some_width = omega arith;
  width_max = omega arith;
  height_max = omega arith;
}

-- a request of three by three pixels at the place (1, 0): one pixel of each of two rows fits
abbrev clipped : List Copy
clipped = record { dest = 4; src = 0; size = 4 } ∷ record { dest = 12; src = 12; size = 4 } ∷ []

copies-tile : copies tile 1 0 3 3 ≡ some clipped
unfolding copies rows extent narrow_diff
copies-tile = refl

abbrev large : Tex
large = record tile { tw = 4096; th = 4096; w = 4096; h = 4096 }

large-IsTexture : IsTexture large
large-IsTexture = record {
  width = omega arith;
  height = omega arith;
  some_width = omega arith;
  width_max = omega arith;
  height_max = omega arith;
}

copies_escape_example :
    (c : Copy) × (cs : List Copy) × (copies large 40000 4085 1 1 ≡ some (c ∷ cs))
    × (4 * (4096 * 4096) < c.dest + c.size)
copies_escape_example =
    copies_escape large 40000 4085 1 0 large-IsTexture (omega arith) (omega arith) (omega arith)
      (omega arith) (omega arith)

tile-IsDrawable : IsDrawable tile
tile-IsDrawable b e = (tile-IsTexture, ap length (sym (some_of_eq e)))

tiles-AllDrawable : AllDrawable (tile ∷ tile ∷ tile ∷ [])
tiles-AllDrawable = (tile-IsDrawable, (tile-IsDrawable, (tile-IsDrawable, tt)))

table-HasBuffers : HasBuffers table
unfolding obj_valid
table-HasBuffers zero o e =
    subst (λ (o : Obj ℕ). AllDrawable o.p_tex) (some_of_eq e) tiles-AllDrawable
table-HasBuffers (suc zero) o e = absurd (cc e)
table-HasBuffers (suc (suc zero)) o e =
    subst (λ (o : Obj ℕ). AllDrawable o.p_tex) (some_of_eq e) tiles-AllDrawable
table-HasBuffers (suc (suc (suc i))) o e = absurd (cc e)

-- a texture of five by three pixels, and one without height
abbrev sizes : List ℕ
sizes = 5 ∷ 3 ∷ 7 ∷ 0 ∷ []

push_tex-HasBuffers_example :
    AllSized (obj_push_tex (λ i. none) (λ i. (9, 9)) (λ i. tile) true table 0 sizes 2).1
    × HasBuffers (obj_push_tex (λ i. none) (λ i. (9, 9)) (λ i. tile) true table 0 sizes 2).1
push_tex-HasBuffers_example =
    push_tex-HasBuffers (λ i. none) (λ i. (9, 9)) (λ i. tile) true table 0 sizes 2 table-AllSized
      table-HasBuffers

load_tex_within_example : AllWithin 16 36 clipped
load_tex_within_example =
    load_tex_within table 0 1 1 0 3 3 (replicate 36 8) table-HasBuffers box-found refl refl
      copies-tile (omega arith) (omega arith) (omega arith)
