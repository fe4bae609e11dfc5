-- ===== src/Object/Clones/Tests.antt =====
-- Clones in small tables. A float is a natural number.
use s3d.Base.{ℕ, zero, suc, ◌≡◌, refl, arith, true, some, [], ◌∷◌}
use s3d.Object.{minus_one, Obj, Table, Vertex, done, failed, obj_valid}
use s3d.Object.Clones.{of_clone, of_clone_src, obj_clone_change}
use s3d.Object.Clones.Flags.{flags}
use s3d.Object.Clones.Chains.{IsCloned, obj_clone_change-IsCloned}

abbrev point : Vertex ℕ
point = record { x = 0; y = 0; z = 0 }

abbrev thing : ℕ → ℕ → ℕ → Obj ℕ
thing marks origin vertices = record {
  oflags = marks;
  virtual_pid = 0;
  clone_ooid = origin;
  n_vertex = vertices;
  n_mat = 0;
  n_poly = 0;
  n_tex = 0;
  n_line = 0;
  dplist = 0;
  linkid = minus_one;
  lsub = minus_one;
  lnext = minus_one;
  lprev = minus_one;
  p_vertex = [];
  p_mat = [];
  p_poly = [];
  p_line = [];
  p_tex = [];
  translate = point;
  rotate = point;
  scale = 1;
  r = 0;
  o_r = 0;
}

-- a clone of 1, the object 1, and an empty object
abbrev cloned : Table ℕ
cloned = some (thing of_clone 1 0) ∷ some (thing of_clone_src 0 3) ∷ some (thing 0 0 0) ∷ []

clone_of_clone : obj_clone_change cloned 2 0 ≡ (failed, cloned)
unfolding obj_clone_change obj_valid
clone_of_clone = refl

clone_of_source : obj_clone_change cloned 2 1 ≡ (
  done,
  some (thing of_clone 1 0) ∷ some (thing of_clone_src 0 3) ∷ some (thing of_clone 1 0) ∷ [],
)
unfolding obj_clone_change obj_valid
clone_of_source = refl

cloned-IsCloned : IsCloned (flags cloned)
unfolding flags obj_valid
cloned-IsCloned zero c s = (refl, refl, refl)
cloned-IsCloned (suc zero) c s = ground arith
cloned-IsCloned (suc (suc zero)) c s = ground arith
cloned-IsCloned (suc (suc (suc i))) c s = ground arith

obj_clone_change-IsCloned_example :
    IsCloned (flags (obj_clone_change cloned 2 1).1)
    × ((flags cloned 2).there ≡ true
        → (flags cloned 1).there ≡ true
        → (obj_clone_change cloned 2 1).0 ≡ done
        → ((flags (obj_clone_change cloned 2 1).1 2).clone ≡ true)
          × ((flags (obj_clone_change cloned 2 1).1 2).origin ≡ 1))
obj_clone_change-IsCloned_example = obj_clone_change-IsCloned cloned 2 1 cloned-IsCloned
