-- ===== src/Animation/Tests.antt =====
-- Concrete animations of widgets of libs3dw.
use s3d.Base.{
  ℕ, ◌≡◌, ◌+◌, ◌-◌, ◌⊎◌, refl, true, false, [], ◌∷◌, if◌then◌else◌, ltb, ◌==◌, count, arith,
}
use s3d.Object.{Floats}
use s3d.Animation.{Place, Widget, Animation, Limits, ani_check, ani_add, ani_mate, tcam}
use s3d.Animation.Rounds.{arrives, stepped, ani_mate-steps}
use s3d.Animation.Stack.{IsStack, ani_add-IsStack}

-- steps of one, and no distance but on the x axis
abbrev naturals : Floats ℕ
naturals = record {
  zero_f = 0;
  add = λ a b. a + b;
  mul = λ a b. a;
  div = λ a b. a - b;
  sqrt = λ a. a;
  is_zero = λ a. a == 0;
}

abbrev limits : Limits ℕ
limits = record { sub = λ a b. a - b; fabs = λ a. a; above = λ a. ltb 0 a }

abbrev origin : Place ℕ
origin = record { x = 0; y = 0; z = 0; rx = 0; ry = 0; rz = 0; s = 1 }

-- The camera and widget 4 are where they go to; widget 7 is three steps away.
abbrev widgets : ℕ → Widget ℕ
widgets j = record {
  oid = j;
  type = tcam;
  goal = origin;
  now = record origin { x = if j == 7 then 3 else 0 };
}

abbrev moving : Animation ℕ
moving = record { stack = 4 ∷ 7 ∷ []; on = true; need_arr = false; widgets = widgets }

abbrev mated : Animation ℕ
mated = ani_mate naturals limits 5 1 (λ a. a) moving

mated_stack : mated.stack ≡ 7 ∷ []
unfolding ani_mate
mated_stack = refl

mated_place : (mated.widgets 7).now.x ≡ 2
unfolding ani_mate
mated_place = refl

ani_mate-steps_example :
    (count 4 mated.stack
      ≡ (if arrives naturals 5 1 (ani_check naturals limits) (widgets 4) then 0 else 1))
    × (mated.widgets 4 ≡ stepped naturals 5 1 (ani_check naturals limits) (widgets 4))
ani_mate-steps_example = ani_mate-steps naturals limits 5 1 (λ a. a) moving (λ v. ground arith) 4

ani_add-IsStack_example :
    IsStack (ani_add naturals 5 1 moving 9).stack
    × ((count 9 (ani_add naturals 5 1 moving 9).stack ≡ 1)
        ⊎ (((ani_add naturals 5 1 moving 9).widgets 9).now ≡ origin))
ani_add-IsStack_example =
    ani_add-IsStack naturals 5 1 moving 9 refl (omega arith, λ v. ground arith)
