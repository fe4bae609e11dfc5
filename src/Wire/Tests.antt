-- ===== src/Wire/Tests.antt =====
-- The byte order conversions at small inputs.
use s3d.Base.{ℕ, ◌≡◌, refl, List, [], ◌∷◌, ◌++◌}
use s3d.Wire.{htonsb, ntohsb}

abbrev longs : List ℕ
longs = 4294967295 ∷ 65536 ∷ []

abbrev shorts : List ℕ
shorts = 65535 ∷ 256 ∷ []

shorts_there_and_back : ntohsb (htonsb shorts ++ 9 ∷ []) 2 ≡ shorts
unfolding ntohsb htonsb
shorts_there_and_back = refl
