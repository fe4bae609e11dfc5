-- ===== src/Wire/Words.antt =====
-- The conversions of server/endian.c and libs3d/endian.c, there and back.
use s3d.Base.{ℕ, zero, suc, ◌*◌, ◌^◌, ◌<◌, ◌≡◌, refl, ap₂, arith, List, [], ◌∷◌, ◌++◌, length}
use s3d.Wire.{put16, put32, get16, get32, htonlb, ntohlb, htonsb, ntohsb}

-- every number of the list is below `bound`
abbrev pub AllBelow : ℕ → List ℕ → Type 0
AllBelow bound [] = Unit
AllBelow bound (v ∷ vs) = (v < bound) × AllBelow bound vs

pub get32-put32 : (v : ℕ) (rest : List ℕ) → v < 2 ^ 32 → get32 (put32 v ++ rest) ≡ v
get32-put32 v rest h = omega arith

pub get16-put16 : (v : ℕ) (rest : List ℕ) → v < 2 ^ 16 → get16 (put16 v ++ rest) ≡ v
get16-put16 v rest h = omega arith

pub length-htonlb : (vs : List ℕ) → length (htonlb vs) ≡ 4 * length vs
unfolding htonlb
length-htonlb [] = refl
length-htonlb (v ∷ vs) = omega (arith, length-htonlb vs)

pub ntohlb-htonlb :
    (vs : List ℕ) (n : ℕ) (rest : List ℕ)
    → AllBelow (2 ^ 32) vs
    → n ≡ length vs
    → ntohlb (htonlb vs ++ rest) n ≡ vs
unfolding htonlb ntohlb
ntohlb-htonlb [] zero rest b e = refl
ntohlb-htonlb [] (suc n) rest b e = absurd (omega arith)
ntohlb-htonlb (v ∷ vs) zero rest b e = absurd (omega arith)
ntohlb-htonlb (v ∷ vs) (suc n) rest b e =
    ap₂ ◌∷◌ (get32-put32 v (htonlb vs ++ rest) b.0) (ntohlb-htonlb vs n rest b.1 (omega arith))

pub ntohsb-htonsb :
    (vs : List ℕ) (n : ℕ) (rest : List ℕ)
    → AllBelow (2 ^ 16) vs
    → n ≡ length vs
    → ntohsb (htonsb vs ++ rest) n ≡ vs
unfolding htonsb ntohsb
ntohsb-htonsb [] zero rest b e = refl
ntohsb-htonsb [] (suc n) rest b e = absurd (omega arith)
ntohsb-htonsb (v ∷ vs) zero rest b e = absurd (omega arith)
ntohsb-htonsb (v ∷ vs) (suc n) rest b e =
    ap₂ ◌∷◌ (get16-put16 v (htonsb vs ++ rest) b.0) (ntohsb-htonsb vs n rest b.1 (omega arith))
