-- ===== src/Proto/Tests.antt =====
-- Packets of libs3d read by the server at small inputs.
use s3d.Base.{false, ℕ, zero, suc, ◌^◌, ◌<◌, ◌≡◌, refl, arith, true, some, List, [], ◌∷◌, length}
use s3d.Client.{Packet}
use s3d.Wire.Words.{AllBelow}
use s3d.Proto.{decode}
use s3d.Proto.Calls.{send, meaning, numbers}
use s3d.Proto.Calls
use s3d.Proto.RoundTrip.{decode-send}
use s3d.Client.Picture.{s3d_load_texture}
use s3d.Proto.Pictures.{Covers, read_all, load_texture-Covers}
use s3d.Proto.Many.{push, received, vertices, push-received, push-loses}

abbrev triangle : Calls.Call
triangle = Calls.push_polygon 7 0 1 2 4000000000

triangle-fits : AllBelow (2 ^ 32) (numbers triangle)
unfolding numbers
triangle-fits = (omega arith, (omega arith, (omega arith, (omega arith, (omega arith, tt)))))

decode-send_example : decode true (send triangle).0 (send triangle).1 ≡ meaning triangle
decode-send_example = decode-send triangle triangle-fits

-- two vertices
abbrev floats : List ℕ
floats = 1 ∷ 2 ∷ 3 ∷ 4 ∷ 5 ∷ 6 ∷ []

floats-fit : AllBelow (2 ^ 32) floats
floats-fit =
    (omega arith, (omega arith, (omega arith, (omega arith, (omega arith, (omega arith, tt))))))

push-received_example :
    (ps : List Packet) × (push vertices 7 floats 2 ≡ some ps) × (received vertices 7 ps ≡ floats)
push-received_example =
    push-received vertices 7 floats 2 (omega arith) floats-fit refl (omega arith) (omega arith)

-- an array of `n` fives
unfoldable fives : ℕ → List ℕ
fives zero = []
fives (suc n) = 5 ∷ fives n

length-fives : (n : ℕ) → length (fives n) ≡ n
unfolding fives
length-fives zero = refl
length-fives (suc n) = omega (arith, length-fives n)

fives-fit : (n : ℕ) → AllBelow (2 ^ 32) (fives n)
unfolding fives
fives-fit zero = tt
fives-fit (suc n) = (omega arith, fives-fit n)

-- 16381 vertices
push-loses_example :
    (ps : List Packet) × (push vertices 7 (fives 49143) 16381 ≡ some ps)
    × (length (received vertices 7 ps) < length (fives 49143))
push-loses_example =
    push-loses vertices 7 (fives 49143) 16381 (omega arith) (fives-fit 49143) (length-fives 49143)
      (omega arith) (omega arith)

-- a picture of two by one pixels
load_texture-Covers_example :
    (ps : List Packet) × (s3d_load_texture false 7 0 3 4 2 1 (fives 8) ≡ some ps)
    × Covers 7 0 3 2 4 (fives 8) (read_all ps)
load_texture-Covers_example =
    load_texture-Covers 7 0 3 4 2 1 (fives 8) (omega arith) (omega arith) (omega arith)
      (omega arith) (omega arith) (omega arith) (omega arith) (length-fives 8)
