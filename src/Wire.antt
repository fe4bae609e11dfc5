-- ===== src/Wire.antt =====
-- Numbers in network byte order: `htonl`, `ntohl`, `htons` and `ntohs` on the buffers of the protocol,
-- and the loops over them of server/endian.c and libs3d/endian.c. A float is its bit pattern, which
-- `htonfb` and `ntohfb` turn round as they do an integer.
pub mod Words
mod Tests
use s3d.Base.{ℕ, zero, suc, ◌+◌, ◌*◌, ◌/◌, ◌%◌, List, [], ◌∷◌, ◌++◌, drop, get_or}

-- the bytes of a 16 bit and of a 32 bit number, most significant first
abbrev pub put16 : ℕ → List ℕ
put16 v = (v / 256 % 256) ∷ (v % 256) ∷ []

abbrev pub put32 : ℕ → List ℕ
put32 v = (v / 16777216 % 256) ∷ (v / 65536 % 256) ∷ (v / 256 % 256) ∷ (v % 256) ∷ []

-- the number at the front of a buffer
abbrev pub get16 : List ℕ → ℕ
get16 buf = get_or buf 0 0 * 256 + get_or buf 1 0

abbrev pub get32 : List ℕ → ℕ
get32 buf =
    get_or buf 0 0 * 16777216 + get_or buf 1 0 * 65536 + get_or buf 2 0 * 256 + get_or buf 3 0

-- `htonlb`, `htonfb`: a buffer of 32 bit numbers
unfoldable pub htonlb : List ℕ → List ℕ
htonlb [] = []
htonlb (v ∷ vs) = put32 v ++ htonlb vs

-- `ntohlb (buf, num)`, `ntohfb (buf, num)`
unfoldable pub ntohlb : List ℕ → ℕ → List ℕ
ntohlb buf zero = []
ntohlb buf (suc num) = get32 buf ∷ ntohlb (drop 4 buf) num

-- `htonsb`, `ntohsb`: a buffer of 16 bit numbers
unfoldable pub htonsb : List ℕ → List ℕ
htonsb [] = []
htonsb (v ∷ vs) = put16 v ++ htonsb vs

unfoldable pub ntohsb : List ℕ → ℕ → List ℕ
ntohsb buf zero = []
ntohsb buf (suc num) = get16 buf ∷ ntohsb (drop 2 buf) num
