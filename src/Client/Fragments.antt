-- ===== src/Client/Fragments.antt =====
-- The calls of libs3d/proto_out.c that cut their data into fragments, each with the id of the object
-- in front, and the `s3d_load_` calls, which put the position of the first element behind it.
use s3d.Base.{
  ℕ, zero, suc, ◌+◌, ◌-◌, ◌*◌, ◌/◌, ◌%◌, ◌^◌, Option, none, some, List, [], ◌∷◌, ◌++◌,
  if◌then◌else◌, ltb, take, drop, map,
}
use s3d.Wire.{put32, htonlb, htonsb}
use s3d.Client.{Packet, mf_len}

-- What the loops share: the bytes of the numbers in front, the bytes of one number, and the numbers
-- of one element.
pub record Shape : Type 0 where
  pub head : ℕ
  pub unit : ℕ
  pub numbers : ℕ

-- `stepl`: the bytes of a full fragment
abbrev pub stepl : Shape → ℕ
stepl s = (mf_len - s.head) / (s.unit * s.numbers) * (s.unit * s.numbers)

-- `len`
abbrev pub len : Shape → ℕ → ℕ
len s n = n * s.unit * s.numbers

-- `f`: the number of fragments
abbrev pub fragments : Shape → ℕ → ℕ
fragments s n = len s n / (mf_len - s.head) + 1

-- `flen`: the bytes of fragment `i`
unfoldable pub flen : Shape → ℕ → ℕ → ℕ
flen s n i = if ltb (stepl s) (len s n - i * stepl s) then stepl s else len s n - i * stepl s

-- the numbers of fragment `i`
unfoldable pub part : Shape → List ℕ → ℕ → ℕ → List ℕ
unfolding flen
part s buf n i = take (flen s n i / s.unit) (drop (i * stepl s / s.unit) buf)

-- the loop from fragment `i` on, `left` fragments being left
unfoldable pub parts : Shape → List ℕ → ℕ → ℕ → ℕ → List (List ℕ)
unfolding part
parts s buf n zero i = []
parts s buf n (suc left) i = part s buf n i ∷ parts s buf n left (suc i)

-- the packets of a call that pushes: none, and -1, without elements
unfoldable pub push_many : ℕ → Shape → (List ℕ → List ℕ) → ℕ → List ℕ → ℕ → Option (List Packet)
unfolding parts
push_many command s to_net object buf n =
    if ltb n 1
    then none
    else some (map (λ xs. (command, put32 object ++ to_net xs)) (parts s buf n (fragments s n) 0))

abbrev pub vertices_shape : Shape
vertices_shape = record { head = 4; unit = 4; numbers = 3 }

abbrev pub materials_shape : Shape
materials_shape = record { head = 4; unit = 4; numbers = 12 }

abbrev pub polygons_shape : Shape
polygons_shape = record { head = 4; unit = 4; numbers = 4 }

abbrev pub lines_shape : Shape
lines_shape = record { head = 4; unit = 4; numbers = 3 }

abbrev pub textures_shape : Shape
textures_shape = record { head = 4; unit = 2; numbers = 2 }

unfoldable pub s3d_push_vertices : ℕ → List ℕ → ℕ → Option (List Packet)
unfolding push_many
s3d_push_vertices object vbuf n = push_many 8 vertices_shape htonlb object vbuf n

unfoldable pub s3d_push_materials_a : ℕ → List ℕ → ℕ → Option (List Packet)
unfolding push_many
s3d_push_materials_a object mbuf n = push_many 9 materials_shape htonlb object mbuf n

unfoldable pub s3d_push_polygons : ℕ → List ℕ → ℕ → Option (List Packet)
unfolding push_many
s3d_push_polygons object pbuf n = push_many 10 polygons_shape htonlb object pbuf n

unfoldable pub s3d_push_lines : ℕ → List ℕ → ℕ → Option (List Packet)
unfolding push_many
s3d_push_lines object lbuf n = push_many 7 lines_shape htonlb object lbuf n

unfoldable pub s3d_push_textures : ℕ → List ℕ → ℕ → Option (List Packet)
unfolding push_many
s3d_push_textures object tbuf n = push_many 11 textures_shape htonsb object tbuf n

-- the loop of a call that loads: `mstart` grows by the bytes of a full fragment
unfoldable pub load_packets : ℕ → Shape → ℕ → ℕ → List (List ℕ) → List Packet
load_packets command s object mstart [] = []
load_packets command s object mstart (xs ∷ rest) =
    (command, put32 object ++ (put32 mstart ++ htonlb xs))
    ∷ load_packets command s object ((mstart + stepl s) % 2 ^ 32) rest

-- the packets of a call that loads: none, and -1, without elements
unfoldable pub load_many : ℕ → Shape → ℕ → List ℕ → ℕ → ℕ → Option (List Packet)
unfolding parts load_packets
load_many command s object buf start n =
    if ltb n 1
    then none
    else some (load_packets command s object start (parts s buf n (fragments s n) 0))

abbrev pub nine_shape : Shape
nine_shape = record { head = 8; unit = 4; numbers = 9 }

abbrev pub six_shape : Shape
six_shape = record { head = 8; unit = 4; numbers = 6 }

abbrev pub twelve_shape : Shape
twelve_shape = record { head = 8; unit = 4; numbers = 12 }

unfoldable pub s3d_load_polygon_normals : ℕ → List ℕ → ℕ → ℕ → Option (List Packet)
unfolding load_many
s3d_load_polygon_normals object nbuf start n = load_many 24 nine_shape object nbuf start n

unfoldable pub s3d_load_line_normals : ℕ → List ℕ → ℕ → ℕ → Option (List Packet)
unfolding load_many
s3d_load_line_normals object nbuf start n = load_many 30 six_shape object nbuf start n

unfoldable pub s3d_load_polygon_tex_coords : ℕ → List ℕ → ℕ → ℕ → Option (List Packet)
unfolding load_many
s3d_load_polygon_tex_coords object tbuf start n = load_many 25 six_shape object tbuf start n

unfoldable pub s3d_load_materials_a : ℕ → List ℕ → ℕ → ℕ → Option (List Packet)
unfolding load_many
s3d_load_materials_a object mbuf start n = load_many 26 twelve_shape object mbuf start n
