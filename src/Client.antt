-- ===== src/Client.antt =====
-- The calls of libs3d/proto_out.c that send one packet. A packet is the command byte and the bytes
-- that `net_send` puts behind the header. A float is its bit pattern. An object id is an `int`, given
-- by its bit pattern too.
pub mod Fragments
pub mod Whole
pub mod Loads
pub mod Queue
pub mod Handout
pub mod Picture
mod Tests
use s3d.Base.{
  ℕ, ◌+◌, ◌*◌, Option, none, some, List, [], ◌∷◌, ◌++◌, length, if◌then◌else◌, ltb, replicate,
  get_or,
}
use s3d.Wire.{put16, put32, htonlb}

abbrev pub Packet : Type 0
Packet = ℕ × List ℕ

-- the bit pattern of 1.0
abbrev pub one_f : ℕ
one_f = 0x3F800000

-- maximum fragmentation length
abbrev pub mf_len : ℕ
mf_len = 65530

unfoldable pub s3d_clone_target : ℕ → ℕ → Packet
s3d_clone_target oid toid = (5, put32 oid ++ put32 toid)

unfoldable pub s3d_del_object : ℕ → Packet
s3d_del_object oid = (4, put32 oid)

unfoldable pub s3d_link : ℕ → ℕ → Packet
s3d_link oid_from oid_to = (6, put32 oid_from ++ put32 oid_to)

unfoldable pub s3d_unlink : ℕ → Packet
s3d_unlink oid = (6, put32 oid)

unfoldable pub s3d_push_vertex : ℕ → ℕ → ℕ → ℕ → Packet
s3d_push_vertex object x y z = (8, put32 object ++ htonlb (x ∷ y ∷ z ∷ []))

unfoldable pub s3d_push_material : ℕ → ℕ → ℕ → ℕ → ℕ → ℕ → ℕ → ℕ → ℕ → ℕ → Packet
s3d_push_material object amb_r amb_g amb_b spec_r spec_g spec_b diff_r diff_g diff_b = (
  9,
  put32 object
      ++ htonlb (
          amb_r ∷ amb_g ∷ amb_b ∷ one_f ∷ spec_r ∷ spec_g ∷ spec_b ∷ one_f ∷ diff_r ∷ diff_g
          ∷ diff_b ∷ one_f ∷ []),
)

unfoldable pub s3d_push_material_a : ℕ → ℕ → ℕ → ℕ → ℕ → ℕ → ℕ → ℕ → ℕ → ℕ → ℕ → ℕ → ℕ → Packet
s3d_push_material_a object amb_r amb_g amb_b amb_a spec_r spec_g spec_b spec_a diff_r diff_g diff_b
      diff_a =
    (
      9,
      put32 object
          ++ htonlb (
              amb_r ∷ amb_g ∷ amb_b ∷ amb_a ∷ spec_r ∷ spec_g ∷ spec_b ∷ spec_a ∷ diff_r ∷ diff_g
              ∷ diff_b ∷ diff_a ∷ []),
    )

unfoldable pub s3d_push_polygon : ℕ → ℕ → ℕ → ℕ → ℕ → Packet
s3d_push_polygon object v1 v2 v3 material =
    (10, put32 object ++ (put32 v1 ++ (put32 v2 ++ (put32 v3 ++ put32 material))))

unfoldable pub s3d_push_line : ℕ → ℕ → ℕ → ℕ → Packet
s3d_push_line object v1 v2 material =
    (7, put32 object ++ (put32 v1 ++ (put32 v2 ++ put32 material)))

unfoldable pub s3d_push_texture : ℕ → ℕ → ℕ → Packet
s3d_push_texture object w h = (11, put32 object ++ (put16 w ++ put16 h))

unfoldable pub s3d_pop_vertex : ℕ → ℕ → Packet
s3d_pop_vertex object n = (12, put32 object ++ put32 n)

unfoldable pub s3d_pop_material : ℕ → ℕ → Packet
s3d_pop_material object n = (14, put32 object ++ put32 n)

unfoldable pub s3d_pop_polygon : ℕ → ℕ → Packet
s3d_pop_polygon object n = (13, put32 object ++ put32 n)

unfoldable pub s3d_pop_line : ℕ → ℕ → Packet
s3d_pop_line object n = (22, put32 object ++ put32 n)

unfoldable pub s3d_pop_texture : ℕ → ℕ → Packet
s3d_pop_texture object n = (15, put32 object ++ put32 n)

unfoldable pub s3d_pep_material : ℕ → ℕ → ℕ → ℕ → ℕ → ℕ → ℕ → ℕ → ℕ → ℕ → Packet
s3d_pep_material object amb_r amb_g amb_b spec_r spec_g spec_b diff_r diff_g diff_b = (
  18,
  put32 object
      ++ htonlb (
          amb_r ∷ amb_g ∷ amb_b ∷ one_f ∷ spec_r ∷ spec_g ∷ spec_b ∷ one_f ∷ diff_r ∷ diff_g
          ∷ diff_b ∷ one_f ∷ []),
)

unfoldable pub s3d_pep_material_a : ℕ → ℕ → ℕ → ℕ → ℕ → ℕ → ℕ → ℕ → ℕ → ℕ → ℕ → ℕ → ℕ → Packet
s3d_pep_material_a object amb_r amb_g amb_b amb_a spec_r spec_g spec_b spec_a diff_r diff_g diff_b
      diff_a =
    (
      18,
      put32 object
          ++ htonlb (
              amb_r ∷ amb_g ∷ amb_b ∷ amb_a ∷ spec_r ∷ spec_g ∷ spec_b ∷ spec_a ∷ diff_r ∷ diff_g
              ∷ diff_b ∷ diff_a ∷ []),
    )

-- What the calls for many elements share: -1 if the data does not fit in one packet, and else the
-- packet of the id and `n` groups of `k` numbers, which are the whole buffer.
unfoldable pub pep_many : ℕ → ℕ → ℕ → List ℕ → ℕ → Option Packet
pep_many command k object buf n =
    if ltb mf_len (n * k * 4 + 4) then none else some (command, put32 object ++ htonlb buf)

unfoldable pub s3d_pep_materials_a : ℕ → List ℕ → ℕ → Option Packet
s3d_pep_materials_a object mbuf n = pep_many 18 12 object mbuf n

unfoldable pub s3d_pep_polygon_normals : ℕ → List ℕ → ℕ → Option Packet
s3d_pep_polygon_normals object nbuf n = pep_many 16 9 object nbuf n

-- The test is the one for nine numbers a line, though six are sent.
unfoldable pub s3d_pep_line_normals : ℕ → List ℕ → ℕ → Option Packet
s3d_pep_line_normals object nbuf n =
    if ltb mf_len (n * 9 * 4 + 4) then none else some (23, put32 object ++ htonlb nbuf)

unfoldable pub s3d_pep_vertex : ℕ → ℕ → ℕ → ℕ → Packet
s3d_pep_vertex object x y z = (20, put32 object ++ htonlb (x ∷ y ∷ z ∷ []))

unfoldable pub s3d_pep_line : ℕ → ℕ → ℕ → ℕ → Packet
s3d_pep_line object v1 v2 material =
    (21, put32 object ++ (put32 v1 ++ (put32 v2 ++ put32 material)))

-- The loop puts `lbuf[0]` into each of the `3 * n` places.
unfoldable pub s3d_pep_lines : ℕ → List ℕ → ℕ → Option Packet
s3d_pep_lines object lbuf n =
    if ltb mf_len (n * 3 * 4 + 4)
    then none
    else some (21, put32 object ++ htonlb (replicate (3 * n) (get_or lbuf 0 0)))

unfoldable pub s3d_pep_vertices : ℕ → List ℕ → ℕ → Option Packet
s3d_pep_vertices object vbuf n = pep_many 20 3 object vbuf n

unfoldable pub s3d_pep_polygon_tex_coord : ℕ → ℕ → ℕ → ℕ → ℕ → ℕ → ℕ → Packet
s3d_pep_polygon_tex_coord object x1 y1 x2 y2 x3 y3 =
    (17, put32 object ++ htonlb (x1 ∷ y1 ∷ x2 ∷ y2 ∷ x3 ∷ y3 ∷ []))

-- The test leaves the four bytes of the id out.
unfoldable pub s3d_pep_polygon_tex_coords : ℕ → List ℕ → ℕ → Option Packet
s3d_pep_polygon_tex_coords object tbuf n =
    if ltb mf_len (n * 6 * 4) then none else some (17, put32 object ++ htonlb tbuf)

unfoldable pub s3d_pep_material_texture : ℕ → ℕ → Packet
s3d_pep_material_texture object tex = (19, put32 object ++ put32 tex)

unfoldable pub s3d_update_texture : ℕ → ℕ → ℕ → ℕ → ℕ → ℕ → Packet
s3d_update_texture object tex xpos ypos w h =
    (29, put32 object ++ (put32 tex ++ (put16 xpos ++ (put16 ypos ++ (put16 w ++ put16 h)))))

unfoldable pub s3d_flags_on : ℕ → ℕ → Packet
s3d_flags_on object flags = (32, put32 object ++ (1 ∷ put32 flags))

unfoldable pub s3d_flags_off : ℕ → ℕ → Packet
s3d_flags_off object flags = (32, put32 object ++ (2 ∷ put32 flags))

unfoldable pub s3d_translate : ℕ → ℕ → ℕ → ℕ → Packet
s3d_translate object x y z = (33, put32 object ++ htonlb (x ∷ y ∷ z ∷ []))

unfoldable pub s3d_rotate : ℕ → ℕ → ℕ → ℕ → Packet
s3d_rotate object x y z = (34, put32 object ++ htonlb (x ∷ y ∷ z ∷ []))

unfoldable pub s3d_scale : ℕ → ℕ → Packet
s3d_scale object s = (35, put32 object ++ htonlb (s ∷ []))

unfoldable pub s3d_mcp_focus : ℕ → Packet
s3d_mcp_focus object = (66, put32 object)
