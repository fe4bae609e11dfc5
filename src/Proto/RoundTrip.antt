-- ===== src/Proto/RoundTrip.antt =====
-- How `prot_com_in` of server/proto.c reads the packets about one element or one object that
-- libs3d/proto_out.c sends.
use s3d.Base.{ℕ, ◌%◌, ◌^◌, ◌≡◌, refl, arith, ap, ap₂, true, List, [], ◌∷◌, get_or, drop}
use s3d.Wire.{put16, get16, put32, get32, htonlb, ntohlb, ntohsb}
use s3d.Wire.Words.{AllBelow, get32-put32}
use s3d.Client
use s3d.Client.{one_f}
use s3d.Object.Request
use s3d.Proto.{
  Command, decode, decode_object, decode_push, decode_pep, decode_load, decode_del, decode_place,
  counted, numbered, textures,
}
use s3d.Proto.Calls.{Call, send, numbers, meaning}

-- each number, written and read
abbrev echo : List ℕ → List ℕ
echo [] = []
echo (v ∷ vs) = get32 (put32 v) ∷ echo vs

echo-id : (vs : List ℕ) → AllBelow (2 ^ 32) vs → echo vs ≡ vs
echo-id [] h = refl
echo-id (v ∷ vs) h = ap₂ ◌∷◌ (get32-put32 v [] h.0) (echo-id vs h.1)

get16-cut : (v : ℕ) → get16 (put16 v) ≡ v % 2 ^ 16
get16-cut v = omega arith

-- The server, when the mcp is the client, reads from the packet of a call about one element or one
-- object that is there the call that was made, if its numbers have 32 bits. A number of elements to
-- delete, and the width and the height of a texture, are cut to 16 bits.
pub decode-send :
    (c : Call) → AllBelow (2 ^ 32) (numbers c) → decode true (send c).0 (send c).1 ≡ meaning c
unfolding decode decode_object decode_push decode_pep decode_load decode_del decode_place counted
    numbered send numbers meaning htonlb ntohlb Client.s3d_clone_target Client.s3d_del_object
    Client.s3d_link Client.s3d_unlink Client.s3d_push_vertex Client.s3d_push_material_a
    Client.s3d_push_polygon Client.s3d_push_line Client.s3d_pop_vertex Client.s3d_pop_material
    Client.s3d_pop_polygon Client.s3d_pop_line Client.s3d_pop_texture Client.s3d_pep_material_a
    Client.s3d_pep_vertex Client.s3d_pep_line Client.s3d_pep_polygon_tex_coord
    Client.s3d_pep_material_texture Client.s3d_flags_on Client.s3d_flags_off Client.s3d_translate
    Client.s3d_rotate Client.s3d_scale Client.s3d_mcp_focus Client.s3d_push_material
    Client.s3d_pep_material Client.s3d_push_texture textures ntohsb
decode-send (Call.clone_target a b) h =
    ap (λ v. Command.clone (get_or v 0 0) (get_or v 1 0))
      (echo-id (numbers (Call.clone_target a b)) h)
decode-send (Call.link a b) h =
    ap (λ v. Command.link (get_or v 0 0) (get_or v 1 0)) (echo-id (numbers (Call.link a b)) h)
decode-send (Call.del_object a) h =
    ap (λ v. Command.del_obj (get_or v 0 0)) (echo-id (numbers (Call.del_object a)) h)
decode-send (Call.unlink a) h =
    ap (λ v. Command.unlink (get_or v 0 0)) (echo-id (numbers (Call.unlink a)) h)
decode-send (Call.mcp_focus a) h =
    ap (λ v. Command.focus (get_or v 0 0)) (echo-id (numbers (Call.mcp_focus a)) h)
decode-send (Call.push_vertex a x y z) h =
    ap (λ v. Command.push_vertex (get_or v 0 0) (drop 1 v) 1)
      (echo-id (numbers (Call.push_vertex a x y z)) h)
decode-send (Call.pep_vertex a x y z) h =
    ap (λ v. Command.pep_vertex (get_or v 0 0) (drop 1 v) 1)
      (echo-id (numbers (Call.pep_vertex a x y z)) h)
decode-send (Call.translate a x y z) h =
    ap (λ v. Command.translate (get_or v 0 0) (get_or v 1 0) (get_or v 2 0) (get_or v 3 0))
      (echo-id (numbers (Call.translate a x y z)) h)
decode-send (Call.rotate a x y z) h =
    ap (λ v. Command.rotate (get_or v 0 0) (get_or v 1 0) (get_or v 2 0) (get_or v 3 0))
      (echo-id (numbers (Call.rotate a x y z)) h)
decode-send (Call.push_material_a o a b c d e f g h i j k l) hh =
    ap (λ v. Command.on_data (Request.push_mat (get_or v 0 0) (drop 1 v) 1))
      (echo-id (numbers (Call.push_material_a o a b c d e f g h i j k l)) hh)
decode-send (Call.pep_material_a o a b c d e f g h i j k l) hh =
    ap (λ v. Command.on_data (Request.pep_mat (get_or v 0 0) (drop 1 v) 1))
      (echo-id (numbers (Call.pep_material_a o a b c d e f g h i j k l)) hh)
decode-send (Call.push_polygon o a b c m) h =
    ap (λ v. Command.on_data (Request.push_poly (get_or v 0 0) (drop 1 v) 1))
      (echo-id (numbers (Call.push_polygon o a b c m)) h)
decode-send (Call.push_line o a b m) h =
    ap (λ v. Command.on_data (Request.push_line (get_or v 0 0) (drop 1 v) 1))
      (echo-id (numbers (Call.push_line o a b m)) h)
decode-send (Call.pep_line o a b m) h =
    ap (λ v. Command.on_data (Request.pep_line (get_or v 0 0) (drop 1 v) 1))
      (echo-id (numbers (Call.pep_line o a b m)) h)
decode-send (Call.pop_vertex o n) h =
    ap (λ v. Command.del_vertex (get_or v 0 0) (get_or v 1 0 % 2 ^ 16))
      (echo-id (numbers (Call.pop_vertex o n)) h)
decode-send (Call.pop_material o n) h =
    ap (λ v. Command.on_data (Request.del_mat (get_or v 0 0) (get_or v 1 0 % 2 ^ 16)))
      (echo-id (numbers (Call.pop_material o n)) h)
decode-send (Call.pop_polygon o n) h =
    ap (λ v. Command.on_data (Request.del_poly (get_or v 0 0) (get_or v 1 0 % 2 ^ 16)))
      (echo-id (numbers (Call.pop_polygon o n)) h)
decode-send (Call.pop_line o n) h =
    ap (λ v. Command.on_data (Request.del_line (get_or v 0 0) (get_or v 1 0 % 2 ^ 16)))
      (echo-id (numbers (Call.pop_line o n)) h)
decode-send (Call.pop_texture o n) h =
    ap (λ v. Command.on_data (Request.del_tex (get_or v 0 0) (get_or v 1 0 % 2 ^ 16)))
      (echo-id (numbers (Call.pop_texture o n)) h)
decode-send (Call.pep_polygon_tex_coord o a b c d e f) h =
    ap (λ v. Command.on_data (Request.pep_poly_texc (get_or v 0 0) (drop 1 v) 1))
      (echo-id (numbers (Call.pep_polygon_tex_coord o a b c d e f)) h)
decode-send (Call.pep_material_texture o t) h =
    ap (λ v. Command.on_data (Request.pep_mat_tex (get_or v 0 0) (drop 1 v) 1))
      (echo-id (numbers (Call.pep_material_texture o t)) h)
decode-send (Call.flags_on o f) h =
    ap (λ v. Command.on_data (Request.toggle_flags (get_or v 0 0) 1 (get_or v 1 0)))
      (echo-id (numbers (Call.flags_on o f)) h)
decode-send (Call.flags_off o f) h =
    ap (λ v. Command.on_data (Request.toggle_flags (get_or v 0 0) 2 (get_or v 1 0)))
      (echo-id (numbers (Call.flags_off o f)) h)
decode-send (Call.scale o x) h =
    ap (λ v. Command.scale (get_or v 0 0) (get_or v 1 0)) (echo-id (numbers (Call.scale o x)) h)
decode-send (Call.push_material o a b c d e f g h i) hh =
    ap
      (λ v. Command.on_data (
        Request.push_mat (get_or v 0 0)
          (get_or v 1 0
            ∷ get_or v 2 0
            ∷ get_or v 3 0
            ∷ one_f
            ∷ get_or v 4 0
            ∷ get_or v 5 0
            ∷ get_or v 6 0
            ∷ one_f
            ∷ get_or v 7 0
            ∷ get_or v 8 0
            ∷ get_or v 9 0
            ∷ one_f
            ∷ [])
          1))
      (echo-id (numbers (Call.push_material o a b c d e f g h i)) hh)
decode-send (Call.pep_material o a b c d e f g h i) hh =
    ap
      (λ v. Command.on_data (
        Request.pep_mat (get_or v 0 0)
          (get_or v 1 0
            ∷ get_or v 2 0
            ∷ get_or v 3 0
            ∷ one_f
            ∷ get_or v 4 0
            ∷ get_or v 5 0
            ∷ get_or v 6 0
            ∷ one_f
            ∷ get_or v 7 0
            ∷ get_or v 8 0
            ∷ get_or v 9 0
            ∷ one_f
            ∷ [])
          1))
      (echo-id (numbers (Call.pep_material o a b c d e f g h i)) hh)
decode-send (Call.push_texture o w h) hh =
    ap₂ (λ i v. Command.push_tex i v 1) (get32-put32 o [] hh.0)
      (ap₂ (λ a b. a ∷ b ∷ []) (get16-cut w) (get16-cut h))
