-- ===== src/Proto.antt =====
-- `prot_com_in` of server/proto.c: how the server reads a packet of a client, up to the call that it
-- makes. A packet is its command byte and the `length` bytes behind the header; `length` is the
-- length of the list. A float stays the bit pattern that is on the wire. Logging is left out.
pub mod Calls
pub mod Packets
pub mod Many
pub mod Bands
pub mod Pictures
pub mod RoundTrip
mod Tests
use s3d.Base.{
  ℕ, ◌+◌, ◌-◌, ◌*◌, ◌/◌, ◌%◌, ◌^◌, ◌&&◌, Bool, List, [], ◌∷◌, ◌++◌, length, take, drop, get_or,
  if◌then◌else◌, ltb, leb, ◌==◌, min, replicate,
}
use s3d.Wire.{get16, get32, ntohlb, ntohsb}
use s3d.Object.Request.{Request}
use s3d.Object.Request

-- the calls that a packet leads to; those on the data of one object are a `Request`
pub data Command : Type 0 where
  init : List ℕ → Command
  quit new_obj : Command
  del_obj unlink focus : ℕ → Command
  clone link : ℕ → ℕ → Command
  push_vertex pep_vertex : ℕ → List ℕ → ℕ → Command
  push_tex : ℕ → List ℕ → ℕ → Command
  del_vertex : ℕ → ℕ → Command
  on_data : Request ℕ → Command
  translate rotate : ℕ → ℕ → ℕ → ℕ → Command
  scale : ℕ → ℕ → Command
  -- the packet is ignored
  nothing : Command

-- `oid`, `toid`, `x`, `y`, `w` and `h` at their places in the buffer
abbrev pub long_at : ℕ → List ℕ → ℕ
long_at k buf = get32 (drop k buf)

abbrev pub short_at : ℕ → List ℕ → ℕ
short_at k buf = get16 (drop k buf)

-- `if (length > 4)`: an id and as many groups of `k` numbers of four bytes as there are
unfoldable pub counted : ℕ → (ℕ → List ℕ → ℕ → Command) → List ℕ → Command
counted k call buf =
    let num = (length buf - 4) / (4 * k) in
    if ltb 4 (length buf) then call (long_at 0 buf) (ntohlb (drop 4 buf) (num * k)) num else nothing

-- `if (length > 8)`: an id, a position, and as many groups as there are
unfoldable pub positioned : ℕ → (ℕ → List ℕ → ℕ → ℕ → Command) → List ℕ → Command
positioned k call buf =
    let num = (length buf - 8) / (k * 4) in
    if ltb 8 (length buf)
    then call (long_at 0 buf) (ntohlb (drop 8 buf) (num * k)) (long_at 4 buf) num
    else nothing

-- `if (length == 8)`: an id and a number, which is kept in a `uint16_t`
unfoldable pub numbered : (ℕ → ℕ → Command) → List ℕ → Command
numbered call buf =
    if length buf == 8 then call (long_at 0 buf) (long_at 4 buf % 2 ^ 16) else nothing

-- `name`: at most 255 bytes up to the first zero byte. The array is zero behind them.
unfoldable pub c_string : ℕ → List ℕ → List ℕ
c_string n [] = []
c_string n (b ∷ bs) =
    let rest = c_string (n - 1) bs in if (b == 0) then [] else if n == 0 then [] else b ∷ rest

-- the commands about whole objects
unfoldable pub decode_object : ℕ → List ℕ → Command → Command
unfolding c_string
decode_object command buf other =
    if command == 1
    then init (c_string 255 (take 256 buf))
    else if command == 3
    then new_obj
    else if command == 4
    then if length buf == 4 then del_obj (long_at 0 buf) else nothing
    else if command == 5
    then if length buf == 8 then clone (long_at 0 buf) (long_at 4 buf) else nothing
    else if command == 6
    then if length buf == 4
      then unlink (long_at 0 buf)
      else if length buf == 8
      then link (long_at 0 buf) (long_at 4 buf)
      else nothing
    else if command == 2
    then quit
    else other

-- `case S3D_P_C_PUSH_TEX`
unfoldable pub textures : List ℕ → Command
textures buf =
    let num = (length buf - 4) / (2 * 2) in
    if ltb 4 (length buf)
    then push_tex (long_at 0 buf) (ntohsb (drop 4 buf) (num * 2)) num
    else nothing

-- the commands that append
unfoldable pub decode_push : ℕ → List ℕ → Command → Command
unfolding counted textures
decode_push command buf other =
    if command == 8
    then counted 3 push_vertex buf
    else if command == 9
    then counted 12 (λ oid x n. on_data (Request.push_mat oid x n)) buf
    else if command == 10
    then counted 4 (λ oid x n. on_data (Request.push_poly oid x n)) buf
    else if command == 7
    then counted 3 (λ oid x n. on_data (Request.push_line oid x n)) buf
    else if command == 11
    then textures buf
    else other

-- the commands that overwrite the last elements
unfoldable pub decode_pep : ℕ → List ℕ → Command → Command
unfolding counted
decode_pep command buf other =
    if command == 16
    then counted 9 (λ oid x n. on_data (Request.pep_poly_normal oid x n)) buf
    else if command == 23
    then counted 6 (λ oid x n. on_data (Request.pep_line_normal oid x n)) buf
    else if command == 17
    then counted 6 (λ oid x n. on_data (Request.pep_poly_texc oid x n)) buf
    else if command == 18
    then counted 12 (λ oid x n. on_data (Request.pep_mat oid x n)) buf
    else if command == 20
    then counted 3 pep_vertex buf
    else if command == 19
    then counted 1 (λ oid x n. on_data (Request.pep_mat_tex oid x n)) buf
    else if command == 21
    then counted 3 (λ oid x n. on_data (Request.pep_line oid x n)) buf
    else other

-- `case S3D_P_C_LOAD_TEX`. The product of width and height is an `int`: the test for the size is one
-- of numbers modulo 2 ^ 32.
unfoldable pub pixels : List ℕ → Command
pixels buf =
    let w = short_at 12 buf in
    let h = short_at 14 buf in
    if ltb 16 (length buf) && ((w * h * 4) % 2 ^ 32 == length buf - 16)
    then on_data (
        Request.load_tex (long_at 0 buf) (long_at 4 buf) (short_at 8 buf) (short_at 10 buf) w h
          (drop 16 buf))
    else nothing

-- the commands that overwrite elements at a position, and those for the pixels of a texture
unfoldable pub decode_load : ℕ → List ℕ → Command → Command
unfolding positioned pixels
decode_load command buf other =
    if command == 30
    then positioned 6 (λ oid x start n. on_data (Request.load_line_normal oid x start n)) buf
    else if command == 24
    then positioned 9 (λ oid x start n. on_data (Request.load_poly_normal oid x start n)) buf
    else if command == 25
    then positioned 6 (λ oid x start n. on_data (Request.load_poly_texc oid x start n)) buf
    else if command == 26
    then positioned 12 (λ oid x start n. on_data (Request.load_mat oid x start n)) buf
    else if command == 28
    then pixels buf
    else if command == 29
    then if length buf == 16
      then on_data (Request.update_tex (long_at 0 buf) (long_at 4 buf))
      else nothing
    else other

-- the commands that delete the last elements
unfoldable pub decode_del : ℕ → List ℕ → Command → Command
unfolding numbered
decode_del command buf other =
    if command == 12
    then numbered del_vertex buf
    else if command == 13
    then numbered (λ oid n. on_data (Request.del_poly oid n)) buf
    else if command == 22
    then numbered (λ oid n. on_data (Request.del_line oid n)) buf
    else if command == 14
    then numbered (λ oid n. on_data (Request.del_mat oid n)) buf
    else if command == 15
    then numbered (λ oid n. on_data (Request.del_tex oid n)) buf
    else other

-- the flags, the place of an object, and the focus, which only the mcp (pid 0) may set
unfoldable pub decode_place : Bool → ℕ → List ℕ → Command
decode_place from_mcp command buf =
    if command == 32
    then if length buf == 9
      then on_data (Request.toggle_flags (long_at 0 buf) (get_or buf 4 0) (long_at 5 buf))
      else nothing
    else if command == 33
    then if leb 16 (length buf)
      then translate (long_at 0 buf) (long_at 4 buf) (long_at 8 buf) (long_at 12 buf)
      else nothing
    else if command == 34
    then if leb 16 (length buf)
      then rotate (long_at 0 buf) (long_at 4 buf) (long_at 8 buf) (long_at 12 buf)
      else nothing
    else if command == 35
    then if leb 8 (length buf) then scale (long_at 0 buf) (long_at 4 buf) else nothing
    else if command == 66
    then if from_mcp && (length buf == 4) then focus (long_at 0 buf) else nothing
    else nothing

-- the `switch` of `prot_com_in`
unfoldable pub decode : Bool → ℕ → List ℕ → Command
unfolding decode_object decode_push decode_pep decode_load decode_del decode_place
decode from_mcp command buf = decode_object command buf (
    decode_push command buf (
      decode_pep command buf
        (decode_load command buf (decode_del command buf (decode_place from_mcp command buf)))))
