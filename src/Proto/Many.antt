-- ===== src/Proto/Many.antt =====
-- How `prot_com_in` of server/proto.c reads the packets of the calls of libs3d/proto_out.c that push
-- arrays of vertices, materials, polygons and lines.
use s3d.Proto.Packets.{AllBelow-take, AllBelow-drop, counted-whole}
use s3d.Base.{
  ℕ, zero, suc, ◌*◌, ◌/◌, ◌^◌, ◌≤◌, ◌<◌, ◌≡◌, refl, ap, ap₂, ◌∙◌, arith, true, ◌&&◌, ◌==◌,
  if◌then◌else◌, Option, some, map, List, [], ◌∷◌, ◌++◌, length, take, drop, length-take,
  length-drop,
}
use s3d.Wire.{put32, htonlb}
use s3d.Wire.Words.{AllBelow}
use s3d.Client.{Packet}
use s3d.Client.Fragments
use s3d.Client.Fragments.{Shape, stepl, len, part, parts, fragments, push_many}
use s3d.Client.Whole.{joined, part-eq, fragments-whole, fragments-lossy}
use s3d.Object.Request
use s3d.Proto.{Command, decode, decode_object, decode_push, counted}

-- the kinds of elements that the client pushes as arrays of numbers of four bytes
pub data Kind : Type 0 where
  vertices materials polygons lines : Kind

unfoldable pub push : Kind → ℕ → List ℕ → ℕ → Option (List Packet)
push vertices = Fragments.s3d_push_vertices
push materials = Fragments.s3d_push_materials_a
push polygons = Fragments.s3d_push_polygons
push lines = Fragments.s3d_push_lines

-- the numbers of an element
abbrev pub arity : Kind → ℕ
arity vertices = 3
arity materials = 12
arity polygons = 4
arity lines = 3

-- the command byte of the kind, and what its loop is about
abbrev pub command_of : Kind → ℕ
command_of vertices = 8
command_of materials = 9
command_of polygons = 10
command_of lines = 7

abbrev pub shape_of : Kind → Shape
shape_of vertices = Fragments.vertices_shape
shape_of materials = Fragments.materials_shape
shape_of polygons = Fragments.polygons_shape
shape_of lines = Fragments.lines_shape

-- the numbers of a command for the object, if it counts the elements that they make up
unfoldable pub elements : Kind → ℕ → ℕ → List ℕ → ℕ → List ℕ
elements kind object oid x n = if (oid == object) && (n * arity kind == length x) then x else []

-- the numbers that a command of the kind has for the object
unfoldable pub appended : Kind → ℕ → Command → List ℕ
unfolding elements
appended vertices object (Command.push_vertex oid x n) = elements vertices object oid x n
appended materials object (Command.on_data (Request.push_mat oid x n)) =
    elements materials object oid x n
appended polygons object (Command.on_data (Request.push_poly oid x n)) =
    elements polygons object oid x n
appended lines object (Command.on_data (Request.push_line oid x n)) = elements lines object oid x n
appended kind object command = []

-- what the server gets for the object from the packets
unfoldable pub received : Kind → ℕ → List Packet → List ℕ
received kind object [] = []
received kind object (p ∷ ps) =
    appended kind object (decode true p.0 p.1) ++ received kind object ps

elements-whole :
    (kind : Kind) (object : ℕ) (x : List ℕ) (n : ℕ)
    → n * arity kind ≡ length x
    → elements kind object object x n ≡ x
unfolding elements
elements-whole kind object x n e = ground (arith, e)

-- The server gets from one packet of the kind its elements, or nothing if there are none.
read-packet :
    (kind : Kind) (object : ℕ) (xs : List ℕ)
    → object < 2 ^ 32
    → AllBelow (2 ^ 32) xs
    → 4 * length xs / (4 * arity kind) * arity kind ≡ length xs
    → appended kind object (decode true (command_of kind) (put32 object ++ htonlb xs)) ≡ xs
unfolding decode decode_object decode_push appended elements counted htonlb
read-packet vertices object [] ho hx e = refl
read-packet materials object [] ho hx e = refl
read-packet polygons object [] ho hx e = refl
read-packet lines object [] ho hx e = refl
read-packet vertices object (x ∷ xs) ho hx e =
    ap (appended vertices object)
      (counted-whole 3 Command.push_vertex object (x ∷ xs) ho hx (omega arith) e)
    ∙ elements-whole vertices object (x ∷ xs) (4 * length (x ∷ xs) / (4 * 3)) e
read-packet materials object (x ∷ xs) ho hx e =
    ap (appended materials object) (
      counted-whole 12 (λ oid v n. Command.on_data (Request.push_mat oid v n)) object (x ∷ xs) ho hx
        (omega arith) e)
    ∙ elements-whole materials object (x ∷ xs) (4 * length (x ∷ xs) / (4 * 12)) e
read-packet polygons object (x ∷ xs) ho hx e =
    ap (appended polygons object) (
      counted-whole 4 (λ oid v n. Command.on_data (Request.push_poly oid v n)) object (x ∷ xs) ho hx
        (omega arith) e)
    ∙ elements-whole polygons object (x ∷ xs) (4 * length (x ∷ xs) / (4 * 4)) e
read-packet lines object (x ∷ xs) ho hx e =
    ap (appended lines object) (
      counted-whole 3 (λ oid v n. Command.on_data (Request.push_line oid v n)) object (x ∷ xs) ho hx
        (omega arith) e)
    ∙ elements-whole lines object (x ∷ xs) (4 * length (x ∷ xs) / (4 * 3)) e

-- Every fragment has whole elements.
part-whole :
    (kind : Kind) (buf : List ℕ) (n i : ℕ)
    → length buf ≡ n * arity kind
    → 4 * length (take 16380 (drop (i * 16380) buf)) / (4 * arity kind) * arity kind
      ≡ length (take 16380 (drop (i * 16380) buf))
part-whole vertices buf n i e =
    omega (arith, length-take 16380 (drop (i * 16380) buf), length-drop (i * 16380) buf)
part-whole materials buf n i e =
    omega (arith, length-take 16380 (drop (i * 16380) buf), length-drop (i * 16380) buf)
part-whole polygons buf n i e =
    omega (arith, length-take 16380 (drop (i * 16380) buf), length-drop (i * 16380) buf)
part-whole lines buf n i e =
    omega (arith, length-take 16380 (drop (i * 16380) buf), length-drop (i * 16380) buf)

shape-len :
    (kind : Kind) (buf : List ℕ) (n : ℕ)
    → length buf ≡ n * arity kind
    → len (shape_of kind) n ≡ 4 * length buf
shape-len vertices buf n e = omega arith
shape-len materials buf n e = omega arith
shape-len polygons buf n e = omega arith
shape-len lines buf n e = omega arith

shape-step : (kind : Kind) → (shape_of kind).unit ≡ 4 × stepl (shape_of kind) ≡ 65520
shape-step vertices = (refl, refl)
shape-step materials = (refl, refl)
shape-step polygons = (refl, refl)
shape-step lines = (refl, refl)

-- What the server gets from the fragments is the fragments one behind the other.
received-parts :
    (kind : Kind) (object : ℕ) (buf : List ℕ) (n left i : ℕ)
    → object < 2 ^ 32
    → AllBelow (2 ^ 32) buf
    → length buf ≡ n * arity kind
    → received kind object (
        map
          (λ xs. (command_of kind, put32 object ++ htonlb xs))
          (parts (shape_of kind) buf n left i))
      ≡ joined (parts (shape_of kind) buf n left i)
unfolding parts received
received-parts kind object buf n zero i ho hb e = refl
received-parts kind object buf n (suc left) i ho hb e =
    ap₂ ◌++◌
      (rw
        (part-eq (shape_of kind) buf n i (shape-step kind).0 (shape-step kind).1
          (shape-len kind buf n e))
        (read-packet kind object (take 16380 (drop (i * 16380) buf)) ho
          (AllBelow-take (2 ^ 32) 16380 (drop (i * 16380) buf)
            (AllBelow-drop (2 ^ 32) (i * 16380) buf hb))
          (part-whole kind buf n i e)))
      (received-parts kind object buf n left (suc i) ho hb e)

push-some :
    (kind : Kind) (object : ℕ) (buf : List ℕ) (n : ℕ)
    → 1 ≤ n
    → push kind object buf n
      ≡ some (
          map
            (λ xs. (command_of kind, put32 object ++ htonlb xs))
            (parts (shape_of kind) buf n (fragments (shape_of kind) n) 0))
unfolding push push_many Fragments.s3d_push_vertices Fragments.s3d_push_materials_a
    Fragments.s3d_push_polygons Fragments.s3d_push_lines
push-some vertices object buf n h = ground arith
push-some materials object buf n h = ground arith
push-some polygons object buf n h = ground arith
push-some lines object buf n h = ground arith

reaches :
    (kind : Kind) (n : ℕ)
    → n * arity kind ≤ 49140
    → len (shape_of kind) n ≤ fragments (shape_of kind) n * stepl (shape_of kind)
reaches vertices n h = omega arith
reaches materials n h = omega arith
reaches polygons n h = omega arith
reaches lines n h = omega arith

-- the packets of a push, and what the server gets from them
push-packets :
    (kind : Kind) (object : ℕ) (buf : List ℕ) (n : ℕ)
    → object < 2 ^ 32
    → AllBelow (2 ^ 32) buf
    → length buf ≡ n * arity kind
    → 1 ≤ n
    → (ps : List Packet) × (push kind object buf n ≡ some ps)
      × (received kind object ps
          ≡ joined (parts (shape_of kind) buf n (fragments (shape_of kind) n) 0))
push-packets kind object buf n ho hb e h = (
  map (λ xs. (command_of kind, put32 object ++ htonlb xs))
      (parts (shape_of kind) buf n (fragments (shape_of kind) n) 0),
  push-some kind object buf n h,
  received-parts kind object buf n (fragments (shape_of kind) n) 0 ho hb e,
)

-- The server gets from the packets of `s3d_push_vertices`, `s3d_push_materials_a`,
-- `s3d_push_polygons` and `s3d_push_lines` all elements, for that object and in their order, if there are at least one of
-- them and at most 49140 numbers, and if the id and the numbers have 32 bits.
pub push-received :
    (kind : Kind) (object : ℕ) (buf : List ℕ) (n : ℕ)
    → object < 2 ^ 32
    → AllBelow (2 ^ 32) buf
    → length buf ≡ n * arity kind
    → 1 ≤ n
    → n * arity kind ≤ 49140
    → (ps : List Packet) × (push kind object buf n ≡ some ps) × (received kind object ps ≡ buf)
push-received kind object buf n ho hb e h1 hn =
    let q = push-packets kind object buf n ho hb e h1 in
    (
      q.0,
      q.1,
      q.2
          ∙ fragments-whole (shape_of kind) buf n (shape-step kind).0 (shape-step kind).1
              (shape-len kind buf n e) (reaches kind n hn),
    )

-- If the fragments, of 65520 bytes each, do not reach the end of the array, the server gets fewer
-- numbers than the client pushed, though the call does not fail.
pub push-loses :
    (kind : Kind) (object : ℕ) (buf : List ℕ) (n : ℕ)
    → object < 2 ^ 32
    → AllBelow (2 ^ 32) buf
    → length buf ≡ n * arity kind
    → 1 ≤ n
    → fragments (shape_of kind) n * 65520 < len (shape_of kind) n
    → (ps : List Packet) × (push kind object buf n ≡ some ps)
      × (length (received kind object ps) < length buf)
push-loses kind object buf n ho hb e h1 hn =
    let q = push-packets kind object buf n ho hb e h1 in
    (
      q.0,
      q.1,
      rw q.2 (
          fragments-lossy (shape_of kind) buf n (shape-step kind).0 (shape-step kind).1
            (shape-len kind buf n e) (rw ((shape-step kind).1) hn)),
    )
