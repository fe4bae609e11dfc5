-- ===== src/Tcp.antt =====
-- The packets of a TCP connection: tcp_readn, tcp_writen and what calls them, in server/tcp.c,
-- libs3d/tcp.c, server/proto.c and libs3d/network.c. `read` and `write` belong to the operating system
-- and cut the bytes as they like; they are the parameters `Reader` and `Writer`.
pub mod Readn
pub mod Writen
pub mod Buffer
pub mod Packets
pub mod Connection
mod Tests
use s3d.Base.{
  ℕ, zero, suc, ◌+◌, ◌-◌, ◌≤◌, ◌<◌, ◌≡◌, ◌≢◌, Bool, true, false, ◌&&◌, Option, none, some, List, [],
  ◌∷◌, ◌++◌, length, take, drop, get_or, blit, if◌then◌else◌, ltb, ◌==◌,
}
use s3d.Wire.{put16, get16}
use s3d.Client.{Packet}

-- A socket from which a process reads. `none` stands for a negative result of `read`, no bytes for the
-- end of the stream. `waiting` is what the peer sends until it closes and is not read yet.
pub record Reader : Type 1 where
  pub Socket : Type 0
  pub read : Socket → ℕ → Option (List ℕ) × Socket
  pub waiting : Socket → List ℕ
  pub read_bytes :
      (s : Socket) (n : ℕ) (bytes : List ℕ)
      → (read s n).0 ≡ some bytes
      → (length bytes ≤ n) × (bytes ++ waiting (read s n).1 ≡ waiting s)
  pub read_end : (s : Socket) (n : ℕ) → 0 < n → (read s n).0 ≡ some [] → waiting s ≡ []

-- A socket to which a process writes. The result is the number of the bytes that are taken, `none` if
-- `write` fails. `sent` is what the peer is to get.
pub record Writer : Type 1 where
  pub Socket : Type 0
  pub write : Socket → List ℕ → Option ℕ × Socket
  pub sent : Socket → List ℕ
  pub write_bytes :
      (s : Socket) (bytes : List ℕ) (n : ℕ)
      → (write s bytes).0 ≡ some n
      → (n ≤ length bytes) × (sent (write s bytes).1 ≡ sent s ++ take n bytes)

-- the size of `ibuf` and of `obuf`
abbrev pub maxplen : ℕ
maxplen = 65536

-- the buffer of net_send and of prot_com_out
unfoldable pub frame : Packet → List ℕ
frame (opcode, buf) = opcode ∷ (put16 (length buf) ++ buf)

-- what prot_com_in reads in the buffer: the command, and the bytes from the place of `cptr` on
unfoldable pub packet_in : List ℕ → Packet
packet_in ibuf = (get_or ibuf 0 0, take (get16 (drop 1 ibuf)) (drop 4 ibuf))

module _ (w : Writer) where
  open w use {Socket, write}

  -- The loop of tcp_writen. Its result is whether it came to the end; otherwise tcp_writen returns what
  -- the last `write` returned. Every `write` that goes on takes a byte, so the fuel is the number of
  -- the bytes.
  unfoldable pub write_left : ℕ → Socket → List ℕ → Bool × Socket
  write_left fuel s [] = (true, s)
  write_left zero s (b ∷ bs) = (false, s)
  write_left (suc fuel) s (b ∷ bs) = elim (write s (b ∷ bs)).0 [
    | none ↦ (false, (write s (b ∷ bs)).1)
    | some n ↦ elim (n == 0) [
      | true ↦ (false, (write s (b ∷ bs)).1)
      | false ↦ write_left fuel (write s (b ∷ bs)).1 (drop n (b ∷ bs))
    ]
  ]

  unfoldable pub tcp_writen : Socket → List ℕ → Bool × Socket
  unfolding write_left
  tcp_writen s bytes = write_left (length bytes) s bytes

  -- net_send and prot_com_out, over a socket
  unfoldable pub net_send : Socket → Packet → Bool × Socket
  unfolding tcp_writen frame
  net_send s packet = tcp_writen s (frame packet)

module _ (r : Reader) where
  open r use {Socket, read}

  -- The loop of tcp_readn: whether `read` did not fail, and the bytes that it put into the buffer.
  unfoldable pub read_left : ℕ → Socket → ℕ → Bool × List ℕ × Socket
  read_left zero s no_left = (true, [], s)
  read_left (suc fuel) s no_left = elim (no_left == 0) [
    | true ↦ (true, [], s)
    | false ↦ elim (read s no_left).0 [
      | none ↦ (false, [], (read s no_left).1)
      | some [] ↦ (true, [], (read s no_left).1)
      | some (b ∷ bs) ↦
          let rest = read_left fuel (read s no_left).1 (no_left - length (b ∷ bs)) in
          (rest.0, (b ∷ bs) ++ rest.1, rest.2)
    ]
  ]

  -- If `read` does not fail, the result of the C function is the number of the bytes.
  unfoldable pub tcp_readn : Socket → ℕ → Bool × List ℕ × Socket
  unfolding read_left
  tcp_readn s n = read_left n s n

  -- What tcp_prot_com_in of the server does: the packet that it hands to prot_com_in, `none` if it
  -- deletes the process, and up to where it writes into the buffer
  pub record Heard : Type 0 where
    pub packet : Option Packet
    pub ibuf : List ℕ
    pub reached : ℕ
    pub socket : Socket

  -- `if (length > 0) tcp_readn (...)`
  unfoldable pub read_payload : Socket → ℕ → Bool × List ℕ × Socket
  unfolding tcp_readn
  read_payload s n = if ltb 0 n then tcp_readn s n else (true, [], s)

  unfoldable pub tcp_prot_com_in : List ℕ → Socket → Heard
  unfolding tcp_readn read_payload packet_in
  tcp_prot_com_in ibuf s =
      let (ok, head, s1) = tcp_readn s 3 in
      let ibuf1 = blit ibuf 0 head in
      let (_, body, s2) = read_payload s1 (get16 (drop 1 ibuf1)) in
      let ibuf2 = blit ibuf1 4 body in
      if ok && length head == 3
      then record {
        packet = some (packet_in ibuf2);
        ibuf = ibuf2;
        reached = 4 + length body;
        socket = s2;
      }
      else record { packet = none; ibuf = ibuf1; reached = length head; socket = s1 }

  -- _s3d_tcp_net_receive of libs3d, for a socket with new data: what it hands to net_prot_in, `none` if
  -- it quits. `unset n` are n bytes of memory that nothing is written to.
  unfoldable pub tcp_net_receive : (ℕ → List ℕ) → Socket → Option Packet × Socket
  unfolding tcp_readn
  tcp_net_receive unset s =
      let (ok, opcode, s1) = tcp_readn s 1 in
      let (_, two, s2) = tcp_readn s1 2 in
      let long = get16 (blit (unset 2) 0 two) in
      let (_, body, s3) = tcp_readn s2 long in
      if ok && length opcode == 1
      then (some (get_or opcode 0 0, blit (unset long) 0 body), s3)
      else (none, s1)

  -- one packet after the other, as the two poll loops take them
  unfoldable pub take_packets : List ℕ → Socket → ℕ → List Packet
  unfolding tcp_prot_com_in
  take_packets ibuf s zero = []
  take_packets ibuf s (suc n) =
      let h = tcp_prot_com_in ibuf s in
      elim h.packet [ none ↦ [] | some p ↦ p ∷ take_packets h.ibuf h.socket n ]

  unfoldable pub receive_packets : (ℕ → List ℕ) → Socket → ℕ → List Packet
  unfolding tcp_net_receive
  receive_packets unset s zero = []
  receive_packets unset s (suc n) =
      let h = tcp_net_receive unset s in
      elim h.0 [ none ↦ [] | some p ↦ p ∷ receive_packets unset h.1 n ]
