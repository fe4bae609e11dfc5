-- ===== src/Ringbuf/Channel.antt =====
-- The channel between a client and the server: libs3d/shm_ringbuf.c on one side of the segment and
-- server/shm_ringbuf.c on the other.
use s3d.Base.{
  ℕ, ◌+◌, ◌^◌, ◌≤◌, ◌<◌, ◌≡◌, refl, arith, Bool-cases, inl, inr, List, [], ◌∷◌, ◌++◌, length,
  if◌then◌else◌, ltb, ltb→lt, true, false, length-drop,
}
use s3d.Ringbuf.{Ringbuf, IsValid, count, contents}
use s3d.Ringbuf.Spec.{Op, Reply, write, read, wrote, got, push, pop}
use s3d.Ringbuf.Spec
use s3d.Ringbuf.Contents.{length-contents}
use s3d.Ringbuf.Write.{write-IsValid, contents-write}
use s3d.Ringbuf.Read.{read-IsValid, bytes-read, rest-read}
use s3d.Ringbuf.Client
use s3d.Ringbuf.Server
use s3d.Ringbuf.Server.{ringbuf_init, complains}

-- Within the invariant the unsigned arithmetic of the client computes what the signed arithmetic
-- of the server computes: the client writes where the server would, if the bytes fit.
pub client_write-eq :
    {r : Ringbuf} (buf : List ℕ)
    → IsValid r
    → length buf < 2 ^ 30
    → Client.shm_write r buf ≡ (
        if ltb (count r + length buf) r.bufsize
        then (length buf, Server.shm_write r buf)
        else (0, r))
unfolding Client.shm_write Server.shm_write
client_write-eq {r} buf v h = ground arith

-- Within the invariant a client's read and the server's read do the same.
pub client_read-eq : {r : Ringbuf} (n : ℕ) → IsValid r → Client.shm_read r n ≡ Server.shm_read r n
unfolding Client.shm_read Server.shm_read
client_read-eq {r} n v = ground arith

-- A client's write hands the ring to the FIFO's `push`: it takes all of the bytes if they fit, and
-- else none of them. The ring stays valid.
pub client_write_refines :
    {r : Ringbuf} (buf : List ℕ)
    → IsValid r
    → length buf < 2 ^ 30
    → let (n, r') = Client.shm_write r buf in
      ((n, contents r') ≡ push r.bufsize (contents r) buf) × IsValid r'
unfolding push
client_write_refines {r} buf v h =
    rw (client_write-eq buf v h, length-contents v)
      elim (Bool-cases (ltb (count r + length buf) r.bufsize)) [
        | inl e ↦
            let fits = ltb→lt _ _ e in
            rw (e, contents-write buf v fits) (refl, write-IsValid buf v (omega arith))
        | inr e ↦ rw e (refl, v)
      ]

-- A read by the server hands out the oldest bytes that wait, at most as many as it asks for, and
-- leaves the others in order. The ring stays valid. (By `client_read-eq` so does a client's read.)
pub server_read_refines :
    {r : Ringbuf} (n : ℕ)
    → IsValid r
    → let (bytes, r') = Server.shm_read r n in
      ((bytes, contents r') ≡ pop (contents r) n) × IsValid r'
unfolding pop
server_read_refines {r} n v = (rw (bytes-read n v, rest-read n v), read-IsValid n v)

-- the calls on one segment in the order in which they happen: the client writes, the server reads
unfoldable pub run : Ringbuf → List Op → List Reply
run r [] = []
run r (write bytes ∷ ops) = let (n, r') = Client.shm_write r bytes in wrote n ∷ run r' ops
run r (read n ∷ ops) = let (bytes, r') = Server.shm_read r n in got bytes ∷ run r' ops

-- no write of 2 ^ 30 bytes or more: the program writes packets of at most 65538 bytes
abbrev pub IsSmall : List Op → Type 0
IsSmall [] = Unit
IsSmall (write bytes ∷ ops) = (length bytes < 2 ^ 30) × IsSmall ops
IsSmall (read n ∷ ops) = IsSmall ops

bufsize-client_write : (r : Ringbuf) (buf : List ℕ) → (Client.shm_write r buf).1.bufsize ≡ r.bufsize
unfolding Client.shm_write
bufsize-client_write r buf = ground arith

bufsize-read : (r : Ringbuf) (n : ℕ) → (Server.shm_read r n).1.bufsize ≡ r.bufsize
unfolding Server.shm_read
bufsize-read r n = refl

-- However a client's writes and the server's reads of one segment interleave, their replies are
-- those of a FIFO of fewer than `bufsize` bytes: what the server reads is what the client wrote,
-- once and in order.
pub channel_refines :
    (ops : List Op) {r : Ringbuf}
    → IsValid r
    → IsSmall ops
    → run r ops ≡ Spec.run r.bufsize (contents r) ops
unfolding run Spec.run
channel_refines [] v h = refl
channel_refines (write bytes ∷ ops) {r} v h =
    let (e, v') = client_write_refines bytes v h.0 in
    rw (channel_refines ops v' h.1, bufsize-client_write, ← e)
channel_refines (read n ∷ ops) {r} v h =
    let (e, v') = server_read_refines n v in rw (channel_refines ops v' h, bufsize-read, ← e)

-- A segment that holds the header and fewer than 2 ^ 30 bytes more gets a valid, empty ring.
pub ringbuf_init-IsValid :
    (segment : List ℕ)
    → 12 < length segment
    → length segment < 2 ^ 30
    → let r = ringbuf_init segment (length segment) in
      IsValid r × (contents r ≡ []) × (r.bufsize + 12 ≡ length segment)
unfolding ringbuf_init contents
ringbuf_init-IsValid segment h k = (ground (arith, length-drop 12 segment), refl, omega arith)

count-overflow :
    {r : Ringbuf} (buf : List ℕ)
    → IsValid r
    → length buf ≤ r.bufsize
    → r.bufsize ≤ count r + length buf
    → count (Server.shm_write r buf) + r.bufsize ≡ count r + length buf
unfolding Server.shm_write
count-overflow {r} buf v h k = ground arith

-- Where the server's `shm_write` does not print "buffer reached maxsize", it appends all of the
-- bytes, and the ring stays valid.
pub server_write_fits :
    {r : Ringbuf} (buf : List ℕ)
    → IsValid r
    → complains r buf ≡ false
    → (contents (Server.shm_write r buf) ≡ contents r ++ buf) × IsValid (Server.shm_write r buf)
unfolding complains
server_write_fits {r} buf v c =
    let fits : count r + length buf < r.bufsize = ground arith in
    (contents-write buf v fits, write-IsValid buf v (omega arith))

-- After the message the server's write goes on all the same: for bytes that are no more than the
-- storage holds, the ring then holds `bufsize` bytes fewer than it held and was given, so that many
-- are lost.
pub server_write_overflow :
    {r : Ringbuf} (buf : List ℕ)
    → IsValid r
    → length buf ≤ r.bufsize
    → complains r buf ≡ true
    → length (contents (Server.shm_write r buf)) + r.bufsize ≡ length (contents r) + length buf
unfolding complains
server_write_overflow {r} buf v h c =
    ground
      (arith, length-contents v, length-contents (write-IsValid buf v h), count-overflow buf v h)
