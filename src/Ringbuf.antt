-- ===== src/Ringbuf.antt =====
-- `struct buf_t` of server/global.h and libs3d/s3dlib.h: the ring of bytes in a shared memory
-- segment, through which client and server talk. The bytes that follow the header in the segment
-- are the list `store`. What the ring holds is `contents`: the bytes from `start` up to `end`, round
-- the end of the storage.
pub mod Spec
pub mod Contents
pub mod Client
pub mod Server
pub mod Write
pub mod Read
pub mod Channel
mod Tests
use s3d.Base.{
  ℕ, ◌+◌, ◌-◌, ◌*◌, ◌%◌, ◌^◌, ◌≤◌, ◌<◌, ◌≡◌, List, ◌++◌, length, take, drop, if◌then◌else◌, ltb,
}

-- `struct buf_t`
pub record Ringbuf : Type 0 where
  pub start : ℕ
  pub end : ℕ
  pub bufsize : ℕ
  pub store : List ℕ

-- `uint32_t` arithmetic
abbrev pub add32 : ℕ → ℕ → ℕ
add32 a b = (a + b) % 2 ^ 32

abbrev pub sub32 : ℕ → ℕ → ℕ
sub32 a b = (a + 2 ^ 32 - b) % 2 ^ 32

-- what `wrap` is set to
abbrev pub wrap_of : Ringbuf → ℕ
wrap_of r = if ltb r.end r.start then 1 else 0

-- the number of bytes that wait to be read
abbrev pub count : Ringbuf → ℕ
count r = if ltb r.end r.start then r.end + r.bufsize - r.start else r.end - r.start

-- the bytes that wait to be read, in order
pub contents : Ringbuf → List ℕ
contents r =
    if ltb r.end r.start
    then take (r.bufsize - r.start) (drop r.start r.store) ++ take r.end r.store
    else take (r.end - r.start) (drop r.start r.store)

-- Both indices lie in the storage, and no sum of two of them reaches 2 ^ 31.
pub record IsValid (r : Ringbuf) : Type 0 where
  pub start_in : r.start < r.bufsize
  pub end_in : r.end < r.bufsize
  pub stored : length r.store ≡ r.bufsize
  pub small : r.bufsize < 2 ^ 30
