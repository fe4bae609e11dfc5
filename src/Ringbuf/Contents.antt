-- ===== src/Ringbuf/Contents.antt =====
-- What the ring holds, byte by byte: the view that the proofs about reading and writing share.
use s3d.Base.{
  ℕ, ◌+◌, ◌-◌, ◌<◌, ◌≡◌, arith, length, take, drop, get_or, if◌then◌else◌, ltb, length-append,
  length-take, length-drop, get_or-append, get_or-take, get_or-drop,
}
use s3d.Ringbuf.{Ringbuf, IsValid, count, contents}

-- the place in the storage of the byte number `j`
abbrev pub place : Ringbuf → ℕ → ℕ
place r j = if ltb (r.start + j) r.bufsize then r.start + j else r.start + j - r.bufsize

pub length-contents : {r : Ringbuf} → IsValid r → length (contents r) ≡ count r
unfolding contents
length-contents {r} v = ground (
  arith,
  length-append (take (r.bufsize - r.start) (drop r.start r.store)) (take r.end r.store),
  length-take (r.bufsize - r.start) (drop r.start r.store),
  length-take r.end r.store,
  length-take (r.end - r.start) (drop r.start r.store),
  length-drop r.start r.store,
)

pub get_or-contents :
    {r : Ringbuf} (j : ℕ)
    → IsValid r
    → j < count r
    → get_or (contents r) j 0 ≡ get_or r.store (place r j) 0
unfolding contents
get_or-contents {r} j v h = ground (
  arith,
  get_or-append (take (r.bufsize - r.start) (drop r.start r.store)) (take r.end r.store) j 0,
  length-take (r.bufsize - r.start) (drop r.start r.store),
  length-drop r.start r.store,
  get_or-take (r.bufsize - r.start) (drop r.start r.store) j 0,
  get_or-take r.end r.store (j - (r.bufsize - r.start)) 0,
  get_or-take (r.end - r.start) (drop r.start r.store) j 0,
  get_or-drop r.start r.store j 0,
)
