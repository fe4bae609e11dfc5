-- ===== src/Ringbuf/Read.antt =====
-- `shm_read` of server/shm_ringbuf.c: which bytes it copies out, and which it leaves.
use s3d.Base.{
  ℕ, ◌+◌, ◌-◌, ◌*◌, ◌≤◌, ◌<◌, ◌≡◌, sym, ap, ◌∙◌, ◌&&◌, ◌==◌, arith, List, ◌++◌, length, take, drop,
  get_or, if◌then◌else◌, ltb, length-append, length-take, length-drop, get_or-append, get_or-take,
  get_or-drop, list_ext,
}
use s3d.Ringbuf.{Ringbuf, IsValid, wrap_of, count, contents}
use s3d.Ringbuf.Contents.{place, length-contents, get_or-contents}
use s3d.Ringbuf.Server

-- A read hands out the oldest bytes, and leaves the others.
pub read-IsValid : {r : Ringbuf} (n : ℕ) → IsValid r → IsValid (Server.shm_read r n).1
unfolding Server.shm_read
read-IsValid {r} n v = ground arith

count-read : {r : Ringbuf} (n : ℕ) → IsValid r → count (Server.shm_read r n).1 ≡ count r - n
unfolding Server.shm_read
count-read {r} n v = ground arith

-- the bytes that a read of `mn` bytes copies out
copied : Ringbuf → ℕ → List ℕ
copied r mn =
    if (wrap_of r == 1) && ltb (r.bufsize - r.start) mn
    then take (r.bufsize - r.start) (drop r.start r.store)
      ++ take (mn - (r.bufsize - r.start)) r.store
    else take mn (drop r.start r.store)

length-copied : {r : Ringbuf} (mn : ℕ) → IsValid r → mn ≤ count r → length (copied r mn) ≡ mn
unfolding copied
length-copied {r} mn v h = ground (
  arith,
  length-append (take (r.bufsize - r.start) (drop r.start r.store))
      (take (mn - (r.bufsize - r.start)) r.store),
  length-take (r.bufsize - r.start) (drop r.start r.store),
  length-take (mn - (r.bufsize - r.start)) r.store,
  length-take mn (drop r.start r.store),
  length-drop r.start r.store,
)

get_or-copied :
    {r : Ringbuf} (mn i : ℕ)
    → IsValid r
    → mn ≤ count r
    → i < mn
    → get_or (copied r mn) i 0 ≡ get_or r.store (place r i) 0
unfolding copied
get_or-copied {r} mn i v h p = ground (
  arith,
  get_or-append (take (r.bufsize - r.start) (drop r.start r.store))
      (take (mn - (r.bufsize - r.start)) r.store) i 0,
  length-take (r.bufsize - r.start) (drop r.start r.store),
  length-drop r.start r.store,
  get_or-take (r.bufsize - r.start) (drop r.start r.store) i 0,
  get_or-take (mn - (r.bufsize - r.start)) r.store (i - (r.bufsize - r.start)) 0,
  get_or-take mn (drop r.start r.store) i 0,
  get_or-drop r.start r.store i 0,
)

copied-contents :
    {r : Ringbuf} (n : ℕ)
    → IsValid r
    → copied r (if ltb (count r) n then count r else n) ≡ take n (contents r)
copied-contents {r} n v =
    list_ext _ _ 0
      (ground (arith, length-copied mn v, length-take n (contents r), length-contents v))
      (λ i p. ground (
        arith,
        length-copied mn v,
        get_or-copied mn i v,
        get_or-take n (contents r) i 0,
        get_or-contents i v,
      ))
  where
    mn : ℕ
    mn = if ltb (count r) n then count r else n

pub bytes-read : {r : Ringbuf} (n : ℕ) → IsValid r → (Server.shm_read r n).0 ≡ take n (contents r)
unfolding Server.shm_read copied
bytes-read {r} n v = ap (copied r) rest ∙ copied-contents n v
  where
    rest :
        (let rs = r.end + wrap_of r * r.bufsize - r.start in if ltb rs n then rs else n)
        ≡ (if ltb (count r) n then count r else n)
    rest = ground arith

pub rest-read :
    {r : Ringbuf} (n : ℕ) → IsValid r → contents (Server.shm_read r n).1 ≡ drop n (contents r)
unfolding Server.shm_read
rest-read {r} n v =
    list_ext _ _ 0
      (omega
        (arith, length-contents v', length-contents v, count-read n v, length-drop n (contents r)))
      (λ i p. reads i (omega (arith, length-contents v', count-read n v)))
  where
    v' : IsValid (Server.shm_read r n).1
    v' = read-IsValid n v

    reads :
        (i : ℕ)
        → i < count r - n
        → get_or (contents (Server.shm_read r n).1) i 0 ≡ get_or (drop n (contents r)) i 0
    reads i p =
        get_or-contents i v' (omega (arith, count-read n v))
        ∙ moved
        ∙ sym (get_or-drop n (contents r) i 0 ∙ get_or-contents (n + i) v (omega arith))
      where
        moved :
            get_or (Server.shm_read r n).1.store (place (Server.shm_read r n).1 i) 0
            ≡ get_or r.store (place r (n + i)) 0
        moved = ap (λ k. get_or r.store k 0) (ground arith)
