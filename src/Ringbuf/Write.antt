-- ===== src/Ringbuf/Write.antt =====
-- `shm_write` of server/shm_ringbuf.c when the bytes fit.
use s3d.Base.{
  ℕ, ◌+◌, ◌-◌, ◌≤◌, ◌<◌, ◌≡◌, refl, ◌∙◌, arith, List, ◌++◌, length, take, drop, get_or, blit,
  if◌then◌else◌, ltb, length-append, length-take, length-drop, get_or-append, get_or-take,
  get_or-drop, length-blit, get_or-blit, list_ext,
}
use s3d.Ringbuf.{Ringbuf, IsValid, count, contents}
use s3d.Ringbuf.Contents.{place, length-contents, get_or-contents}
use s3d.Ringbuf.Server

-- the storage after a write, as `shm_write` leaves it
stored : Ringbuf → List ℕ → List ℕ
stored r buf =
    if ltb r.bufsize (r.end + length buf)
    then blit (blit r.store r.end (take (r.bufsize - r.end) buf)) 0 (drop (r.bufsize - r.end) buf)
    else blit r.store r.end buf

length-stored : (r : Ringbuf) (buf : List ℕ) → length (stored r buf) ≡ length r.store
unfolding stored
length-stored r buf = ground (
  arith,
  length-blit r.store r.end buf,
  length-blit r.store r.end (take (r.bufsize - r.end) buf),
  length-blit (blit r.store r.end (take (r.bufsize - r.end) buf)) 0 (drop (r.bufsize - r.end) buf),
)

pub write-IsValid :
    {r : Ringbuf} (buf : List ℕ)
    → IsValid r
    → length buf ≤ r.bufsize
    → IsValid (Server.shm_write r buf)
unfolding Server.shm_write stored
write-IsValid {r} buf v h = ground (arith, length-stored r buf)

pub count-write :
    {r : Ringbuf} (buf : List ℕ)
    → IsValid r
    → count r + length buf < r.bufsize
    → count (Server.shm_write r buf) ≡ count r + length buf
unfolding Server.shm_write
count-write {r} buf v h = ground arith

-- what a write leaves at the place of the byte number `j`
get_or-stored :
    {r : Ringbuf} (buf : List ℕ) (j : ℕ)
    → IsValid r
    → count r + length buf < r.bufsize
    → j < count r + length buf
    → get_or (stored r buf) (place r j) 0
      ≡ (if ltb j (count r) then get_or r.store (place r j) 0 else get_or buf (j - count r) 0)
unfolding stored
get_or-stored {r} buf j v h p = ground (
  arith,
  get_or-blit r.store r.end buf (place r j) 0,
  get_or-blit r.store r.end (take (r.bufsize - r.end) buf) (place r j) 0,
  get_or-blit (blit r.store r.end (take (r.bufsize - r.end) buf)) 0 (drop (r.bufsize - r.end) buf)
      (place r j) 0,
  length-blit r.store r.end (take (r.bufsize - r.end) buf),
  length-take (r.bufsize - r.end) buf,
  length-drop (r.bufsize - r.end) buf,
  get_or-take (r.bufsize - r.end) buf (place r j - r.end) 0,
  get_or-drop (r.bufsize - r.end) buf (place r j) 0,
)

get_or-write :
    {r : Ringbuf} (buf : List ℕ) (i : ℕ)
    → IsValid r
    → count r + length buf < r.bufsize
    → i < count r + length buf
    → get_or (contents (Server.shm_write r buf)) i 0 ≡ get_or (stored r buf) (place r i) 0
get_or-write {r} buf i v h p =
    get_or-contents i (write-IsValid buf v (omega arith)) (omega (arith, count-write buf v h))
    ∙ at_place
  where
    at_place :
        get_or (Server.shm_write r buf).store (place (Server.shm_write r buf) i) 0
        ≡ get_or (stored r buf) (place r i) 0
    at_place = unfold Server.shm_write stored in refl

pub contents-write :
    {r : Ringbuf} (buf : List ℕ)
    → IsValid r
    → count r + length buf < r.bufsize
    → contents (Server.shm_write r buf) ≡ contents r ++ buf
contents-write {r} buf v h =
    list_ext (contents (Server.shm_write r buf)) (contents r ++ buf) 0 lengths reads
  where
    v' : IsValid (Server.shm_write r buf)
    v' = write-IsValid buf v (omega arith)

    lengths : length (contents (Server.shm_write r buf)) ≡ length (contents r ++ buf)
    lengths = omega (
      arith,
      length-contents v',
      length-contents v,
      count-write buf v h,
      length-append (contents r) buf,
    )

    reads :
        (i : ℕ)
        → i < length (contents (Server.shm_write r buf))
        → get_or (contents (Server.shm_write r buf)) i 0 ≡ get_or (contents r ++ buf) i 0
    reads i p =
        get_or-write buf i v h (within p) ∙ get_or-stored buf i v h (within p) ∙ split (within p)
      where
        within : i < length (contents (Server.shm_write r buf)) → i < count r + length buf
        within q = omega (arith, length-contents v', count-write buf v h)

        split :
            i < count r + length buf
            → (if ltb i (count r) then get_or r.store (place r i) 0 else get_or buf (i - count r) 0)
              ≡ get_or (contents r ++ buf) i 0
        split q =
            ground
              (arith, get_or-append (contents r) buf i 0, length-contents v, get_or-contents i v)
