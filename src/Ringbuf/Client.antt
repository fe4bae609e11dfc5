-- ===== src/Ringbuf/Client.antt =====
-- libs3d/shm_ringbuf.c, the ring as the client uses it: unsigned arithmetic. `n` is the length of
-- the buffer that the caller passes.
use s3d.Base.{
  ℕ, ◌-◌, ◌*◌, ◌%◌, ◌^◌, ◌&&◌, List, ◌++◌, length, take, drop, blit, if◌then◌else◌, ltb, leb, ◌==◌,
}
use s3d.Ringbuf.{Ringbuf, add32, sub32, wrap_of}

-- `shm_write`: the number that it returns, and the ring
unfoldable pub shm_write : Ringbuf → List ℕ → ℕ × Ringbuf
shm_write rb buf =
    let n = length buf in
    let e = rb.end in
    let s = rb.start in
    let size = rb.bufsize in
    let rs = sub32 size e in
    if ltb (sub32 (add32 s ((size * (1 - wrap_of rb)) % 2 ^ 32)) e) (add32 n 1) then (0, rb) else (
      n,
      record rb {
        store =
            if ltb size (add32 e n)
            then blit (blit rb.store e (take rs buf)) 0 (drop rs buf)
            else blit rb.store e buf;
        end = if leb size (add32 e n) then add32 e n - size else add32 e n;
      },
    )

-- `shm_read`: the bytes that it copies out, `mn` in number, and the ring
unfoldable pub shm_read : Ringbuf → ℕ → List ℕ × Ringbuf
shm_read rb n =
    let e = rb.end in
    let s = rb.start in
    let size = rb.bufsize in
    let rs = sub32 (add32 e ((wrap_of rb * size) % 2 ^ 32)) s in
    let mn = if ltb rs n then rs else n in
    let first = sub32 size s in
    (
      if (wrap_of rb == 1) && ltb first mn
          then take first (drop s rb.store) ++ take (mn - first) rb.store
          else take mn (drop s rb.store),
      record rb { start = if leb size (add32 s mn) then add32 s mn - size else add32 s mn },
    )
