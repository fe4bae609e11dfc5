-- ===== src/Ringbuf/Server.antt =====
-- server/shm_ringbuf.c, the ring as the server uses it: signed arithmetic, which is exact within
-- `IsValid`. `n` is the length of the buffer that the caller passes.
use s3d.Base.{
  ℕ, ◌+◌, ◌-◌, ◌*◌, ◌%◌, ◌^◌, ◌&&◌, Bool, List, ◌++◌, length, take, drop, blit, if◌then◌else◌, ltb,
  leb, ◌==◌,
}
use s3d.Ringbuf.{Ringbuf, wrap_of}

-- `sizeof(struct buf_t)`
abbrev pub rb_overhead : ℕ
rb_overhead = 12

-- `ringbuf_init` over a segment of `init_size` bytes
unfoldable pub ringbuf_init : List ℕ → ℕ → Ringbuf
ringbuf_init segment init_size = record {
  start = 0;
  end = 0;
  bufsize = (init_size + 2 ^ 32 - rb_overhead) % 2 ^ 32;
  store = drop rb_overhead segment;
}

-- the test of `shm_write` that makes it print "buffer reached maxsize"
unfoldable pub complains : Ringbuf → List ℕ → Bool
complains rb buf = ltb (rb.start + rb.bufsize * (1 - wrap_of rb)) (length buf + 1 + rb.end)

-- `shm_write`, which always returns 0. After the message it goes on all the same.
unfoldable pub shm_write : Ringbuf → List ℕ → Ringbuf
shm_write rb buf =
    let n = length buf in
    let e = rb.end in
    let size = rb.bufsize in
    let rs = size - e in
    record rb {
      store =
          if ltb size (e + n)
          then blit (blit rb.store e (take rs buf)) 0 (drop rs buf)
          else blit rb.store e buf;
      end = if leb size (e + n) then e + n - size else e + n;
    }

-- `shm_read`: the bytes that it copies out, `mn` in number, and the ring
unfoldable pub shm_read : Ringbuf → ℕ → List ℕ × Ringbuf
shm_read rb n =
    let e = rb.end in
    let s = rb.start in
    let size = rb.bufsize in
    let rs = e + wrap_of rb * size - s in
    let mn = if ltb rs n then rs else n in
    let first = size - s in
    (
      if (wrap_of rb == 1) && ltb first mn
          then take first (drop s rb.store) ++ take (mn - first) rb.store
          else take mn (drop s rb.store),
      record rb { start = if leb size (s + mn) then s + mn - size else s + mn },
    )
