-- ===== src/Ringbuf/Tests.antt =====
-- The ring at small inputs.
use s3d.Base.{blit, ℕ, ◌+◌, ◌≡◌, refl, arith, List, [], ◌∷◌, length}
use s3d.Ringbuf.{Ringbuf, IsValid, contents}
use s3d.Ringbuf.Spec.{Op, write, read, wrote, got, push, pop}
use s3d.Ringbuf.Spec
use s3d.Ringbuf.Client
use s3d.Ringbuf.Server
use s3d.Ringbuf.Server.{ringbuf_init, complains}
use s3d.Ringbuf.Channel.{run, channel_refines, server_write_overflow}

-- 8 and 9 wait, round the end of the storage
abbrev wrapped : Ringbuf
wrapped = record { start = 3; end = 1; bufsize = 4; store = 9 ∷ 0 ∷ 0 ∷ 8 ∷ [] }

wrapped-IsValid : IsValid wrapped
wrapped-IsValid = omega arith

abbrev script : List Op
script = write (1 ∷ []) ∷ write (2 ∷ []) ∷ read 2 ∷ write (3 ∷ 4 ∷ []) ∷ read 9 ∷ []

run-wrapped :
    run wrapped script ≡ wrote 1 ∷ wrote 0 ∷ got (8 ∷ 9 ∷ []) ∷ wrote 2 ∷ got (1 ∷ 3 ∷ 4 ∷ []) ∷ []
unfolding run Client.shm_write Server.shm_read blit
run-wrapped = refl

channel_refines_example : run wrapped script ≡ Spec.run 4 (contents wrapped) script
channel_refines_example = channel_refines script wrapped-IsValid (omega arith)

abbrev segment : List ℕ
segment = 0 ∷ 0 ∷ 0 ∷ 0 ∷ 0 ∷ 0 ∷ 0 ∷ 0 ∷ 0 ∷ 0 ∷ 0 ∷ 0 ∷ 0 ∷ 0 ∷ 0 ∷ []

-- Two bytes wait and three are written to a ring of four: one byte is left of the five.
server_write_overflow_example :
    length (contents (Server.shm_write wrapped (5 ∷ 6 ∷ 7 ∷ []))) + 4
    ≡ length (contents wrapped) + 3
unfolding complains
server_write_overflow_example =
    server_write_overflow (5 ∷ 6 ∷ 7 ∷ []) wrapped-IsValid (omega arith) refl
