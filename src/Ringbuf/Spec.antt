-- ===== src/Ringbuf/Spec.antt =====
-- What a ring of `cap` bytes promises: a FIFO of fewer than `cap` bytes.
use s3d.Base.{ℕ, ◌+◌, List, [], ◌∷◌, ◌++◌, length, take, drop, ltb, if◌then◌else◌}

-- what is done with a ring, and what comes back
pub data Op : Type 0 where
  write : List ℕ → Op
  read : ℕ → Op

pub data Reply : Type 0 where
  wrote : ℕ → Reply
  got : List ℕ → Reply

-- All of the bytes are taken, or none.
unfoldable pub push : ℕ → List ℕ → List ℕ → ℕ × List ℕ
push cap q bytes = if ltb (length q + length bytes) cap then (length bytes, q ++ bytes) else (0, q)

-- The oldest bytes, at most `n`.
unfoldable pub pop : List ℕ → ℕ → List ℕ × List ℕ
pop q n = (take n q, drop n q)

unfoldable pub run : ℕ → List ℕ → List Op → List Reply
run cap q [] = []
run cap q (write bytes ∷ ops) = let (n, q') = push cap q bytes in wrote n ∷ run cap q' ops
run cap q (read n ∷ ops) = let (bytes, q') = pop q n in got bytes ∷ run cap q' ops
