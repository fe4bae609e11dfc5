-- ===== src/Client/Tests.antt =====
-- The queue of object ids at small inputs.
use s3d.Wire.{put32, htonlb}
use s3d.Client.{Packet}
use s3d.Base.{count, ◌++◌, ℕ, ◌+◌, ◌≡◌, arith, List, [], ◌∷◌}
use s3d.Client.Queue.{queue_init, queue_want_object}
use s3d.Client.Handout.{count_all, want_object-conserves}

abbrev arrivals : List (List ℕ)
arrivals = [] ∷ (7 ∷ 8 ∷ []) ∷ (7 ∷ []) ∷ []

want_object-conserves_example :
    let (id, q', left) = queue_want_object 5 arrivals queue_init in
    count 7 (id ∷ []) + count 7 q'.slots + count_all 7 left ≡ 2
want_object-conserves_example =
    want_object-conserves 7 5 arrivals queue_init (λ e. omega arith) (omega arith)

-- the second packet of a call that loads the normals of polygons from number 5 on
abbrev second : Packet
second = (24, put32 7 ++ (put32 65525 ++ htonlb (2 ∷ [])))
