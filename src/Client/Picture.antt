-- ===== src/Client/Picture.antt =====
-- `s3d_load_texture` of libs3d/proto_out.c: a picture is sent in bands of lines. `by_shm` is whether
-- `_s3d_load_texture_shm` has written it into shared memory. `w` is not 0, by which the code divides.
use s3d.Base.{
  ℕ, zero, suc, ◌+◌, ◌-◌, ◌*◌, ◌/◌, Bool, Option, none, some, List, [], ◌∷◌, ◌++◌, if◌then◌else◌,
  ltb, ◌==◌, take, drop,
}
use s3d.Wire.{put16, put32}
use s3d.Client.{Packet, mf_len, s3d_update_texture}

-- `linestep`
abbrev pub linestep : ℕ → ℕ
linestep w = (mf_len - 16) / (w * 4)

-- `lines`
unfoldable pub lines_at : ℕ → ℕ → ℕ → ℕ
lines_at step h i = if ltb step (h - i) then step else h - i

-- the packet for the lines from `i` on
unfoldable pub band : ℕ → ℕ → ℕ → ℕ → ℕ → ℕ → List ℕ → ℕ → Packet
band object tex xpos ypos w lines image i = (
  28,
  put32 object
      ++ (put32 tex
          ++ (put16 xpos
              ++ (put16 (ypos + i)
                  ++ (put16 w ++ (put16 lines ++ take (lines * w * 4) (drop (i * w * 4) image)))))),
)

-- the loop from line `i` on; each round is at least one line, so `h` rounds are enough
unfoldable pub bands : ℕ → ℕ → ℕ → ℕ → ℕ → ℕ → ℕ → List ℕ → ℕ → ℕ → List Packet
unfolding band lines_at
bands object tex xpos ypos w h step image zero i = []
bands object tex xpos ypos w h step image (suc rounds) i =
    let rest = bands object tex xpos ypos w h step image rounds (i + step) in
    if ltb i h then band object tex xpos ypos w (lines_at step h i) image i ∷ rest else []

-- none where it returns -1
unfoldable pub s3d_load_texture : Bool → ℕ → ℕ → ℕ → ℕ → ℕ → ℕ → List ℕ → Option (List Packet)
unfolding bands
s3d_load_texture by_shm object tex xpos ypos w h image =
    if by_shm
    then some (s3d_update_texture object tex xpos ypos w h ∷ [])
    else if linestep w == 0
    then none
    else some (bands object tex xpos ypos w h (linestep w) image h 0)
