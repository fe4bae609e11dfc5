-- ===== src/Client/Loads.antt =====
-- The positions in the packets of the `s3d_load_` calls of libs3d/proto_out.c.
use s3d.Base.{ℕ, drop}
use s3d.Wire.{get32}
use s3d.Client.{Packet}

-- the position that a packet names
abbrev pub position : Packet → ℕ
position p = get32 (drop 4 p.1)
