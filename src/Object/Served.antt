-- ===== src/Object/Served.antt =====
-- The buffers of the textures under the requests of the clients.
use s3d.Base.{◌*◌, ◌^◌, ◌≤◌, ◌<◌, length}
use s3d.Object.Request.{Request}

-- A request for pixels of a texture lies at most 2 ^ 15 to the right, and has the bytes of its picture.
abbrev pub HasPixels : {F : Type 0} → Request F → Type 0
HasPixels (Request.load_tex oid tex x y w h pixbuf) =
    (x ≤ 2 ^ 15) × (y < 2 ^ 16) × (4 * (w * h) ≤ length pixbuf)
HasPixels q = Unit
