-- ===== src/SharedTex/Tests.antt =====
-- The table of textures of libs3d/texture.c at small inputs.
use s3d.Base.{
  ℕ, ◌<◌, ◌≡◌, refl, arith, true, Option, none, some, List, [], ◌∷◌, blit, if◌then◌else◌,
}
use s3d.Events.Incoming.{Texshm}
use s3d.Object.Texture.{copies}
use s3d.Hash.{HashTable, hash_add, hash_find, hash_remove}
use s3d.Hash.Resize.{empty_table, empty_table-IsPlaced}
use s3d.SharedTex.{
  S3dTex, key_of, compare_cb, choose_cb, tex_cbs, attached, handle_texshm, shm_copies,
  load_texture_shm,
}
use s3d.SharedTex.Keys.{InRange, wide_cbs}
use s3d.SharedTex.Handle.{IsTable, handle_texshm-replaces}
use s3d.SharedTex.Copies.{server_side, shm_copies-copies}

abbrev small : Texshm
small = record { oid = 3; tex = 1; shmid = 40; tw = 2; th = 2; w = 2; h = 2 }

abbrev segments : ℕ → Option (List ℕ)
segments shmid = some (0 ∷ 0 ∷ 0 ∷ 0 ∷ 0 ∷ 0 ∷ 0 ∷ 0 ∷ 0 ∷ 0 ∷ 0 ∷ 0 ∷ 0 ∷ 0 ∷ 0 ∷ 0 ∷ [])

positive : 0 < 256
positive = omega arith

empty-IsTable : IsTable (empty_table 256)
empty-IsTable = empty_table-IsPlaced wide_cbs 256 positive

handle_texshm-replaces_example :
    (h' : HashTable S3dTex) × (handle_texshm segments true (some (empty_table 256)) small ≡ some h')
    × IsTable h'
    × ((key : Texshm)
        → InRange key
        → hash_find tex_cbs h' (key_of key) ≡ (
            if compare_cb (key_of small) (key_of key)
            then attached segments small
            else hash_find tex_cbs (empty_table 256) (key_of key)))
handle_texshm-replaces_example =
    handle_texshm-replaces segments (empty_table 256) small empty-IsTable (omega arith)

shm_copies-copies_example :
    shm_copies small 1 0 4 2
    ≡ (elim (copies (server_side small []) 1 0 4 2) [ none ↦ [] | some cs ↦ cs ])
shm_copies-copies_example = shm_copies-copies small [] 1 0 4 2

-- one pixel is written into the segment that was told of
drawn :
    load_texture_shm
      (handle_texshm segments true (some (empty_table 256)) small)
      3
      1
      1
      1
      1
      1
      (1 ∷ 2 ∷ 3 ∷ 4 ∷ [])
    ≡ some (record {
      tshm = small;
      buf = 0 ∷ 0 ∷ 0 ∷ 0 ∷ 0 ∷ 0 ∷ 0 ∷ 0 ∷ 0 ∷ 0 ∷ 0 ∷ 0 ∷ 1 ∷ 2 ∷ 3 ∷ 4 ∷ [];
    })
unfolding load_texture_shm handle_texshm attached hash_add hash_remove choose_cb compare_cb blit
drawn = refl
