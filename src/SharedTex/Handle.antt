-- ===== src/SharedTex/Handle.antt =====
-- `_s3d_handle_texshm` of libs3d/texture.c on the table of textures.
use s3d.Base.{
  ℕ, ◌≡◌, refl, arith, true, Option, Option-cases, none, some, List, inl, inr, if◌then◌else◌,
}
use s3d.Events.Incoming.{Texshm}
use s3d.Hash.{HashTable, hash_add, hash_find, hash_remove}
use s3d.Hash.Lookup.{IsPlaced, find-add, find-remove, hash_add-IsPlaced, hash_remove-IsPlaced}
use s3d.SharedTex.{S3dTex, key_of, compare_cb, tex_cbs, attached, handle_texshm}
use s3d.SharedTex.Keys.{InRange, wide_cbs, wide_cbs-IsKeyed, find-wide, add-wide, remove-wide}

-- A table of textures in which every texture stands in the list of its number.
abbrev pub IsTable : HashTable S3dTex → Type 0
IsTable h = IsPlaced wide_cbs h

module _ (shmat : ℕ → Option (List ℕ)) where
  attached-tshm : (t : Texshm) (new : S3dTex) → attached shmat t ≡ some new → new.tshm ≡ t
  unfolding attached
  attached-tshm t new e = ground arith

  module _ (h : HashTable S3dTex) (t : Texshm) (p : IsTable h) (r : InRange t) where
    abbrev without : HashTable S3dTex
    without = (hash_remove wide_cbs h (key_of t)).1

    without-IsTable : IsTable without
    without-IsTable = hash_remove-IsPlaced wide_cbs wide_cbs-IsKeyed h (key_of t) p

    handle_none : attached shmat t ≡ none → handle_texshm shmat true (some h) t ≡ some without
    unfolding handle_texshm
    handle_none e = ground (arith, e, remove-wide h (key_of t) r)

    handle_some :
        (new : S3dTex)
        → attached shmat t ≡ some new
        → handle_texshm shmat true (some h) t ≡ some (hash_add wide_cbs true without new).1
    unfolding handle_texshm
    handle_some new e =
        ground (
          arith,
          e,
          remove-wide h (key_of t) r,
          add-wide without new (rw (attached-tshm t new e) r),
        )

    -- what is found afterwards
    abbrev Found : HashTable S3dTex → Type 0
    Found h' =
        (key : Texshm)
        → InRange key
        → hash_find tex_cbs h' (key_of key) ≡ (
            if compare_cb (key_of t) (key_of key)
            then attached shmat t
            else hash_find tex_cbs h (key_of key))

    find_without :
        (key : Texshm)
        → hash_find wide_cbs without (key_of key)
          ≡ (if compare_cb (key_of t) (key_of key) then none else hash_find wide_cbs h (key_of key))
    find_without key = find-remove wide_cbs wide_cbs-IsKeyed h (key_of t) (key_of key) p

    same-attached :
        (new : S3dTex) (key : Texshm)
        → attached shmat t ≡ some new
        → compare_cb new (key_of key) ≡ compare_cb (key_of t) (key_of key)
    unfolding compare_cb
    same-attached new key e = rw (attached-tshm t new e) refl

    Found-none : attached shmat t ≡ none → Found without
    Found-none e key k =
        ground
          (arith, find-wide without (key_of key) k, find-wide h (key_of key) k, find_without key)

    Found-some :
        (new : S3dTex) → attached shmat t ≡ some new → Found (hash_add wide_cbs true without new).1
    Found-some new e key k = ground (
      arith,
      find-wide (hash_add wide_cbs true without new).1 (key_of key) k,
      find-wide h (key_of key) k,
      find-add wide_cbs wide_cbs-IsKeyed without new (key_of key) without-IsTable,
      find_without key,
      same-attached new key e,
    )

    -- A texture that the server tells of replaces the one of its object and number in the table, or only
    -- takes that away if it has no segment or this cannot be attached. The others are found as before,
    -- and every texture stands where it is looked for. (Its number, 32 times the object and the texture,
    -- is below 2 ^ 31, as are those that are looked for, and there is memory.)
    pub handle_texshm-replaces :
        (h' : HashTable S3dTex) × (handle_texshm shmat true (some h) t ≡ some h')
        × IsTable h'
        × Found h'
    handle_texshm-replaces = elim (Option-cases (attached shmat t)) [
      | inl e ↦ (without, handle_none e, without-IsTable, Found-none e)
      | inr (new, e) ↦ (
        (hash_add wide_cbs true without new).1,
        handle_some new e,
        hash_add-IsPlaced wide_cbs wide_cbs-IsKeyed without new without-IsTable,
        Found-some new e,
      )
    ]
