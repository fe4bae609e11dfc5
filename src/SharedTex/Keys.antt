-- ===== src/SharedTex/Keys.antt =====
-- The callbacks of the table of libs3d/texture.c.
use s3d.Base.{
  ℕ, ◌+◌, ◌*◌, ◌%◌, ◌^◌, ◌<◌, ◌≡◌, ◌↔◌, ◌⊎◌, refl, ap, arith, true, List, [], ◌∷◌, get_or,
}
use s3d.Events.Incoming.{Texshm}
use s3d.Hash.{
  Callbacks, HashTable, append_bucket, find_bucket, unlink_bucket, hash_add, hash_find, hash_remove,
}
use s3d.Hash.Buckets.{IsKeyed}
use s3d.SharedTex.{S3dTex, key_of, compare_cb, choose_cb, tex_cbs}

-- the number of `_s3d_choose_cb` before the remainder, without a limit
abbrev pub hash_sum : Texshm → ℕ
hash_sum t = t.oid * 32 + t.tex

-- It fits an `int`.
abbrev pub InRange : Texshm → Type 0
InRange t = hash_sum t < 2 ^ 31

-- what `_s3d_choose_cb` computes then
abbrev pub wide_cbs : Callbacks S3dTex
wide_cbs = record { same = compare_cb; choose = λ a size. hash_sum a.tshm % size }

pub choose_cb-InRange :
    (a : S3dTex) (size : ℕ) → InRange a.tshm → choose_cb a size ≡ hash_sum a.tshm % size
unfolding choose_cb
choose_cb-InRange a size h = ground arith

sum_same : (a b : S3dTex) → compare_cb a b ≡ true → hash_sum a.tshm ≡ hash_sum b.tshm
unfolding compare_cb
sum_same a b h = ground arith

pub wide_cbs-IsKeyed : IsKeyed wide_cbs
unfolding compare_cb
wide_cbs-IsKeyed = record {
  same_refl = λ a. ground arith;
  same_sym = λ a b. ground arith;
  same_trans = λ a b c h k. ground arith;
  choose_same = λ a b size h. ap (λ n. n % size) (sum_same a b h);
  choose_lt = λ a size h. grind arith;
}

append_bucket-wide :
    (b : List S3dTex) (item : S3dTex) → append_bucket tex_cbs b item ≡ append_bucket wide_cbs b item
unfolding append_bucket
append_bucket-wide [] item = refl
append_bucket-wide (x ∷ b) item = rw (append_bucket-wide b item) refl

find_bucket-wide :
    (b : List S3dTex) (item : S3dTex) → find_bucket tex_cbs b item ≡ find_bucket wide_cbs b item
unfolding find_bucket
find_bucket-wide [] item = refl
find_bucket-wide (x ∷ b) item = rw (find_bucket-wide b item) refl

unlink_bucket-wide :
    (b : List S3dTex) (item : S3dTex) → unlink_bucket tex_cbs b item ≡ unlink_bucket wide_cbs b item
unfolding unlink_bucket
unlink_bucket-wide [] item = refl
unlink_bucket-wide (x ∷ b) item = rw (unlink_bucket-wide b item) refl

module _ (h : HashTable S3dTex) (item : S3dTex) (r : InRange item.tshm) where
  pub find-wide : hash_find tex_cbs h item ≡ hash_find wide_cbs h item
  unfolding hash_find
  find-wide =
      rw
        (
          choose_cb-InRange item h.size r,
          find_bucket-wide (get_or h.table (hash_sum item.tshm % h.size) []) item,
        )
        refl

  pub add-wide : hash_add tex_cbs true h item ≡ hash_add wide_cbs true h item
  unfolding hash_add
  add-wide = ground (
    arith,
    choose_cb-InRange item h.size r,
    append_bucket-wide (get_or h.table (hash_sum item.tshm % h.size) []) item,
    ap (get_or h.table),
  )

  pub remove-wide : hash_remove tex_cbs h item ≡ hash_remove wide_cbs h item
  unfolding hash_remove
  remove-wide = ground (
    arith,
    choose_cb-InRange item h.size r,
    unlink_bucket-wide (get_or h.table (hash_sum item.tshm % h.size) []) item,
  )

-- For a table of 256 lists, `_s3d_choose_cb` names one of them exactly if its sum, as an `int`, is not
-- negative or is a multiple of 256.
pub choose_cb-within :
    (t : Texshm)
    → (choose_cb (key_of t) 256 < 256) ↔ ((hash_sum t % 2 ^ 32 < 2 ^ 31) ⊎ (hash_sum t % 256 ≡ 0))
unfolding choose_cb
choose_cb-within t = ground arith
