-- ===== src/Hash/Buckets.antt =====
-- One list of buckets of libs3d/hash.c.
use s3d.Base.{
  ℕ, ◌<◌, ◌≡◌, refl, arith, true, none, some, List, [], ◌∷◌, ◌++◌, Bool-cases, inl, inr,
  if◌then◌else◌,
}
use s3d.Hash.{Callbacks, append_bucket, find_bucket, unlink_bucket}

-- what a program that has such a table must see to: `compare` tells keys apart, and `choose` depends
-- on the key only and stays inside the table
pub record IsKeyed {D : Type 0} (cb : Callbacks D) : Type 0 where
  pub same_refl : (a : D) → cb.same a a ≡ true
  pub same_sym : (a b : D) → cb.same a b ≡ cb.same b a
  pub same_trans : (a b c : D) → cb.same a b ≡ true → cb.same b c ≡ true → cb.same a c ≡ true
  pub choose_same : (a b : D) (size : ℕ) → cb.same a b ≡ true → cb.choose a size ≡ cb.choose b size
  pub choose_lt : (a : D) (size : ℕ) → 0 < size → cb.choose a size < size

-- The list has no two data of one key.
pub data Distinct {D : Type 0} (cb : Callbacks D) : List D → Type 0 where
  empty : Distinct cb []
  cons : {x : D} {b : List D} → find_bucket cb b x ≡ none → Distinct cb b → Distinct cb (x ∷ b)

module _ {D : Type 0} (cb : Callbacks D) where
  pub append_bucket_lem :
      (b : List D) (item : D)
      → append_bucket cb b item
        ≡ (elim (find_bucket cb b item) [ none ↦ some (b ++ (item ∷ [])) | some x ↦ none ])
  unfolding append_bucket find_bucket
  append_bucket_lem [] item = refl
  append_bucket_lem (x ∷ b) item = ground (arith, append_bucket_lem b item)

  pub find_bucket-append :
      (b c : List D) (key : D)
      → find_bucket cb (b ++ c) key
        ≡ (elim (find_bucket cb b key) [ none ↦ find_bucket cb c key | some x ↦ some x ])
  unfolding find_bucket
  find_bucket-append [] c key = refl
  find_bucket-append (x ∷ b) c key = elim (Bool-cases (cb.same x key)) [
    | inl e ↦ rw e refl
    | inr e ↦ rw e (find_bucket-append b c key)
  ]

  pub find_bucket-one :
      (item key : D)
      → find_bucket cb (item ∷ []) key ≡ (if cb.same item key then some item else none)
  unfolding find_bucket
  find_bucket-one item key = refl

module _ {D : Type 0} (cb : Callbacks D) (h : IsKeyed cb) where
  -- Data of the same key are found alike.
  pub find_bucket-same :
      (b : List D) (a k : D) → cb.same a k ≡ true → find_bucket cb b a ≡ find_bucket cb b k
  unfolding find_bucket
  find_bucket-same [] a k e = refl
  find_bucket-same (x ∷ b) a k e =
      ground
        (arith, find_bucket-same b a k e, h.same_trans x a k, h.same_trans x k a, h.same_sym a k)

  pub find_bucket-unlink :
      (b : List D) (item key : D)
      → Distinct cb b
      → find_bucket cb (unlink_bucket cb b item).1 key
        ≡ (if cb.same item key then none else find_bucket cb b key)
  unfolding find_bucket unlink_bucket
  find_bucket-unlink [] item key d = ground arith
  find_bucket-unlink (x ∷ b) item key (cons f d) = ground (
    arith,
    find_bucket-unlink b item key d,
    h.same_trans x item key,
    h.same_trans item x key,
    h.same_trans x key item,
    h.same_sym x item,
    h.same_sym key item,
    find_bucket-same b x key,
    find_bucket-same b item key,
  )

  pub unlink_bucket-Distinct :
      (b : List D) (item : D) → Distinct cb b → Distinct cb (unlink_bucket cb b item).1
  unfolding unlink_bucket find_bucket
  unlink_bucket-Distinct [] item d = empty
  unlink_bucket-Distinct (x ∷ b) item (cons f d) = elim (Bool-cases (cb.same x item)) [
    | inl e ↦ rw e d
    | inr e ↦
        rw e (
          cons (ground (arith, find_bucket-unlink b item x d, f)) (unlink_bucket-Distinct b item d))
  ]

  pub unlink_bucket-find :
      (b : List D) (item : D) → (unlink_bucket cb b item).0 ≡ find_bucket cb b item
  unfolding unlink_bucket find_bucket
  unlink_bucket-find [] item = refl
  unlink_bucket-find (x ∷ b) item = ground (arith, unlink_bucket-find b item)

  find_bucket-rest :
      (x : D) (b : List D) (key : D)
      → find_bucket cb (x ∷ b) key ≡ none
      → find_bucket cb b key ≡ none
  unfolding find_bucket
  find_bucket-rest x b key e = ground arith

  pub append-Distinct :
      (b : List D) (item : D)
      → find_bucket cb b item ≡ none
      → Distinct cb b
      → Distinct cb (b ++ (item ∷ []))
  unfolding find_bucket
  append-Distinct [] item e d = cons refl empty
  append-Distinct (x ∷ b) item e (cons f d) =
      cons (ground (arith, find_bucket-append cb b (item ∷ []) x, f, h.same_sym x item))
        (append-Distinct b item (find_bucket-rest x b item e) d)
