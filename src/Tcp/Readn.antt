-- ===== src/Tcp/Readn.antt =====
-- The loop of tcp_readn in server/tcp.c and libs3d/tcp.c.
use s3d.Base.{
  ℕ, zero, suc, ◌-◌, ◌≤◌, ◌<◌, ◌≡◌, ◌≢◌, refl, sym, ap, ◌∙◌, arith, inl, inr, Bool, Bool-cases,
  true, none, some, List, [], ◌∷◌, ◌++◌, length, take, drop, ◌==◌, Option-cases,
}
use s3d.Tcp.{Reader, read_left, tcp_readn}

module _ {A : Type 0} where
  pub take-append :
      (n : ℕ) (xs ys : List A) → length xs ≤ n → take n (xs ++ ys) ≡ xs ++ take (n - length xs) ys
  take-append n [] ys h = ap (λ k. take k ys) (omega arith)
  take-append zero (x ∷ xs) ys h = absurd (omega arith)
  take-append (suc n) (x ∷ xs) ys h =
      ap (λ l. x ∷ l) (take-append n xs ys (omega arith) ∙ ap (λ k. xs ++ take k ys) (omega arith))

  pub drop-append :
      (n : ℕ) (xs ys : List A) → length xs ≤ n → drop n (xs ++ ys) ≡ drop (n - length xs) ys
  drop-append n [] ys h = ap (λ k. drop k ys) (omega arith)
  drop-append zero (x ∷ xs) ys h = absurd (omega arith)
  drop-append (suc n) (x ∷ xs) ys h =
      drop-append n xs ys (omega arith) ∙ ap (λ k. drop k ys) (omega arith)

  pub take-nil : (n : ℕ) → take {A = A} n [] ≡ []
  take-nil zero = refl
  take-nil (suc n) = refl

  pub drop-nil : (n : ℕ) → drop {A = A} n [] ≡ []
  drop-nil zero = refl
  drop-nil (suc n) = refl

-- No call of `read` fails.
abbrev pub ReadsWell : Reader → Type 0
ReadsWell r = (s : r.Socket) (n : ℕ) → (r.read s n).0 ≢ none

module _ (r : Reader) (well : ReadsWell r) where
  open r use {Socket, read, waiting, read_bytes, read_end}

  -- the three parts of a result
  abbrev Whole : Socket → ℕ → Bool × List ℕ × Socket → Type 0
  Whole s n (ok, bytes, s') =
      (ok ≡ true) × (bytes ≡ take n (waiting s)) × (waiting s' ≡ drop n (waiting s))

  module _ (fuel : ℕ) (s : Socket) (n : ℕ) where
    read_left-zero : n ≡ 0 → read_left r fuel s n ≡ (true, [], s)
    unfolding read_left
    read_left-zero e = rw e (lem fuel)
      where
        lem : (f : ℕ) → read_left r f s 0 ≡ (true, [], s)
        lem zero = refl
        lem (suc f) = refl

    read_left-end :
        0 < n → (read s n).0 ≡ some [] → read_left r (suc fuel) s n ≡ (true, [], (read s n).1)
    unfolding read_left
    read_left-end h e = ground arith

    read_left-some :
        (b : ℕ) (bs : List ℕ)
        → 0 < n
        → (read s n).0 ≡ some (b ∷ bs)
        → let rest = read_left r fuel (read s n).1 (n - length (b ∷ bs)) in
          read_left r (suc fuel) s n ≡ (rest.0, (b ∷ bs) ++ rest.1, rest.2)
    unfolding read_left
    read_left-some b bs h e = ground arith

  read_left-Whole : (fuel : ℕ) (s : Socket) (n : ℕ) → n ≤ fuel → Whole s n (read_left r fuel s n)
  read_left-Whole zero s n h =
      let z : n ≡ 0 = omega arith in rw (read_left-zero 0 s n z, z) (refl, refl, refl)
  read_left-Whole (suc fuel) s n h = elim (Bool-cases (n == 0)) [
    | inl e ↦
        let z : n ≡ 0 = ground arith in rw (read_left-zero (suc fuel) s n z, z) (refl, refl, refl)
    | inr e ↦
        let p : 0 < n = ground arith in
        elim (Option-cases (read s n).0) [
          | inl f ↦ absurd (well s n f)
          | inr ([], f) ↦
              let got = read_bytes s n [] f in
              rw (read_left-end fuel s n p f, got.1, read_end s n p f)
                (refl, sym (take-nil n), sym (drop-nil n))
          | inr (b ∷ bs, f) ↦
              let got = read_bytes s n (b ∷ bs) f in
              let rest = read_left-Whole fuel (read s n).1 (n - length (b ∷ bs)) (omega arith) in
              rw (read_left-some fuel s n b bs p f) (
                rest.0,
                ap (λ l. (b ∷ bs) ++ l) rest.1
                    ∙ sym (take-append n (b ∷ bs) (waiting (read s n).1) got.0)
                    ∙ ap (take n) got.1,
                rest.2
                    ∙ sym (drop-append n (b ∷ bs) (waiting (read s n).1) got.0)
                    ∙ ap (drop n) got.1,
              )
        ]
  ]

  -- However the calls of `read` cut what is sent, tcp_readn reads the next `n` bytes of it, or all that
  -- is left, and leaves the others, if no call of `read` fails.
  pub tcp_readn_whole :
      (s : Socket) (n : ℕ)
      → let (ok, bytes, s') = tcp_readn r s n in
        (ok ≡ true) × (bytes ≡ take n (waiting s)) × (waiting s' ≡ drop n (waiting s))
  unfolding tcp_readn
  tcp_readn_whole s n = read_left-Whole n s n (omega arith)
