-- ===== src/Tcp/Buffer.antt =====
-- The buffer that tcp_prot_com_in of server/tcp.c reads a packet into.
use s3d.Base.{
  ℕ, ◌+◌, ◌-◌, ◌^◌, ◌≤◌, ◌<◌, ◌≡◌, refl, ap, ◌∙◌, arith, List, [], ◌∷◌, ◌++◌, length, take, drop,
  get_or, blit, length-blit, get_or-blit, list_ext, get_or-drop, length-drop, length-append,
  get_or-append,
}
use s3d.Wire.{put16, get16}
use s3d.Tcp.{packet_in}
use s3d.Tcp.Readn.{take-append}

module _ {A : Type 0} where
  pub take-prefix : (xs ys : List A) → take (length xs) (xs ++ ys) ≡ xs
  take-prefix [] ys = refl
  take-prefix (x ∷ xs) ys = ap (λ l. x ∷ l) (take-prefix xs ys)

  pub drop-prefix : (xs ys : List A) → drop (length xs) (xs ++ ys) ≡ ys
  drop-prefix [] ys = refl
  drop-prefix (x ∷ xs) ys = drop-prefix xs ys

pair_eq : {A B : Type 0} {a c : A} {b d : B} → a ≡ c → b ≡ d → ◌≡◌ {A = A × B} (a, b) (c, d)
pair_eq e f = cc

-- What stands in a buffer from where bytes are written into it on, and from behind them on.
drop-blit :
    (xs : List ℕ) (i : ℕ) (ys : List ℕ)
    → i + length ys ≤ length xs
    → drop i (blit xs i ys) ≡ ys ++ drop (i + length ys) xs
drop-blit xs i ys h =
    list_ext (drop i (blit xs i ys)) (ys ++ drop (i + length ys) xs) 0
      (omega (
        arith,
        length-append ys (drop (i + length ys) xs),
        length-drop i (blit xs i ys),
        length-drop (i + length ys) xs,
        length-blit xs i ys,
      ))
      (λ j p. ground (
        arith,
        get_or-append ys (drop (i + length ys) xs) j 0,
        get_or-drop (i + length ys) xs (j - length ys) 0,
        get_or-drop i (blit xs i ys) j 0,
        get_or-blit xs i ys (i + j) 0 h,
        ap (λ k. get_or ys k 0) (let e : i + j - i ≡ j = omega arith in e),
        λ (q : length ys ≤ j).
            ap (λ k. get_or xs k 0)
              (let e : i + length ys + (j - length ys) ≡ i + j = omega arith in e),
      ))

drop-blit_behind :
    (xs : List ℕ) (i : ℕ) (ys : List ℕ) (j : ℕ)
    → i + length ys ≤ length xs
    → i + length ys ≤ j
    → drop j (blit xs i ys) ≡ drop j xs
drop-blit_behind xs i ys j h k =
    list_ext (drop j (blit xs i ys)) (drop j xs) 0
      (omega (arith, length-drop j (blit xs i ys), length-drop j xs, length-blit xs i ys))
      (λ m p. ground (
        arith,
        get_or-drop j xs m 0,
        get_or-drop j (blit xs i ys) m 0,
        get_or-blit xs i ys (j + m) 0 h,
      ))

pub blit-all : (xs ys : List ℕ) → length xs ≡ length ys → blit xs 0 ys ≡ ys
blit-all xs ys h =
    list_ext (blit xs 0 ys) ys 0 (omega (arith, length-blit xs 0 ys))
      (λ i p. ground (arith, length-blit xs 0 ys, get_or-blit xs 0 ys i 0))

-- the three bytes before a payload of `n` bytes, and a buffer with them
abbrev pub header : ℕ → ℕ → List ℕ
header opcode n = opcode ∷ put16 n

abbrev pub headed : List ℕ → ℕ → ℕ → List ℕ
headed ibuf opcode n = blit ibuf 0 (header opcode n)

module _ (ibuf : List ℕ) (opcode n : ℕ) (part : List ℕ) (h : 4 + length part ≤ length ibuf) where
  headed_at : (i : ℕ) → i < 3 → get_or (headed ibuf opcode n) i 0 ≡ get_or (header opcode n) i 0
  headed_at i p = ground (arith, get_or-blit ibuf 0 (header opcode n) i 0)

  filled_at :
      (i : ℕ)
      → i < 3
      → get_or (blit (headed ibuf opcode n) 4 part) i 0 ≡ get_or (header opcode n) i 0
  filled_at i p = ground (
    arith,
    length-blit ibuf 0 (header opcode n),
    get_or-blit (headed ibuf opcode n) 4 part i 0,
    headed_at i p,
  )

  -- The header is read as it was written.
  pub length-headed : n < 2 ^ 16 → get16 (drop 1 (headed ibuf opcode n)) ≡ n
  length-headed k = omega (
    arith,
    get_or-drop 1 (headed ibuf opcode n) 0 0,
    get_or-drop 1 (headed ibuf opcode n) 1 0,
    headed_at 1 (omega arith),
    headed_at 2 (omega arith),
  )

  length-filled : n < 2 ^ 16 → get16 (drop 1 (blit (headed ibuf opcode n) 4 part)) ≡ n
  length-filled k = omega (
    arith,
    get_or-drop 1 (blit (headed ibuf opcode n) 4 part) 0 0,
    get_or-drop 1 (blit (headed ibuf opcode n) 4 part) 1 0,
    filled_at 1 (omega arith),
    filled_at 2 (omega arith),
  )

  pub packet_in-filled :
      n < 2 ^ 16
      → length part ≤ n
      → packet_in (blit (headed ibuf opcode n) 4 part)
        ≡ (opcode, part ++ take (n - length part) (drop (4 + length part) ibuf))
  unfolding packet_in
  packet_in-filled k m =
      let kept : 4 + length part ≤ length (headed ibuf opcode n) =
        omega (arith, length-blit ibuf 0 (header opcode n)) in
      pair_eq (filled_at 0 (omega arith)) (
        ap (λ j. take j (drop 4 (blit (headed ibuf opcode n) 4 part))) (length-filled k)
        ∙ ap (take n) (drop-blit (headed ibuf opcode n) 4 part kept)
        ∙ take-append n part (drop (4 + length part) (headed ibuf opcode n)) m
        ∙ ap (λ l. part ++ take (n - length part) l)
            (drop-blit_behind ibuf 0 (header opcode n) (4 + length part) (omega arith)
              (omega arith)))
