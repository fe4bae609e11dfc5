-- ===== src/Client/Whole.antt =====
-- Which part of an array the fragments of libs3d/proto_out.c hold together.
use s3d.Base.{
  ℕ, zero, suc, ◌+◌, ◌-◌, ◌*◌, ◌/◌, ◌≤◌, ◌<◌, min, ◌≡◌, refl, sym, ap, ap₂, ◌∙◌, arith, Bool-cases,
  inl, inr, List, [], ◌∷◌, ◌++◌, length, if◌then◌else◌, ltb, take, drop, length-take, length-drop,
}
use s3d.Client.Fragments.{Shape, stepl, len, flen, part, parts, fragments}

-- the fragments one behind the other
abbrev pub joined : List (List ℕ) → List ℕ
joined [] = []
joined (xs ∷ rest) = xs ++ joined rest

pub take-all : (n : ℕ) (xs : List ℕ) → length xs ≤ n → take n xs ≡ xs
take-all zero [] h = refl
take-all (suc n) [] h = refl
take-all zero (x ∷ xs) h = absurd (omega arith)
take-all (suc n) (x ∷ xs) h = ap (λ r. x ∷ r) (take-all n xs (omega arith))

take-plus : (n m t : ℕ) (xs : List ℕ) → t ≡ n + m → take t xs ≡ take n xs ++ take m (drop n xs)
take-plus zero m t xs e = ap (λ k. take k xs) (omega arith)
take-plus (suc n) m zero xs e = absurd (omega arith)
take-plus (suc n) zero (suc t) [] e = refl
take-plus (suc n) (suc m) (suc t) [] e = refl
take-plus (suc n) m (suc t) (x ∷ xs) e = ap (λ r. x ∷ r) (take-plus n m t xs (omega arith))

pub drop-plus : (n m t : ℕ) (xs : List ℕ) → t ≡ n + m → drop m (drop n xs) ≡ drop t xs
drop-plus zero m t xs e = ap (λ k. drop k xs) (omega arith)
drop-plus (suc n) m zero xs e = absurd (omega arith)
drop-plus (suc n) zero (suc t) [] e = refl
drop-plus (suc n) (suc m) (suc t) [] e = refl
drop-plus (suc n) m (suc t) (x ∷ xs) e = drop-plus n m t xs (omega arith)

-- A cut that reaches the end, or has 16380 numbers, is the cut of 16380 numbers.
cut :
    (buf : List ℕ) (size place i unit : ℕ)
    → unit ≡ 4
    → place ≡ i * 65520
    → size ≡ (if ltb 65520 (4 * length buf - place) then 65520 else 4 * length buf - place)
    → take (size / unit) (drop (place / unit) buf) ≡ take 16380 (drop (i * 16380) buf)
cut buf size place i unit eu ep es = elim (Bool-cases (ltb 65520 (4 * length buf - place))) [
  | inl h ↦
      let a : size / unit ≡ 16380 = ground arith in
      let b : place / unit ≡ i * 16380 = ground arith in ap₂ (λ a b. take a (drop b buf)) a b
  | inr h ↦
      let e : place / unit ≡ i * 16380 = ground arith in
      ap (λ k. take (size / unit) (drop k buf)) e
      ∙ take-all (size / unit) (drop (i * 16380) buf) (ground (arith, length-drop (i * 16380) buf))
      ∙ sym (take-all 16380 (drop (i * 16380) buf) (ground (arith, length-drop (i * 16380) buf)))
]

-- Numbers of four bytes and full fragments of 65520 bytes: fragment `i` are the 16380 numbers from
-- number `i * 16380` on.
pub part-eq :
    (s : Shape) (buf : List ℕ) (n i : ℕ)
    → s.unit ≡ 4
    → stepl s ≡ 65520
    → len s n ≡ 4 * length buf
    → part s buf n i ≡ take 16380 (drop (i * 16380) buf)
unfolding part flen
part-eq s buf n i eu es el =
    cut buf (flen s n i) (i * stepl s) i s.unit eu (ap (λ k. i * k) es)
      (ap₂ (λ a b. if ltb a (b - i * stepl s) then a else b - i * stepl s) es el)

-- The fragments from fragment `i` on are the numbers from number `i * 16380` on, as far as the
-- number of fragments reaches.
parts-joined :
    (s : Shape) (buf : List ℕ) (n left i : ℕ)
    → s.unit ≡ 4
    → stepl s ≡ 65520
    → len s n ≡ 4 * length buf
    → joined (parts s buf n left i) ≡ take (left * 16380) (drop (i * 16380) buf)
unfolding parts
parts-joined s buf n zero i eu es el = refl
parts-joined s buf n (suc left) i eu es el =
    ap₂ ◌++◌ (part-eq s buf n i eu es el) (
      parts-joined s buf n left (suc i) eu es el
      ∙ ap (take (left * 16380))
          (sym (drop-plus (i * 16380) 16380 (suc i * 16380) buf (omega arith))))
    ∙ sym (take-plus 16380 (left * 16380) (suc left * 16380) (drop (i * 16380) buf) (omega arith))

reach : (f m t step : ℕ) → f * step ≡ f * 65520 → t ≡ 4 * m → t ≤ f * step → m ≤ f * 16380
reach f m t step e et h = omega arith

short : (f m t step : ℕ) → f * step ≡ f * 65520 → t ≡ 4 * m → f * step < t → min (f * 16380) m < m
short f m t step e et h = omega arith

-- The fragments of an array of numbers of four bytes, sent in steps of 65520 bytes, are together the
-- whole array, if the steps reach its end.
pub fragments-whole :
    (s : Shape) (buf : List ℕ) (n : ℕ)
    → s.unit ≡ 4
    → stepl s ≡ 65520
    → len s n ≡ 4 * length buf
    → len s n ≤ fragments s n * stepl s
    → joined (parts s buf n (fragments s n) 0) ≡ buf
fragments-whole s buf n eu es el h =
    parts-joined s buf n (fragments s n) 0 eu es el
    ∙ take-all (fragments s n * 16380) buf (
        reach (fragments s n) (length buf) (len s n) (stepl s) (ap (λ k. fragments s n * k) es) el
          h)

-- If the steps do not reach the end of the array, the numbers behind them are never sent: the
-- fragments are together as many numbers from the front as the steps hold.
pub fragments-lossy :
    (s : Shape) (buf : List ℕ) (n : ℕ)
    → s.unit ≡ 4
    → stepl s ≡ 65520
    → len s n ≡ 4 * length buf
    → fragments s n * stepl s < len s n
    → length (joined (parts s buf n (fragments s n) 0)) < length buf
fragments-lossy s buf n eu es el h =
    rw (parts-joined s buf n (fragments s n) 0 eu es el, length-take (fragments s n * 16380) buf)
      (short (fragments s n) (length buf) (len s n) (stepl s) (ap (λ k. fragments s n * k) es) el h)
