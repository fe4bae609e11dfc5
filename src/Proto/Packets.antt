-- ===== src/Proto/Packets.antt =====
-- How `prot_com_in` of server/proto.c reads a packet of an id and whole elements.
use s3d.Base.{
  ℕ, zero, suc, ◌-◌, ◌*◌, ◌/◌, ◌^◌, ◌≤◌, ◌<◌, ◌≡◌, sym, ap, ◌∙◌, arith, true, List, [], ◌∷◌, ◌++◌,
  length, ltb, take, drop, append-nil,
}
use s3d.Wire.{put32, htonlb, ntohlb}
use s3d.Wire.Words.{AllBelow, get32-put32, length-htonlb, ntohlb-htonlb}
use s3d.Proto.{Command, counted}

pub AllBelow-take : (b n : ℕ) (xs : List ℕ) → AllBelow b xs → AllBelow b (take n xs)
AllBelow-take b zero xs h = tt
AllBelow-take b (suc n) [] h = tt
AllBelow-take b (suc n) (x ∷ xs) h = (h.0, AllBelow-take b n xs h.1)

pub AllBelow-drop : (b n : ℕ) (xs : List ℕ) → AllBelow b xs → AllBelow b (drop n xs)
AllBelow-drop b zero xs h = h
AllBelow-drop b (suc n) [] h = tt
AllBelow-drop b (suc n) (x ∷ xs) h = AllBelow-drop b n xs h.1

-- A packet with an id and whole elements is read as it was written.
pub counted-whole :
    (k : ℕ) (call : ℕ → List ℕ → ℕ → Command) (object : ℕ) (xs : List ℕ)
    → object < 2 ^ 32
    → AllBelow (2 ^ 32) xs
    → 1 ≤ length xs
    → 4 * length xs / (4 * k) * k ≡ length xs
    → counted k call (put32 object ++ htonlb xs) ≡ call object xs (4 * length xs / (4 * k))
unfolding counted
counted-whole k call object xs ho hx h1 hk =
    let e : (length (put32 object ++ htonlb xs) - 4) / (4 * k) ≡ 4 * length xs / (4 * k) =
      ap (λ m. m / (4 * k)) (omega (arith, length-htonlb xs)) in
    let t : ltb 4 (length (put32 object ++ htonlb xs)) ≡ true = ground (arith, length-htonlb xs) in
    rw (t, e, get32-put32 object (htonlb xs) ho)
      (ap (λ v. call object v (4 * length xs / (4 * k)))
        (ap (λ l. ntohlb l (4 * length xs / (4 * k) * k)) (sym (append-nil (htonlb xs)))
          ∙ ntohlb-htonlb xs (4 * length xs / (4 * k) * k) [] hx hk))
