-- ===== src/Server/Lists.antt =====
-- The list of the processes of server/process.c, entry by entry.
use s3d.Base.{
  ℕ, zero, suc, ◌≤◌, ◌<◌, ◌≡◌, refl, arith, none, some, List, [], ◌∷◌, ◌++◌, length, if◌then◌else◌,
  ◌==◌, ltb, set, take, get_elem?,
}
use s3d.Object.{Table}
use s3d.Server.{Process, mcp_objects, with_mcp}

module _ {A : Type 0} where
  pub get_elem?-set :
      (xs : List A) (i j : ℕ) (v : A)
      → i < length xs
      → get_elem? (set xs i v) j ≡ (if i == j then some v else get_elem? xs j)
  get_elem?-set [] i j v h = absurd (omega arith)
  get_elem?-set (x ∷ xs) zero zero v h = ground arith
  get_elem?-set (x ∷ xs) zero (suc j) v h = ground arith
  get_elem?-set (x ∷ xs) (suc i) zero v h = ground arith
  get_elem?-set (x ∷ xs) (suc i) (suc j) v h = ground (arith, get_elem?-set xs i j v)

  pub get_elem?-take :
      (n : ℕ) (xs : List A) (j : ℕ)
      → get_elem? (take n xs) j ≡ (if ltb j n then get_elem? xs j else none)
  get_elem?-take zero xs j = ground arith
  get_elem?-take (suc n) [] j = ground arith
  get_elem?-take (suc n) (x ∷ xs) zero = ground arith
  get_elem?-take (suc n) (x ∷ xs) (suc j) = ground (arith, get_elem?-take n xs j)

  pub get_elem?-some_lt : (xs : List A) (i : ℕ) {x : A} → get_elem? xs i ≡ some x → i < length xs
  get_elem?-some_lt [] i e = ground arith
  get_elem?-some_lt (x ∷ xs) zero e = omega arith
  get_elem?-some_lt (x ∷ xs) (suc i) e = omega (arith, get_elem?-some_lt xs i e)

  pub get_elem?-none_le : (xs : List A) (i : ℕ) → get_elem? xs i ≡ none → length xs ≤ i
  get_elem?-none_le [] i e = omega arith
  get_elem?-none_le (x ∷ xs) zero e = cc
  get_elem?-none_le (x ∷ xs) (suc i) e = omega (arith, get_elem?-none_le xs i e)

  pub get_elem?-beyond : (xs : List A) (i : ℕ) → length xs ≤ i → get_elem? xs i ≡ none
  get_elem?-beyond [] i h = refl
  get_elem?-beyond (x ∷ xs) zero h = absurd (omega arith)
  get_elem?-beyond (x ∷ xs) (suc i) h = get_elem?-beyond xs i (omega arith)

  pub get_elem?-within : (xs : List A) (i : ℕ) → i < length xs → (x : A) × (get_elem? xs i ≡ some x)
  get_elem?-within [] i h = absurd (omega arith)
  get_elem?-within (x ∷ xs) zero h = (x, refl)
  get_elem?-within (x ∷ xs) (suc i) h = get_elem?-within xs i (omega arith)

  pub get_elem?-append_one :
      (xs : List A) (x : A) (j : ℕ)
      → get_elem? (xs ++ (x ∷ [])) j ≡ (if j == length xs then some x else get_elem? xs j)
  get_elem?-append_one [] x zero = ground arith
  get_elem?-append_one [] x (suc j) = ground arith
  get_elem?-append_one (y ∷ xs) x zero = ground arith
  get_elem?-append_one (y ∷ xs) x (suc j) = ground (arith, get_elem?-append_one xs x j)

module _ {F : Type 0} where
  pub with_mcp_head :
      (ps : List (Process F)) (f : Table F → Table F)
      → get_elem? (with_mcp ps f) 0
        ≡ (elim (get_elem? ps 0) [ none ↦ none | some p ↦ some (record p { object = f p.object }) ])
  with_mcp_head [] f = refl
  with_mcp_head (p ∷ ps) f = refl

  pub with_mcp_tail :
      (ps : List (Process F)) (f : Table F → Table F) (j : ℕ)
      → get_elem? (with_mcp ps f) (suc j) ≡ get_elem? ps (suc j)
  with_mcp_tail [] f j = refl
  with_mcp_tail (p ∷ ps) f j = refl

  pub length-with_mcp :
      (ps : List (Process F)) (f : Table F → Table F) → length (with_mcp ps f) ≡ length ps
  length-with_mcp [] f = refl
  length-with_mcp (p ∷ ps) f = refl

  pub mcp_objects-with_mcp :
      (ps : List (Process F)) (f : Table F → Table F)
      → 0 < length ps
      → mcp_objects (with_mcp ps f) ≡ f (mcp_objects ps)
  mcp_objects-with_mcp [] f h = absurd (omega arith)
  mcp_objects-with_mcp (p ∷ ps) f h = refl

  pub mcp_objects-get :
      (ps : List (Process F)) {p : Process F} → get_elem? ps 0 ≡ some p → mcp_objects ps ≡ p.object
  mcp_objects-get [] e = cc
  mcp_objects-get (q ∷ ps) e = cc

  pub mcp_objects-set :
      (ps : List (Process F)) (i : ℕ) (v : Process F)
      → 0 < i
      → mcp_objects (set ps i v) ≡ mcp_objects ps
  mcp_objects-set [] i v h = refl
  mcp_objects-set (p ∷ ps) zero v h = absurd (omega arith)
  mcp_objects-set (p ∷ ps) (suc i) v h = refl

  pub mcp_objects-take :
      (n : ℕ) (ps : List (Process F)) → 0 < n → mcp_objects (take n ps) ≡ mcp_objects ps
  mcp_objects-take zero ps h = absurd (omega arith)
  mcp_objects-take (suc n) [] h = refl
  mcp_objects-take (suc n) (p ∷ ps) h = refl
