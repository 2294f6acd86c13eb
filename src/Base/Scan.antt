-- ===== src/Base/Scan.antt =====
-- Linear scans of fixed tables, and weighted sums over them.
use Prim.Native.Nat.{ℕ, zero, suc, ◌+◌, ◌<◌}
use mathlib.Core.Path.{◌≡◌, refl, ap, sym}
use mathlib.Core.Bool.{Bool, true, false}
use mathlib.Core.List.{List, [], ◌∷◌, ◌++◌}
use mathlib.Core.Option
use mathlib.Core.Option.{Option, none, some}
use mathlib.Core.Logic.{◌⊎◌, ◌≢◌, inl, inr}
use native.Mathlib.Omega.{arith}
use dmaplane_master.Base.Tests.{Bool-cases}
use dmaplane_master.Base.Lists.{length, get_elem?, set, replicate}

module _ {ℓ} {A : Type ℓ} where
  -- `for (i = 0; i < N; i++) if (p(t[i])) break;`
  unfoldable pub find_index : (A → Bool) → List A → Option ℕ
  find_index p [] = none
  find_index p (x ∷ xs) = elim (p x) [ true ↦ some 0 | false ↦ Option.map suc (find_index p xs) ]

  pub find_index-some :
      (p : A → Bool) (xs : List A) (i : ℕ)
      → find_index p xs ≡ some i
      → (a : A) × (get_elem? xs i ≡ some a) × (p a ≡ true)
  unfolding find_index
  find_index-some p [] i h = cc
  find_index-some p (x ∷ xs) zero h = elim (Bool-cases (p x)) [
    | inl e ↦ (x, refl, e)
    | inr e ↦ ground (arith, h)
  ]
  find_index-some p (x ∷ xs) (suc i) h = elim (Bool-cases (p x)) [
    | inl e ↦ ground (arith, h)
    | inr e ↦ find_index-some p xs i (ground (arith, h))
  ]

  pub find_index-none :
      (p : A → Bool) (xs : List A) (i : ℕ) (a : A)
      → find_index p xs ≡ none
      → get_elem? xs i ≡ some a
      → p a ≡ false
  unfolding find_index
  find_index-none p [] i a h g = cc
  find_index-none p (x ∷ xs) zero a h g = ground arith
  find_index-none p (x ∷ xs) (suc i) a h g = find_index-none p xs i a (ground arith) g

  -- A scan that fails on every entry
  pub find_index_of_none :
      (p : A → Bool) (xs : List A)
      → ((i : ℕ) (a : A) → get_elem? xs i ≡ some a → p a ≡ false)
      → find_index p xs ≡ none
  unfolding find_index
  find_index_of_none p [] h = refl
  find_index_of_none p (x ∷ xs) h =
      ground (arith, h 0 x refl, find_index_of_none p xs (λ i a. h (suc i) a))

  -- The only entry that passes is the one found.
  pub find_index_of_unique :
      (p : A → Bool) (xs : List A) (i : ℕ) (a : A)
      → get_elem? xs i ≡ some a
      → p a ≡ true
      → ((j : ℕ) (b : A) → get_elem? xs j ≡ some b → p b ≡ true → j ≡ i)
      → find_index p xs ≡ some i
  unfolding find_index
  find_index_of_unique p [] i a g t u = cc
  find_index_of_unique p (x ∷ xs) zero a g t u = ground arith
  find_index_of_unique p (x ∷ xs) (suc i) a g t u = elim (Bool-cases (p x)) [
    | inl e ↦ absurd (omega (arith, u 0 x refl e))
    | inr e ↦
        ground
          (arith, find_index_of_unique p xs i a g t (λ j b gj tj. omega (arith, u (suc j) b gj tj)))
  ]

  -- The first entry that passes is the one found.
  pub find_index_of_first :
      (p : A → Bool) (xs : List A) (i : ℕ) (a : A)
      → get_elem? xs i ≡ some a
      → p a ≡ true
      → ((j : ℕ) (b : A) → j < i → get_elem? xs j ≡ some b → p b ≡ false)
      → find_index p xs ≡ some i
  unfolding find_index
  find_index_of_first p [] i a g t u = cc
  find_index_of_first p (x ∷ xs) zero a g t u = ground arith
  find_index_of_first p (x ∷ xs) (suc i) a g t u = ground (
    arith,
    u 0 x (omega arith) refl,
    find_index_of_first p xs i a g t (λ j b l. u (suc j) b (omega (arith, l))),
  )

  pub lt-length_of_get : (xs : List A) (i : ℕ) {a : A} → get_elem? xs i ≡ some a → i < length xs
  lt-length_of_get [] i h = cc
  lt-length_of_get (x ∷ xs) zero h = omega arith
  lt-length_of_get (x ∷ xs) (suc i) h = omega (arith, lt-length_of_get xs i h)

  -- A write that does not change whether the entry passes does not change what is found.
  pub find_index-set_same :
      (p : A → Bool) (xs : List A) (i : ℕ) (a b : A)
      → get_elem? xs i ≡ some a
      → p b ≡ p a
      → find_index p (set xs i b) ≡ find_index p xs
  unfolding find_index
  find_index-set_same p [] i a b g e = refl
  find_index-set_same p (x ∷ xs) zero a b g e = ground arith
  find_index-set_same p (x ∷ xs) (suc i) a b g e =
      ground (arith, find_index-set_same p xs i a b g e)

  -- Where nothing passed, the entry written is what is found.
  pub find_index-set_new :
      (p : A → Bool) (xs : List A) (i : ℕ) (b : A)
      → find_index p xs ≡ none
      → i < length xs
      → p b ≡ true
      → find_index p (set xs i b) ≡ some i
  unfolding find_index
  find_index-set_new p [] i b n h t = absurd (omega arith)
  find_index-set_new p (x ∷ xs) zero b n h t = ground arith
  find_index-set_new p (x ∷ xs) (suc i) b n h t = elim (Bool-cases (p x)) [
    | inl e ↦ ground arith
    | inr e ↦ ground (arith, find_index-set_new p xs i b (ground arith) (omega arith) t)
  ]

  -- An entry of a table that has been written, and of one that has grown by an entry
  pub get_elem?-set_cases :
      (xs : List A) (i j : ℕ) (v y : A)
      → get_elem? (set xs i v) j ≡ some y
      → ((i ≡ j) × (v ≡ y)) ⊎ ((i ≢ j) × (get_elem? xs j ≡ some y))
  get_elem?-set_cases [] i j v y h = cc
  get_elem?-set_cases (x ∷ xs) zero zero v y h = inl (refl, let e = h in cc)
  get_elem?-set_cases (x ∷ xs) zero (suc j) v y h = inr ((λ e. absurd (omega arith)), h)
  get_elem?-set_cases (x ∷ xs) (suc i) zero v y h = inr ((λ e. absurd (omega arith)), h)
  get_elem?-set_cases (x ∷ xs) (suc i) (suc j) v y h = elim (get_elem?-set_cases xs i j v y h) [
    | inl (e, f) ↦ inl (ap suc e, f)
    | inr (n, f) ↦ inr ((λ e. n (omega arith)), f)
  ]

  pub get_elem?-append_cases :
      (xs : List A) (j : ℕ) (v y : A)
      → get_elem? (xs ++ (v ∷ [])) j ≡ some y
      → (get_elem? xs j ≡ some y) ⊎ (v ≡ y)
  get_elem?-append_cases [] zero v y h = inr cc
  get_elem?-append_cases [] (suc j) v y h = cc
  get_elem?-append_cases (x ∷ xs) zero v y h = inl h
  get_elem?-append_cases (x ∷ xs) (suc j) v y h = get_elem?-append_cases xs j v y h

  pub set_same : (xs : List A) (i : ℕ) (v : A) → get_elem? xs i ≡ some v → set xs i v ≡ xs
  set_same [] i v h = refl
  set_same (x ∷ xs) zero v h = let e : x ≡ v = cc in ap (λ y. y ∷ xs) (sym e)
  set_same (x ∷ xs) (suc i) v h = ap (λ ys. x ∷ ys) (set_same xs i v h)

  module _ (w : A → ℕ) where
    pub total : List A → ℕ
    total [] = 0
    total (x ∷ xs) = w x + total xs

    pub total-set :
        (xs : List A) (i : ℕ) (a b : A)
        → get_elem? xs i ≡ some a
        → total (set xs i b) + w a ≡ total xs + w b
    unfolding total
    total-set [] i a b h = cc
    total-set (x ∷ xs) zero a b h = ground arith
    total-set (x ∷ xs) (suc i) a b h = omega (arith, total-set xs i a b h)

    pub total-replicate : (n : ℕ) (a : A) → w a ≡ 0 → total (replicate n a) ≡ 0
    unfolding total
    total-replicate zero a h = refl
    total-replicate (suc n) a h = omega (arith, total-replicate n a h)

    pub total-snoc : (xs : List A) (x : A) → total (xs ++ (x ∷ [])) ≡ total xs + w x
    unfolding total
    total-snoc [] x = omega arith
    total-snoc (y ∷ xs) x = omega (arith, total-snoc xs x)

    pub total-zero :
        (xs : List A) → ((i : ℕ) (a : A) → get_elem? xs i ≡ some a → w a ≡ 0) → total xs ≡ 0
    unfolding total
    total-zero [] h = refl
    total-zero (x ∷ xs) h = omega (arith, h 0 x refl, total-zero xs (λ i. h (suc i)))
