-- ===== src/Sweep/Saturation.antt =====
-- The search for the depth of saturation, driver/flow_control.c.
use dmaplane_master.Base.{
  u64_mod, ◌⊎◌, ℕ, zero, suc, ◌+◌, ◌-◌, ◌*◌, ◌&&◌, ◌<◌, ◌≤◌, ◌≡◌, inl, inr, refl, ◌∙◌, sym, true,
  false, Bool-cases, ltb, leb, List, [], ◌∷◌, Option, none, some, arith, length, take, get_elem?,
  find_index_of_first, find_index_of_none,
}
use dmaplane_master.Sweep.{SweepParams, saturation_qdepth, threshold, max_throughput}

module _ {A : Type 0} where
  get_elem?-take : (n i : ℕ) (xs : List A) → i < n → get_elem? (take n xs) i ≡ get_elem? xs i
  get_elem?-take zero i xs h = absurd (omega (arith, h))
  get_elem?-take (suc n) i [] h = refl
  get_elem?-take (suc n) zero (x ∷ xs) h = refl
  get_elem?-take (suc n) (suc i) (x ∷ xs) h = get_elem?-take n i xs (omega (arith, h))

  lt_of_get-take : (n i : ℕ) (xs : List A) (a : A) → get_elem? (take n xs) i ≡ some a → i < n
  lt_of_get-take zero i xs a h = absurd (ground (arith, h))
  lt_of_get-take (suc n) i [] a h = absurd (ground (arith, h))
  lt_of_get-take (suc n) zero (x ∷ xs) a h = omega arith
  lt_of_get-take (suc n) (suc i) (x ∷ xs) a h = omega (arith, lt_of_get-take n i xs a h)

-- The largest throughput of a curve
pub record IsLargest (m : ℕ) (xs : List ℕ) : Type 0 where
  pub above : (j y : ℕ) → get_elem? xs j ≡ some y → y ≤ m
  pub taken : (m ≡ 0) ⊎ ((j : ℕ) × (get_elem? xs j ≡ some m))

-- A throughput that falls short of 95 % of m by 1 MB/s or more, or that does not
abbrev pub IsShort : (m x : ℕ) → Type 0
IsShort m x = 100 * (x + 1) ≤ 95 * m

abbrev pub IsNear : (m x : ℕ) → Type 0
IsNear m x = 95 * m < 100 * (x + 1)

-- Where a curve of throughputs with the largest m flattens: nowhere, if all are 0 or every point before
-- the last falls short; or at the first point before the last that does not.
pub data Flattens (m : ℕ) (xs : List ℕ) : Option ℕ → Type 0 where
  no_traffic : m ≡ 0 → Flattens m xs none
  climbing :
      ((j y : ℕ) → j + 1 < length xs → get_elem? xs j ≡ some y → IsShort m y) → Flattens m xs none
  at_point :
      (i x : ℕ)
      → 1 ≤ m
      → i + 1 < length xs
      → get_elem? xs i ≡ some x
      → IsNear m x
      → ((j y : ℕ) → j < i → get_elem? xs j ≡ some y → IsShort m y)
      → Flattens m xs (some i)

max_throughput-above : (xs : List ℕ) (j y : ℕ) → get_elem? xs j ≡ some y → y ≤ max_throughput xs
unfolding max_throughput
max_throughput-above [] j y h = cc
max_throughput-above (x ∷ xs) zero y h = let e : x ≡ y = cc in omega (arith, e)
max_throughput-above (x ∷ xs) (suc j) y h = omega (arith, max_throughput-above xs j y h)

max_throughput-least :
    (xs : List ℕ) (m : ℕ) → ((j y : ℕ) → get_elem? xs j ≡ some y → y ≤ m) → max_throughput xs ≤ m
unfolding max_throughput
max_throughput-least [] m h = omega arith
max_throughput-least (x ∷ xs) m h =
    omega (arith, h 0 x refl, max_throughput-least xs m (λ j. h (suc j)))

max_throughput_lem : (xs : List ℕ) (m : ℕ) → IsLargest m xs → max_throughput xs ≡ m
max_throughput_lem xs m h = elim h.taken [
  | inl e ↦ omega (arith, max_throughput-least xs m h.above, e)
  | inr (j, g) ↦ omega (arith, max_throughput-least xs m h.above, max_throughput-above xs j m g)
]

-- For a curve whose largest throughput m, in MB/s, has 95 * m below 2^64: the depth that is reported is
-- that of the first point before the last that reaches 95 % of m, up to less than 1 MB/s, as the code
-- rounds the threshold down; and it is 0 where every point before the last falls short of that by
-- 1 MB/s or more, or nothing was transferred.
pub saturation_qdepth_lem :
    (p : SweepParams) (xs : List ℕ) (m : ℕ) (o : Option ℕ)
    → IsLargest m xs
    → 95 * m < u64_mod
    → Flattens m xs o
    → saturation_qdepth p xs ≡ (elim o [ none ↦ 0 | some i ↦ p.min_qdepth + i * p.step ])
unfolding saturation_qdepth
saturation_qdepth_lem p xs m none g b (no_traffic h) =
    let a : ltb 0 (max_throughput xs) ≡ false = ground (arith, h, max_throughput_lem xs m g) in
    rw a refl
saturation_qdepth_lem p xs m none g b (climbing f) =
    let n = length xs - 1 in
    let top = max_throughput_lem xs m g in
    let c =
      find_index_of_none (λ x. leb (threshold xs) x) (take n xs)
        (λ j y q.
          let l = lt_of_get-take n j xs y q in
          let z = f j y (omega (arith, l)) (sym (get_elem?-take n j xs l) ∙ q) in
          ground (arith, z, top, b)) in
    elim (Bool-cases (ltb 0 (max_throughput xs) && leb 2 (length xs))) [
      | inl e ↦ rw (e, c) refl
      | inr e ↦ rw e refl
    ]
saturation_qdepth_lem p xs m (some i) g b (at_point _ x h l at t f) =
    let n = length xs - 1 in
    let top = max_throughput_lem xs m g in
    let pos : ltb 0 (max_throughput xs) ≡ true = ground (arith, h, top) in
    let two : leb 2 (length xs) ≡ true = ground (arith, l) in
    let c =
      find_index_of_first (λ x. leb (threshold xs) x) (take n xs) i x
        (get_elem?-take n i xs (omega (arith, l)) ∙ at) (ground (arith, t, top, b))
        (λ j y k q.
          let z = f j y k (sym (get_elem?-take n j xs (omega (arith, l, k))) ∙ q) in
          ground (arith, z, top, b)) in
    rw (pos, two, c) refl
