-- ===== src/Histogram/Quantile.antt =====
-- The percentiles that the loop of `dmaplane_histogram_summarize` reports.
use mathlib.Core.Bool.{true≢false}
use native.Mathlib.Nat.{mul-le-mul_left}
use dmaplane_master.Base.{
  ℕ, zero, suc, ◌+◌, ◌*◌, ◌%◌, ◌≤◌, ◌<◌, ◌≡◌, inl, inr, arith, refl, sym, ◌∙◌, ap, subst, Bool,
  true, false, leb, leb→le, List, [], ◌∷◌, length, u64_mod, Bool-cases, add64, ap₂,
}
use dmaplane_master.Histogram.{
  Histogram, bucket_upper_ns, hist_buckets, Mark, mark, unmarked, crosses, walk, walk_bucket, Walk,
}
use dmaplane_master.Histogram.Samples.{cumulative, cumulative_mono}

-- The loop as one percentile sees it: `hit` tests the running count.
unfoldable pub scan : (ℕ → Bool) → List ℕ → ℕ → ℕ → Mark → Mark
scan hit [] i c m = m
scan hit (b ∷ bs) i c m = scan hit bs (suc i) (c + b) (mark (hit (c + b)) (bucket_upper_ns i) m)

module _ (total num den : ℕ) (field : Walk → Mark)
    (marks : (i c : ℕ) (w : Walk)
      → field (walk_bucket total i c w)
        ≡ mark (crosses num den total c) (bucket_upper_ns i) (field w))
    (steps : (i c : ℕ) (w : Walk) → (walk_bucket total i c w).cumulative ≡ c) where
  pub walk-scan :
      (bs : List ℕ) (i : ℕ) (w : Walk)
      → w.cumulative + cumulative (length bs) bs < u64_mod
      → field (walk total bs i w) ≡ scan (crosses num den total) bs i w.cumulative (field w)
  unfolding walk scan cumulative
  walk-scan [] i w h = refl
  walk-scan (b ∷ bs) i w h =
      let w' = walk_bucket total i (add64 w.cumulative b) w in
      let c = steps i (add64 w.cumulative b) w in
      let sum : w'.cumulative ≡ w.cumulative + b = omega (arith, c) in
      let plain : add64 w.cumulative b ≡ w.cumulative + b = omega arith in
      walk-scan bs (suc i) w' (omega (arith, sum))
      ∙ ap₂ (λ x m. scan (crosses num den total) bs (suc i) x m) sum
          (marks i (add64 w.cumulative b) w
            ∙ ap (λ x. mark (crosses num den total x) (bucket_upper_ns i) (field w)) plain)

found_stays :
    (hit : ℕ → Bool) (bs : List ℕ) (i c : ℕ) (m : Mark) → m.found ≡ true → scan hit bs i c m ≡ m
unfolding scan
found_stays hit [] i c m f = refl
found_stays hit (b ∷ bs) i c m f =
    let same : mark (hit (c + b)) (bucket_upper_ns i) m ≡ m = rw f refl in
    rw same (found_stays hit bs (suc i) (c + b) m f)

-- A crossing at bucket j, and at none before it
abbrev First : (ℕ → Bool) → List ℕ → ℕ → ℕ → Type 0
First hit bs c j =
    (hit (c + cumulative (suc j) bs) ≡ true)
    × ((k : ℕ) → k < j → hit (c + cumulative (suc k) bs) ≡ false)

step_before :
    (hit : ℕ → Bool) (b : ℕ) (bs : List ℕ) (c j : ℕ)
    → hit (c + b) ≡ false
    → ((k : ℕ) → k < j → hit (c + b + cumulative (suc k) bs) ≡ false)
    → (k : ℕ) → k < suc j
    → hit (c + (b + cumulative k bs)) ≡ false
unfolding cumulative
step_before hit b bs c j miss before zero l = ap hit (omega arith) ∙ miss
step_before hit b bs c j miss before (suc k) l = ap hit (omega arith) ∙ before k (omega arith)

more_to_come :
    (hit : ℕ → Bool) (b : ℕ) (bs : List ℕ) (c : ℕ)
    → hit (c + b) ≡ false
    → hit (c + (b + cumulative (length bs) bs)) ≡ true
    → 0 < length bs
unfolding cumulative
more_to_come hit b [] c miss hits = absurd (true≢false (sym hits ∙ ap hit (omega arith) ∙ miss))
more_to_come hit b (x ∷ bs) c miss hits = omega arith

scan_lem :
    (hit : ℕ → Bool) (bs : List ℕ) (i c : ℕ) (m : Mark)
    → m.found ≡ false
    → 0 < length bs
    → hit (c + cumulative (length bs) bs) ≡ true
    → (j : ℕ) × (j < length bs)
      × First hit bs c j
      × ((scan hit bs i c m).value ≡ bucket_upper_ns (i + j))
unfolding scan cumulative
scan_lem hit [] i c m f p h = absurd (omega arith)
scan_lem hit (b ∷ bs) i c m f p h = elim (Bool-cases (hit (c + b))) [
  | inl hits ↦
      let marked : mark (hit (c + b)) (bucket_upper_ns i) m
          ≡ record { found = true; value = bucket_upper_ns i } =
        rw (f, hits) refl in
      (
        0,
        omega arith,
        (ap hit (omega arith) ∙ hits, λ k l. absurd (omega arith)),
        ap (λ x. (scan hit bs (suc i) (c + b) x).value) marked
            ∙ (ap Mark.value (found_stays hit bs (suc i) (c + b) _ refl)
                ∙ ap bucket_upper_ns (omega arith)),
      )
  | inr miss ↦
      let passed : mark (hit (c + b)) (bucket_upper_ns i) m ≡ m = rw (f, miss) refl in
      let (j, l, (at, before), v) =
        scan_lem hit bs (suc i) (c + b) m f (more_to_come hit b bs c miss h)
          (ap hit (omega arith) ∙ h) in
      (
        suc j,
        omega arith,
        (ap hit (omega arith) ∙ at, step_before hit b bs c j miss before),
        ap (λ x. (scan hit bs (suc i) (c + b) x).value) passed
            ∙ (v ∙ ap bucket_upper_ns (omega arith)),
      )
]

-- The value is the upper bound of the first bucket at which the samples counted so far, of the
-- `total`, reach the fraction num / den.
abbrev pub IsQuantile : ℕ → ℕ → Histogram → ℕ → Type 0
IsQuantile num den h v =
    (j : ℕ) × (j < hist_buckets)
    × (h.count * num ≤ cumulative (suc j) h.buckets * den)
    × ((k : ℕ) → k < j → cumulative (suc k) h.buckets * den < h.count * num)
    × (v ≡ bucket_upper_ns j)

-- A histogram whose buckets hold all its samples, of which 10,000 times as many still fit in a word
pub record Sound (h : Histogram) : Type 0 where
  pub size : length h.buckets ≡ hist_buckets
  pub all : cumulative hist_buckets h.buckets ≡ h.count
  pub small : h.count * 10000 < u64_mod

not-leb : (a b : ℕ) → leb a b ≡ false → b < a
not-leb a b h = ground arith

leb_of_le : (a b : ℕ) → a ≤ b → leb a b ≡ true
leb_of_le a b h = ground arith

in_word : (a : ℕ) → a < u64_mod → a % u64_mod ≡ a
in_word a h = omega arith

product_fits : (h : Histogram) → Sound h → (c k : ℕ) → c ≤ h.count → k ≤ 10000 → c * k < u64_mod
product_fits h s c k l m = grind (arith, s.small)

module _ (h : Histogram) (s : Sound h) where
  crosses_exact :
      (num den c : ℕ)
      → num ≤ 10000
      → den ≤ 10000
      → c ≤ h.count
      → crosses num den h.count c ≡ leb (h.count * num) (c * den)
  crosses_exact num den c n d l =
      ap₂ leb (in_word (h.count * num) (product_fits h s h.count num (omega arith) n))
        (in_word (c * den) (product_fits h s c den l d))

  below_all : (n : ℕ) → n ≤ hist_buckets → cumulative n h.buckets ≤ h.count
  below_all n l = omega (arith, cumulative_mono h.buckets n hist_buckets l, s.all)

  pub quantile :
      (num den : ℕ)
      → num ≤ den
      → den ≤ 10000
      → IsQuantile num den h (scan (crosses num den h.count) h.buckets 0 0 unmarked).value
  quantile num den n d =
      let test : (m : ℕ)
          → m ≤ hist_buckets
          → crosses num den h.count (0 + cumulative m h.buckets)
            ≡ leb (h.count * num) (cumulative m h.buckets * den) =
        λ m l.
          ap (crosses num den h.count) (omega arith)
          ∙ crosses_exact num den _ (omega arith) d (below_all m l) in
      let whole : crosses num den h.count (0 + cumulative (length h.buckets) h.buckets) ≡ true =
        subst (λ m. crosses num den h.count (0 + cumulative m h.buckets) ≡ true) (sym s.size)
          (test hist_buckets (omega arith)
            ∙ leb_of_le _ _
                (subst (λ x. h.count * num ≤ x * den) (sym s.all) (mul-le-mul_left h.count n))) in
      let (j, l, (at, before), v) =
        scan_lem (crosses num den h.count) h.buckets 0 0 unmarked refl (omega (arith, s.size))
          whole in
      let l16 : j < hist_buckets = omega (arith, s.size) in
      let earlier : (k : ℕ) → k < j → cumulative (suc k) h.buckets * den < h.count * num =
        λ k kl. not-leb _ _ (sym (test (suc k) (omega arith)) ∙ before k kl) in
      (
        j,
        l16,
        leb→le _ _ (sym (test (suc j) (omega arith)) ∙ at),
        (λ k kl. not-leb _ _ (sym (test (suc k) (omega arith)) ∙ before k kl)),
        v ∙ ap bucket_upper_ns (omega arith),
      )
