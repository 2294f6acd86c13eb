-- ===== src/Histogram/Percentiles.antt =====
-- `dmaplane_histogram_summarize` as a whole: what the summary says of the samples recorded.
use native.Mathlib.Nat.{le_trans, mul-le-mul_right}
use dmaplane_master.Base.{
  ap₂, ℕ, suc, ◌+◌, ◌*◌, ◌/◌, ◌^◌, ◌%◌, ◌≤◌, ◌<◌, ◌≡◌, inl, inr, arith, refl, sym, ◌∙◌, ap, subst,
  true, false, ltb, leb, leb→le, ltb→lt, List, [], ◌∷◌, length, u64_mod, Bool-cases, ==-ne,
}
use dmaplane_master.Histogram.{
  mark, Histogram, histogram_init, bucket_of, bucket_upper_ns, hist_buckets, Mark, unmarked,
  crosses, walk, walk_start, walk_bucket, summarize, Walk, Summary,
}
use dmaplane_master.Histogram.Buckets.{bucket_of-upper, pow_mono, upper_of}
use dmaplane_master.Histogram.Samples.{
  cumulative, how_many, record_all, Holds, Holds-record_all, total_of_all, sum_of, least, greatest,
}
use dmaplane_master.Histogram.Quantile.{IsQuantile, Sound, quantile, walk-scan, scan}

module _ (h : Histogram) (s : Sound h) where
  walked :
      (num den : ℕ) (field : Walk → Mark)
      → ((i c : ℕ) (w : Walk)
          → field (walk_bucket h.count i c w)
            ≡ mark (crosses num den h.count c) (bucket_upper_ns i) (field w))
      → field walk_start ≡ unmarked
      → num ≤ den
      → den ≤ 10000
      → IsQuantile num den h (field (walk h.count h.buckets 0 walk_start)).value
  unfolding walk_bucket
  walked num den field marks f0 n d =
      let small : walk_start.cumulative + cumulative (length h.buckets) h.buckets < u64_mod =
        subst (λ m. 0 + cumulative m h.buckets < u64_mod) (sym s.size)
          (omega (arith, s.all, s.small)) in
      subst (λ m. IsQuantile num den h m.value)
        (sym (
          walk-scan h.count num den field marks (λ i c w. refl) h.buckets 0 walk_start small
          ∙ ap (λ m. scan (crosses num den h.count) h.buckets 0 0 m) f0))
        (quantile h s num den n d)

  -- For a histogram whose buckets hold all of its samples, at least one and few enough that the
  -- products fit in a word: each reported percentile is the upper bound of the first bucket at which
  -- the running count reaches 500/1000, 990/1000 and 9990/10000 of the samples.
  pub summarize_quantiles :
      0 < h.count
      → IsQuantile 500 1000 h (summarize h).p50_ns
        × IsQuantile 990 1000 h (summarize h).p99_ns
        × IsQuantile 9990 10000 h (summarize h).p999_ns
  unfolding summarize walk_bucket
  summarize_quantiles p = rw (==-ne h.count 0 (omega arith)) (
    walked 500 1000 Walk.p50 (λ i c w. refl) refl (omega arith) (omega arith),
    walked 990 1000 Walk.p99 (λ i c w. refl) refl (omega arith) (omega arith),
    walked 9990 10000 Walk.p999 (λ i c w. refl) refl (omega arith) (omega arith),
  )

summarize_nonempty :
    (h : Histogram)
    → 0 < h.count
    → summarize h ≡ (
        let w = walk h.count h.buckets 0 walk_start in
        record {
          count = h.count;
          avg_ns = h.sum_ns / h.count;
          min_ns = h.min_ns;
          max_ns = h.max_ns;
          p50_ns = w.p50.value;
          p99_ns = w.p99.value;
          p999_ns = w.p999.value;
        })
unfolding summarize
summarize_nonempty h p = rw (==-ne h.count 0 (omega arith)) refl

upper_mono : (i j : ℕ) → i ≤ j → j < hist_buckets → bucket_upper_ns i ≤ bucket_upper_ns j
unfolding bucket_upper_ns
upper_mono i j l b = elim (Bool-cases (ltb j 15)) [
  | inl small ↦
      let jb = ltb→lt j 15 small in
      subst (λ v. v ≤ bucket_upper_ns j) (sym (upper_of i (omega arith)))
        (subst (λ v. 2 ^ suc i * 1000 ≤ v) (sym (upper_of j jb))
          (omega (arith, pow_mono (suc i) (suc j) (omega arith))))
  | inr last ↦ elim (Bool-cases (ltb i 15)) [
    | inl small ↦ rw (last, small) (omega arith)
    | inr also ↦ rw (last, also) (omega arith)
  ]
]

quantile_le :
    (h : Histogram) (n₁ d₁ n₂ d₂ u v : ℕ)
    → ((x : ℕ) → h.count * n₂ ≤ x * d₂ → h.count * n₁ ≤ x * d₁)
    → IsQuantile n₁ d₁ h u
    → IsQuantile n₂ d₂ h v
    → u ≤ v
quantile_le h n₁ d₁ n₂ d₂ u v implied (i, ib, at_i, before_i, ei) (j, jb, at_j, before_j, ej) =
    elim (Bool-cases (leb i j)) [
      | inl l ↦ omega (arith, ei, ej, upper_mono i j (leb→le i j l) jb)
      | inr g ↦
          absurd
            (omega (arith, before_i j (ground arith), implied (cumulative (suc j) h.buckets) at_j))
    ]

-- For a histogram whose buckets hold all of its samples, at least one and few enough that the products
-- fit in a word, the three percentiles are in order.
pub percentiles_ordered :
    (h : Histogram)
    → Sound h
    → 0 < h.count
    → (summarize h).p50_ns ≤ (summarize h).p99_ns × (summarize h).p99_ns ≤ (summarize h).p999_ns
percentiles_ordered h s p =
    let (a, b, c) = summarize_quantiles h s p in
    (
      quantile_le h 500 1000 990 1000 _ _ (λ x k. omega arith) a b,
      quantile_le h 990 1000 9990 10000 _ _ (λ x k. omega arith) b c,
    )

last_upper : (x j : ℕ) → x < u64_mod → ltb j 15 ≡ false → leb x (bucket_upper_ns j) ≡ true
unfolding bucket_upper_ns
last_upper x j w last = rw last (ground arith)

in_bucket :
    (x j : ℕ)
    → x < u64_mod
    → j < hist_buckets
    → ltb (bucket_of x) (suc j) ≡ true
    → leb x (bucket_upper_ns j) ≡ true
in_bucket x j w b t = elim (Bool-cases (ltb j 15)) [
  | inl small ↦ let below = bucket_of-upper x j w (ltb→lt j 15 small) in ground (arith, below, t)
  | inr last ↦ last_upper x j w last
]

below_bound :
    (xs : List ℕ) (j : ℕ)
    → greatest xs < u64_mod
    → j < hist_buckets
    → how_many (λ x. ltb (bucket_of x) (suc j)) xs ≤ how_many (λ x. leb x (bucket_upper_ns j)) xs
unfolding how_many greatest
below_bound [] j w b = omega arith
below_bound (x ∷ xs) j w b = elim (Bool-cases (ltb (bucket_of x) (suc j))) [
  | inl t ↦
      rw (t, in_bucket x j (omega arith) b t) (omega (arith, below_bound xs j (omega arith) b))
  | inr t ↦ rw t (omega (arith, below_bound xs j (omega arith) b))
]

-- The samples of a list that are at most v number at least num / den of it.
abbrev pub AtMost : ℕ → ℕ → List ℕ → ℕ → Type 0
AtMost num den xs v = length xs * num ≤ how_many (λ x. leb x v) xs * den

module _ (xs : List ℕ) (words : greatest xs < u64_mod) (few : length xs * 10000 < u64_mod) where
  recorded : Holds (record_all histogram_init xs) xs
  recorded = Holds-record_all xs (omega arith)

  pub recorded-Sound : Sound (record_all histogram_init xs)
  recorded-Sound = record {
    size = recorded.size;
    all = recorded.sums hist_buckets ∙ total_of_all xs ∙ sym recorded.counted;
    small = omega (arith, recorded.counted);
  }

  quantile-AtMost :
      (num den v : ℕ) → IsQuantile num den (record_all histogram_init xs) v → AtMost num den xs v
  quantile-AtMost num den v (j, b, at, before, e) = subst (AtMost num den xs) (sym e) (
      le_trans
        (subst (λ n. n * num ≤ cumulative (suc j) (record_all histogram_init xs).buckets * den)
          recorded.counted at)
        (mul-le-mul_right den (omega (arith, recorded.sums (suc j), below_bound xs j words b))))

  -- For a non-empty list of 64-bit latencies, few enough that the products fit in a word, recorded
  -- into an empty histogram: the summary has their number, their average (of the sum as a 64-bit
  -- word), the least and the greatest of them, and at least 50%, 99% and 99.9% of them are at most
  -- the three reported percentiles.
  pub summary_of_samples :
      0 < length xs
      → let s = summarize (record_all histogram_init xs) in
        (s.count ≡ length xs)
        × (s.avg_ns ≡ (sum_of xs % u64_mod) / length xs)
        × (s.min_ns ≡ least xs)
        × (s.max_ns ≡ greatest xs)
        × AtMost 500 1000 xs s.p50_ns
        × AtMost 990 1000 xs s.p99_ns
        × AtMost 9990 10000 xs s.p999_ns
  summary_of_samples p =
      let h = record_all histogram_init xs in
      let some_counted : 0 < h.count = omega (arith, recorded.counted) in
      let (a, b, c) = summarize_quantiles h recorded-Sound some_counted in
      let full = summarize_nonempty h some_counted in
      (
        ap Summary.count full ∙ recorded.counted,
        ap Summary.avg_ns full ∙ ap₂ (λ x y. x / y) recorded.sum recorded.counted,
        ap Summary.min_ns full ∙ recorded.lowest,
        ap Summary.max_ns full ∙ recorded.highest,
        quantile-AtMost 500 1000 _ a,
        quantile-AtMost 990 1000 _ b,
        quantile-AtMost 9990 10000 _ c,
      )
