-- ===== src/Histogram/Samples.antt =====
-- A histogram after any sequence of recorded latencies, against the sequence itself.
use dmaplane_master.Base.{
  sym, lt→ltb, replicate, subst, ◌∙◌, ℕ, zero, suc, ◌+◌, ◌%◌, ◌≤◌, ◌<◌, ◌≡◌, arith, refl, Bool, ltb,
  List, [], ◌∷◌, length, set, get_or, if◌then◌else◌, u64_mod, min, max, length-set, add64,
}
use dmaplane_master.Histogram.{
  Histogram, histogram_init, histogram_record, bucket_of, hist_buckets, u64_max,
}
use dmaplane_master.Histogram.Buckets.{bucket_of_lt}

-- The samples are recorded from the last of the list to its first.
unfoldable pub record_all : Histogram → List ℕ → Histogram
record_all h [] = h
record_all h (x ∷ xs) = histogram_record (record_all h xs) x

-- The samples in the first n buckets
unfoldable pub cumulative : ℕ → List ℕ → ℕ
cumulative zero bs = 0
cumulative (suc n) [] = 0
cumulative (suc n) (b ∷ bs) = b + cumulative n bs

-- How many of the samples pass a test
unfoldable pub how_many : (ℕ → Bool) → List ℕ → ℕ
how_many p [] = 0
how_many p (x ∷ xs) = (if p x then 1 else 0) + how_many p xs

unfoldable pub sum_of : List ℕ → ℕ
sum_of [] = 0
sum_of (x ∷ xs) = x + sum_of xs

unfoldable pub least : List ℕ → ℕ
least [] = u64_max
least (x ∷ xs) = min x (least xs)

unfoldable pub greatest : List ℕ → ℕ
greatest [] = 0
greatest (x ∷ xs) = max x (greatest xs)

cumulative-set :
    (bs : List ℕ) (j n : ℕ)
    → j < length bs
    → cumulative n (set bs j (get_or bs j 0 + 1)) ≡ (if ltb j n then 1 else 0) + cumulative n bs
unfolding cumulative
cumulative-set [] j n h = absurd (omega arith)
cumulative-set (b ∷ bs) j zero h = ground arith
cumulative-set (b ∷ bs) zero (suc n) h = ground arith
cumulative-set (b ∷ bs) (suc j) (suc n) h = ground (arith, cumulative-set bs j n (omega arith))

get_or_le-cumulative : (bs : List ℕ) (j : ℕ) → get_or bs j 0 ≤ cumulative (length bs) bs
unfolding cumulative
get_or_le-cumulative [] j = omega arith
get_or_le-cumulative (b ∷ bs) zero = omega arith
get_or_le-cumulative (b ∷ bs) (suc j) = omega (arith, get_or_le-cumulative bs j)

cumulative-zeros : (k n : ℕ) → cumulative n (replicate k 0) ≡ 0
unfolding cumulative
cumulative-zeros k zero = refl
cumulative-zeros zero (suc n) = refl
cumulative-zeros (suc k) (suc n) = omega (arith, cumulative-zeros k n)

pub cumulative_mono : (bs : List ℕ) (n m : ℕ) → n ≤ m → cumulative n bs ≤ cumulative m bs
unfolding cumulative
cumulative_mono bs zero m h = omega arith
cumulative_mono [] (suc n) zero h = omega arith
cumulative_mono [] (suc n) (suc m) h = omega arith
cumulative_mono (b ∷ bs) (suc n) zero h = absurd (omega arith)
cumulative_mono (b ∷ bs) (suc n) (suc m) h = omega (arith, cumulative_mono bs n m (omega arith))

-- What a histogram of the samples holds
pub record Holds (h : Histogram) (xs : List ℕ) : Type 0 where
  pub size : length h.buckets ≡ hist_buckets
  pub counted : h.count ≡ length xs
  pub sum : h.sum_ns ≡ sum_of xs % u64_mod
  pub lowest : h.min_ns ≡ least xs
  pub highest : h.max_ns ≡ greatest xs
  pub sums : (n : ℕ) → cumulative n h.buckets ≡ how_many (λ x. ltb (bucket_of x) n) xs

pub total_of_all : (xs : List ℕ) → how_many (λ x. ltb (bucket_of x) hist_buckets) xs ≡ length xs
unfolding how_many
total_of_all [] = refl
total_of_all (x ∷ xs) =
    rw (lt→ltb (bucket_of x) 16 (bucket_of_lt x)) (omega (arith, total_of_all xs))

Holds-init : Holds histogram_init []
unfolding histogram_init how_many sum_of least greatest
Holds-init = record {
  size = refl;
  counted = refl;
  sum = refl;
  lowest = refl;
  highest = refl;
  sums = cumulative-zeros 16;
}

room :
    (h : Histogram) (x : ℕ) (xs : List ℕ)
    → Holds h xs
    → length xs + 1 < u64_mod
    → add64 (get_or h.buckets (bucket_of x) 0) 1 ≡ get_or h.buckets (bucket_of x) 0 + 1
room h x xs k small =
    let all =
      subst (λ n. cumulative n h.buckets ≡ length xs) (sym k.size) (k.sums 16 ∙ total_of_all xs) in
    omega (arith, get_or_le-cumulative h.buckets (bucket_of x), all)

Holds-record :
    (h : Histogram) (x : ℕ) (xs : List ℕ)
    → Holds h xs
    → length xs + 1 < u64_mod
    → Holds (histogram_record h x) (x ∷ xs)
unfolding histogram_record how_many sum_of least greatest
Holds-record h x xs k small = record {
  size = length-set h.buckets (bucket_of x) _ ∙ k.size;
  counted = omega (arith, k.counted);
  sum = omega (arith, k.sum);
  lowest = rw (k.lowest) (ground arith);
  highest = rw (k.highest) (ground arith);
  sums = λ n.
      rw
        (
          room h x xs k small,
          cumulative-set h.buckets (bucket_of x) n (omega (arith, bucket_of_lt x, k.size)),
        )
        (omega (arith, k.sums n));
}

-- After any list of fewer than 2 ^ 64 latencies has been recorded into an empty histogram: the count
-- is their number, the sum is theirs as a 64-bit word, the minimum and the maximum are the least and
-- the greatest of them, and the first n buckets together hold as many as fall into those buckets.
pub Holds-record_all : (xs : List ℕ) → length xs < u64_mod → Holds (record_all histogram_init xs) xs
unfolding record_all
Holds-record_all [] h = Holds-init
Holds-record_all (x ∷ xs) h =
    Holds-record (record_all histogram_init xs) x xs (Holds-record_all xs (omega arith))
      (omega arith)
