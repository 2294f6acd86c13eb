-- ===== src/Histogram.antt =====
-- The latency histogram of driver/dmaplane_histogram.c.
pub mod Buckets
pub mod Samples
pub mod Quantile
pub mod Percentiles
use dmaplane_master.Base.{
  ℕ, zero, suc, ◌+◌, ◌*◌, ◌/◌, ◌%◌, ◌-◌, ◌^◌, min, Bool, true, false, ◌&&◌, not, ◌==◌, ltb, leb,
  List, [], ◌∷◌, if◌then◌else◌, replicate, set, get_or, add64, u64_mod,
}

-- DMAPLANE_HIST_BUCKETS
abbrev pub hist_buckets : ℕ
hist_buckets = 16

-- U64_MAX
abbrev pub u64_max : ℕ
u64_max = u64_mod - 1

-- `struct dmaplane_histogram`
pub record Histogram : Type 0 where
  pub buckets : List ℕ
  pub count : ℕ
  pub sum_ns : ℕ
  pub min_ns : ℕ
  pub max_ns : ℕ

-- `dmaplane_histogram_init`
unfoldable pub histogram_init : Histogram
histogram_init = record {
  buckets = replicate hist_buckets 0;
  count = 0;
  sum_ns = 0;
  min_ns = u64_max;
  max_ns = 0;
}

-- `dmaplane_histogram_reset`: every field is stored anew.
unfoldable pub histogram_reset : Histogram → Histogram
histogram_reset h = record h {
  buckets = replicate hist_buckets 0;
  count = 0;
  sum_ns = 0;
  min_ns = u64_max;
  max_ns = 0;
}

-- The kernel's `ilog2` on a 64-bit word: at most 63 halvings bring it below 2.
unfoldable pub ilog2_in : ℕ → ℕ → ℕ
ilog2_in zero n = 0
ilog2_in (suc f) n = let rest = ilog2_in f (n / 2) in if ltb n 2 then 0 else suc rest

abbrev pub ilog2 : ℕ → ℕ
ilog2 n = ilog2_in 63 n

-- The bucket that a latency in nanoseconds falls into
unfoldable pub bucket_of : ℕ → ℕ
bucket_of ns = if (ns / 1000) == 0 then 0 else min (ilog2 (ns / 1000)) (hist_buckets - 1)

-- `dmaplane_histogram_record`, run with no other recorder, so that each exchange succeeds
unfoldable pub histogram_record : Histogram → ℕ → Histogram
histogram_record h ns = record {
  buckets = set h.buckets (bucket_of ns) (add64 (get_or h.buckets (bucket_of ns) 0) 1);
  count = add64 h.count 1;
  sum_ns = add64 h.sum_ns ns;
  min_ns = if ltb ns h.min_ns then ns else h.min_ns;
  max_ns = if ltb h.max_ns ns then ns else h.max_ns;
}

-- `struct dmaplane_hist_summary`
pub record Summary : Type 0 where
  pub count : ℕ
  pub avg_ns : ℕ
  pub min_ns : ℕ
  pub max_ns : ℕ
  pub p50_ns : ℕ
  pub p99_ns : ℕ
  pub p999_ns : ℕ

-- A percentile while the buckets are walked: its `found_` flag and its value
pub record Mark : Type 0 where
  pub found : Bool
  pub value : ℕ

abbrev pub unmarked : Mark
unmarked = record { found = false; value = 0 }

-- `if (!found && hit) { value = upper; found = true; }`
abbrev pub mark : Bool → ℕ → Mark → Mark
mark hit upper m = if not m.found && hit then record { found = true; value = upper } else m

-- `bucket_upper_ns` of bucket i
unfoldable pub bucket_upper_ns : ℕ → ℕ
bucket_upper_ns i = if ltb i (hist_buckets - 1) then ((2 ^ suc i) * 1000) % u64_mod else u64_max

-- `cumulative * den >= total * num`, in 64 bits
abbrev pub crosses : ℕ → ℕ → ℕ → ℕ → Bool
crosses num den total cumulative = leb ((total * num) % u64_mod) ((cumulative * den) % u64_mod)

pub record Walk : Type 0 where
  pub cumulative : ℕ
  pub p50 : Mark
  pub p99 : Mark
  pub p999 : Mark

-- The body of the loop at bucket i, once the running count is c
unfoldable pub walk_bucket : ℕ → ℕ → ℕ → Walk → Walk
walk_bucket total i c w = record {
  cumulative = c;
  p50 = mark (crosses 500 1000 total c) (bucket_upper_ns i) w.p50;
  p99 = mark (crosses 990 1000 total c) (bucket_upper_ns i) w.p99;
  p999 = mark (crosses 9990 10000 total c) (bucket_upper_ns i) w.p999;
}

unfoldable pub walk : ℕ → List ℕ → ℕ → Walk → Walk
walk total [] i w = w
walk total (b ∷ bs) i w = walk total bs (suc i) (walk_bucket total i (add64 w.cumulative b) w)

abbrev pub walk_start : Walk
walk_start = record { cumulative = 0; p50 = unmarked; p99 = unmarked; p999 = unmarked }

-- `dmaplane_histogram_summarize`
unfoldable pub summarize : Histogram → Summary
summarize h =
    if h.count == 0
    then record {
      count = 0;
      avg_ns = 0;
      min_ns = 0;
      max_ns = h.max_ns;
      p50_ns = 0;
      p99_ns = 0;
      p999_ns = 0;
    }
    else let w = walk h.count h.buckets 0 walk_start in
      record {
        count = h.count;
        avg_ns = h.sum_ns / h.count;
        min_ns = h.min_ns;
        max_ns = h.max_ns;
        p50_ns = w.p50.value;
        p99_ns = w.p99.value;
        p999_ns = w.p999.value;
      }
