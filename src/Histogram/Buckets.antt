-- ===== src/Histogram/Buckets.antt =====
-- The bucket of a latency against the bucket's upper bound.
use native.Mathlib.Nat.{le_refl, two-pow-succ}
use dmaplane_master.Base.{
  ℕ, zero, suc, Bool-cases, lt→ltb, leb→le, sym, ◌∙◌, ◌==◌, min, ltb→lt, subst, inl, inr, ◌+◌, ◌*◌,
  ◌/◌, ◌-◌, ◌^◌, ◌≤◌, ◌<◌, ◌≡◌, arith, ltb, leb, u64_mod,
}
use dmaplane_master.Histogram.{ilog2_in, ilog2, bucket_of, bucket_upper_ns, hist_buckets}

pow-suc : (n : ℕ) → 2 ^ suc n ≡ 2 * 2 ^ n
pow-suc n = omega (arith, two-pow-succ n)

pow_mono_by : (a d b : ℕ) → a + d ≡ b → 2 ^ a ≤ 2 ^ b
pow_mono_by a zero b e =
    let same : a ≡ b = omega arith in subst (λ x. 2 ^ a ≤ 2 ^ x) same (le_refl (2 ^ a))
pow_mono_by a (suc d) zero e = absurd (omega arith)
pow_mono_by a (suc d) (suc b) e = omega (arith, pow_mono_by a d b (omega arith), pow-suc b)

pub pow_mono : (a b : ℕ) → a ≤ b → 2 ^ a ≤ 2 ^ b
pow_mono a b h = pow_mono_by a (b - a) b (omega arith)

ilog2_in_lem :
    (f n : ℕ) → 1 ≤ n → n < 2 ^ suc f → (2 ^ ilog2_in f n ≤ n) × (n < 2 ^ suc (ilog2_in f n))
unfolding ilog2_in
ilog2_in_lem zero n p h = (p, h)
ilog2_in_lem (suc f) n p h = elim (Bool-cases (ltb n 2)) [
  | inl e ↦ rw e (p, ltb→lt n 2 e)
  | inr e ↦
      let at_least : 2 ≤ n = ground arith in
      let (lo, hi) = ilog2_in_lem f (n / 2) (omega arith) (omega (arith, pow-suc (suc f))) in
      rw e (
        omega (arith, pow-suc (ilog2_in f (n / 2))),
        omega (arith, pow-suc (suc (ilog2_in f (n / 2)))),
      )
]

same_test : (a i x u : ℕ) → (a ≤ i → x < u) → (i < a → u ≤ x) → leb a i ≡ ltb x u
same_test a i x u f g = elim (Bool-cases (leb a i)) [
  | inl e ↦ rw e (sym (lt→ltb x u (f (leb→le a i e))))
  | inr e ↦ let o = g (ground arith) in ground arith
]

pub upper_of : (i : ℕ) → i < hist_buckets - 1 → bucket_upper_ns i ≡ 2 ^ suc i * 1000
unfolding bucket_upper_ns
upper_of i b = rw (lt→ltb i 15 b) (omega (arith, pow_mono (suc i) 15 b))

log_test : (us i : ℕ) → 1 ≤ us → us < 2 ^ 64 → leb (ilog2 us) i ≡ ltb us (2 ^ suc i)
log_test us i p h =
    let (lo, hi) = ilog2_in_lem 63 us p h in
    same_test (ilog2 us) i us (2 ^ suc i)
      (λ le. omega (arith, pow_mono (suc (ilog2 us)) (suc i) (omega arith)))
      (λ gt. omega (arith, pow_mono (suc i) (ilog2 us) gt))

clamp_test : (k i : ℕ) → i < hist_buckets - 1 → leb (min k 15) i ≡ leb k i
clamp_test k i b = ground arith

scale_test : (ns u : ℕ) → ltb (ns / 1000) u ≡ ltb ns (u * 1000)
scale_test ns u = ground arith

-- For a latency of any 64-bit value, a bucket below the last holds it or an earlier one does
-- exactly when it is below the bucket's upper bound.
pub bucket_of-upper :
    (ns i : ℕ)
    → ns < u64_mod
    → i < hist_buckets - 1
    → leb (bucket_of ns) i ≡ ltb ns (bucket_upper_ns i)
unfolding bucket_of
bucket_of-upper ns i h b = rw (upper_of i b) (elim (Bool-cases ((ns / 1000) == 0)) [
  | inl z ↦ rw z (ground (arith, pow_mono 1 (suc i) (omega arith)))
  | inr z ↦
      rw (z, clamp_test (ilog2 (ns / 1000)) i b)
        (log_test (ns / 1000) i (ground arith) (omega arith) ∙ scale_test ns (2 ^ suc i))
])

pub bucket_of_lt : (ns : ℕ) → bucket_of ns < hist_buckets
unfolding bucket_of
bucket_of_lt ns = ground arith
