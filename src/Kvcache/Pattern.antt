-- ===== src/Kvcache/Pattern.antt =====
-- The byte pattern of a chunk, examples/kvcache/kvcache_common.h.
use dmaplane_master.Base.{
  ◌≢◌, inl, inr, zero, suc, ==_iff, Bool-cases, ◌==◌, false, refl, arith, ℕ, ◌+◌, ◌*◌, ◌%◌, ◌≡◌,
  ◌<◌, ◌^◌, ap, some, ◌∙◌,
}
use dmaplane_master.Kvcache.{fill_pattern, verify_pattern}

-- The seeds of two chunks' patterns, in a byte
abbrev pub seed : (layer chunk : ℕ) → ℕ
seed layer chunk = (layer * 7 + chunk * 13) % 256

module _ (l c k d : ℕ) where
  byte_alike :
      (i : ℕ) → seed l c ≡ seed k d → (l * 7 + c * 13 + i) % 256 ≡ (k * 7 + d * 13 + i) % 256
  byte_alike i h = omega (arith, h)

  seed_alike :
      (i : ℕ) → (l * 7 + c * 13 + i) % 256 ≡ (k * 7 + d * 13 + i) % 256 → seed l c ≡ seed k d
  seed_alike i h = omega (arith, h)

  byte_differs :
      (i : ℕ)
      → seed l c ≢ seed k d
      → ((l * 7 + c * 13 + i) % 256 == (k * 7 + d * 13 + i) % 256) ≡ false
  byte_differs i h = elim (Bool-cases ((l * 7 + c * 13 + i) % 256 == (k * 7 + d * 13 + i) % 256)) [
    | inl e ↦ absurd (h (seed_alike i ((==_iff _ _).0 e)))
    | inr e ↦ e
  ]

  verify_alike :
      (n i errs : ℕ)
      → errs < 2 ^ 31
      → seed l c ≡ seed k d
      → verify_pattern (fill_pattern l c n i) k d i errs ≡ some errs
  unfolding fill_pattern verify_pattern
  verify_alike zero i errs b h = refl
  verify_alike (suc n) i errs b h =
      let e = (==_iff _ _).1 (byte_alike i h) in
      let few : (errs == 2 ^ 31) ≡ false = ground (arith, b) in
      rw (e, few) (verify_alike n (suc i) errs b h)

  verify_differ :
      (n i errs : ℕ)
      → errs + n < 2 ^ 31
      → seed l c ≢ seed k d
      → verify_pattern (fill_pattern l c n i) k d i errs ≡ some (errs + n)
  unfolding fill_pattern verify_pattern
  verify_differ zero i errs b h = ap some (omega arith)
  verify_differ (suc n) i errs b h =
      let few : (errs + 1 == 2 ^ 31) ≡ false = ground (arith, b) in
      rw (byte_differs i h, few)
        (verify_differ n (suc i) (errs + 1) (omega (arith, b)) h ∙ ap some (omega arith))

-- For chunks of fewer than 2^31 bytes whose numbers do not overflow an `int` in the pattern: the check
-- of one chunk's bytes against another's pattern finds no error where 7 times the layer
-- plus 13 times the chunk is the same for both, modulo 256, and otherwise it finds every byte wrong;
-- a chunk checked against its own pattern is right. Different chunks of the first kind exist, so
-- that one which lands in the other's place is not detected.
pub verify-fill :
    (l c k d n : ℕ)
    → n < 2 ^ 31
    → l * 7 + c * 13 < 2 ^ 31
    → k * 7 + d * 13 < 2 ^ 31
    → let errors = verify_pattern (fill_pattern l c n 0) k d 0 0 in
      (verify_pattern (fill_pattern l c n 0) l c 0 0 ≡ some 0)
      × (seed l c ≡ seed k d → errors ≡ some 0)
      × (seed l c ≢ seed k d → errors ≡ some n)
      × (seed 13 0 ≡ seed 0 7)
verify-fill l c k d n h a b = (
  verify_alike l c l c n 0 0 (omega arith) refl,
  verify_alike l c k d n 0 0 (omega arith),
  λ x. verify_differ l c k d n 0 0 (omega (arith, h)) x ∙ ap some (omega arith),
  refl,
)
