-- ===== src/Flow/Credits.antt =====
-- The hysteresis of the credit operations: when a send is let through, and when not.
use dmaplane_master.Base.{
  dec, inc, leb→le, ◌∙◌, add64, lt→ltb, subst, ℕ, zero, suc, ◌+◌, ◌-◌, ◌≤◌, ◌<◌, ◌≡◌, ◌⊎◌, inl, inr,
  arith, refl, ap, sym, Bool, true, false, leb, Bool-cases, ℤ, pos, ok,
}
use dmaplane_master.Flow.{
  auto_credits, auto_high, auto_low, Flow, FlowParams, configure, can_send, on_send, on_completion,
  auto_configure, in_flight_at_most, in_flight_at_least, is_positive, params_refused,
}

-- A configured window, with its watermarks in order
pub record Windowed (f : Flow) : Type 0 where
  pub configured : f.configured ≡ true
  pub ordered : f.low_watermark < f.high_watermark
  pub within : f.high_watermark ≤ f.max_credits
  pub bounded : f.max_credits ≤ 128

-- The credits that are missing are those in flight, `n` of them, and no more than the high watermark.
pub record Outstanding (f : Flow) (n : ℕ) : Type 0 where
  pub window : Windowed f
  pub credits : f.credits ≡ pos (f.max_credits - n)
  pub below : n ≤ f.high_watermark

accepted_params :
    (p : FlowParams)
    → params_refused p ≡ false
    → (p.low_watermark < p.high_watermark)
      × (p.high_watermark ≤ p.max_credits)
      × (p.max_credits ≤ 128)
accepted_params p h = (ground arith, ground arith, ground arith)

configure-window :
    (f : Flow) (p : FlowParams) → (configure p f).0 ≡ ok → Outstanding (configure p f).1 0
unfolding configure
configure-window f p h = elim (Bool-cases (params_refused p)) [
  | inl bad ↦ ground (arith, bad, h)
  | inr fine ↦
      let (a, b, c) = accepted_params p fine in
      rw fine record {
        window = record { configured = refl; ordered = a; within = b; bounded = c };
        credits = ap pos (omega arith);
        below = omega arith;
      }
]

auto_bounds : (m : ℕ) → 2 ≤ m → m ≤ 128 → (auto_low m < auto_high m) × (auto_high m ≤ m)
auto_bounds m l h = (ground arith, ground arith)

auto_configure-window :
    (f : Flow) (depth : ℕ) → 1 ≤ depth → depth ≤ 64 → Outstanding (auto_configure depth f) 0
unfolding auto_configure
auto_configure-window f depth l h =
    let m = auto_credits depth in
    let (a, b) = auto_bounds m (ground arith) (ground arith) in
    record {
      window = record { configured = refl; ordered = a; within = b; bounded = ground arith };
      credits = ap pos (omega arith);
      below = omega arith;
    }

-- Both ways to set up flow control leave a window with its watermarks in order and nothing in
-- flight: CONFIGURE_FLOW whenever it returns 0, and the defaults that a run derives from any queue
-- depth of 1 to 64.
pub configured_window :
    (f : Flow)
    → ((p : FlowParams) → (configure p f).0 ≡ ok → Outstanding (configure p f).1 0)
      × ((depth : ℕ) → 1 ≤ depth → depth ≤ 64 → Outstanding (auto_configure depth f) 0)
configured_window f = (configure-window f, auto_configure-window f)

-- The four branches of `can_send`
module _ (f : Flow) (c : f.configured ≡ true) where
  resume :
      f.paused ≡ true
      → in_flight_at_most f.max_credits f.credits f.low_watermark ≡ true
      → can_send f
        ≡ (true, record f { paused = false; low_watermark_events = add64 f.low_watermark_events 1 })
  unfolding can_send
  resume p t = simp (c, p, t) refl

  stay :
      f.paused ≡ true
      → in_flight_at_most f.max_credits f.credits f.low_watermark ≡ false
      → can_send f ≡ (false, f)
  unfolding can_send
  stay p t = simp (c, p, t) refl

  pause :
      f.paused ≡ false
      → in_flight_at_least f.max_credits f.credits f.high_watermark ≡ true
      → can_send f ≡ (
        false,
        record f { paused = true; high_watermark_events = add64 f.high_watermark_events 1 },
      )
  unfolding can_send
  pause p t = simp (c, p, t) refl

  go_on :
      f.paused ≡ false
      → in_flight_at_least f.max_credits f.credits f.high_watermark ≡ false
      → can_send f ≡ (is_positive f.credits, f)
  unfolding can_send
  go_on p t = simp (c, p, t) refl

repaused :
    (f : Flow) (n : ℕ) (b : Bool) (x y : ℕ)
    → Outstanding f n
    → Outstanding (record f { paused = b; high_watermark_events = x; low_watermark_events = y }) n
repaused f n b x y o = record {
  window = record {
    configured = o.window.configured;
    ordered = o.window.ordered;
    within = o.window.within;
    bounded = o.window.bounded;
  };
  credits = o.credits;
  below = o.below;
}

-- What `can_send` answers and leaves, with n sends in flight
abbrev Answer : Flow → ℕ → Bool × Flow → Type 0
Answer f n w =
    Outstanding w.1 n
    × (((w.0 ≡ true) × (n < f.high_watermark)) ⊎ ((w.0 ≡ false) × (f.low_watermark < n)))

few_iff : (m n k : ℕ) → n ≤ m → leb m (m - n + k) ≡ leb n k
few_iff m n k h = ground arith

many_iff : (m n k : ℕ) → n ≤ m → leb (m - n + k) m ≡ leb k n
many_iff m n k h = ground arith

module _ (f : Flow) (n : ℕ) (o : Outstanding f n) where
  few_in_flight : in_flight_at_most f.max_credits f.credits f.low_watermark ≡ leb n f.low_watermark
  unfolding in_flight_at_most
  few_in_flight =
      rw (o.credits)
        (few_iff f.max_credits n f.low_watermark (omega (arith, o.below, o.window.within)))

  many_in_flight :
      in_flight_at_least f.max_credits f.credits f.high_watermark ≡ leb f.high_watermark n
  unfolding in_flight_at_least
  many_in_flight =
      rw (o.credits)
        (many_iff f.max_credits n f.high_watermark (omega (arith, o.below, o.window.within)))

  some_left : n < f.high_watermark → is_positive f.credits ≡ true
  unfolding is_positive
  some_left h = rw (o.credits) (lt→ltb 0 (f.max_credits - n) (omega (arith, o.window.within)))

-- With n sends in flight, `can_send` keeps the account of them. It answers yes only where fewer than
-- the high watermark are in flight, and no only where more than the low watermark are, so that a
-- completion that returns a credit is still to come.
pub can_send_lem :
    (f : Flow) (n : ℕ)
    → Outstanding f n
    → Outstanding (can_send f).1 n
      × ((((can_send f).0 ≡ true) × (n < f.high_watermark))
          ⊎ (((can_send f).0 ≡ false) × (f.low_watermark < n)))
can_send_lem f n o = elim (Bool-cases f.paused) [
  | inl p ↦ elim (Bool-cases (leb n f.low_watermark)) [
    | inl t ↦ subst (Answer f n) (sym (resume f o.window.configured p (few_in_flight f n o ∙ t))) (
      repaused f n false _ _ o,
      inl (refl, omega (arith, leb→le n f.low_watermark t, o.window.ordered)),
    )
    | inr t ↦
        subst (Answer f n) (sym (stay f o.window.configured p (few_in_flight f n o ∙ t)))
          (o, inr (refl, ground arith))
  ]
  | inr p ↦ elim (Bool-cases (leb f.high_watermark n)) [
    | inl t ↦ subst (Answer f n) (sym (pause f o.window.configured p (many_in_flight f n o ∙ t))) (
      repaused f n true _ _ o,
      inr (refl, omega (arith, leb→le f.high_watermark n t, o.window.ordered)),
    )
    | inr t ↦
        let fewer : n < f.high_watermark = ground arith in
        subst (Answer f n) (sym (go_on f o.window.configured p (many_in_flight f n o ∙ t)))
          (o, inl (some_left f n o fewer, fewer))
  ]
]

dec_pos : (c d : ℕ) → c ≡ suc d → dec (pos c) ≡ pos d
unfolding dec
dec_pos zero d e = absurd (omega arith)
dec_pos (suc c) d e = ap pos (omega arith)

moved : (f : Flow) → Windowed f → (z : ℤ) → Windowed (record f { credits = z })
moved f w z = record {
  configured = w.configured;
  ordered = w.ordered;
  within = w.within;
  bounded = w.bounded;
}

-- A send and a completion keep the account: one more is in flight, below the high watermark, or one
-- fewer.
pub sends_and_completions :
    (f : Flow) (n : ℕ)
    → Outstanding f n
    → (n < f.high_watermark → Outstanding (on_send f) (suc n))
      × ((k : ℕ) → n ≡ suc k → Outstanding (on_completion f) k)
unfolding on_send on_completion inc
sends_and_completions f n o = (
  λ l. record {
    window = moved f o.window (dec f.credits);
    credits =
        ap dec (o.credits)
        ∙ dec_pos (f.max_credits - n) (f.max_credits - suc n) (omega (arith, o.window.within));
    below = l;
  },
  λ k e. record {
    window = moved f o.window (inc f.credits);
    credits = ap inc (o.credits) ∙ ap pos (omega (arith, o.below, o.window.within));
    below = omega (arith, o.below);
  },
)
