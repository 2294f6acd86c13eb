-- ===== src/Sweep/Turns.antt =====
-- The loop of sends and polls at one queue depth, driver/flow_control.c.
use mathlib.Core.Option
use dmaplane_master.Base.{
  sym, ap, ◌++◌, ◌≢◌, ℕ, zero, suc, ◌+◌, ◌-◌, ◌<◌, ◌≤◌, ◌≡◌, ◌⊎◌, refl, ◌∙◌, inl, inr, true, false,
  Bool-cases, Option-cases, ◌&&◌, ltb, List, [], ◌∷◌, Option, none, some, length, length-append,
  u32_mod, arith, Errno,
}
use dmaplane_master.Region.Register.{Polled, completion, nothing, poll_error}
use dmaplane_master.Sweep.{
  Point, SweepTurn, SweepEnd, finished, running, aborted, send_all, complete_one, after_poll,
  after_sends, sweep_turn, sweep_loop,
}

-- The counters agree, and stay within the depth and the number of iterations.
pub record Counted (qdepth iterations : ℕ) (p : Point) : Type 0 where
  pub agree : p.sent ≡ p.completed + p.outstanding
  pub window : p.outstanding ≤ qdepth
  pub bound : p.sent ≤ iterations
  pub posted : p.recv_posted ≤ iterations
  pub recorded : (xs : List ℕ) → p.latencies ≡ some xs → length xs ≡ p.completed

module _ (qdepth iterations : ℕ) where
  -- The sends keep the counters, and end at an error, at the last iteration or with the window full.
  send_all-Counted :
      (send : ℕ → Option Errno) (n i : ℕ) (p : Point)
      → Counted qdepth iterations p
      → p.sent + n ≡ iterations
      → Counted qdepth iterations (send_all send qdepth iterations n i p).1
        × (((send_all send qdepth iterations n i p).0 ≡ none)
            → ((send_all send qdepth iterations n i p).1.sent ≡ iterations)
              ⊎ (qdepth ≤ (send_all send qdepth iterations n i p).1.outstanding))
  unfolding send_all
  send_all-Counted send zero i p c h = (c, λ e. inl (omega arith))
  send_all-Counted send (suc n) i p c h = elim (Bool-cases (ltb p.outstanding qdepth)) [
    | inr f ↦
        let t : ltb p.sent iterations ≡ true = ground (arith, h) in
        rw (t, f) (c, λ e. inr (ground (arith, f)))
    | inl f ↦
        let t : ltb p.sent iterations ≡ true = ground (arith, h) in
        elim (Option-cases (send i)) [
          | inr (e, g) ↦ rw (t, f, g) (c, λ x. absurd (ground (arith, x)))
          | inl g ↦
              rw (t, f, g)
                (send_all-Counted send n (suc i)
                  (record p { sent = p.sent + 1; outstanding = p.outstanding + 1 })
                  (record {
                    agree = omega (arith, c.agree);
                    window = ground (arith, f);
                    bound = omega (arith, h);
                    posted = c.posted;
                    recorded = c.recorded;
                  })
                  (omega (arith, h)))
        ]
  ]

  pub send_all-completed :
      (send : ℕ → Option Errno) (n i : ℕ) (p : Point)
      → (send_all send qdepth iterations n i p).1.completed ≡ p.completed
  unfolding send_all
  send_all-completed send zero i p = refl
  send_all-completed send (suc n) i p =
      let ih =
        send_all-completed send n (suc i)
          (record p { sent = p.sent + 1; outstanding = p.outstanding + 1 }) in
      elim (Bool-cases (ltb p.sent iterations && ltb p.outstanding qdepth)) [
        | inr f ↦ rw f refl
        | inl f ↦ elim (Option-cases (send i)) [
          | inl g ↦ rw (f, g) ih
          | inr (e, g) ↦ rw (f, g) refl
        ]
      ]

  module _ (small : iterations < u32_mod) (deep : 1 ≤ qdepth) where
    recorded_one :
        (t : SweepTurn) (p : Point)
        → Counted qdepth iterations p
        → (xs : List ℕ) → Option.map (λ ys. ys ++ (t.latency ∷ [])) p.latencies ≡ some xs
        → length xs ≡ p.completed + 1
    recorded_one t p c xs h = elim (Option-cases p.latencies) [
      | inl e ↦ let z = ap (Option.map (λ ys. ys ++ (t.latency ∷ []))) e in cc
      | inr (ys, e) ↦
          let z = sym (ap (Option.map (λ zs. zs ++ (t.latency ∷ []))) e) ∙ h in
          let same : ys ++ (t.latency ∷ []) ≡ xs = cc in
          sym (ap length same) ∙ length-append ys (t.latency ∷ []) ∙ omega (arith, c.recorded ys e)
    ]

    complete_one-Counted :
        (t : SweepTurn) (p : Point)
        → Counted qdepth iterations p
        → 1 ≤ p.outstanding
        → Counted qdepth iterations (complete_one iterations t p)
    unfolding complete_one
    complete_one-Counted t p c h = record {
      agree = omega (arith, c.agree, c.bound);
      window = omega (arith, c.agree, c.bound, c.window);
      bound = c.bound;
      posted = ground (arith, c.posted);
      recorded = recorded_one t p c;
    }

    after_poll-Counted :
        (t : SweepTurn) (x : Polled) (p : Point)
        → Counted qdepth iterations p
        → 1 ≤ p.outstanding
        → Counted qdepth iterations (after_poll iterations t x p).1
          × ((after_poll iterations t x p).0 ≢ finished)
    unfolding after_poll
    after_poll-Counted t (completion true) p c h =
        (complete_one-Counted t p c h, λ f. absurd (ground (arith, f)))
    after_poll-Counted t (completion false) p c h = (c, λ f. absurd (ground (arith, f)))
    after_poll-Counted t nothing p c h = (c, λ f. absurd (ground (arith, f)))
    after_poll-Counted t (poll_error e) p c h = (c, λ f. absurd (ground (arith, f)))

    after_sends-Counted :
        (t : SweepTurn) (x : Option Errno × Point)
        → Counted qdepth iterations x.1
        → (x.0 ≡ none → 1 ≤ x.1.outstanding)
        → Counted qdepth iterations (after_sends iterations t x).1
          × ((after_sends iterations t x).0 ≢ finished)
    unfolding after_sends
    after_sends-Counted t (some e, p) c h = (c, λ f. absurd (ground (arith, f)))
    after_sends-Counted t (none, p) c h = after_poll-Counted t t.poll p c (h refl)

    turn-Counted :
        (t : SweepTurn) (p : Point)
        → Counted qdepth iterations p
        → p.completed < iterations
        → Counted qdepth iterations (sweep_turn qdepth iterations t p).1
          × ((sweep_turn qdepth iterations t p).0 ≢ finished)
    unfolding sweep_turn
    turn-Counted t p c l =
        let n = iterations - p.sent in
        let (d, e) = send_all-Counted t.send n 0 p c (omega (arith, c.bound)) in
        let same = send_all-completed t.send n 0 p in
        after_sends-Counted t (send_all t.send qdepth iterations n 0 p) d
          (λ f. elim (e f) [ inl g ↦ omega (arith, g, d.agree, same) | inr g ↦ omega (arith, g) ])

    -- What holds of the loop's end
    abbrev Good : SweepEnd × Point → Type 0
    Good r = Counted qdepth iterations r.1 × (r.0 ≡ finished → r.1.completed ≡ iterations)

    choose :
        (x rest : SweepEnd × Point)
        → Counted qdepth iterations x.1
        → x.0 ≢ finished
        → Good rest
        → Good (elim (x.0) [ running ↦ rest | finished ↦ x | aborted e ↦ x ])
    choose (running, p) rest c n g = g
    choose (finished, p) rest c n g = absurd (n refl)
    choose (aborted e, p) rest c n g = (c, λ f. absurd (n f))

    pub loop-Counted :
        (ts : List SweepTurn) (p : Point)
        → Counted qdepth iterations p
        → Good (sweep_loop qdepth iterations ts p)
    unfolding sweep_loop
    loop-Counted [] p c = elim (Bool-cases (ltb p.completed iterations)) [
      | inr f ↦ rw f (c, λ e. ground (arith, c.agree, c.bound, f))
      | inl f ↦ rw f (c, λ e. absurd (ground (arith, e)))
    ]
    loop-Counted (t ∷ ts) p c = elim (Bool-cases (ltb p.completed iterations)) [
      | inr f ↦ rw f (c, λ e. ground (arith, c.agree, c.bound, f))
      | inl f ↦
          let (d, n) = turn-Counted t p c (ground (arith, f)) in
          rw f (
            choose (sweep_turn qdepth iterations t p) _ d n
              (loop-Counted ts (sweep_turn qdepth iterations t p).1 d))
    ]
