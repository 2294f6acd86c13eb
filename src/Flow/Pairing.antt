-- ===== src/Flow/Pairing.antt =====
-- The loop of `dmaplane_sustained_stream` as a whole: what is in flight, and what a completion is
-- timed against.
use dmaplane_master.Base.{
  ℕ, suc, ◌-◌, ◌%◌, ◌≤◌, ◌≡◌, arith, refl, ap, ◌∙◌, List, [], ◌∷◌, length, get_or, Option, none,
  some, pos, Errno,
}
use dmaplane_master.Flow.Credits.{Windowed}
use dmaplane_master.Flow.Stream.{
  Stream, success, stream_start, note_completion, poll_phase, replenish, ts_ring_size, sub64,
}
use dmaplane_master.Histogram.{histogram_record}
use dmaplane_master.Flow.Window.{stamps, Reach, begin, window, send, complete, receive, Tracks}
use dmaplane_master.Flow.Phases.{
  window_check-Tracks, send_phase-Tracks, replenish-Tracks, note_completion-Tracks,
  drain_recv-Tracks,
}

replenish-hist :
    (q : ℕ) (recv : Option Errno) (s : Stream) → (replenish q recv s).state.rdma_hist ≡ s.rdma_hist
unfolding replenish
replenish-hist q none s = ground arith
replenish-hist q (some c) s = ground arith

first_stamp :
    (m now : ℕ) (s : Stream) (t n : ℕ) (p : List ℕ)
    → stamps s.send_ts s.ts_tail (suc n) ≡ t ∷ p
    → (note_completion m now s).rdma_hist ≡ histogram_record s.rdma_hist (sub64 now t)
unfolding note_completion
first_stamp m now s t n p e =
    let first : get_or s.send_ts (s.ts_tail % ts_ring_size) 0 ≡ t = cc in
    ap (λ x. histogram_record s.rdma_hist (sub64 now x)) first

stream_start-Tracks :
    (q start : ℕ) (d : Stream) → Windowed d.flow → Tracks q (stream_start q start d) []
unfolding stream_start
stream_start-Tracks q start d w = record {
  account = record {
    window = record {
      configured = w.configured;
      ordered = w.ordered;
      within = w.within;
      bounded = w.bounded;
    };
    credits = ap pos (omega arith);
    below = omega arith;
  };
  counted = refl;
  deep = omega arith;
  head = refl;
  tail = omega arith;
  size = refl;
  stamped = refl;
}

module _ (q m : ℕ) (d : Stream) (w : Windowed d.flow) (q64 : q ≤ 64) where
  pub Reach-Tracks : {s : Stream} {p : List ℕ} → Reach q m d s p → Tracks q s p
  unfolding poll_phase
  Reach-Tracks (begin start) = stream_start-Tracks q start d w
  Reach-Tracks (window now r) = window_check-Tracks q _ _ (Reach-Tracks r) now
  Reach-Tracks (send post r) = send_phase-Tracks q post _ _ q64 (Reach-Tracks r)
  Reach-Tracks (complete now recv r) =
      replenish-Tracks q q recv _ _ (note_completion-Tracks q m now _ _ _ q64 (Reach-Tracks r))
  Reach-Tracks (receive found r) = drain_recv-Tracks q m found _ _ (Reach-Tracks r)

  -- In a run with a window in order and a queue depth of at most 64, at any point of the loop: the
  -- sends in flight are as many as `outstanding` says, no more than the queue depth and no more than
  -- the high watermark, and every credit that is missing is one of theirs.
  pub stream_in_flight :
      {s : Stream} {p : List ℕ}
      → Reach q m d s p
      → (s.outstanding ≡ length p)
        × (s.outstanding ≤ q)
        × (s.outstanding ≤ s.flow.high_watermark)
        × (s.flow.credits ≡ pos (s.flow.max_credits - s.outstanding))
  stream_in_flight r =
      let k = Reach-Tracks r in
      (
        k.counted,
        omega (arith, k.counted, k.deep),
        omega (arith, k.counted, k.account.below),
        k.account.credits ∙ ap pos (omega (arith, k.counted)),
      )

  -- In a run with a window in order and a queue depth of at most 64, a completion found at the
  -- reading `now` is recorded in the histogram with the time since the oldest send in flight was
  -- stamped: the ring of 128 stamps pairs the two.
  pub completion_latency :
      {s : Stream} {t : ℕ} {p : List ℕ} (now : ℕ) (recv : Option Errno)
      → Reach q m d s (t ∷ p)
      → (poll_phase q m (success now recv) s).state.rdma_hist
        ≡ histogram_record s.rdma_hist (sub64 now t)
  unfolding poll_phase
  completion_latency now recv r =
      let k = Reach-Tracks r in
      let whole = k.stamped in replenish-hist q recv _ ∙ first_stamp m now _ _ (length _) _ whole
