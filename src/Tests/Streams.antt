-- ===== src/Tests/Streams.antt =====
-- The histogram with four samples, and a run of the streaming loop with one send.
use dmaplane_master.Base.{
  Bool, Option, ℕ, ◌-◌, ◌/◌, ◌%◌, ◌≡◌, ◌≤◌, ◌<◌, ◌⊎◌, true, false, refl, arith, none, some, List,
  [], ◌∷◌, length, pos, ok, u32_mod, u64_mod,
}
use dmaplane_master.Histogram.{Histogram, histogram_init, histogram_record, summarize}
use dmaplane_master.Histogram.Samples.{record_all, Holds-record_all, least, greatest, sum_of}
use dmaplane_master.Histogram.Quantile.{IsQuantile, Sound}
use dmaplane_master.Histogram.Percentiles.{
  AtMost, summarize_quantiles, summary_of_samples, recorded-Sound,
}
use dmaplane_master.Flow.{
  is_positive, in_flight_at_least, Flow, FlowParams, configure, auto_configure, can_send,
}
use dmaplane_master.Flow.Credits.{Outstanding, configured_window, can_send_lem}
use dmaplane_master.Flow.Stream.{
  note_completion, send_if, send_phase, Stream, note_send, replenish, window_check, post_ok,
  success, stream_start, poll_phase, sub64,
}
use dmaplane_master.Flow.Window.{extend, Reach, begin, send}
use dmaplane_master.Flow.Pairing.{stream_in_flight, completion_latency}
use dmaplane_master.Flow.Sustained.{Turn, loop, turn, drain}
use dmaplane_master.Flow.Sustained.Runs.{found_in, drain_lem, AreHonest, loop_in_flight}

abbrev samples : List ℕ
samples = 500 ∷ 1500 ∷ 3000 ∷ 200000 ∷ []

samples_words : greatest samples < u64_mod
unfolding greatest
samples_words = omega arith

abbrev hist : Histogram
hist = record_all histogram_init samples

hist-Sound : Sound hist
hist-Sound = recorded-Sound samples samples_words (omega arith)

hist_counted : 0 < hist.count
hist_counted = let k = Holds-record_all samples (omega arith) in omega (arith, k.counted)

summarize_quantiles_example :
    IsQuantile 500 1000 hist (summarize hist).p50_ns
    × IsQuantile 990 1000 hist (summarize hist).p99_ns
    × IsQuantile 9990 10000 hist (summarize hist).p999_ns
summarize_quantiles_example = summarize_quantiles hist hist-Sound hist_counted

summary_of_samples_example :
    let s = summarize hist in
    (s.count ≡ length samples)
    × (s.avg_ns ≡ (sum_of samples % u64_mod) / length samples)
    × (s.min_ns ≡ least samples)
    × (s.max_ns ≡ greatest samples)
    × AtMost 500 1000 samples s.p50_ns
    × AtMost 990 1000 samples s.p99_ns
    × AtMost 9990 10000 samples s.p999_ns
summary_of_samples_example = summary_of_samples samples samples_words (omega arith) (omega arith)

abbrev unset : Flow
unset = record {
  max_credits = 0;
  high_watermark = 0;
  low_watermark = 0;
  credits = pos 0;
  paused = false;
  configured = false;
  high_watermark_events = 0;
  low_watermark_events = 0;
}

abbrev flow : Flow
flow = auto_configure 4 unset

configured_window_example :
    ((p : FlowParams) → (configure p unset).0 ≡ ok → Outstanding (configure p unset).1 0)
    × ((depth : ℕ) → 1 ≤ depth → depth ≤ 64 → Outstanding (auto_configure depth unset) 0)
configured_window_example = configured_window unset

flow-Outstanding : Outstanding flow 0
flow-Outstanding = (configured_window unset).1 4 (omega arith) (omega arith)

can_send_lem_example :
    Outstanding (can_send flow).1 0
    × ((((can_send flow).0 ≡ true) × (0 < flow.high_watermark))
        ⊎ (((can_send flow).0 ≡ false) × (flow.low_watermark < 0)))
can_send_lem_example = can_send_lem flow 0 flow-Outstanding

abbrev device : Stream
device = record {
  flow = flow;
  outstanding = 0;
  sent = 0;
  completed = 0;
  recv_posted = 0;
  recv_completed = 0;
  send_ts = [];
  ts_head = 0;
  ts_tail = 0;
  rdma_hist = histogram_init;
  total_bytes = 0;
  total_ops = 0;
  window_bytes = 0;
  window_start = 0;
  min_window_mbps = 0;
  max_window_mbps = 0;
  stall_count = 0;
  cq_overflow_count = 0;
  credit_stalls = 0;
  completions_polled = 0;
  completion_errors = 0;
  bytes_sent = 0;
  bytes_received = 0;
  cq_overflows = 0;
}

abbrev sending : Stream
sending = (send_phase 4 (post_ok 7000) (stream_start 4 0 device)).state

sending-Reach : Reach 4 512 device sending (7000 ∷ [])
unfolding send_phase send_if can_send extend stream_start auto_configure in_flight_at_least
    is_positive
sending-Reach = send (post_ok 7000) (begin 0)

stream_in_flight_example :
    (sending.outstanding ≡ 1)
    × (sending.outstanding ≤ 4)
    × (sending.outstanding ≤ sending.flow.high_watermark)
    × (sending.flow.credits ≡ pos (sending.flow.max_credits - sending.outstanding))
stream_in_flight_example =
    stream_in_flight 4 512 device flow-Outstanding.window (omega arith) sending-Reach

completion_latency_example :
    (poll_phase 4 512 (success 9000 none) sending).state.rdma_hist
    ≡ histogram_record sending.rdma_hist (sub64 9000 7000)
completion_latency_example =
    completion_latency 4 512 device flow-Outstanding.window (omega arith) 9000 none sending-Reach

one_word : sending.outstanding < u32_mod
unfolding send_phase send_if note_send can_send stream_start auto_configure in_flight_at_least
    is_positive
one_word = omega arith

drain_lem_example :
    (drain 512 ((some true, 1) ∷ (none, 0) ∷ []) sending).outstanding
    ≡ sending.outstanding - found_in ((some true, 1) ∷ (none, 0) ∷ [])
drain_lem_example = drain_lem 512 ((some true, 1) ∷ (none, 0) ∷ []) sending one_word

abbrev first_turn : Turn
first_turn = record { now = 10; post = post_ok 7000; poll = success 9000 none; found = true ∷ [] }

honest : AreHonest 4 512 (first_turn ∷ []) (stream_start 4 0 device)
unfolding AreHonest send_phase window_check note_send send_if can_send stream_start auto_configure
    in_flight_at_least is_positive
honest = (λ h z. absurd (omega arith), record {})

unbroken : (loop 4 512 (first_turn ∷ []) (stream_start 4 0 device)).1 ≡ none
unfolding loop turn poll_phase note_completion replenish send_phase window_check note_send send_if
    can_send stream_start auto_configure in_flight_at_least is_positive
unbroken = refl

loop_in_flight_example :
    let s = (loop 4 512 (first_turn ∷ []) (stream_start 4 0 device)).0 in
    (s.outstanding ≤ 4)
    × (s.outstanding ≤ s.flow.high_watermark)
    × (s.flow.credits ≡ pos (s.flow.max_credits - s.outstanding))
    × ((polls : List (Option Bool × ℕ))
        → s.outstanding ≤ found_in polls
        → (drain 512 polls s).outstanding ≡ 0)
loop_in_flight_example =
    loop_in_flight 4 512 device flow-Outstanding.window (omega arith) 0 (first_turn ∷ []) honest
      unbroken
