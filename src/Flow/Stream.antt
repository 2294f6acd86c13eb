-- ===== src/Flow/Stream.antt =====
-- The loop of `dmaplane_sustained_stream`, driver/flow_control.c: its variables, and the phases of
-- one turn. What the clock, the RDMA engine and the completion queues answer is an argument.
use dmaplane_master.Base.{
  ℕ, ◌+◌, ◌*◌, ◌/◌, ◌-◌, ◌%◌, Bool, true, false, ◌&&◌, ltb, leb, if◌then◌else◌, List, [], ◌∷◌,
  Option, none, some, replicate, set, get_or, add32, add64, sub32, u32_mod, u64_mod, Errno, eio,
}
use dmaplane_master.Flow.{Flow, can_send, on_send, on_completion, refill}
use dmaplane_master.Histogram.{Histogram, histogram_record, u64_max}

-- TS_RING_SIZE
abbrev pub ts_ring_size : ℕ
ts_ring_size = 128

-- WINDOW_NS
abbrev pub window_length_ns : ℕ
window_length_ns = 1000000000

-- Differences of clock readings, as 64-bit words
abbrev pub sub64 : ℕ → ℕ → ℕ
sub64 a b = (a + u64_mod - b) % u64_mod

-- The variables of the loop, and the counters of the device that it moves
pub record Stream : Type 0 where
  pub flow : Flow
  pub outstanding : ℕ
  pub sent : ℕ
  pub completed : ℕ
  pub recv_posted : ℕ
  pub recv_completed : ℕ
  pub send_ts : List ℕ
  pub ts_head : ℕ
  pub ts_tail : ℕ
  pub rdma_hist : Histogram
  pub total_bytes : ℕ
  pub total_ops : ℕ
  pub window_bytes : ℕ
  pub window_start : ℕ
  pub min_window_mbps : ℕ
  pub max_window_mbps : ℕ
  pub stall_count : ℕ
  pub cq_overflow_count : ℕ
  pub credit_stalls : ℕ
  pub completions_polled : ℕ
  pub completion_errors : ℕ
  pub bytes_sent : ℕ
  pub bytes_received : ℕ
  pub cq_overflows : ℕ

-- The number of receives posted before the loop
abbrev pub pre_post : ℕ → Flow → ℕ
pre_post qdepth f =
    let doubled = (qdepth * 2) % u32_mod in
    if ltb f.max_credits doubled then f.max_credits else doubled

-- The variables where the loop starts, on a device whose counters are `d`
unfoldable pub stream_start : ℕ → ℕ → Stream → Stream
stream_start qdepth start d = record {
  flow = refill d.flow;
  outstanding = 0;
  sent = 0;
  completed = 0;
  recv_posted = pre_post qdepth d.flow;
  recv_completed = 0;
  send_ts = replicate ts_ring_size 0;
  ts_head = 0;
  ts_tail = 0;
  rdma_hist = d.rdma_hist;
  total_bytes = 0;
  total_ops = 0;
  window_bytes = 0;
  window_start = start;
  min_window_mbps = u64_max;
  max_window_mbps = 0;
  stall_count = 0;
  cq_overflow_count = 0;
  credit_stalls = d.credit_stalls;
  completions_polled = d.completions_polled;
  completion_errors = d.completion_errors;
  bytes_sent = d.bytes_sent;
  bytes_received = d.bytes_received;
  cq_overflows = d.cq_overflows;
}

abbrev pub window_mbps : ℕ → ℕ → ℕ
window_mbps bytes ns = if ltb 0 ns && ltb 0 bytes then (bytes * 1000) % u64_mod / ns else 0

-- The check of the one-second window, at the reading `now`
unfoldable pub window_check : ℕ → Stream → Stream
window_check now s =
    let ns = sub64 now s.window_start in
    let mbps = window_mbps s.window_bytes ns in
    if leb window_length_ns ns
    then record s {
      min_window_mbps = if ltb mbps s.min_window_mbps then mbps else s.min_window_mbps;
      max_window_mbps = if ltb s.max_window_mbps mbps then mbps else s.max_window_mbps;
      window_bytes = 0;
      window_start = now;
    }
    else s

-- What `rdma_engine_post_send` answers: success, with the clock reading that follows it, or an error
pub data Post : Type 0 where
  post_ok : ℕ → Post
  post_error : Errno → Post

-- A phase leaves the variables, and the error with which the loop is left, if it is.
pub record Phase : Type 0 where
  pub state : Stream
  pub error : Option Errno
  pub posted : Bool

-- A send that has been posted, stamped `t`
unfoldable pub note_send : ℕ → Stream → Stream
note_send t s = record s {
  flow = on_send s.flow;
  send_ts = set s.send_ts (s.ts_head % ts_ring_size) t;
  ts_head = add32 s.ts_head 1;
  sent = add32 s.sent 1;
  outstanding = add32 s.outstanding 1;
}

unfoldable pub note_stall : Stream → Stream
note_stall s = record s {
  stall_count = add64 s.stall_count 1;
  credit_stalls = add64 s.credit_stalls 1;
}

-- The send phase, once `can_send` has answered
unfoldable pub send_if : ℕ → Post → Bool → Stream → Phase
send_if qdepth post false s = record { state = note_stall s; error = none; posted = false }
send_if qdepth post true s =
    if ltb s.outstanding qdepth
    then elim post [
      | post_ok t ↦ record { state = note_send t s; error = none; posted = true }
      | post_error e ↦ record { state = s; error = some e; posted = false }
    ]
    else record { state = s; error = none; posted = false }

unfoldable pub send_phase : ℕ → Post → Stream → Phase
send_phase qdepth post s =
    send_if qdepth post (can_send s.flow).0 (record s { flow = (can_send s.flow).1 })

-- A send completion that succeeded, at the reading `now`
unfoldable pub note_completion : ℕ → ℕ → Stream → Stream
note_completion msg_size now s = record s {
  rdma_hist =
      histogram_record s.rdma_hist (sub64 now (get_or s.send_ts (s.ts_tail % ts_ring_size) 0));
  ts_tail = add32 s.ts_tail 1;
  completed = add32 s.completed 1;
  outstanding = sub32 s.outstanding 1;
  flow = on_completion s.flow;
  total_bytes = add64 s.total_bytes msg_size;
  total_ops = add64 s.total_ops 1;
  window_bytes = add64 s.window_bytes msg_size;
  completions_polled = add64 s.completions_polled 1;
  bytes_sent = add64 s.bytes_sent msg_size;
}

-- The receive that replaces one: what `rdma_engine_post_recv` answers is `none` for success.
unfoldable pub replenish : ℕ → Option Errno → Stream → Phase
replenish qdepth recv s =
    if ltb s.recv_posted (add32 s.sent qdepth)
    then elim recv [
      | none ↦ record {
        state = record s { recv_posted = add32 s.recv_posted 1 };
        error = none;
        posted = false;
      }
      | some e ↦ record { state = s; error = some e; posted = false }
    ]
    else record { state = s; error = none; posted = false }

-- What one poll of the send queue finds
pub data Poll : Type 0 where
  nothing : Poll
  success : ℕ → Option Errno → Poll
  failure : Poll
  poll_error : Poll

-- The poll of the send queue
unfoldable pub poll_phase : ℕ → ℕ → Poll → Stream → Phase
poll_phase qdepth msg_size nothing s = record { state = s; error = none; posted = false }
poll_phase qdepth msg_size (success now recv) s =
    replenish qdepth recv (note_completion msg_size now s)
poll_phase qdepth msg_size failure s = record {
  state = record s {
    completion_errors = add64 s.completion_errors 1;
    cq_overflow_count = add64 s.cq_overflow_count 1;
    cq_overflows = add64 s.cq_overflows 1;
  };
  error = some eio;
  posted = false;
}
poll_phase qdepth msg_size poll_error s = record { state = s; error = some eio; posted = false }

-- The drain of the receive queue: one truth value for each completion in it, true where it succeeded
unfoldable pub drain_recv : ℕ → List Bool → Stream → Stream
drain_recv msg_size [] s = s
drain_recv msg_size (true ∷ more) s = drain_recv msg_size more (record s {
  recv_completed = add32 s.recv_completed 1;
  completions_polled = add64 s.completions_polled 1;
  bytes_received = add64 s.bytes_received msg_size;
})
drain_recv msg_size (false ∷ more) s = drain_recv msg_size more (record s {
  cq_overflow_count = add64 s.cq_overflow_count 1;
  cq_overflows = add64 s.cq_overflows 1;
})
