-- ===== src/Flow/Sustained.antt =====
-- Whole turns of the loop of `dmaplane_sustained_stream`, the drain that follows it and the results.
pub mod Runs
use dmaplane_master.Base.{
  ℕ, ◌+◌, ◌*◌, ◌/◌, ◌%◌, Bool, true, false, ◌==◌, ltb, if◌then◌else◌, List, [], ◌∷◌, Option, none,
  some, add32, add64, sub32, u64_mod, Errno,
}
use dmaplane_master.Flow.{on_completion}
use dmaplane_master.Flow.Stream.{
  Stream, Post, Poll, Phase, window_check, send_phase, poll_phase, drain_recv,
}
use dmaplane_master.Histogram.{u64_max}

-- What one turn meets: the clock, the post of a send, the poll of the send queue, and what the
-- receive queue holds
pub record Turn : Type 0 where
  pub now : ℕ
  pub post : Post
  pub poll : Poll
  pub found : List Bool

-- The end of a turn, after the poll: the receive queue is drained unless the loop is left.
abbrev pub end_turn : ℕ → List Bool → Phase → Stream × Option Errno
end_turn m found p = elim (p.error) [
  | none ↦ (drain_recv m found p.state, none)
  | some e ↦ (p.state, some e)
]

abbrev pub after_send : ℕ → ℕ → Turn → Phase → Stream × Option Errno
after_send q m a p = elim (p.error) [
  | none ↦ end_turn m a.found (poll_phase q m a.poll p.state)
  | some e ↦ (p.state, some e)
]

-- One turn: the variables it leaves, and the error with which the loop is left
unfoldable pub turn : ℕ → ℕ → Turn → Stream → Stream × Option Errno
turn q m a s = after_send q m a (send_phase q a.post (window_check a.now s))

abbrev pub go_on : Stream → Stream × Option Errno → Option Errno → Stream × Option Errno
go_on s rest none = rest
go_on s rest (some e) = (s, some e)

-- The turns until the deadline
unfoldable pub loop : ℕ → ℕ → List Turn → Stream → Stream × Option Errno
loop q m [] s = (s, none)
loop q m (a ∷ more) s =
    let rest = loop q m more (turn q m a s).0 in go_on (turn q m a s).0 rest (turn q m a s).1

-- One poll of the send queue by the drain: `none` finds nothing, a truth value says whether the
-- completion succeeded.
unfoldable pub drain_poll : ℕ → Option Bool → Stream → Stream
drain_poll m none s = s
drain_poll m (some true) s = record s {
  outstanding = sub32 s.outstanding 1;
  flow = on_completion s.flow;
  total_bytes = add64 s.total_bytes m;
  total_ops = add64 s.total_ops 1;
}
drain_poll m (some false) s = record s { outstanding = sub32 s.outstanding 1 }

-- The drain, for the turns that its time limit allows: each has its poll, and the number of
-- completions found in the receive queue.
unfoldable pub drain : ℕ → List (Option Bool × ℕ) → Stream → Stream
drain m [] s = s
drain m ((x, r) ∷ more) s =
    let s' = drain_poll m x s in
    let rest = drain m more (record s' { recv_completed = add32 s'.recv_completed r }) in
    if s.outstanding == 0 then s else rest

-- `struct dmaplane_sustained_params`, its results
pub record Results : Type 0 where
  pub total_bytes : ℕ
  pub total_ops : ℕ
  pub avg_throughput_mbps : ℕ
  pub min_window_mbps : ℕ
  pub max_window_mbps : ℕ
  pub stall_count : ℕ
  pub cq_overflow_count : ℕ
  pub status : ℕ

-- The results, after `elapsed` nanoseconds
unfoldable pub results : ℕ → Option Errno → Stream → Results
results elapsed error s =
    let avg = if ltb 0 elapsed then (s.total_bytes * 1000) % u64_mod / elapsed else 0 in
    record {
      total_bytes = s.total_bytes;
      total_ops = s.total_ops;
      avg_throughput_mbps = avg;
      min_window_mbps = if s.min_window_mbps == u64_max then avg else s.min_window_mbps;
      max_window_mbps = s.max_window_mbps;
      stall_count = s.stall_count;
      cq_overflow_count = s.cq_overflow_count;
      status = elim error [ none ↦ 0 | some e ↦ 1 ];
    }
