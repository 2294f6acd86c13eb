-- ===== src/Sweep.antt =====
-- `dmaplane_qdepth_sweep`, driver/flow_control.c: the loop of sends and polls at one queue depth, and
-- the search for the depth at which throughput saturates.
pub mod Runs
pub mod Turns
pub mod Saturation
use mathlib.Core.Option
use dmaplane_master.Base.{
  ℕ, zero, suc, ◌+◌, ◌-◌, ◌*◌, ◌/◌, ◌%◌, max, min, Bool, true, false, ◌&&◌, ◌||◌, not, ◌==◌, ltb,
  leb, List, [], ◌∷◌, ◌++◌, Option, none, some, if◌then◌else◌, find_index, take, length, u64_mod,
  u32_mod, add32, sub32, add64, Errno, eio, etimedout,
}
use dmaplane_master.Region.Register.{Polled, completion, nothing, poll_error}

-- `struct dmaplane_sweep_params`, the inputs
pub record SweepParams : Type 0 where
  pub msg_size : ℕ
  pub iterations : ℕ
  pub min_qdepth : ℕ
  pub max_qdepth : ℕ
  pub step : ℕ

abbrev pub max_sweep_points : ℕ
max_sweep_points = 32

-- The tests of the parameters
abbrev pub sweep_refused : SweepParams → Bool
sweep_refused p =
    ltb p.min_qdepth 1
    || ltb 64 p.max_qdepth
    || ltb p.max_qdepth p.min_qdepth
    || ltb p.step 1
    || p.iterations == 0
    || p.msg_size == 0

-- The number of points
abbrev pub sweep_points : SweepParams → ℕ
sweep_points p = min ((p.max_qdepth - p.min_qdepth) / p.step + 1) max_sweep_points

abbrev pub point_qdepth : SweepParams → ℕ → ℕ
point_qdepth p point = p.min_qdepth + point * p.step

-- The counters at one depth, with the latencies that have been written (none where `kvcalloc` of their
-- array failed)
pub record Point : Type 0 where
  pub sent : ℕ
  pub completed : ℕ
  pub recv_posted : ℕ
  pub recv_drained : ℕ
  pub outstanding : ℕ
  pub latencies : Option (List ℕ)

abbrev pub pre_posted : (qdepth iterations : ℕ) → ℕ
pre_posted qdepth iterations = min (qdepth * 2) iterations

abbrev pub point_start : (allocated : Bool) (qdepth iterations : ℕ) → Point
point_start allocated qdepth iterations = record {
  sent = 0;
  completed = 0;
  recv_posted = pre_posted qdepth iterations;
  recv_drained = 0;
  outstanding = 0;
  latencies = if allocated then some [] else none;
}

-- What one turn is answered: the error of the i-th send, if any; the poll; the latency of the send that
-- it completes; how many receives are drained; whether a receive is taken
pub record SweepTurn : Type 0 where
  pub send : ℕ → Option Errno
  pub poll : Polled
  pub latency : ℕ
  pub drained : ℕ
  pub reposted : Bool

pub data SweepEnd : Type 0 where
  finished running : SweepEnd
  aborted : Errno → SweepEnd

-- The inner loop of sends, with at most `n` rounds left and `i` done: the error that ends it, if any
unfoldable pub send_all :
    (ℕ → Option Errno) → (qdepth iterations n i : ℕ) → Point → Option Errno × Point
send_all send qdepth iterations zero i p = (none, p)
send_all send qdepth iterations (suc n) i p =
    let rest =
      send_all send qdepth iterations n (suc i)
        (record p { sent = p.sent + 1; outstanding = p.outstanding + 1 }) in
    if ltb p.sent iterations && ltb p.outstanding qdepth
    then (elim (send i) [ none ↦ rest | some e ↦ (some e, p) ])
    else (none, p)

-- A completion: the latency, the counters, the receives that are drained, and one posted again
unfoldable pub complete_one : (iterations : ℕ) → SweepTurn → Point → Point
complete_one iterations t p = record p {
  latencies = Option.map (λ xs. xs ++ (t.latency ∷ [])) p.latencies;
  outstanding = sub32 p.outstanding 1;
  completed = p.completed + 1;
  recv_drained = p.recv_drained + t.drained;
  recv_posted =
      if ltb p.recv_posted iterations && t.reposted then p.recv_posted + 1 else p.recv_posted;
}

-- After the poll. An error of the poll is handled by no branch, so that the loop goes on.
unfoldable pub after_poll : (iterations : ℕ) → SweepTurn → Polled → Point → SweepEnd × Point
after_poll iterations t (completion true) p = (running, complete_one iterations t p)
after_poll iterations t (completion false) p = (aborted eio, p)
after_poll iterations t nothing p = (aborted etimedout, p)
after_poll iterations t (poll_error e) p = (running, p)

unfoldable pub after_sends : (iterations : ℕ) → SweepTurn → Option Errno × Point → SweepEnd × Point
after_sends iterations t (some e, p) = (aborted e, p)
after_sends iterations t (none, p) = after_poll iterations t t.poll p

unfoldable pub sweep_turn : (qdepth iterations : ℕ) → SweepTurn → Point → SweepEnd × Point
sweep_turn qdepth iterations t p =
    after_sends iterations t (send_all t.send qdepth iterations (iterations - p.sent) 0 p)

-- The loop, on what its turns are answered
unfoldable pub sweep_loop : (qdepth iterations : ℕ) → List SweepTurn → Point → SweepEnd × Point
sweep_loop qdepth iterations [] p = (if ltb p.completed iterations then running else finished, p)
sweep_loop qdepth iterations (t ∷ ts) p =
    let x = sweep_turn qdepth iterations t p in
    let rest = sweep_loop qdepth iterations ts x.1 in
    if not (ltb p.completed iterations)
    then (finished, p)
    else elim (x.0) [ running ↦ rest | finished ↦ x | aborted e ↦ x ]

-- The index, in 32 bits, of the 99th percentile among the sorted latencies
abbrev pub p99_index : ℕ → ℕ
p99_index completed = (completed * 99 % u32_mod) / 100

-- The throughput of a point, whose entry is left as it was where no time has passed
abbrev pub point_throughput : (old msg_size completed total_ns : ℕ) → ℕ
point_throughput old msg_size completed total_ns =
    if ltb 0 total_ns then (msg_size * completed * 1000 % u64_mod) / total_ns else old

-- The largest throughput
unfoldable pub max_throughput : List ℕ → ℕ
max_throughput [] = 0
max_throughput (x ∷ xs) = max x (max_throughput xs)

abbrev pub threshold : List ℕ → ℕ
threshold xs = (max_throughput xs * 95 % u64_mod) / 100

-- The first point before the last at which the threshold is reached
abbrev pub plateau : List ℕ → Option ℕ
plateau xs = find_index (λ x. leb (threshold xs) x) (take (length xs - 1) xs)

-- The depth that is reported: 0 where there is none
unfoldable pub saturation_qdepth : SweepParams → List ℕ → ℕ
saturation_qdepth p xs =
    if ltb 0 (max_throughput xs) && leb 2 (length xs)
    then (elim (plateau xs) [ none ↦ 0 | some i ↦ point_qdepth p i ])
    else 0
