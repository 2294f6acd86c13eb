-- ===== src/Channel.antt =====
-- One channel of driver/main.c: its state, the ioctl handlers SUBMIT, COMPLETE and GET_STATS, and
-- the moves of its worker thread.
pub mod System
pub mod Invariant
pub mod Preserve
pub mod Delivery
pub mod Progress
pub mod Handlers
use dmaplane_master.Base.{
  ℕ, ◌+◌, Bool, true, false, ◌&&◌, ◌||◌, not, Option, none, some, if◌then◌else◌, ltb, add64, add32,
  ℤ, pos, inc, dec, Status, ok, err, Errno,
}
use dmaplane_master.Ring
use dmaplane_master.Ring.{Ring, Entry}

-- `struct dmaplane_stats_kern`, the fields that a channel uses
pub record Stats : Type 0 where
  pub total_submissions : ℕ
  pub total_completions : ℕ
  pub ring_high_watermark : ℕ
  pub dropped_count : ℕ

-- `struct dmaplane_channel`, less its locks and its wait queue. `worker` says whether the pointer
-- to the thread is set.
pub record Channel : Type 0 where
  pub refcount : ℕ
  pub sub_ring : Ring
  pub comp_ring : Ring
  pub worker : Bool
  pub id : ℕ
  pub in_flight : ℤ
  pub shutdown : Bool
  pub active : Bool
  pub stats : Stats

abbrev pub zero_stats : Stats
zero_stats = record {
  total_submissions = 0;
  total_completions = 0;
  ring_high_watermark = 0;
  dropped_count = 0;
}

-- `dmaplane_channel_init`
unfoldable pub channel_init : ℕ → Channel
channel_init i = record {
  refcount = 1;
  sub_ring = Ring.init;
  comp_ring = Ring.init;
  worker = false;
  id = i;
  in_flight = pos 0;
  shutdown = false;
  active = false;
  stats = zero_stats;
}

-- The channel once the store of SUBMIT has made `r` its submission ring: the watermark follows.
abbrev pub admit : Channel → Ring → Channel
admit c r = record c {
  sub_ring = r;
  stats = record (c.stats) {
    ring_high_watermark =
        if ltb c.stats.ring_high_watermark (Ring.count r)
        then Ring.count r
        else c.stats.ring_high_watermark;
  };
}

-- The critical section of SUBMIT: `none` where the ring is full.
unfoldable pub accept : Channel → Entry → Option Channel
accept c e = elim (Ring.push c.sub_ring e) [ none ↦ none | some r ↦ some (admit c r) ]

-- The two atomic increments of SUBMIT, after its critical section.
abbrev pub count_flight : Channel → Channel
count_flight c = record c { in_flight = inc c.in_flight }

abbrev pub count_submission : Channel → Channel
count_submission c = record c {
  stats = record (c.stats) { total_submissions = add64 c.stats.total_submissions 1 };
}

-- The critical section of COMPLETE. `none` where the ring is empty.
unfoldable pub deliver : Channel → Option (Entry × Channel)
deliver c = elim (Ring.pop c.comp_ring) [
  | none ↦ none
  | some (e, r) ↦ some (e, record c { comp_ring = r })
]

-- The worker's processing of an entry
unfoldable pub process : Entry → Entry
process e = record e { payload = add64 e.payload 1 }

-- Where the worker stands in `dmaplane_worker_fn`, with the entry that is live there.
pub data Pc : Type 0 where
  outer : Pc  -- the test of the outer loop
  waiting : Pc  -- `wait_event_interruptible`
  woken : Pc  -- the test that leaves the loop when stopped and drained
  inner : Pc  -- the test of the inner loop
  holding : Entry → Pc  -- the loop that stores the processed entry
  stored : Pc  -- before `atomic_dec(&chan->in_flight)`
  released : Pc  -- before `atomic64_inc` of the completions
  exited : Pc  -- returned, by a test of a loop
  aborted : Entry → Pc  -- returned by `goto done`, with an entry that is lost

abbrev pub count_completion : Channel → Channel
count_completion c = record c {
  stats = record (c.stats) { total_completions = add64 c.stats.total_completions 1 };
}

-- The load of one submission, under the ring's lock. The worker is its only consumer, so that the
-- test before the lock and the one under it agree.
unfoldable pub work_take : Channel → Pc × Channel
work_take c = elim (Ring.pop c.sub_ring) [
  | none ↦ (outer, c)
  | some (e, r) ↦ (holding (process e), record c { sub_ring = r })
]

-- One turn of the loop that stores a completion: where the ring is full the worker gives up if it
-- has been told to stop, and tries again if not.
unfoldable pub work_store : Bool → Entry → Channel → Pc × Channel
work_store stop e c = elim (Ring.push c.comp_ring e) [
  | none ↦ (if stop then aborted e else holding e, c)
  | some r ↦ (stored, record c { comp_ring = r })
]

-- One move of the worker; `stop` is `kthread_should_stop()`.
unfoldable pub work : Bool → Pc → Channel → Pc × Channel
unfolding work_take work_store
work stop outer c = (if stop then exited else waiting, c)
work stop waiting c = (if not (Ring.is_empty c.sub_ring) || stop then woken else waiting, c)
work stop woken c = (if stop && Ring.is_empty c.sub_ring then exited else inner, c)
work stop inner c = work_take c
work stop (holding e) c = work_store stop e c
work stop stored c = (released, record c { in_flight = dec c.in_flight })
work stop released c = (inner, count_completion c)
work stop exited c = (exited, c)
work stop (aborted e) c = (aborted e, c)
