-- ===== src/Tests/Channels.antt =====
-- The rings and a channel with one entry under way.
use dmaplane_master.Base.{
  set, ◌%◌, ℕ, ◌+◌, ◌≡◌, ◌≤◌, ◌≢◌, ◌⊎◌, ◌++◌, false, refl, arith, none, some, List, [], ◌∷◌, map,
  length, neg_part, u64_mod, ok, err, enospc, eagain, efault, if◌then◌else◌,
}
use mathlib.Core.Option
use dmaplane_master.Ring
use dmaplane_master.Ring.{Ring, Entry, ring_size, init, push, pop}
use dmaplane_master.Ring.Queue
use dmaplane_master.Ring.Invariant.{IsValid, init-IsValid, push-IsValid}
use dmaplane_master.Ring.Refine.{contents, push_refines, pop_refines}
use dmaplane_master.Channel.{Channel, channel_init, accept, deliver, process, admit, count_flight}
use dmaplane_master.Channel.System.{
  faults, given, entries, System, start, Reach, begin, next, submit, flight,
}
use dmaplane_master.Channel.Invariant.{uncounted}
use dmaplane_master.Channel.Delivery.{delivered_in_order, in_flight_lower, stats_exact}
use dmaplane_master.Channel.Progress.{run, worker_progress}
use dmaplane_master.Channel.Handlers.{
  ioctl_submit, ioctl_complete, Submitted, ioctl_submit_lem, ioctl_complete_lem,
}

abbrev entry : Entry
entry = record { payload = 41; flags = 0; pad = 0 }

abbrev ring : Ring
ring = record init { entries = set init.entries 0 entry; head = 1 }

ring-push : push init entry ≡ some ring
unfolding push init
ring-push = refl

ring-IsValid : IsValid ring
ring-IsValid = (push-IsValid entry init-IsValid ring-push).0

push_refines_example :
    Option.map contents (push ring entry) ≡ Queue.push ring_size (contents ring) entry
push_refines_example = push_refines ring entry ring-IsValid

pop_refines_example : Option.map (λ p. (p.0, contents p.1)) (pop ring) ≡ Queue.pop (contents ring)
pop_refines_example = pop_refines ring ring-IsValid

abbrev chan : Channel
chan = admit (channel_init 0) ring

accepted : accept (channel_init 0) entry ≡ some chan
unfolding accept channel_init push init
accepted = refl

abbrev queued : System
queued = record (start 0) { chan = chan; accepted = entry ∷ []; in_accept = 1 }

queued-Reach : Reach 0 queued
queued-Reach = next begin (submit entry accepted)

abbrev counted : System
counted = record queued { chan = count_flight chan; in_accept = 0; in_count = 1 }

counted-Reach : Reach 0 counted
counted-Reach = next queued-Reach (flight refl)

delivered_in_order_example :
    (rest : List Entry) × (entries queued.popped ++ rest ≡ map process queued.accepted)
    × (length (given queued.popped) + faults queued.popped ≡ length queued.popped)
    × (faults queued.popped ≡ 0 → given queued.popped ++ rest ≡ map process queued.accepted)
delivered_in_order_example = delivered_in_order queued-Reach

in_flight_lower_example : neg_part queued.chan.in_flight ≤ queued.in_accept
in_flight_lower_example = in_flight_lower queued-Reach

stats_exact_example :
    ((queued.chan.stats.total_submissions + queued.in_accept + queued.in_count) % u64_mod
      ≡ length queued.accepted % u64_mod)
    × ((queued.chan.stats.total_completions + uncounted queued.pc) % u64_mod
        ≡ (length queued.popped + Ring.count queued.chan.comp_ring) % u64_mod)
    × (Ring.count queued.chan.sub_ring ≤ queued.chan.stats.ring_high_watermark)
    × (queued.chan.stats.ring_high_watermark ≤ ring_size)
    × (queued.chan.stats.dropped_count ≡ 0)
stats_exact_example = stats_exact queued-Reach

worker_progress_example :
    (n : ℕ) × (n ≤ 5)
    × ((e : Entry) × (c : Channel) × (deliver (run n false queued.pc queued.chan).1 ≡ some (e, c)))
worker_progress_example = worker_progress queued-Reach refl (omega arith)

ioctl_submit_lem_example :
    ((Ring.count chan.sub_ring ≡ ring_size)
      × (ioctl_submit (some chan) (some entry) ≡ (err enospc, some chan)))
    ⊎ ((Ring.count chan.sub_ring ≢ ring_size)
        × ((t : Channel) × (ioctl_submit (some chan) (some entry) ≡ (ok, some t))
            × Submitted chan entry t))
ioctl_submit_lem_example = ioctl_submit_lem chan entry ring-IsValid

abbrev done : Channel
done = record chan { comp_ring = ring }

ioctl_complete_lem_example :
    ((Ring.count done.comp_ring ≡ 0)
      × (ioctl_complete (some done) false ≡ (err eagain, none, some done)))
    ⊎ ((Ring.count done.comp_ring ≢ 0)
        × ((e : Entry) × (t : Channel) × (ioctl_complete (some done) false
              ≡ (if false then (ok, some e, some t) else (err efault, none, some t)))
            × (contents done.comp_ring ≡ e ∷ contents t.comp_ring)
            × (t.sub_ring ≡ done.sub_ring)))
ioctl_complete_lem_example = ioctl_complete_lem done false ring-IsValid
