-- ===== src/Channel/Progress.antt =====
-- The moves of the worker thread `dmaplane_worker_fn` of driver/main.c, with nobody else moving.
use native.Mathlib.Decide.{ℕ_discrete}
use mathlib.Core.Bool.{false≢true}
use dmaplane_master.Base.{
  ◌⊎◌, Bool-cases, dec, sym, ◌∙◌, ℕ, zero, suc, ◌+◌, ◌≤◌, ◌<◌, ◌≡◌, ◌≢◌, Bool, true, false, refl,
  some, length, arith, Option-cases, inl, inr,
}
use dmaplane_master.Ring
use dmaplane_master.Ring.{Ring, Entry}
use dmaplane_master.Ring.Invariant.{IsValid, push-IsValid}
use dmaplane_master.Ring.Refine.{pop_of_nonempty, full_of_refusal}
use dmaplane_master.Channel.{
  Channel, Pc, outer, waiting, woken, inner, holding, stored, released, exited, aborted, deliver,
  work, work_take, work_store, process, count_completion,
}
use dmaplane_master.Channel.System.{
  System, turn, submit, flight, tally, complete, worker, kthread_stop, Reach, begin, next,
}
use dmaplane_master.Channel.Invariant.{held}
use dmaplane_master.Channel.Preserve.{Reach-Inv}
use dmaplane_master.Channel.Delivery.{length-fifo}

-- `n` moves of the worker, with nobody else moving
unfoldable pub run : ℕ → Bool → Pc → Channel → Pc × Channel
run zero stop p c = (p, c)
run (suc n) stop p c = run n stop (work stop p c).0 (work stop p c).1

abbrev Ready : Pc × Channel → Type 0
Ready w = Ring.count (w.1.comp_ring) ≢ 0

Ready-holding : (e : Entry) (c : Channel) → IsValid c.comp_ring → Ready (run 1 false (holding e) c)
unfolding run work work_store
Ready-holding e c v = elim (Option-cases (Ring.push c.comp_ring e)) [
  | inl full ↦ rw (full, work_store) (omega (arith, full_of_refusal c.comp_ring e full))
  | inr (r, p) ↦ rw (p, work_store) (omega (arith, push-IsValid e v p))
]

not-empty_of_count : (r : Ring) → Ring.count r ≢ 0 → Ring.is_empty r ≡ false
not-empty_of_count r h = ground arith

module _ (c : Channel) (more : Ring.count c.sub_ring ≢ 0) where
  work-inner :
      (e : Entry) × (r : Ring) × (work false inner c
        ≡ (holding (process e), record c { sub_ring = r }))
  unfolding work work_take
  work-inner = let (e, r, p) = pop_of_nonempty c.sub_ring more in (e, r, rw (p, work_take))

  work-waiting : work false waiting c ≡ (woken, c)
  unfolding work
  work-waiting = rw (not-empty_of_count c.sub_ring more)

-- From each place of the loops, with something in the submission ring
module _ (c : Channel) (v : IsValid c.comp_ring) (more : Ring.count c.sub_ring ≢ 0) where
  Ready-inner : Ready (run 2 false inner c)
  unfolding run
  Ready-inner =
      let (e, r, p) = work-inner c more in
      rw p (Ready-holding (process e) (record c { sub_ring = r }) v)

  Ready-woken : Ready (run 3 false woken c)
  unfolding run work
  Ready-woken = Ready-inner

  Ready-waiting : Ready (run 4 false waiting c)
  unfolding run
  Ready-waiting = rw (work-waiting c more) Ready-woken

  Ready-outer : Ready (run 5 false outer c)
  unfolding run work
  Ready-outer = Ready-waiting

Ready-released :
    (c : Channel) → IsValid c.comp_ring → Ring.count c.sub_ring ≢ 0 → Ready (run 3 false released c)
unfolding run work
Ready-released c v more = Ready-inner (count_completion c) v more

Ready-stored :
    (c : Channel) → IsValid c.comp_ring → Ring.count c.sub_ring ≢ 0 → Ready (run 4 false stored c)
unfolding run work
Ready-stored c v more = Ready-released (record c { in_flight = dec c.in_flight }) v more

abbrev halted : Pc → Bool
halted exited = true
halted (aborted _) = true
halted _ = false

-- With something in its hands or in the submission ring, the worker is at most five moves from a
-- completion.
Ready-soon :
    (p : Pc) (c : Channel)
    → IsValid c.comp_ring
    → halted p ≡ false
    → length (held p) + Ring.count c.sub_ring ≢ 0
    → (n : ℕ) × (n ≤ 5) × Ready (run n false p c)
Ready-soon outer c v h m = (5, omega arith, Ready-outer c v (omega arith))
Ready-soon waiting c v h m = (4, omega arith, Ready-waiting c v (omega arith))
Ready-soon woken c v h m = (3, omega arith, Ready-woken c v (omega arith))
Ready-soon inner c v h m = (2, omega arith, Ready-inner c v (omega arith))
Ready-soon (holding e) c v h m = (1, omega arith, Ready-holding e c v)
Ready-soon stored c v h m = (4, omega arith, Ready-stored c v (omega arith))
Ready-soon released c v h m = (3, omega arith, Ready-released c v (omega arith))
Ready-soon exited c v h m = cc
Ready-soon (aborted e) c v h m = cc

-- The worker leaves its loops only when it has been told to.
work-halted :
    (stop : Bool) (p : Pc) (c : Channel)
    → halted (work stop p c).0 ≡ true
    → (halted p ≡ true) ⊎ (stop ≡ true)
unfolding work work_take work_store
work-halted true p c h = inr refl
work-halted false outer c h = cc
work-halted false waiting c h = ground arith
work-halted false woken c h = cc
work-halted false inner c h = ground arith
work-halted false (holding e) c h = ground arith
work-halted false stored c h = cc
work-halted false released c h = cc
work-halted false exited c h = inl refl
work-halted false (aborted e) c h = inl refl

Reach-halted : {i : ℕ} {s : System} → Reach i s → halted s.pc ≡ true → s.stop ≡ true
unfolding turn
Reach-halted begin h = cc
Reach-halted (next r (submit e a)) h = Reach-halted r h
Reach-halted (next r (flight a)) h = Reach-halted r h
Reach-halted (next r (tally a)) h = Reach-halted r h
Reach-halted (next r (complete copied a)) h = Reach-halted r h
Reach-halted (next {s} r worker) h = elim (work-halted s.stop s.pc s.chan h) [
  | inl was ↦ Reach-halted r was
  | inr told ↦ told
]
Reach-halted (next r kthread_stop) h = refl

deliver_of_ready :
    (c : Channel)
    → Ring.count c.comp_ring ≢ 0
    → (e : Entry) × (c' : Channel) × (deliver c ≡ some (e, c'))
unfolding deliver
deliver_of_ready c h =
    let (e, r, p) = pop_of_nonempty c.comp_ring h in
    (e, record c { comp_ring = r }, rw (p, deliver))

-- In every reachable state where the worker has not been told to stop and some entry that SUBMIT
-- took has not been taken off by COMPLETE, after at most five moves of the worker COMPLETE finds one in
-- the completion ring.
pub worker_progress :
    {i : ℕ} {s : System}
    → Reach i s
    → s.stop ≡ false
    → length s.popped < length s.accepted
    → (n : ℕ) × (n ≤ 5)
      × ((e : Entry) × (c : Channel) × (deliver (run n false s.pc s.chan).1 ≡ some (e, c)))
unfolding run
worker_progress {s = s} r going behind = elim (ℕ_discrete (Ring.count s.chan.comp_ring) 0) [
  | yes none_ready ↦
      let (n, small, ready) =
        Ready-soon s.pc s.chan (Reach-Inv r).comp_valid running
          (omega (arith, length-fifo (Reach-Inv r))) in
      (n, small, deliver_of_ready (run n false s.pc s.chan).1 ready)
  | no ready ↦ (0, omega arith, deliver_of_ready s.chan ready)
]
  where
    running : halted s.pc ≡ false
    running = elim (Bool-cases (halted s.pc)) [
      | inl h ↦ absurd (false≢true (sym going ∙ Reach-halted r h))
      | inr h ↦ h
    ]
