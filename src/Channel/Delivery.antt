-- ===== src/Channel/Delivery.antt =====
-- Entries and counters of a channel of driver/main.c, over all interleavings.
use dmaplane_master.Base.{
  suc, ◌∙◌, Bool, neg_part_of_le, eq_pos_of_parts, ℕ, ◌+◌, ◌%◌, ◌≤◌, ◌≡◌, refl, true, false, List,
  [], ◌∷◌, ◌++◌, map, length, length-append, length-map, u64_mod, neg_part, pos, arith, ap,
}
use dmaplane_master.Ring
use dmaplane_master.Ring.{Ring, Entry, ring_size}
use dmaplane_master.Ring.Refine.{contents, length-contents}
use dmaplane_master.Channel.{Pc, holding, stored, aborted, process}
use dmaplane_master.Channel.System.{faults, given, entries, System, Reach}
use dmaplane_master.Channel.Invariant.{Inv, held, undropped, uncounted}
use dmaplane_master.Channel.Preserve.{Reach-Inv}

length-entries : (xs : List (Entry × Bool)) → length (entries xs) ≡ length xs
length-entries [] = refl
length-entries ((e, b) ∷ xs) = ap suc (length-entries xs)

given-faults : (xs : List (Entry × Bool)) → length (given xs) + faults xs ≡ length xs
given-faults [] = refl
given-faults ((e, true) ∷ xs) = omega (arith, given-faults xs)
given-faults ((e, false) ∷ xs) = omega (arith, given-faults xs)

given_of_no_faults : (xs : List (Entry × Bool)) → faults xs ≡ 0 → given xs ≡ entries xs
given_of_no_faults [] h = refl
given_of_no_faults ((e, true) ∷ xs) h = ap (λ ys. e ∷ ys) (given_of_no_faults xs h)
given_of_no_faults ((e, false) ∷ xs) h = absurd (omega (arith, h))

-- In every reachable state, the entries that COMPLETE has taken off the completion ring are, in order,
-- the first of those that SUBMIT has taken, each with its payload incremented: none of them is
-- skipped, doubled or overtaken there. Callers have got all of them but those whose copy to user
-- memory failed; where none failed, what callers have got is itself, in order, the first of what SUBMIT
-- has taken.
pub delivered_in_order :
    {i : ℕ} {s : System}
    → Reach i s
    → (rest : List Entry) × (entries s.popped ++ rest ≡ map process s.accepted)
      × (length (given s.popped) + faults s.popped ≡ length s.popped)
      × (faults s.popped ≡ 0 → given s.popped ++ rest ≡ map process s.accepted)
delivered_in_order {s = s} r =
    let rest = contents s.chan.comp_ring ++ (held s.pc ++ map process (contents s.chan.sub_ring)) in
    let f = (Reach-Inv r).fifo in
    (rest, f, given-faults s.popped, λ h. ap (λ xs. xs ++ rest) (given_of_no_faults s.popped h) ∙ f)

pub length-held : (p : Pc) → length (held p) ≤ 1
length-held (holding e) = omega arith
length-held (aborted e) = omega arith
length-held _ = omega arith

held-le-undropped : (p : Pc) → length (held p) ≤ undropped p
held-le-undropped (holding e) = omega arith
held-le-undropped (aborted e) = omega arith
held-le-undropped stored = omega arith
held-le-undropped _ = omega arith

-- The entries that are somewhere on their way.
pub length-fifo :
    {s : System}
    → Inv s
    → length s.accepted
      ≡ length s.popped
        + Ring.count s.chan.comp_ring
        + length (held s.pc)
        + Ring.count s.chan.sub_ring
length-fifo {s} inv = omega (
  arith,
  ap length inv.fifo,
  length-entries s.popped,
  length-append (entries s.popped)
      (contents s.chan.comp_ring ++ (held s.pc ++ map process (contents s.chan.sub_ring))),
  length-append (contents s.chan.comp_ring) (held s.pc ++ map process (contents s.chan.sub_ring)),
  length-append (held s.pc) (map process (contents s.chan.sub_ring)),
  length-map process (contents s.chan.sub_ring),
  length-map process s.accepted,
  length-contents s.chan.sub_ring,
  length-contents s.chan.comp_ring,
)

-- In every reachable state SUBMIT has taken at most 2049 entries more than COMPLETE has taken off: two
-- full rings and the entry in the worker's hands.
pub backlog_bounded : {i : ℕ} {s : System} → Reach i s → length s.accepted ≤ length s.popped + 2049
backlog_bounded {s = s} r =
    let inv = Reach-Inv r in
    omega
      (arith, length-fifo inv, length-held s.pc, inv.sub_valid.occupancy, inv.comp_valid.occupancy)

-- In every reachable state where no submitter stands before its increment of `in_flight` and the
-- worker holds nothing that it has not counted off, `in_flight` is the number of entries taken and
-- not yet in the completion ring.
pub in_flight_at_rest :
    {i : ℕ} {s : System}
    → Reach i s
    → s.in_accept ≡ 0
    → undropped s.pc ≡ 0
    → (n : ℕ) × (s.chan.in_flight ≡ pos n)
      × (length s.accepted ≡ length s.popped + Ring.count s.chan.comp_ring + n)
in_flight_at_rest {s = s} r a u =
    let inv = Reach-Inv r in
    (
      Ring.count s.chan.sub_ring,
      eq_pos_of_parts s.chan.in_flight (Ring.count s.chan.sub_ring) (omega (arith, inv.flight)),
      omega (arith, length-fifo inv, held-le-undropped s.pc),
    )

-- In every reachable state `in_flight` is below zero by at most the number of submitters that
-- stand before their increment of it.
pub in_flight_lower : {i : ℕ} {s : System} → Reach i s → neg_part s.chan.in_flight ≤ s.in_accept
in_flight_lower {s = s} r =
    neg_part_of_le s.chan.in_flight s.in_accept (Ring.count s.chan.sub_ring + undropped s.pc)
      (omega (arith, (Reach-Inv r).flight))

-- In every reachable state the statistics are exact up to the increments that are still to come,
-- modulo 2 ^ 64: submissions count the entries taken, completions those stored in the completion
-- ring, whether they are still there or COMPLETE has taken them off, lost ones included; the high
-- watermark lies between the present occupancy and the ring's size; and `dropped_count` is 0, also where
-- entries have been lost.
pub stats_exact :
    {i : ℕ} {s : System}
    → Reach i s
    → ((s.chan.stats.total_submissions + s.in_accept + s.in_count) % u64_mod
        ≡ length s.accepted % u64_mod)
      × ((s.chan.stats.total_completions + uncounted s.pc) % u64_mod
          ≡ (length s.popped + Ring.count s.chan.comp_ring) % u64_mod)
      × (Ring.count s.chan.sub_ring ≤ s.chan.stats.ring_high_watermark)
      × (s.chan.stats.ring_high_watermark ≤ ring_size)
      × (s.chan.stats.dropped_count ≡ 0)
stats_exact r =
    let inv = Reach-Inv r in
    (inv.submissions, inv.completions, inv.seen, inv.bounded, inv.none_dropped)
