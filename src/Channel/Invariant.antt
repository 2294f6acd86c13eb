-- ===== src/Channel/Invariant.antt =====
-- What holds of a channel, its worker and its callers between any two steps.
use dmaplane_master.Base.{
  ℕ, ◌+◌, ◌%◌, ◌≤◌, ◌<◌, ◌≡◌, refl, List, [], ◌∷◌, ◌++◌, some, map, length, u64_mod, pos_part,
  neg_part, arith, Option-cases, inl, inr,
}
use dmaplane_master.Ring
use dmaplane_master.Ring.{Ring, Entry, ring_size}
use dmaplane_master.Ring.Invariant.{IsValid, init-IsValid}
use dmaplane_master.Ring.Refine.{contents}
use dmaplane_master.Channel.{
  Channel, Pc, holding, stored, released, aborted, channel_init, accept, admit, deliver, process,
}
use dmaplane_master.Channel.System.{System, start, entries}

-- The entry that the worker has taken and not stored
abbrev pub held : Pc → List Entry
held (holding e) = e ∷ []
held (aborted e) = e ∷ []
held _ = []

-- Entries taken from the submission ring and still counted in `in_flight`
abbrev pub undropped : Pc → ℕ
undropped (holding _) = 1
undropped (aborted _) = 1
undropped stored = 1
undropped _ = 0

-- Entries stored in the completion ring and not yet counted
abbrev pub uncounted : Pc → ℕ
uncounted stored = 1
uncounted released = 1
uncounted _ = 0

pub record Inv (s : System) : Type 0 where
  pub sub_valid : IsValid s.chan.sub_ring
  pub comp_valid : IsValid s.chan.comp_ring
  -- Taken off, waiting in the completion ring, in the worker's hands, waiting in the submission
  -- ring: together the accepted entries, processed, in order.
  pub fifo :
      entries s.popped
        ++ (contents s.chan.comp_ring ++ (held s.pc ++ map process (contents s.chan.sub_ring)))
      ≡ map process s.accepted
  pub flight :
      pos_part s.chan.in_flight + s.in_accept
      ≡ neg_part s.chan.in_flight + Ring.count s.chan.sub_ring + undropped s.pc
  pub submissions :
      (s.chan.stats.total_submissions + s.in_accept + s.in_count) % u64_mod
      ≡ length s.accepted % u64_mod
  pub completions :
      (s.chan.stats.total_completions + uncounted s.pc) % u64_mod
      ≡ (length s.popped + Ring.count s.chan.comp_ring) % u64_mod
  pub submissions_word : s.chan.stats.total_submissions < u64_mod
  pub completions_word : s.chan.stats.total_completions < u64_mod
  pub seen : Ring.count s.chan.sub_ring ≤ s.chan.stats.ring_high_watermark
  pub bounded : s.chan.stats.ring_high_watermark ≤ ring_size
  pub none_dropped : s.chan.stats.dropped_count ≡ 0

pub start-Inv : (i : ℕ) → Inv (start i)
unfolding channel_init Ring.init
start-Inv i = record {
  sub_valid = init-IsValid;
  comp_valid = init-IsValid;
  fifo = refl;
  flight = omega arith;
  submissions = omega arith;
  completions = omega arith;
  submissions_word = omega arith;
  completions_word = omega arith;
  seen = omega arith;
  bounded = omega arith;
  none_dropped = refl;
}

-- What a successful critical section did.
pub accept_inv :
    (c : Channel) (e : Entry) {c' : Channel}
    → accept c e ≡ some c'
    → (r : Ring) × (Ring.push c.sub_ring e ≡ some r) × (c' ≡ admit c r)
unfolding accept
accept_inv c e h = elim (Option-cases (Ring.push c.sub_ring e)) [
  | inl full ↦ ground arith
  | inr (r, p) ↦ (r, p, ground arith)
]

pub deliver_inv :
    (c : Channel) {e : Entry} {c' : Channel}
    → deliver c ≡ some (e, c')
    → (r : Ring) × (Ring.pop c.comp_ring ≡ some (e, r)) × (c' ≡ record c { comp_ring = r })
unfolding deliver
deliver_inv c h = elim (Option-cases (Ring.pop c.comp_ring)) [
  | inl empty ↦ ground arith
  | inr ((e', r), p) ↦ (r, ground arith, ground arith)
]
