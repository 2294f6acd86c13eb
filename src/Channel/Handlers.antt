-- ===== src/Channel/Handlers.antt =====
-- The ioctl handlers SUBMIT, COMPLETE and GET_STATS of one file descriptor, as one caller sees them.
-- `none` for a channel is a descriptor without one; `none` for an entry, and `false` for `copied`,
-- is a failed copy from or to user memory.
use dmaplane_master.Base.{
  ◌≡◌, ◌≢◌, ◌⊎◌, inl, inr, Bool, refl, Option, none, some, [], ◌∷◌, ◌++◌, if◌then◌else◌, Status, ok,
  err, enodev, efault, enospc, eagain, Option-cases, arith, inc, add64,
}
use dmaplane_master.Ring
use dmaplane_master.Ring.{Ring, Entry, ring_size}
use dmaplane_master.Ring.Invariant.{IsValid, push-IsValid, pop-IsValid}
use dmaplane_master.Ring.Refine.{
  contents, contents-push, contents-pop, full_of_refusal, empty_of_refusal,
}
use dmaplane_master.Channel.{Channel, Stats, accept, admit, deliver, count_flight, count_submission}

pub ioctl_submit : Option Channel → Option Entry → Status × Option Channel
ioctl_submit none params = (err enodev, none)
ioctl_submit (some c) none = (err efault, some c)
ioctl_submit (some c) (some e) = elim (accept c e) [
  | none ↦ (err enospc, some c)
  | some c' ↦ (ok, some (count_submission (count_flight c')))
]

-- The second component is what reaches user memory.
pub ioctl_complete : Option Channel → Bool → Status × Option Entry × Option Channel
ioctl_complete none copied = (err enodev, none, none)
ioctl_complete (some c) copied = elim (deliver c) [
  | none ↦ (err eagain, none, some c)
  | some (e, c') ↦ if copied then (ok, some e, some c') else (err efault, none, some c')
]

pub ioctl_get_stats : Option Channel → Bool → Status × Option Stats
ioctl_get_stats none copied = (err enodev, none)
ioctl_get_stats (some c) copied = if copied then (ok, some c.stats) else (err efault, none)

-- What a successful SUBMIT of `e` has done to the channel.
pub record Submitted (c : Channel) (e : Entry) (t : Channel) : Type 0 where
  pub queued : contents t.sub_ring ≡ contents c.sub_ring ++ (e ∷ [])
  pub same_comp : t.comp_ring ≡ c.comp_ring
  pub one_more : t.in_flight ≡ inc c.in_flight
  pub counted : t.stats.total_submissions ≡ add64 c.stats.total_submissions 1
  pub completions : t.stats.total_completions ≡ c.stats.total_completions

-- SUBMIT on a channel whose submission ring is valid is refused with -ENOSPC exactly when the ring
-- is full, and then changes nothing; else it succeeds, the entry is last in the submission queue,
-- the completion ring is as it was, and `in_flight` and the submissions have grown by one.
pub ioctl_submit_lem :
    (c : Channel) (e : Entry)
    → IsValid c.sub_ring
    → ((Ring.count c.sub_ring ≡ ring_size)
        × (ioctl_submit (some c) (some e) ≡ (err enospc, some c)))
      ⊎ ((Ring.count c.sub_ring ≢ ring_size)
          × ((t : Channel) × (ioctl_submit (some c) (some e) ≡ (ok, some t)) × Submitted c e t))
unfolding ioctl_submit accept
ioctl_submit_lem c e v = elim (Option-cases (Ring.push c.sub_ring e)) [
  | inl full ↦ inl (full_of_refusal c.sub_ring e full, rw (full, accept, ioctl_submit))
  | inr (r, p) ↦
      let w = push-IsValid e v p in
      inr (
        omega (arith, w.0.occupancy, w.1),
        (
          count_submission (count_flight (admit c r)),
          rw (p, accept, ioctl_submit),
          record {
            queued = contents-push e v p;
            same_comp = refl;
            one_more = refl;
            counted = refl;
            completions = refl;
          },
        ),
      )
]

-- COMPLETE on a channel whose completion ring is valid is refused with -EAGAIN exactly when the ring
-- is empty, and then changes nothing; else it takes the oldest completion off the ring, and hands
-- it to the caller if the copy succeeds; if the copy fails the caller gets -EFAULT and no entry,
-- and the completion is off the ring all the same.
pub ioctl_complete_lem :
    (c : Channel) (copied : Bool)
    → IsValid c.comp_ring
    → ((Ring.count c.comp_ring ≡ 0) × (ioctl_complete (some c) copied ≡ (err eagain, none, some c)))
      ⊎ ((Ring.count c.comp_ring ≢ 0)
          × ((e : Entry) × (t : Channel) × (ioctl_complete (some c) copied
                ≡ (if copied then (ok, some e, some t) else (err efault, none, some t)))
              × (contents c.comp_ring ≡ e ∷ contents t.comp_ring)
              × (t.sub_ring ≡ c.sub_ring)))
unfolding ioctl_complete deliver
ioctl_complete_lem c copied v = elim (Option-cases (Ring.pop c.comp_ring)) [
  | inl empty ↦ inl (empty_of_refusal c.comp_ring v empty, rw (empty, deliver, ioctl_complete))
  | inr ((e, r), p) ↦
      let w = pop-IsValid v p in
      inr (
        omega (arith, w.1),
        (e, record c { comp_ring = r }, rw (p, deliver, ioctl_complete), contents-pop v p, refl),
      )
]
