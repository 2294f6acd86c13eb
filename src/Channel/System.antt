-- ===== src/Channel/System.antt =====
-- A channel, its worker and any number of submitting and completing threads, interleaved in any order.
use dmaplane_master.Base.{ℕ, suc, ◌≡◌, Bool, true, false, List, [], ◌∷◌, ◌++◌, some}
use dmaplane_master.Ring.{Entry}
use dmaplane_master.Channel.{
  Channel, Pc, outer, channel_init, accept, count_flight, count_submission, deliver, work,
}

-- `in_accept` submitters stand before `atomic_inc(&chan->in_flight)`, and `in_count` before the
-- increment of the submissions. `accepted` records what SUBMIT took, and `popped` what COMPLETE took off
-- the completion ring, each with whether its copy to user memory succeeded.
pub record System : Type 0 where
  pub chan : Channel
  pub pc : Pc
  pub stop : Bool
  pub in_accept : ℕ
  pub in_count : ℕ
  pub accepted : List Entry
  pub popped : List (Entry × Bool)

abbrev pub start : ℕ → System
start i = record {
  chan = channel_init i;
  pc = outer;
  stop = false;
  in_accept = 0;
  in_count = 0;
  accepted = [];
  popped = [];
}

-- The entries of such a record, whatever became of them; those that their callers got; and the number of
-- those that were lost, as the copy failed (-EFAULT)
abbrev pub entries : List (Entry × Bool) → List Entry
entries [] = []
entries ((e, copied) ∷ xs) = e ∷ entries xs

abbrev pub given : List (Entry × Bool) → List Entry
given [] = []
given ((e, true) ∷ xs) = e ∷ given xs
given ((e, false) ∷ xs) = given xs

abbrev pub faults : List (Entry × Bool) → ℕ
faults [] = 0
faults ((e, true) ∷ xs) = faults xs
faults ((e, false) ∷ xs) = suc (faults xs)

unfoldable pub turn : System → System
turn s = let (p, c) = work s.stop s.pc s.chan in record s { chan = c; pc = p }

-- A call that is refused (-ENOSPC, -EAGAIN) leaves everything as it was, and is no step.
pub data Step (s : System) : System → Type 0 where
  submit :
      (e : Entry) {c : Channel}
      → accept s.chan e ≡ some c
      → Step s
          (record s { chan = c; accepted = s.accepted ++ (e ∷ []); in_accept = suc s.in_accept })
  flight :
      {n : ℕ}
      → s.in_accept ≡ suc n
      → Step s (record s { chan = count_flight s.chan; in_accept = n; in_count = suc s.in_count })
  tally :
      {n : ℕ}
      → s.in_count ≡ suc n
      → Step s (record s { chan = count_submission s.chan; in_count = n })
  complete :
      {e : Entry} {c : Channel} (copied : Bool)
      → deliver s.chan ≡ some (e, c)
      → Step s (record s { chan = c; popped = s.popped ++ ((e, copied) ∷ []) })
  worker : Step s (turn s)
  kthread_stop : Step s (record s { stop = true })

pub data Reach (i : ℕ) : System → Type 0 where
  begin : Reach i (start i)
  next : {s t : System} → Reach i s → Step s t → Reach i t
