-- ===== src/Ring.antt =====
-- The submission and completion rings: driver/dmaplane.h and driver/main.c.
pub mod Queue
pub mod Invariant
pub mod Refine
use dmaplane_master.Base.{
  ℕ, ◌%◌, Bool, ◌==◌, List, Option, none, some, if◌then◌else◌, get_or, set, replicate, add32, sub32,
}

-- `struct dmaplane_ring_entry`
pub record Entry : Type 0 where
  pub payload : ℕ
  pub flags : ℕ
  pub pad : ℕ

abbrev pub ring_size : ℕ
ring_size = 1024

-- `struct dmaplane_ring`, less its lock: every operation below runs with the lock held.
pub record Ring : Type 0 where
  pub entries : List Entry
  pub head : ℕ
  pub tail : ℕ

abbrev pub zero_entry : Entry
zero_entry = record { payload = 0; flags = 0; pad = 0 }

unfoldable pub init : Ring
init = record { entries = replicate ring_size zero_entry; head = 0; tail = 0 }

abbrev pub count : Ring → ℕ
count r = sub32 r.head r.tail

abbrev pub is_full : Ring → Bool
is_full r = sub32 r.head r.tail == ring_size

abbrev pub is_empty : Ring → Bool
is_empty r = r.head == r.tail

-- The store at `head % RING_SIZE` and the advance of `head`; `none` where the ring is full.
unfoldable pub push : Ring → Entry → Option Ring
push r e =
    if is_full r
    then none
    else some (record r { entries = set r.entries (r.head % ring_size) e; head = add32 r.head 1 })

-- The load at `tail % RING_SIZE` and the advance of `tail`; `none` where the ring is empty.
unfoldable pub pop : Ring → Option (Entry × Ring)
pop r =
    if is_empty r
    then none
    else some (get_or r.entries (r.tail % ring_size) zero_entry, record r { tail = add32 r.tail 1 })
