-- ===== src/Ring/Invariant.antt =====
-- The representation invariant of a ring: indices are 32-bit words that wrap, at most `ring_size`
-- apart, so that no access is out of range.
use dmaplane_master.Base.{
  ◌%◌, ◌≤◌, ◌<◌, ◌+◌, ◌≡◌, some, length, length-set, length-replicate, u32_mod, arith,
}
use dmaplane_master.Ring.{Ring, Entry, ring_size, zero_entry, init, count, push, pop}

pub record IsValid (r : Ring) : Type 0 where
  pub storage : length r.entries ≡ ring_size
  pub head_word : r.head < u32_mod
  pub tail_word : r.tail < u32_mod
  pub occupancy : count r ≤ ring_size

pub init-IsValid : IsValid init
unfolding init
init-IsValid = record {
  storage = length-replicate ring_size zero_entry;
  head_word = omega arith;
  tail_word = omega arith;
  occupancy = omega arith;
}

-- A store lands inside the array, and the occupancy grows by one.
pub push-IsValid :
    {r t : Ring} (e : Entry)
    → IsValid r
    → push r e ≡ some t
    → IsValid t × (count t ≡ count r + 1) × (t.tail ≡ r.tail)
unfolding push
push-IsValid {r} e v h = ground (arith, length-set r.entries (r.head % ring_size) e)

pub pop-IsValid :
    {r t : Ring} {e : Entry}
    → IsValid r
    → pop r ≡ some (e, t)
    → IsValid t × (count t + 1 ≡ count r) × (t.head ≡ r.head)
unfolding pop
pop-IsValid {r} v h = ground arith
