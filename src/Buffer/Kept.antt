-- ===== src/Buffer/Kept.antt =====
-- Each call on the buffer table of driver/dmabuf_rdma.c, against the invariant and the memory
-- account.
use dmaplane_master.Base.{
  add64, Errno, ap, ltb, ◌%◌, ◌==◌, ℕ, zero, suc, ◌+◌, ◌≡◌, ◌≤◌, ◌<◌, Bool, true, false, ◌||◌, refl,
  List, [], ◌∷◌, ◌++◌, Option, none, some, get_or, get_elem?, set, u32_mod, ℤ, inc32, Status, ok,
  err, arith, get_or_of_get, Bool-cases, Option-cases, inl, inr, lt-length_of_get,
}
use dmaplane_master.Buffer.Handles.{
  IsLive, next_id_lem, WellFormed, write-WellFormed, create-WellFormed,
}
use dmaplane_master.Buffer.{type_coherent, type_pages, Buffer, Store, zero_buffer, find_buffer}
use dmaplane_master.Buffer.Destroy.{
  create_end, destroy_buffer, is_positive, ioctl_create_buffer, free_memory,
}
use dmaplane_master.Buffer.Create.{Outcome, Params, Answers, create_buffer, put_slot}
use dmaplane_master.Buffer.Outcomes.{create_buffer_cases}
use dmaplane_master.Buffer.Mmap.{mmap_slot, MmapAnswers, mmap, mmap_end}
use dmaplane_master.Kernel.{Machine, Resource, Event, gets, puts}
use dmaplane_master.Kernel.Balance.{gets-append, puts-append}
use dmaplane_master.Buffer.Conserve.{Balanced, holdings, held-put_slot, create_buffer-Balanced}
use dmaplane_master.Buffer.Lifetime.{
  find_buffer-some, destroy_found, destroy_unknown, removed-WellFormed, free_memory-GivesBack,
}

-- What calls keep that use at most `n` handles: the table's invariant, and the balance of memory.
pub record Kept (n : ℕ) (s : Store) (r : Store × List Event) : Type 0 where
  pub counter : r.0.next_buf_id ≤ s.next_buf_id + n
  pub well_formed : WellFormed r.0
  pub balanced : (x : Resource) → Balanced x s r.0 r.1

pub Kept-trans :
    (n k : ℕ) (s : Store) (r q : Store × List Event)
    → Kept n s r
    → Kept k r.0 q
    → Kept (n + k) s (q.0, r.1 ++ q.1)
Kept-trans n k s r q a b = record {
  counter = omega (arith, a.counter, b.counter);
  well_formed = b.well_formed;
  balanced =
      λ x. omega (arith, a.balanced x, b.balanced x, gets-append x r.1 q.1, puts-append x r.1 q.1);
}

pub Kept-refl : (s : Store) → WellFormed s → Kept 0 s (s, [])
unfolding gets puts
Kept-refl s w = record { counter = omega arith; well_formed = w; balanced = λ x. refl }

removed-Balanced :
    (s : Store) (slot : ℕ) (b : Buffer)
    → get_elem? s.buffers slot ≡ some b
    → b.in_use ≡ true
    → IsLive s b
    → (x : Resource)
    → Balanced x s
        (put_slot (record s { destroyed = add64 s.destroyed 1 }) slot (record b { in_use = false }))
        (free_memory b)
removed-Balanced s slot b at used l x = ground (
  arith,
  free_memory-GivesBack x b l.counted l.typed,
  held-put_slot x s slot b (record b { in_use = false }) at,
)

pub Kept-weaken : (s : Store) (r : Store × List Event) → Kept 0 s r → Kept 1 s r
Kept-weaken s r k = record {
  counter = omega (arith, k.counter);
  well_formed = k.well_formed;
  balanced = k.balanced;
}

pub Kept-suc : (s : Store) (r : Store × List Event) (n : ℕ) → Kept (1 + n) s r → Kept (suc n) s r
Kept-suc s r n k = record {
  counter = omega (arith, k.counter);
  well_formed = k.well_formed;
  balanced = k.balanced;
}

pub destroy-Kept :
    (s : Store) (i : ℕ) → WellFormed s → Kept 0 s ((destroy_buffer s i).1, (destroy_buffer s i).2)
destroy-Kept s i w = elim (Option-cases (find_buffer s i)) [
  | inl e ↦ rw (destroy_unknown s i e) (Kept-refl s w)
  | inr (slot, f) ↦
      let (b, at, used, named) = find_buffer-some s i slot f in
      elim (Bool-cases (is_positive b.mmap_count || b.dmabuf_exported)) [
        | inl busy ↦ rw (destroy_found s i slot b f at, busy) (Kept-refl s w)
        | inr idle ↦
            rw (destroy_found s i slot b f at, idle)
              (record {
                counter = omega arith;
                well_formed = removed-WellFormed s i slot b f at w used named;
                balanced = λ x. removed-Balanced s slot b at used (w.live slot b at used) x;
              })
      ]
]

-- A change of a buffer's number of mappings
module _ (s : Store) (slot : ℕ) (b : Buffer) (at : get_elem? s.buffers slot ≡ some b)
    (w : WellFormed s) (z : ℤ) where
  abbrev counted : Buffer
  counted = record b { mmap_count = z }

  counted-Kept : Kept 0 s (put_slot s slot counted, [])
  unfolding holdings gets puts
  counted-Kept = record {
    counter = omega arith;
    well_formed =
        write-WellFormed s (put_slot s slot counted) slot counted w
          (lt-length_of_get s.buffers slot at) refl (omega arith) w.next_word
          (λ u.
            let l = w.live slot b at u in
            record { named = l.named; below = l.below; counted = l.counted; typed = l.typed })
          (λ u j c g v same. w.unique j slot c b g at v u same);
    balanced = λ x. ground (arith, held-put_slot x s slot b counted at);
  }

set_out_of_range : (xs : List Buffer) (i : ℕ) (v : Buffer) → get_elem? xs i ≡ none → set xs i v ≡ xs
set_out_of_range [] i v h = refl
set_out_of_range (x ∷ xs) zero v h = cc
set_out_of_range (x ∷ xs) (suc i) v h = ap (λ ys. x ∷ ys) (set_out_of_range xs i v h)

pub recount-Kept :
    (s : Store) (slot : ℕ) (f : ℤ → ℤ)
    → WellFormed s
    → let b = get_or s.buffers slot zero_buffer in
      Kept 0 s (put_slot s slot (record b { mmap_count = f b.mmap_count }), [])
recount-Kept s slot f w = elim (Option-cases (get_elem? s.buffers slot)) [
  | inl out ↦ rw (set_out_of_range s.buffers slot _ out) (Kept-refl s w)
  | inr (b, at) ↦
      rw (get_or_of_get s.buffers slot b zero_buffer at)
        (counted-Kept s slot b at w (f b.mmap_count))
]

mmap_end-Kept :
    (s : Store) (slot : ℕ) (r : Option Errno × List ℕ)
    → WellFormed s
    → Kept 0 s ((mmap_end s slot r).1, [])
mmap_end-Kept s slot (some e, ps) w = Kept-refl s w
mmap_end-Kept s slot (none, ps) w = recount-Kept s slot inc32 w

mmap_slot-Kept :
    (a : MmapAnswers) (s : Store) (slot size : ℕ)
    → WellFormed s
    → Kept 0 s ((mmap_slot a s slot size).1, [])
unfolding mmap_slot
mmap_slot-Kept a s slot size w = elim (Bool-cases (ltb b.size size)) [
  | inl big ↦ rw (big, mmap_slot) (Kept-refl s w)
  | inr fits ↦ elim (Bool-cases (b.alloc_type == type_coherent)) [
    | inl c ↦ rw (fits, c, mmap_slot) (mmap_end-Kept s slot (a.dma_mmap, []) w)
    | inr n ↦ elim (Bool-cases (b.alloc_type == type_pages)) [
      | inl p ↦ rw (fits, n, p, mmap_slot) (mmap_end-Kept s slot _ w)
      | inr o ↦ rw (fits, n, o, mmap_slot) (Kept-refl s w)
    ]
  ]
]
  where
    b : Buffer
    b = get_or s.buffers slot zero_buffer

pub mmap-Kept :
    (a : MmapAnswers) (s : Store) (pgoff size : ℕ)
    → WellFormed s
    → Kept 0 s ((mmap a s pgoff size).1, [])
unfolding mmap
mmap-Kept a s pgoff size w = elim (Option-cases (find_buffer s (pgoff % u32_mod))) [
  | inl e ↦ rw (e, mmap) (Kept-refl s w)
  | inr (slot, f) ↦ rw (f, mmap) (mmap_slot-Kept a s slot size w)
]

create_buffer-counter :
    (m : Machine) (a : Answers) (p : Params) (s : Store)
    → s.next_buf_id + 1 < u32_mod
    → (create_buffer m a p s).store.next_buf_id ≤ s.next_buf_id + 1
create_buffer-counter m a p s room = elim (create_buffer_cases m a p s) [
  | inl (_, e) ↦ rw e (omega arith)
  | inr (inl (_, _, e)) ↦ rw e (omega arith)
  | inr (inr (_, (slot, f, (b, d)))) ↦ omega (arith, d.bumped, next_id_lem s.next_buf_id room)
]

create_end-Kept :
    (st : Status) (copied : Bool) (o : Outcome) (s : Store)
    → Kept 1 s (o.store, o.events)
    → let r = create_end st copied o in Kept 1 s (r.1, r.2)
unfolding create_end
create_end-Kept (err e) copied o s k = k
create_end-Kept ok true o s k = k
create_end-Kept ok false o s k =
    Kept-trans 1 0 s (o.store, o.events) _ k (destroy-Kept o.store o.params.buf_id k.well_formed)

pub create-Kept :
    (m : Machine) (a : Answers) (p : Option Params) (copied : Bool) (s : Store)
    → WellFormed s
    → s.next_buf_id + 1 < u32_mod
    → let r = ioctl_create_buffer m a p copied s in Kept 1 s (r.1, r.2)
unfolding ioctl_create_buffer
create-Kept m a none copied s w room = Kept-weaken s _ (Kept-refl s w)
create-Kept m a (some p) copied s w room =
    let o = create_buffer m a p s in
    create_end-Kept o.status copied o s (record {
      counter = create_buffer-counter m a p s room;
      well_formed = create-WellFormed m a p s w room;
      balanced = create_buffer-Balanced m a p s;
    })
