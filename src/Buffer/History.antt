-- ===== src/Buffer/History.antt =====
-- Any sequence of CREATE_BUFFER, DESTROY_BUFFER, mmap and munmap, from an empty table.
use dmaplane_master.Base.{
  ap, length-replicate, replicate, get-replicate, total-replicate, ℕ, ◌+◌, ◌≡◌, ◌≢◌, ◌<◌, ◌∙◌, Bool,
  true, refl, List, [], ◌∷◌, ◌++◌, Option, none, some, get_elem?, u32_mod, dec32, arith, length,
}
use dmaplane_master.Buffer.{max_buffers, Buffer, Store, zero_buffer, empty_store}
use mathlib.Core.Bool.{false≢true}
use dmaplane_master.Kernel.{Machine, Resource, Event, gets, puts}
use dmaplane_master.Buffer.Create.{Params, Answers}
use dmaplane_master.Buffer.Destroy.{ioctl_create_buffer, ioctl_destroy_buffer}
use dmaplane_master.Buffer.Conserve.{held, weight}
use dmaplane_master.Buffer.Handles.{WellFormed}
use dmaplane_master.Buffer.Mmap.{MmapAnswers, mmap, vma_close}
use dmaplane_master.Buffer.Kept.{
  Kept, Kept-trans, Kept-refl, Kept-weaken, Kept-suc, destroy-Kept, recount-Kept, mmap-Kept,
  create-Kept,
}

-- `unmap` is the closing of a mapping of the buffer in a slot.
pub data Op : Type 0 where
  create : Answers → Option Params → Bool → Op
  destroy : Option ℕ → Op
  map : MmapAnswers → ℕ → ℕ → Op
  unmap : ℕ → Op

unfoldable pub apply : Machine → Op → Store → Store × List Event
apply m (create a p copied) s = let r = ioctl_create_buffer m a p copied s in (r.1, r.2)
apply m (destroy i) s = let r = ioctl_destroy_buffer i s in (r.1, r.2)
apply m (map a pgoff size) s = ((mmap a s pgoff size).1, [])
apply m (unmap slot) s = (vma_close s slot, [])

unfoldable pub run : Machine → List Op → Store → Store × List Event
run m [] s = (s, [])
run m (o ∷ ops) s = let (s', es) = apply m o s in let (t, fs) = run m ops s' in (t, es ++ fs)

apply-Kept :
    (m : Machine) (o : Op) (s : Store)
    → WellFormed s
    → s.next_buf_id + 1 < u32_mod
    → Kept 1 s (apply m o s)
unfolding apply ioctl_destroy_buffer
apply-Kept m (create a p copied) s w room = create-Kept m a p copied s w room
apply-Kept m (destroy none) s w room = Kept-weaken s _ (Kept-refl s w)
apply-Kept m (destroy (some i)) s w room = Kept-weaken s _ (destroy-Kept s i w)
apply-Kept m (map a pgoff size) s w room = Kept-weaken s _ (mmap-Kept a s pgoff size w)
apply-Kept m (unmap slot) s w room = Kept-weaken s _ (recount-Kept s slot dec32 w)

run-Kept :
    (m : Machine) (ops : List Op) (s : Store)
    → WellFormed s
    → s.next_buf_id + length ops < u32_mod
    → Kept (length ops) s (run m ops s)
unfolding run
run-Kept m [] s w room = Kept-refl s w
run-Kept m (o ∷ ops) s w room =
    let k = apply-Kept m o s w (omega arith) in
    Kept-suc s _ (length ops) (
      Kept-trans 1 (length ops) s (apply m o s) _ k
        (run-Kept m ops (apply m o s).0 k.well_formed (omega (arith, k.counter))))

pub empty-WellFormed : WellFormed empty_store
unfolding empty_store
empty-WellFormed = record {
  slots = length-replicate max_buffers zero_buffer;
  next_pos = omega arith;
  next_word = omega arith;
  live = λ i b g u. absurd (unused i b g u);
  unique = λ i j a b g h u v e. absurd (unused i a g u);
}
  where
    unused :
        (i : ℕ) (b : Buffer)
        → get_elem? (replicate max_buffers zero_buffer) i ≡ some b
        → b.in_use ≢ true
    unused i b g u =
        false≢true (ap (λ c. c.in_use) (get-replicate max_buffers i zero_buffer b g) ∙ u)

empty-held : (x : Resource) → held x empty_store ≡ 0
unfolding empty_store
empty-held x = total-replicate (weight x) max_buffers zero_buffer refl

empty-room : (n : ℕ) → n + 1 < u32_mod → empty_store.next_buf_id + n < u32_mod
unfolding empty_store
empty-room n h = omega arith

-- After any sequence of calls of CREATE_BUFFER, DESTROY_BUFFER, mmap and munmap on an empty table,
-- failures of any kind included, as long as they are fewer than the handles: handles are unique,
-- and of every page, heap object, coherent allocation and mapping, what was obtained from the kernel
-- is as much as has been given back and buffers in use own together.
pub run_conserves :
    (m : Machine) (ops : List Op) (x : Resource)
    → length ops + 1 < u32_mod
    → let (s, es) = run m ops empty_store in WellFormed s × (gets x es ≡ puts x es + held x s)
run_conserves m ops x few =
    let k = run-Kept m ops empty_store empty-WellFormed (empty-room (length ops) few) in
    (k.well_formed, omega (arith, k.balanced x, empty-held x))
