-- ===== src/Ring/Refine.antt =====
-- A ring of driver/dmaplane.h against the queue of the entries between its indices.
use Prim.Native.Nat.{ℕ}
use dmaplane_master.Base.{
  none, some, zero, suc, ◌+◌, ◌-◌, ◌%◌, ◌<◌, ◌≡◌, ◌≢◌, refl, ap, ap₂, ◌∙◌, length, get_or, set,
  get_or-set_self, get_or-set_ne, sub32, add32, arith, List, [], ◌∷◌, ◌++◌,
}
use mathlib.Core.Option
use dmaplane_master.Ring.{Ring, Entry, ring_size, zero_entry, count, push, pop}
use dmaplane_master.Ring.Queue
use dmaplane_master.Ring.Invariant.{IsValid}

-- The `n` entries from counter `t` on; counters wrap at 2 ^ 32, indices at `ring_size`.
abbrev pub window : List Entry → ℕ → ℕ → List Entry
window es t zero = []
window es t (suc n) = get_or es (t % ring_size) zero_entry ∷ window es (add32 t 1) n

-- What a ring holds, oldest first.
abbrev pub contents : Ring → List Entry
contents r = window r.entries r.tail (count r)

length-window : (es : List Entry) (t n : ℕ) → length (window es t n) ≡ n
length-window es t zero = refl
length-window es t (suc n) = ap suc (length-window es (add32 t 1) n)

pub length-contents : (r : Ring) → length (contents r) ≡ count r
length-contents r = length-window r.entries r.tail (count r)

-- A store just past a window extends it by that entry.
window-set :
    (es : List Entry) (x : Entry) (n t i : ℕ)
    → length es ≡ ring_size
    → n < ring_size
    → i ≡ (t + n) % ring_size
    → window (set es i x) t (suc n) ≡ window es t n ++ (x ∷ [])
window-set es x zero t i hs hn e =
    ap (λ y. y ∷ [])
      (ap (λ j. get_or (set es j x) (t % ring_size) zero_entry) (omega arith)
        ∙ get_or-set_self es (t % ring_size) x zero_entry (omega arith))
window-set es x (suc n) t i hs hn e =
    ap₂ ◌∷◌ (get_or-set_ne es i (t % ring_size) x zero_entry (omega arith))
      (window-set es x n (add32 t 1) i hs (omega arith) (omega arith))

window_of_pos :
    (es : List Entry) (t n : ℕ)
    → n ≢ 0
    → window es t n ≡ get_or es (t % ring_size) zero_entry ∷ window es (add32 t 1) (n - 1)
window_of_pos es t zero h = absurd (h refl)
window_of_pos es t (suc n) h = ap (λ k. window es t (suc k)) (omega arith)

-- The queue after the store of `push`, and after the load of `pop`.
contents-store :
    (r : Ring) (e : Entry)
    → IsValid r
    → count r ≢ ring_size
    → window (set r.entries (r.head % ring_size) e) r.tail (sub32 (add32 r.head 1) r.tail)
      ≡ contents r ++ (e ∷ [])
contents-store r e v ne =
    ap (window (set r.entries (r.head % ring_size) e) r.tail) grown
    ∙ window-set r.entries e (count r) r.tail (r.head % ring_size) v.storage (omega arith)
        (omega arith)
  where
    grown : sub32 (add32 r.head 1) r.tail ≡ suc (count r)
    grown = omega arith

contents-load :
    (r : Ring)
    → IsValid r
    → r.head ≢ r.tail
    → contents r
      ≡ get_or r.entries (r.tail % ring_size) zero_entry
        ∷ window r.entries (add32 r.tail 1) (sub32 r.head (add32 r.tail 1))
contents-load r v ne =
    window_of_pos r.entries r.tail (count r) (omega arith)
    ∙ ap
        (λ n.
          get_or r.entries (r.tail % ring_size) zero_entry ∷ window r.entries (add32 r.tail 1) n)
        shrunk
  where
    shrunk : count r - 1 ≡ sub32 r.head (add32 r.tail 1)
    shrunk = omega arith

-- A store into a ring appends to the queue that it holds, and is refused exactly where the queue
-- is at its bound.
pub push_refines :
    (r : Ring) (e : Entry)
    → IsValid r
    → Option.map contents (push r e) ≡ Queue.push ring_size (contents r) e
unfolding push Queue.push
push_refines r e v = ground (arith, length-contents r, contents-store r e v)

-- A load takes the queue's oldest entry, and is refused exactly where the queue is empty.
pub pop_refines :
    (r : Ring) → IsValid r → Option.map (λ p. (p.0, contents p.1)) (pop r) ≡ Queue.pop (contents r)
unfolding pop Queue.pop
pop_refines r v = ground (arith, length-contents r, contents-load r v)

-- The same for a client of rings that keeps `push` and `pop` shut.
pub contents-push :
    {r t : Ring} (e : Entry) → IsValid r → push r e ≡ some t → contents t ≡ contents r ++ (e ∷ [])
unfolding push
contents-push {r} e v h = ground (arith, contents-store r e v)

pub contents-pop :
    {r t : Ring} {e : Entry} → IsValid r → pop r ≡ some (e, t) → contents r ≡ e ∷ contents t
unfolding pop
contents-pop {r} v h = ground (arith, contents-load r v)

pub full_of_refusal : (r : Ring) (e : Entry) → push r e ≡ none → count r ≡ ring_size
unfolding push
full_of_refusal r e h = ground arith

pub empty_of_refusal : (r : Ring) → IsValid r → pop r ≡ none → count r ≡ 0
unfolding pop
empty_of_refusal r v h = ground arith

pub push_of_room : (r : Ring) (e : Entry) → count r ≢ ring_size → (t : Ring) × (push r e ≡ some t)
unfolding push
push_of_room r e h = (
  record r { entries = set r.entries (r.head % ring_size) e; head = add32 r.head 1 },
  ground arith,
)

pub pop_of_nonempty : (r : Ring) → count r ≢ 0 → (e : Entry) × (t : Ring) × (pop r ≡ some (e, t))
unfolding pop
pop_of_nonempty r h = (
  get_or r.entries (r.tail % ring_size) zero_entry,
  record r { tail = add32 r.tail 1 },
  ground arith,
)
