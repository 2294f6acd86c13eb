-- ===== src/Module/Freeing.antt =====
-- The loop over the buffers in `dmaplane_exit`, driver/main.c.
use dmaplane_master.Kernel.Balance.{gets-append, puts-append}
use dmaplane_master.Buffer.{is_live, Buffer, Store, zero_buffer, max_buffers, find_buffer}
use dmaplane_master.Kernel.{Resource, gets, puts}
use dmaplane_master.Module.{System, free_slot, free_buffers}
use dmaplane_master.Base.{
  get_or_of_none, find_index_of_first, ℕ, zero, suc, ◌+◌, ◌<◌, ◌≡◌, refl, ◌∙◌, sym, ap, subst, inl,
  inr, Bool, true, false, Bool-cases, Option-cases, ◌||◌, ◌==◌, ==_iff, ◌++◌, some, if◌then◌else◌,
  get_elem?, get_or, get_or_of_get, total-zero, arith, get_elem?-set_cases, lt-length_of_get,
}
use mathlib.Core.Bool.{false≢true}
use dmaplane_master.Buffer.Destroy.{destroy_buffer, is_positive}
use dmaplane_master.Buffer.Conserve.{held, weight}
use dmaplane_master.Buffer.Handles.{WellFormed}
use dmaplane_master.Buffer.Kept.{destroy-Kept}
use dmaplane_master.Buffer.Lifetime.{destroy_found, removed}

-- No buffer is mapped or exported.
abbrev pub Unshared : Store → Type 0
Unshared s =
    (i : ℕ) (b : Buffer)
    → get_elem? s.buffers i ≡ some b
    → b.in_use ≡ true
    → (is_positive b.mmap_count || b.dmabuf_exported) ≡ false

abbrev pub FreeBelow : ℕ → Store → Type 0
FreeBelow j s = (i : ℕ) (b : Buffer) → i < j → get_elem? s.buffers i ≡ some b → b.in_use ≡ false

-- What the loop over the buffers keeps
pub record Freeing (x : Resource) (j : ℕ) (s : System) : Type 0 where
  pub well_formed : WellFormed s.store
  pub balance : gets x s.buffer_events ≡ puts x s.buffer_events + held x s.store
  pub unshared : Unshared s.store
  pub below : FreeBelow j s.store

-- The state after the buffer in a slot has been destroyed
abbrev after_free : System → (slot : ℕ) → System
after_free s slot =
    let r = destroy_buffer s.store (get_or s.store.buffers slot zero_buffer).id in
    record s { store = r.1; buffer_events = s.buffer_events ++ r.2 }

FreeBelow-suc :
    (j : ℕ) (s : Store)
    → FreeBelow j s
    → ((b : Buffer) → get_elem? s.buffers j ≡ some b → b.in_use ≡ false)
    → FreeBelow (suc j) s
FreeBelow-suc j s k h i b l g = elim (Bool-cases (i == j)) [
  | inl q ↦ h b (subst (λ n. get_elem? s.buffers n ≡ some b) ((==_iff i j).0 q) g)
  | inr q ↦ k i b (below q) g
]
  where
    below : (i == j) ≡ false → i < j
    below q = ground (arith, l)

module _ (x : Resource) (j : ℕ) (s : System) (f : Freeing x j s) where
  module _ (b : Buffer) (at : get_elem? s.store.buffers j ≡ some b) (u : b.in_use ≡ true) where
    found : find_buffer s.store b.id ≡ some j
    found =
        find_index_of_first (is_live b.id) s.store.buffers j b at
          (simp (u, (==_iff b.id b.id).1 refl)) (λ i c l g. simp (f.below i c l g))

    gone : (destroy_buffer s.store b.id).1 ≡ removed s.store b.id j b found at
    gone = ap (λ r. r.1) (destroy_found s.store b.id j b found at) ∙ rw (f.unshared j b at u) refl

    removed-Unshared : Unshared (removed s.store b.id j b found at)
    removed-Unshared i c g v =
        elim (get_elem?-set_cases s.store.buffers j i (record b { in_use = false }) c g) [
          | inl (e, h) ↦ absurd (false≢true (ap (λ z. z.in_use) h ∙ v))
          | inr (n, h) ↦ f.unshared i c h v
        ]

    removed-FreeBelow : FreeBelow (suc j) (removed s.store b.id j b found at)
    removed-FreeBelow i c l g =
        elim (get_elem?-set_cases s.store.buffers j i (record b { in_use = false }) c g) [
          | inl (e, h) ↦ sym (ap (λ z. z.in_use) h)
          | inr (n, h) ↦ f.below i c (omega (arith, l, n)) h
        ]

    freed-Freeing : Freeing x (suc j) (record s {
      store = (destroy_buffer s.store b.id).1;
      buffer_events = s.buffer_events ++ (destroy_buffer s.store b.id).2;
    })
    freed-Freeing =
        let k = destroy-Kept s.store b.id f.well_formed in
        let t = (destroy_buffer s.store b.id).1 in
        record {
          well_formed = k.well_formed;
          balance = omega (
            arith,
            k.balanced x,
            f.balance,
            gets-append x s.buffer_events (destroy_buffer s.store b.id).2,
            puts-append x s.buffer_events (destroy_buffer s.store b.id).2,
          );
          unshared = subst Unshared (sym gone) removed-Unshared;
          below = subst (FreeBelow (suc j)) (sym gone) removed-FreeBelow;
        }

  skipped-Freeing :
      ((b : Buffer) → get_elem? s.store.buffers j ≡ some b → b.in_use ≡ false) → Freeing x (suc j) s
  skipped-Freeing h = record {
    well_formed = f.well_formed;
    balance = f.balance;
    unshared = f.unshared;
    below = FreeBelow-suc j s.store f.below h;
  }

-- A slot, by what stands in it
free_slot_in_use :
    (slot : ℕ) (s : System) (b : Buffer)
    → get_elem? s.store.buffers slot ≡ some b
    → b.in_use ≡ true
    → free_slot slot s ≡ record s {
      store = (destroy_buffer s.store b.id).1;
      buffer_events = s.buffer_events ++ (destroy_buffer s.store b.id).2;
    }
unfolding free_slot
free_slot_in_use slot s b at u =
    rw (get_or_of_get s.store.buffers slot b zero_buffer at) (if_true _ _ b.in_use u)
  where
    if_true : (y z : System) (c : Bool) → c ≡ true → (if c then y else z) ≡ y
    if_true y z c h = rw h refl

free_slot-rest :
    (slot : ℕ) (s : System)
    → let t = free_slot slot s in (t.engine ≡ s.engine) × (t.regions ≡ s.regions) × (t.log ≡ s.log)
unfolding free_slot
free_slot-rest slot s = elim (Bool-cases (get_or s.store.buffers slot zero_buffer).in_use) [
  | inl u ↦ simp u (refl, refl, refl)
  | inr u ↦ simp u (refl, refl, refl)
]

free_slot_free :
    (slot : ℕ) (s : System)
    → (get_or s.store.buffers slot zero_buffer).in_use ≡ false
    → free_slot slot s ≡ s
unfolding free_slot
free_slot_free slot s h = simp h

module _ (x : Resource) where
  free_slot-Freeing : (j : ℕ) (s : System) → Freeing x j s → Freeing x (suc j) (free_slot j s)
  free_slot-Freeing j s f = elim (Option-cases (get_elem? s.store.buffers j)) [
    | inl n ↦
        subst (Freeing x (suc j))
          (sym (
            free_slot_free j s
              (ap (λ b. b.in_use) (get_or_of_none s.store.buffers j zero_buffer n))))
          (skipped-Freeing x j s f (λ b g. cc))
    | inr (b, g) ↦ elim (Bool-cases b.in_use) [
      | inl u ↦
          subst (Freeing x (suc j)) (sym (free_slot_in_use j s b g u)) (freed-Freeing x j s f b g u)
      | inr u ↦
          subst (Freeing x (suc j))
            (sym (
              free_slot_free j s
                (ap (λ c. c.in_use) (get_or_of_get s.store.buffers j b zero_buffer g) ∙ u)))
            (skipped-Freeing x j s f (λ c h. let e : b ≡ c = cc in sym (ap (λ z. z.in_use) e) ∙ u))
    ]
  ]

  free_buffers-Freeing :
      (n j : ℕ) (s : System) → Freeing x j s → Freeing x (n + j) (free_buffers n j s)
  unfolding free_buffers
  free_buffers-Freeing zero j s f = subst (λ k. Freeing x k s) (omega arith) f
  free_buffers-Freeing (suc n) j s f =
      subst (λ k. Freeing x k (free_buffers n (suc j) (free_slot j s))) (omega arith)
        (free_buffers-Freeing n (suc j) (free_slot j s) (free_slot-Freeing j s f))

  -- After the loop nothing is left.
  pub all_freed :
      (s : System)
      → Freeing x 0 s
      → let t = free_buffers max_buffers 0 s in gets x t.buffer_events ≡ puts x t.buffer_events
  all_freed s f =
      let t = free_buffers max_buffers 0 s in
      let g = free_buffers-Freeing max_buffers 0 s f in
      let none_left = total-zero (weight x) t.store.buffers (λ i b h. simp (
        g.below i b (omega (arith, lt-length_of_get t.store.buffers i h, g.well_formed.slots))
          h)) in
      omega (arith, g.balance, none_left)

  pub free_buffers-rest :
      (n j : ℕ) (s : System)
      → let t = free_buffers n j s in
        (t.engine ≡ s.engine) × (t.regions ≡ s.regions) × (t.log ≡ s.log)
  unfolding free_buffers
  free_buffers-rest zero j s = (refl, refl, refl)
  free_buffers-rest (suc n) j s =
      let (a, b, c) = free_slot-rest j s in
      let (a', b', c') = free_buffers-rest n (suc j) (free_slot j s) in (a' ∙ a, b' ∙ b, c' ∙ c)
