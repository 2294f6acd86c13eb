-- ===== src/Buffer/Lifetime.antt =====
-- `dmabuf_rdma_destroy_buffer`, driver/dmabuf_rdma.c, on each branch.
use dmaplane_master.Kernel.Balance.{puts-put, gets-put, gets-append, puts-append, count-append}
use dmaplane_master.Buffer.Handles.{get-set_cases}
use mathlib.Core.Bool.{false≢true}
use dmaplane_master.Base.{
  map, ◌∷◌, take-length, if-if, ◌++◌, add64, ℕ, ◌≡◌, ◌≢◌, ◌<◌, ◌⊎◌, inl, inr, ◌∙◌, sym, true, false,
  ◌||◌, refl, List, [], Option, none, some, if◌then◌else◌, length, get_elem?, get_or_of_get, arith,
  Bool-cases, Option-cases, ok, err, ebusy, enoent, find_index-some, find_index_of_none,
  find_index-set_same, ==_iff, ==-ne, lt-length_of_get,
}
use dmaplane_master.Kernel.{put, Event, Resource, gets, puts, count}
use dmaplane_master.Buffer.{
  page, heap, type_coherent, type_pages, Buffer, Store, find_buffer, is_live, zero_buffer,
}
use dmaplane_master.Buffer.Create.{put_pages, put_slot}
use dmaplane_master.Buffer.Destroy.{
  coherent_events, pages_events, unmap_events, destroy_buffer, free_memory, is_positive,
}
use dmaplane_master.Buffer.Conserve.{own_coherent, own_mapping, own_pages, holdings}
use dmaplane_master.Buffer.Outcomes.{PagesCounted}
use dmaplane_master.Buffer.Handles.{WellFormed, write-WellFormed}

-- What an operation gives back is what was owned.
abbrev GivesBack : Resource → List Event → List Resource → Type 0
GivesBack x es ys = (gets x es ≡ 0) × (puts x es ≡ count x ys)

module _ (x : Resource) where
  unmap-GivesBack : (v : Option ℕ) → GivesBack x (unmap_events v) (own_mapping v)
  unfolding gets puts count
  unmap-GivesBack none = (refl, refl)
  unmap-GivesBack (some v) = (refl, refl)

  coherent-GivesBack : (v : Option ℕ) → GivesBack x (coherent_events v) (own_coherent v)
  unfolding gets puts count
  coherent-GivesBack none = (refl, refl)
  coherent-GivesBack (some v) = (refl, refl)

  pages-GivesBack :
      (n : ℕ) (q : Option (ℕ × List ℕ))
      → ((t : ℕ) (ps : List ℕ) → q ≡ some (t, ps) → length ps ≡ n)
      → GivesBack x (pages_events n q) (own_pages q)
  unfolding gets puts count
  pages-GivesBack n none c = (refl, refl)
  pages-GivesBack n (some (t, ps)) c =
      rw (← c t ps refl, take-length ps)
        (
          omega (arith, gets-append x (put_pages ps) (put (heap t) ∷ []), gets-put x (map page ps)),
          omega (arith, puts-append x (put_pages ps) (put (heap t) ∷ []), puts-put x (map page ps)),
        )

  append-GivesBack :
      (es fs : List Event) (ys zs : List Resource)
      → GivesBack x es ys
      → GivesBack x fs zs
      → GivesBack x (es ++ fs) (ys ++ zs)
  append-GivesBack es fs ys zs a b =
      (omega (arith, gets-append x es fs), omega (arith, puts-append x es fs, count-append x ys zs))

  -- The release of a buffer's memory gives back what the buffer owns.
  pub free_memory-GivesBack :
      (b : Buffer)
      → PagesCounted b
      → (b.alloc_type ≡ type_pages) ⊎ (b.alloc_type ≡ type_coherent)
      → (gets x (free_memory b) ≡ 0) × (puts x (free_memory b) ≡ count x (holdings b))
  unfolding free_memory holdings
  free_memory-GivesBack b c (inl ty) = rw ty (
      append-GivesBack (unmap_events b.vaddr) (pages_events b.nr_pages b.pages) _ _
        (unmap-GivesBack b.vaddr) (pages-GivesBack b.nr_pages b.pages c))
  free_memory-GivesBack b c (inr ty) = rw ty (coherent-GivesBack b.vaddr)

-- A lookup that succeeds gives a buffer in use that carries the handle.
pub find_buffer-some :
    (s : Store) (i slot : ℕ)
    → find_buffer s i ≡ some slot
    → (b : Buffer) × (get_elem? s.buffers slot ≡ some b) × (b.in_use ≡ true) × (b.id ≡ i)
find_buffer-some s i slot h =
    let (b, at, live) = find_index-some (is_live i) s.buffers slot h in
    (b, at, ground arith, (==_iff b.id i).0 (ground arith))

pub used_of_find :
    (s : Store) (i slot : ℕ) (b : Buffer)
    → find_buffer s i ≡ some slot
    → get_elem? s.buffers slot ≡ some b
    → b.in_use ≡ true
used_of_find s i slot b h at = let (c, at', used, _) = find_buffer-some s i slot h in cc

-- DESTROY_BUFFER of a buffer that is not in use, and of one that is mapped or exported
pub destroy_unknown :
    (s : Store) (i : ℕ) → find_buffer s i ≡ none → destroy_buffer s i ≡ (err enoent, s, [])
unfolding destroy_buffer
destroy_unknown s i h = rw (h, destroy_buffer)

module _ (s : Store) (i slot : ℕ) (b : Buffer) (found : find_buffer s i ≡ some slot)
    (at : get_elem? s.buffers slot ≡ some b) where
  pub destroy_found : destroy_buffer s i ≡ (
      if is_positive b.mmap_count || b.dmabuf_exported then (err ebusy, s, []) else (
        ok,
        put_slot (record s { destroyed = add64 s.destroyed 1 }) slot (record b { in_use = false }),
        free_memory b,
      ))
  unfolding destroy_buffer
  destroy_found =
      rw (found, destroy_buffer, get_or_of_get s.buffers slot b zero_buffer at)
        (if-if (is_positive b.mmap_count) b.dmabuf_exported _ _)

  abbrev pub removed : Store
  removed =
      put_slot (record s { destroyed = add64 s.destroyed 1 }) slot (record b { in_use = false })

  abbrev inside : slot < length s.buffers
  inside = lt-length_of_get s.buffers slot at

  module _ (w : WellFormed s) (used : b.in_use ≡ true) (named : b.id ≡ i) where
    pub removed-WellFormed : WellFormed removed
    removed-WellFormed =
        write-WellFormed s removed slot (record b { in_use = false }) w inside refl (omega arith)
          w.next_word (λ u. absurd (false≢true u)) (λ u. absurd (false≢true u))

    -- No other buffer carries the handle.
    removed_dead : (j : ℕ) (c : Buffer) → get_elem? removed.buffers j ≡ some c → is_live i c ≡ false
    removed_dead j c g =
        elim (get-set_cases s.buffers slot j (record b { in_use = false }) c inside g) [
          | inl (_, e) ↦ rw (← e) refl
          | inr (ne, q) ↦ elim (Bool-cases (is_live i c)) [
            | inr f ↦ f
            | inl l ↦ absurd (
                ne (
                  w.unique slot j b c at q used (ground arith)
                    (named ∙ sym ((==_iff c.id i).0 (ground arith)))))
          ]
        ]

    removed_others : (j : ℕ) → j ≢ i → find_buffer removed j ≡ find_buffer s j
    removed_others j ne =
        find_index-set_same (is_live j) s.buffers slot b (record b { in_use = false }) at
          (rw (used, named, ==-ne i j (λ e. ne (sym e))))

-- What a call of DESTROY_BUFFER that succeeds on the buffer `b` has done.
pub record Destroyed (s : Store) (i : ℕ) (b : Buffer) (s' : Store) (es : List Event) : Type 0 where
  pub unmapped : is_positive b.mmap_count ≡ false
  pub unexported : b.dmabuf_exported ≡ false
  pub gone : find_buffer s' i ≡ none
  pub others : (j : ℕ) → j ≢ i → find_buffer s' j ≡ find_buffer s j
  pub freed : (x : Resource) → (gets x es ≡ 0) × (puts x es ≡ count x (holdings b))
  pub well_formed : WellFormed s'

-- DESTROY_BUFFER on a well-formed table returns -ENOENT for a handle that names no buffer, and
-- -EBUSY for a buffer that is mapped or exported, and then changes nothing and frees nothing. Else
-- it succeeds, the handle names nothing any more, every other handle names what it did, and exactly
-- what the buffer owned is given back to the kernel.
pub destroy_buffer_lem :
    (s : Store) (i : ℕ)
    → WellFormed s
    → ((find_buffer s i ≡ none) × (destroy_buffer s i ≡ (err enoent, s, [])))
      ⊎ ((slot : ℕ) × (b : Buffer) × (find_buffer s i ≡ some slot)
          × (get_elem? s.buffers slot ≡ some b)
          × (((is_positive b.mmap_count || b.dmabuf_exported ≡ true)
                × (destroy_buffer s i ≡ (err ebusy, s, [])))
              ⊎ ((s' : Store) × (es : List Event) × (destroy_buffer s i ≡ (ok, s', es))
                  × Destroyed s i b s' es)))
destroy_buffer_lem s i w = elim (Option-cases (find_buffer s i)) [
  | inl e ↦ inl (e, destroy_unknown s i e)
  | inr (slot, f) ↦
      let (b, at, used, named) = find_buffer-some s i slot f in
      inr (
        slot,
        b,
        f,
        at,
        elim (Bool-cases (is_positive b.mmap_count || b.dmabuf_exported)) [
          | inl busy ↦ inl (busy, destroy_found s i slot b f at ∙ rw busy refl)
          | inr idle ↦ inr (
            removed s i slot b f at,
            free_memory b,
            destroy_found s i slot b f at ∙ rw idle refl,
            record {
              unmapped = ground arith;
              unexported = ground arith;
              gone =
                  find_index_of_none (is_live i) (removed s i slot b f at).buffers
                    (removed_dead s i slot b f at w used named);
              others = removed_others s i slot b f at w used named;
              freed = λ x.
                  free_memory-GivesBack x b (w.live slot b at used).counted
                    (w.live slot b at used).typed;
              well_formed = removed-WellFormed s i slot b f at w used named;
            },
          )
        ],
      )
]
