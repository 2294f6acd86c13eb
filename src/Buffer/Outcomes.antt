-- ===== src/Buffer/Outcomes.antt =====
-- The outcomes of one call of `dmabuf_rdma_create_buffer`, driver/dmabuf_rdma.c.
use mathlib.Core.Bool.{false≢true}
use dmaplane_master.Base.{
  ℕ, zero, suc, ◌+◌, ◌≡◌, ◌⊎◌, inl, inr, ◌∙◌, Bool, true, false, refl, List, [], ◌∷◌, Option, none,
  some, ◌==◌, length, set, arith, length-append, Bool-cases, Option-cases, ok, err, enomem, einval,
  ℤ, pos,
}
use dmaplane_master.Kernel.{Machine, Event}
use dmaplane_master.Buffer.{Buffer, Store, type_coherent, find_slot}
use dmaplane_master.Buffer.Create.{
  Params, Answers, Outcome, Loop, alloc_loop, add_page, no_pages, pages_needed, create_buffer,
  create_in, create_pages, create_coherent, place_pages, map_pages, params_valid, out_of_memory,
  finish, refuse, next_id, fresh_buffer, mapped_buffer, coherent_buffer, placed_buffer,
}

-- The page array has as many pages as the buffer says.
abbrev pub PagesCounted : Buffer → Type 0
PagesCounted b = (t : ℕ) (ps : List ℕ) → b.pages ≡ some (t, ps) → length ps ≡ b.nr_pages

-- The buffer of a successful call
pub record Fresh (p : Params) (b : Buffer) : Type 0 where
  pub used : b.in_use ≡ true
  pub sized : b.size ≡ p.size
  pub typed : b.alloc_type ≡ p.alloc_type
  pub unmapped : b.mmap_count ≡ pos 0
  pub unexported : b.dmabuf_exported ≡ false

pub record Made (s : Store) (p : Params) (o : Outcome) (slot : ℕ) (b : Buffer) : Type 0 where
  pub written : o.store.buffers ≡ set s.buffers slot b
  pub bumped : o.store.next_buf_id ≡ next_id s.next_buf_id
  pub named : b.id ≡ s.next_buf_id
  pub counted : PagesCounted b
  pub answered :
      ((o.status ≡ ok) × (o.params.buf_id ≡ b.id) × Fresh p b)
      ⊎ ((o.status ≡ err enomem) × (b.in_use ≡ false))

length-add_page :
    (m : Machine) (target : ℤ) (p : ℕ) (l : Loop)
    → length (add_page m target p l).pages ≡ length l.pages + 1
unfolding add_page
length-add_page m target p l = length-append l.pages (p ∷ [])

-- The loop over the pages: where it runs to its end every round has added a page.
pub alloc_loop-length :
    (m : Machine) (target : ℤ) (page_at : ℕ → Option ℕ) (n i : ℕ) (l : Loop)
    → (alloc_loop m target page_at n i l).complete ≡ true
    → length (alloc_loop m target page_at n i l).pages ≡ length l.pages + n
unfolding alloc_loop
alloc_loop-length m target page_at zero i l h = omega arith
alloc_loop-length m target page_at (suc n) i l h = elim (Option-cases (page_at i)) [
  | inl stop ↦ absurd (false≢true (rw (stop, alloc_loop) at h))
  | inr (p, e) ↦
      rw (e, alloc_loop)
        (alloc_loop-length m target page_at n (i + 1) (add_page m target p l)
            (rw (e, alloc_loop) at h)
          ∙ omega (arith, length-add_page m target p l))
]

-- The two ends of a call, at a table `t` that has the buffers and the counter of `s`
module _ (p : Params) (s t : Store) (slot : ℕ) (same_buffers : t.buffers ≡ s.buffers)
    (bumped : t.next_buf_id ≡ next_id s.next_buf_id) (b : Buffer) (es : List Event)
    (named : b.id ≡ s.next_buf_id) (counted : PagesCounted b) where
  out_of_memory-Made : b.in_use ≡ false → Made s p (out_of_memory p t slot b es) slot b
  out_of_memory-Made u = record {
    written = rw same_buffers;
    bumped = bumped;
    named = named;
    counted = counted;
    answered = inr (refl, u);
  }

  finish-Made :
      b.size ≡ p.size
      → b.alloc_type ≡ p.alloc_type
      → b.dmabuf_exported ≡ false
      → Made s p (finish p t slot b es) slot (record b { in_use = true; mmap_count = pos 0 })
  finish-Made sz ty ex = record {
    written = rw same_buffers;
    bumped = bumped;
    named = named;
    counted = counted;
    answered = inl (
      refl,
      refl,
      record { used = refl; sized = sz; typed = ty; unmapped = refl; unexported = ex },
    );
  }

-- Every end of the two paths, for the fresh buffer of a valid call
module _ (m : Machine) (a : Answers) (p : Params) (s : Store) (slot : ℕ) where
  abbrev b : Buffer
  b = fresh_buffer s.next_buf_id p

  abbrev s' : Store
  s' = record s { next_buf_id = next_id s.next_buf_id }

  abbrev MadeBy : Outcome → Type 0
  MadeBy o = (x : Buffer) × Made s p o slot x

  no_array : (c : Buffer) → c.pages ≡ none → PagesCounted c
  no_array c h t ps e = cc

  array_counted :
      (t t' : ℕ) (ps qs : List ℕ)
      → length ps ≡ pages_needed p.size
      → ◌≡◌ {A = Option (ℕ × List ℕ)} (some (t, ps)) (some (t', qs))
      → length qs ≡ pages_needed p.size
  array_counted t t' ps qs n e = ground arith

  place_pages-Made :
      (t : ℕ) (c : Bool) (l : Loop)
      → (c ≡ true → length l.pages ≡ pages_needed p.size)
      → MadeBy (place_pages m a p s' slot b t c l)
  unfolding place_pages map_pages
  place_pages-Made t false l n =
      (b, out_of_memory-Made p s s' slot refl refl b _ refl (no_array b refl) refl)
  place_pages-Made t true l n = elim (Option-cases a.vmap_at) [
    | inl e ↦ (
      record (placed_buffer m p b l) { pages = none },
      rw (e, map_pages) (out_of_memory-Made p s _ slot refl refl _ _ refl (λ t ps e. cc) refl),
    )
    | inr (v, e) ↦ (
      record (mapped_buffer m p b t l v) { in_use = true; mmap_count = pos 0 },
      rw (e, map_pages)
          (finish-Made p s _ slot refl refl (mapped_buffer m p b t l v) _ refl
            (λ t' ps e'. array_counted t t' l.pages ps (n refl) e') refl refl refl),
    )
  ]

  create_pages-Made : MadeBy (create_pages m a p s' slot b)
  unfolding create_pages
  create_pages-Made = elim (Option-cases a.table_at) [
    | inl e ↦ (
      b,
      rw (e, create_pages)
          (out_of_memory-Made p s s' slot refl refl b [] refl (no_array b refl) refl),
    )
    | inr (t, e) ↦
        let l = alloc_loop m p.numa_node a.page_at (pages_needed b.size) 0 no_pages in
        rw (e, create_pages)
          (place_pages-Made t l.complete l (λ done.
            alloc_loop-length m p.numa_node a.page_at (pages_needed b.size) 0 no_pages done
            ∙ omega arith))
  ]

  create_coherent-Made : MadeBy (create_coherent m a p s' slot b)
  unfolding create_coherent
  create_coherent-Made = elim (Option-cases a.coherent_at) [
    | inl e ↦ (
      b,
      rw (e, create_coherent)
          (out_of_memory-Made p s s' slot refl refl b [] refl (no_array b refl) refl),
    )
    | inr ((v, h), e) ↦ (
      record (coherent_buffer m b v h) { in_use = true; mmap_count = pos 0 },
      rw (e, create_coherent)
          (finish-Made p s _ slot refl refl (coherent_buffer m b v h) _ refl
            (no_array (coherent_buffer m b v h) refl) refl refl refl),
    )
  ]

  create_in-Made : MadeBy (create_in m a p s slot)
  unfolding create_in
  create_in-Made = elim (Bool-cases (p.alloc_type == type_coherent)) [
    | inl c ↦ rw c create_coherent-Made
    | inr n ↦ rw n create_pages-Made
  ]

-- CREATE_BUFFER's allocation either refuses, with -EINVAL for parameters that are not valid and
-- -ENOMEM where no slot is free, and changes nothing; or it writes one buffer, named by the handle
-- counter, into the first free slot, in use exactly if the call succeeds, and moves the counter on.
pub create_buffer_cases :
    (m : Machine) (a : Answers) (p : Params) (s : Store)
    → let o = create_buffer m a p s in
      ((params_valid m p ≡ false) × (o ≡ refuse (err einval) p s))
      ⊎ ((params_valid m p ≡ true) × (find_slot s ≡ none) × (o ≡ refuse (err enomem) p s))
      ⊎ ((params_valid m p ≡ true)
          × ((slot : ℕ) × (find_slot s ≡ some slot) × ((b : Buffer) × Made s p o slot b)))
unfolding create_buffer
create_buffer_cases m a p s = elim (Bool-cases (params_valid m p)) [
  | inr bad ↦ inl (bad, rw bad)
  | inl good ↦ elim (Option-cases (find_slot s)) [
    | inl full ↦ inr (inl (good, full, rw (good, full, create_buffer)))
    | inr (slot, e) ↦
        inr (inr (good, (slot, e, rw (good, e, create_buffer) (create_in-Made m a p s slot))))
  ]
]
