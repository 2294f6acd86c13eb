-- ===== src/Buffer/Conserve.antt =====
-- The memory that creating a buffer, driver/dmabuf_rdma.c, obtains and gives back.
use mathlib.Core.Bool.{false≢true}
use dmaplane_master.Base.{
  sym, ==_iff, find_index-some, Bool-cases, ◌∙◌, inr, inl, Option-cases, pos, ℕ, ◌+◌, ◌≡◌, ◌≢◌,
  Bool, true, false, refl, List, [], ◌∷◌, ◌++◌, Option, none, some, map, reverse, if◌then◌else◌,
  ◌==◌, get_elem?, total, total-set, arith,
}
use dmaplane_master.Kernel.{
  Machine, Resource, Event, get, put, page, heap, coherent, mapping, count, gets, puts,
}
use dmaplane_master.Kernel.Balance.{
  count-reverse, gets-append, puts-append, gets-get, gets-put, puts-get, puts-put,
}
use dmaplane_master.Buffer.{is_free, Buffer, Store, type_coherent, type_pages, find_slot}
use dmaplane_master.Buffer.Create.{
  fresh_buffer, next_id, create_in, place_pages, coherent_buffer, mapped_buffer, coherent_placement,
  pages_placement, tally, pages_needed, get_pages, Params, Answers, Loop, alloc_loop, no_pages,
  create_buffer, create_pages, create_coherent, map_pages, params_valid, put_slot, out_of_memory,
  finish,
}

abbrev pub own_mapping : Option ℕ → List Resource
own_mapping none = []
own_mapping (some v) = mapping v ∷ []

abbrev pub own_coherent : Option ℕ → List Resource
own_coherent none = []
own_coherent (some v) = coherent v ∷ []

abbrev pub own_pages : Option (ℕ × List ℕ) → List Resource
own_pages none = []
own_pages (some (t, ps)) = heap t ∷ map page ps

-- What a buffer in use owns
unfoldable pub holdings : Buffer → List Resource
holdings b =
    if b.alloc_type == type_pages
    then own_mapping b.vaddr ++ own_pages b.pages
    else own_coherent b.vaddr

abbrev pub weight : Resource → Buffer → ℕ
weight x b = if b.in_use then count x (holdings b) else 0

-- How often the buffers in use own `x`
abbrev pub held : Resource → Store → ℕ
held x s = total (weight x) s.buffers

-- What a call has left behind: `x` is obtained as often as it is given back or newly held.
abbrev pub Balanced : Resource → Store → Store → List Event → Type 0
Balanced x s t es = gets x es + held x s ≡ puts x es + held x t

pub held-put_slot :
    (x : Resource) (s : Store) (slot : ℕ) (a b : Buffer)
    → get_elem? s.buffers slot ≡ some a
    → held x (put_slot s slot b) + weight x a ≡ held x s + weight x b
held-put_slot x s slot a b h = total-set (weight x) s.buffers slot a b h

module _ (x : Resource) (p : Params) (s : Store) (slot : ℕ) {old : Buffer}
    (at : get_elem? s.buffers slot ≡ some old) (free : old.in_use ≡ false) where
  out_of_memory-Balanced :
      (b : Buffer) (es : List Event)
      → b.in_use ≡ false
      → gets x es ≡ puts x es
      → Balanced x s (out_of_memory p s slot b es).store (out_of_memory p s slot b es).events
  out_of_memory-Balanced b es u e = ground (arith, held-put_slot x s slot old b at)

  finish-Balanced :
      (b : Buffer) (es : List Event)
      → gets x es ≡ puts x es + count x (holdings b)
      → Balanced x s (finish p s slot b es).store (finish p s slot b es).events
  unfolding holdings
  finish-Balanced b es e = ground (arith, held-put_slot x s slot old used at)
    where
      used : Buffer
      used = record b { in_use = true; mmap_count = pos 0 }

-- A list of resources obtained and then given back, in whatever order
module _ (x : Resource) (t : ℕ) (ps : List ℕ) where
  got_and_put :
      (back : List Resource)
      → count x back ≡ count x (map page ps)
      → gets x ((get (heap t) ∷ get_pages ps) ++ (map put back ++ (put (heap t) ∷ [])))
        ≡ puts x ((get (heap t) ∷ get_pages ps) ++ (map put back ++ (put (heap t) ∷ [])))
  unfolding gets puts
  got_and_put back e = omega (
    arith,
    gets-append x (get (heap t) ∷ get_pages ps) (map put back ++ (put (heap t) ∷ [])),
    puts-append x (get (heap t) ∷ get_pages ps) (map put back ++ (put (heap t) ∷ [])),
    gets-append x (map put back) (put (heap t) ∷ []),
    puts-append x (map put back) (put (heap t) ∷ []),
    gets-get x (map page ps),
    puts-get x (map page ps),
    gets-put x back,
    puts-put x back,
  )

  got_and_kept :
      (v : ℕ)
      → gets x (get (heap t) ∷ (get_pages ps ++ (get (mapping v) ∷ [])))
        ≡ puts x (get (heap t) ∷ (get_pages ps ++ (get (mapping v) ∷ [])))
          + count x (mapping v ∷ heap t ∷ map page ps)
  unfolding gets puts count
  got_and_kept v = omega (
    arith,
    gets-append x (get_pages ps) (get (mapping v) ∷ []),
    puts-append x (get_pages ps) (get (mapping v) ∷ []),
    gets-get x (map page ps),
    puts-get x (map page ps),
  )

holdings_of_pages :
    (b : Buffer) (t v : ℕ) (ps : List ℕ)
    → b.alloc_type ≡ type_pages
    → b.vaddr ≡ some v
    → b.pages ≡ some (t, ps)
    → holdings b ≡ mapping v ∷ heap t ∷ map page ps
unfolding holdings
holdings_of_pages b t v ps ty hv hp = rw (ty, hv, hp)

holdings_of_coherent :
    (b : Buffer) (v : ℕ)
    → b.alloc_type ≡ type_coherent
    → b.vaddr ≡ some v
    → holdings b ≡ coherent v ∷ []
unfolding holdings
holdings_of_coherent b v ty hv = rw (ty, hv)

module _ (m : Machine) (a : Answers) (p : Params) (s : Store) (slot : ℕ) {old : Buffer}
    (at : get_elem? s.buffers slot ≡ some old) (free : old.in_use ≡ false) (x : Resource) where
  map_pages-Balanced :
      (b : Buffer) (t : ℕ) (l : Loop)
      → b.in_use ≡ false
      → b.alloc_type ≡ type_pages
      → let o = map_pages m a p s slot b t l in Balanced x s o.store o.events
  unfolding map_pages
  map_pages-Balanced b t l u ty = elim (Option-cases a.vmap_at) [
    | inl e ↦
        rw (e, map_pages)
          (out_of_memory-Balanced x p (tally (pages_placement p.numa_node l) s) slot at free _ _ u
            (got_and_put x t l.pages (map page l.pages) refl))
    | inr (v, e) ↦
        rw (e, map_pages)
          (finish-Balanced x p (tally (pages_placement p.numa_node l) s) slot at free
            (mapped_buffer m p b t l v) _
            (rw (holdings_of_pages (mapped_buffer m p b t l v) t v l.pages ty refl refl)
              (got_and_kept x t l.pages v)))
  ]

  place_pages-Balanced :
      (b : Buffer) (t : ℕ) (c : Bool) (l : Loop)
      → b.in_use ≡ false
      → b.alloc_type ≡ type_pages
      → let o = place_pages m a p s slot b t c l in Balanced x s o.store o.events
  unfolding place_pages
  place_pages-Balanced b t true l u ty = map_pages-Balanced b t l u ty
  place_pages-Balanced b t false l u ty =
      out_of_memory-Balanced x p s slot at free _ _ u
        (got_and_put x t l.pages (reverse (map page l.pages)) (count-reverse x (map page l.pages)))

  create_pages-Balanced :
      (b : Buffer)
      → b.in_use ≡ false
      → b.alloc_type ≡ type_pages
      → let o = create_pages m a p s slot b in Balanced x s o.store o.events
  unfolding create_pages gets puts
  create_pages-Balanced b u ty = elim (Option-cases a.table_at) [
    | inl e ↦ rw (e, create_pages) (out_of_memory-Balanced x p s slot at free b [] u refl)
    | inr (t, e) ↦
        let l = alloc_loop m p.numa_node a.page_at (pages_needed b.size) 0 no_pages in
        rw (e, create_pages) (place_pages-Balanced b t l.complete l u ty)
  ]

  create_coherent-Balanced :
      (b : Buffer)
      → b.in_use ≡ false
      → b.alloc_type ≡ type_coherent
      → let o = create_coherent m a p s slot b in Balanced x s o.store o.events
  unfolding create_coherent gets puts count
  create_coherent-Balanced b u ty = elim (Option-cases a.coherent_at) [
    | inl e ↦ rw (e, create_coherent) (out_of_memory-Balanced x p s slot at free b [] u refl)
    | inr ((v, h), e) ↦
        rw (e, create_coherent)
          (finish-Balanced x p (tally (coherent_placement p.numa_node (m.virt_to_nid v)) s) slot at
            free (coherent_buffer m b v h) (get (coherent v) ∷ [])
            (rw (holdings_of_coherent (coherent_buffer m b v h) v ty refl) (omega arith)))
  ]

type_of_valid :
    (m : Machine) (p : Params)
    → params_valid m p ≡ true
    → p.alloc_type ≢ type_coherent
    → p.alloc_type ≡ type_pages
unfolding params_valid
type_of_valid m p h ne = ground arith

create_in-Balanced :
    (m : Machine) (a : Answers) (p : Params) (s : Store) (x : Resource) (slot : ℕ) (old : Buffer)
    → params_valid m p ≡ true
    → get_elem? s.buffers slot ≡ some old
    → old.in_use ≡ false
    → let o = create_in m a p s slot in Balanced x s o.store o.events
unfolding create_in
create_in-Balanced m a p s x slot old good at free =
    elim (Bool-cases (p.alloc_type == type_coherent)) [
      | inl c ↦
          rw c
            (create_coherent-Balanced m a p s' slot at free x b refl ((==_iff p.alloc_type 0).0 c))
      | inr n ↦ rw n (
          create_pages-Balanced m a p s' slot at free x b refl
            (type_of_valid m p good (λ e. false≢true (sym n ∙ (==_iff p.alloc_type 0).1 e))))
    ]
  where
    s' : Store
    s' = record s { next_buf_id = next_id s.next_buf_id }

    b : Buffer
    b = fresh_buffer s.next_buf_id p

free_of_is_free : (b : Buffer) → is_free b ≡ true → b.in_use ≡ false
free_of_is_free b h = ground arith

-- CREATE_BUFFER's allocation conserves memory on every path, failures included: whatever it has
-- obtained it has given back, or a buffer in use owns it.
pub create_buffer-Balanced :
    (m : Machine) (a : Answers) (p : Params) (s : Store) (x : Resource)
    → let o = create_buffer m a p s in Balanced x s o.store o.events
unfolding create_buffer gets puts
create_buffer-Balanced m a p s x = elim (Bool-cases (params_valid m p)) [
  | inr bad ↦ rw (bad, create_buffer)
  | inl good ↦ elim (Option-cases (find_slot s)) [
    | inl none_free ↦ rw (good, none_free, create_buffer)
    | inr (slot, e) ↦
        let (old, at, free) = find_index-some is_free s.buffers slot e in
        rw (good, e, create_buffer)
          (create_in-Balanced m a p s x slot old good at (free_of_is_free old free))
  ]
]
