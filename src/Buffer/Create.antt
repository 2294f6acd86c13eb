-- ===== src/Buffer/Create.antt =====
-- `dmabuf_rdma_create_buffer`: validation, the slot and its handle, the two allocation paths.
use dmaplane_master.Base.{
  ◌-◌, ℕ, zero, suc, ◌+◌, ◌/◌, Bool, true, false, ◌&&◌, ◌||◌, not, ◌==◌, ltb, leb, List, [], ◌∷◌,
  ◌++◌, reverse, Option, none, some, map, if◌then◌else◌, set, get_or, add32, add64, ℤ, pos, negsuc,
  Status, ok, err, einval, enomem,
}
use dmaplane_master.Kernel.{Machine, Event, get, put, page, heap, coherent, mapping, page_size}
use dmaplane_master.Buffer.{
  Buffer, Store, zero_buffer, max_buf_size, type_coherent, type_pages, find_slot,
}

-- `struct dmaplane_buf_params`
pub record Params : Type 0 where
  pub buf_id : ℕ
  pub alloc_type : ℕ
  pub size : ℕ
  pub numa_node : ℤ
  pub actual_numa_node : ℤ

-- What the allocators answer during one call: `dma_alloc_coherent` (address and handle),
-- `kvcalloc`, the i-th `alloc_pages_node`, `vmap`.
pub record Answers : Type 0 where
  pub coherent_at : Option (ℕ × ℕ)
  pub table_at : Option ℕ
  pub page_at : ℕ → Option ℕ
  pub vmap_at : Option ℕ

-- What a call returns: its status, the parameters and the device it leaves, what it obtained from
-- the kernel and gave back.
pub record Outcome : Type 0 where
  pub status : Status
  pub params : Params
  pub store : Store
  pub events : List Event

unfoldable pub is_any : ℤ → Bool
is_any (negsuc zero) = true
is_any _ = false

abbrev pub is_online : Machine → ℤ → Bool
is_online m (pos n) = ltb n m.max_numnodes && m.node_online n
is_online m (negsuc n) = false

unfoldable pub params_valid : Machine → Params → Bool
unfolding is_any
params_valid m p =
    not (p.size == 0)
    && leb p.size max_buf_size
    && (p.alloc_type == type_coherent || p.alloc_type == type_pages)
    && (is_any p.numa_node || is_online m p.numa_node)

-- The handle counter after one use: it skips 0 when it wraps.
abbrev pub next_id : ℕ → ℕ
next_id i = if add32 i 1 == 0 then 1 else add32 i 1

-- The slot's buffer before its memory is allocated
abbrev pub fresh_buffer : ℕ → Params → Buffer
fresh_buffer i p = record zero_buffer {
  id = i;
  alloc_type = p.alloc_type;
  size = p.size;
  numa_node = p.numa_node;
}

pub data Placement : Type 0 where
  anon local remote : Placement

abbrev pub tally : Placement → Store → Store
tally q s = record s {
  anon_allocs = elim q [ anon ↦ add64 s.anon_allocs 1 | _ ↦ s.anon_allocs ];
  local_allocs = elim q [ local ↦ add64 s.local_allocs 1 | _ ↦ s.local_allocs ];
  remote_allocs = elim q [ remote ↦ add64 s.remote_allocs 1 | _ ↦ s.remote_allocs ];
}

-- Does node `n` of the kernel carry the requested number?
abbrev pub is_node : ℤ → ℕ → Bool
is_node (pos t) n = n == t
is_node (negsuc t) n = false

-- The loop over `alloc_pages_node`, with `n` rounds left and `i` done.
pub record Loop : Type 0 where
  pub complete : Bool
  pub pages : List ℕ
  pub local_count : ℕ
  pub remote_count : ℕ

-- One round that has got page `p`: the page is kept, and counted by its node.
unfoldable pub add_page : Machine → ℤ → ℕ → Loop → Loop
unfolding is_any
add_page m target p l = record l {
  pages = l.pages ++ (p ∷ []);
  local_count =
      if not (is_any target) && is_node target (m.page_to_nid p)
      then l.local_count + 1
      else l.local_count;
  remote_count =
      if not (is_any target) && not (is_node target (m.page_to_nid p))
      then l.remote_count + 1
      else l.remote_count;
}

unfoldable pub alloc_loop : Machine → ℤ → (ℕ → Option ℕ) → (n i : ℕ) → Loop → Loop
unfolding add_page
alloc_loop m target page_at zero i l = l
alloc_loop m target page_at (suc n) i l = elim (page_at i) [
  | none ↦ record l { complete = false }
  | some p ↦ alloc_loop m target page_at n (i + 1) (add_page m target p l)
]

abbrev pub no_pages : Loop
no_pages = record { complete = true; pages = []; local_count = 0; remote_count = 0 }

abbrev pub pages_needed : ℕ → ℕ
pages_needed size = (size + (page_size - 1)) / page_size

-- The first page's node
abbrev pub first_node : Machine → List ℕ → ℤ
first_node m ps = pos (m.page_to_nid (get_or ps 0 0))

-- The majority vote over the pages
abbrev pub vote : Machine → ℤ → ℕ → Loop → ℤ
vote m target n l =
    if is_any target
    then (if ltb 0 n then first_node m l.pages else negsuc 0)
    else if leb l.remote_count l.local_count
    then target
    else first_node m l.pages

abbrev pub pages_placement : ℤ → Loop → Placement
pages_placement target l =
    if is_any target then anon else if l.remote_count == 0 then local else remote

abbrev pub coherent_placement : ℤ → ℕ → Placement
coherent_placement target n =
    if is_any target then anon else if is_node target n then local else remote

abbrev pub put_slot : Store → ℕ → Buffer → Store
put_slot s slot b = record s { buffers = set s.buffers slot b }

-- A call that fails with -ENOMEM, having left `b` in its slot
abbrev pub out_of_memory : Params → Store → ℕ → Buffer → List Event → Outcome
out_of_memory p s slot b es = record {
  status = err enomem;
  params = p;
  store = put_slot s slot b;
  events = es;
}

-- The end of a successful call
abbrev pub finish : Params → Store → ℕ → Buffer → List Event → Outcome
finish p s slot b es = record {
  status = ok;
  params = record p { buf_id = b.id; actual_numa_node = b.actual_numa_node };
  store =
      put_slot (record s { created = add64 s.created 1 }) slot
        (record b { in_use = true; mmap_count = pos 0 });
  events = es;
}

abbrev pub coherent_buffer : Machine → Buffer → ℕ → ℕ → Buffer
coherent_buffer m b v h = record b {
  vaddr = some v;
  dma_handle = h;
  actual_numa_node = pos (m.virt_to_nid v);
}

unfoldable pub create_coherent : Machine → Answers → Params → Store → ℕ → Buffer → Outcome
unfolding is_any
create_coherent m a p s slot b = elim a.coherent_at [
  | none ↦ out_of_memory p s slot b []
  | some (v, h) ↦
      finish p (tally (coherent_placement p.numa_node (m.virt_to_nid v)) s) slot
        (coherent_buffer m b v h) (get (coherent v) ∷ [])
]

abbrev pub get_pages : List ℕ → List Event
get_pages ps = map get (map page ps)

-- `while (i > 0) __free_page(buf->pages[--i]);`
abbrev pub put_pages_back : List ℕ → List Event
put_pages_back ps = map put (reverse (map page ps))

-- `for (i = 0; i < nr_pages; i++) __free_page(buf->pages[i]);`
abbrev pub put_pages : List ℕ → List Event
put_pages ps = map put (map page ps)

-- The buffer before and after `vmap`
abbrev pub placed_buffer : Machine → Params → Buffer → Loop → Buffer
placed_buffer m p b l = record b {
  nr_pages = pages_needed b.size;
  actual_numa_node = vote m p.numa_node (pages_needed b.size) l;
}

abbrev pub mapped_buffer : Machine → Params → Buffer → ℕ → Loop → ℕ → Buffer
mapped_buffer m p b t l v = record (placed_buffer m p b l) {
  pages = some (t, l.pages);
  vaddr = some v;
}

-- The page-backed path once the loop over its pages has ended
unfoldable pub map_pages : Machine → Answers → Params → Store → ℕ → Buffer → ℕ → Loop → Outcome
unfolding is_any
map_pages m a p s slot b t l = elim a.vmap_at [
  | none ↦
      out_of_memory p (tally (pages_placement p.numa_node l) s) slot
        (record (placed_buffer m p b l) { pages = none })
        ((get (heap t) ∷ get_pages l.pages) ++ (put_pages l.pages ++ (put (heap t) ∷ [])))
  | some v ↦
      finish p (tally (pages_placement p.numa_node l) s) slot (mapped_buffer m p b t l v)
        (get (heap t) ∷ (get_pages l.pages ++ (get (mapping v) ∷ [])))
]

-- The page-backed path with its page array at `t`, once the loop has ended: `complete` says whether
-- every page was allocated.
unfoldable pub place_pages :
    Machine → Answers → Params → Store → ℕ → Buffer → ℕ → Bool → Loop → Outcome
place_pages m a p s slot b t true l = map_pages m a p s slot b t l
place_pages m a p s slot b t false l =
    out_of_memory p s slot (record b { pages = none })
      ((get (heap t) ∷ get_pages l.pages) ++ (put_pages_back l.pages ++ (put (heap t) ∷ [])))

unfoldable pub create_pages : Machine → Answers → Params → Store → ℕ → Buffer → Outcome
create_pages m a p s slot b = elim a.table_at [
  | none ↦ out_of_memory p s slot b []
  | some t ↦
      let l = alloc_loop m p.numa_node a.page_at (pages_needed b.size) 0 no_pages in
      place_pages m a p s slot b t l.complete l
]

-- Both paths, from the free slot on
unfoldable pub create_in : Machine → Answers → Params → Store → ℕ → Outcome
create_in m a p s slot =
    let b = fresh_buffer s.next_buf_id p in
    let s' = record s { next_buf_id = next_id s.next_buf_id } in
    if p.alloc_type == type_coherent
    then create_coherent m a p s' slot b
    else create_pages m a p s' slot b

abbrev pub refuse : Status → Params → Store → Outcome
refuse e p s = record { status = e; params = p; store = s; events = [] }

unfoldable pub create_buffer : Machine → Answers → Params → Store → Outcome
create_buffer m a p s =
    if params_valid m p
    then elim (find_slot s) [ none ↦ refuse (err enomem) p s | some slot ↦ create_in m a p s slot ]
    else refuse (err einval) p s
