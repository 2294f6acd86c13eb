-- ===== src/Tests/Buffers.antt =====
-- A table with one page-backed buffer.
use dmaplane_master.Base.{
  find_index, enomem, ℕ, ◌+◌, ◌/◌, ◌%◌, ◌≡◌, ◌<◌, ◌≢◌, ◌⊎◌, ◌||◌, true, false, refl, arith, none,
  some, List, [], ◌∷◌, pos, get_elem?, ok, err, enoent, ebusy, einval, u32_mod, take,
}
use dmaplane_master.Kernel.{Machine, Event, heap, gets, puts, page_size}
use dmaplane_master.Buffer.{
  Buffer, Store, empty_store, find_buffer, find_slot, type_pages, numa_any,
}
use dmaplane_master.Buffer.Create.{
  map_pages, place_pages, add_page, alloc_loop, create_pages, create_in, is_any, Params, Answers,
  create_buffer, params_valid, refuse, pages_needed,
}
use dmaplane_master.Buffer.Destroy.{destroy_buffer, is_positive}
use dmaplane_master.Buffer.Mmap.{MmapAnswers, MmapInfo, ioctl_get_mmap_info, mmap, vma_open}
use dmaplane_master.Buffer.Conserve.{held}
use dmaplane_master.Buffer.Outcomes.{Fresh, Made, create_buffer_cases}
use dmaplane_master.Buffer.Handles.{WellFormed, create-WellFormed, create_handle}
use dmaplane_master.Buffer.Lifetime.{Destroyed, destroy_buffer_lem}
use dmaplane_master.Buffer.Mapping.{
  page_align, mmap_unaligned, mmap_info_roundtrip, mmap_pages, mapped_not_destroyed,
}
use dmaplane_master.Buffer.History.{Op, run, create, destroy, run_conserves, empty-WellFormed}

abbrev pub machine : Machine
machine = record {
  max_numnodes = 1;
  node_online = λ n. true;
  page_to_nid = λ p. 0;
  virt_to_nid = λ v. 0;
}

abbrev pub request : Params
request = record {
  buf_id = 0;
  alloc_type = type_pages;
  size = 5000;
  numa_node = numa_any;
  actual_numa_node = pos 0;
}

abbrev pub answers : Answers
answers = record {
  coherent_at = none;
  table_at = some 100;
  page_at = λ i. some (200 + i);
  vmap_at = some 300;
}

abbrev pub buffer : Buffer
buffer = record {
  id = 1;
  alloc_type = type_pages;
  size = 5000;
  in_use = true;
  vaddr = some 300;
  dma_handle = 0;
  pages = some (100, 200 ∷ 201 ∷ []);
  nr_pages = 2;
  mmap_count = pos 0;
  dmabuf_exported = false;
  dmabuf = none;
  numa_node = numa_any;
  actual_numa_node = pos 0;
}

abbrev one_buffer : Store
one_buffer = (create_buffer machine answers request empty_store).store

created_ok : (create_buffer machine answers request empty_store).status ≡ ok
unfolding create_buffer params_valid is_any empty_store create_in create_pages alloc_loop add_page
    place_pages map_pages find_index
created_ok = refl

room : empty_store.next_buf_id + 1 < u32_mod
unfolding empty_store
room = omega arith

one_buffer-WellFormed : WellFormed one_buffer
one_buffer-WellFormed = create-WellFormed machine answers request empty_store empty-WellFormed room

found : find_buffer one_buffer 1 ≡ some 0
unfolding create_buffer params_valid is_any empty_store create_in create_pages alloc_loop add_page
    place_pages map_pages find_index
found = refl

at : get_elem? one_buffer.buffers 0 ≡ some buffer
unfolding create_buffer params_valid is_any empty_store create_in create_pages alloc_loop add_page
    place_pages map_pages find_index
at = refl

abbrev no_errors : MmapAnswers
no_errors = record { dma_mmap = none; insert_page = λ k. none }

create_buffer_cases_example :
    let o = create_buffer machine answers request empty_store in
    ((params_valid machine request ≡ false) × (o ≡ refuse (err einval) request empty_store))
    ⊎ ((params_valid machine request ≡ true)
        × (find_slot empty_store ≡ none)
        × (o ≡ refuse (err enomem) request empty_store))
    ⊎ ((params_valid machine request ≡ true)
        × ((slot : ℕ) × (find_slot empty_store ≡ some slot)
            × ((b : Buffer) × Made empty_store request o slot b)))
create_buffer_cases_example = create_buffer_cases machine answers request empty_store

create-WellFormed_example : WellFormed one_buffer
create-WellFormed_example =
    create-WellFormed machine answers request empty_store empty-WellFormed room

create_handle_example :
    let o = create_buffer machine answers request empty_store in
    (o.params.buf_id ≢ 0)
    × (find_buffer empty_store o.params.buf_id ≡ none)
    × ((slot : ℕ) × (b : Buffer) × (find_buffer o.store o.params.buf_id ≡ some slot)
        × (get_elem? o.store.buffers slot ≡ some b)
        × Fresh request b)
create_handle_example =
    create_handle machine answers request empty_store empty-WellFormed room created_ok

destroy_buffer_lem_example :
    ((find_buffer one_buffer 1 ≡ none)
      × (destroy_buffer one_buffer 1 ≡ (err enoent, one_buffer, [])))
    ⊎ ((slot : ℕ) × (b : Buffer) × (find_buffer one_buffer 1 ≡ some slot)
        × (get_elem? one_buffer.buffers slot ≡ some b)
        × (((is_positive b.mmap_count || b.dmabuf_exported ≡ true)
              × (destroy_buffer one_buffer 1 ≡ (err ebusy, one_buffer, [])))
            ⊎ ((s' : Store) × (es : List Event) × (destroy_buffer one_buffer 1 ≡ (ok, s', es))
                × Destroyed one_buffer 1 b s' es)))
destroy_buffer_lem_example = destroy_buffer_lem one_buffer 1 one_buffer-WellFormed

mmap_unaligned_example :
    mmap no_errors one_buffer 1 (page_align 5000) ≡ (err einval, one_buffer, [])
mmap_unaligned_example =
    mmap_unaligned no_errors one_buffer 1 0 buffer found at (omega arith) (omega arith)

mmap_info_roundtrip_example :
    (info : MmapInfo) × (ioctl_get_mmap_info (some 1) true one_buffer ≡ (ok, some info))
    × (info.mmap_size ≡ 5000)
    × (info.mmap_offset % page_size ≡ 0)
    × ((size : ℕ)
        → mmap no_errors one_buffer (info.mmap_offset / page_size) size
          ≡ mmap no_errors one_buffer 1 size)
mmap_info_roundtrip_example =
    mmap_info_roundtrip no_errors one_buffer 1 0 buffer found at (omega arith) refl

mmap_pages_example :
    mmap no_errors one_buffer 1 4096
    ≡ (ok, vma_open one_buffer 0, take (pages_needed 4096) (200 ∷ 201 ∷ []))
mmap_pages_example =
    mmap_pages no_errors one_buffer 1 0 buffer 100 (200 ∷ 201 ∷ []) 4096 one_buffer-WellFormed found
      at (omega arith) refl refl (omega arith) (λ k. refl)

mapped_not_destroyed_example :
    destroy_buffer (vma_open one_buffer 0) 1 ≡ (err ebusy, vma_open one_buffer 0, [])
mapped_not_destroyed_example =
    mapped_not_destroyed no_errors one_buffer (vma_open one_buffer 0) 1 0 buffer 0 4096 (200 ∷ [])
      found at (omega arith) refl (omega arith)
      (mmap_pages no_errors one_buffer 1 0 buffer 100 (200 ∷ 201 ∷ []) 4096 one_buffer-WellFormed
        found at (omega arith) refl refl (omega arith) (λ k. refl))

abbrev calls : List Op
calls =
    create answers (some request) true ∷ create answers (some request) false ∷ destroy (some 1) ∷ []

run_conserves_example :
    let (s, es) = run machine calls empty_store in
    WellFormed s × (gets (heap 100) es ≡ puts (heap 100) es + held (heap 100) s)
run_conserves_example = run_conserves machine calls (heap 100) (omega arith)
