-- ===== src/Buffer.antt =====
-- The buffer table of driver/dmabuf_rdma.c: its state, lookup, and allocation.
pub mod Create
pub mod Destroy
pub mod Mmap
pub mod Conserve
pub mod Outcomes
pub mod Handles
pub mod Lifetime
pub mod Mapping
pub mod Kept
pub mod History
use dmaplane_master.Base.{
  ℕ, ◌+◌, ◌/◌, ◌^◌, Bool, true, false, ◌&&◌, ◌||◌, not, ◌==◌, ltb, leb, List, [], ◌∷◌, Option, none,
  some, map, if◌then◌else◌, replicate, find_index, add32, add64, ℤ, pos, negsuc,
}
use dmaplane_master.Kernel.{Resource, page, heap, coherent, mapping, page_size}

abbrev pub max_buffers : ℕ
max_buffers = 64

abbrev pub max_buf_size : ℕ
max_buf_size = 2 ^ 30

abbrev pub type_coherent : ℕ
type_coherent = 0

abbrev pub type_pages : ℕ
type_pages = 1

-- DMAPLANE_NUMA_ANY
abbrev pub numa_any : ℤ
numa_any = negsuc 0

-- `struct dmaplane_buffer`. A pointer is `none` where it is NULL; `pages` is the address of the
-- page array with its contents.
pub record Buffer : Type 0 where
  pub id : ℕ
  pub alloc_type : ℕ
  pub size : ℕ
  pub in_use : Bool
  pub vaddr : Option ℕ
  pub dma_handle : ℕ
  pub pages : Option (ℕ × List ℕ)
  pub nr_pages : ℕ
  pub mmap_count : ℤ
  pub dmabuf_exported : Bool
  pub dmabuf : Option ℕ
  pub numa_node : ℤ
  pub actual_numa_node : ℤ

-- `memset(buf, 0, sizeof(*buf))`
abbrev pub zero_buffer : Buffer
zero_buffer = record {
  id = 0;
  alloc_type = 0;
  size = 0;
  in_use = false;
  vaddr = none;
  dma_handle = 0;
  pages = none;
  nr_pages = 0;
  mmap_count = pos 0;
  dmabuf_exported = false;
  dmabuf = none;
  numa_node = pos 0;
  actual_numa_node = pos 0;
}

-- The part of `struct dmaplane_dev` that buffers use, with the device's counters for them.
pub record Store : Type 0 where
  pub buffers : List Buffer
  pub next_buf_id : ℕ
  pub created : ℕ
  pub destroyed : ℕ
  pub local_allocs : ℕ
  pub remote_allocs : ℕ
  pub anon_allocs : ℕ

-- The table after `dmaplane_init`
unfoldable pub empty_store : Store
empty_store = record {
  buffers = replicate max_buffers zero_buffer;
  next_buf_id = 1;
  created = 0;
  destroyed = 0;
  local_allocs = 0;
  remote_allocs = 0;
  anon_allocs = 0;
}

abbrev pub is_live : ℕ → Buffer → Bool
is_live i b = b.in_use && b.id == i

-- `dmabuf_rdma_find_buffer`: the slot of the buffer, which stands for the pointer to it.
abbrev pub find_buffer : Store → ℕ → Option ℕ
find_buffer s i = find_index (is_live i) s.buffers

abbrev pub is_free : Buffer → Bool
is_free b = not b.in_use

-- The scan for a free slot
abbrev pub find_slot : Store → Option ℕ
find_slot s = find_index is_free s.buffers
