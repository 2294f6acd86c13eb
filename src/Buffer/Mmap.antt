-- ===== src/Buffer/Mmap.antt =====
-- Mapping buffers into user memory: GET_MMAP_INFO, `dmaplane_mmap` and the callbacks of a mapping,
-- driver/main.c.
use dmaplane_master.Base.{
  ℕ, zero, suc, ◌+◌, ◌*◌, ◌%◌, Bool, ◌==◌, ltb, List, [], ◌∷◌, Option, none, some, if◌then◌else◌,
  get_or, u32_mod, u64_mod, inc32, dec32, Status, ok, err, enoent, einval, efault, Errno,
}
use dmaplane_master.Kernel.{page_size}
use dmaplane_master.Buffer.{Store, zero_buffer, type_coherent, type_pages, find_buffer}
use dmaplane_master.Buffer.Create.{put_slot}

-- `struct dmaplane_mmap_info`, the results
pub record MmapInfo : Type 0 where
  pub mmap_offset : ℕ
  pub mmap_size : ℕ

-- GET_MMAP_INFO. `none` is a failed copy of the handle from user memory; the result reaches user
-- memory if `copied`.
unfoldable pub ioctl_get_mmap_info : Option ℕ → Bool → Store → Status × Option MmapInfo
ioctl_get_mmap_info none copied s = (err efault, none)
ioctl_get_mmap_info (some i) copied s = elim (find_buffer s i) [
  | none ↦ (err enoent, none)
  | some slot ↦
      let b = get_or s.buffers slot zero_buffer in
      if copied
      then (ok, some (record { mmap_offset = (b.id * page_size) % u64_mod; mmap_size = b.size }))
      else (err efault, none)
]

-- What the kernel answers: `dma_mmap_coherent`, and the i-th `vm_insert_page`; `none` is success.
pub record MmapAnswers : Type 0 where
  pub dma_mmap : Option Errno
  pub insert_page : ℕ → Option Errno

-- The loop over `vm_insert_page`, with `n` pages left and `i` inserted: its error, and the pages
-- that it has inserted, in order.
unfoldable pub insert_loop : (ℕ → Option Errno) → List ℕ → (n i size : ℕ) → Option Errno × List ℕ
insert_loop answer ps zero i size = (none, [])
insert_loop answer ps (suc n) i size =
    let rest = insert_loop answer ps n (i + 1) size in
    if ltb (i * page_size) size
    then elim (answer i) [ some e ↦ (some e, []) | none ↦ (rest.0, get_or ps i 0 ∷ rest.1) ]
    else (none, [])

abbrev pub page_list : Option (ℕ × List ℕ) → List ℕ
page_list none = []
page_list (some (t, ps)) = ps

-- `atomic_inc(&buf->mmap_count)` and `atomic_dec`, on a slot
abbrev pub vma_open : Store → ℕ → Store
vma_open s slot =
    let b = get_or s.buffers slot zero_buffer in
    put_slot s slot (record b { mmap_count = inc32 b.mmap_count })

abbrev pub vma_close : Store → ℕ → Store
vma_close s slot =
    let b = get_or s.buffers slot zero_buffer in
    put_slot s slot (record b { mmap_count = dec32 b.mmap_count })

-- The last part of `dmaplane_mmap`: an error is returned, and success counts the mapping.
abbrev pub mmap_end : Store → ℕ → Option Errno × List ℕ → Status × Store × List ℕ
mmap_end s slot (some e, ps) = (err e, s, ps)
mmap_end s slot (none, ps) = (ok, vma_open s slot, ps)

-- `dmaplane_mmap` once the buffer is found
unfoldable pub mmap_slot : MmapAnswers → Store → (slot size : ℕ) → Status × Store × List ℕ
mmap_slot a s slot size =
    let b = get_or s.buffers slot zero_buffer in
    if ltb b.size size
    then (err einval, s, [])
    else if b.alloc_type == type_coherent
    then mmap_end s slot (a.dma_mmap, [])
    else if b.alloc_type == type_pages
    then mmap_end s slot (insert_loop a.insert_page (page_list b.pages) b.nr_pages 0 size)
    else (err einval, s, [])

-- `dmaplane_mmap` of `size` bytes at page offset `pgoff`: its status, the table, and the pages that
-- it has inserted. The offset is cut to 32 bits.
unfoldable pub mmap : MmapAnswers → Store → (pgoff size : ℕ) → Status × Store × List ℕ
mmap a s pgoff size = elim (find_buffer s (pgoff % u32_mod)) [
  | none ↦ (err einval, s, [])
  | some slot ↦ mmap_slot a s slot size
]
