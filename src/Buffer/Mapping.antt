-- ===== src/Buffer/Mapping.antt =====
-- Mappings of a buffer by `dmaplane_mmap`, driver/main.c, and its destruction.
use dmaplane_master.Base.{
  append_assoc, length-append, ltb→lt, take-nil, lt→ltb, ◌++◌, subst, find_index-set_same,
  get_elem?-set_self, lt-length_of_get, ℕ, suc, ◌+◌, ◌*◌, ◌%◌, ◌/◌, ◌-◌, ◌≡◌, ◌≢◌, ◌≤◌, ◌<◌, ◌∙◌,
  true, false, refl, ◌==◌, ltb, List, [], ◌∷◌, Option, none, some, if◌then◌else◌, get_or, get_elem?,
  u32_mod, u64_mod, pos, inc32, ◌^◌, ok, err, einval, ebusy, Errno, arith, length, get_or_of_get,
  Bool-cases, inl, inr, take, ap, sym,
}
use dmaplane_master.Buffer.Outcomes.{PagesCounted}
use dmaplane_master.Buffer.Lifetime.{destroy_found, used_of_find}
use dmaplane_master.Buffer.{
  is_live, Buffer, Store, zero_buffer, type_coherent, type_pages, find_buffer,
}
use dmaplane_master.Kernel.{page_size}
use dmaplane_master.Buffer.Create.{put_slot, pages_needed}
use dmaplane_master.Buffer.Destroy.{destroy_buffer}
use dmaplane_master.Buffer.Handles.{WellFormed}
use dmaplane_master.Buffer.Mmap.{
  mmap_slot, MmapAnswers, MmapInfo, ioctl_get_mmap_info, insert_loop, mmap, mmap_end, vma_open,
  page_list,
}

-- What mmap(2) passes to the driver for a length: it is rounded up to whole pages.
abbrev pub page_align : ℕ → ℕ
page_align n = (n + (page_size - 1)) / page_size * page_size

module _ (a : MmapAnswers) (s : Store) (i slot : ℕ) (b : Buffer)
    (found : find_buffer s i ≡ some slot) (at : get_elem? s.buffers slot ≡ some b)
    (small : i < u32_mod) where
  mmap_found :
      (size : ℕ)
      → mmap a s i size ≡ (
          if ltb b.size size
          then (err einval, s, [])
          else if b.alloc_type == type_coherent
          then mmap_end s slot (a.dma_mmap, [])
          else if b.alloc_type == type_pages
          then mmap_end s slot (insert_loop a.insert_page (page_list b.pages) b.nr_pages 0 size)
          else (err einval, s, []))
  unfolding mmap mmap_slot
  mmap_found size =
      rw (word, found, mmap, mmap_slot, get_or_of_get s.buffers slot b zero_buffer at) refl
    where
      word : i % u32_mod ≡ i
      word = omega arith

  -- A buffer whose size is no whole number of pages cannot be mapped by the length that
  -- GET_MMAP_INFO advertises: mmap(2) rounds it up, and the driver then refuses it.
  pub mmap_unaligned : b.size % page_size ≢ 0 → mmap a s i (page_align b.size) ≡ (err einval, s, [])
  mmap_unaligned h = mmap_found (page_align b.size) ∙ rw over refl
    where
      over : ltb b.size (page_align b.size) ≡ true
      over = lt→ltb b.size (page_align b.size) (omega arith)

  -- What GET_MMAP_INFO advertises for a buffer is its size and a page-aligned offset that leads
  -- `dmaplane_mmap` back to the same buffer.
  pub mmap_info_roundtrip :
      b.id ≡ i
      → (info : MmapInfo) × (ioctl_get_mmap_info (some i) true s ≡ (ok, some info))
        × (info.mmap_size ≡ b.size)
        × (info.mmap_offset % page_size ≡ 0)
        × ((size : ℕ) → mmap a s (info.mmap_offset / page_size) size ≡ mmap a s i size)
  unfolding ioctl_get_mmap_info
  mmap_info_roundtrip named = (
    record { mmap_offset = (b.id * page_size) % u64_mod; mmap_size = b.size },
    rw (found, ioctl_get_mmap_info, get_or_of_get s.buffers slot b zero_buffer at) refl,
    refl,
    omega arith,
    λ size. ap (λ k. mmap a s k size) (omega arith),
  )

get_or-append : (pre post : List ℕ) (x d : ℕ) → get_or (pre ++ (x ∷ post)) (length pre) d ≡ x
get_or-append [] post x d = refl
get_or-append (y ∷ pre) post x d = get_or-append pre post x d

-- Without errors from the kernel the loop inserts, in order, the pages that the size reaches.
insert_loop_lem :
    (answer : ℕ → Option Errno)
    → ((k : ℕ) → answer k ≡ none)
    → (pre post : List ℕ) (i size : ℕ) → i ≡ length pre
    → insert_loop answer (pre ++ post) (length post) i size
      ≡ (none, take (pages_needed size - i) post)
unfolding insert_loop
insert_loop_lem answer fine pre [] i size e =
    ap (λ xs. (none, xs)) (sym (take-nil (pages_needed size - i)))
insert_loop_lem answer fine pre (x ∷ post) i size e = elim (Bool-cases (ltb (i * page_size) size)) [
  | inl more ↦
      let ih =
        insert_loop_lem answer fine (pre ++ (x ∷ [])) post (i + 1) size
          (omega (arith, length-append pre (x ∷ []))) in
      let more_pages : pages_needed size - i ≡ suc (pages_needed size - (i + 1)) =
        omega (arith, ltb→lt (i * page_size) size more) in
      let here : get_or (pre ++ (x ∷ post)) i 0 ≡ x =
        ap (λ k. get_or (pre ++ (x ∷ post)) k 0) e ∙ get_or-append pre post x 0 in
      rw (more, fine i, more_pages, here) (ap (λ r. (r.0, x ∷ r.1)) (rw append_assoc at ih))
  | inr done ↦ let no_pages : pages_needed size - i ≡ 0 = ground arith in rw (done, no_pages) refl
]

-- Mapping `size` bytes of a page-backed buffer, where `size` is within the buffer and the kernel
-- raises no error, succeeds: exactly the buffer's first pages that the size reaches are inserted,
-- in order, and the mapping is counted.
pub mmap_pages :
    (a : MmapAnswers) (s : Store) (i slot : ℕ) (b : Buffer) (t : ℕ) (ps : List ℕ) (size : ℕ)
    → WellFormed s
    → find_buffer s i ≡ some slot
    → get_elem? s.buffers slot ≡ some b
    → i < u32_mod
    → b.alloc_type ≡ type_pages
    → b.pages ≡ some (t, ps)
    → size ≤ b.size
    → ((k : ℕ) → a.insert_page k ≡ none)
    → mmap a s i size ≡ (ok, vma_open s slot, take (pages_needed size) ps)
mmap_pages a s i slot b t ps size w found at small ty array fits fine =
    mmap_found a s i slot b found at small size
    ∙ rw
        (
          within,
          ty,
          array,
          ← counted t ps array,
          insert_loop_lem a.insert_page fine [] ps 0 size refl,
        )
        (ap (λ n. (ok, vma_open s slot, take n ps)) (omega arith))
  where
    within : ltb b.size size ≡ false
    within = ground arith

    counted : PagesCounted b
    counted = (w.live slot b at (used_of_find s i slot b found at)).counted

mmap_ok_store :
    (a : MmapAnswers) (s t : Store) (i slot : ℕ) (b : Buffer) (size : ℕ) (ps : List ℕ)
    → find_buffer s i ≡ some slot
    → get_elem? s.buffers slot ≡ some b
    → i < u32_mod
    → mmap a s i size ≡ (ok, t, ps)
    → t ≡ put_slot s slot (record b { mmap_count = inc32 b.mmap_count })
mmap_ok_store a s t i slot b size ps found at small h = ground (
  arith,
  mmap_found a s i slot b found at small size,
  get_or_of_get s.buffers slot b zero_buffer at,
)

-- A buffer with fewer than 2^31 - 1 mappings that is mapped once more cannot be destroyed: -EBUSY, and
-- nothing changes.
pub mapped_not_destroyed :
    (a : MmapAnswers) (s t : Store) (i slot : ℕ) (b : Buffer) (n size : ℕ) (ps : List ℕ)
    → find_buffer s i ≡ some slot
    → get_elem? s.buffers slot ≡ some b
    → i < u32_mod
    → b.mmap_count ≡ pos n
    → suc n < 2 ^ 31
    → mmap a s i size ≡ (ok, t, ps)
    → destroy_buffer t i ≡ (err ebusy, t, [])
unfolding inc32
mapped_not_destroyed a s t i slot b n size ps found at small c few h =
    let e = mmap_ok_store a s t i slot b size ps found at small h in
    subst (λ x. destroy_buffer x i ≡ (err ebusy, x, [])) (sym e)
      (destroy_found (put_slot s slot mapped) i slot mapped
          (find_index-set_same (is_live i) s.buffers slot b mapped at refl ∙ found)
          (get_elem?-set_self s.buffers slot mapped (lt-length_of_get s.buffers slot at))
        ∙ rw (c, inc32, room) refl)
  where
    room : (n == 2 ^ 31 - 1) ≡ false
    room = ground (arith, few)

    mapped : Buffer
    mapped = record b { mmap_count = inc32 b.mmap_count }
