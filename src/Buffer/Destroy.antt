-- ===== src/Buffer/Destroy.antt =====
-- `dmabuf_rdma_destroy_buffer` and the ioctl handlers CREATE_BUFFER and DESTROY_BUFFER.
use dmaplane_master.Base.{
  ℕ, suc, Bool, true, false, ◌==◌, List, [], ◌∷◌, ◌++◌, Option, none, some, if◌then◌else◌, get_or,
  take, add64, ℤ, pos, Status, ok, err, enoent, ebusy, efault,
}
use dmaplane_master.Kernel.{Machine, Event, put, heap, coherent, mapping}
use dmaplane_master.Buffer.{Buffer, Store, zero_buffer, type_coherent, type_pages, find_buffer}
use dmaplane_master.Buffer.Create.{Outcome, Params, Answers, create_buffer, put_slot, put_pages}

-- `atomic_read(&buf->mmap_count) > 0`
abbrev pub is_positive : ℤ → Bool
is_positive (pos (suc n)) = true
is_positive _ = false

abbrev pub unmap_events : Option ℕ → List Event
unmap_events none = []
unmap_events (some v) = put (mapping v) ∷ []

abbrev pub pages_events : ℕ → Option (ℕ × List ℕ) → List Event
pages_events n none = []
pages_events n (some (t, ps)) = put_pages (take n ps) ++ (put (heap t) ∷ [])

abbrev pub coherent_events : Option ℕ → List Event
coherent_events none = []
coherent_events (some v) = put (coherent v) ∷ []

-- The release of a buffer's memory, by its type
unfoldable pub free_memory : Buffer → List Event
free_memory b =
    if b.alloc_type == type_pages
    then unmap_events b.vaddr ++ pages_events b.nr_pages b.pages
    else if b.alloc_type == type_coherent
    then coherent_events b.vaddr
    else []

unfoldable pub destroy_buffer : Store → ℕ → Status × Store × List Event
destroy_buffer s i = elim (find_buffer s i) [
  | none ↦ (err enoent, s, [])
  | some slot ↦
      let b = get_or s.buffers slot zero_buffer in
      if is_positive b.mmap_count
      then (err ebusy, s, [])
      else if b.dmabuf_exported
      then (err ebusy, s, [])
      else (
        ok,
        put_slot (record s { destroyed = add64 s.destroyed 1 }) slot (record b { in_use = false }),
        free_memory b,
      )
]

-- The end of CREATE_BUFFER: if the copy of the parameters to user memory fails, the buffer is
-- destroyed again.
unfoldable pub create_end : Status → Bool → Outcome → Status × Store × List Event
create_end (err e) copied o = (err e, o.store, o.events)
create_end ok true o = (ok, o.store, o.events)
create_end ok false o =
    let d = destroy_buffer o.store o.params.buf_id in (err efault, d.1, o.events ++ d.2)

-- CREATE_BUFFER: `none` is a failed copy of the parameters from user memory, and `copied` says
-- whether the copy back succeeds.
unfoldable pub ioctl_create_buffer :
    Machine → Answers → Option Params → Bool → Store → Status × Store × List Event
ioctl_create_buffer m a none copied s = (err efault, s, [])
ioctl_create_buffer m a (some p) copied s =
    let o = create_buffer m a p s in create_end o.status copied o

unfoldable pub ioctl_destroy_buffer : Option ℕ → Store → Status × Store × List Event
ioctl_destroy_buffer none s = (err efault, s, [])
ioctl_destroy_buffer (some i) s = destroy_buffer s i
