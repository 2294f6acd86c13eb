-- ===== src/Export.antt =====
-- Buffers exported as dma-bufs, driver/dmabuf_export.c.
pub mod Frame
pub mod Backed
pub mod Lifetime
use dmaplane_master.Base.{
  ℕ, Bool, true, false, ◌==◌, not, ltb, List, [], ◌∷◌, ◌++◌, Option, none, some, if◌then◌else◌,
  get_or, get_elem?, set, add64, ℤ, pos, inc32, dec32, Errno, Status, ok, err, einval, ebusy,
  enomem, efault,
}
use dmaplane_master.Kernel.{Event, get, put, heap, object, dma_buf, scatter_table, dma_mapping}
use dmaplane_master.Buffer.{Buffer, Store, zero_buffer, type_pages, find_buffer}
use dmaplane_master.Buffer.Create.{put_slot}
use dmaplane_master.Buffer.Mmap.{insert_loop, page_list}
use dmaplane_master.Rdma.{Got, got, failed}

-- `struct dmaplane_dmabuf_ctx`, with its own address, that of the dma-buf, and the slot of the buffer
-- that it points to
pub record DmabufCtx : Type 0 where
  pub ctx : ℕ
  pub dmabuf : ℕ
  pub slot : ℕ
  pub pages : Option (ℕ × List ℕ)
  pub nr_pages : ℕ
  pub size : ℕ
  pub vaddr : Option ℕ
  pub attach_count : ℤ

-- The buffers, the dma-bufs that have been exported (none where the last reference has gone), those that
-- were put by a failed export, the counters, and what has been obtained and given back, the latest first
pub record Exports : Type 0 where
  pub store : Store
  pub live : List (Option DmabufCtx)
  pub dangling : List DmabufCtx
  pub exported : ℕ
  pub released : ℕ
  pub attachments : ℕ
  pub detachments : ℕ
  pub maps : ℕ
  pub unmaps : ℕ
  pub log : List Event

abbrev pub log_export : Event → Exports → Exports
log_export e s = record s { log = e ∷ s.log }

-- Writes the flag and the pointer of the buffer in a slot.
abbrev pub mark_exported : (slot : ℕ) → Bool → Option ℕ → Store → Store
mark_exported slot flag d s =
    put_slot s slot
      (record (get_or s.buffers slot zero_buffer) { dmabuf_exported = flag; dmabuf = d })

-- `dmaplane_dmabuf_release`, which the kernel calls when the last reference has gone; the dma-buf
-- itself goes with it.
unfoldable pub dmabuf_release : DmabufCtx → Exports → Exports
dmabuf_release x s = log_export (put (heap x.ctx)) (
    log_export (put (object dma_buf x.dmabuf))
      (record s { store = mark_exported x.slot false none s.store; released = add64 s.released 1 }))

-- What the kernel answers: the allocation of the context, `dma_buf_export` and `dma_buf_fd`
pub record ExportAnswers : Type 0 where
  pub ctx_at : Option ℕ
  pub exported : Got
  pub fd : Got

abbrev pub new_ctx : (ctx d slot : ℕ) → Buffer → DmabufCtx
new_ctx c d slot b = record {
  ctx = c;
  dmabuf = d;
  slot = slot;
  pages = b.pages;
  nr_pages = b.nr_pages;
  size = b.size;
  vaddr = b.vaddr;
  attach_count = pos 0;
}

-- From the answer of `dma_buf_fd` on. Where it fails, `dma_buf_put` drops the only reference and the
-- context is freed, under `buf_lock`. The kernel puts the file off, and calls the release callback on the
-- freed context when the system call returns: such a dma-buf is left among those that dangle, and what
-- the callback then does is not modelled.
unfoldable pub export_fd : DmabufCtx → Got → Exports → Status × Exports
export_fd x (failed e) s =
    (err e, log_export (put (heap x.ctx)) (record s { dangling = x ∷ s.dangling }))
export_fd x (got fd) s = (
  ok,
  record s {
    store = mark_exported x.slot true (some x.dmabuf) s.store;
    live = s.live ++ (some x ∷ []);
    exported = add64 s.exported 1;
  },
)

unfoldable pub export_dmabuf :
    ExportAnswers → (ctx slot : ℕ) → Buffer → Got → Exports → Status × Exports
export_dmabuf a c slot b (failed e) s = (err e, log_export (put (heap c)) s)
export_dmabuf a c slot b (got d) s =
    export_fd (new_ctx c d slot b) a.fd (log_export (get (object dma_buf d)) s)

unfoldable pub export_ctx :
    ExportAnswers → (slot : ℕ) → Buffer → Option ℕ → Exports → Status × Exports
export_ctx a slot b none s = (err enomem, s)
export_ctx a slot b (some c) s = export_dmabuf a c slot b a.exported (log_export (get (heap c)) s)

unfoldable pub export_found : ExportAnswers → Option ℕ → Exports → Status × Exports
export_found a none s = (err einval, s)
export_found a (some slot) s =
    let b = get_or s.store.buffers slot zero_buffer in
    if not (b.alloc_type == type_pages)
    then (err einval, s)
    else if b.dmabuf_exported
    then (err ebusy, s)
    else export_ctx a slot b a.ctx_at s

-- `dmaplane_dmabuf_export`
unfoldable pub export : ExportAnswers → (buf_id : ℕ) → Exports → Status × Exports
export a i s = export_found a (find_buffer s.store i) s

-- EXPORT_DMABUF: `none` is a failed copy from user memory; a failed copy to it is not undone.
unfoldable pub export_end : (copied : Bool) → Status × Exports → Status × Exports
export_end copied (err e, s) = (err e, s)
export_end true (ok, s) = (ok, s)
export_end false (ok, s) = (err efault, s)

unfoldable pub ioctl_export_dmabuf :
    ExportAnswers → Option ℕ → (copied : Bool) → Exports → Status × Exports
ioctl_export_dmabuf a none copied s = (err efault, s)
ioctl_export_dmabuf a (some i) copied s = export_end copied (export a i s)

-- The last reference to the k-th dma-bufs goes.
unfoldable pub close_found : (k : ℕ) → Option (Option DmabufCtx) → Exports → Exports
close_found k (some (some x)) s =
    let t = dmabuf_release x s in record t { live = set t.live k none }
close_found k _ s = s

unfoldable pub close_dmabuf : (k : ℕ) → Exports → Exports
close_dmabuf k s = close_found k (get_elem? s.live k) s

-- `dmaplane_dmabuf_attach` and `dmaplane_dmabuf_detach`
unfoldable pub dmabuf_attach : DmabufCtx → Exports → DmabufCtx × Exports
dmabuf_attach x s = (
  record x { attach_count = inc32 x.attach_count },
  record s { attachments = add64 s.attachments 1 },
)

unfoldable pub dmabuf_detach : DmabufCtx → Exports → DmabufCtx × Exports
dmabuf_detach x s = (
  record x { attach_count = dec32 x.attach_count },
  record s { detachments = add64 s.detachments 1 },
)

-- `dmaplane_dmabuf_map`: the table, or an error. The table has the first pages of the context.
pub record MapAnswers : Type 0 where
  pub sgt : Option ℕ
  pub table : Option Errno
  pub mapping : Option Errno

unfoldable pub map_mapped : (sgt : ℕ) → Option Errno → Exports → Got × Exports
map_mapped t (some e) s =
    (failed e, log_export (put (heap t)) (log_export (put (object scatter_table t)) s))
map_mapped t none s =
    (got t, log_export (get (object dma_mapping t)) (record s { maps = add64 s.maps 1 }))

unfoldable pub map_table : MapAnswers → (sgt : ℕ) → Option Errno → Exports → Got × Exports
map_table a t (some e) s = (failed e, log_export (put (heap t)) s)
map_table a t none s = map_mapped t a.mapping (log_export (get (object scatter_table t)) s)

unfoldable pub dmabuf_map : MapAnswers → Option ℕ → Exports → Got × Exports
dmabuf_map a none s = (failed enomem, s)
dmabuf_map a (some t) s = map_table a t a.table (log_export (get (heap t)) s)

-- `dmaplane_dmabuf_unmap`
unfoldable pub dmabuf_unmap : (sgt : ℕ) → Exports → Exports
dmabuf_unmap t s = log_export (put (heap t)) (
    log_export (put (object scatter_table t))
      (log_export (put (object dma_mapping t)) (record s { unmaps = add64 s.unmaps 1 })))

-- `dmaplane_dmabuf_mmap`: its error, and the pages that it has inserted, in order.
unfoldable pub dmabuf_mmap : (ℕ → Option Errno) → DmabufCtx → (size : ℕ) → Option Errno × List ℕ
dmabuf_mmap answer x size =
    if ltb x.size size
    then (some einval, [])
    else insert_loop answer (page_list x.pages) x.nr_pages 0 size
