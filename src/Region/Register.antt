-- ===== src/Region/Register.antt =====
-- `rdma_engine_register_mr` and its helpers, driver/rdma_engine.c, and REGISTER_MR, driver/main.c.
use dmaplane_master.Base.{
  suc, ℕ, zero, Bool, true, false, ◌&&◌, not, ◌==◌, ltb, ◌/◌, List, [], ◌∷◌, Option, none, some,
  if◌then◌else◌, set, get_elem?, add32, add64, Errno, Status, ok, err, einval, enoent, enomem, eio,
  etimedout,
}
use dmaplane_master.Kernel.{
  Event, get, put, heap, object, memory_region, scatter_table, dma_mapping,
}
use dmaplane_master.Buffer.{Buffer, Store, type_pages, find_buffer}
use dmaplane_master.Rdma.{Context, Got, got, failed}
use dmaplane_master.Region.{MrEntry, Regions, find_mr_slot}

-- `struct dmaplane_mr_params`
pub record MrParams : Type 0 where
  pub mr_id : ℕ
  pub buf_id : ℕ
  pub access_flags : ℕ
  pub lkey : ℕ
  pub rkey : ℕ
  pub addr : ℕ

-- One answer of `ib_poll_cq`: a completion, successful or not; nothing yet; an error
pub data Polled : Type 0 where
  completion : (success : Bool) → Polled
  nothing : Polled
  poll_error : Errno → Polled

-- `rdma_engine_poll_cq`: the answers up to the deadline, the first of which is always asked for.
-- `nothing` is the timeout.
unfoldable pub poll_cq : Polled → List Polled → Polled
poll_cq (completion b) rest = completion b
poll_cq (poll_error e) rest = poll_error e
poll_cq nothing [] = nothing
poll_cq nothing (p ∷ rest) = poll_cq p rest

-- What the services called answer. `map_sg` is what `ib_map_mr_sg` returns: a number of entries, or
-- an error where it is negative.
pub data Mapped : Type 0 where
  entries : ℕ → Mapped
  map_failed : Errno → Mapped

pub record MrAnswers : Type 0 where
  pub pages_copy : Option ℕ
  pub sgt : Option ℕ
  pub table : Bool
  pub mapped_nents : ℕ
  pub frmr : Got
  pub map_sg : Mapped
  pub post : Option Errno
  pub first_poll : Polled
  pub polls : List Polled
  pub frmr_lkey : ℕ
  pub frmr_rkey : ℕ
  pub frmr_iova : ℕ
  pub local_dma_lkey : ℕ

abbrev pub log_mr : Event → Regions → Regions
log_mr e r = record r { log = e ∷ r.log }

abbrev pub Reply : Type 0
Reply = Status × MrParams × Regions

-- `register_mr_build_sgt`: the mapped table with its number of entries, or an error
pub data Built : Type 0 where
  built : (sgt nents : ℕ) → Built
  not_built : Errno → Built

unfoldable pub build_map : (sgt nents : ℕ) → Regions → Built × Regions
build_map t zero r =
    (not_built eio, log_mr (put (heap t)) (log_mr (put (object scatter_table t)) r))
build_map t (suc n) r = (built t (suc n), log_mr (get (object dma_mapping t)) r)

unfoldable pub build_table : MrAnswers → (sgt : ℕ) → Bool → Regions → Built × Regions
build_table a t false r = (not_built enomem, log_mr (put (heap t)) r)
build_table a t true r = build_map t a.mapped_nents (log_mr (get (object scatter_table t)) r)

unfoldable pub build_sgt : MrAnswers → Option ℕ → Regions → Built × Regions
build_sgt a none r = (not_built enomem, r)
build_sgt a (some t) r = build_table a t a.table (log_mr (get (heap t)) r)

-- `register_mr_fastreg`: the region, or an error. The table has `nents` entries.
unfoldable pub err_dereg : Errno → (frmr : ℕ) → Regions → Got × Regions
err_dereg e m r = (failed e, log_mr (put (object memory_region m)) r)

unfoldable pub fastreg_poll : (frmr : ℕ) → Polled → Regions → Got × Regions
fastreg_poll m (completion true) r = (got m, r)
fastreg_poll m (completion false) r = err_dereg eio m r
fastreg_poll m nothing r = err_dereg etimedout m r
fastreg_poll m (poll_error e) r = err_dereg e m r

unfoldable pub fastreg_post : MrAnswers → (frmr : ℕ) → Option Errno → Regions → Got × Regions
fastreg_post a m (some e) r = err_dereg e m r
fastreg_post a m none r = fastreg_poll m (poll_cq a.first_poll a.polls) r

unfoldable pub fastreg_map : MrAnswers → (nents frmr : ℕ) → Mapped → Regions → Got × Regions
fastreg_map a nents m (map_failed e) r = err_dereg e m r
fastreg_map a nents m (entries n) r =
    if ltb n nents then err_dereg eio m r else fastreg_post a m a.post r

unfoldable pub fastreg : MrAnswers → (nents : ℕ) → Got → Regions → Got × Regions
fastreg a nents (failed e) r = (failed e, r)
fastreg a nents (got m) r = fastreg_map a nents m a.map_sg (log_mr (get (object memory_region m)) r)

-- The label `err_unmap`
unfoldable pub err_unmap : Errno → MrParams → (sgt : ℕ) → Regions → Reply
err_unmap e p t r = (
  err e,
  p,
  log_mr (put (heap t))
      (log_mr (put (object scatter_table t)) (log_mr (put (object dma_mapping t)) r)),
)

-- The counter after one use: it skips 0 when it wraps.
abbrev pub next_mr : ℕ → ℕ
next_mr i = if add32 i 1 == 0 then 1 else add32 i 1

-- The entry, on both paths: of the domain's own key, and of a fast-registered region
unfoldable pub new_mr : MrAnswers → MrParams → (id vaddr sgt nents : ℕ) → Option ℕ → MrEntry
new_mr a p i v t n none = record {
  id = i;
  buf_id = p.buf_id;
  mr = none;
  lkey = a.local_dma_lkey;
  rkey = 0;
  sge_addr = v;
  sgt = some t;
  sgt_nents = n;
  in_use = true;
}
new_mr a p i v t n (some m) = record {
  id = i;
  buf_id = p.buf_id;
  mr = some m;
  lkey = a.frmr_lkey;
  rkey = a.frmr_rkey;
  sge_addr = a.frmr_iova;
  sgt = some t;
  sgt_nents = n;
  in_use = true;
}

abbrev pub drop_frmr : Option ℕ → Regions → Regions
drop_frmr none r = r
drop_frmr (some m) r = log_mr (put (object memory_region m)) r

-- From the scan for a slot on
unfoldable pub register_slot :
    MrAnswers → MrParams → (vaddr sgt nents : ℕ) → Option ℕ → Option ℕ → Regions → Reply
register_slot a p v t n m none r = err_unmap enomem p t (drop_frmr m r)
register_slot a p v t n m (some slot) r =
    let e = new_mr a p r.next_mr_id v t n m in
    (
      ok,
      record p { mr_id = e.id; lkey = e.lkey; rkey = e.rkey; addr = e.sge_addr },
      record r {
        mrs = set r.mrs slot e;
        next_mr_id = next_mr r.next_mr_id;
        registered = add64 r.registered 1;
      },
    )

unfoldable pub register_fast : MrAnswers → MrParams → (vaddr sgt nents : ℕ) → Got × Regions → Reply
register_fast a p v t n (failed e, r) = err_unmap e p t r
register_fast a p v t n (got m, r) = register_slot a p v t n (some m) (find_mr_slot r) r

-- Does the access go beyond IB_ACCESS_LOCAL_WRITE, the lowest bit?
abbrev pub need_fastreg : MrParams → Bool
need_fastreg p = not (p.access_flags / 2 == 0)

-- From the built table on. The copy of the page array is freed first.
unfoldable pub register_built :
    MrAnswers → MrParams → (vaddr nr_pages : ℕ) → Built × Regions → Reply
register_built a p v k (not_built e, r) = (err e, p, r)
register_built a p v k (built t n, r) =
    if need_fastreg p
    then register_fast a p v t n (fastreg a k a.frmr r)
    else register_slot a p v t n none (find_mr_slot r) r

unfoldable pub free_copy : (copy : ℕ) → Built × Regions → Built × Regions
free_copy c (b, r) = (b, log_mr (put (heap c)) r)

unfoldable pub register_mapped :
    MrAnswers → MrParams → (nr_pages copy : ℕ) → Option ℕ → Regions → Reply
register_mapped a p k c none r = (err einval, p, log_mr (put (heap c)) r)
register_mapped a p k c (some v) r = register_built a p v k (free_copy c (build_sgt a a.sgt r))

unfoldable pub register_copy : MrAnswers → MrParams → Buffer → Option ℕ → Regions → Reply
register_copy a p b none r = (err enomem, p, r)
register_copy a p b (some c) r = register_mapped a p b.nr_pages c b.vaddr (log_mr (get (heap c)) r)

abbrev pub has_pages : Buffer → Bool
has_pages b = elim (b.pages) [ none ↦ false | some ps ↦ true ]

abbrev pub registrable : Buffer → Bool
registrable b = b.alloc_type == type_pages && has_pages b && not (b.nr_pages == 0)

unfoldable pub register_buffer : MrAnswers → MrParams → Option Buffer → Regions → Reply
register_buffer a p none r = (err enoent, p, r)
register_buffer a p (some b) r =
    if registrable b then register_copy a p b a.pages_copy r else (err einval, p, r)

-- The buffer with an id, as the scan of the table finds it
abbrev pub buffer_of : Store → ℕ → Option Buffer
buffer_of s i = elim (find_buffer s i) [ none ↦ none | some slot ↦ get_elem? s.buffers slot ]

-- `rdma_engine_register_mr`
unfoldable pub register_mr : MrAnswers → Context → Store → MrParams → Regions → Reply
register_mr a c s p r =
    if not c.initialized then (err einval, p, r) else register_buffer a p (buffer_of s p.buf_id) r
