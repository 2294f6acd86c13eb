-- ===== src/Region/Deregister.antt =====
-- `rdma_engine_deregister_mr`, driver/rdma_engine.c, and the handlers of driver/main.c that register,
-- deregister, and take the whole engine down.
use dmaplane_master.Base.{
  ℕ, zero, suc, Bool, true, false, List, ◌∷◌, Option, none, some, if◌then◌else◌, get_or, set, add64,
  Status, ok, err, enoent, efault,
}
use dmaplane_master.Kernel.{Event, put, heap, object, memory_region, scatter_table, dma_mapping}
use dmaplane_master.Buffer.{Store}
use dmaplane_master.Rdma.{Context, Engine}
use dmaplane_master.Rdma.Peer.{teardown}
use dmaplane_master.Region.{MrEntry, zero_mr, Regions, find_mr, max_mrs}
use dmaplane_master.Region.Register.{MrAnswers, MrParams, register_mr, Reply}

-- The scatter table is released only while there is an adapter; the latest event stands first.
abbrev pub release_sgt : (ib_dev : Option ℕ) → MrEntry → List Event → MrEntry × List Event
release_sgt none e log = (e, log)
release_sgt (some d) e log = elim (e.sgt) [
  | none ↦ (e, log)
  | some t ↦ (
    record e { sgt = none },
    put (heap t) ∷ put (object scatter_table t) ∷ put (object dma_mapping t) ∷ log,
  )
]

abbrev pub release_mr : MrEntry × List Event → MrEntry × List Event
release_mr (e, log) = elim (e.mr) [
  | none ↦ (e, log)
  | some m ↦ (record e { mr = none }, put (object memory_region m) ∷ log)
]

unfoldable pub release : (ib_dev : Option ℕ) → MrEntry → List Event → MrEntry × List Event
release dev e log = release_mr (release_sgt dev e log)

-- The entry in a slot, deregistered
unfoldable pub drop_mr : (ib_dev : Option ℕ) → (slot : ℕ) → Regions → Regions
drop_mr dev slot r =
    let x = release dev (get_or r.mrs slot zero_mr) r.log in
    record r {
      mrs = set r.mrs slot (record (x.0) { in_use = false });
      deregistered = add64 r.deregistered 1;
      log = x.1;
    }

unfoldable pub drop_found : (ib_dev : Option ℕ) → Option ℕ → Regions → Status × Regions
drop_found dev none r = (err enoent, r)
drop_found dev (some slot) r = (ok, drop_mr dev slot r)

-- `rdma_engine_deregister_mr`
unfoldable pub deregister_mr : Context → (mr_id : ℕ) → Regions → Status × Regions
deregister_mr c i r = drop_found c.ib_dev (find_mr r i) r

-- REGISTER_MR: `none` is a failed copy from user memory; where the answer cannot be copied out the
-- region is deregistered again.
unfoldable pub register_end : Context → (copied : Bool) → Reply → Status × Regions
register_end c copied (err e, p, r) = (err e, r)
register_end c true (ok, p, r) = (ok, r)
register_end c false (ok, p, r) = (err efault, (deregister_mr c p.mr_id r).1)

unfoldable pub ioctl_register_mr :
    MrAnswers → Context → Store → Option MrParams → (copied : Bool) → Regions → Status × Regions
ioctl_register_mr a c s none copied r = (err efault, r)
ioctl_register_mr a c s (some p) copied r = register_end c copied (register_mr a c s p r)

-- DEREGISTER_MR
unfoldable pub ioctl_deregister_mr : Context → Option ℕ → Regions → Status × Regions
ioctl_deregister_mr c none r = (err efault, r)
ioctl_deregister_mr c (some i) r = deregister_mr c i r

-- The loop of TEARDOWN_RDMA over the slots, with `n` slots left from slot `j` on
unfoldable pub sweep_slot : Context → MrEntry → Regions → Regions
sweep_slot c e r = if e.in_use then (deregister_mr c e.id r).1 else r

unfoldable pub sweep : Context → (n j : ℕ) → Regions → Regions
sweep c zero j r = r
sweep c (suc n) j r = sweep c n (suc j) (sweep_slot c (get_or r.mrs j zero_mr) r)

-- TEARDOWN_RDMA: every region, then the context
unfoldable pub ioctl_teardown_rdma : Engine → Regions → Engine × Regions
ioctl_teardown_rdma s r = (teardown s, sweep s.ctx max_mrs 0 r)
