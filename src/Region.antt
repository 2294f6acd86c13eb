-- ===== src/Region.antt =====
-- The table of memory regions of driver/rdma_engine.c: its entries, and lookup.
pub mod Register
pub mod Deregister
pub mod Balance
pub mod Keys
pub mod Sweep
pub mod World
use dmaplane_master.Base.{
  ℕ, Bool, true, false, ◌&&◌, not, ◌==◌, List, [], ◌∷◌, ◌++◌, Option, none, some, find_index, add32,
  if◌then◌else◌, replicate,
}
use dmaplane_master.Kernel.{
  Resource, Event, heap, object, memory_region, scatter_table, dma_mapping,
}

-- DMAPLANE_MAX_MRS
abbrev pub max_mrs : ℕ
max_mrs = 64

-- `struct dmaplane_mr_entry`, without the time that registration took. `sgt` is the address of the
-- scatter table, `mr` the fast-registered region, `none` for NULL.
pub record MrEntry : Type 0 where
  pub id : ℕ
  pub buf_id : ℕ
  pub mr : Option ℕ
  pub lkey : ℕ
  pub rkey : ℕ
  pub sge_addr : ℕ
  pub sgt : Option ℕ
  pub sgt_nents : ℕ
  pub in_use : Bool

abbrev pub zero_mr : MrEntry
zero_mr = record {
  id = 0;
  buf_id = 0;
  mr = none;
  lkey = 0;
  rkey = 0;
  sge_addr = 0;
  sgt = none;
  sgt_nents = 0;
  in_use = false;
}

-- The part of `struct dmaplane_dev` that memory regions use, and what has been obtained and given
-- back for them, the latest first
pub record Regions : Type 0 where
  pub mrs : List MrEntry
  pub next_mr_id : ℕ
  pub registered : ℕ
  pub deregistered : ℕ
  pub log : List Event

-- The table after `dmaplane_init`
abbrev pub empty_regions : Regions
empty_regions = record {
  mrs = replicate max_mrs zero_mr;
  next_mr_id = 1;
  registered = 0;
  deregistered = 0;
  log = [];
}

abbrev pub is_mr : ℕ → MrEntry → Bool
is_mr i e = e.in_use && e.id == i

-- `dmabuf_rdma_find_mr`: the slot of the region
abbrev pub find_mr : Regions → ℕ → Option ℕ
find_mr r i = find_index (is_mr i) r.mrs

abbrev pub is_vacant : MrEntry → Bool
is_vacant e = not e.in_use

-- The scan for a free slot
abbrev pub find_mr_slot : Regions → Option ℕ
find_mr_slot r = find_index is_vacant r.mrs

-- What a mapped scatter table consists of, and a region of the adapter
abbrev pub own_sgt : Option ℕ → List Resource
own_sgt none = []
own_sgt (some t) = object dma_mapping t ∷ object scatter_table t ∷ heap t ∷ []

abbrev pub own_mr : Option ℕ → List Resource
own_mr none = []
own_mr (some m) = object memory_region m ∷ []

-- What an entry in use owns
abbrev pub mr_holdings : MrEntry → List Resource
mr_holdings e = own_sgt e.sgt ++ own_mr e.mr
