-- ===== src/Rdma.antt =====
-- The RDMA context of driver/rdma_engine.c: its state, and the transitions of a queue pair.
pub mod Gids
pub mod Setup
pub mod Peer
pub mod Unwind
pub mod Life
pub mod Calls
pub mod Ledger
pub mod Stays
use dmaplane_master.Base.{ℕ, Bool, true, false, List, [], ◌∷◌, ◌++◌, Option, none, some, Errno}
use dmaplane_master.Kernel.{
  Kind, Resource, Event, get, put, object, ib_device, domain, completion_queue, queue_pair,
}

-- The states that the driver moves a queue pair through
pub data QpState : Type 0 where
  reset initial ready_to_receive ready_to_send failing : QpState

-- A queue pair. Its number stands for the pointer to it; `dest_qp` is the number of the pair that it
-- has been connected to.
pub record Qp : Type 0 where
  pub qp_num : ℕ
  pub state : QpState
  pub dest_qp : ℕ

-- `struct dmaplane_rdma_ctx`; a pointer is `none` where it is NULL.
pub record Context : Type 0 where
  pub ib_dev : Option ℕ
  pub pd : Option ℕ
  pub cq_a : Option ℕ
  pub cq_b : Option ℕ
  pub qp_a : Option Qp
  pub qp_b : Option Qp
  pub port : ℕ
  pub lid : ℕ
  pub gid_index : ℕ
  pub gid : ℕ
  pub initialized : Bool
  pub cq_peer : Option ℕ
  pub qp_peer : Option Qp
  pub peer_connected : Bool

-- The context after `kzalloc`
abbrev pub idle_context : Context
idle_context = record {
  ib_dev = none;
  pd = none;
  cq_a = none;
  cq_b = none;
  qp_a = none;
  qp_b = none;
  port = 0;
  lid = 0;
  gid_index = 0;
  gid = 0;
  initialized = false;
  cq_peer = none;
  qp_peer = none;
  peer_connected = false;
}

-- What a call that creates an object answers: the object, or `ERR_PTR`.
pub data Got : Type 0 where
  got : ℕ → Got
  failed : Errno → Got

-- A pair that `ib_create_qp` has just made
abbrev pub new_qp : ℕ → Qp
new_qp n = record { qp_num = n; state = reset; dest_qp = 0 }

-- `qp_to_init`, `qp_to_rtr` and `qp_to_rts`, where `ib_modify_qp` succeeds
abbrev pub qp_to_init : Qp → Qp
qp_to_init q = record q { state = initial }

abbrev pub qp_to_rtr : ℕ → Qp → Qp
qp_to_rtr dest q = record q { state = ready_to_receive; dest_qp = dest }

abbrev pub qp_to_rts : Qp → Qp
qp_to_rts q = record q { state = ready_to_send }

-- A context, and what has been obtained and given back for it, the latest first
pub record Engine : Type 0 where
  pub ctx : Context
  pub log : List Event

abbrev pub log_event : Event → Engine → Engine
log_event e s = record s { log = e ∷ s.log }

abbrev pub one : Kind → Option ℕ → List Resource
one k none = []
one k (some n) = object k n ∷ []

abbrev pub pair : Option Qp → List Resource
pair none = []
pair (some q) = object queue_pair q.qp_num ∷ []

-- What a context holds, in the order in which it was obtained
abbrev pub holdings : Context → List Resource
holdings c =
    one ib_device c.ib_dev
    ++ one domain c.pd
    ++ one completion_queue c.cq_a
    ++ one completion_queue c.cq_b
    ++ pair c.qp_a
    ++ pair c.qp_b
    ++ one completion_queue c.cq_peer
    ++ pair c.qp_peer
