-- ===== src/Tests/Engines.antt =====
-- A context that is set up, gains a peer and a memory region, and is taken down.
use dmaplane_master.Base.{ℕ, ◌≡◌, refl, true, false, none, some, [], ◌∷◌, ◌++◌, List, map, inr}
use dmaplane_master.Kernel.{put}
use dmaplane_master.Rdma.{Context, Engine, Qp, got, ready_to_send, idle_context, holdings}
use dmaplane_master.Rdma.Gids.{GidAttr, GidAnswers}
use dmaplane_master.Rdma.Setup.{SetupAnswers, setup}
use dmaplane_master.Rdma.Peer.{PeerAnswers, ioctl_init_peer, teardown}
use dmaplane_master.Rdma.Unwind.{Idle, Ended, setup-Ended}
use dmaplane_master.Rdma.Life.{teardown-Idle}
use dmaplane_master.Rdma.Calls.{PeerMade, ioctl_init_peer-PeerMade}
use dmaplane_master.Rdma.Ledger.{set_up, take_down, make_peer, fresh_engine}
use dmaplane_master.Region.Register.{MrAnswers, MrParams, completion, nothing, entries}
use dmaplane_master.Region.World.{Step, context, register, deregister}
use dmaplane_master.Tests.Exports.{one_buffer}

abbrev gid_entry : GidAttr
gid_entry = record {
  gid = 77;
  is_roce = true;
  is_any = false;
  is_mapped = true;
  is_linklocal = false;
}

abbrev gid_answers : GidAnswers
gid_answers = record {
  table = λ i. some gid_entry;
  again = λ i. some gid_entry;
  query = none;
  query_gid = 0;
}

abbrev all_well : SetupAnswers
all_well = record {
  device = some 1;
  query_port = none;
  port_lid = 9;
  gids = gid_answers;
  pd = got 2;
  cq_a = got 3;
  cq_b = got 4;
  qp_a = got 5;
  qp_b = got 6;
  gid_attr = none;
  has_mac = true;
  modify = λ i. none;
}

setup-Ended_example : Ended [] (setup all_well 0 fresh_engine)
setup-Ended_example = setup-Ended all_well 0 fresh_engine refl

abbrev sending : (n m : ℕ) → Qp
sending n m = record { qp_num = n; state = ready_to_send; dest_qp = m }

-- A context that is up
abbrev up_context : Context
up_context = record idle_context {
  ib_dev = some 1;
  pd = some 2;
  cq_a = some 3;
  cq_b = some 4;
  qp_a = some (sending 5 6);
  qp_b = some (sending 6 5);
  port = 1;
  initialized = true;
}

abbrev up : Engine
up = record { ctx = up_context; log = [] }

-- The same with a peer
abbrev peered : Engine
peered = record {
  ctx = record up_context {
    cq_peer = some 7;
    qp_peer = some (sending 8 20);
    peer_connected = true;
  };
  log = [];
}

teardown-Idle_example :
    Idle (teardown peered).ctx × ((teardown peered).log ≡ map put (holdings peered.ctx) ++ [])
teardown-Idle_example = teardown-Idle peered (inr (refl, (1, refl), λ z. cc))

abbrev peer_answers : PeerAnswers
peer_answers = record { cq = got 7; qp = got 8; modify = none; gid_attr = none }

ioctl_init_peer-PeerMade_example :
    PeerMade false up_context [] (ioctl_init_peer peer_answers false up)
ioctl_init_peer-PeerMade_example =
    ioctl_init_peer-PeerMade peer_answers false up (refl, (1, refl), λ z. (refl, refl)) refl

abbrev mr_answers : MrAnswers
mr_answers = record {
  pages_copy = some 500;
  sgt = some 501;
  table = true;
  mapped_nents = 2;
  frmr = got 502;
  map_sg = entries 2;
  post = none;
  first_poll = nothing;
  polls = completion true ∷ [];
  frmr_lkey = 11;
  frmr_rkey = 12;
  frmr_iova = 13;
  local_dma_lkey = 14;
}

abbrev remote_write : MrParams
remote_write = record { mr_id = 0; buf_id = 1; access_flags = 3; lkey = 0; rkey = 0; addr = 0 }

abbrev pub history : List Step
history =
    context (set_up all_well (some 1) true)
    ∷ register mr_answers one_buffer (some remote_write) true
    ∷ context (make_peer peer_answers)
    ∷ register mr_answers one_buffer (some remote_write) false
    ∷ deregister (some 1)
    ∷ context take_down
    ∷ []
