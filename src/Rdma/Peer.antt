-- ===== src/Rdma/Peer.antt =====
-- The pair to another machine and the teardown, driver/rdma_engine.c, and the two handlers of
-- driver/main.c that set the context up and tear it down.
use dmaplane_master.Base.{
  ℕ, Bool, true, false, not, ◌&&◌, if◌then◌else◌, Option, none, some, Errno, Status, ok, err,
  einval, ebusy, efault, List, ◌++◌, map,
}
use dmaplane_master.Kernel.{
  Resource, get, put, object, ib_device, domain, completion_queue, queue_pair,
}
use dmaplane_master.Rdma.{
  Qp, Got, got, failed, failing, new_qp, qp_to_init, qp_to_rtr, qp_to_rts, Engine, log_event, one,
  pair,
}
use dmaplane_master.Rdma.Setup.{SetupAnswers, setup}

-- Gives back what a field has held: one object, or none.
abbrev pub give_back : List Resource → Engine → Engine
give_back xs s = record s { log = map put xs ++ s.log }

abbrev pub is_null : Option Qp → Bool
is_null none = true
is_null (some q) = false

-- `ib_modify_qp` to IB_QPS_ERR, where there is a pair; its answer is ignored.
abbrev pub fail_qp : Option Qp → Option Qp
fail_qp none = none
fail_qp (some q) = some (record q { state = failing })

abbrev pub flush_peer : Engine → Engine
flush_peer s = record s { ctx = record (s.ctx) { qp_peer = fail_qp s.ctx.qp_peer } }

abbrev pub drop_qp_peer : Engine → Engine
drop_qp_peer s =
    give_back (pair s.ctx.qp_peer) (record s { ctx = record (s.ctx) { qp_peer = none } })

abbrev pub drop_cq_peer : Engine → Engine
drop_cq_peer s =
    give_back (one completion_queue s.ctx.cq_peer)
      (record s { ctx = record (s.ctx) { cq_peer = none } })

-- `rdma_engine_teardown_peer`
unfoldable pub teardown_peer : Engine → Engine
teardown_peer s =
    if not s.ctx.peer_connected && is_null s.ctx.qp_peer
    then s
    else (let t = drop_cq_peer (drop_qp_peer (flush_peer s)) in
        record t { ctx = record (t.ctx) { peer_connected = false } })

-- What the verbs answer to INIT_PEER: the two objects, the error of the transition, that of the GID
-- entry
pub record PeerAnswers : Type 0 where
  pub cq : Got
  pub qp : Got
  pub modify : Option Errno
  pub gid_attr : Option Errno

-- The labels of the function
unfoldable pub err_free_cq : Errno → (cq : ℕ) → Engine → Status × Engine
err_free_cq e cq s = (
  err e,
  log_event (put (object completion_queue cq))
      (record s { ctx = record (s.ctx) { cq_peer = none } }),
)

unfoldable pub err_destroy_qp : Errno → (cq qp : ℕ) → Engine → Status × Engine
err_destroy_qp e cq qp s =
    err_free_cq e cq (
      log_event (put (object queue_pair qp)) (record s { ctx = record (s.ctx) { qp_peer = none } }))

unfoldable pub init_peer_attr : (cq qp : ℕ) → Option Errno → Engine → Status × Engine
init_peer_attr cq qp (some e) s = err_destroy_qp e cq qp s
init_peer_attr cq qp none s = (ok, s)

unfoldable pub init_peer_modify :
    PeerAnswers → (cq qp : ℕ) → Option Errno → Engine → Status × Engine
init_peer_modify a cq qp (some e) s = err_destroy_qp e cq qp s
init_peer_modify a cq qp none s =
    init_peer_attr cq qp a.gid_attr
      (record s { ctx = record (s.ctx) { qp_peer = some (qp_to_init (new_qp qp)) } })

unfoldable pub init_peer_qp : PeerAnswers → (cq : ℕ) → Got → Engine → Status × Engine
init_peer_qp a cq (failed e) s =
    err_free_cq e cq (record s { ctx = record (s.ctx) { qp_peer = none } })
init_peer_qp a cq (got n) s = init_peer_modify a cq n a.modify (
    log_event (get (object queue_pair n))
      (record s { ctx = record (s.ctx) { qp_peer = some (new_qp n) } }))

unfoldable pub init_peer_cq : PeerAnswers → Got → Engine → Status × Engine
init_peer_cq a (failed e) s = (err e, record s { ctx = record (s.ctx) { cq_peer = none } })
init_peer_cq a (got n) s = init_peer_qp a n a.qp (
    log_event (get (object completion_queue n))
      (record s { ctx = record (s.ctx) { cq_peer = some n } }))

-- `rdma_engine_init_peer`.
unfoldable pub init_peer : PeerAnswers → Engine → Status × Engine
init_peer a s =
    if not s.ctx.initialized
    then (err einval, s)
    else if not (is_null s.ctx.qp_peer)
    then (err ebusy, s)
    else init_peer_cq a a.cq s

-- INIT_PEER of the dispatcher; a failed copy of the answer to user memory is not undone.
unfoldable pub init_peer_copy : (copied : Bool) → Status × Engine → Status × Engine
init_peer_copy copied (err e, s) = (err e, s)
init_peer_copy true (ok, s) = (ok, s)
init_peer_copy false (ok, s) = (err efault, s)

unfoldable pub ioctl_init_peer : PeerAnswers → (copied : Bool) → Engine → Status × Engine
ioctl_init_peer a copied s = init_peer_copy copied (init_peer a s)

-- `rdma_engine_connect_peer`, with the number of the other machine's pair
pub record ConnectAnswers : Type 0 where
  pub gid_attr : Option Errno
  pub to_rtr : Option Errno
  pub to_rts : Option Errno

unfoldable pub connect_rts : Qp → Option Errno → Engine → Status × Engine
connect_rts q (some e) s = (err e, record s { ctx = record (s.ctx) { qp_peer = some q } })
connect_rts q none s =
    (ok, record s { ctx = record (s.ctx) { qp_peer = some (qp_to_rts q); peer_connected = true } })

unfoldable pub connect_rtr :
    ConnectAnswers → (remote : ℕ) → Qp → Option Errno → Engine → Status × Engine
connect_rtr a remote q (some e) s = (err e, s)
connect_rtr a remote q none s = connect_rts (qp_to_rtr remote q) a.to_rts s

unfoldable pub connect_pair :
    ConnectAnswers → (remote : ℕ) → Option Errno → Qp → Engine → Status × Engine
connect_pair a remote (some e) q s = (err e, s)
connect_pair a remote none q s = connect_rtr a remote q a.to_rtr s

unfoldable pub connect_qp : ConnectAnswers → (remote : ℕ) → Option Qp → Engine → Status × Engine
connect_qp a remote none s = (err einval, s)
connect_qp a remote (some q) s = connect_pair a remote a.gid_attr q s

unfoldable pub connect_peer : ConnectAnswers → (remote : ℕ) → Engine → Status × Engine
connect_peer a remote s = connect_qp a remote s.ctx.qp_peer s

-- The steps of the teardown, in its order
abbrev pub flush_pairs : Engine → Engine
flush_pairs s = record s {
  ctx = record (s.ctx) { qp_b = fail_qp s.ctx.qp_b; qp_a = fail_qp s.ctx.qp_a };
}

abbrev pub drop_qp_b : Engine → Engine
drop_qp_b s = give_back (pair s.ctx.qp_b) (record s { ctx = record (s.ctx) { qp_b = none } })

abbrev pub drop_qp_a : Engine → Engine
drop_qp_a s = give_back (pair s.ctx.qp_a) (record s { ctx = record (s.ctx) { qp_a = none } })

abbrev pub drop_cq_b : Engine → Engine
drop_cq_b s =
    give_back (one completion_queue s.ctx.cq_b) (record s { ctx = record (s.ctx) { cq_b = none } })

abbrev pub drop_cq_a : Engine → Engine
drop_cq_a s =
    give_back (one completion_queue s.ctx.cq_a) (record s { ctx = record (s.ctx) { cq_a = none } })

abbrev pub drop_pd : Engine → Engine
drop_pd s = give_back (one domain s.ctx.pd) (record s { ctx = record (s.ctx) { pd = none } })

abbrev pub drop_ib_dev : Engine → Engine
drop_ib_dev s =
    give_back (one ib_device s.ctx.ib_dev) (record s { ctx = record (s.ctx) { ib_dev = none } })

-- `rdma_engine_teardown`
unfoldable pub teardown : Engine → Engine
teardown s =
    if not s.ctx.initialized
    then s
    else (let t = drop_ib_dev (
          drop_pd
            (drop_cq_a (drop_cq_b (drop_qp_a (drop_qp_b (flush_pairs (teardown_peer s))))))) in
        record t { ctx = record (t.ctx) { initialized = false } })

-- `dmaplane_ioctl_setup_rdma`: `port` is what the call copies in, if it can; `copied` tells whether
-- the answer could be copied out.
unfoldable pub setup_copy : Bool → Status × Engine → Status × Engine
setup_copy copied (err e, s) = (err e, s)
setup_copy true (ok, s) = (ok, s)
setup_copy false (ok, s) = (err efault, teardown s)

unfoldable pub ioctl_setup_rdma :
    SetupAnswers → Option ℕ → (copied : Bool) → Engine → Status × Engine
ioctl_setup_rdma a none copied s = (err efault, s)
ioctl_setup_rdma a (some port) copied s = setup_copy copied (setup a port s)
