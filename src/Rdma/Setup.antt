-- ===== src/Rdma/Setup.antt =====
-- `rdma_engine_setup`, driver/rdma_engine.c: every object in turn, and the labels that undo it.
use dmaplane_master.Base.{
  ℕ, Bool, true, ◌==◌, not, if◌then◌else◌, Option, none, some, Errno, Status, ok, err, enodev,
  ebusy,
}
use dmaplane_master.Kernel.{get, put, object, ib_device, domain, completion_queue, queue_pair}
use dmaplane_master.Rdma.{
  Qp, Got, got, failed, new_qp, qp_to_init, qp_to_rtr, qp_to_rts, Engine, log_event,
}
use dmaplane_master.Rdma.Gids.{GidAnswers, GidFound, found, no_gid, scan_gid_table}

-- What the verbs answer during one call; `modify i` is the error of the i-th `ib_modify_qp`, if any.
pub record SetupAnswers : Type 0 where
  pub device : Option ℕ
  pub query_port : Option Errno
  pub port_lid : ℕ
  pub gids : GidAnswers
  pub pd : Got
  pub cq_a : Got
  pub cq_b : Got
  pub qp_a : Got
  pub qp_b : Got
  pub gid_attr : Option Errno
  pub has_mac : Bool
  pub modify : ℕ → Option Errno

-- The two pairs, and the error with which their connection ends, if any
pub record Pairs : Type 0 where
  pub a : Qp
  pub b : Qp
  pub error : Option Errno

-- One transition of the connection: its error ends it.
unfoldable pub transition : Option Errno → Pairs → Pairs → Pairs
transition none before after = after
transition (some e) before after = record before { error = some e }

-- The six transitions of `connect_loopback_qps`: each stands between those before it and the rest.
unfoldable pub connect_pairs : (ℕ → Option Errno) → Pairs → Pairs
unfolding transition
connect_pairs modify p =
    let a₁ = record p { a = qp_to_init p.a } in
    let a₂ = record p { a = qp_to_rtr p.b.qp_num (qp_to_init p.a) } in
    let a₃ = record p { a = qp_to_rts (qp_to_rtr p.b.qp_num (qp_to_init p.a)) } in
    let b₁ = record a₃ { b = qp_to_init p.b } in
    let b₂ = record a₃ { b = qp_to_rtr p.a.qp_num (qp_to_init p.b) } in
    let b₃ = record a₃ { b = qp_to_rts (qp_to_rtr p.a.qp_num (qp_to_init p.b)) } in
    transition (modify 0) p (
      transition (modify 1) a₁ (
        transition (modify 2) a₂
          (transition (modify 3) a₃ (transition (modify 4) b₁ (transition (modify 5) b₂ b₃)))))

-- `connect_loopback_qps`. The reference to the GID entry is taken and dropped inside it.
unfoldable pub connect_loopback_qps : SetupAnswers → Pairs → Pairs
connect_loopback_qps a p = elim (a.gid_attr) [
  | some e ↦ record p { error = some e }
  | none ↦ if not a.has_mac then record p { error = some enodev } else connect_pairs a.modify p
]

-- The labels at the end of the function: each undoes one object, and falls through to the next.
unfoldable pub err_put_dev : Errno → ℕ → Engine → Status × Engine
err_put_dev e dev s = (
  err e,
  log_event (put (object ib_device dev)) (record s { ctx = record (s.ctx) { ib_dev = none } }),
)

unfoldable pub err_dealloc_pd : Errno → (dev pd : ℕ) → Engine → Status × Engine
err_dealloc_pd e dev pd s =
    err_put_dev e dev
      (log_event (put (object domain pd)) (record s { ctx = record (s.ctx) { pd = none } }))

unfoldable pub err_destroy_cq_a : Errno → (dev pd cq_a : ℕ) → Engine → Status × Engine
err_destroy_cq_a e dev pd cq_a s = err_dealloc_pd e dev pd (
    log_event (put (object completion_queue cq_a))
      (record s { ctx = record (s.ctx) { cq_a = none } }))

unfoldable pub err_destroy_cq_b : Errno → (dev pd cq_a cq_b : ℕ) → Engine → Status × Engine
err_destroy_cq_b e dev pd cq_a cq_b s = err_destroy_cq_a e dev pd cq_a (
    log_event (put (object completion_queue cq_b))
      (record s { ctx = record (s.ctx) { cq_b = none } }))

unfoldable pub err_destroy_qp_a : Errno → (dev pd cq_a cq_b qp_a : ℕ) → Engine → Status × Engine
err_destroy_qp_a e dev pd cq_a cq_b qp_a s =
    err_destroy_cq_b e dev pd cq_a cq_b
      (log_event (put (object queue_pair qp_a)) (record s { ctx = record (s.ctx) { qp_a = none } }))

unfoldable pub err_destroy_qp_b :
    Errno → (dev pd cq_a cq_b qp_a qp_b : ℕ) → Engine → Status × Engine
err_destroy_qp_b e dev pd cq_a cq_b qp_a qp_b s =
    err_destroy_qp_a e dev pd cq_a cq_b qp_a
      (log_event (put (object queue_pair qp_b)) (record s { ctx = record (s.ctx) { qp_b = none } }))

-- The end: the pairs as the connection has left them
unfoldable pub setup_end : (dev pd cq_a cq_b : ℕ) → Pairs → Engine → Status × Engine
setup_end dev pd cq_a cq_b p s =
    let c = record (s.ctx) { qp_a = some p.a; qp_b = some p.b } in
    elim (p.error) [
      | some e ↦ err_destroy_qp_b e dev pd cq_a cq_b p.a.qp_num p.b.qp_num (record s { ctx = c })
      | none ↦ (ok, record s { ctx = record c { initialized = true } })
    ]

-- Each step takes the answer of its own call.
unfoldable pub setup_qp_b :
    SetupAnswers → (dev pd cq_a cq_b qp_a : ℕ) → Got → Engine → Status × Engine
setup_qp_b a dev pd cq_a cq_b qp_a (failed e) s = err_destroy_qp_a e dev pd cq_a cq_b qp_a s
setup_qp_b a dev pd cq_a cq_b qp_a (got n) s =
    setup_end dev pd cq_a cq_b
      (connect_loopback_qps a (record { a = new_qp qp_a; b = new_qp n; error = none }))
      (log_event (get (object queue_pair n))
        (record s { ctx = record (s.ctx) { qp_b = some (new_qp n) } }))

unfoldable pub setup_qp_a : SetupAnswers → (dev pd cq_a cq_b : ℕ) → Got → Engine → Status × Engine
setup_qp_a a dev pd cq_a cq_b (failed e) s = err_destroy_cq_b e dev pd cq_a cq_b s
setup_qp_a a dev pd cq_a cq_b (got n) s = setup_qp_b a dev pd cq_a cq_b n a.qp_b (
    log_event (get (object queue_pair n))
      (record s { ctx = record (s.ctx) { qp_a = some (new_qp n) } }))

unfoldable pub setup_cq_b : SetupAnswers → (dev pd cq_a : ℕ) → Got → Engine → Status × Engine
setup_cq_b a dev pd cq_a (failed e) s = err_destroy_cq_a e dev pd cq_a s
setup_cq_b a dev pd cq_a (got n) s = setup_qp_a a dev pd cq_a n a.qp_a (
    log_event (get (object completion_queue n))
      (record s { ctx = record (s.ctx) { cq_b = some n } }))

unfoldable pub setup_cq_a : SetupAnswers → (dev pd : ℕ) → Got → Engine → Status × Engine
setup_cq_a a dev pd (failed e) s = err_dealloc_pd e dev pd s
setup_cq_a a dev pd (got n) s = setup_cq_b a dev pd n a.cq_b (
    log_event (get (object completion_queue n))
      (record s { ctx = record (s.ctx) { cq_a = some n } }))

unfoldable pub setup_pd : SetupAnswers → (dev : ℕ) → Got → Engine → Status × Engine
setup_pd a dev (failed e) s = err_put_dev e dev s
setup_pd a dev (got n) s =
    setup_cq_a a dev n a.cq_a
      (log_event (get (object domain n)) (record s { ctx = record (s.ctx) { pd = some n } }))

unfoldable pub setup_gid : SetupAnswers → (dev : ℕ) → GidFound → Engine → Status × Engine
setup_gid a dev (no_gid e) s = err_put_dev e dev s
setup_gid a dev (found g i) s =
    setup_pd a dev a.pd (record s { ctx = record (s.ctx) { gid = g; gid_index = i } })

unfoldable pub setup_port : SetupAnswers → (dev : ℕ) → Option Errno → Engine → Status × Engine
setup_port a dev (some e) s = err_put_dev e dev s
setup_port a dev none s =
    setup_gid a dev (scan_gid_table a.gids) (record s { ctx = record (s.ctx) { lid = a.port_lid } })

unfoldable pub setup_device : SetupAnswers → (port : ℕ) → Option ℕ → Engine → Status × Engine
setup_device a port none s = (err enodev, record s { ctx = record (s.ctx) { ib_dev = none } })
setup_device a port (some dev) s = setup_port a dev a.query_port (
    log_event (get (object ib_device dev)) (record s {
      ctx = record (s.ctx) { ib_dev = some dev; port = if port == 0 then 1 else port };
    }))

-- `rdma_engine_setup`
unfoldable pub setup : SetupAnswers → (port : ℕ) → Engine → Status × Engine
setup a port s = if s.ctx.initialized then (err ebusy, s) else setup_device a port a.device s
