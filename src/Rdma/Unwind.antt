-- ===== src/Rdma/Unwind.antt =====
-- How a call of `rdma_engine_setup`, driver/rdma_engine.c, ends.
use dmaplane_master.Base.{
  ℕ, ◌≡◌, refl, ◌⊎◌, inl, inr, ◌∙◌, sym, subst, true, false, Bool-cases, Option-cases, List, [],
  ◌∷◌, ◌++◌, map, reverse, Option, none, some, Errno, Status, ok, err, enodev, ◌==◌, if◌then◌else◌,
}
use dmaplane_master.Kernel.{
  Resource, Event, get, put, object, ib_device, domain, completion_queue, queue_pair,
}
use dmaplane_master.Rdma.{Qp, Got, got, failed, new_qp, ready_to_send, Context, Engine, holdings}
use dmaplane_master.Rdma.Gids.{GidFound, found, no_gid, scan_gid_table}
use dmaplane_master.Rdma.Setup.{
  SetupAnswers, Pairs, transition, connect_pairs, connect_loopback_qps, err_put_dev, err_dealloc_pd,
  err_destroy_cq_a, err_destroy_cq_b, err_destroy_qp_a, err_destroy_qp_b, setup_end, setup_qp_b,
  setup_qp_a, setup_cq_b, setup_cq_a, setup_pd, setup_gid, setup_port, setup_device, setup,
}

-- A context under construction: its numbers, its objects, no peer
abbrev pub building :
    (port lid gid_index gid : ℕ)
    → (dev pd cq_a cq_b : Option ℕ) (qp_a qp_b : Option Qp) → List Event
    → Engine
building port lid gid_index gid dev pd cq_a cq_b qp_a qp_b log = record {
  ctx = record {
    ib_dev = dev;
    pd = pd;
    cq_a = cq_a;
    cq_b = cq_b;
    qp_a = qp_a;
    qp_b = qp_b;
    port = port;
    lid = lid;
    gid_index = gid_index;
    gid = gid;
    initialized = false;
    cq_peer = none;
    qp_peer = none;
    peer_connected = false;
  };
  log = log;
}

-- A context without objects
abbrev pub Idle : Context → Type 0
Idle c = c ≡ (building c.port c.lid c.gid_index c.gid none none none none none none []).ctx

-- Both pairs can send, each to the other.
pub record Linked (c : Context) (a b : Qp) : Type 0 where
  pub up : c.initialized ≡ true
  pub device : (d : ℕ) × (c.ib_dev ≡ some d)
  pub left : c.qp_a ≡ some a
  pub right : c.qp_b ≡ some b
  pub left_sends : a.state ≡ ready_to_send
  pub right_sends : b.state ≡ ready_to_send
  pub left_dest : a.dest_qp ≡ b.qp_num
  pub right_dest : b.dest_qp ≡ a.qp_num
  pub no_qp_peer : c.qp_peer ≡ none
  pub no_cq_peer : c.cq_peer ≡ none
  pub no_peer : c.peer_connected ≡ false

-- What has been obtained, and then given back in the reverse order; the latest event stands first.
abbrev pub unwinding : List Resource → List Event → List Event
unwinding rs log = map put rs ++ (map get (reverse rs) ++ log)

-- A call that failed has left nothing behind.
abbrev pub Undone : List Event → Status × Engine → Type 0
Undone log r =
    (e : Errno) × (rs : List Resource) × (r.0 ≡ err e) × Idle r.1.ctx × (r.1.log ≡ unwinding rs log)

abbrev pub Connected : List Event → Status × Engine → Type 0
Connected log r =
    (a : Qp) × (b : Qp) × (r.0 ≡ ok)
    × Linked r.1.ctx a b
    × (r.1.log ≡ map get (reverse (holdings r.1.ctx)) ++ log)

abbrev pub Ended : List Event → Status × Engine → Type 0
Ended log r = Connected log r ⊎ Undone log r

-- What the connection does to the two pairs
abbrev Crossed : (n m : ℕ) → Pairs → Type 0
Crossed n m p =
    (p.a.qp_num ≡ n)
    × (p.b.qp_num ≡ m)
    × (p.error ≡ none
        → (p.a.state ≡ ready_to_send)
          × (p.b.state ≡ ready_to_send)
          × (p.a.dest_qp ≡ m)
          × (p.b.dest_qp ≡ n))

transition-Crossed :
    (n m : ℕ) (o : Option Errno) (before after : Pairs)
    → before.a.qp_num ≡ n
    → before.b.qp_num ≡ m
    → Crossed n m after
    → Crossed n m (transition o before after)
unfolding transition
transition-Crossed n m none before after h k c = c
transition-Crossed n m (some e) before after h k c = (h, k, λ z. cc)

connect_pairs-Crossed :
    (modify : ℕ → Option Errno) (n m : ℕ)
    → Crossed n m (connect_pairs modify (record { a = new_qp n; b = new_qp m; error = none }))
unfolding connect_pairs
connect_pairs-Crossed modify n m = transition-Crossed n m (modify 0) _ _ refl refl (
    transition-Crossed n m (modify 1) _ _ refl refl (
      transition-Crossed n m (modify 2) _ _ refl refl (
        transition-Crossed n m (modify 3) _ _ refl refl (
          transition-Crossed n m (modify 4) _ _ refl refl (
            transition-Crossed n m (modify 5) _ _ refl refl
              (refl, refl, λ z. (refl, refl, refl, refl)))))))

loopback-Crossed :
    (a : SetupAnswers) (n m : ℕ)
    → Crossed n m (connect_loopback_qps a (record { a = new_qp n; b = new_qp m; error = none }))
unfolding connect_loopback_qps
loopback-Crossed a n m = elim (Option-cases a.gid_attr) [
  | inr (e, h) ↦ rw h (refl, refl, λ z. cc)
  | inl h ↦ elim (Bool-cases a.has_mac) [
    | inl k ↦ rw (h, k) (connect_pairs-Crossed a.modify n m)
    | inr k ↦ rw (h, k) (refl, refl, λ z. cc)
  ]
]

-- The objects obtained so far
abbrev three : (dev pd cq_a : ℕ) → List Resource
three dev pd cq_a = object ib_device dev ∷ object domain pd ∷ object completion_queue cq_a ∷ []

abbrev four : (dev pd cq_a cq_b : ℕ) → List Resource
four dev pd cq_a cq_b = three dev pd cq_a ++ (object completion_queue cq_b ∷ [])

abbrev five : (dev pd cq_a cq_b n : ℕ) → List Resource
five dev pd cq_a cq_b n = four dev pd cq_a cq_b ++ (object queue_pair n ∷ [])

-- The end of the call, and then each step before it, at the context that it finds
module _ (a : SetupAnswers) (port lid gid_index gid : ℕ) (log : List Event) where
  module _ (dev pd cq_a cq_b n m : ℕ) where
    -- The six objects, as one list
    abbrev six : List Resource
    six = five dev pd cq_a cq_b n ++ (object queue_pair m ∷ [])

    abbrev complete : Engine
    complete =
        building port lid gid_index gid (some dev) (some pd) (some cq_a) (some cq_b)
          (some (new_qp n)) (some (new_qp m)) (map get (reverse six) ++ log)

    setup_end-Ended :
        (p : Pairs) → Crossed n m p → Ended log (setup_end dev pd cq_a cq_b p complete)
    unfolding setup_end err_destroy_qp_b err_destroy_qp_a err_destroy_cq_b err_destroy_cq_a
        err_dealloc_pd err_put_dev
    setup_end-Ended p (hn, hm, sends) = elim (Option-cases p.error) [
      | inr (e, h) ↦ rw (h, hn, hm) (inr (e, six, refl, refl, refl))
      | inl h ↦
          let (sa, sb, da, db) = sends h in
          rw h (
            inl (
              p.a,
              p.b,
              refl,
              record {
                up = refl;
                device = (dev, refl);
                left = refl;
                right = refl;
                left_sends = sa;
                right_sends = sb;
                left_dest = da ∙ sym hm;
                right_dest = db ∙ sym hn;
                no_qp_peer = refl;
                no_cq_peer = refl;
                no_peer = refl;
              },
              rw (hn, hm) refl,
            ))
    ]

  setup_qp_b-Ended :
      (dev pd cq_a cq_b n : ℕ) (g : Got)
      → Ended log (
          setup_qp_b a dev pd cq_a cq_b n g (
            building port lid gid_index gid
              (some dev)
              (some pd)
              (some cq_a)
              (some cq_b)
              (some (new_qp n))
              none
              (map get (reverse (five dev pd cq_a cq_b n)) ++ log)))
  unfolding setup_qp_b err_destroy_qp_a err_destroy_cq_b err_destroy_cq_a err_dealloc_pd err_put_dev
  setup_qp_b-Ended dev pd cq_a cq_b n (failed e) =
      inr (e, five dev pd cq_a cq_b n, refl, refl, refl)
  setup_qp_b-Ended dev pd cq_a cq_b n (got m) =
      setup_end-Ended dev pd cq_a cq_b n m _ (loopback-Crossed a n m)

  setup_qp_a-Ended :
      (dev pd cq_a cq_b : ℕ) (g : Got)
      → Ended log (
          setup_qp_a a dev pd cq_a cq_b g (
            building port lid gid_index gid
              (some dev)
              (some pd)
              (some cq_a)
              (some cq_b)
              none
              none
              (map get (reverse (four dev pd cq_a cq_b)) ++ log)))
  unfolding setup_qp_a err_destroy_cq_b err_destroy_cq_a err_dealloc_pd err_put_dev
  setup_qp_a-Ended dev pd cq_a cq_b (failed e) = inr (e, four dev pd cq_a cq_b, refl, refl, refl)
  setup_qp_a-Ended dev pd cq_a cq_b (got n) = setup_qp_b-Ended dev pd cq_a cq_b n a.qp_b

  setup_cq_b-Ended :
      (dev pd cq_a : ℕ) (g : Got)
      → Ended log (
          setup_cq_b a dev pd cq_a g (
            building port lid gid_index gid
              (some dev)
              (some pd)
              (some cq_a)
              none
              none
              none
              (map get (reverse (three dev pd cq_a)) ++ log)))
  unfolding setup_cq_b err_destroy_cq_a err_dealloc_pd err_put_dev
  setup_cq_b-Ended dev pd cq_a (failed e) = inr (e, three dev pd cq_a, refl, refl, refl)
  setup_cq_b-Ended dev pd cq_a (got n) = setup_qp_a-Ended dev pd cq_a n a.qp_a

  setup_cq_a-Ended :
      (dev pd : ℕ) (g : Got)
      → Ended log (
          setup_cq_a a dev pd g (
            building port lid gid_index gid
              (some dev)
              (some pd)
              none
              none
              none
              none
              (get (object domain pd) ∷ get (object ib_device dev) ∷ log)))
  unfolding setup_cq_a err_dealloc_pd err_put_dev
  setup_cq_a-Ended dev pd (failed e) =
      inr (e, object ib_device dev ∷ object domain pd ∷ [], refl, refl, refl)
  setup_cq_a-Ended dev pd (got n) = setup_cq_b-Ended dev pd n a.cq_b

  setup_pd-Ended :
      (dev : ℕ) (g : Got)
      → Ended log (
          setup_pd a dev g (
            building port lid gid_index gid
              (some dev)
              none
              none
              none
              none
              none
              (get (object ib_device dev) ∷ log)))
  unfolding setup_pd err_put_dev
  setup_pd-Ended dev (failed e) = inr (e, object ib_device dev ∷ [], refl, refl, refl)
  setup_pd-Ended dev (got n) = setup_cq_a-Ended dev n a.cq_a

-- The steps before the objects, which change the numbers of the context
module _ (a : SetupAnswers) (port gid_index gid : ℕ) (log : List Event) (dev : ℕ) where
  setup_gid-Ended :
      (lid : ℕ) (g : GidFound)
      → Ended log (
          setup_gid a dev g (
            building port lid gid_index gid
              (some dev)
              none
              none
              none
              none
              none
              (get (object ib_device dev) ∷ log)))
  unfolding setup_gid err_put_dev
  setup_gid-Ended lid (no_gid e) = inr (e, object ib_device dev ∷ [], refl, refl, refl)
  setup_gid-Ended lid (found g i) = setup_pd-Ended a port lid i g log dev a.pd

  setup_port-Ended :
      (lid : ℕ) (o : Option Errno)
      → Ended log (
          setup_port a dev o (
            building port lid gid_index gid
              (some dev)
              none
              none
              none
              none
              none
              (get (object ib_device dev) ∷ log)))
  unfolding setup_port err_put_dev
  setup_port-Ended lid (some e) = inr (e, object ib_device dev ∷ [], refl, refl, refl)
  setup_port-Ended lid none = setup_gid-Ended a.port_lid (scan_gid_table a.gids)

setup_device-Ended :
    (a : SetupAnswers) (n port lid gid_index gid : ℕ) (log : List Event) (o : Option ℕ)
    → Ended log
        (setup_device a n o (building port lid gid_index gid none none none none none none log))
unfolding setup_device
setup_device-Ended a n port lid gid_index gid log none = inr (enodev, [], refl, refl, refl)
setup_device-Ended a n port lid gid_index gid log (some dev) =
    setup_port-Ended a (if n == 0 then 1 else n) gid_index gid log dev lid a.query_port

-- RDMA_SETUP of a context without objects is all or nothing: it returns 0 with both queue pairs
-- ready to send, each with the number of the other, and it has obtained exactly what the context
-- holds, in that order; or it returns an error, the context has no object, and what the call had
-- obtained until then has been given back in the reverse order. This is so whatever the verbs
-- answer.
pub setup-Ended :
    (a : SetupAnswers) (port : ℕ) (s : Engine) → Idle s.ctx → Ended s.log (setup a port s)
unfolding setup
setup-Ended a port s h =
    subst (λ c. Ended s.log (setup a port (record { ctx = c; log = s.log }))) (sym h)
      (setup_device-Ended a port s.ctx.port s.ctx.lid s.ctx.gid_index s.ctx.gid s.log a.device)
