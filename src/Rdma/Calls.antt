-- ===== src/Rdma/Calls.antt =====
-- INIT_PEER and CONNECT_PEER, driver/rdma_engine.c.
use dmaplane_master.Base.{
  ℕ, ◌≡◌, refl, ◌⊎◌, inl, inr, sym, ap₂, subst, Bool, true, false, List, [], ◌∷◌, Option, none,
  some, Errno, Status, ok, err, einval, ebusy, efault, if◌then◌else◌,
}
use dmaplane_master.Kernel.{Resource, Event, get, object, completion_queue, queue_pair}
use dmaplane_master.Rdma.{
  Qp, Got, got, failed, new_qp, qp_to_init, qp_to_rtr, qp_to_rts, Context, Engine,
}
use dmaplane_master.Rdma.Setup.{SetupAnswers, setup}
use dmaplane_master.Rdma.Unwind.{unwinding}
use dmaplane_master.Rdma.Life.{Up}
use dmaplane_master.Rdma.Peer.{
  PeerAnswers, err_free_cq, err_destroy_qp, init_peer_attr, init_peer_modify, init_peer_qp,
  init_peer_cq, init_peer, init_peer_copy, ioctl_init_peer, ConnectAnswers, connect_rts,
  connect_rtr, connect_pair, connect_qp,
}

-- A context with a given peer that is not connected
abbrev pub with_peer : Context → Option ℕ → Option Qp → List Event → Engine
with_peer c cq q log = record {
  ctx = record c { cq_peer = cq; qp_peer = q; peer_connected = false };
  log = log;
}

abbrev pub PeerEnd : Context → List Event → Status × Engine → Type 0
PeerEnd c log r =
    ((n : ℕ) × (m : ℕ) × (r.0 ≡ ok)
      × (r.1
          ≡ with_peer c (some n) (some (qp_to_init (new_qp m)))
              (get (object queue_pair m) ∷ get (object completion_queue n) ∷ log)))
    ⊎ ((e : Errno) × (rs : List Resource) × (r.0 ≡ err e)
        × (r.1 ≡ with_peer c none none (unwinding rs log)))

module _ (a : PeerAnswers) (c : Context) (log : List Event) where
  init_peer_attr-PeerEnd :
      (n m : ℕ) (o : Option Errno)
      → PeerEnd c log (
          init_peer_attr n m o (
            with_peer c
              (some n)
              (some (qp_to_init (new_qp m)))
              (get (object queue_pair m) ∷ get (object completion_queue n) ∷ log)))
  unfolding init_peer_attr err_destroy_qp err_free_cq
  init_peer_attr-PeerEnd n m (some e) =
      inr (e, object completion_queue n ∷ object queue_pair m ∷ [], refl, refl)
  init_peer_attr-PeerEnd n m none = inl (n, m, refl, refl)

  init_peer_modify-PeerEnd :
      (n m : ℕ) (o : Option Errno)
      → PeerEnd c log (
          init_peer_modify a n m o (
            with_peer c
              (some n)
              (some (new_qp m))
              (get (object queue_pair m) ∷ get (object completion_queue n) ∷ log)))
  unfolding init_peer_modify err_destroy_qp err_free_cq
  init_peer_modify-PeerEnd n m (some e) =
      inr (e, object completion_queue n ∷ object queue_pair m ∷ [], refl, refl)
  init_peer_modify-PeerEnd n m none = init_peer_attr-PeerEnd n m a.gid_attr

  init_peer_qp-PeerEnd :
      (n : ℕ) (g : Got)
      → PeerEnd c log
          (init_peer_qp a n g (with_peer c (some n) none (get (object completion_queue n) ∷ log)))
  unfolding init_peer_qp err_free_cq
  init_peer_qp-PeerEnd n (failed e) = inr (e, object completion_queue n ∷ [], refl, refl)
  init_peer_qp-PeerEnd n (got m) = init_peer_modify-PeerEnd n m a.modify

  init_peer_cq-PeerEnd : (g : Got) → PeerEnd c log (init_peer_cq a g (with_peer c none none log))
  unfolding init_peer_cq
  init_peer_cq-PeerEnd (failed e) = inr (e, [], refl, refl)
  init_peer_cq-PeerEnd (got n) = init_peer_qp-PeerEnd n a.qp

-- Without a peer, a context has no peer fields.
pub bare_peer : (s : Engine) → Up s.ctx → s.ctx.qp_peer ≡ none → s ≡ with_peer s.ctx none none s.log
bare_peer s (u, v, w) h =
    let (a, b) = w h in
    ap₂
      (λ q (r : Option ℕ × Bool). record {
        ctx = record (s.ctx) { cq_peer = r.0; qp_peer = q; peer_connected = r.1 };
        log = s.log;
      })
      h (ap₂ (λ x y. (x, y)) a b)

init_peer_at :
    (a : PeerAnswers) (c : Context) (log : List Event)
    → c.initialized ≡ true
    → init_peer a (with_peer c none none log) ≡ init_peer_cq a a.cq (with_peer c none none log)
unfolding init_peer
init_peer_at a c log h = rw h refl

pub init_peer-PeerEnd :
    (a : PeerAnswers) (s : Engine)
    → Up s.ctx
    → s.ctx.qp_peer ≡ none
    → PeerEnd s.ctx s.log (init_peer a s)
init_peer-PeerEnd a s u h =
    subst (λ t. PeerEnd s.ctx s.log (init_peer a t)) (sym (bare_peer s u h))
      (subst (λ r. PeerEnd s.ctx s.log r) (sym (init_peer_at a s.ctx s.log u.0))
        (init_peer_cq-PeerEnd a s.ctx s.log a.cq))

-- How INIT_PEER ends, with its answer copied to user memory or not
abbrev pub PeerMade : (copied : Bool) → Context → List Event → Status × Engine → Type 0
PeerMade copied c log r =
    ((n : ℕ) × (m : ℕ) × (r.0 ≡ (if copied then ok else err efault))
      × (r.1
          ≡ with_peer c (some n) (some (qp_to_init (new_qp m)))
              (get (object queue_pair m) ∷ get (object completion_queue n) ∷ log)))
    ⊎ ((e : Errno) × (rs : List Resource) × (r.0 ≡ err e)
        × (r.1 ≡ with_peer c none none (unwinding rs log)))

copy-PeerMade :
    (copied : Bool) (c : Context) (log : List Event) (r : Status × Engine)
    → PeerEnd c log r
    → PeerMade copied c log (init_peer_copy copied r)
unfolding init_peer_copy
copy-PeerMade copied c log (err e, t) (inl (n, m, h, k)) = cc
copy-PeerMade true c log (ok, t) (inl (n, m, h, k)) = inl (n, m, refl, k)
copy-PeerMade false c log (ok, t) (inl (n, m, h, k)) = inl (n, m, refl, k)
copy-PeerMade copied c log (err e, t) (inr (x, rs, h, k)) = inr (x, rs, h, k)
copy-PeerMade copied c log (ok, t) (inr (x, rs, h, k)) = cc

-- INIT_PEER of a context that is set up and has no peer ends in one of two ways. Either the context has
-- gained a completion queue and a queue pair in the initial state and is otherwise unchanged: the call
-- then returns 0 where its answer is copied to user memory, and -EFAULT where it is not, and the pair
-- stays. Or the creation of the pair has failed: the call returns its error, the context is unchanged,
-- and what the call had obtained has been given back in the reverse order.
pub ioctl_init_peer-PeerMade :
    (a : PeerAnswers) (copied : Bool) (s : Engine)
    → Up s.ctx
    → s.ctx.qp_peer ≡ none
    → PeerMade copied s.ctx s.log (ioctl_init_peer a copied s)
unfolding ioctl_init_peer
ioctl_init_peer-PeerMade a copied s u h =
    copy-PeerMade copied s.ctx s.log (init_peer a s) (init_peer-PeerEnd a s u h)

pub setup_refused :
    (a : SetupAnswers) (port : ℕ) (s : Engine)
    → s.ctx.initialized ≡ true
    → setup a port s ≡ (err ebusy, s)
unfolding setup
setup_refused a port s u = simp u

pub init_peer_idle :
    (a : PeerAnswers) (s : Engine) → s.ctx.initialized ≡ false → init_peer a s ≡ (err einval, s)
unfolding init_peer
init_peer_idle a s u = simp u

pub init_peer_busy :
    (a : PeerAnswers) (s : Engine) (q : Qp)
    → s.ctx.initialized ≡ true
    → s.ctx.qp_peer ≡ some q
    → init_peer a s ≡ (err ebusy, s)
unfolding init_peer
init_peer_busy a s q u h = simp (u, h)

-- What CONNECT_PEER may change: the state of the peer pair, not its number
abbrev pub Linkage : Engine → Engine → Type 0
Linkage s t =
    (t ≡ s)
    ⊎ ((q : Qp) × (r : Qp) × (b : Bool) × (s.ctx.qp_peer ≡ some q)
        × (r.qp_num ≡ q.qp_num)
        × (t ≡ record {
          ctx = record (s.ctx) { qp_peer = some r; peer_connected = b };
          log = s.log;
        }))

module _ (a : ConnectAnswers) (remote : ℕ) (s : Engine) where
  connect_rts-Linkage :
      (q r : Qp) (o : Option Errno)
      → s.ctx.qp_peer ≡ some q
      → r.qp_num ≡ q.qp_num
      → Linkage s (connect_rts r o s).1
  unfolding connect_rts
  connect_rts-Linkage q r (some e) h k = inr (q, r, s.ctx.peer_connected, h, k, refl)
  connect_rts-Linkage q r none h k = inr (q, qp_to_rts r, true, h, k, refl)

  connect_rtr-Linkage :
      (q : Qp) (o : Option Errno)
      → s.ctx.qp_peer ≡ some q
      → Linkage s (connect_rtr a remote q o s).1
  unfolding connect_rtr
  connect_rtr-Linkage q (some e) h = inl refl
  connect_rtr-Linkage q none h = connect_rts-Linkage q (qp_to_rtr remote q) a.to_rts h refl

  connect_pair-Linkage :
      (q : Qp) (o : Option Errno)
      → s.ctx.qp_peer ≡ some q
      → Linkage s (connect_pair a remote o q s).1
  unfolding connect_pair
  connect_pair-Linkage q (some e) h = inl refl
  connect_pair-Linkage q none h = connect_rtr-Linkage q a.to_rtr h

  pub connect_qp-Linkage :
      (o : Option Qp) → s.ctx.qp_peer ≡ o → Linkage s (connect_qp a remote o s).1
  unfolding connect_qp
  connect_qp-Linkage none h = inl refl
  connect_qp-Linkage (some q) h = connect_pair-Linkage q a.gid_attr h
