-- ===== src/Rdma/Stays.antt =====
-- Which calls leave a context of driver/rdma_engine.c set up.
use dmaplane_master.Base.{◌≡◌, ◌≢◌, refl, ◌∙◌, sym, ap, inl, inr, true, none, some, Option-cases}
use mathlib.Core.Bool.{false≢true}
use dmaplane_master.Kernel.{Resource}
use dmaplane_master.Rdma.{Engine}
use dmaplane_master.Rdma.Peer.{init_peer, PeerAnswers, connect_peer, setup_copy, ioctl_setup_rdma}
use dmaplane_master.Rdma.Life.{teardown_peer_lem}
use dmaplane_master.Rdma.Calls.{
  setup_refused, init_peer_busy, init_peer-PeerEnd, connect_qp-Linkage,
}
use dmaplane_master.Rdma.Ledger.{
  Op, set_up, take_down, make_peer, link_peer, drop_peer, call, Kept, alone,
}

make_peer_stays :
    (x : Resource) (a : PeerAnswers) (s : Engine)
    → Kept x s
    → s.ctx.initialized ≡ true
    → (init_peer a s).1.ctx.initialized ≡ true
make_peer_stays x a s (inl h, l) u = absurd (false≢true (sym (ap (λ c. c.initialized) h) ∙ u))
make_peer_stays x a s (inr k, l) u = elim (Option-cases s.ctx.qp_peer) [
  | inr (q, h) ↦ ap (λ r. r.1.ctx.initialized) (init_peer_busy a s q u h) ∙ u
  | inl h ↦ elim (init_peer-PeerEnd a s k h) [
    | inl (n, m, e, g) ↦ ap (λ t. t.ctx.initialized) g ∙ u
    | inr (e, rs, g, i) ↦ ap (λ t. t.ctx.initialized) i ∙ u
  ]
]

-- A call other than a teardown does not take a context down.
pub stays_up :
    (x : Resource) (o : Op) (s : Engine)
    → o ≢ take_down
    → Kept x s
    → s.ctx.initialized ≡ true
    → (call o s).ctx.initialized ≡ true
unfolding call ioctl_setup_rdma setup_copy connect_peer
stays_up x (set_up a none copied) s n k u = u
stays_up x (set_up a (some port) copied) s n k u =
    ap (λ r. (setup_copy copied r).1.ctx.initialized) (setup_refused a port s u) ∙ u
stays_up x take_down s n k u = absurd (n refl)
stays_up x (make_peer a) s n k u = make_peer_stays x a s k u
stays_up x (link_peer a remote) s n k u = elim (connect_qp-Linkage a remote s s.ctx.qp_peer refl) [
  | inl e ↦ ap (λ t. t.ctx.initialized) e ∙ u
  | inr (q, r, b, h, m, e) ↦ ap (λ t. t.ctx.initialized) e ∙ u
]
stays_up x drop_peer s n k u =
    ap (λ t. t.ctx.initialized) (teardown_peer_lem s (alone x s.ctx k.0).1) ∙ u
