-- ===== src/Rdma/Life.antt =====
-- Any sequence of the calls that build up and take down an RDMA context, from an idle one.
use dmaplane_master.Base.{
  if◌then◌else◌, ℕ, ◌≡◌, refl, ◌⊎◌, inl, inr, ◌∙◌, sym, ap, subst, Bool, true, false, List, [],
  ◌++◌, map, map-append, append_assoc, Option, none, some, not,
}
use dmaplane_master.Kernel.{Event, put, ib_device, domain, completion_queue}
use dmaplane_master.Rdma.{Qp, Context, Engine, holdings, one, pair}
use dmaplane_master.Rdma.Unwind.{Idle, building}
use dmaplane_master.Rdma.Peer.{
  teardown_peer, teardown, fail_qp, drop_ib_dev, drop_pd, drop_cq_a, drop_cq_b, drop_qp_a,
  drop_qp_b, flush_pairs,
}

-- Without a peer pair there is nothing else of a peer.
abbrev pub PeerWhole : Option Qp → Option ℕ → Bool → Type 0
PeerWhole q cq connected = q ≡ none → (cq ≡ none) × (connected ≡ false)

abbrev pub Up : Context → Type 0
Up c =
    (c.initialized ≡ true)
    × ((d : ℕ) × (c.ib_dev ≡ some d))
    × PeerWhole c.qp_peer c.cq_peer c.peer_connected

abbrev pub Sound : Context → Type 0
Sound c = Idle c ⊎ Up c

-- The context after its peer is gone
abbrev pub without_peer : Context → Context
without_peer c = record c { qp_peer = none; cq_peer = none; peer_connected = false }

teardown_peer_at :
    (c : Context) (q : Option Qp) (cq : Option ℕ) (connected : Bool) (log : List Event)
    → PeerWhole q cq connected
    → teardown_peer (record {
      ctx = record c { qp_peer = q; cq_peer = cq; peer_connected = connected };
      log = log;
    })
      ≡ record {
        ctx = without_peer c;
        log = map put (one completion_queue cq) ++ (map put (pair q) ++ log);
      }
unfolding teardown_peer
teardown_peer_at c none none false log w = refl
teardown_peer_at c none none true log w = let (a, b) = w refl in cc
teardown_peer_at c none (some n) connected log w = let (a, b) = w refl in cc
teardown_peer_at c (some q) cq true log w = refl
teardown_peer_at c (some q) cq false log w = refl

pub teardown_peer_lem :
    (s : Engine)
    → PeerWhole s.ctx.qp_peer s.ctx.cq_peer s.ctx.peer_connected
    → teardown_peer s ≡ record {
      ctx = without_peer s.ctx;
      log = map put (one completion_queue s.ctx.cq_peer) ++ (map put (pair s.ctx.qp_peer) ++ s.log);
    }
teardown_peer_lem s w =
    teardown_peer_at s.ctx s.ctx.qp_peer s.ctx.cq_peer s.ctx.peer_connected s.log w

pair-fail_qp : (q : Option Qp) → pair (fail_qp q) ≡ pair q
pair-fail_qp none = refl
pair-fail_qp (some q) = refl

-- What a context holds, given back: the latest first
abbrev returned : Context → List Event → List Event
returned c log =
    map put (one ib_device c.ib_dev)
    ++ (map put (one domain c.pd)
        ++ (map put (one completion_queue c.cq_a)
            ++ (map put (one completion_queue c.cq_b)
                ++ (map put (pair c.qp_a)
                    ++ (map put (pair c.qp_b)
                        ++ (map put (one completion_queue c.cq_peer)
                            ++ (map put (pair c.qp_peer) ++ log)))))))

returned_lem : (c : Context) (log : List Event) → returned c log ≡ map put (holdings c) ++ log
returned_lem c log = simp (map-append, append_assoc)

-- What `rdma_engine_teardown` does after the peer is gone
abbrev take_down : Engine → Engine
take_down s =
    let t = drop_ib_dev (drop_pd (drop_cq_a (drop_cq_b (drop_qp_a (drop_qp_b (flush_pairs s)))))) in
    record t { ctx = record (t.ctx) { initialized = false } }

if_not : (s t : Engine) (b : Bool) → b ≡ true → (if not b then s else t) ≡ t
if_not s t true h = refl
if_not s t false h = cc

take_down_lem :
    (s : Engine)
    → take_down (record {
      ctx = without_peer s.ctx;
      log = map put (one completion_queue s.ctx.cq_peer) ++ (map put (pair s.ctx.qp_peer) ++ s.log);
    })
      ≡ record {
        ctx =
            (building s.ctx.port s.ctx.lid s.ctx.gid_index s.ctx.gid none none none none none none
              []).ctx;
        log = returned s.ctx s.log;
      }
take_down_lem s = rw (pair-fail_qp s.ctx.qp_b, pair-fail_qp s.ctx.qp_a) refl

teardown_is :
    (s : Engine)
    → Up s.ctx
    → teardown s ≡ record {
      ctx =
          (building s.ctx.port s.ctx.lid s.ctx.gid_index s.ctx.gid none none none none none none
            []).ctx;
      log = returned s.ctx s.log;
    }
unfolding teardown
teardown_is s (u, v, w) =
    if_not s (take_down (teardown_peer s)) s.ctx.initialized u
    ∙ ap take_down (teardown_peer_lem s w)
    ∙ take_down_lem s

teardown_unset : (s : Engine) → Idle s.ctx → teardown s ≡ s
unfolding teardown
teardown_unset s h =
    subst (λ c. teardown (record { ctx = c; log = s.log }) ≡ record { ctx = c; log = s.log })
      (sym h) refl

pub holdings_of_Idle : (c : Context) → Idle c → holdings c ≡ []
holdings_of_Idle c h = ap holdings h

-- TEARDOWN_RDMA of a context that a sequence of calls has led to gives back every object that the
-- context holds, the peer's included, in the reverse of the order in which they were obtained, and
-- nothing else; it leaves a context without objects, so that setting up may begin again.
pub teardown-Idle :
    (s : Engine)
    → Sound s.ctx
    → Idle (teardown s).ctx × ((teardown s).log ≡ map put (holdings s.ctx) ++ s.log)
teardown-Idle s (inl h) =
    let e = teardown_unset s h in
    (
      subst (λ t. Idle t.ctx) (sym e) h,
      ap (λ t. t.log) e ∙ ap (λ xs. map put xs ++ s.log) (sym (holdings_of_Idle s.ctx h)),
    )
teardown-Idle s (inr u) =
    let e = teardown_is s u in
    (subst (λ t. Idle t.ctx) (sym e) refl, ap (λ t. t.log) e ∙ returned_lem s.ctx s.log)
