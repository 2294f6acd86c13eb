-- ===== src/Rdma/Ledger.antt =====
-- What a context of driver/rdma_engine.c holds, against what has been obtained and given back
use dmaplane_master.Base.{
  ℕ, ◌+◌, ◌≡◌, refl, inl, inr, ◌∙◌, sym, ap, subst, Bool, true, false, List, [], ◌∷◌, ◌++◌, map,
  reverse, append_assoc, Option, none, some, Status, ok, err, arith, Option-cases,
}
use mathlib.Core.Bool.{false≢true}
use dmaplane_master.Kernel.{
  Resource, Event, get, put, object, ib_device, domain, completion_queue, queue_pair, count, gets,
  puts,
}
use dmaplane_master.Kernel.Balance.{
  count-append, count-reverse, gets-append, puts-append, gets-get, gets-put, puts-get, puts-put,
}
use dmaplane_master.Rdma.{
  Qp, new_qp, qp_to_init, Context, Engine, idle_context, holdings, one, pair,
}
use dmaplane_master.Rdma.Setup.{SetupAnswers, setup}
use dmaplane_master.Rdma.Unwind.{Idle, unwinding, setup-Ended}
use dmaplane_master.Rdma.Life.{
  Up, Sound, PeerWhole, teardown-Idle, teardown_peer_lem, without_peer, holdings_of_Idle,
}
use dmaplane_master.Rdma.Peer.{
  teardown_peer, teardown, PeerAnswers, init_peer, ConnectAnswers, connect_peer, setup_copy,
  ioctl_setup_rdma,
}
use dmaplane_master.Rdma.Calls.{
  with_peer, bare_peer, setup_refused, init_peer_idle, init_peer_busy, init_peer-PeerEnd,
  connect_qp-Linkage,
}

-- Resources of a context, without the peer's
abbrev own : Context → List Resource
own c =
    one ib_device c.ib_dev
    ++ one domain c.pd
    ++ one completion_queue c.cq_a
    ++ one completion_queue c.cq_b
    ++ pair c.qp_a
    ++ pair c.qp_b

module _ (x : Resource) where
  count-holdings :
      (c : Context)
      → count x (holdings c)
        ≡ count x (own c) + (count x (one completion_queue c.cq_peer) + count x (pair c.qp_peer))
  count-holdings c =
      let split : holdings c ≡ own c ++ (one completion_queue c.cq_peer ++ pair c.qp_peer) =
        simp (append_assoc) in
      ap (count x) split
      ∙ omega (
        arith,
        count-append x (own c) (one completion_queue c.cq_peer ++ pair c.qp_peer),
        count-append x (one completion_queue c.cq_peer) (pair c.qp_peer),
      )

  abbrev Ledger : Engine → Type 0
  Ledger s = gets x s.log ≡ puts x s.log + count x (holdings s.ctx)

  gets-unwinding :
      (rs : List Resource) (log : List Event) → gets x (unwinding rs log) ≡ count x rs + gets x log
  gets-unwinding rs log = omega (
    arith,
    gets-append x (map put rs) (map get (reverse rs) ++ log),
    gets-append x (map get (reverse rs)) log,
    gets-put x rs,
    gets-get x (reverse rs),
    count-reverse x rs,
  )

  puts-unwinding :
      (rs : List Resource) (log : List Event) → puts x (unwinding rs log) ≡ count x rs + puts x log
  puts-unwinding rs log = omega (
    arith,
    puts-append x (map put rs) (map get (reverse rs) ++ log),
    puts-append x (map get (reverse rs)) log,
    puts-put x rs,
    puts-get x (reverse rs),
  )

  count_of_Idle : (c : Context) → Idle c → count x (holdings c) ≡ 0
  unfolding count
  count_of_Idle c h = ap (count x) (holdings_of_Idle c h)

  pub none_held : (c : Context) → Sound c → c.initialized ≡ false → count x (holdings c) ≡ 0
  none_held c (inl h) e = count_of_Idle c h
  none_held c (inr (u, v, w)) e = absurd (false≢true (sym e ∙ u))

  -- A state that a call may start from or leave
  abbrev pub Kept : Engine → Type 0
  Kept s = Sound s.ctx × Ledger s

  teardown-Kept : (s : Engine) → Kept s → Kept (teardown s)
  teardown-Kept s (k, l) =
      let (idle, e) = teardown-Idle s k in
      (
        inl idle,
        omega (
          arith,
          ap (gets x) e,
          ap (puts x) e,
          gets-append x (map put (holdings s.ctx)) s.log,
          puts-append x (map put (holdings s.ctx)) s.log,
          gets-put x (holdings s.ctx),
          puts-put x (holdings s.ctx),
          count_of_Idle (teardown s).ctx idle,
          l,
        ),
      )

  -- A call that failed, and gave back what it had obtained
  undone-Ledger :
      (s t : Engine) (rs : List Resource)
      → Ledger s
      → t.log ≡ unwinding rs s.log
      → count x (holdings t.ctx) ≡ count x (holdings s.ctx)
      → Ledger t
  undone-Ledger s t rs l e h =
      omega (
        arith,
        ap (gets x) e,
        ap (puts x) e,
        gets-unwinding rs s.log,
        puts-unwinding rs s.log,
        h,
        l,
      )

  setup-Kept : (a : SetupAnswers) (port : ℕ) (s : Engine) → Kept s → Kept (setup a port s).1
  setup-Kept a port s (inr (u, v, w), l) =
      subst (λ r. Kept r.1) (sym (setup_refused a port s u)) (inr (u, v, w), l)
  setup-Kept a port s (inl h, l) = elim (setup-Ended a port s h) [
    | inl (q, r, e, k, g) ↦ (
      inr (k.up, k.device, λ z. (k.no_cq_peer, k.no_peer)),
      let c = (setup a port s).1.ctx in
          omega (
            arith,
            ap (gets x) g,
            ap (puts x) g,
            gets-append x (map get (reverse (holdings c))) s.log,
            puts-append x (map get (reverse (holdings c))) s.log,
            gets-get x (reverse (holdings c)),
            puts-get x (reverse (holdings c)),
            count-reverse x (holdings c),
            count_of_Idle s.ctx h,
            l,
          ),
    )
    | inr (e, rs, g, i, m) ↦ (
      inl i,
      undone-Ledger s (setup a port s).1 rs l m
          (count_of_Idle (setup a port s).1.ctx i ∙ sym (count_of_Idle s.ctx h)),
    )
  ]

  setup_copy-Kept : (copied : Bool) (r : Status × Engine) → Kept r.1 → Kept (setup_copy copied r).1
  unfolding setup_copy
  setup_copy-Kept copied (err e, s) k = k
  setup_copy-Kept true (ok, s) k = k
  setup_copy-Kept false (ok, s) k = teardown-Kept s k

  ioctl_setup_rdma-Kept :
      (a : SetupAnswers) (port : Option ℕ) (copied : Bool) (s : Engine)
      → Kept s
      → Kept (ioctl_setup_rdma a port copied s).1
  unfolding ioctl_setup_rdma
  ioctl_setup_rdma-Kept a none copied s k = k
  ioctl_setup_rdma-Kept a (some port) copied s k =
      setup_copy-Kept copied (setup a port s) (setup-Kept a port s k)

  bare :
      (s : Engine)
      → Up s.ctx
      → s.ctx.qp_peer ≡ none
      → count x (holdings (with_peer s.ctx none none s.log).ctx) ≡ count x (holdings s.ctx)
  bare s u h = ap (λ t. count x (holdings t.ctx)) (sym (bare_peer s u h))

  init_peer-Kept : (a : PeerAnswers) (s : Engine) → Kept s → Kept (init_peer a s).1
  unfolding gets puts count
  init_peer-Kept a s (inl h, l) =
      subst (λ r. Kept r.1) (sym (init_peer_idle a s (ap (λ c. c.initialized) h))) (inl h, l)
  init_peer-Kept a s (inr (u, v, w), l) = elim (Option-cases s.ctx.qp_peer) [
    | inr (q, h) ↦ subst (λ r. Kept r.1) (sym (init_peer_busy a s q u h)) (inr (u, v, w), l)
    | inl h ↦ elim (init_peer-PeerEnd a s (u, v, w) h) [
      | inl (n, m, e, g) ↦ subst Kept (sym g) (
        inr (u, v, λ z. cc),
        omega (
          arith,
          count-holdings (with_peer s.ctx (some n) (some (qp_to_init (new_qp m))) s.log).ctx,
          count-holdings (with_peer s.ctx none none s.log).ctx,
          bare s (u, v, w) h,
          l,
        ),
      )
      | inr (e, rs, g, i) ↦ subst Kept (sym i) (
        inr (u, v, λ z. (refl, refl)),
        undone-Ledger s (with_peer s.ctx none none (unwinding rs s.log)) rs l refl
            (bare s (u, v, w) h),
      )
    ]
  ]

  relinked :
      (s : Engine) (q r : Qp) (b : Bool)
      → Sound s.ctx
      → s.ctx.qp_peer ≡ some q
      → r.qp_num ≡ q.qp_num
      → Sound (record (s.ctx) { qp_peer = some r; peer_connected = b })
  relinked s q r b (inl h) e n = let z = ap (λ c. c.qp_peer) h in cc
  relinked s q r b (inr (u, v, w)) e n = inr (u, v, λ z. cc)

  connect_peer-Kept :
      (a : ConnectAnswers) (remote : ℕ) (s : Engine) → Kept s → Kept (connect_peer a remote s).1
  unfolding connect_peer
  connect_peer-Kept a remote s (k, l) = elim (connect_qp-Linkage a remote s s.ctx.qp_peer refl) [
    | inl e ↦ subst Kept (sym e) (k, l)
    | inr (q, r, b, h, n, e) ↦ subst Kept (sym e) (
      relinked s q r b k h n,
      omega (
        arith,
        count-holdings s.ctx,
        count-holdings (record (s.ctx) { qp_peer = some r; peer_connected = b }),
        ap (λ o. count x (pair o)) h,
        ap (λ i. count x (object queue_pair i ∷ [])) n,
        l,
      ),
    )
  ]

  pub alone :
      (c : Context)
      → Sound c
      → Sound (without_peer c) × PeerWhole c.qp_peer c.cq_peer c.peer_connected
  alone c (inl h) =
      (inl (ap without_peer h), λ z. (ap (λ d. d.cq_peer) h, ap (λ d. d.peer_connected) h))
  alone c (inr (u, v, w)) = (inr (u, v, λ z. (refl, refl)), w)

  teardown_peer-Kept : (s : Engine) → Kept s → Kept (teardown_peer s)
  unfolding count
  teardown_peer-Kept s (k, l) =
      let (c, w) = alone s.ctx k in
      subst Kept (sym (teardown_peer_lem s w)) (
        c,
        omega (
          arith,
          gets-append x (map put (one completion_queue s.ctx.cq_peer))
              (map put (pair s.ctx.qp_peer) ++ s.log),
          puts-append x (map put (one completion_queue s.ctx.cq_peer))
              (map put (pair s.ctx.qp_peer) ++ s.log),
          gets-append x (map put (pair s.ctx.qp_peer)) s.log,
          puts-append x (map put (pair s.ctx.qp_peer)) s.log,
          gets-put x (one completion_queue s.ctx.cq_peer),
          puts-put x (one completion_queue s.ctx.cq_peer),
          gets-put x (pair s.ctx.qp_peer),
          puts-put x (pair s.ctx.qp_peer),
          count-holdings s.ctx,
          count-holdings (without_peer s.ctx),
          l,
        ),
      )

-- The calls on a context. A SETUP_RDMA whose answer cannot be copied out is undone.
pub data Op : Type 0 where
  set_up : SetupAnswers → Option ℕ → (copied : Bool) → Op
  take_down : Op
  make_peer : PeerAnswers → Op
  link_peer : ConnectAnswers → (remote : ℕ) → Op
  drop_peer : Op

unfoldable pub call : Op → Engine → Engine
call (set_up a port copied) s = (ioctl_setup_rdma a port copied s).1
call take_down s = teardown s
call (make_peer a) s = (init_peer a s).1
call (link_peer a remote) s = (connect_peer a remote s).1
call drop_peer s = teardown_peer s

pub calls : List Op → Engine → Engine
calls [] s = s
calls (o ∷ os) s = calls os (call o s)

pub call-Kept : (x : Resource) (o : Op) (s : Engine) → Kept x s → Kept x (call o s)
unfolding call
call-Kept x (set_up a port copied) s k = ioctl_setup_rdma-Kept x a port copied s k
call-Kept x take_down s k = teardown-Kept x s k
call-Kept x (make_peer a) s k = init_peer-Kept x a s k
call-Kept x (link_peer a remote) s k = connect_peer-Kept x a remote s k
call-Kept x drop_peer s k = teardown_peer-Kept x s k

calls-Kept : (x : Resource) (os : List Op) (s : Engine) → Kept x s → Kept x (calls os s)
unfolding calls
calls-Kept x [] s k = k
calls-Kept x (o ∷ os) s k = calls-Kept x os (call o s) (call-Kept x o s k)

abbrev pub fresh_engine : Engine
fresh_engine = record { ctx = idle_context; log = [] }

-- After any sequence of SETUP_RDMA, TEARDOWN_RDMA, INIT_PEER, CONNECT_PEER and DESTROY_PEER, each run
-- to its end and with failures of any kind, of every object of the adapter: what has been obtained is
-- as much as has been given back and the context holds; and a context that is not set up holds none,
-- so that then everything has been given back.
pub calls_conserve :
    (os : List Op) (x : Resource)
    → let s = calls os fresh_engine in
      (gets x s.log ≡ puts x s.log + count x (holdings s.ctx))
      × (s.ctx.initialized ≡ false → gets x s.log ≡ puts x s.log)
unfolding puts gets count
calls_conserve os x =
    let (k, l) = calls-Kept x os fresh_engine (inl refl, refl) in
    (l, λ h. omega (arith, l, none_held x (calls os fresh_engine).ctx k h))
