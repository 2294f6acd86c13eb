-- ===== src/Region/World.antt =====
-- The memory regions together with the context that they belong to, driver/rdma_engine.c: any
-- sequence of the calls on both.
use dmaplane_master.Rdma.Ledger.{
  Op, set_up, take_down, make_peer, link_peer, drop_peer, call, Kept, call-Kept, fresh_engine,
  none_held,
}
use dmaplane_master.Rdma.{Engine, Context}
use dmaplane_master.Region.Register.{MrAnswers, MrParams, Reply, register_mr, buffer_of}
use dmaplane_master.Region.{max_mrs, empty_regions, zero_mr, Regions}
use dmaplane_master.Region.Deregister.{
  ioctl_register_mr, ioctl_deregister_mr, ioctl_teardown_rdma, register_end, sweep,
}
use dmaplane_master.Buffer.{Store, Buffer}
use dmaplane_master.Region.Keys.{register_mr_lem, RegisterEnd}
use mathlib.Core.Bool.{false≢true}
use dmaplane_master.Rdma.Stays.{stays_up}
use dmaplane_master.Region.Sweep.{Clear, sweep_all, deregister_keeps, sweep-Clear, deregister-Clear}
use dmaplane_master.Kernel.{Resource, count, gets, puts}
use dmaplane_master.Rdma.Life.{Sound}
use dmaplane_master.Rdma.Peer.{teardown}
use dmaplane_master.Region.Balance.{mr_weight, mr_held, Owes, register_mr-Owes}
use dmaplane_master.Base.{
  total-zero, ◌≡◌, refl, ◌∙◌, sym, ap, subst, inl, inr, true, false, Bool-cases, length, length-set,
  get-replicate, total-replicate, arith, none, some, Bool, ◌≢◌, ok, err, einval, ◌∷◌, ℕ, List, [],
  Option,
}

-- The adapter's context and its regions
pub record World : Type 0 where
  pub engine : Engine
  pub regions : Regions

abbrev pub fresh_world : World
fresh_world = record { engine = fresh_engine; regions = empty_regions }

-- The calls on both. A TEARDOWN_RDMA first deregisters every region.
pub data Step : Type 0 where
  context : Op → Step
  register : MrAnswers → Store → Option MrParams → (copied : Bool) → Step
  deregister : Option ℕ → Step

pub step_context : Op → World → World
step_context take_down w =
    let (e, r) = ioctl_teardown_rdma w.engine w.regions in record { engine = e; regions = r }
step_context o w = record w { engine = call o w.engine }

pub step : Step → World → World
step (context o) w = step_context o w
step (register a s p copied) w = record w {
  regions = (ioctl_register_mr a w.engine.ctx s p copied w.regions).1;
}
step (deregister i) w = record w { regions = (ioctl_deregister_mr w.engine.ctx i w.regions).1 }

pub steps : List Step → World → World
steps [] w = w
steps (o ∷ os) w = steps os (step o w)

length-reply :
    {a : MrAnswers} (p : MrParams) (o : Option Buffer) (r : Regions) (q : Reply)
    → RegisterEnd a p o r q
    → length q.2.mrs ≡ length r.mrs
length-reply p o r q (inl (b, v, e, g, h, z)) = ap length z.table.0 ∙ length-set r.mrs z.slot _
length-reply p o r q (inr (e, z, h, t)) = ap (λ u. length u.0) t

register_idle :
    (a : MrAnswers) (c : Context) (s : Store) (p : MrParams) (r : Regions)
    → c.initialized ≡ false
    → register_mr a c s p r ≡ (err einval, p, r)
unfolding register_mr
register_idle a c s p r h = simp h

module _ (x : Resource) where
  -- What a call on the regions keeps
  abbrev pub TableKept : Regions → Type 0
  TableKept r = Owes x [] r × (length r.mrs ≡ max_mrs)

  register_end-keeps :
      (c : Context) (d : ℕ) (copied : Bool) (q : Reply)
      → c.ib_dev ≡ some d
      → TableKept q.2
      → TableKept (register_end c copied q).1
  unfolding register_end
  register_end-keeps c d copied (err e, p, r) dev k = k
  register_end-keeps c d true (ok, p, r) dev k = k
  register_end-keeps c d false (ok, p, r) dev (h, l) =
      let (a, b) = deregister_keeps c d dev x p.mr_id r h in (a, b ∙ l)

  ioctl_register-keeps :
      (a : MrAnswers) (c : Context) (d : ℕ) (s : Store) (p : Option MrParams) (copied : Bool)
      (r : Regions)
      → c.ib_dev ≡ some d
      → TableKept r
      → TableKept (ioctl_register_mr a c s p copied r).1
  unfolding ioctl_register_mr
  ioctl_register-keeps a c d s none copied r dev k = k
  ioctl_register-keeps a c d s (some p) copied r dev (h, l) =
      register_end-keeps c d copied (register_mr a c s p r) dev (
        register_mr-Owes x a p c s r h,
        length-reply p (buffer_of s p.buf_id) r (register_mr a c s p r) (register_mr_lem a c s p r)
            ∙ l,
      )

  ioctl_register-idle :
      (a : MrAnswers) (c : Context) (s : Store) (p : Option MrParams) (copied : Bool) (r : Regions)
      → c.initialized ≡ false
      → (ioctl_register_mr a c s p copied r).1 ≡ r
  unfolding ioctl_register_mr register_end
  ioctl_register-idle a c s none copied r h = refl
  ioctl_register-idle a c s (some p) copied r h =
      ap (λ q. (register_end c copied q).1) (register_idle a c s p r h)

  ioctl_deregister-keeps :
      (c : Context) (d : ℕ) (i : Option ℕ) (r : Regions)
      → c.ib_dev ≡ some d
      → TableKept r
      → TableKept (ioctl_deregister_mr c i r).1
  unfolding ioctl_deregister_mr
  ioctl_deregister-keeps c d none r dev k = k
  ioctl_deregister-keeps c d (some i) r dev (h, l) =
      let (a, b) = deregister_keeps c d dev x i r h in (a, b ∙ l)

  ioctl_deregister-idle :
      (c : Context) (i : Option ℕ) (r : Regions) → Clear r → (ioctl_deregister_mr c i r).1 ≡ r
  unfolding ioctl_deregister_mr
  ioctl_deregister-idle c none r k = refl
  ioctl_deregister-idle c (some i) r k = deregister-Clear c i r k

  -- A state that a call may start from or leave: of a context that is not set up no region is left.
  abbrev pub Whole : World → Type 0
  Whole w =
      Kept x w.engine × TableKept w.regions × (w.engine.ctx.initialized ≡ false → Clear w.regions)

  -- A context that is set up has an adapter.
  device_of : (c : Context) → Sound c → c.initialized ≡ true → (d : ℕ) × (c.ib_dev ≡ some d)
  device_of c (inl h) u = absurd (false≢true (sym (ap (λ z. z.initialized) h) ∙ u))
  device_of c (inr (u', v, w)) u = v

  on_regions :
      (w : World) (t : Regions)
      → Whole w
      → ((d : ℕ) → w.engine.ctx.ib_dev ≡ some d → TableKept w.regions → TableKept t)
      → (w.engine.ctx.initialized ≡ false → t ≡ w.regions)
      → Whole (record w { regions = t })
  on_regions w t (k, r, c) up idle = elim (Bool-cases w.engine.ctx.initialized) [
    | inl u ↦
        let (d, dev) = device_of w.engine.ctx k.0 u in
        (k, up d dev r, λ z. absurd (false≢true (sym z ∙ u)))
    | inr n ↦ (k, subst TableKept (sym (idle n)) r, λ z. subst Clear (sym (idle n)) (c z))
  ]

  other-Whole :
      (o : Op) (w : World) → o ≢ take_down → Whole w → Whole (record w { engine = call o w.engine })
  other-Whole o w n (k, r, c) = (
    call-Kept x o w.engine k,
    r,
    λ z. elim (Bool-cases w.engine.ctx.initialized) [
      | inl u ↦ absurd (false≢true (sym z ∙ stays_up x o w.engine n k u))
      | inr f ↦ c f
    ],
  )

  pub teardown-Whole :
      (w : World)
      → Whole w
      → Whole
          (record { engine = teardown w.engine; regions = sweep w.engine.ctx max_mrs 0 w.regions })
  unfolding call
  teardown-Whole w (k, (h, l), c) = elim (Bool-cases w.engine.ctx.initialized) [
    | inl u ↦
        let (d, dev) = device_of w.engine.ctx k.0 u in
        let (a, b, m) = sweep_all w.engine.ctx d dev x w.regions h l in
        (call-Kept x take_down w.engine k, (b, m), λ z. a)
    | inr f ↦
        let e = sweep-Clear w.engine.ctx max_mrs 0 w.regions (c f) in
        (
          call-Kept x take_down w.engine k,
          subst TableKept (sym e) (h, l),
          λ z. subst Clear (sym e) (c f),
        )
  ]

  step-Whole : (o : Step) (w : World) → Whole w → Whole (step o w)
  unfolding step step_context ioctl_teardown_rdma
  step-Whole (context take_down) w k = teardown-Whole w k
  step-Whole (context (set_up a p q)) w k = other-Whole (set_up a p q) w (λ e. cc) k
  step-Whole (context (make_peer a)) w k = other-Whole (make_peer a) w (λ e. cc) k
  step-Whole (context (link_peer a n)) w k = other-Whole (link_peer a n) w (λ e. cc) k
  step-Whole (context drop_peer) w k = other-Whole drop_peer w (λ e. cc) k
  step-Whole (register a s p q) w k =
      on_regions w _ k (λ d dev t. ioctl_register-keeps a w.engine.ctx d s p q w.regions dev t)
        (ioctl_register-idle a w.engine.ctx s p q w.regions)
  step-Whole (deregister i) w k =
      on_regions w _ k (λ d dev t. ioctl_deregister-keeps w.engine.ctx d i w.regions dev t)
        (λ z. ioctl_deregister-idle w.engine.ctx i w.regions (k.2 z))

  pub steps-Whole : (os : List Step) (w : World) → Whole w → Whole (steps os w)
  unfolding steps
  steps-Whole [] w k = k
  steps-Whole (o ∷ os) w k = steps-Whole os (step o w) (step-Whole o w k)

  held_of_Clear : (r : Regions) → Clear r → mr_held x r ≡ 0
  held_of_Clear r k = total-zero (mr_weight x) r.mrs (λ i e g. simp (k i e g))

  pub fresh-Whole : Whole fresh_world
  unfolding gets puts count
  fresh-Whole = (
    (inl refl, refl),
    (omega (arith, total-replicate (mr_weight x) max_mrs zero_mr refl), refl),
    λ z i e g. sym (ap (λ f. f.in_use) (get-replicate max_mrs i zero_mr e g)),
  )

  -- Where the context is not set up, everything has been given back.
  pub down_conserves :
      (w : World)
      → Whole w
      → w.engine.ctx.initialized ≡ false
      → (gets x w.engine.log ≡ puts x w.engine.log) × (gets x w.regions.log ≡ puts x w.regions.log)
  unfolding count
  down_conserves w ((k, e), (h, l), c) z = (
    omega (arith, e, none_held x w.engine.ctx k z),
    omega (arith, h, held_of_Clear w.regions (c z)),
  )
