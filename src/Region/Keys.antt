-- ===== src/Region/Keys.antt =====
-- How a call of `rdma_engine_register_mr`, driver/rdma_engine.c, ends: its entry and its keys.
use dmaplane_master.Buffer.{Buffer, Store}
use dmaplane_master.Rdma.{Context, Got, got, failed}
use dmaplane_master.Kernel.{get, heap}
use dmaplane_master.Base.{
  subst, einval, enoent, none, some, ◌≡◌, ℕ, zero, suc, ◌⊎◌, refl, ◌∙◌, ap, inl, inr, Bool, true,
  false, Bool-cases, ltb, List, Option, find_index-some, get_elem?, set, arith, Errno, ok, err,
  enomem,
}
use dmaplane_master.Region.{MrEntry, Regions, is_vacant, find_mr_slot}
use dmaplane_master.Region.Register.{
  built, log_mr, not_built, Built, buffer_of, register_copy, register_mapped, free_copy,
  register_buffer, register_built, register_fast, register_mr, registrable, MrParams, MrAnswers,
  Polled, completion, nothing, poll_error, Mapped, entries, map_failed, Reply, build_map,
  build_table, build_sgt, err_dereg, fastreg_poll, fastreg_post, fastreg_map, fastreg, err_unmap,
  new_mr, drop_frmr, register_slot, need_fastreg, next_mr,
}

-- A state without its log
abbrev pub Table : Type 0
Table = List MrEntry × ℕ × ℕ × ℕ

abbrev pub table_of : Regions → Table
table_of r = (r.mrs, r.next_mr_id, r.registered, r.deregistered)

module _ (a : MrAnswers) where
  table_of-build_map : (t n : ℕ) (r : Regions) → table_of (build_map t n r).1 ≡ table_of r
  unfolding build_map
  table_of-build_map t zero r = refl
  table_of-build_map t (suc n) r = refl

  table_of-build_table :
      (t : ℕ) (b : Bool) (r : Regions) → table_of (build_table a t b r).1 ≡ table_of r
  unfolding build_table
  table_of-build_table t false r = refl
  table_of-build_table t true r = table_of-build_map t a.mapped_nents _

  table_of-build_sgt : (o : Option ℕ) (r : Regions) → table_of (build_sgt a o r).1 ≡ table_of r
  unfolding build_sgt
  table_of-build_sgt none r = refl
  table_of-build_sgt (some t) r = table_of-build_table t a.table _

  table_of-fastreg_poll :
      (m : ℕ) (p : Polled) (r : Regions) → table_of (fastreg_poll m p r).1 ≡ table_of r
  unfolding fastreg_poll err_dereg
  table_of-fastreg_poll m (completion true) r = refl
  table_of-fastreg_poll m (completion false) r = refl
  table_of-fastreg_poll m nothing r = refl
  table_of-fastreg_poll m (poll_error e) r = refl

  table_of-fastreg_post :
      (m : ℕ) (o : Option Errno) (r : Regions) → table_of (fastreg_post a m o r).1 ≡ table_of r
  unfolding fastreg_post err_dereg
  table_of-fastreg_post m (some e) r = refl
  table_of-fastreg_post m none r = table_of-fastreg_poll m _ r

  table_of-fastreg_map :
      (k m : ℕ) (g : Mapped) (r : Regions) → table_of (fastreg_map a k m g r).1 ≡ table_of r
  unfolding fastreg_map err_dereg
  table_of-fastreg_map k m (map_failed e) r = refl
  table_of-fastreg_map k m (entries n) r = elim (Bool-cases (ltb n k)) [
    | inl e ↦ rw e refl
    | inr e ↦ rw e (table_of-fastreg_post m a.post r)
  ]

  table_of-fastreg : (k : ℕ) (g : Got) (r : Regions) → table_of (fastreg a k g r).1 ≡ table_of r
  unfolding fastreg
  table_of-fastreg k (failed e) r = refl
  table_of-fastreg k (got m) r = table_of-fastreg_map k m a.map_sg _

-- The keys, the address and the region of an entry: of a fast-registered region where the access goes
-- beyond local writes, and of the domain and the buffer's own address where not
abbrev pub Keyed : MrAnswers → MrParams → (vaddr : ℕ) → MrEntry → Type 0
Keyed a p v e =
    ((need_fastreg p ≡ true)
      × ((m : ℕ) × (e.mr ≡ some m))
      × (e.lkey ≡ a.frmr_lkey)
      × (e.rkey ≡ a.frmr_rkey)
      × (e.sge_addr ≡ a.frmr_iova))
    ⊎ ((need_fastreg p ≡ false)
        × (e.mr ≡ none)
        × (e.lkey ≡ a.local_dma_lkey)
        × (e.rkey ≡ 0)
        × (e.sge_addr ≡ v))

-- A registration: the slot was free; the entry, its keys and the counters are as they should be.
pub record Registered (a : MrAnswers) (p : MrParams) (v : ℕ) (r : Regions) (q : Reply)
    : Type 0 where
  pub slot : ℕ
  pub old : MrEntry
  pub entry : MrEntry
  pub was : get_elem? r.mrs slot ≡ some old
  pub free : old.in_use ≡ false
  pub named : (entry.id ≡ r.next_mr_id) × (entry.buf_id ≡ p.buf_id) × (entry.in_use ≡ true)
  pub key : Keyed a p v entry
  pub done : q.0 ≡ ok
  pub answer : q.1 ≡ record p {
    mr_id = r.next_mr_id;
    lkey = entry.lkey;
    rkey = entry.rkey;
    addr = entry.sge_addr;
  }
  pub table : (q.2.mrs ≡ set r.mrs slot entry) × (q.2.next_mr_id ≡ next_mr r.next_mr_id)

-- The region that is passed on from a fast registration
abbrev KeyOf : MrParams → Option ℕ → Type 0
KeyOf p none = need_fastreg p ≡ false
KeyOf p (some m) = need_fastreg p ≡ true

-- A refusal: the table and what was passed in are as they were.
abbrev pub Refused : MrParams → Regions → Reply → Type 0
Refused p r q = (e : Errno) × (q.0 ≡ err e) × (q.1 ≡ p) × (table_of q.2 ≡ table_of r)

module _ (a : MrAnswers) (p : MrParams) (v : ℕ) (r₀ : Regions) where
  abbrev Finished : Reply → Type 0
  Finished q = Registered a p v r₀ q ⊎ Refused p r₀ q

  err_unmap-Refused :
      (e : Errno) (t : ℕ) (r : Regions)
      → table_of r ≡ table_of r₀
      → Refused p r₀ (err_unmap e p t r)
  unfolding err_unmap
  err_unmap-Refused e t r h = (e, refl, refl, h)

  table_of-drop_frmr : (m : Option ℕ) (r : Regions) → table_of (drop_frmr m r) ≡ table_of r
  table_of-drop_frmr none r = refl
  table_of-drop_frmr (some m) r = refl

  new_mr-named :
      (i t n : ℕ) (m : Option ℕ)
      → let e = new_mr a p i v t n m in (e.id ≡ i) × (e.buf_id ≡ p.buf_id) × (e.in_use ≡ true)
  unfolding new_mr
  new_mr-named i t n none = (refl, refl, refl)
  new_mr-named i t n (some m) = (refl, refl, refl)

  new_mr-Keyed : (i t n : ℕ) (m : Option ℕ) → KeyOf p m → Keyed a p v (new_mr a p i v t n m)
  unfolding new_mr
  new_mr-Keyed i t n none k = inr (k, refl, refl, refl, refl)
  new_mr-Keyed i t n (some m) k = inl (k, (m, refl), refl, refl, refl)

  register_slot-Finished :
      (t n : ℕ) (m o : Option ℕ) (r : Regions)
      → table_of r ≡ table_of r₀
      → find_mr_slot r ≡ o
      → KeyOf p m
      → Finished (register_slot a p v t n m o r)
  unfolding register_slot
  register_slot-Finished t n m none r h f k =
      inr (err_unmap-Refused enomem t (drop_frmr m r) (table_of-drop_frmr m r ∙ h))
  register_slot-Finished t n m (some slot) r h f k =
      let (old, at, free) = find_index-some is_vacant r.mrs slot f in
      let mrs = ap (λ u. u.0) h in
      let id = ap (λ u. u.1) h in
      inl (record {
        slot = slot;
        old = old;
        entry = new_mr a p r₀.next_mr_id v t n m;
        was = subst (λ xs. get_elem? xs slot ≡ some old) mrs at;
        free = ground (arith, free);
        named = new_mr-named r₀.next_mr_id t n m;
        key = new_mr-Keyed r₀.next_mr_id t n m k;
        done = refl;
        answer = rw id (
            ap
              (λ i. record p {
                mr_id = i;
                lkey = (new_mr a p r₀.next_mr_id v t n m).lkey;
                rkey = (new_mr a p r₀.next_mr_id v t n m).rkey;
                addr = (new_mr a p r₀.next_mr_id v t n m).sge_addr;
              })
              (new_mr-named r₀.next_mr_id t n m).0);
        table = rw (mrs, id) (refl, refl);
      })

  register_fast-Finished :
      (t n : ℕ) (g : Got × Regions)
      → need_fastreg p ≡ true
      → table_of g.1 ≡ table_of r₀
      → Finished (register_fast a p v t n g)
  unfolding register_fast
  register_fast-Finished t n (failed e, r) f h = inr (err_unmap-Refused e t r h)
  register_fast-Finished t n (got m, r) f h =
      register_slot-Finished t n (some m) (find_mr_slot r) r h refl f

  register_built-Finished :
      (k : ℕ) (b : Built × Regions)
      → table_of b.1 ≡ table_of r₀
      → Finished (register_built a p v k b)
  unfolding register_built
  register_built-Finished k (not_built e, r) h = inr (e, refl, refl, h)
  register_built-Finished k (built t n, r) h = elim (Bool-cases (need_fastreg p)) [
    | inl e ↦
        rw e
          (register_fast-Finished t n (fastreg a k a.frmr r) e (table_of-fastreg a k a.frmr r ∙ h))
    | inr e ↦ rw e (register_slot-Finished t n none (find_mr_slot r) r h refl e)
  ]

  table_of-free_copy : (c : ℕ) (b : Built × Regions) → table_of (free_copy c b).1 ≡ table_of b.1
  unfolding free_copy
  table_of-free_copy c (built t n, r) = refl
  table_of-free_copy c (not_built e, r) = refl

-- What a call that has found the buffer `b` does
abbrev pub RegisterEnd : MrAnswers → MrParams → Option Buffer → Regions → Reply → Type 0
RegisterEnd a p o r q =
    ((b : Buffer) × (v : ℕ) × (o ≡ some b)
      × (registrable b ≡ true)
      × (b.vaddr ≡ some v)
      × Registered a p v r q)
    ⊎ Refused p r q

module _ (a : MrAnswers) (p : MrParams) (b : Buffer) (r₀ : Regions) (g : registrable b ≡ true) where
  register_mapped-End :
      (c : ℕ) (o : Option ℕ) (r : Regions)
      → b.vaddr ≡ o
      → table_of r ≡ table_of r₀
      → RegisterEnd a p (some b) r₀ (register_mapped a p b.nr_pages c o r)
  unfolding register_mapped
  register_mapped-End c none r e h = inr (einval, refl, refl, h)
  register_mapped-End c (some v) r e h =
      elim (register_built-Finished a p v r₀ b.nr_pages (free_copy c (build_sgt a a.sgt r))
        (table_of-free_copy a p v r₀ c (build_sgt a a.sgt r) ∙ table_of-build_sgt a a.sgt r ∙ h)) [
          | inl x ↦ inl (b, v, refl, g, e, x)
          | inr x ↦ inr x
        ]

  register_copy-End : (o : Option ℕ) → RegisterEnd a p (some b) r₀ (register_copy a p b o r₀)
  unfolding register_copy
  register_copy-End none = inr (enomem, refl, refl, refl)
  register_copy-End (some c) = register_mapped-End c b.vaddr (log_mr (get (heap c)) r₀) refl refl

register_buffer-End :
    (a : MrAnswers) (p : MrParams) (o : Option Buffer) (r : Regions)
    → RegisterEnd a p o r (register_buffer a p o r)
unfolding register_buffer
register_buffer-End a p none r = inr (enoent, refl, refl, refl)
register_buffer-End a p (some b) r = elim (Bool-cases (registrable b)) [
  | inl e ↦ rw e (register_copy-End a p b r e a.pages_copy)
  | inr e ↦ rw e (inr (einval, refl, refl, refl))
]

pub register_mr_lem :
    (a : MrAnswers) (c : Context) (s : Store) (p : MrParams) (r : Regions)
    → RegisterEnd a p (buffer_of s p.buf_id) r (register_mr a c s p r)
unfolding register_mr
register_mr_lem a c s p r = elim (Bool-cases c.initialized) [
  | inl e ↦ rw e (register_buffer-End a p (buffer_of s p.buf_id) r)
  | inr e ↦ rw e (inr (einval, refl, refl, refl))
]
