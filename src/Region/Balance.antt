-- ===== src/Region/Balance.antt =====
-- What the memory regions of driver/rdma_engine.c own, against what has been obtained and given back
use dmaplane_master.Buffer.{Buffer, Store}
use dmaplane_master.Rdma.{Context, Got, got, failed}
use dmaplane_master.Base.{
  refl, total-set, find_index-some, enomem, [], ltb, ℕ, zero, suc, ◌+◌, ◌≡◌, inl, inr, Bool, true,
  false, Bool-cases, List, ◌∷◌, ◌++◌, Option, none, some, if◌then◌else◌, total, arith, Errno,
}
use dmaplane_master.Kernel.{
  get, Resource, heap, object, memory_region, scatter_table, count, gets, puts,
}
use dmaplane_master.Region.{is_vacant, find_mr_slot, own_mr, MrEntry, Regions, own_sgt, mr_holdings}
use dmaplane_master.Region.Register.{
  log_mr, registrable, need_fastreg, buffer_of, drop_frmr, err_unmap, free_copy, new_mr,
  register_buffer, register_built, register_copy, register_fast, register_mapped, register_mr,
  register_slot, MrParams, MrAnswers, Polled, completion, nothing, poll_error, Mapped, entries,
  map_failed, Built, built, not_built, build_map, build_table, build_sgt, err_dereg, fastreg_poll,
  fastreg_post, fastreg_map, fastreg,
}

abbrev pub mr_weight : Resource → MrEntry → ℕ
mr_weight x e = if e.in_use then count x (mr_holdings e) else 0

-- How often the regions in use own `x`
abbrev pub mr_held : Resource → Regions → ℕ
mr_held x r = total (mr_weight x) r.mrs

module _ (x : Resource) where
  -- What has been obtained is given back, or owned by a region in use, or still in hand.
  abbrev pub Owes : List Resource → Regions → Type 0
  Owes xs r = gets x r.log ≡ puts x r.log + mr_held x r + count x xs

  -- The ends of the two helpers
  abbrev BuiltOwes : List Resource → Built × Regions → Type 0
  BuiltOwes xs (built t n, r) = Owes (own_sgt (some t) ++ xs) r
  BuiltOwes xs (not_built e, r) = Owes xs r

  abbrev GotOwes : List Resource → Got × Regions → Type 0
  GotOwes xs (got m, r) = Owes (object memory_region m ∷ xs) r
  GotOwes xs (failed e, r) = Owes xs r

  module _ (a : MrAnswers) (xs : List Resource) where
    build_map-Owes :
        (t n : ℕ) (r : Regions)
        → Owes (object scatter_table t ∷ heap t ∷ xs) r
        → BuiltOwes xs (build_map t n r)
    unfolding build_map gets puts count
    build_map-Owes t zero r h = omega arith
    build_map-Owes t (suc n) r h = omega arith

    build_table-Owes :
        (t : ℕ) (b : Bool) (r : Regions) → Owes (heap t ∷ xs) r → BuiltOwes xs (build_table a t b r)
    unfolding build_table gets puts count
    build_table-Owes t false r h = omega arith
    build_table-Owes t true r h = build_map-Owes t a.mapped_nents _ (omega arith)

    build_sgt-Owes : (o : Option ℕ) (r : Regions) → Owes xs r → BuiltOwes xs (build_sgt a o r)
    unfolding build_sgt gets puts count
    build_sgt-Owes none r h = h
    build_sgt-Owes (some t) r h = build_table-Owes t a.table _ (omega arith)

    err_dereg-Owes :
        (e : Errno) (m : ℕ) (r : Regions)
        → Owes (object memory_region m ∷ xs) r
        → GotOwes xs (err_dereg e m r)
    unfolding err_dereg gets puts count
    err_dereg-Owes e m r h = omega arith

    fastreg_poll-Owes :
        (m : ℕ) (p : Polled) (r : Regions)
        → Owes (object memory_region m ∷ xs) r
        → GotOwes xs (fastreg_poll m p r)
    unfolding fastreg_poll
    fastreg_poll-Owes m (completion true) r h = h
    fastreg_poll-Owes m (completion false) r h = err_dereg-Owes _ m r h
    fastreg_poll-Owes m nothing r h = err_dereg-Owes _ m r h
    fastreg_poll-Owes m (poll_error e) r h = err_dereg-Owes _ m r h

    fastreg_post-Owes :
        (m : ℕ) (o : Option Errno) (r : Regions)
        → Owes (object memory_region m ∷ xs) r
        → GotOwes xs (fastreg_post a m o r)
    unfolding fastreg_post
    fastreg_post-Owes m (some e) r h = err_dereg-Owes e m r h
    fastreg_post-Owes m none r h = fastreg_poll-Owes m _ r h

    fastreg_map-Owes :
        (k m : ℕ) (g : Mapped) (r : Regions)
        → Owes (object memory_region m ∷ xs) r
        → GotOwes xs (fastreg_map a k m g r)
    unfolding fastreg_map
    fastreg_map-Owes k m (map_failed e) r h = err_dereg-Owes e m r h
    fastreg_map-Owes k m (entries n) r h = elim (Bool-cases (ltb n k)) [
      | inl e ↦ rw e (err_dereg-Owes _ m r h)
      | inr e ↦ rw e (fastreg_post-Owes m a.post r h)
    ]

    fastreg-Owes : (k : ℕ) (g : Got) (r : Regions) → Owes xs r → GotOwes xs (fastreg a k g r)
    unfolding fastreg gets puts count
    fastreg-Owes k (failed e) r h = h
    fastreg-Owes k (got m) r h = fastreg_map-Owes k m a.map_sg _ (omega arith)

module _ (x : Resource) (a : MrAnswers) (p : MrParams) where
  err_unmap-Owes :
      (e : Errno) (t : ℕ) (r : Regions)
      → Owes x (own_sgt (some t)) r
      → Owes x [] (err_unmap e p t r).2
  unfolding err_unmap gets puts count
  err_unmap-Owes e t r h = omega arith

  drop_frmr-Owes :
      (m : Option ℕ) (t : ℕ) (r : Regions)
      → Owes x (own_mr m ++ own_sgt (some t)) r
      → Owes x (own_sgt (some t)) (drop_frmr m r)
  unfolding gets puts count
  drop_frmr-Owes none t r h = h
  drop_frmr-Owes (some m) t r h = omega arith

  new_mr-holdings :
      (i v t n : ℕ) (m : Option ℕ)
      → mr_weight x (new_mr a p i v t n m) ≡ count x (own_mr m ++ own_sgt (some t))
  unfolding new_mr count
  new_mr-holdings i v t n none = refl
  new_mr-holdings i v t n (some m) = omega arith

  register_slot-Owes :
      (v t n : ℕ) (m o : Option ℕ) (r : Regions)
      → find_mr_slot r ≡ o
      → Owes x (own_mr m ++ own_sgt (some t)) r
      → Owes x [] (register_slot a p v t n m o r).2
  unfolding register_slot count
  register_slot-Owes v t n m none r f h =
      err_unmap-Owes enomem t (drop_frmr m r) (drop_frmr-Owes m t r h)
  register_slot-Owes v t n m (some slot) r f h =
      let (old, at, free) = find_index-some is_vacant r.mrs slot f in
      omega (
        arith,
        total-set (mr_weight x) r.mrs slot old (new_mr a p r.next_mr_id v t n m) at,
        new_mr-holdings r.next_mr_id v t n m,
        vacant_weight old free,
        h,
      )
    where
      vacant_weight : (e : MrEntry) → is_vacant e ≡ true → mr_weight x e ≡ 0
      vacant_weight e u = ground arith

  register_fast-Owes :
      (v t n : ℕ) (g : Got × Regions)
      → GotOwes x (own_sgt (some t)) g
      → Owes x [] (register_fast a p v t n g).2
  unfolding register_fast
  register_fast-Owes v t n (failed e, r) h = err_unmap-Owes e t r h
  register_fast-Owes v t n (got m, r) h =
      register_slot-Owes v t n (some m) (find_mr_slot r) r refl h

  register_built-Owes :
      (v k : ℕ) (b : Built × Regions) → BuiltOwes x [] b → Owes x [] (register_built a p v k b).2
  unfolding register_built
  register_built-Owes v k (not_built e, r) h = h
  register_built-Owes v k (built t n, r) h = elim (Bool-cases (need_fastreg p)) [
    | inl e ↦ rw e (
        register_fast-Owes v t n (fastreg a k a.frmr r)
          (fastreg-Owes x a (own_sgt (some t)) k a.frmr r h))
    | inr e ↦ rw e (register_slot-Owes v t n none (find_mr_slot r) r refl h)
  ]

  free_copy-Owes :
      (c : ℕ) (b : Built × Regions) → BuiltOwes x (heap c ∷ []) b → BuiltOwes x [] (free_copy c b)
  unfolding free_copy gets puts count
  free_copy-Owes c (built t n, r) h = omega arith
  free_copy-Owes c (not_built e, r) h = omega arith

  register_mapped-Owes :
      (k c : ℕ) (v : Option ℕ) (r : Regions)
      → Owes x (heap c ∷ []) r
      → Owes x [] (register_mapped a p k c v r).2
  unfolding register_mapped gets puts count
  register_mapped-Owes k c none r h = omega arith
  register_mapped-Owes k c (some v) r h =
      register_built-Owes v k (free_copy c (build_sgt a a.sgt r))
        (free_copy-Owes c (build_sgt a a.sgt r) (build_sgt-Owes x a (heap c ∷ []) a.sgt r h))

  register_copy-Owes :
      (b : Buffer) (o : Option ℕ) (r : Regions)
      → Owes x [] r
      → Owes x [] (register_copy a p b o r).2
  unfolding register_copy gets puts count
  register_copy-Owes b none r h = h
  register_copy-Owes b (some c) r h =
      register_mapped-Owes b.nr_pages c b.vaddr (log_mr (get (heap c)) r) (omega arith)

  register_buffer-Owes :
      (o : Option Buffer) (r : Regions) → Owes x [] r → Owes x [] (register_buffer a p o r).2
  unfolding register_buffer
  register_buffer-Owes none r h = h
  register_buffer-Owes (some b) r h = elim (Bool-cases (registrable b)) [
    | inl e ↦ rw e (register_copy-Owes b a.pages_copy r h)
    | inr e ↦ rw e h
  ]

  -- REGISTER_MR's registration conserves what it obtains on every path: of the heap, of scatter
  -- tables, of their mappings and of the adapter's regions, whatever has been obtained has been given
  -- back, or a region in use owns it. This is so whatever the services answer, and at whichever
  -- step the call fails.
  pub register_mr-Owes :
      (c : Context) (s : Store) (r : Regions) → Owes x [] r → Owes x [] (register_mr a c s p r).2
  unfolding register_mr
  register_mr-Owes c s r h = elim (Bool-cases c.initialized) [
    | inl e ↦ rw e (register_buffer-Owes (buffer_of s p.buf_id) r h)
    | inr e ↦ rw e h
  ]
