-- ===== src/Region/Sweep.antt =====
-- Deregistration of a memory region, and of all of them, driver/rdma_engine.c and driver/main.c.
use dmaplane_master.Rdma.{Context}
use dmaplane_master.Region.{
  MrEntry, zero_mr, Regions, find_mr, is_mr, own_sgt, own_mr, mr_holdings, max_mrs,
}
use dmaplane_master.Region.Deregister.{
  sweep, sweep_slot, release, drop_mr, drop_found, deregister_mr,
}
use dmaplane_master.Base.{
  get_or_of_none, lt-length_of_get, find_index_of_none, subst, Bool-cases, zero, suc, ◌==◌,
  if◌then◌else◌, ==_iff, length-set, ◌∙◌, ◌<◌, sym, ap, get_elem?-set_cases, find_index_of_first,
  get_or, length, ℕ, ◌+◌, ◌≡◌, refl, inl, inr, true, false, Option-cases, List, [], ◌++◌, Option,
  none, some, find_index-some, get_elem?, get_or_of_get, total-set, arith,
}
use dmaplane_master.Kernel.{Resource, Event, count, gets, puts}
use dmaplane_master.Region.Balance.{mr_weight, Owes}

module _ (x : Resource) (d : ℕ) where
  release_at :
      (e : MrEntry) (t m : Option ℕ) (log : List Event)
      → let y = release (some d) (record e { sgt = t; mr = m }) log in
        (gets x y.1 ≡ gets x log) × (puts x y.1 ≡ puts x log + count x (own_sgt t ++ own_mr m))
  unfolding release gets puts count
  release_at e none none log = (refl, omega arith)
  release_at e (some t) none log = (refl, omega arith)
  release_at e none (some m) log = (refl, omega arith)
  release_at e (some t) (some m) log = (refl, omega arith)

  drop_mr-Owes :
      (slot : ℕ) (e : MrEntry) (r : Regions)
      → get_elem? r.mrs slot ≡ some e
      → e.in_use ≡ true
      → Owes x [] r
      → Owes x [] (drop_mr (some d) slot r)
  unfolding drop_mr count
  drop_mr-Owes slot e r at u h =
      let at' = get_or_of_get r.mrs slot e zero_mr at in
      let (g, p) = release_at e e.sgt e.mr r.log in
      rw at' (
        omega (
          arith,
          g,
          p,
          total-set (mr_weight x) r.mrs slot e
              (record ((release (some d) e r.log).0) { in_use = false }) at,
          used e u,
          h,
        ))
    where
      used : (e : MrEntry) → e.in_use ≡ true → mr_weight x e ≡ count x (mr_holdings e)
      used e u = simp u

  pub deregister-Owes :
      (c : Context) (i : ℕ) (r : Regions)
      → c.ib_dev ≡ some d
      → Owes x [] r
      → Owes x [] (deregister_mr c i r).1
  unfolding deregister_mr drop_found
  deregister-Owes c i r dev h = elim (Option-cases (find_mr r i)) [
    | inl n ↦ rw n h
    | inr (slot, f) ↦
        let (e, at, live) = find_index-some (is_mr i) r.mrs slot f in
        rw (f, dev) (drop_mr-Owes slot e r at (in_use_of e live) h)
  ]
    where
      in_use_of : (e : MrEntry) → is_mr i e ≡ true → e.in_use ≡ true
      in_use_of e l = ground arith

-- The entries before slot `j` are free.
abbrev pub Cleared : ℕ → Regions → Type 0
Cleared j r = (i : ℕ) (e : MrEntry) → i < j → get_elem? r.mrs i ≡ some e → e.in_use ≡ false

abbrev pub Clear : Regions → Type 0
Clear r = (i : ℕ) (e : MrEntry) → get_elem? r.mrs i ≡ some e → e.in_use ≡ false

unused : (e f : MrEntry) → e.in_use ≡ false → e ≡ f → f.in_use ≡ false
unused e f u h = sym (ap (λ z. z.in_use) h) ∙ u

Cleared-suc :
    (j : ℕ) (r : Regions)
    → Cleared j r
    → ((e : MrEntry) → get_elem? r.mrs j ≡ some e → e.in_use ≡ false)
    → Cleared (suc j) r
Cleared-suc j r k h i e l g = elim (Bool-cases (i == j)) [
  | inl q ↦ let q' = (==_iff i j).0 q in h e (subst (λ n. get_elem? r.mrs n ≡ some e) q' g)
  | inr q ↦ k i e (below q) g
]
  where
    below : (i == j) ≡ false → i < j
    below q = ground arith

module _ (c : Context) (d : ℕ) (dev : c.ib_dev ≡ some d) where
  -- The scan for the id of the first entry in use finds that entry.
  find_first :
      (j : ℕ) (e : MrEntry) (r : Regions)
      → Cleared j r
      → get_elem? r.mrs j ≡ some e
      → e.in_use ≡ true
      → find_mr r e.id ≡ some j
  find_first j e r k at u =
      find_index_of_first (is_mr e.id) r.mrs j e at (simp (u, (==_iff e.id e.id).1 refl))
        (λ i b l g. simp (k i b l g))

  Cleared-drop_mr : (j : ℕ) (r : Regions) → Cleared j r → Cleared (suc j) (drop_mr (some d) j r)
  unfolding drop_mr
  Cleared-drop_mr j r k i e l g = elim (get_elem?-set_cases r.mrs j i _ e g) [
    | inl (same, v) ↦ ap (λ z. z.in_use) (sym v)
    | inr (ne, h) ↦ k i e (omega (arith, ne)) h
  ]

  deregister_found :
      (j i : ℕ) (r : Regions)
      → find_mr r i ≡ some j
      → (deregister_mr c i r).1 ≡ drop_mr (some d) j r
  unfolding deregister_mr drop_found
  deregister_found j i r f = rw (f, dev) refl

  pub length-drop_mr : (j : ℕ) (r : Regions) → length (drop_mr (some d) j r).mrs ≡ length r.mrs
  unfolding drop_mr
  length-drop_mr j r = length-set r.mrs j _

  module _ (x : Resource) where
    -- What one round of the loop keeps and adds
    abbrev pub Round : (j : ℕ) (r t : Regions) → Type 0
    Round j r t = Cleared j t × Owes x [] t × (length t.mrs ≡ length r.mrs)

    sweep_slot-Round :
        (j : ℕ) (r : Regions)
        → Cleared j r
        → Owes x [] r
        → Round (suc j) r (sweep_slot c (get_or r.mrs j zero_mr) r)
    unfolding sweep_slot
    sweep_slot-Round j r k h = elim (Option-cases (get_elem? r.mrs j)) [
      | inl n ↦ rw (get_or_of_none r.mrs j zero_mr n) (Cleared-suc j r k (λ e g. cc), h, refl)
      | inr (e, at) ↦ rw (get_or_of_get r.mrs j e zero_mr at) (elim (Bool-cases e.in_use) [
        | inr u ↦ if_unused e j r at u k h
        | inl u ↦ if_used e j r at u k h
      ])
    ]
      where
        if_unused :
            (e : MrEntry) (j : ℕ) (r : Regions)
            → get_elem? r.mrs j ≡ some e
            → e.in_use ≡ false
            → Cleared j r
            → Owes x [] r
            → Round (suc j) r (if e.in_use then (deregister_mr c e.id r).1 else r)
        if_unused e j r at u k h = rw u (Cleared-suc j r k (λ f g. unused e f u cc), h, refl)

        if_used :
            (e : MrEntry) (j : ℕ) (r : Regions)
            → get_elem? r.mrs j ≡ some e
            → e.in_use ≡ true
            → Cleared j r
            → Owes x [] r
            → Round (suc j) r (if e.in_use then (deregister_mr c e.id r).1 else r)
        if_used e j r at u k h =
            let is = deregister_found j e.id r (find_first j e r k at u) in
            rw u (
              subst (Cleared (suc j)) (sym is) (Cleared-drop_mr j r k),
              deregister-Owes x d c e.id r dev h,
              ap (λ t. length t.mrs) is ∙ length-drop_mr j r,
            )

    pub sweep-Round :
        (n j : ℕ) (r : Regions) → Cleared j r → Owes x [] r → Round (j + n) r (sweep c n j r)
    unfolding sweep
    sweep-Round zero j r k h = ((λ i e q. k i e (omega (arith, q))), h, refl)
    sweep-Round (suc n) j r k h =
        let t = sweep_slot c (get_or r.mrs j zero_mr) r in
        let (a, b, l) = sweep_slot-Round j r k h in
        let (a', b', l') = sweep-Round n (suc j) t a b in
        ((λ i e q. a' i e (omega (arith, q))), b', l' ∙ l)

    -- Every entry of the table, after the loop
    pub sweep_all :
        (r : Regions)
        → Owes x [] r
        → length r.mrs ≡ max_mrs
        → let t = sweep c max_mrs 0 r in Clear t × Owes x [] t × (length t.mrs ≡ max_mrs)
    sweep_all r h l =
        let (a, b, m) = sweep-Round max_mrs 0 r (λ i e q. absurd (omega (arith, q))) h in
        let t = sweep c max_mrs 0 r in
        ((λ i e g. a i e (omega (arith, lt-length_of_get t.mrs i g, m, l)) g), b, m ∙ l)

    deregister_missed : (i : ℕ) (r : Regions) → find_mr r i ≡ none → (deregister_mr c i r).1 ≡ r
    unfolding deregister_mr drop_found
    deregister_missed i r f = rw f refl

    pub deregister_keeps :
        (i : ℕ) (r : Regions)
        → Owes x [] r
        → let t = (deregister_mr c i r).1 in Owes x [] t × (length t.mrs ≡ length r.mrs)
    deregister_keeps i r h = (
      deregister-Owes x d c i r dev h,
      elim (Option-cases (find_mr r i)) [
        | inl n ↦ ap (λ t. length t.mrs) (deregister_missed i r n)
        | inr (j, f) ↦ ap (λ t. length t.mrs) (deregister_found j i r f) ∙ length-drop_mr j r
      ],
    )

-- Where no entry is in use, the loop does nothing, and no id is found.
pub sweep-Clear : (c : Context) (n j : ℕ) (r : Regions) → Clear r → sweep c n j r ≡ r
unfolding sweep sweep_slot
sweep-Clear c zero j r k = refl
sweep-Clear c (suc n) j r k =
    ap (sweep c n (suc j)) (simp (unused_at j)) ∙ sweep-Clear c n (suc j) r k
  where
    unused_at : (j : ℕ) → (get_or r.mrs j zero_mr).in_use ≡ false
    unused_at j = elim (Option-cases (get_elem? r.mrs j)) [
      | inl n ↦ ap (λ e. e.in_use) (get_or_of_none r.mrs j zero_mr n)
      | inr (e, g) ↦ ap (λ e. e.in_use) (get_or_of_get r.mrs j e zero_mr g) ∙ k j e g
    ]

pub deregister-Clear : (c : Context) (i : ℕ) (r : Regions) → Clear r → (deregister_mr c i r).1 ≡ r
unfolding deregister_mr drop_found
deregister-Clear c i r k =
    let f = find_index_of_none (is_mr i) r.mrs (λ j e g. simp (k j e g)) in rw f refl
