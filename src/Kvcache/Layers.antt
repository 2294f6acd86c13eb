-- ===== src/Kvcache/Layers.antt =====
-- The bitmap of received chunks and the loop that fills it, examples/kvcache/kvcache_common.h.
use dmaplane_master.Base.{
  ℕ, zero, suc, ◌+◌, ◌<◌, ◌≤◌, ◌≡◌, ◌↔◌, ◌⊎◌, refl, ◌∙◌, sym, ap, subst, inl, inr, Bool, true,
  false, Bool-cases, ◌&&◌, ◌||◌, ◌==◌, ==_iff, ltb, List, [], ◌∷◌, arith,
}
use mathlib.Core.Bool.{false≢true}
use dmaplane_master.Kvcache.{
  Receiver, Round, Credits, go_on, leave, give_up, recv_turn, after_track, replenish_credits,
  Bitmap, bitmap_init, bitmap_set, low_bits, bitmap_layer_complete, all_layers, bitmap_all_complete,
  max_layers, imm_encode, sentinel, Latency, latency_stats_add, arrival, chunk_received,
  poll_and_track, recv_loop,
}
use dmaplane_master.Kvcache.Immediate.{imm_roundtrip}

both : (a b : Bool) → (a && b) ≡ true → (a ≡ true) × (b ≡ true)
both a b h = (ground (arith, h), ground (arith, h))

last_or : (c n : ℕ) → c < suc n → (c ≡ n) ⊎ (c < n)
last_or c n h = elim (Bool-cases (c == n)) [
  | inl e ↦ inl ((==_iff c n).0 e)
  | inr e ↦ inr (ground (arith, h, e))
]

low_bits_iff : (n : ℕ) (w : ℕ → Bool) → low_bits n w ≡ true ↔ ((c : ℕ) → c < n → w c ≡ true)
unfolding low_bits
low_bits_iff zero w = ((λ h c l. absurd (omega (arith, l))), λ h. refl)
low_bits_iff (suc n) w = (
  (λ h c l.
      let (a, b) = both (low_bits n w) (w n) h in
      elim (last_or c n l) [
        | inl e ↦ subst (λ z. w z ≡ true) (sym e) b
        | inr m ↦ (low_bits_iff n w).0 a c m
      ]),
  λ h. simp ((low_bits_iff n w).1 (λ c l. h c (omega (arith, l))), h n (omega arith)),
)

-- Every bit of a range of layers
abbrev Full : Bitmap → (n i : ℕ) → Type 0
Full bm n i = (l c : ℕ) → i ≤ l → l < i + n → c < bm.chunks_per_layer → bm.bits l c ≡ true

all_layers_iff : (bm : Bitmap) (n i : ℕ) → all_layers bm n i ≡ true ↔ Full bm n i
unfolding all_layers
all_layers_iff bm zero i = ((λ h l c a b. absurd (omega (arith, a, b))), λ h. refl)
all_layers_iff bm (suc n) i = elim (Bool-cases (bitmap_layer_complete bm i)) [
  | inr e ↦ rw e ((λ h. absurd (false≢true h)), λ h. absurd (false≢true (sym e ∙ row h)))
  | inl e ↦ rw e (
    (λ h l c a b k. elim (Bool-cases (l == i)) [
      | inl q ↦
          subst (λ z. bm.bits z c ≡ true) (sym ((==_iff l i).0 q))
            ((low_bits_iff bm.chunks_per_layer (bm.bits i)).0 e c k)
      | inr q ↦ (all_layers_iff bm n (suc i)).0 h l c (above l a q) (omega (arith, b)) k
    ]),
    λ h.
        (all_layers_iff bm n (suc i)).1
          (λ l c a b k. h l c (omega (arith, a)) (omega (arith, b)) k),
  )
]
  where
    row : Full bm (suc n) i → bitmap_layer_complete bm i ≡ true
    row h =
        (low_bits_iff bm.chunks_per_layer (bm.bits i)).1
          (λ c k. h i c (omega arith) (omega arith) k)

    above : (l : ℕ) → i ≤ l → (l == i) ≡ false → suc i ≤ l
    above l a q = ground (arith, a, q)

-- Is a chunk among those sent?
abbrev pub sent : List (ℕ × ℕ) → (layer chunk : ℕ) → Bool
sent [] l c = false
sent ((a, b) ∷ xs) l c = (l == a && c == b) || sent xs l c

-- The rounds in which chunks arrive in that order, each after some time, and no call fails
abbrev pub arrivals : (elapsed : ℕ) → List (ℕ × ℕ) → List Round
arrivals t [] = []
arrivals t ((a, b) ∷ xs) =
    record { poll = arrival (imm_encode a b) t; posted = true; credited = true } ∷ arrivals t xs

-- Every chunk has its bit in the map.
pub data InRange : List (ℕ × ℕ) → Type 0 where
  all_sent : InRange []
  and_then :
      (a b : ℕ) (xs : List (ℕ × ℕ)) → a < max_layers → b < 64 → InRange xs → InRange ((a, b) ∷ xs)

-- A chunk that arrives sets its bit.
track_lem :
    (a b t : ℕ) (bm : Bitmap) (ls : Latency)
    → a < max_layers
    → b < 64
    → poll_and_track (arrival (imm_encode a b) t) bm ls ≡ (
      chunk_received,
      record bm { bits = λ l c. bm.bits l c || (l == a && c == b) },
      latency_stats_add ls t,
    )
unfolding poll_and_track bitmap_set
track_lem a b t bm ls ha hb =
    let (l, c, m, s) = imm_roundtrip a b (omega (arith, ha)) (omega (arith, hb)) in
    let layer : ltb a max_layers ≡ true = ground (arith, ha) in
    let chunk : ltb b 64 ≡ true = ground (arith, hb) in
    elim (Bool-cases (imm_encode a b == sentinel)) [
      | inl e ↦ absurd (omega (arith, (s ((==_iff (imm_encode a b) sentinel).0 e)).0, ha))
      | inr e ↦ rw (e, l, c, layer, chunk) refl
    ]

-- Every chunk of the transfer has its bit, or is still to come.
abbrev Covered : Bitmap → List (ℕ × ℕ) → Type 0
Covered bm xs =
    (l c : ℕ) → l < bm.num_layers → c < bm.chunks_per_layer → (bm.bits l c || sent xs l c) ≡ true

or_left : (a b : Bool) → a ≡ true → (a || b) ≡ true
or_left a b h = ground (arith, h)

or_assoc : (a b c : Bool) → ((a || b) || c) ≡ (a || (b || c))
or_assoc true b c = refl
or_assoc false b c = refl

or_false : (a : Bool) → (a || false) ≡ a
or_false true = refl
or_false false = refl

complete_iff :
    (bm : Bitmap)
    → bitmap_all_complete bm ≡ true
      ↔ ((l c : ℕ) → l < bm.num_layers → c < bm.chunks_per_layer → bm.bits l c ≡ true)
complete_iff bm = (
  (λ h l c a b. (all_layers_iff bm bm.num_layers 0).0 h l c (omega arith) (omega (arith, a)) b),
  λ h. (all_layers_iff bm bm.num_layers 0).1 (λ l c a b k. h l c (omega (arith, b)) k),
)

-- The receiver after a chunk
abbrev taken : (a b t : ℕ) → Receiver → Receiver
taken a b t s = record s {
  bitmap = record (s.bitmap) { bits = λ l c. s.bitmap.bits l c || (l == a && c == b) };
  latency = latency_stats_add s.latency t;
  tracker = replenish_credits true s.tracker;
  credits_sent = s.credits_sent + 1;
}

recv_turn_lem :
    (a b t : ℕ) (s : Receiver)
    → a < max_layers
    → b < 64
    → recv_turn (record { poll = arrival (imm_encode a b) t; posted = true; credited = true }) s
      ≡ (go_on, taken a b t s)
unfolding recv_turn after_track
recv_turn_lem a b t s ha hb =
    ap
      (λ x.
        after_track (record { poll = arrival (imm_encode a b) t; posted = true; credited = true })
          x.0 (record s { bitmap = x.1; latency = x.2 }))
      (track_lem a b t s.bitmap s.latency ha hb)

recv_loop-next :
    (r : Round) (rs : List Round) (s t : Receiver)
    → bitmap_all_complete s.bitmap ≡ false
    → recv_turn r s ≡ (go_on, t)
    → recv_loop (r ∷ rs) s ≡ recv_loop rs t
unfolding recv_loop
recv_loop-next r rs s t e h =
    rw e (ap (λ x. elim (x.0) [ go_on ↦ recv_loop rs x.1 | leave ↦ x | give_up ↦ x ]) h)

recv_loop-done :
    (rs : List Round) (s : Receiver)
    → bitmap_all_complete s.bitmap ≡ true
    → recv_loop rs s ≡ (leave, s)
unfolding recv_loop
recv_loop-done [] s e = refl
recv_loop-done (r ∷ rs) s e = rw e refl

recv_loop_at :
    (t : ℕ) (xs : List (ℕ × ℕ)) (s : Receiver)
    → InRange xs
    → bitmap_all_complete (recv_loop (arrivals t xs) s).1.bitmap ≡ true ↔ Covered s.bitmap xs
unfolding recv_loop
recv_loop_at t [] s all_sent = (
  (λ h l c a b. or_left (s.bitmap.bits l c) false ((complete_iff s.bitmap).0 h l c a b)),
  λ h. (complete_iff s.bitmap).1 (λ l c a b. sym (or_false (s.bitmap.bits l c)) ∙ h l c a b),
)
recv_loop_at t ((a, b) ∷ xs) s (and_then _ _ _ ha hb r) =
    let ih = recv_loop_at t xs (taken a b t s) r in
    let split = λ (l c : ℕ). or_assoc (s.bitmap.bits l c) (l == a && c == b) (sent xs l c) in
    elim (Bool-cases (bitmap_all_complete s.bitmap)) [
      | inl e ↦ (
        (λ h l c p q. or_left (s.bitmap.bits l c) _ ((complete_iff s.bitmap).0 e l c p q)),
        λ h.
            ap (λ x. bitmap_all_complete x.1.bitmap) (recv_loop-done (arrivals t ((a, b) ∷ xs)) s e)
            ∙ e,
      )
      | inr e ↦
          let n =
            ap (λ x. bitmap_all_complete x.1.bitmap)
              (recv_loop-next _ (arrivals t xs) s (taken a b t s) e
                (recv_turn_lem a b t s ha hb)) in
          (
            (λ h l c p q. sym (split l c) ∙ ih.0 (sym n ∙ h) l c p q),
            λ h. n ∙ ih.1 (λ l c p q. split l c ∙ h l c p q),
          )
    ]

-- The state of a receiver before the loop
abbrev pub receiver_start : (layers chunks : ℕ) → Latency → Credits → Receiver
receiver_start layers chunks ls ct = record {
  bitmap = bitmap_init layers chunks;
  latency = ls;
  tracker = ct;
  credits_sent = 0;
}

-- A receiver that starts with an empty map and to which chunks arrive, in any order and with any
-- repetitions, ends with a complete map exactly where every chunk of every layer of the transfer is
-- among those that arrived. The layers are at most 1024 and the chunks of a layer fewer than 64,
-- every chunk that arrives has its bit in the map, and no call fails.
pub recv_loop_completes :
    (layers chunks t : ℕ) (xs : List (ℕ × ℕ)) (ls : Latency) (ct : Credits)
    → layers ≤ max_layers
    → chunks < 64
    → InRange xs
    → bitmap_all_complete (recv_loop (arrivals t xs) (receiver_start layers chunks ls ct)).1.bitmap
        ≡ true
      ↔ ((l c : ℕ) → l < layers → c < chunks → sent xs l c ≡ true)
recv_loop_completes layers chunks t xs ls ct hl hc r =
    recv_loop_at t xs (receiver_start layers chunks ls ct) r
