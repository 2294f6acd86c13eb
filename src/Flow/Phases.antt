-- ===== src/Flow/Phases.antt =====
-- The phases of the streaming loop, driver/flow_control.c, and the account of the sends in
-- flight.
use mathlib.Core.Bool.{true≢false}
use dmaplane_master.Base.{
  ℕ, suc, ◌%◌, ◌≤◌, ◌<◌, ◌≡◌, inl, inr, arith, refl, ap, ap₂, sym, ◌∙◌, subst, Bool, true, false,
  ltb, leb, Bool-cases, ltb→lt, List, [], ◌∷◌, ◌++◌, length, length-append, length-set, set, Option,
  none, some, add32, Errno,
}
use dmaplane_master.Flow.{Flow, can_send}
use dmaplane_master.Flow.Credits.{Outstanding, can_send_lem, sends_and_completions}
use dmaplane_master.Flow.Stream.{
  Stream, Post, post_ok, post_error, window_check, send_phase, send_if, note_send, note_stall,
  note_completion, replenish, drain_recv, ts_ring_size, sub64, window_length_ns,
}
use dmaplane_master.Flow.Window.{stamps, extend, Tracks, stamps-set}

module _ (q : ℕ) (s : Stream) (p : List ℕ) (k : Tracks q s p) where
  -- The other variables do not matter.
  frame :
      (s' : Stream)
      → s'.flow ≡ s.flow
      → s'.outstanding ≡ s.outstanding
      → s'.ts_head ≡ s.ts_head
      → s'.ts_tail ≡ s.ts_tail
      → s'.send_ts ≡ s.send_ts
      → Tracks q s' p
  frame s' f o h t r = record {
    account = subst (λ x. Outstanding x (length p)) (sym f) k.account;
    counted = o ∙ k.counted;
    deep = k.deep;
    head = omega (arith, h, t, k.head);
    tail = omega (arith, t, k.tail);
    size = ap length r ∙ k.size;
    stamped = ap₂ (λ ts x. stamps ts x (length p)) r t ∙ k.stamped;
  }

  pub window_check-Tracks : (now : ℕ) → Tracks q (window_check now s) p
  unfolding window_check
  window_check-Tracks now = elim (Bool-cases (leb window_length_ns (sub64 now s.window_start))) [
    | inl e ↦ rw e (frame _ refl refl refl refl refl)
    | inr e ↦ rw e k
  ]

  -- `can_send` changes the flow control's state alone.
  asked : Tracks q (record s { flow = (can_send s.flow).1 }) p
  asked = record {
    account = (can_send_lem s.flow (length p) k.account).0;
    counted = k.counted;
    deep = k.deep;
    head = k.head;
    tail = k.tail;
    size = k.size;
    stamped = k.stamped;
  }

  note_send-Tracks :
      (t : ℕ)
      → q ≤ 64
      → length p < q
      → length p < s.flow.high_watermark
      → Tracks q (note_send t s) (p ++ (t ∷ []))
  unfolding note_send
  note_send-Tracks t q64 l h =
      let longer : length (p ++ (t ∷ [])) ≡ suc (length p) =
        omega (arith, length-append p (t ∷ [])) in
      record {
        account =
            subst (Outstanding _) (sym longer)
              ((sends_and_completions s.flow (length p) k.account).0 h);
        counted = omega (arith, k.counted, length-append p (t ∷ []));
        deep = omega (arith, length-append p (t ∷ []));
        head = omega (arith, k.head, length-append p (t ∷ []));
        tail = k.tail;
        size = length-set s.send_ts (s.ts_head % ts_ring_size) t ∙ k.size;
        stamped =
            ap (stamps (set s.send_ts (s.ts_head % ts_ring_size) t) s.ts_tail) longer
            ∙ stamps-set s.send_ts t (length p) s.ts_tail (s.ts_head % ts_ring_size) k.size
                (omega arith) (omega (arith, k.head))
            ∙ ap (λ x. x ++ (t ∷ [])) k.stamped;
      }

pub replenish-Tracks :
    (q q' : ℕ) (recv : Option Errno) (s : Stream) (p : List ℕ)
    → Tracks q s p
    → Tracks q (replenish q' recv s).state p
unfolding replenish
replenish-Tracks q q' none s p k = elim (Bool-cases (ltb s.recv_posted (add32 s.sent q'))) [
  | inl e ↦ rw e (frame q s p k _ refl refl refl refl refl)
  | inr e ↦ rw e k
]
replenish-Tracks q q' (some c) s p k = elim (Bool-cases (ltb s.recv_posted (add32 s.sent q'))) [
  | inl e ↦ rw e k
  | inr e ↦ rw e k
]

pub note_completion-Tracks :
    (q m now : ℕ) (s : Stream) (t : ℕ) (p : List ℕ)
    → q ≤ 64
    → Tracks q s (t ∷ p)
    → Tracks q (note_completion m now s) p
unfolding note_completion
note_completion-Tracks q m now s t p q64 k = record {
  account = (sends_and_completions s.flow (length (t ∷ p)) k.account).1 (length p) refl;
  counted = omega (arith, k.counted, k.deep);
  deep = omega (arith, k.deep);
  head = omega (arith, k.head);
  tail = omega arith;
  size = k.size;
  stamped = let whole = k.stamped in cc;
}

-- A send that `can_send` has let through, or not
send_if-Tracks :
    (q : ℕ) (post : Post) (go : Bool) (s : Stream) (p : List ℕ)
    → q ≤ 64
    → Tracks q s p
    → (go ≡ true → length p < s.flow.high_watermark)
    → Tracks q (send_if q post go s).state (extend post (send_if q post go s).posted p)
unfolding send_if note_stall extend
send_if-Tracks q (post_ok t) false s p q64 k room = frame q s p k _ refl refl refl refl refl
send_if-Tracks q (post_error c) false s p q64 k room = frame q s p k _ refl refl refl refl refl
send_if-Tracks q (post_ok t) true s p q64 k room = elim (Bool-cases (ltb s.outstanding q)) [
  | inl e ↦ rw e (
      note_send-Tracks q s p k t q64 (omega (arith, ltb→lt s.outstanding q e, k.counted))
        (room refl))
  | inr e ↦ rw e k
]
send_if-Tracks q (post_error c) true s p q64 k room = elim (Bool-cases (ltb s.outstanding q)) [
  | inl e ↦ rw e k
  | inr e ↦ rw e k
]

can_send-keeps : (f : Flow) → (can_send f).1.high_watermark ≡ f.high_watermark
unfolding can_send
can_send-keeps f = ground arith

room_of_answer :
    (f : Flow) (n : ℕ) → Outstanding f n → (can_send f).0 ≡ true → n < (can_send f).1.high_watermark
room_of_answer f n o y = elim ((can_send_lem f n o).1) [
  | inl (t, l) ↦ omega (arith, l, can_send-keeps f)
  | inr (t, l) ↦ absurd (true≢false (sym y ∙ t))
]

pub send_phase-Tracks :
    (q : ℕ) (post : Post) (s : Stream) (p : List ℕ)
    → q ≤ 64
    → Tracks q s p
    → Tracks q (send_phase q post s).state (extend post (send_phase q post s).posted p)
unfolding send_phase
send_phase-Tracks q post s p q64 k =
    send_if-Tracks q post (can_send s.flow).0 _ p q64 (asked q s p k)
      (room_of_answer s.flow (length p) k.account)

pub drain_recv-Tracks :
    (q m : ℕ) (found : List Bool) (s : Stream) (p : List ℕ)
    → Tracks q s p
    → Tracks q (drain_recv m found s) p
unfolding drain_recv
drain_recv-Tracks q m [] s p k = k
drain_recv-Tracks q m (true ∷ more) s p k =
    drain_recv-Tracks q m more _ p (frame q s p k _ refl refl refl refl refl)
drain_recv-Tracks q m (false ∷ more) s p k =
    drain_recv-Tracks q m more _ p (frame q s p k _ refl refl refl refl refl)
