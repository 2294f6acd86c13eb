-- ===== src/Flow/Sustained/Runs.antt =====
-- Runs of the loop of `dmaplane_sustained_stream` and of the drain after it,
-- driver/flow_control.c.
use Prim.{Unit}
use dmaplane_master.Base.{
  ℕ, suc, ◌-◌, ◌≤◌, ◌<◌, ◌≡◌, ◌≢◌, arith, refl, ap, sym, ◌∙◌, subst, Bool, true, false, List, [],
  pos, ◌∷◌, Option, none, some, Option-cases, Bool-cases, inl, inr, u32_mod, ◌==◌, Errno,
}
use dmaplane_master.Flow.Credits.{Windowed}
use dmaplane_master.Flow.Stream.{
  Stream, stream_start, Poll, nothing, success, failure, poll_error, Phase, window_check,
  send_phase, poll_phase,
}
use dmaplane_master.Flow.Window.{Reach, begin, window, send, complete, receive}
use dmaplane_master.Flow.Pairing.{Reach-Tracks, stream_in_flight}
use dmaplane_master.Flow.Sustained.{
  Turn, go_on, turn, loop, end_turn, after_send, drain, drain_poll,
}

-- How many completions the polls of a drain find
unfoldable pub found_in : List (Option Bool × ℕ) → ℕ
found_in [] = 0
found_in ((none, r) ∷ more) = found_in more
found_in ((some b, r) ∷ more) = suc (found_in more)

-- The drain takes every completion that it finds off the count of sends in flight and stops at 0: with
-- n sends in flight, n completions among its polls leave none.
pub drain_lem :
    (m : ℕ) (polls : List (Option Bool × ℕ)) (s : Stream)
    → s.outstanding < u32_mod
    → (drain m polls s).outstanding ≡ s.outstanding - found_in polls
unfolding drain drain_poll found_in
drain_lem m [] s h = omega arith
drain_lem m ((none, r) ∷ more) s h = elim (Bool-cases (s.outstanding == 0)) [
  | inl z ↦ rw z (ground arith)
  | inr z ↦ rw z (drain_lem m more _ h)
]
drain_lem m ((some true, r) ∷ more) s h = elim (Bool-cases (s.outstanding == 0)) [
  | inl z ↦ rw z (ground arith)
  | inr z ↦
      let nz : s.outstanding ≢ 0 = ground arith in
      rw z (drain_lem m more _ (omega arith) ∙ omega arith)
]
drain_lem m ((some false, r) ∷ more) s h = elim (Bool-cases (s.outstanding == 0)) [
  | inl z ↦ rw z (ground arith)
  | inr z ↦
      let nz : s.outstanding ≢ 0 = ground arith in
      rw z (drain_lem m more _ (omega arith) ∙ omega arith)
]

abbrev IsSuccess : Poll → Type 0
IsSuccess p = (now : ℕ) × (recv : Option Errno) × (p ≡ success now recv)

-- The send queue delivers a completion only while a send is in flight.
abbrev pub IsHonest : ℕ → Turn → Stream → Type 0
IsHonest q a s =
    IsSuccess a.poll → (send_phase q a.post (window_check a.now s)).state.outstanding ≢ 0

unfoldable pub AreHonest : ℕ → ℕ → List Turn → Stream → Type 0
AreHonest q m [] s = Unit
AreHonest q m (a ∷ more) s = IsHonest q a s × AreHonest q m more (turn q m a s).0

module _ (q m : ℕ) (d : Stream) (w : Windowed d.flow) (q64 : q ≤ 64) where
  abbrev Reached : Stream → Type 0
  Reached s = (p : List ℕ) × Reach q m d s p

  poll_reaches :
      (x : Poll) (s : Stream) (p : List ℕ)
      → Reach q m d s p
      → (IsSuccess x → s.outstanding ≢ 0)
      → (poll_phase q m x s).error ≡ none
      → Reached (poll_phase q m x s).state
  unfolding poll_phase
  poll_reaches nothing s p r h e = (p, r)
  poll_reaches failure s p r h e = cc
  poll_reaches poll_error s p r h e = cc
  poll_reaches (success now recv) s [] r h e =
      absurd (h (now, recv, refl) (Reach-Tracks q m d w q64 r).counted)
  poll_reaches (success now recv) s (t ∷ p) r h e = (p, complete now recv r)

  end_reaches :
      (found : List Bool) (f : Phase)
      → (f.error ≡ none → Reached f.state)
      → (end_turn m found f).1 ≡ none
      → Reached (end_turn m found f).0
  end_reaches found f r e = elim (Option-cases f.error) [
    | inl n ↦ let (p, k) = r n in rw n (p, receive found k)
    | inr (c, y) ↦
        let bad : some c ≡ none =
          sym (ap (λ o. (end_turn m found (record f { error = o })).1) y) ∙ e in
        cc
  ]

  turn_reaches :
      (a : Turn) (s : Stream)
      → Reached s
      → IsHonest q a s
      → (turn q m a s).1 ≡ none
      → Reached (turn q m a s).0
  unfolding turn
  turn_reaches a s (p, r) h e =
      let f = send_phase q a.post (window_check a.now s) in
      let sent = send a.post (window a.now r) in
      elim (Option-cases f.error) [
        | inl n ↦
            let to_end = ap (λ o. after_send q m a (record f { error = o })) n in
            subst (λ t. Reached t.0) (sym to_end)
              (end_reaches a.found (poll_phase q m a.poll f.state)
                (poll_reaches a.poll f.state _ sent h) (sym (ap (λ t. t.1) to_end) ∙ e))
        | inr (c, y) ↦
            let bad : some c ≡ none =
              sym (ap (λ o. (after_send q m a (record f { error = o })).1) y) ∙ e in
            cc
      ]

  -- A run of the loop over any turns that are not cut short by an error, in which the send queue
  -- delivers a completion only while a send is in flight, from a state that the phases reach, ends in
  -- one. The loop has a window in order and a queue depth of at most 64.
  loop_reaches :
      (turns : List Turn) (s : Stream)
      → Reached s
      → AreHonest q m turns s
      → (loop q m turns s).1 ≡ none
      → Reached (loop q m turns s).0
  unfolding loop AreHonest
  loop_reaches [] s r h e = r
  loop_reaches (a ∷ more) s r (h, hs) e = elim (Option-cases (turn q m a s).1) [
    | inl n ↦
        let on = ap (go_on (turn q m a s).0 (loop q m more (turn q m a s).0)) n in
        subst (λ t. Reached t.0) (sym on)
          (loop_reaches more _ (turn_reaches a s r h n) hs (sym (ap (λ t. t.1) on) ∙ e))
    | inr (c, y) ↦
        let out = ap (go_on (turn q m a s).0 (loop q m more (turn q m a s).0)) y in
        let bad : some c ≡ none = sym (ap (λ t. t.1) out) ∙ e in cc
  ]

  -- A run of the loop from its start over any turns that are not cut short by an error, in which the send
  -- queue delivers a completion only while a send is in flight, with a window in order and a queue depth
  -- of at most 64: the sends still in flight at its end are no more than the queue depth and the high
  -- watermark, every credit that is missing is one of theirs, and a drain that finds as many completions
  -- leaves none in flight.
  pub loop_in_flight :
      (start : ℕ) (turns : List Turn)
      → AreHonest q m turns (stream_start q start d)
      → (loop q m turns (stream_start q start d)).1 ≡ none
      → let s = (loop q m turns (stream_start q start d)).0 in
        (s.outstanding ≤ q)
        × (s.outstanding ≤ s.flow.high_watermark)
        × (s.flow.credits ≡ pos (s.flow.max_credits - s.outstanding))
        × ((polls : List (Option Bool × ℕ))
            → s.outstanding ≤ found_in polls
            → (drain m polls s).outstanding ≡ 0)
  loop_in_flight start turns h e =
      let s = (loop q m turns (stream_start q start d)).0 in
      let (p, r) = loop_reaches turns (stream_start q start d) ([], begin start) h e in
      let (same, deep, below, credits) = stream_in_flight q m d w q64 r in
      (
        deep,
        below,
        credits,
        λ polls k. drain_lem m polls s (omega (arith, deep, q64)) ∙ omega (arith, k),
      )
