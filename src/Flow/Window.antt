-- ===== src/Flow/Window.antt =====
-- The sends in flight in the loop of `dmaplane_sustained_stream`, against its variables.
use dmaplane_master.Base.{
  ℕ, zero, suc, ◌+◌, ◌%◌, ◌≤◌, ◌<◌, ◌≡◌, arith, ap, ap₂, ◌∙◌, Bool, true, false, List, [], ◌∷◌,
  ◌++◌, length, set, get_or, get_or-set_self, get_or-set_ne, Option, add32, u32_mod, Errno,
}
use dmaplane_master.Flow.Credits.{Outstanding}
use dmaplane_master.Flow.Stream.{
  Stream, Post, post_ok, post_error, success, stream_start, window_check, send_phase, poll_phase,
  drain_recv, ts_ring_size,
}

-- The n stamps of the ring from counter t on
abbrev pub stamps : List ℕ → ℕ → ℕ → List ℕ
stamps ts t zero = []
stamps ts t (suc n) = get_or ts (t % ts_ring_size) 0 ∷ stamps ts (add32 t 1) n

pub stamps-set :
    (ts : List ℕ) (x n t i : ℕ)
    → length ts ≡ ts_ring_size
    → n < ts_ring_size
    → i ≡ (t + n) % ts_ring_size
    → stamps (set ts i x) t (suc n) ≡ stamps ts t n ++ (x ∷ [])
stamps-set ts x zero t i hs hn e =
    ap (λ y. y ∷ [])
      (ap (λ j. get_or (set ts j x) (t % ts_ring_size) 0) (omega arith)
        ∙ get_or-set_self ts (t % ts_ring_size) x 0 (omega arith))
stamps-set ts x (suc n) t i hs hn e =
    ap₂ ◌∷◌ (get_or-set_ne ts i (t % ts_ring_size) x 0 (omega arith))
      (stamps-set ts x n (add32 t 1) i hs (omega arith) (omega arith))

-- The stamps of the sends in flight after a phase
unfoldable pub extend : Post → Bool → List ℕ → List ℕ
extend (post_ok t) true p = p ++ (t ∷ [])
extend (post_ok t) false p = p
extend (post_error e) posted p = p

-- The states of the loop, with the stamps of the sends in flight, oldest first. A completion is found
-- only while a send is in flight.
pub data Reach (q m : ℕ) (d : Stream) : Stream → List ℕ → Type 0 where
  begin : (start : ℕ) → Reach q m d (stream_start q start d) []
  window :
      {s : Stream} {p : List ℕ} (now : ℕ) → Reach q m d s p → Reach q m d (window_check now s) p
  send :
      {s : Stream} {p : List ℕ} (post : Post)
      → Reach q m d s p
      → Reach q m d (send_phase q post s).state (extend post (send_phase q post s).posted p)
  complete :
      {s : Stream} {t : ℕ} {p : List ℕ} (now : ℕ) (recv : Option Errno)
      → Reach q m d s (t ∷ p)
      → Reach q m d (poll_phase q m (success now recv) s).state p
  receive :
      {s : Stream} {p : List ℕ} (found : List Bool)
      → Reach q m d s p
      → Reach q m d (drain_recv m found s) p

-- The variables agree with the stamps of the sends in flight.
pub record Tracks (q : ℕ) (s : Stream) (p : List ℕ) : Type 0 where
  pub account : Outstanding s.flow (length p)
  pub counted : s.outstanding ≡ length p
  pub deep : length p ≤ q
  pub head : s.ts_head ≡ (s.ts_tail + length p) % u32_mod
  pub tail : s.ts_tail < u32_mod
  pub size : length s.send_ts ≡ ts_ring_size
  pub stamped : stamps s.send_ts s.ts_tail (length p) ≡ p
