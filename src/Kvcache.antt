-- ===== src/Kvcache.antt =====
-- The chunk protocol of the key-value cache, include/kvcache_proto.h, and the helpers that both of
-- its ends share, examples/kvcache/kvcache_common.h.
pub mod Immediate
pub mod Layers
pub mod Pattern
use dmaplane_master.Base.{
  ◌-◌, ℕ, zero, suc, ◌+◌, ◌*◌, ◌/◌, ◌%◌, ◌^◌, Bool, true, false, ◌&&◌, ◌||◌, not, ◌==◌, ltb, List,
  [], ◌∷◌, ◌++◌, Option, none, some, if◌then◌else◌, length,
}

-- KVCACHE_IMM_ENCODE: the low 16 bits of each number, the layer's above the chunk's
abbrev pub imm_encode : (layer chunk : ℕ) → ℕ
imm_encode layer chunk = (layer % 65536) * 65536 + chunk % 65536

-- KVCACHE_IMM_LAYER and KVCACHE_IMM_CHUNK, of a 32-bit value
abbrev pub imm_layer : ℕ → ℕ
imm_layer imm = imm / 65536 % 65536

abbrev pub imm_chunk : ℕ → ℕ
imm_chunk imm = imm % 65536

-- KVCACHE_SENTINEL
abbrev pub sentinel : ℕ
sentinel = 2 ^ 32 - 1

abbrev pub max_layers : ℕ
max_layers = 1024

-- `struct layer_bitmap`. A 64-bit word is the function that gives its bits.
pub record Bitmap : Type 0 where
  pub bits : ℕ → ℕ → Bool
  pub chunks_per_layer : ℕ
  pub num_layers : ℕ

abbrev pub bitmap_init : (num_layers chunks_per_layer : ℕ) → Bitmap
bitmap_init n k = record { bits = λ l c. false; chunks_per_layer = k; num_layers = n }

-- `bitmap_set`: the or with one bit
unfoldable pub bitmap_set : Bitmap → (layer chunk : ℕ) → Bitmap
bitmap_set bm layer chunk =
    if ltb layer max_layers && ltb chunk 64
    then record bm { bits = λ l c. bm.bits l c || (l == layer && c == chunk) }
    else bm

-- Are the lowest `n` bits of a word all set? This is `(bits & expected) == expected`, where
-- `expected` is `(1 << n) - 1` and `n` is below 64.
unfoldable pub low_bits : ℕ → (ℕ → Bool) → Bool
low_bits zero w = true
low_bits (suc n) w = low_bits n w && w n

abbrev pub bitmap_layer_complete : Bitmap → ℕ → Bool
bitmap_layer_complete bm layer = low_bits bm.chunks_per_layer (bm.bits layer)

-- The loop of `bitmap_all_complete`, with `n` layers left from layer `i` on
unfoldable pub all_layers : Bitmap → (n i : ℕ) → Bool
all_layers bm zero i = true
all_layers bm (suc n) i =
    let rest = all_layers bm n (suc i) in if not (bitmap_layer_complete bm i) then false else rest

abbrev pub bitmap_all_complete : Bitmap → Bool
bitmap_all_complete bm = all_layers bm bm.num_layers 0

-- `struct latency_stats`; its count is the number of samples.
pub record Latency : Type 0 where
  pub samples : List ℕ
  pub capacity : ℕ

unfoldable pub latency_stats_add : Latency → ℕ → Latency
latency_stats_add ls ns =
    if ltb (length ls.samples) ls.capacity
    then record ls { samples = ls.samples ++ (ns ∷ []) }
    else ls

-- What a poll for a receive answers: an error, or the immediate of a completion after some time
pub data PollRecv : Type 0 where
  poll_failed : PollRecv
  arrival : (imm elapsed : ℕ) → PollRecv

-- What `recv_loop_poll_and_track` returns: -1, 1 or 0
pub data Tracked : Type 0 where
  failure end_of_transfer chunk_received : Tracked

unfoldable pub poll_and_track : PollRecv → Bitmap → Latency → Tracked × Bitmap × Latency
poll_and_track poll_failed bm ls = (failure, bm, ls)
poll_and_track (arrival imm elapsed) bm ls =
    if imm == sentinel then (end_of_transfer, bm, latency_stats_add ls elapsed) else (
      chunk_received,
      bitmap_set bm (imm_layer imm) (imm_chunk imm),
      latency_stats_add ls elapsed,
    )

-- `struct credit_tracker`, without the times of stalls
pub record Credits : Type 0 where
  pub credits : ℕ
  pub max_credits : ℕ
  pub total_replenished : ℕ

abbrev pub credit_init : ℕ → Credits
credit_init n = record { credits = n; max_credits = n; total_replenished = 0 }

-- `recv_loop_replenish`: `posted` tells whether the driver has taken the receive.
abbrev pub replenish_credits : (posted : Bool) → Credits → Credits
replenish_credits posted ct =
    if posted
    then record ct { credits = ct.credits + 1; total_replenished = ct.total_replenished + 1 }
    else ct

-- The receiver's state, and the number of credits that it has sent to the other end
pub record Receiver : Type 0 where
  pub bitmap : Bitmap
  pub latency : Latency
  pub tracker : Credits
  pub credits_sent : ℕ

-- What one round is answered: the poll, the post of a receive, the send of a credit
pub record Round : Type 0 where
  pub poll : PollRecv
  pub posted : Bool
  pub credited : Bool

-- Whether the loop goes on, leaves at the sentinel or its end, or gives up with an error
pub data Next : Type 0 where
  go_on leave give_up : Next

unfoldable pub after_track : Round → Tracked → Receiver → Next × Receiver
after_track r failure s = (give_up, s)
after_track r end_of_transfer s = (leave, s)
after_track r chunk_received s =
    let t = record s { tracker = replenish_credits r.posted s.tracker } in
    if not r.posted
    then (give_up, t)
    else if not r.credited
    then (give_up, t)
    else (go_on, record t { credits_sent = s.credits_sent + 1 })

unfoldable pub recv_turn : Round → Receiver → Next × Receiver
recv_turn r s =
    let (t, bm, ls) = poll_and_track r.poll s.bitmap s.latency in
    after_track r t (record s { bitmap = bm; latency = ls })

-- The loop of the receiver, on what its rounds are answered
unfoldable pub recv_loop : List Round → Receiver → Next × Receiver
recv_loop [] s = (leave, s)
recv_loop (r ∷ rs) s =
    let x = recv_turn r s in
    let rest = recv_loop rs x.1 in
    if not (bitmap_all_complete s.bitmap)
    then (elim (x.0) [ go_on ↦ rest | leave ↦ x | give_up ↦ x ])
    else (leave, s)

-- `fill_pattern`: the bytes of a chunk, with `n` left from offset `i` on
unfoldable pub fill_pattern : (layer chunk : ℕ) → (n i : ℕ) → List ℕ
fill_pattern layer chunk zero i = []
fill_pattern layer chunk (suc n) i =
    (layer * 7 + chunk * 13 + i) % 256 ∷ fill_pattern layer chunk n (suc i)

-- `verify_pattern`: the number of bytes that are not as expected, from offset `i` on and with `errs`
-- counted so far; none where `int errs` overflows.
unfoldable pub verify_pattern : List ℕ → (layer chunk i errs : ℕ) → Option ℕ
verify_pattern [] layer chunk i errs = some errs
verify_pattern (b ∷ bs) layer chunk i errs =
    let counted = if b == (layer * 7 + chunk * 13 + i) % 256 then errs else errs + 1 in
    let rest = verify_pattern bs layer chunk (suc i) counted in
    if counted == 2 ^ 31 then none else rest
