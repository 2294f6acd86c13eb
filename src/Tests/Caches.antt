-- ===== src/Tests/Caches.antt =====
-- A transfer of two layers of two chunks.
use dmaplane_master.Base.{some, ℕ, ◌^◌, ◌<◌, ◌≡◌, ◌≢◌, ◌↔◌, true, [], ◌∷◌, List, arith}
use dmaplane_master.Kvcache.{
  imm_encode, imm_layer, imm_chunk, sentinel, Latency, credit_init, bitmap_all_complete, recv_loop,
  fill_pattern, verify_pattern,
}
use dmaplane_master.Kvcache.Immediate.{imm_roundtrip}
use dmaplane_master.Kvcache.Layers.{
  sent, arrivals, all_sent, and_then, receiver_start, recv_loop_completes,
}
use dmaplane_master.Kvcache.Pattern.{seed, verify-fill}

abbrev layer : ℕ
layer = 31

abbrev chunk : ℕ
chunk = 15

imm_roundtrip_example :
    (imm_layer (imm_encode layer chunk) ≡ layer)
    × (imm_chunk (imm_encode layer chunk) ≡ chunk)
    × (imm_encode layer chunk < 2 ^ 32)
    × (imm_encode layer chunk ≡ sentinel → (layer ≡ 65535) × (chunk ≡ 65535))
imm_roundtrip_example = imm_roundtrip layer chunk (omega arith) (omega arith)

abbrev chunks : List (ℕ × ℕ)
chunks = (0, 1) ∷ (1, 0) ∷ (0, 0) ∷ (1, 1) ∷ []

abbrev no_samples : Latency
no_samples = record { samples = []; capacity = 8 }

recv_loop_completes_example :
    bitmap_all_complete
        (recv_loop (arrivals 5 chunks) (receiver_start 2 2 no_samples (credit_init 4))).1.bitmap
      ≡ true
    ↔ ((l c : ℕ) → l < 2 → c < 2 → sent chunks l c ≡ true)
recv_loop_completes_example =
    recv_loop_completes 2 2 5 chunks no_samples (credit_init 4) (omega arith) (omega arith) (
      and_then 0 1 _ (omega arith) (omega arith) (
        and_then 1 0 _ (omega arith) (omega arith) (
          and_then 0 0 _ (omega arith) (omega arith)
            (and_then 1 1 _ (omega arith) (omega arith) all_sent))))

verify-fill_example :
    (verify_pattern (fill_pattern 13 0 4 0) 13 0 0 0 ≡ some 0)
    × (seed 13 0 ≡ seed 0 7 → verify_pattern (fill_pattern 13 0 4 0) 0 7 0 0 ≡ some 0)
    × (seed 13 0 ≢ seed 0 7 → verify_pattern (fill_pattern 13 0 4 0) 0 7 0 0 ≡ some 4)
    × (seed 13 0 ≡ seed 0 7)
verify-fill_example = verify-fill 13 0 0 7 4 (omega arith) (omega arith) (omega arith)
