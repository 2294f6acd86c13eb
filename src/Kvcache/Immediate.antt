-- ===== src/Kvcache/Immediate.antt =====
-- The immediate of a write, include/kvcache_proto.h.
use dmaplane_master.Base.{ℕ, ◌^◌, ◌<◌, ◌≡◌, arith}
use dmaplane_master.Kvcache.{imm_encode, imm_layer, imm_chunk, sentinel}

-- The layer and the chunk, both of 16 bits, are read back from the immediate that encodes them; it
-- is a 32-bit value, and it is the sentinel only for the last layer's last chunk.
pub imm_roundtrip :
    (layer chunk : ℕ)
    → layer < 2 ^ 16
    → chunk < 2 ^ 16
    → let imm = imm_encode layer chunk in
      (imm_layer imm ≡ layer)
      × (imm_chunk imm ≡ chunk)
      × (imm < 2 ^ 32)
      × (imm ≡ sentinel → (layer ≡ 65535) × (chunk ≡ 65535))
imm_roundtrip layer chunk hl hc =
    (omega arith, omega arith, omega arith, λ e. (omega (arith, e), omega (arith, e)))
