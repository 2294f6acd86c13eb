-- ===== src/Tests/Sweeps.antt =====
-- Two points of a sweep, with three iterations, and curves of throughput.
use dmaplane_master.Base.{
  inr, suc, get_elem?, ℕ, zero, ◌≡◌, ◌≤◌, ◌<◌, refl, arith, true, some, List, [], ◌∷◌,
}
use dmaplane_master.Sweep.{SweepParams, SweepTurn, saturation_qdepth}
use dmaplane_master.Sweep.Runs.{served}
use dmaplane_master.Sweep.Saturation.{IsLargest, IsShort, Flattens, at_point, saturation_qdepth_lem}

abbrev params : SweepParams
params = record { msg_size = 4096; iterations = 3; min_qdepth = 2; max_qdepth = 8; step = 2 }

abbrev replies : List SweepTurn
replies = served ((40, 1, true) ∷ (50, 1, true) ∷ (60, 1, true) ∷ [])

abbrev curve : List ℕ
curve = 500 ∷ 960 ∷ 1000 ∷ 990 ∷ []

below : (j y : ℕ) → j < 1 → get_elem? curve j ≡ some y → IsShort 1000 y
below zero y l h = ground (arith, h)
below (suc j) y l h = absurd (omega (arith, l))

at_most : (j y : ℕ) → get_elem? curve j ≡ some y → y ≤ 1000
at_most zero y h = ground (arith, h)
at_most (suc zero) y h = ground (arith, h)
at_most (suc (suc zero)) y h = ground (arith, h)
at_most (suc (suc (suc zero))) y h = ground (arith, h)
at_most (suc (suc (suc (suc j)))) y h = cc

largest : IsLargest 1000 curve
largest = record { above = at_most; taken = inr (2, refl) }

flat : Flattens 1000 curve (some 1)
flat = at_point 1 960 (omega arith) (omega arith) refl (omega arith) below

saturation_qdepth_lem_example : saturation_qdepth params curve ≡ 4
saturation_qdepth_lem_example =
    saturation_qdepth_lem params curve 1000 (some 1) largest (omega arith) flat
