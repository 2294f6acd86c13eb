-- ===== src/Base/Int.antt =====
-- Signed counters (`atomic_t`) as integers; `negsuc n` is -(n + 1).
use Prim.Native.Nat.{ℕ, zero, suc, ◌+◌, ◌-◌, ◌^◌, ◌≤◌}
use mathlib.Core.Path.{◌≡◌}
use native.Mathlib.Omega.{arith}
use dmaplane_master.Base.Tests.{◌==◌, if◌then◌else◌}

pub data ℤ : Type 0 where
  pos : ℕ → ℤ
  negsuc : ℕ → ℤ

abbrev pub pos_part : ℤ → ℕ
pos_part (pos n) = n
pos_part (negsuc n) = 0

abbrev pub neg_part : ℤ → ℕ
neg_part (pos n) = 0
neg_part (negsuc n) = suc n

-- `atomic_inc`
unfoldable pub inc : ℤ → ℤ
inc (pos n) = pos (suc n)
inc (negsuc zero) = pos 0
inc (negsuc (suc n)) = negsuc n

-- `atomic_dec`
unfoldable pub dec : ℤ → ℤ
dec (pos zero) = negsuc 0
dec (pos (suc n)) = pos n
dec (negsuc n) = negsuc (suc n)

-- The same on 32 bits, where the kernel's `atomic_t` wraps around
unfoldable pub inc32 : ℤ → ℤ
inc32 (pos n) = if n == 2 ^ 31 - 1 then negsuc n else pos (suc n)
inc32 (negsuc n) = inc (negsuc n)

unfoldable pub dec32 : ℤ → ℤ
dec32 (negsuc n) = if n == 2 ^ 31 - 1 then pos n else negsuc (suc n)
dec32 (pos n) = dec (pos n)

pub inc_parts : (z : ℤ) → pos_part (inc z) + neg_part z ≡ neg_part (inc z) + pos_part z + 1
unfolding inc
inc_parts (pos n) = omega arith
inc_parts (negsuc zero) = omega arith
inc_parts (negsuc (suc n)) = omega arith

pub dec_parts : (z : ℤ) → pos_part (dec z) + neg_part z + 1 ≡ neg_part (dec z) + pos_part z
unfolding dec
dec_parts (pos zero) = omega arith
dec_parts (pos (suc n)) = omega arith
dec_parts (negsuc n) = omega arith

pub eq_pos_of_parts : (z : ℤ) (c : ℕ) → pos_part z ≡ neg_part z + c → z ≡ pos c
eq_pos_of_parts z c h = ground arith

pub neg_part_of_le : (z : ℤ) (a b : ℕ) → pos_part z + a ≡ neg_part z + b → neg_part z ≤ a
neg_part_of_le z a b h = ground arith
