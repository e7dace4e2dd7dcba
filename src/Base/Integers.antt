-- ===== src/Base/Integers.antt =====
-- The signed integers over the native numbers.
use Prim.Native.Nat.{ℕ, zero, suc, ◌+◌, ◌-◌, ◌^◌}
use mathlib.Core.Bool.{Bool, false}
use bitcoin_miner.Base.Tests.{◌==◌, if◌then◌else◌}

-- `negsuc n` is the number - (n + 1).
pub data ℤ : Type 0 where
  pos : ℕ → ℤ
  negsuc : ℕ → ℤ

abbrev pub magnitude : ℤ → ℕ
magnitude (pos n) = n
magnitude (negsuc n) = suc n

abbrev pub negate : ℕ → ℤ
negate zero = pos 0
negate (suc n) = negsuc n

infix 50 ◌=z=◌
abbrev pub ◌=z=◌ : ℤ → ℤ → Bool
pos m =z= pos n = m == n
pos m =z= negsuc n = false
negsuc m =z= pos n = false
negsuc m =z= negsuc n = m == n

-- `z + 1` on int64_t, as an atomic adds it: the greatest number wraps to the least.
abbrev pub increment64 : ℤ → ℤ
increment64 (pos n) = if n == 2 ^ 63 - 1 then negsuc (2 ^ 63 - 1) else pos (n + 1)
increment64 (negsuc zero) = pos 0
increment64 (negsuc (suc n)) = negsuc n
