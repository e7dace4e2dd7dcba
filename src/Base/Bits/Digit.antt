-- ===== src/Base/Bits/Digit.antt =====
-- The native operations on bits, which stand for a recursion on binary digits with the first
-- operand as fuel, by their lowest digit.
use Prim.Native.Nat.{
  ℕ, zero, suc, ◌+◌, ◌*◌, ◌/◌, ◌%◌, ◌≤◌, min, max, bit_and, bit_or, digits, bitwise,
  bit_and-bitwise, bit_or-bitwise,
}
use mathlib.Core.Path.{◌≡◌, refl}
use native.Mathlib.Omega.{arith}

module _ (last : ℕ → ℕ) (op : ℕ → ℕ → ℕ) where
  -- More fuel than the operand changes nothing.
  digits-bitwise :
      (fuel a b : ℕ) → a ≤ fuel → (m : ℕ) → a ≤ m → digits last op fuel a b ≡ digits last op m a b
  digits-bitwise zero zero b h zero k = refl
  digits-bitwise zero zero b h (suc m) k = refl
  digits-bitwise zero (suc a) b h m k = absurd (omega arith)
  digits-bitwise (suc fuel) zero b h zero k = refl
  digits-bitwise (suc fuel) zero b h (suc m) k = refl
  digits-bitwise (suc fuel) (suc a) b h zero k = absurd (omega arith)
  digits-bitwise (suc fuel) (suc a) b h (suc m) k =
      rw (digits-bitwise fuel (suc a / 2) (b / 2) (omega arith) m (omega arith))

  pub bitwise-digit :
      (a b : ℕ)
      → bitwise last op (suc a) b ≡ bitwise last op (suc a / 2) (b / 2) * 2 + op (suc a % 2) (b % 2)
  bitwise-digit a b =
      omega (arith, digits-bitwise a (suc a / 2) (b / 2) (omega arith) (suc a / 2) (omega arith))

pub bit_or-digit : (a b : ℕ) → bit_or a b ≡ bit_or (a / 2) (b / 2) * 2 + max (a % 2) (b % 2)
bit_or-digit zero b = simp bit_or-bitwise (omega arith)
bit_or-digit (suc a) b = simp bit_or-bitwise (bitwise-digit (λ y. y) max a b)

pub bit_and-digit : (a b : ℕ) → bit_and a b ≡ bit_and (a / 2) (b / 2) * 2 + min (a % 2) (b % 2)
bit_and-digit zero b = simp bit_and-bitwise (omega arith)
bit_and-digit (suc a) b = simp bit_and-bitwise (bitwise-digit (λ y. 0) min a b)
