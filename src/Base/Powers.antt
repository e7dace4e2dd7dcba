-- ===== src/Base/Powers.antt =====
-- Powers of two at variable exponents, and division and remainder by them.
use Prim.Native.Nat.{ℕ, zero, suc, ◌+◌, ◌-◌, ◌*◌, ◌^◌, ◌≤◌}
use mathlib.Core.Path.{◌≡◌, ap, ◌∙◌}
use native.Mathlib.Nat.{pow-suc, pow-zero, one-le-pow, zero-add, suc-add}
use native.Mathlib.Omega.{arith}

pub pow_add : (b m n : ℕ) → b ^ (m + n) ≡ b ^ m * b ^ n
pow_add b zero n = rw (zero-add n, pow-zero b) (omega arith)
pow_add b (suc m) n = rw (suc-add m n, pow-suc b (m + n), pow-suc b m, pow_add b m n) (grind arith)

pub two-pow-pos : (k : ℕ) → 1 ≤ 2 ^ k
two-pow-pos k = one-le-pow k 2 (omega arith)

-- 2 ^ n splits at any k up to n.
pub two-pow-split : (k n : ℕ) → k ≤ n → 2 ^ n ≡ 2 ^ k * 2 ^ (n - k)
two-pow-split k n h =
    let e : n ≡ k + (n - k) = omega arith in ap (λ (t : ℕ). 2 ^ t) e ∙ pow_add 2 k (n - k)
