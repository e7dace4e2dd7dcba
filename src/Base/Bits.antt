-- ===== src/Base/Bits.antt =====
-- The operators `|` and `&` on words, by which the code joins and cuts fields.
mod Digit
use Prim.Native.Nat.{ℕ, zero, suc, ◌+◌, ◌-◌, ◌*◌, ◌/◌, ◌%◌, ◌^◌, ◌≤◌, ◌<◌, bit_and, bit_or}
use Prim.Native.Nat.{bit_or-bitwise}
use mathlib.Core.Path.{◌≡◌, refl, ap, sym, ◌∙◌}
use native.Mathlib.Nat.{
  pow-suc, pow-zero, div-add-mod, mod-lt, mod-eq_of_lt, div-div-eq-div-mul, add-mul-mod_self_left,
}
use bitcoin_miner.Base.Powers.{two-pow-pos}
use native.Mathlib.Omega.{arith}
use Digit.{bit_or-digit, bit_and-digit}

bit_or-zero_below : (n a : ℕ) → a ≤ n → bit_or a 0 ≡ a
bit_or-zero_below n zero h = refl
bit_or-zero_below zero (suc a) h = absurd (omega arith)
bit_or-zero_below (suc n) (suc a) h =
    omega (arith, bit_or-digit (suc a) 0, bit_or-zero_below n (suc a / 2) (omega arith))

pub bit_or-zero : (a : ℕ) → bit_or a 0 ≡ a
bit_or-zero a = bit_or-zero_below a a (omega arith)

pub zero-bit_or : (a : ℕ) → bit_or 0 a ≡ a
zero-bit_or a = bit_or-bitwise 0 a

bit_and-zero_below : (n a : ℕ) → a ≤ n → bit_and a 0 ≡ 0
bit_and-zero_below n zero h = refl
bit_and-zero_below zero (suc a) h = absurd (omega arith)
bit_and-zero_below (suc n) (suc a) h =
    omega (arith, bit_and-digit (suc a) 0, bit_and-zero_below n (suc a / 2) (omega arith))

pub bit_and-zero : (a : ℕ) → bit_and a 0 ≡ 0
bit_and-zero a = bit_and-zero_below a a (omega arith)

double : (q k : ℕ) → q * 2 ^ suc k ≡ 2 * (q * 2 ^ k)
double q k = omega (arith, ap (λ (t : ℕ). q * t) (pow-suc 2 k))

-- A high part of whole multiples of 2 ^ k, and a low part below 2 ^ k, in either order.
pub high-bit_or : (k q r : ℕ) → r < 2 ^ k → bit_or (q * 2 ^ k) r ≡ q * 2 ^ k + r
high-bit_or zero q r fits = ground (arith, pow-zero 2, bit_or-zero q)
high-bit_or (suc k) q r fits = ground (
  arith,
  bit_or-digit (q * 2 ^ suc k) r,
  double q k,
  pow-suc 2 k,
  high-bit_or k q (r / 2) (omega (arith, pow-suc 2 k)),
)

pub low-bit_or : (k q r : ℕ) → r < 2 ^ k → bit_or r (q * 2 ^ k) ≡ r + q * 2 ^ k
low-bit_or zero q r fits = ground (arith, pow-zero 2, zero-bit_or q)
low-bit_or (suc k) q r fits = ground (
  arith,
  bit_or-digit r (q * 2 ^ suc k),
  double q k,
  pow-suc 2 k,
  low-bit_or k q (r / 2) (omega (arith, pow-suc 2 k)),
)

mod-two-pow-suc : (k a : ℕ) → a % 2 ^ suc k ≡ a / 2 % 2 ^ k * 2 + a % 2
mod-two-pow-suc k a =
    let low : ℕ = a / 2 % 2 ^ k * 2 + a % 2 in
    let split : a ≡ low + 2 ^ suc k * (a / 2 / 2 ^ k) =
      ground (arith, pow-suc 2 k, div-add-mod (a / 2) (2 ^ k), double (a / 2 / 2 ^ k) k) in
    let fits : low < 2 ^ suc k = ground (arith, pow-suc 2 k, mod-lt (a / 2) (two-pow-pos k)) in
    ap (λ (t : ℕ). t % 2 ^ suc k) split
    ∙ add-mul-mod_self_left low (2 ^ suc k) (a / 2 / 2 ^ k)
    ∙ mod-eq_of_lt fits

-- The mask of k ones.
pub bit_and_low : (k a : ℕ) → bit_and a (2 ^ k - 1) ≡ a % 2 ^ k
bit_and_low zero a = ground (arith, pow-zero 2, bit_and-zero a)
bit_and_low (suc k) a = ground (
  arith,
  bit_and-digit a (2 ^ suc k - 1),
  pow-suc 2 k,
  two-pow-pos k,
  mod-two-pow-suc k a,
  bit_and_low k (a / 2),
)

-- A mask whose ones start at bit k.
pub bit_and_above : (k a m : ℕ) → bit_and a (m * 2 ^ k) ≡ bit_and (a / 2 ^ k) m * 2 ^ k
bit_and_above zero a m =
    let whole : a / 2 ^ 0 ≡ a = omega (arith, pow-zero 2) in
    let mask : m * 2 ^ 0 ≡ m = omega (arith, pow-zero 2) in
    rw (whole, mask) (omega (arith, ap (λ (t : ℕ). bit_and a m * t) (pow-zero 2)))
bit_and_above (suc k) a m =
    let half : m * 2 ^ suc k / 2 ≡ m * 2 ^ k = omega (arith, double m k) in
    let outer : a / 2 ^ suc k ≡ a / 2 / 2 ^ k =
      ap (λ (t : ℕ). a / t) (pow-suc 2 k ∙ omega arith) ∙ sym (div-div-eq-div-mul a 2 (2 ^ k)) in
    let inner : bit_and (a / 2) (m * 2 ^ suc k / 2) ≡ bit_and (a / 2 / 2 ^ k) m * 2 ^ k =
      ap (λ (t : ℕ). bit_and (a / 2) t) half ∙ bit_and_above k (a / 2) m in
    rw outer (
      omega (
        arith,
        bit_and-digit a (m * 2 ^ suc k),
        inner,
        double m k,
        double (bit_and (a / 2 / 2 ^ k) m) k,
      ))
