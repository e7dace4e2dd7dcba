-- ===== src/Bitcoin/UInt256/Limbs.antt =====
-- About the limbs of src/bitcoin/uint256.hpp and their bits.
use bitcoin_miner.Base.{
  ℕ, zero, suc, ◌+◌, ◌-◌, ◌*◌, ◌/◌, ◌%◌, ◌^◌, ◌<◌, bit_or, ◌≡◌, refl, ap, ◌∙◌, sym, arith,
  two-pow-pos, ◌<<<◌,
}
use bitcoin_miner.Base.Bits.{high-bit_or, bit_or-zero, bit_and_low}
use native.Mathlib.Nat.{
  mod-lt, mul-le-mul_right, div-div-eq-div-mul, add-mul-div_left, pow-suc, mul-div_cancel_left,
}
use bitcoin_miner.Bitcoin.UInt256.{UInt256, Fits, value, limb, set_limb, bit_at, or256, from_word}
use bitcoin_miner.Bitcoin.UInt256.Shift.{shl_word, two-pow-word, two-pow-shift}

pub limb-digit :
    (v : UInt256) → Fits v → (i : ℕ) → i < 4 → limb v i ≡ value v / 2 ^ (64 * i) % 2 ^ 64
limb-digit v fits zero h = omega arith
limb-digit v fits (suc zero) h = omega arith
limb-digit v fits (suc (suc zero)) h = omega arith
limb-digit v fits (suc (suc (suc zero))) h = omega arith
limb-digit v fits (suc (suc (suc (suc i)))) h = absurd (omega arith)

pub value-set_limb :
    (v : UInt256) (i w : ℕ)
    → i < 4
    → value (set_limb v i w) + limb v i * 2 ^ (64 * i) ≡ value v + w * 2 ^ (64 * i)
value-set_limb v zero w h = omega arith
value-set_limb v (suc zero) w h = omega arith
value-set_limb v (suc (suc zero)) w h = omega arith
value-set_limb v (suc (suc (suc zero))) w h = omega arith
value-set_limb v (suc (suc (suc (suc i)))) w h = absurd (omega arith)

pub set_limb-Fits : (v : UInt256) (i w : ℕ) → Fits v → w < 2 ^ 64 → Fits (set_limb v i w)
set_limb-Fits v zero w fits h = omega arith
set_limb-Fits v (suc zero) w fits h = omega arith
set_limb-Fits v (suc (suc zero)) w fits h = omega arith
set_limb-Fits v (suc (suc (suc i))) w fits h = omega arith

-- The bit that the division reads.
word_bit : (x s : ℕ) → s < 64 → x % 2 ^ 64 / 2 ^ s % 2 ≡ x / 2 ^ s % 2
word_bit x s h =
    let low : ℕ = x % 2 ^ 64 in
    let split : x ≡ low + 2 ^ s * (2 * (2 ^ (63 - s) * (x / 2 ^ 64))) = omega (
      arith,
      ap (λ (t : ℕ). t * (x / 2 ^ 64)) (two-pow-word (suc s) (63 - s) x (omega arith)),
      ap (λ (t : ℕ). t * (2 ^ (63 - s) * (x / 2 ^ 64))) (pow-suc 2 s),
    ) in
    omega (
      arith,
      ap (λ (t : ℕ). t / 2 ^ s) split,
      add-mul-div_left low (2 * (2 ^ (63 - s) * (x / 2 ^ 64))) (two-pow-pos s),
    )

pub bit_at-value :
    (v : UInt256) (bit : ℕ) → Fits v → bit < 256 → bit_at v bit ≡ value v / 2 ^ bit % 2
bit_at-value v bit fits h =
    let i = bit / 64 in
    let s = bit % 64 in
    let x = value v / 2 ^ (64 * i) in
    bit_and_low 1 (limb v i / 2 ^ s)
    ∙ ap (λ (t : ℕ). t / 2 ^ s % 2) (limb-digit v fits i (omega arith))
    ∙ word_bit x s (omega arith)
    ∙ ap (λ (t : ℕ). t % 2) (div-div-eq-div-mul (value v) (2 ^ (64 * i)) (2 ^ s))
    ∙ ap (λ (t : ℕ). value v / t % 2) (sym (two-pow-shift bit i refl))

-- `| UInt256(1)` on an even value.
pub value-or_one :
    (v : UInt256)
    → Fits v
    → value v % 2 ≡ 0
    → (value (or256 v (from_word 1)) ≡ value v + 1) × Fits (or256 v (from_word 1))
unfolding or256
value-or_one v fits even = omega (
  arith,
  ap (λ (t : ℕ). bit_or t 1) {x = v.limb0} {y = v.limb0 / 2 * 2} (omega arith),
  high-bit_or 1 (v.limb0 / 2) 1 (omega arith),
  bit_or-zero v.limb1,
  bit_or-zero v.limb2,
  bit_or-zero v.limb3,
)

-- `limbs_[bit / 64] |= 1 << (bit % 64)` where the bits up to `bit` are clear.
abbrev pub with_bit : UInt256 → ℕ → UInt256
with_bit q bit = set_limb q (bit / 64) (bit_or (limb q (bit / 64)) (1 <<< (bit % 64)))

module _ (q : UInt256) (fits : Fits q) (bit m : ℕ) (h : bit < 256)
    (clear : value q ≡ 2 ^ suc bit * m) where
  i : ℕ
  i = bit / 64

  s : ℕ
  s = bit % 64

  shifted_out : value q / 2 ^ (64 * i) ≡ m * 2 ^ suc s
  unfolding i s
  shifted_out =
      ap (λ (t : ℕ). t / 2 ^ (64 * i)) {y = 2 ^ (64 * i) * (m * 2 ^ suc s)}
        (omega (
          arith,
          clear,
          ap (λ (t : ℕ). t * m) (pow-suc 2 bit),
          ap (λ (t : ℕ). t * m) (two-pow-shift bit (bit / 64) refl),
          ap (λ (t : ℕ). 2 ^ (64 * i) * (m * t)) (pow-suc 2 s),
        ))
      ∙ mul-div_cancel_left (m * 2 ^ suc s) (two-pow-pos (64 * i))

  clear_limb : limb q i ≡ m % 2 ^ (63 - s) * 2 ^ suc s
  unfolding i s
  clear_limb =
      limb-digit q fits i (omega arith)
      ∙ ap (λ (t : ℕ). t % 2 ^ 64) shifted_out
      ∙ shl_word (suc s) (63 - s) m (omega arith)

  new_limb : bit_or (limb q i) (1 <<< s) ≡ limb q i + 2 ^ s
  new_limb = rw clear_limb (
      high-bit_or (suc s) (m % 2 ^ (63 - s)) (1 * 2 ^ s) (omega (arith, pow-suc 2 s, two-pow-pos s))
      ∙ omega arith)

  new_limb_lt : limb q i + 2 ^ s < 2 ^ 64
  unfolding s
  new_limb_lt = omega (
    arith,
    clear_limb,
    mul-le-mul_right (2 ^ suc s) (mod-lt m (two-pow-pos (63 - s))),
    two-pow-word (suc s) (63 - s) m (omega arith),
    pow-suc 2 s,
    two-pow-pos s,
  )

  pub value-with_bit : (value (with_bit q bit) ≡ value q + 2 ^ bit) × Fits (with_bit q bit)
  unfolding i s
  value-with_bit = (
    omega (
      arith,
      value-set_limb q i (bit_or (limb q i) (1 <<< s)) (omega arith),
      ap (λ (t : ℕ). t * 2 ^ (64 * i)) new_limb,
      two-pow-shift bit i refl,
    ),
    set_limb-Fits q i _ fits (omega (arith, new_limb, new_limb_lt)),
  )
