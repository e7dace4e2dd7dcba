-- ===== src/Bitcoin/UInt256/Shift.antt =====
-- About `operator<<` of src/bitcoin/uint256.cpp.
use bitcoin_miner.Base.{
  true, leb-false, leb, leb→le, ◌==◌, Bool-cases, inl, inr, ==_iff, ℕ, zero, suc, ◌+◌, ◌-◌, ◌*◌,
  ◌/◌, ◌%◌, ◌^◌, ◌<◌, bit_or, ◌≡◌, refl, ap, ◌∙◌, sym, arith, u64, two-pow-pos, two-pow-split,
  pow_add,
}
use bitcoin_miner.Base.Bits.{high-bit_or}
use native.Mathlib.Nat.{
  div-add-mod, mod-lt, mul-le-mul_right, div-lt_iff_lt-mul, mul-lt-mul_of_pos_right,
}
use bitcoin_miner.Bitcoin.UInt256.{UInt256, Fits, value, shl_limb, shl256}

-- A word x moved up by b bits: x % 2 ^ c stays in the limb and x / 2 ^ c goes to the next one, where
-- b + c is 64.
module _ (b c x : ℕ) (h : b + c ≡ 64) where
  pub two-pow-word : 2 ^ 64 ≡ 2 ^ b * 2 ^ c
  two-pow-word = ap (λ (t : ℕ). 2 ^ t) (sym h) ∙ pow_add 2 b c

  word_split : x * 2 ^ b ≡ x / 2 ^ c * 2 ^ 64 + x % 2 ^ c * 2 ^ b
  word_split = omega (
    arith,
    ap (λ (t : ℕ). t * 2 ^ b) (div-add-mod x (2 ^ c)),
    ap (λ (t : ℕ). x / 2 ^ c * t) two-pow-word,
  )

  stays_below : x % 2 ^ c * 2 ^ b < 2 ^ 64
  stays_below =
      omega
        (arith, mul-lt-mul_of_pos_right (mod-lt x (two-pow-pos c)) (two-pow-pos b), two-pow-word)

  pub shl_word : x * 2 ^ b % 2 ^ 64 ≡ x % 2 ^ c * 2 ^ b
  shl_word = omega (arith, word_split, stays_below)

  pub shr_word : x < 2 ^ 64 → x / 2 ^ c < 2 ^ b
  shr_word fits = (div-lt_iff_lt-mul (two-pow-pos c)).1 (omega (arith, two-pow-word))

module _ (v : UInt256) (fits : Fits v) (b : ℕ) (h : b < 64) where
  complement : b + (64 - b) ≡ 64
  complement = omega arith

  low : ℕ → ℕ
  low x = x % 2 ^ (64 - b) * 2 ^ b

  high : ℕ → ℕ
  high x = x / 2 ^ (64 - b)

  -- A word and the bits that come up from the one below.
  joined : (x y : ℕ) → y < 2 ^ 64 → bit_or (u64 (x * 2 ^ b)) (y / 2 ^ (64 - b)) ≡ low x + high y
  unfolding low high
  joined x y hy =
      rw (shl_word b (64 - b) x complement)
        (high-bit_or b _ _ (shr_word b (64 - b) y complement hy))

  -- Where no bit is moved the code does not read the word below.
  kept : (x y : ℕ) → y < 2 ^ 64 → b ≡ 0 → u64 (x * 2 ^ b) ≡ low x + high y
  unfolding low high
  kept x y hy e =
      let none_up : y / 2 ^ (64 - b) ≡ 0 = rw e (omega arith) in
      omega (arith, shl_word b (64 - b) x complement, none_up)

  low_lt : (x y : ℕ) → y < 2 ^ 64 → low x + high y < 2 ^ 64
  unfolding low high
  low_lt x y hy = omega (
    arith,
    mul-le-mul_right (2 ^ b) (mod-lt x (two-pow-pos (64 - b))),
    shr_word b (64 - b) y complement hy,
    two-pow-word b (64 - b) y complement,
  )

  scaled :
      value v * 2 ^ b
      ≡ low v.limb0
        + (low v.limb1 + high v.limb0) * 2 ^ 64
        + (low v.limb2 + high v.limb1) * 2 ^ 128
        + (low v.limb3 + high v.limb2) * 2 ^ 192
        + high v.limb3 * 2 ^ 256
  unfolding low high
  scaled = omega (
    arith,
    word_split b (64 - b) v.limb0 complement,
    word_split b (64 - b) v.limb1 complement,
    word_split b (64 - b) v.limb2 complement,
    word_split b (64 - b) v.limb3 complement,
  )

  -- What the rounds of `operator<<` write when no whole limb is skipped.
  shl_rows :
      (shl_limb v 0 b 0 ≡ low v.limb0)
      × (shl_limb v 0 b 1 ≡ low v.limb1 + high v.limb0)
      × (shl_limb v 0 b 2 ≡ low v.limb2 + high v.limb1)
      × (shl_limb v 0 b 3 ≡ low v.limb3 + high v.limb2)
  unfolding shl_limb low
  shl_rows = elim (Bool-cases (b == 0)) [
    | inl e ↦
        let z : b ≡ 0 = (==_iff b 0).0 e in
        rw e (
          shl_word b (64 - b) v.limb0 complement,
          kept v.limb1 v.limb0 fits.0 z,
          kept v.limb2 v.limb1 fits.1 z,
          kept v.limb3 v.limb2 fits.2 z,
        )
    | inr e ↦ rw e (
      shl_word b (64 - b) v.limb0 complement,
      joined v.limb1 v.limb0 fits.0,
      joined v.limb2 v.limb1 fits.1,
      joined v.limb3 v.limb2 fits.2,
    )
  ]

  row_bounds :
      (low v.limb0 < 2 ^ 64)
      × (low v.limb1 + high v.limb0 < 2 ^ 64)
      × (low v.limb2 + high v.limb1 < 2 ^ 64)
      × (low v.limb3 + high v.limb2 < 2 ^ 64)
  row_bounds = (
    unfold low in stays_below b (64 - b) v.limb0 complement,
    low_lt v.limb1 v.limb0 fits.0,
    low_lt v.limb2 v.limb1 fits.1,
    low_lt v.limb3 v.limb2 fits.2,
  )

-- A shift below 256 writes each limb with the shift split into whole limbs and bits.
shl256_limbs :
    (v : UInt256) (shift k : ℕ)
    → shift < 256
    → shift / 64 ≡ k
    → shl256 v shift ≡ record {
      limb0 = shl_limb v k (shift % 64) 0;
      limb1 = shl_limb v k (shift % 64) 1;
      limb2 = shl_limb v k (shift % 64) 2;
      limb3 = shl_limb v k (shift % 64) 3;
    }
unfolding shl256
shl256_limbs v shift k h e = rw (← e, leb-false 256 shift h)

abbrev pub IsShl : UInt256 → ℕ → UInt256 → Type 0
IsShl v shift w = (value w ≡ value v * 2 ^ shift % 2 ^ 256) × Fits w

pub two-pow-shift : (shift k : ℕ) → shift / 64 ≡ k → 2 ^ shift ≡ 2 ^ (64 * k) * 2 ^ (shift % 64)
two-pow-shift shift k e =
    ap (λ (t : ℕ). 2 ^ t) {y = 64 * k + shift % 64} (omega arith) ∙ pow_add 2 (64 * k) (shift % 64)

IsShl-case :
    (v : UInt256)
    → Fits v
    → (shift k : ℕ) → shift < 256
    → shift / 64 ≡ k
    → IsShl v shift (shl256 v shift)
unfolding shl_limb
IsShl-case v fits shift zero h e =
    let b = shift % 64 in
    let hb : b < 64 = omega arith in
    rw (shl256_limbs v shift 0 h e) (
      omega (
        arith,
        shl_rows v fits b hb,
        row_bounds v fits b hb,
        scaled v fits b hb,
        ap (λ (t : ℕ). value v * t) (two-pow-shift shift 0 e),
      ))
IsShl-case v fits shift (suc zero) h e =
    let b = shift % 64 in
    let hb : b < 64 = omega arith in
    rw (shl256_limbs v shift 1 h e) (
      omega (
        arith,
        shl_rows v fits b hb,
        row_bounds v fits b hb,
        scaled v fits b hb,
        ap (λ (t : ℕ). value v * t) (two-pow-shift shift 1 e),
      ))
IsShl-case v fits shift (suc (suc zero)) h e =
    let b = shift % 64 in
    let hb : b < 64 = omega arith in
    rw (shl256_limbs v shift 2 h e) (
      omega (
        arith,
        shl_rows v fits b hb,
        row_bounds v fits b hb,
        scaled v fits b hb,
        ap (λ (t : ℕ). value v * t) (two-pow-shift shift 2 e),
      ))
IsShl-case v fits shift (suc (suc (suc zero))) h e =
    let b = shift % 64 in
    let hb : b < 64 = omega arith in
    rw (shl256_limbs v shift 3 h e) (
      omega (
        arith,
        shl_rows v fits b hb,
        row_bounds v fits b hb,
        scaled v fits b hb,
        ap (λ (t : ℕ). value v * t) (two-pow-shift shift 3 e),
      ))
IsShl-case v fits shift (suc (suc (suc (suc k)))) h e = absurd (omega arith)

-- For a well-formed number and every distance, shifting left multiplies the value by two to the
-- distance modulo 2 ^ 256, and the result is well formed.
pub value-shl256 : (v : UInt256) (shift : ℕ) → Fits v → IsShl v shift (shl256 v shift)
value-shl256 v shift fits = elim (Bool-cases (leb 256 shift)) [
  | inl far ↦ all_out far
  | inr near ↦ IsShl-case v fits shift (shift / 64) (ground arith) refl
]
  where
    all_out : leb 256 shift ≡ true → IsShl v shift (shl256 v shift)
    all_out far =
        let gone : value v * 2 ^ shift ≡ value v * 2 ^ (shift - 256) * 2 ^ 256 =
          omega
            (arith, ap (λ (t : ℕ). value v * t) (two-pow-split 256 shift (leb→le 256 shift far))) in
        unfold shl256 in rw far (omega (arith, gone))
