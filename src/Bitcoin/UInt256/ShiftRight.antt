-- ===== src/Bitcoin/UInt256/ShiftRight.antt =====
-- About `operator>>` of src/bitcoin/uint256.cpp.
use bitcoin_miner.Base.{
  ℕ, zero, suc, ◌+◌, ◌-◌, ◌*◌, ◌/◌, ◌%◌, ◌^◌, ◌<◌, bit_or, ◌≡◌, refl, ap, ◌∙◌, sym, arith, u64,
  true, leb-false, leb, leb→le, ◌==◌, Bool-cases, inl, inr, ==_iff, two-pow-pos, two-pow-split,
}
use bitcoin_miner.Base.Bits.{low-bit_or}
use native.Mathlib.Nat.{
  div-add-mod, mod-lt, mul-le-mul_right, div-eq_of_lt-le, div-div-eq-div-mul, div-eq_of_lt, div-one,
  div-le_self, pow-le-pow_right,
}
use bitcoin_miner.Bitcoin.UInt256.{UInt256, Fits, value, shr_limb, shr256}
use bitcoin_miner.Bitcoin.UInt256.Shift.{two-pow-word, shl_word, shr_word, two-pow-shift}

module _ (v : UInt256) (fits : Fits v) (b : ℕ) (h : b < 64) where
  complement : 64 - b + b ≡ 64
  complement = omega arith

  -- What is left of a word, and what the word above it gives to its top.
  left : ℕ → ℕ
  left x = x / 2 ^ b

  down : ℕ → ℕ
  down y = y % 2 ^ b * 2 ^ (64 - b)

  joined : (x y : ℕ) → x < 2 ^ 64 → bit_or (x / 2 ^ b) (u64 (y * 2 ^ (64 - b))) ≡ left x + down y
  unfolding left down
  joined x y hx =
      rw (shl_word (64 - b) b y complement)
        (low-bit_or (64 - b) _ _ (shr_word (64 - b) b x complement hx))

  -- Where no bit is moved the code does not read the word above.
  kept : (x y : ℕ) → b ≡ 0 → x / 2 ^ b ≡ left x + down y
  unfolding left down
  kept x y e =
      let none_down : y % 2 ^ b ≡ 0 = rw e (omega arith) in
      omega (arith, ap (λ (t : ℕ). t * 2 ^ (64 - b)) none_down)

  row_lt : (x y : ℕ) → x < 2 ^ 64 → left x + down y < 2 ^ 64
  unfolding left down
  row_lt x y hx = omega (
    arith,
    mul-le-mul_right (2 ^ (64 - b)) (mod-lt y (two-pow-pos b)),
    shr_word (64 - b) b x complement hx,
    two-pow-word (64 - b) b x complement,
  )

  -- A word is what stays, and the bits that fall out at the bottom.
  word_parts :
      (x : ℕ)
      → (x ≡ left x * 2 ^ b + x % 2 ^ b)
        × (x % 2 ^ b < 2 ^ b)
        × (down x * 2 ^ b ≡ x % 2 ^ b * 2 ^ 64)
  unfolding left down
  word_parts x = (
    omega (arith, div-add-mod x (2 ^ b)),
    mod-lt x (two-pow-pos b),
    omega (arith, ap (λ (t : ℕ). x % 2 ^ b * t) (two-pow-word (64 - b) b x complement)),
  )

  -- What the rounds of `operator>>` write when no whole limb is skipped.
  shr_rows :
      (shr_limb v 0 b 0 ≡ left v.limb0 + down v.limb1)
      × (shr_limb v 0 b 1 ≡ left v.limb1 + down v.limb2)
      × (shr_limb v 0 b 2 ≡ left v.limb2 + down v.limb3)
      × (shr_limb v 0 b 3 ≡ left v.limb3)
  unfolding shr_limb left
  shr_rows = elim (Bool-cases (b == 0)) [
    | inl e ↦
        let z : b ≡ 0 = (==_iff b 0).0 e in
        rw e (kept v.limb0 v.limb1 z, kept v.limb1 v.limb2 z, kept v.limb2 v.limb3 z, refl)
    | inr e ↦ rw e (
      joined v.limb0 v.limb1 fits.0,
      joined v.limb1 v.limb2 fits.1,
      joined v.limb2 v.limb3 fits.2,
      refl,
    )
  ]

  row_bounds :
      (left v.limb0 + down v.limb1 < 2 ^ 64)
      × (left v.limb1 + down v.limb2 < 2 ^ 64)
      × (left v.limb2 + down v.limb3 < 2 ^ 64)
      × (left v.limb3 < 2 ^ 64)
  row_bounds = (
    row_lt v.limb0 v.limb1 fits.0,
    row_lt v.limb1 v.limb2 fits.1,
    row_lt v.limb2 v.limb3 fits.2,
    unfold left in omega (arith, div-le_self v.limb3 (2 ^ b)),
  )

  -- The limbs from each one on, divided by 2 ^ b.
  divided : (n q r : ℕ) → n ≡ q * 2 ^ b + r → r < 2 ^ b → n / 2 ^ b ≡ q
  divided n q r e hr = div-eq_of_lt-le (2 ^ b) (omega arith) (omega arith)

  shifted :
      (value v / 2 ^ b
        ≡ left v.limb0
          + down v.limb1
          + (left v.limb1 + down v.limb2) * 2 ^ 64
          + (left v.limb2 + down v.limb3) * 2 ^ 128
          + left v.limb3 * 2 ^ 192)
      × (value v / 2 ^ 64 / 2 ^ b
          ≡ left v.limb1
            + down v.limb2
            + (left v.limb2 + down v.limb3) * 2 ^ 64
            + left v.limb3 * 2 ^ 128)
      × (value v / 2 ^ 128 / 2 ^ b ≡ left v.limb2 + down v.limb3 + left v.limb3 * 2 ^ 64)
      × (value v / 2 ^ 192 / 2 ^ b ≡ left v.limb3)
  shifted =
      let p0 = word_parts v.limb0 in
      let p1 = word_parts v.limb1 in
      let p2 = word_parts v.limb2 in
      let p3 = word_parts v.limb3 in
      (
        divided _ _ (v.limb0 % 2 ^ b) (omega (arith, p0, p1, p2, p3)) p0.1,
        divided _ _ (v.limb1 % 2 ^ b) (omega (arith, p1, p2, p3)) p1.1,
        divided _ _ (v.limb2 % 2 ^ b) (omega (arith, p2, p3)) p2.1,
        divided _ _ (v.limb3 % 2 ^ b) (omega (arith, p3)) p3.1,
      )

shr256_limbs :
    (v : UInt256) (shift k : ℕ)
    → shift < 256
    → shift / 64 ≡ k
    → shr256 v shift ≡ record {
      limb0 = shr_limb v k (shift % 64) 0;
      limb1 = shr_limb v k (shift % 64) 1;
      limb2 = shr_limb v k (shift % 64) 2;
      limb3 = shr_limb v k (shift % 64) 3;
    }
unfolding shr256
shr256_limbs v shift k h e = rw (← e, leb-false 256 shift h)

abbrev pub IsShr : UInt256 → ℕ → UInt256 → Type 0
IsShr v shift w = (value w ≡ value v / 2 ^ shift) × Fits w

div-two-pow-shift :
    (n shift k : ℕ) → shift / 64 ≡ k → n / 2 ^ shift ≡ n / 2 ^ (64 * k) / 2 ^ (shift % 64)
div-two-pow-shift n shift k e =
    ap (λ (t : ℕ). n / t) (two-pow-shift shift k e)
    ∙ sym (div-div-eq-div-mul n (2 ^ (64 * k)) (2 ^ (shift % 64)))

IsShr-case :
    (v : UInt256)
    → Fits v
    → (shift k : ℕ) → shift < 256
    → shift / 64 ≡ k
    → IsShr v shift (shr256 v shift)
unfolding shr_limb
IsShr-case v fits shift zero h e =
    let b = shift % 64 in
    let hb : b < 64 = omega arith in
    rw (shr256_limbs v shift 0 h e) (
      omega (
        arith,
        shr_rows v fits b hb,
        shifted v fits b hb,
        row_bounds v fits b hb,
        ap (λ (t : ℕ). t / 2 ^ b) (div-one (value v)),
        div-two-pow-shift (value v) shift 0 e,
      ))
IsShr-case v fits shift (suc zero) h e =
    let b = shift % 64 in
    let hb : b < 64 = omega arith in
    rw (shr256_limbs v shift 1 h e) (
      omega (
        arith,
        shr_rows v fits b hb,
        shifted v fits b hb,
        row_bounds v fits b hb,
        div-two-pow-shift (value v) shift 1 e,
      ))
IsShr-case v fits shift (suc (suc zero)) h e =
    let b = shift % 64 in
    let hb : b < 64 = omega arith in
    rw (shr256_limbs v shift 2 h e) (
      omega (
        arith,
        shr_rows v fits b hb,
        shifted v fits b hb,
        row_bounds v fits b hb,
        div-two-pow-shift (value v) shift 2 e,
      ))
IsShr-case v fits shift (suc (suc (suc zero))) h e =
    let b = shift % 64 in
    let hb : b < 64 = omega arith in
    rw (shr256_limbs v shift 3 h e) (
      omega (
        arith,
        shr_rows v fits b hb,
        shifted v fits b hb,
        row_bounds v fits b hb,
        div-two-pow-shift (value v) shift 3 e,
      ))
IsShr-case v fits shift (suc (suc (suc (suc k)))) h e = absurd (omega arith)

-- For a well-formed number and every distance, shifting right divides the value by two to the
-- distance, rounded down, and the result is well formed.
pub value-shr256 : (v : UInt256) (shift : ℕ) → Fits v → IsShr v shift (shr256 v shift)
value-shr256 v shift fits = elim (Bool-cases (leb 256 shift)) [
  | inl far ↦ all_out far
  | inr near ↦ IsShr-case v fits shift (shift / 64) (ground arith) refl
]
  where
    all_out : leb 256 shift ≡ true → IsShr v shift (shr256 v shift)
    all_out far =
        let below : value v < 2 ^ shift = omega (
          arith,
          two-pow-split 256 shift (leb→le 256 shift far),
          pow-le-pow_right {n = 2} (omega arith) (leb→le 256 shift far),
        ) in
        unfold shr256 in rw far (omega (arith, div-eq_of_lt below))
