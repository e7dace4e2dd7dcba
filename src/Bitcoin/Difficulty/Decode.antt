-- ===== src/Bitcoin/Difficulty/Decode.antt =====
-- About `decodeCompactBits` and `targetFromCompactBits` of src/bitcoin/difficulty.cpp.
use bitcoin_miner.Base.{
  ℕ, suc, ◌+◌, ◌-◌, ◌*◌, ◌/◌, ◌%◌, ◌^◌, ◌≤◌, ◌<◌, Bool, true, false, ◌&&◌, ◌||◌, not, ◌≡◌, refl,
  sym, subst, ap, ◌∙◌, ◌↔◌, arith, Bool-cases, inl, inr, leb, ltb, ◌==◌, leb→le, ltb→lt, leb-false,
  le→leb, bit_and, two-pow-pos, pow_add, if◌then◌else◌,
}
use bitcoin_miner.Base.Bits.{bit_and_low, bit_and_above}
use native.Mathlib.Nat.{
  mul-le-mul_right, pow-le-pow_right, div-le_self, pow-zero, mod-eq_of_lt, eq-zero-or-pos,
}
use bitcoin_miner.Bitcoin.UInt256.{UInt256, Fits, value, from_word, bit_length, shl256}
use bitcoin_miner.Bitcoin.UInt256.Shift.{value-shl256}
use bitcoin_miner.Bitcoin.UInt256.BitLength.{bit_length-IsSize}
use bitcoin_miner.Bitcoin.Difficulty.{scale_mantissa, decode_compact_bits, target_from_compact_bits}

-- The number that an exponent and a mantissa stand for: the mantissa times 256 ^ (exponent - 3), with
-- the bytes below the point cut off.
abbrev pub compact_number : ℕ → ℕ → ℕ
compact_number exponent mantissa =
    if leb exponent 3
    then mantissa / 2 ^ (8 * (3 - exponent))
    else mantissa * 2 ^ ((exponent - 3) * 8)

ltb-false→le : (a b : ℕ) → ltb a b ≡ false → b ≤ a
ltb-false→le a b h = ground arith

leb-false→lt : (a b : ℕ) → leb a b ≡ false → b < a
leb-false→lt a b h = ground arith

or-right_false : (a b : Bool) → (a || b) ≡ false → b ≡ false
or-right_false true b h = cc
or-right_false false b h = h

-- A word with its shift passes bit 255 exactly when its digits and the shift do.
passes :
    (m k : ℕ) → 0 < m → m < 2 ^ 64 → (256 < bit_length (from_word m) + k) ↔ (2 ^ 256 ≤ m * 2 ^ k)
passes m k pos h =
    let n = bit_length (from_word m) in
    let (lt, ge, _) = bit_length-IsSize (from_word m) (omega arith) in
    let split : 2 ^ (n + k) ≡ 2 ^ n * 2 ^ k = pow_add 2 n k in
    let above : (2 ^ n) * 2 ^ k ≤ (2 * m) * 2 ^ k =
      mul-le-mul_right (2 ^ k) (omega (arith, ge (omega arith))) in
    let below : suc m * 2 ^ k ≤ 2 ^ n * 2 ^ k = mul-le-mul_right (2 ^ k) (omega (arith, lt)) in
    (
      λ over.
          let far : 2 ^ 257 ≤ 2 ^ (n + k) =
            pow-le-pow_right (omega arith) {i = 257} (omega (arith, over)) in
          omega (arith, far, split, above),
      λ big. elim (Bool-cases (ltb 256 (n + k))) [
        | inl over ↦ ltb→lt 256 (n + k) over
        | inr within ↦
            let near : 2 ^ (n + k) ≤ 2 ^ 256 =
              pow-le-pow_right (omega arith) (ltb-false→le 256 (n + k) within) in
            absurd (omega (arith, near, split, below, big, two-pow-pos k))
      ],
    )

abbrev pub IsNumber : UInt256 → ℕ → Type 0
IsNumber v n = (value v ≡ n) × Fits v

bit_length-word_zero : bit_length (from_word 0) ≡ 0
bit_length-word_zero =
    let (_, _, none_left) = bit_length-IsSize (from_word 0) (omega arith) in none_left (omega arith)

bit_length-word_pos : (m : ℕ) → 0 < m → m < 2 ^ 64 → 0 < bit_length (from_word m)
bit_length-word_pos m pos h = elim (eq-zero-or-pos (bit_length (from_word m))) [
  | inl z ↦
      let (lt, _, _) = bit_length-IsSize (from_word m) (omega arith) in
      absurd (omega (arith, lt, ap (λ (t : ℕ). 2 ^ t) z, pow-zero 2))
  | inr p ↦ p
]

shl256-word-IsNumber :
    (m k : ℕ) → m < 2 ^ 64 → m * 2 ^ k < 2 ^ 256 → IsNumber (shl256 (from_word m) k) (m * 2 ^ k)
shl256-word-IsNumber m k h fits =
    let word : value (from_word m) ≡ m = omega arith in
    let (shifted, ok) = value-shl256 (from_word m) k (omega (arith, h)) in
    (shifted ∙ ap (λ (t : ℕ). t * 2 ^ k % 2 ^ 256) word ∙ mod-eq_of_lt fits, ok)

scale_mantissa-low :
    (e m : ℕ)
    → m < 2 ^ 64
    → leb e 3 ≡ true
    → ((scale_mantissa e m).too_big ≡ leb (2 ^ 256) (compact_number e m))
      × ((scale_mantissa e m).too_big ≡ false
          → IsNumber (scale_mantissa e m).scaled (compact_number e m))
unfolding scale_mantissa
scale_mantissa-low e m h low =
    let cut : m / 2 ^ (8 * (3 - e)) ≤ m = div-le_self m (2 ^ (8 * (3 - e))) in
    rw low (sym (leb-false _ _ (omega (arith, cut))), λ _. omega (arith, cut))

abbrev Exact : ℕ → ℕ → ℕ → Type 0
Exact e m n =
    ((scale_mantissa e m).too_big ≡ leb (2 ^ 256) n)
    × ((scale_mantissa e m).too_big ≡ false → IsNumber (scale_mantissa e m).scaled n)

scale_mantissa-far :
    (e m : ℕ) → 0 < m → leb e 3 ≡ false → ltb 32 (e - 3) ≡ true → Exact e m (m * 2 ^ ((e - 3) * 8))
unfolding scale_mantissa
scale_mantissa-far e m pos high far =
    let large : 2 ^ 256 ≤ 2 ^ ((e - 3) * 8) =
      pow-le-pow_right (omega arith) {i = 256} (omega (arith, ltb→lt 32 (e - 3) far)) in
    let more : 1 * 2 ^ ((e - 3) * 8) ≤ m * 2 ^ ((e - 3) * 8) =
      mul-le-mul_right (2 ^ ((e - 3) * 8)) pos in
    rw (high, far) (ground (arith, large, more), λ not_big. ground (arith, not_big, pos))

scale_mantissa-near :
    (e m : ℕ)
    → 0 < m
    → m < 2 ^ 64
    → leb e 3 ≡ false
    → ltb 32 (e - 3) ≡ false
    → Exact e m (m * 2 ^ ((e - 3) * 8))
unfolding scale_mantissa
scale_mantissa-near e m pos h high near =
    let k : ℕ = (e - 3) * 8 in
    let bits : ℕ = bit_length (from_word m) in
    let some_bits : (bits == 0) ≡ false = ground (arith, bit_length-word_pos m pos h) in
    let (out, back) = passes m k pos h in
    elim (Bool-cases (ltb 256 (bits + k))) [
      | inl over ↦
          rw (high, near, some_bits, over)
            (sym (le→leb _ _ (out (ltb→lt _ _ over))), λ b. ground (arith, b))
      | inr within ↦
          let fits : m * 2 ^ k < 2 ^ 256 = elim (Bool-cases (leb (2 ^ 256) (m * 2 ^ k))) [
            | inl big ↦ absurd (omega (arith, back (leb→le _ _ big), ltb-false→le _ _ within))
            | inr small ↦ leb-false→lt _ _ small
          ] in
          rw (high, near, some_bits, within)
            (sym (leb-false _ _ fits), λ _. shl256-word-IsNumber m k h fits)
    ]

scale_mantissa-zero : (e : ℕ) → leb e 3 ≡ false → Exact e 0 0
unfolding scale_mantissa
scale_mantissa-zero e high = elim (Bool-cases (ltb 32 (e - 3))) [
  | inl far ↦ rw (high, far) (refl, λ _. omega arith)
  | inr near ↦
      let nothing = shl256-word-IsNumber 0 ((e - 3) * 8) (omega arith) (omega arith) in
      rw (high, near, bit_length-word_zero) (refl, λ _. (omega (arith, nothing.0), nothing.1))
]

-- Above the point a zero mantissa is zero, and another passes bit 255 or is shifted exactly.
scale_mantissa-high :
    (e m : ℕ)
    → m < 2 ^ 64
    → leb e 3 ≡ false
    → ((scale_mantissa e m).too_big ≡ leb (2 ^ 256) (m * 2 ^ ((e - 3) * 8)))
      × ((scale_mantissa e m).too_big ≡ false
          → IsNumber (scale_mantissa e m).scaled (m * 2 ^ ((e - 3) * 8)))
unfolding scale_mantissa
scale_mantissa-high e m h high = elim (eq-zero-or-pos m) [
  | inl z ↦
      subst (λ (t : ℕ). Exact e t (t * 2 ^ ((e - 3) * 8))) (sym z)
        (subst (Exact e 0) {x = 0} (omega arith) (scale_mantissa-zero e high))
  | inr pos ↦ elim (Bool-cases (ltb 32 (e - 3))) [
    | inl far ↦ scale_mantissa-far e m pos high far
    | inr near ↦ scale_mantissa-near e m pos h high near
  ]
]

-- The branches on the exponent: too big exactly from 2 ^ 256 on, and else the number itself.
scale_mantissa-IsNumber :
    (e m : ℕ)
    → m < 2 ^ 64
    → ((scale_mantissa e m).too_big ≡ leb (2 ^ 256) (compact_number e m))
      × ((scale_mantissa e m).too_big ≡ false
          → IsNumber (scale_mantissa e m).scaled (compact_number e m))
scale_mantissa-IsNumber e m h = elim (Bool-cases (leb e 3)) [
  | inl low ↦ scale_mantissa-low e m h low
  | inr high ↦ rw high (scale_mantissa-high e m h high)
]

-- The sign bit is set, and the mantissa is not zero.
abbrev pub compact_negative : ℕ → Bool
compact_negative n = not (n / 2 ^ 23 % 2 == 0) && not (n % 2 ^ 23 == 0)

abbrev pub unsigned_number : ℕ → ℕ
unsigned_number n = compact_number (n / 2 ^ 24) (n % 2 ^ 23)

sign_bit : (n : ℕ) → bit_and n 0x00800000 ≡ n / 2 ^ 23 % 2 * 2 ^ 23
sign_bit n = bit_and_above 23 n 1 ∙ ap (λ (t : ℕ). t * 2 ^ 23) (bit_and_low 1 (n / 2 ^ 23))

not-sign_bit : (n : ℕ) → not (bit_and n 0x00800000 == 0) ≡ not (n / 2 ^ 23 % 2 == 0)
not-sign_bit n = ground (arith, sign_bit n)

-- For every compact word, the decoder sets its negative flag exactly when the sign bit is set and
-- the mantissa is not zero, its overflow flag exactly when the unsigned number is 2 ^ 256 or more,
-- and succeeds exactly when neither is set.
pub decode_compact_bits-flags :
    (n : ℕ)
    → ((decode_compact_bits n).negative ≡ compact_negative n)
      × ((decode_compact_bits n).overflow ≡ leb (2 ^ 256) (unsigned_number n))
      × ((decode_compact_bits n).ok ≡ not (compact_negative n || leb (2 ^ 256) (unsigned_number n)))
unfolding decode_compact_bits
decode_compact_bits-flags n =
    let mantissa : bit_and n 0x007fffff ≡ n % 2 ^ 23 = bit_and_low 23 n in
    let (big, _) = scale_mantissa-IsNumber (n / 2 ^ 24) (n % 2 ^ 23) (omega arith) in
    elim (Bool-cases (compact_negative n || leb (2 ^ 256) (unsigned_number n))) [
      | inl e ↦ rw (not-sign_bit n, mantissa, big, e) (refl, refl, refl)
      | inr e ↦ rw (not-sign_bit n, mantissa, big, e) (refl, refl, refl)
    ]

-- For every compact word, the decoded target is well formed, and its value is zero when the word
-- stands for a negative number or one from 2 ^ 256 on, and else the mantissa times 256 to the
-- exponent less three, with the bytes below the point cut off.
pub value-target_from_compact_bits :
    (n : ℕ)
    → (value (target_from_compact_bits n) ≡ (
        if compact_negative n || leb (2 ^ 256) (unsigned_number n) then 0 else unsigned_number n))
      × Fits (target_from_compact_bits n)
unfolding target_from_compact_bits decode_compact_bits
value-target_from_compact_bits n =
    let mantissa : bit_and n 0x007fffff ≡ n % 2 ^ 23 = bit_and_low 23 n in
    let (big, number) = scale_mantissa-IsNumber (n / 2 ^ 24) (n % 2 ^ 23) (omega arith) in
    elim (Bool-cases (compact_negative n || leb (2 ^ 256) (unsigned_number n))) [
      | inl e ↦ rw (not-sign_bit n, mantissa, big, e) (omega arith)
      | inr e ↦ rw (not-sign_bit n, mantissa, big, e) (number (big ∙ or-right_false _ _ e))
    ]
