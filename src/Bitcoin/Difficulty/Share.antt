-- ===== src/Bitcoin/Difficulty/Share.antt =====
-- About `hashMeetsTarget` and the share difficulties of src/bitcoin/difficulty.cpp.
use bitcoin_miner.Base.{
  ℕ, ◌*◌, ◌/◌, ◌^◌, ◌≤◌, ◌<◌, true, false, List, ◌≡◌, sym, ap₂, ◌∙◌, ◌-◌, ◌↔◌, arith, Bool-cases,
  inl, inr,
}
use native.Mathlib.Nat.{
  div-eq_of_lt-le, le-div_iff_mul-le, le_trans, mul-le-mul_left, div-mul-le_self, div-le_self,
  eq-zero-or-pos,
}
use bitcoin_miner.Base.Bytes.{le_value}
use bitcoin_miner.Bitcoin.UInt256.{UInt256, Fits, value, is_zero, from_word, divide, shl256}
use bitcoin_miner.Bitcoin.UInt256.Order.{is_zero_iff, le256_iff}
use bitcoin_miner.Bitcoin.UInt256.Shift.{value-shl256}
use bitcoin_miner.Bitcoin.UInt256.Divide.{divide_exact}
use bitcoin_miner.Bitcoin.UInt256.Bytes.{IsHash, from_hash, value-from_hash}
use bitcoin_miner.Bitcoin.Difficulty.{
  difficulty_one_target, hash_meets_target, share_difficulty_of_hash_fixed32, Doubles, usable,
  scale, below_one, beyond_word, target_from_share_difficulty,
}

-- For a hash of 32 bytes and a well-formed target, the hash meets the target exactly when the
-- target is not zero and the number that the hash spells with its first byte least significant is
-- at most the target.
pub hash_meets_target_iff :
    (hash : List ℕ) (target : UInt256)
    → IsHash hash
    → Fits target
    → (hash_meets_target hash target ≡ true) ↔ ((0 < value target) × (le_value hash ≤ value target))
unfolding hash_meets_target
hash_meets_target_iff hash target h fits =
    let (reads, fits') = value-from_hash hash h in
    ground (arith, is_zero_iff target, le256_iff (from_hash hash) target fits' fits, reads)

-- The quotient of a division is the quotient of the values.
value-quotient :
    (n d : UInt256)
    → Fits n
    → Fits d
    → 0 < value d
    → (value (divide n d).quotient ≡ value n / value d) × Fits (divide n d).quotient
value-quotient n d hn hd pos =
    let (exact, below, fits, _) = divide_exact n d hn hd pos in
    (sym (div-eq_of_lt-le (value d) (omega (arith, exact)) (omega (arith, exact, below))), fits)

-- The difficulty-1 target with 32 fraction bits, 0xffff * 2 ^ 240, does not wrap.
abbrev pub scaled_one : ℕ
scaled_one = 0xffff * 2 ^ 240

value-scaled_one :
    (value (shl256 difficulty_one_target 32) ≡ scaled_one) × Fits (shl256 difficulty_one_target 32)
value-scaled_one = omega (arith, value-shl256 difficulty_one_target 32 (omega arith))

-- The difficulty of a share in 2 ^ -32 units is the exact quotient by the hash's number; a zero hash
-- has the greatest.
pub value-share_difficulty_fixed32 :
    (hash : List ℕ)
    → IsHash hash
    → (0 < le_value hash
        → value (share_difficulty_of_hash_fixed32 hash) ≡ scaled_one / le_value hash)
      × (le_value hash ≡ 0 → value (share_difficulty_of_hash_fixed32 hash) ≡ 2 ^ 256 - 1)
unfolding share_difficulty_of_hash_fixed32
value-share_difficulty_fixed32 hash h =
    let (reads, fits) = value-from_hash hash h in
    (
      λ pos.
          let nonzero : is_zero (from_hash hash) ≡ false =
            ground (arith, is_zero_iff (from_hash hash), reads) in
          let (one, one_fits) = value-scaled_one in
          let (q, _) =
            value-quotient (shl256 difficulty_one_target 32) (from_hash hash) one_fits fits
              (omega (arith, reads, pos)) in
          rw nonzero (q ∙ ap₂ (λ (a b : ℕ). a / b) one reads),
      λ z.
          let nothing : is_zero (from_hash hash) ≡ true =
            (is_zero_iff (from_hash hash)).1 (reads ∙ z) in
          rw nothing (omega arith),
    )

div_antitone : (n a b : ℕ) → 0 < a → a ≤ b → n / b ≤ n / a
div_antitone n a b pos le =
    (le-div_iff_mul-le pos).1 (le_trans (mul-le-mul_left (n / b) le) (div-mul-le_self n b))

div_galois : (n a b : ℕ) → 0 < a → 0 < b → (a ≤ n / b) ↔ (b ≤ n / a)
div_galois n a b pa pb = (
  λ h. (le-div_iff_mul-le pa).1 (omega (arith, (le-div_iff_mul-le pb).0 h)),
  λ h. (le-div_iff_mul-le pb).1 (omega (arith, (le-div_iff_mul-le pa).0 h)),
)

-- Of two hashes of 32 bytes, the one that spells the smaller or the same number has at least the
-- fixed-point difficulty of the other.
pub share_difficulty_fixed32_mono :
    (low high : List ℕ)
    → IsHash low
    → IsHash high
    → le_value low ≤ le_value high
    → value (share_difficulty_of_hash_fixed32 high) ≤ value (share_difficulty_of_hash_fixed32 low)
share_difficulty_fixed32_mono low high hl hh le =
    let (at_low, low_zero) = value-share_difficulty_fixed32 low hl in
    let (at_high, high_zero) = value-share_difficulty_fixed32 high hh in
    elim (eq-zero-or-pos (le_value low)) [
      | inl z ↦ elim (eq-zero-or-pos (le_value high)) [
        | inl z' ↦ omega (arith, low_zero z, high_zero z')
        | inr p' ↦ omega (arith, low_zero z, at_high p', div-le_self scaled_one (le_value high))
      ]
      | inr p ↦ omega (
        arith,
        at_low p,
        at_high (omega (arith, p)),
        div_antitone scaled_one (le_value low) (le_value high) p le,
      )
    ]

module _ (doubles : Doubles) where
  open doubles use {Double, to_word, to_word_lt, to_word_pos}

  -- The difficulty is one that the fixed-point conversion handles.
  abbrev pub InRange : Double → Type 0
  InRange d =
      (usable doubles d ≡ true)
      × (below_one doubles (scale doubles d) ≡ false)
      × (beyond_word doubles (scale doubles d) ≡ false)

  -- For a difficulty in the range of the fixed-point conversion, its target is well formed and its
  -- value is 0xffff * 2 ^ 240 divided by the difficulty in units of 2 ^ -32, rounded down.
  pub value-target_from_share_difficulty :
      (d : Double)
      → InRange d
      → (value (target_from_share_difficulty doubles d) ≡ scaled_one / to_word (scale doubles d))
        × Fits (target_from_share_difficulty doubles d)
  unfolding target_from_share_difficulty
  value-target_from_share_difficulty d (ok, above, under) =
      let pos : 0 < to_word (scale doubles d) = to_word_pos (scale doubles d) above under in
      let (one, one_fits) = value-scaled_one in
      let word : value (from_word (to_word (scale doubles d))) ≡ to_word (scale doubles d) =
        omega arith in
      let (q, q_fits) =
        value-quotient (shl256 difficulty_one_target 32) (from_word (to_word (scale doubles d)))
          one_fits (omega (arith, to_word_lt (scale doubles d))) (omega (arith, pos)) in
      rw (ok, above, under) (q ∙ ap₂ (λ (a b : ℕ). a / b) one word, q_fits)

  -- For a difficulty in the range of the fixed-point conversion and a hash that is not zero, the
  -- hash meets the target of that difficulty exactly when the hash's own difficulty in units of 2 ^
  -- -32 is at least the difficulty in those units.
  pub meets-difficulty :
      (d : Double) (hash : List ℕ)
      → InRange d
      → IsHash hash
      → 0 < le_value hash
      → (hash_meets_target hash (target_from_share_difficulty doubles d) ≡ true)
        ↔ (to_word (scale doubles d) ≤ value (share_difficulty_of_hash_fixed32 hash))
  meets-difficulty d hash range h pos =
      let (target_is, fits) = value-target_from_share_difficulty d range in
      let (rank, _) = value-share_difficulty_fixed32 hash h in
      let word_pos : 0 < to_word (scale doubles d) =
        to_word_pos (scale doubles d) range.1 range.2 in
      let meets = hash_meets_target_iff hash (target_from_share_difficulty doubles d) h fits in
      let galois = div_galois scaled_one (to_word (scale doubles d)) (le_value hash) word_pos pos in
      (
        λ m. omega (arith, rank pos, galois.1 (omega (arith, target_is, (meets.0 m).1))),
        λ le.
            let small : le_value hash ≤ scaled_one / to_word (scale doubles d) =
              galois.0 (omega (arith, rank pos, le)) in
            meets.1 (omega (arith, target_is, small, pos), omega (arith, target_is, small)),
      )

  pub target_from_share_difficulty-Fits :
      (d : Double) → Fits (target_from_share_difficulty doubles d)
  unfolding target_from_share_difficulty
  target_from_share_difficulty-Fits d = elim (Bool-cases (usable doubles d)) [
    | inr bad ↦ rw bad (omega arith)
    | inl good ↦ elim (Bool-cases (below_one doubles (scale doubles d))) [
      | inl low ↦ rw (good, low) (omega arith)
      | inr enough ↦ elim (Bool-cases (beyond_word doubles (scale doubles d))) [
        | inr under ↦
            unfold target_from_share_difficulty in
            (value-target_from_share_difficulty d (good, enough, under)).1
        | inl beyond ↦ elim (Bool-cases (is_zero (from_word (to_word d)))) [
          | inl nothing ↦ rw (good, enough, beyond, nothing) (omega arith)
          | inr some_word ↦
              let word_fits : Fits (from_word (to_word d)) = omega (arith, to_word_lt d) in
              let pos : 0 < value (from_word (to_word d)) =
                ground (arith, is_zero_iff (from_word (to_word d))) in
              let (_, fits) =
                value-quotient difficulty_one_target (from_word (to_word d)) (omega arith) word_fits
                  pos in
              rw (good, enough, beyond, some_word) fits
        ]
      ]
    ]
  ]
