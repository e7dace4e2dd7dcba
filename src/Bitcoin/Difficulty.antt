-- ===== src/Bitcoin/Difficulty.antt =====
-- src/bitcoin/difficulty.hpp and difficulty.cpp: compact targets and share difficulties.
pub mod Decode
pub mod Share
use bitcoin_miner.Base.{
  ℕ, zero, suc, ◌+◌, ◌-◌, ◌*◌, ◌/◌, ◌%◌, ◌^◌, ◌<◌, Bool, true, false, ◌&&◌, ◌||◌, List, not, ltb,
  leb, ◌==◌, if◌then◌else◌, bit_or, bit_and, u32, ◌<<<◌, ◌>>>◌, ◌≡◌,
}
use bitcoin_miner.Bitcoin.UInt256.{
  UInt256, zero256, max256, from_word, is_zero, le256, bit_length, shl256, shr256, divide,
}
use bitcoin_miner.Bitcoin.UInt256.Bytes.{from_hash}

-- 0x00000000FFFF0000 in the top limb.
abbrev pub difficulty_one_target : UInt256
difficulty_one_target = record { limb0 = 0; limb1 = 0; limb2 = 0; limb3 = 0x00000000ffff0000 }

-- What `decodeCompactBits` returns and what it writes through its pointers.
pub record Decoded : Type 0 where
  pub ok : Bool
  pub target : UInt256
  pub negative : Bool
  pub overflow : Bool

-- The value and the overflow flag after the branches on the exponent.
pub record Scaled : Type 0 where
  pub scaled : UInt256
  pub too_big : Bool

pub scale_mantissa : ℕ → ℕ → Scaled
scale_mantissa exponent mantissa =
    if leb exponent 3
    then record { scaled = from_word (mantissa >>> (8 * (3 - exponent))); too_big = false }
    else let value = from_word mantissa in
      let shift_bytes = exponent - 3 in
      if ltb 32 shift_bytes
      then record { scaled = value; too_big = not (mantissa == 0) }
      else let bits = bit_length value in
        if not (bits == 0) && ltb 256 (bits + shift_bytes * 8)
        then record { scaled = value; too_big = true }
        else record { scaled = shl256 value (shift_bytes * 8); too_big = false }

unfoldable pub decode_compact_bits : ℕ → Decoded
decode_compact_bits n_bits =
    let exponent = n_bits >>> 24 in
    let mantissa = bit_and n_bits 0x007fffff in
    let is_negative = not (bit_and n_bits 0x00800000 == 0) && not (mantissa == 0) in
    let s = scale_mantissa exponent mantissa in
    if is_negative || s.too_big
    then record { ok = false; target = zero256; negative = is_negative; overflow = s.too_big }
    else record { ok = true; target = s.scaled; negative = is_negative; overflow = s.too_big }

unfoldable pub target_from_compact_bits : ℕ → UInt256
unfolding decode_compact_bits
target_from_compact_bits n_bits =
    let d = decode_compact_bits n_bits in if not d.ok then zero256 else d.target

-- The three mantissa bytes before they are renormalized.
compact_mantissa : UInt256 → ℕ → ℕ
compact_mantissa target size =
    if leb size 3
    then u32 (target.limb0 <<< (8 * (3 - size)))
    else bit_and (shr256 target (8 * (size - 3))).limb0 0x00ffffff

unfoldable pub encode_compact_bits : UInt256 → ℕ
unfolding compact_mantissa
encode_compact_bits target =
    if is_zero target
    then 0
    else let size = (bit_length target + 7) / 8 in
      let compact = compact_mantissa target size in
      if not (bit_and compact 0x00800000 == 0)
      then bit_or (compact >>> 8) (u32 ((size + 1) <<< 24))
      else bit_or compact (u32 (size <<< 24))

unfoldable pub hash_meets_target : List ℕ → UInt256 → Bool
unfolding from_hash is_zero le256
hash_meets_target hash target = if is_zero target then false else le256 (from_hash hash) target

-- The arithmetic on `double` that the conversion uses; the language gives it.
pub record Doubles : Type 1 where
  pub Double : Type 0
  -- The literal of a whole number, such as `0.0`.
  pub whole : ℕ → Double
  -- `a > b`, `a < b` and `a >= b`, which are three tests: none holds of a NaN.
  pub above : Double → Double → Bool
  pub below : Double → Double → Bool
  pub at_least : Double → Double → Bool
  -- `std::isfinite(x)` and `a * b`.
  pub is_finite : Double → Bool
  pub times : Double → Double → Double
  -- `static_cast<uint64_t>(x)`, which truncates. The language defines it below 2 ^ 64 only; some word
  -- stands for what the machine gives elsewhere.
  pub to_word : Double → ℕ
  pub to_word_lt : (x : Double) → to_word x < 2 ^ 64
  pub to_word_pos :
      (x : Double) → below x (whole 1) ≡ false → at_least x (whole (2 ^ 64)) ≡ false → 0 < to_word x

module _ (doubles : Doubles) where
  open doubles use {Double, whole, above, below, at_least, is_finite, times, to_word}

  -- The difficulties that have a target.
  abbrev pub usable : Double → Bool
  usable difficulty = above difficulty (whole 0) && is_finite difficulty

  -- `difficulty * kScale`.
  abbrev pub scale : Double → Double
  scale difficulty = times difficulty (whole 4294967296)

  abbrev pub below_one : Double → Bool
  below_one scaled = below scaled (whole 1)

  abbrev pub beyond_word : Double → Bool
  beyond_word scaled = at_least scaled (whole 18446744073709551616)

  unfoldable pub target_from_share_difficulty : Double → UInt256
  target_from_share_difficulty difficulty =
      if not (usable difficulty)
      then zero256
      else let scaled = scale difficulty in
        if below_one scaled
        then max256
        else if beyond_word scaled
        then (let denominator = from_word (to_word difficulty) in
            if is_zero denominator
            then zero256
            else (divide difficulty_one_target denominator).quotient)
        else (divide (shl256 difficulty_one_target 32) (from_word (to_word scaled))).quotient

unfoldable pub share_difficulty_of_hash : List ℕ → UInt256
share_difficulty_of_hash hash =
    let value = from_hash hash in
    if is_zero value then max256 else (divide difficulty_one_target value).quotient

unfoldable pub share_difficulty_of_hash_fixed32 : List ℕ → UInt256
share_difficulty_of_hash_fixed32 hash =
    let value = from_hash hash in
    if is_zero value then max256 else (divide (shl256 difficulty_one_target 32) value).quotient
