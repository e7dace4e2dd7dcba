-- ===== src/Bitcoin/UInt256.antt =====
-- src/bitcoin/uint256.hpp and uint256.cpp: a 256-bit integer in four 64-bit limbs, least
-- significant first. The loops over the four limbs are written out limb by limb. A limb is a number
-- below 2 ^ 64, which `Fits` states; `value` is the integer that the limbs stand for.
pub mod Limbs
pub mod Sum
pub mod Order
pub mod Shift
pub mod ShiftRight
pub mod Divide
pub mod Bytes
pub mod BitLength
use bitcoin_miner.Base.{
  ℕ, zero, suc, ◌+◌, ◌-◌, ◌*◌, ◌/◌, ◌%◌, ◌^◌, ◌<◌, arith, Bool, true, false, ◌&&◌, not, List,
  bit_or, bit_and, ltb, leb, ◌==◌, if◌then◌else◌, u64, ◌<<<◌, ◌>>>◌,
}
use Prim.Native.Nat.{Ordering}

pub record UInt256 : Type 0 where
  pub limb0 : ℕ
  pub limb1 : ℕ
  pub limb2 : ℕ
  pub limb3 : ℕ

abbrev pub Fits : UInt256 → Type 0
Fits v = (v.limb0 < 2 ^ 64) × (v.limb1 < 2 ^ 64) × (v.limb2 < 2 ^ 64) × (v.limb3 < 2 ^ 64)

abbrev pub value : UInt256 → ℕ
value v = v.limb0 + v.limb1 * 2 ^ 64 + v.limb2 * 2 ^ 128 + v.limb3 * 2 ^ 192

pub value_lt : (v : UInt256) → Fits v → value v < 2 ^ 256
value_lt v fits = omega arith

-- The constructor from one word, `zero()` and `max()`.
abbrev pub from_word : ℕ → UInt256
from_word w = record { limb0 = w; limb1 = 0; limb2 = 0; limb3 = 0 }

abbrev pub zero256 : UInt256
zero256 = from_word 0

abbrev pub max256 : UInt256
max256 = record { limb0 = 2 ^ 64 - 1; limb1 = 2 ^ 64 - 1; limb2 = 2 ^ 64 - 1; limb3 = 2 ^ 64 - 1 }

-- `limbs_[i]`; the code reads at 0, 1, 2 and 3 only.
abbrev pub limb : UInt256 → ℕ → ℕ
limb v zero = v.limb0
limb v (suc zero) = v.limb1
limb v (suc (suc zero)) = v.limb2
limb v (suc (suc (suc i))) = v.limb3

-- `limbs_[i] = w`.
abbrev pub set_limb : UInt256 → ℕ → ℕ → UInt256
set_limb v zero w = record v { limb0 = w }
set_limb v (suc zero) w = record v { limb1 = w }
set_limb v (suc (suc zero)) w = record v { limb2 = w }
set_limb v (suc (suc (suc i))) w = record v { limb3 = w }

unfoldable pub is_zero : UInt256 → Bool
is_zero v = v.limb0 == 0 && v.limb1 == 0 && v.limb2 == 0 && v.limb3 == 0

-- `while (v) { v >>= 1; ++bits; }`, with one round of fuel for each bit of the limb.
pub word_bits : ℕ → ℕ → ℕ → ℕ
word_bits zero w bits = bits
word_bits (suc fuel) w bits =
    let rest = word_bits fuel (w >>> 1) (bits + 1) in if w == 0 then bits else rest

pub bit_length : UInt256 → ℕ
bit_length v =
    if not (v.limb3 == 0)
    then 192 + word_bits 64 v.limb3 0
    else if not (v.limb2 == 0)
    then 128 + word_bits 64 v.limb2 0
    else if not (v.limb1 == 0)
    then 64 + word_bits 64 v.limb1 0
    else if not (v.limb0 == 0)
    then word_bits 64 v.limb0 0
    else 0

-- One round of `compare`; the rest of the loop runs where the limbs are equal.
abbrev pub compare_limb : ℕ → ℕ → Ordering → Ordering
compare_limb a b rest = if ltb a b then Ordering.lt else if ltb b a then Ordering.gt else rest

-- `lt`, `eq` and `gt` are the results -1, 0 and +1.
unfoldable pub compare256 : UInt256 → UInt256 → Ordering
compare256 a b = compare_limb a.limb3 b.limb3 (
    compare_limb a.limb2 b.limb2
      (compare_limb a.limb1 b.limb1 (compare_limb a.limb0 b.limb0 Ordering.eq)))

unfoldable pub lt256 : UInt256 → UInt256 → Bool
lt256 a b = elim (compare256 a b) [ Ordering.lt ↦ true | _ ↦ false ]

unfoldable pub le256 : UInt256 → UInt256 → Bool
le256 a b = elim (compare256 a b) [ Ordering.gt ↦ false | _ ↦ true ]

unfoldable pub gt256 : UInt256 → UInt256 → Bool
gt256 a b = elim (compare256 a b) [ Ordering.gt ↦ true | _ ↦ false ]

unfoldable pub ge256 : UInt256 → UInt256 → Bool
ge256 a b = elim (compare256 a b) [ Ordering.lt ↦ false | _ ↦ true ]

-- One limb of `operator<<`, the body of its loop at `dst`.
shl_limb : UInt256 → ℕ → ℕ → ℕ → ℕ
shl_limb v limb_shift bit_shift dst =
    if ltb dst limb_shift
    then 0
    else let src = dst - limb_shift in
      let word = u64 (limb v src <<< bit_shift) in
      if not (bit_shift == 0) && ltb 0 src
      then bit_or word (limb v (src - 1) >>> (64 - bit_shift))
      else word

unfoldable pub shl256 : UInt256 → ℕ → UInt256
unfolding shl_limb
shl256 v shift =
    if leb 256 shift
    then zero256
    else let limb_shift = shift / 64 in
      let bit_shift = shift % 64 in
      record {
        limb0 = shl_limb v limb_shift bit_shift 0;
        limb1 = shl_limb v limb_shift bit_shift 1;
        limb2 = shl_limb v limb_shift bit_shift 2;
        limb3 = shl_limb v limb_shift bit_shift 3;
      }

-- One limb of `operator>>`; a `src` above 3 ends the loop and leaves the zeros in place.
shr_limb : UInt256 → ℕ → ℕ → ℕ → ℕ
shr_limb v limb_shift bit_shift dst =
    let src = dst + limb_shift in
    if ltb 3 src
    then 0
    else let word = limb v src >>> bit_shift in
      if not (bit_shift == 0) && leb (src + 1) 3
      then bit_or word (u64 (limb v (src + 1) <<< (64 - bit_shift)))
      else word

unfoldable pub shr256 : UInt256 → ℕ → UInt256
unfolding shr_limb
shr256 v shift =
    if leb 256 shift
    then zero256
    else let limb_shift = shift / 64 in
      let bit_shift = shift % 64 in
      record {
        limb0 = shr_limb v limb_shift bit_shift 0;
        limb1 = shr_limb v limb_shift bit_shift 1;
        limb2 = shr_limb v limb_shift bit_shift 2;
        limb3 = shr_limb v limb_shift bit_shift 3;
      }

-- What one round of `operator+` or `operator-` writes, and what it carries or borrows.
pub record Carried : Type 0 where
  pub out : ℕ
  pub carry : ℕ

pub add_limb : ℕ → ℕ → ℕ → Carried
add_limb a b carry =
    let sum = u64 (a + b) in
    let total = u64 (sum + carry) in
    record { out = total; carry = if ltb total sum then 1 else if ltb sum a then 1 else 0 }

pub add256 : UInt256 → UInt256 → UInt256
add256 a b =
    let s0 = add_limb a.limb0 b.limb0 0 in
    let s1 = add_limb a.limb1 b.limb1 s0.carry in
    let s2 = add_limb a.limb2 b.limb2 s1.carry in
    let s3 = add_limb a.limb3 b.limb3 s2.carry in
    record { limb0 = s0.out; limb1 = s1.out; limb2 = s2.out; limb3 = s3.out }

pub sub_limb : ℕ → ℕ → ℕ → Carried
sub_limb a b borrow =
    let diff = u64 (a + 2 ^ 64 - b) in
    let less = if ltb a b then 1 else 0 in
    if borrow == 0
    then record { out = diff; carry = less }
    else record { out = u64 (diff + 2 ^ 64 - 1); carry = if diff == 0 then 1 else less }

pub sub256 : UInt256 → UInt256 → UInt256
sub256 a b =
    let s0 = sub_limb a.limb0 b.limb0 0 in
    let s1 = sub_limb a.limb1 b.limb1 s0.carry in
    let s2 = sub_limb a.limb2 b.limb2 s1.carry in
    let s3 = sub_limb a.limb3 b.limb3 s2.carry in
    record { limb0 = s0.out; limb1 = s1.out; limb2 = s2.out; limb3 = s3.out }

unfoldable pub or256 : UInt256 → UInt256 → UInt256
or256 a b = record {
  limb0 = bit_or a.limb0 b.limb0;
  limb1 = bit_or a.limb1 b.limb1;
  limb2 = bit_or a.limb2 b.limb2;
  limb3 = bit_or a.limb3 b.limb3;
}

-- The quotient and the remainder of `divide`.
pub record Division : Type 0 where
  pub quotient : UInt256
  pub remainder : UInt256

-- `(numerator.limbs_[limb] >> shift) & 1u` at one bit.
abbrev pub bit_at : UInt256 → ℕ → ℕ
bit_at v bit = bit_and (limb v (bit / 64) >>> (bit % 64)) 1

-- The body of the loop of `divide` at one bit.
pub divide_bit : UInt256 → UInt256 → ℕ → Division → Division
divide_bit n d bit s =
    let shifted = shl256 s.remainder 1 in
    let rem = if bit_at n bit == 0 then shifted else or256 shifted (from_word 1) in
    if ge256 rem d
    then record {
      quotient =
          set_limb s.quotient (bit / 64) (bit_or (limb s.quotient (bit / 64)) (1 <<< (bit % 64)));
      remainder = sub256 rem d;
    }
    else record { quotient = s.quotient; remainder = rem }

-- `for (int bit = 255; bit >= 0; --bit)`, with the number of bits that are left.
pub divide_loop : UInt256 → UInt256 → ℕ → Division → Division
divide_loop n d zero s = s
divide_loop n d (suc bit) s = divide_loop n d bit (divide_bit n d bit s)

pub divide : UInt256 → UInt256 → Division
divide n d =
    if is_zero d
    then record { quotient = zero256; remainder = zero256 }
    else divide_loop n d 256 (record { quotient = zero256; remainder = zero256 })
