-- ===== src/Util/Hex/RoundTrip.antt =====
-- About src/util/hex.cpp: encoding and decoding one after the other.
use bitcoin_miner.Base.{
  ℕ, ◌+◌, ◌*◌, ◌/◌, ◌%◌, ◌^◌, ◌<◌, true, ◌&&◌, List, [], ◌∷◌, map, some, bit_or, bit_and, ◌≡◌, refl,
  ◌∙◌, arith, leb, ◌==◌, ==_iff, if◌then◌else◌, length, take-all, inl, inr, Bool-cases, some_inj,
  >>=-eq-some, sym, subst,
}
use bitcoin_miner.Base.Bits.{high-bit_or, bit_and_low}
use bitcoin_miner.Base.Bytes.{IsBytes, holds_below, holds_below-at}
use bitcoin_miner.Util.Hex.{hex_digit, hex_value, to_hex, from_hex_pairs, from_hex, from_hex_fixed}

digit_code : ℕ → ℕ
digit_code n = if leb n 9 then 48 + n else 87 + n

digit_table : holds_below (λ n. hex_digit n == digit_code n) 16 ≡ true
unfolding holds_below hex_digit digit_code
digit_table = refl

hex_digit-code : (n : ℕ) → n < 16 → hex_digit n ≡ digit_code n
hex_digit-code n h = (==_iff _ _).0 (holds_below-at _ 16 digit_table h)

pub hex_value-digit : (n : ℕ) → n < 16 → hex_value (hex_digit n) ≡ some n
unfolding hex_value digit_code
hex_value-digit n h = rw (hex_digit-code n h) (ground arith)

pub hex_value_lt : (c : ℕ) {n : ℕ} → hex_value c ≡ some n → n < 16
unfolding hex_value
hex_value_lt c e = ground arith

-- A capital A to F in lower case, and any other character as it is.
abbrev pub lower : ℕ → ℕ
lower c = if leb b'A' c && leb c b'F' then c + 32 else c

hex_digit-value : (c : ℕ) {n : ℕ} → hex_value c ≡ some n → hex_digit n ≡ lower c
unfolding hex_value digit_code
hex_digit-value c {n} e = ground (arith, hex_digit-code n)

pub nibbles : (hi lo : ℕ) → hi < 16 → lo < 16 → bit_or (hi * 2 ^ 4) lo % 2 ^ 8 ≡ hi * 16 + lo
nibbles hi lo h l = omega (arith, high-bit_or 4 hi lo l)

pub length-to_hex : (bs : List ℕ) → length (to_hex bs) ≡ 2 * length bs
unfolding to_hex
length-to_hex [] = refl
length-to_hex (b ∷ bs) = omega (arith, length-to_hex bs)

from_hex_pairs-to_hex : (bs : List ℕ) → IsBytes bs → from_hex_pairs (to_hex bs) ≡ some bs
unfolding to_hex from_hex_pairs
from_hex_pairs-to_hex [] h = refl
from_hex_pairs-to_hex (b ∷ bs) h = ground (
  arith,
  bit_and_low 4 b,
  hex_value-digit (b / 16) (omega arith),
  hex_value-digit (b % 16) (omega arith),
  nibbles (b / 16) (b % 16) (omega arith) (omega arith),
  from_hex_pairs-to_hex bs h.1,
)

-- For a list of bytes, decoding its hex text succeeds and gives the bytes back.
pub from_hex-to_hex : (bs : List ℕ) → IsBytes bs → from_hex (to_hex bs) ≡ some bs
unfolding from_hex
from_hex-to_hex bs h =
    let even : length (to_hex bs) % 2 ≡ 0 = omega (arith, length-to_hex bs) in
    rw even (from_hex_pairs-to_hex bs h)

abbrev pub Decodes : List ℕ → List ℕ → Type 0
Decodes hex bs = (to_hex bs ≡ map lower hex) × IsBytes bs × (length hex ≡ 2 * length bs)

from_hex_pairs-Decodes :
    (hex : List ℕ) {bs : List ℕ} → from_hex_pairs hex ≡ some bs → Decodes hex bs
unfolding from_hex_pairs to_hex
from_hex_pairs-Decodes [] e = subst (Decodes []) (some_inj e) (refl, tt, refl)
from_hex_pairs-Decodes (c ∷ []) e = cc
from_hex_pairs-Decodes (c ∷ d ∷ rest) {bs} e =
    let (hi, hi_is, e1) = >>=-eq-some (hex_value c) _ e in
    let (lo, lo_is, e2) = >>=-eq-some (hex_value d) _ e1 in
    let (bytes, bytes_are, e3) = >>=-eq-some (from_hex_pairs rest) _ e2 in
    let (text, are_bytes, count) = from_hex_pairs-Decodes rest bytes_are in
    let h : hi < 16 = hex_value_lt c hi_is in
    let l : lo < 16 = hex_value_lt d lo_is in
    let byte : bit_or (hi * 2 ^ 4) lo % 2 ^ 8 ≡ hi * 16 + lo = nibbles hi lo h l in
    let high : (hi * 16 + lo) / 2 ^ 4 ≡ hi = omega arith in
    let low : bit_and (hi * 16 + lo) 15 ≡ lo = omega (arith, bit_and_low 4 (hi * 16 + lo)) in
    subst (Decodes (c ∷ d ∷ rest)) (some_inj e3) (
      rw (byte, high, low, hex_digit-value c hi_is, hex_digit-value d lo_is, text),
      (omega (arith, byte), are_bytes),
      omega (arith, count),
    )

-- When a text decodes, its length is twice that of the decoded bytes, these are below 256, and
-- encoding them gives the text in lower case.
pub from_hex-Decodes : (hex : List ℕ) {bs : List ℕ} → from_hex hex ≡ some bs → Decodes hex bs
unfolding from_hex
from_hex-Decodes hex e = elim (Bool-cases (length hex % 2 == 0)) [
  | inl even ↦ from_hex_pairs-Decodes hex (rw even at e)
  | inr odd ↦ cc (rw odd at e)
]

-- When a text decodes to a fixed number of bytes, exactly that many come out; they are below 256,
-- the text is twice as long, and encoding them gives it in lower case.
pub from_hex_fixed-Decodes :
    (hex : List ℕ) (len : ℕ) {bs : List ℕ}
    → from_hex_fixed hex len ≡ some bs
    → Decodes hex bs × (length bs ≡ len)
unfolding from_hex_fixed
from_hex_fixed-Decodes hex len {bs} e = elim (Bool-cases (length hex == len * 2)) [
  | inl fits ↦
      let (bytes, bytes_are, e1) = >>=-eq-some (from_hex hex) _ (rw fits at e) in
      let d = from_hex-Decodes hex bytes_are in
      let count : length bytes ≡ len = omega (arith, d.2, (==_iff (length hex) (len * 2)).0 fits) in
      subst (λ t. Decodes hex t × (length t ≡ len))
        (sym (take-all len bytes (omega arith)) ∙ some_inj e1) (d, count)
  | inr other ↦ cc (rw other at e)
]

pub from_hex_fixed-to_hex :
    (bs : List ℕ) (len : ℕ)
    → IsBytes bs
    → length bs ≡ len
    → from_hex_fixed (to_hex bs) len ≡ some bs
unfolding from_hex_fixed
from_hex_fixed-to_hex bs len h count =
    let fits : length (to_hex bs) ≡ len * 2 = omega (arith, length-to_hex bs) in
    rw ((==_iff _ _).1 fits, from_hex-to_hex bs h, take-all len bs (omega arith))
