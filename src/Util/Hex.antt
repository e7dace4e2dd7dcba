-- ===== src/Util/Hex.antt =====
-- src/util/hex.cpp. A text is the list of its character codes, a buffer the list of its bytes; `out`
-- is the result in `some`, and `none` is a return of false, which leaves `out` alone.
pub mod RoundTrip
use bitcoin_miner.Base.{
  ℕ, zero, suc, ◌+◌, ◌-◌, ◌*◌, ◌/◌, ◌%◌, Bool, true, false, ◌&&◌, not, List, [], ◌∷◌, Option, none,
  some, bit_or, bit_and, leb, ◌==◌, if◌then◌else◌, u8, ◌<<<◌, ◌>>>◌, length, get_or, take, ◌>>=◌,
}

-- "0123456789abcdef".
abbrev pub hex_digits : List ℕ
hex_digits = 48 ∷ 49 ∷ 50 ∷ 51 ∷ 52 ∷ 53 ∷ 54 ∷ 55 ∷ 56 ∷ 57 ∷ 97 ∷ 98 ∷ 99 ∷ 100 ∷ 101 ∷ 102 ∷ []

unfoldable pub hex_digit : ℕ → ℕ
hex_digit n = get_or hex_digits n 0

-- `none` is the -1 of the code.
unfoldable pub hex_value : ℕ → Option ℕ
hex_value c =
    if leb b'0' c && leb c b'9'
    then some (c - b'0')
    else if leb b'a' c && leb c b'f'
    then some (c - b'a' + 10)
    else if leb b'A' c && leb c b'F'
    then some (c - b'A' + 10)
    else none

unfoldable pub to_hex : List ℕ → List ℕ
to_hex [] = []
to_hex (b ∷ bs) = hex_digit (b >>> 4) ∷ hex_digit (bit_and b 0x0f) ∷ to_hex bs

-- The loop over the pairs of characters; a last character with no partner is never reached.
pub from_hex_pairs : List ℕ → Option (List ℕ)
from_hex_pairs [] = some []
from_hex_pairs (c ∷ []) = none
from_hex_pairs (c ∷ d ∷ rest) = do
  hi ← hex_value c
  lo ← hex_value d
  bytes ← from_hex_pairs rest
  some (u8 (bit_or (hi <<< 4) lo) ∷ bytes)

unfoldable pub from_hex : List ℕ → Option (List ℕ)
unfolding from_hex_pairs
from_hex hex = if not (length hex % 2 == 0) then none else from_hex_pairs hex

unfoldable pub from_hex_or_empty : List ℕ → List ℕ
from_hex_or_empty hex = elim (from_hex hex) [ none ↦ [] | some bytes ↦ bytes ]

unfoldable pub from_hex_fixed : List ℕ → ℕ → Option (List ℕ)
unfolding from_hex
from_hex_fixed hex len =
    if not (length hex == len * 2) then none else do bytes ← from_hex hex; some (take len bytes)
