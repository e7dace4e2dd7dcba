-- ===== src/Util/Decimal.antt =====
-- `std::to_string` and `std::strtoll` in base 10, as the JSON code calls them on `int64_t`.
pub mod RoundTrip
use bitcoin_miner.Base.{
  ℕ, zero, suc, ◌+◌, ◌-◌, ◌*◌, ◌/◌, ◌%◌, ◌^◌, Bool, true, false, ◌&&◌, ◌||◌, List, [], ◌∷◌, ◌++◌,
  ltb, leb, ◌==◌, if◌then◌else◌, Text, ℤ, pos, negsuc, negate, min,
}

abbrev pub is_digit : ℕ → Bool
is_digit c = leb b'0' c && leb c b'9'

-- The digits of a number; each round writes the lowest one.
unfoldable pub digits : ℕ → ℕ → Text
digits zero n = []
digits (suc fuel) n =
    let high = digits fuel (n / 10) in
    if ltb n 10 then (b'0' + n) ∷ [] else high ++ (b'0' + n % 10) ∷ []

-- An `int64_t` has at most 19 digits.
unfoldable pub decimal : ℕ → Text
decimal n = digits 20 n

unfoldable pub to_string : ℤ → Text
to_string (pos n) = decimal n
to_string (negsuc n) = b'-' ∷ decimal (suc n)

unfoldable pub span_digits : Text → Text × Text
span_digits [] = ([], [])
span_digits (c ∷ cs) =
    let (more, rest) = span_digits cs in if is_digit c then (c ∷ more, rest) else ([], c ∷ cs)

unfoldable pub digits_value : ℕ → Text → ℕ
digits_value n [] = n
digits_value n (c ∷ cs) = digits_value (n * 10 + (c - b'0')) cs

-- `isspace` in the "C" locale.
abbrev pub is_space : ℕ → Bool
is_space c = c == b' ' || leb 9 c && leb c 13

unfoldable pub skip_space : Text → Text
skip_space [] = []
skip_space (c ∷ cs) = if is_space c then skip_space cs else c ∷ cs

unfoldable pub saturate : Bool → ℕ → ℤ
saturate true n = negate (min n (2 ^ 63))
saturate false n = pos (min n (2 ^ 63 - 1))

-- The number after an optional sign, with what follows it; without a digit, 0 and the whole text.
strtoll_split : Bool → Text → Text × Text → ℤ × Text
strtoll_split minus whole ([], rest) = (pos 0, whole)
strtoll_split minus whole (d ∷ ds, rest) = (saturate minus (digits_value 0 (d ∷ ds)), rest)

strtoll_digits : Bool → Text → Text → ℤ × Text
strtoll_digits minus whole cs = strtoll_split minus whole (span_digits cs)

strtoll_sign : Text → Text → ℤ × Text
strtoll_sign whole [] = (pos 0, whole)
strtoll_sign whole (c ∷ cs) =
    if c == b'-'
    then strtoll_digits true whole cs
    else if c == b'+'
    then strtoll_digits false whole cs
    else strtoll_digits false whole (c ∷ cs)

unfoldable pub strtoll : Text → ℤ × Text
unfolding strtoll_sign strtoll_digits strtoll_split
strtoll text = strtoll_sign text (skip_space text)
