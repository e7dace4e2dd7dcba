-- ===== src/Util/Decimal/RoundTrip.antt =====
-- About the decimal texts of `int64_t` values: reading back what was written.
use bitcoin_miner.Base.{
  ℕ, zero, suc, ◌+◌, ◌-◌, ◌*◌, ◌/◌, ◌%◌, ◌^◌, ◌<◌, Bool, true, false, [], ◌∷◌, ◌++◌, ◌≡◌, refl,
  arith, inl, inr, ltb→lt, Bool-cases, ltb, ◌==◌, Text, ℤ, pos, negsuc, magnitude, All, All-append,
  length, length-append,
}
use bitcoin_miner.Util.Decimal.{
  is_digit, digits, decimal, to_string, span_digits, digits_value, is_space, skip_space, saturate,
  strtoll_split, strtoll_digits, strtoll_sign, strtoll,
}

abbrev pub IsDigit : ℕ → Type 0
IsDigit c = is_digit c ≡ true

abbrev pub IsDigits : Text → Type 0
IsDigits = All IsDigit

decimal-IsDigit : (n : ℕ) → n < 10 → IsDigit (b'0' + n)
decimal-IsDigit n h = ground arith

digits-IsDigits : (fuel n : ℕ) → IsDigits (digits fuel n)
unfolding digits
digits-IsDigits zero n = tt
digits-IsDigits (suc fuel) n = elim (Bool-cases (ltb n 10)) [
  | inl small ↦ rw small (decimal-IsDigit n (ltb→lt n 10 small), tt)
  | inr big ↦ rw big (
      All-append IsDigit (digits fuel (n / 10)) _ (digits-IsDigits fuel (n / 10))
        (decimal-IsDigit (n % 10) (omega arith), tt))
]

pub decimal-IsDigits : (n : ℕ) → IsDigits (decimal n)
unfolding decimal
decimal-IsDigits n = digits-IsDigits 20 n

-- What follows the digits of a number does not start with a digit.
abbrev pub NoDigit : Text → Type 0
NoDigit [] = Unit
NoDigit (c ∷ cs) = is_digit c ≡ false

pub span_digits-append :
    (ds rest : Text) → IsDigits ds → NoDigit rest → span_digits (ds ++ rest) ≡ (ds, rest)
unfolding span_digits
span_digits-append [] [] h k = refl
span_digits-append [] (c ∷ cs) h k = rw k refl
span_digits-append (d ∷ ds) rest h k = rw (h.0, span_digits-append ds rest h.1 k) refl

digits_value-append :
    (n : ℕ) (xs ys : Text) → digits_value n (xs ++ ys) ≡ digits_value (digits_value n xs) ys
unfolding digits_value
digits_value-append n [] ys = refl
digits_value-append n (x ∷ xs) ys = digits_value-append (n * 10 + (x - b'0')) xs ys

digits_value-digits : (fuel n : ℕ) → n < 10 ^ fuel → digits_value 0 (digits fuel n) ≡ n
unfolding digits digits_value
digits_value-digits zero n h = omega arith
digits_value-digits (suc fuel) n h = ground (
  arith,
  digits_value-append 0 (digits fuel (n / 10)) ((b'0' + n % 10) ∷ []),
  digits_value-digits fuel (n / 10),
)

-- At least one digit, and nothing else.
abbrev pub IsNumeral : Text → Type 0
IsNumeral t = (0 < length t) × IsDigits t

digits_positive : (fuel n : ℕ) → 0 < length (digits (suc fuel) n)
unfolding digits
digits_positive fuel n = ground (arith, length-append (digits fuel (n / 10)) ((b'0' + n % 10) ∷ []))

digits-IsNumeral : (fuel n : ℕ) → IsNumeral (digits (suc fuel) n)
digits-IsNumeral fuel n = (digits_positive fuel n, digits-IsDigits (suc fuel) n)

pub decimal-IsNumeral : (n : ℕ) → IsNumeral (decimal n)
unfolding decimal
decimal-IsNumeral n = digits-IsNumeral 19 n

pub value-decimal : (n : ℕ) → n < 2 ^ 64 → digits_value 0 (decimal n) ≡ n
unfolding decimal
value-decimal n h = digits_value-digits 20 n (omega arith)

strtoll_digits-numeral :
    (minus : Bool) (t whole rest : Text)
    → IsNumeral t
    → NoDigit rest
    → strtoll_digits minus whole (t ++ rest) ≡ (saturate minus (digits_value 0 t), rest)
unfolding strtoll_digits strtoll_split
strtoll_digits-numeral minus [] whole rest (h, _) k = absurd (omega arith)
strtoll_digits-numeral minus (d ∷ ds) whole rest (h, ok) k =
    rw (span_digits-append (d ∷ ds) rest ok k) refl

digit_plain :
    (d : ℕ) → IsDigit d → (is_space d ≡ false) × ((d == b'-') ≡ false) × ((d == b'+') ≡ false)
digit_plain d h = ground arith

strtoll-numeral :
    (t rest : Text)
    → IsNumeral t
    → NoDigit rest
    → strtoll (t ++ rest) ≡ (saturate false (digits_value 0 t), rest)
unfolding strtoll strtoll_sign skip_space
strtoll-numeral [] rest (h, _) k = absurd (omega arith)
strtoll-numeral (d ∷ ds) rest (h, ok) k =
    let (space, minus, plus) = digit_plain d ok.0 in
    let digits_first = strtoll_digits-numeral false (d ∷ ds) ((d ∷ ds) ++ rest) rest (h, ok) k in
    rw (space, minus, plus) digits_first

strtoll-minus :
    (t rest : Text)
    → IsNumeral t
    → NoDigit rest
    → strtoll (b'-' ∷ t ++ rest) ≡ (saturate true (digits_value 0 t), rest)
unfolding strtoll strtoll_sign skip_space
strtoll-minus t rest h k = strtoll_digits-numeral true t (b'-' ∷ t ++ rest) rest h k

-- For an integer that an `int64_t` holds, but the smallest one, and a text after it that does not
-- start with a digit, reading what was written gives the integer and stops at that text.
pub strtoll-to_string :
    (z : ℤ) (rest : Text)
    → magnitude z < 2 ^ 63
    → NoDigit rest
    → strtoll (to_string z ++ rest) ≡ (z, rest)
unfolding to_string saturate
strtoll-to_string (pos n) rest h k =
    rw (strtoll-numeral (decimal n) rest (decimal-IsNumeral n) k, value-decimal n (omega arith))
      (ground arith)
strtoll-to_string (negsuc n) rest h k =
    rw
      (
        strtoll-minus (decimal (suc n)) rest (decimal-IsNumeral (suc n)) k,
        value-decimal (suc n) (omega arith),
      )
      (ground arith)
