-- ===== src/Util/Json/Scan/Numbers.antt =====
-- About the numbers of src/util/json.cpp: what `std::to_string` writes, `parseNumber` reads.
use bitcoin_miner.Base.{ℕ, suc, false, [], ◌∷◌, ◌++◌, ◌≡◌, refl, arith, ◌==◌, Text, ℤ, pos, negsuc}
use mathlib.Core.List.{append-nil}
use bitcoin_miner.Util.Decimal.{is_digit, decimal, to_string}
use bitcoin_miner.Util.Decimal.RoundTrip.{
  IsDigit, IsNumeral, NoDigit, span_digits-append, decimal-IsNumeral,
}
use bitcoin_miner.Util.Json.Scan.{done, span_sign, span_fraction, span_exponent, parse_number}

-- A text after which a number has ended: nothing of it could be one more character of the number.
abbrev pub NumberEnds : Text → Type 0
NumberEnds [] = Unit
NumberEnds (c ∷ cs) =
    (is_digit c ≡ false) × ((c == b'.') ≡ false) × ((c == b'e') ≡ false) × ((c == b'E') ≡ false)

NumberEnds-NoDigit : (rest : Text) → NumberEnds rest → NoDigit rest
NumberEnds-NoDigit [] h = tt
NumberEnds-NoDigit (c ∷ cs) h = h.0

span_fraction-none : (rest : Text) → NumberEnds rest → span_fraction rest ≡ ([], rest)
unfolding span_fraction
span_fraction-none [] h = refl
span_fraction-none (c ∷ cs) (_, point, _, _) = rw point refl

span_exponent-none : (rest : Text) → NumberEnds rest → span_exponent rest ≡ ([], rest)
unfolding span_exponent
span_exponent-none [] h = refl
span_exponent-none (c ∷ cs) (_, _, small, capital) = rw (small, capital) refl

span_sign-digit : (d : ℕ) (cs : Text) → IsDigit d → span_sign (d ∷ cs) ≡ ([], d ∷ cs)
unfolding span_sign
span_sign-digit d cs h = ground arith

parse_number-signed :
    (cs sign t rest : Text)
    → span_sign cs ≡ (sign, t ++ rest)
    → IsNumeral t
    → NumberEnds rest
    → parse_number cs ≡ done (sign ++ t) rest
unfolding parse_number
parse_number-signed cs sign [] rest e (h, _) k = absurd (omega arith)
parse_number-signed cs sign (d ∷ ds) rest e h k =
    rw
      (
        e,
        span_digits-append (d ∷ ds) rest h.1 (NumberEnds-NoDigit rest k),
        span_fraction-none rest k,
        span_exponent-none rest k,
      )
      (simp append-nil)

-- The decimal text of an integer is read as a number, up to a text after which a number has ended.
pub parse_number-to_string :
    (z : ℤ) (rest : Text)
    → NumberEnds rest
    → parse_number (to_string z ++ rest) ≡ done (to_string z) rest
unfolding to_string span_sign
parse_number-to_string (pos n) rest k = go (decimal n) (decimal-IsNumeral n)
  where
    go : (t : Text) → IsNumeral t → parse_number (t ++ rest) ≡ done t rest
    go [] (h, _) = absurd (omega arith)
    go (d ∷ ds) h =
        parse_number-signed _ [] (d ∷ ds) rest (span_sign-digit d (ds ++ rest) h.1.0) h k
parse_number-to_string (negsuc n) rest k =
    parse_number-signed _ (b'-' ∷ []) (decimal (suc n)) rest refl (decimal-IsNumeral (suc n)) k
