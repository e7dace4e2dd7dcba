-- ===== src/Util/Json/Scan.antt =====
-- The strings, literals and numbers of `Parser` of src/util/json.cpp. The position is the text that is
-- left.
pub mod Lengths
pub mod Strings
pub mod Numbers
use bitcoin_miner.Base.{
  ℕ, zero, suc, ◌+◌, ◌-◌, ◌*◌, Bool, true, false, ◌&&◌, ◌||◌, List, [], ◌∷◌, ◌++◌, Option, none,
  some, ◌>>=◌, ltb, leb, ◌==◌, not, if◌then◌else◌, Text, codes, ℤ, bit_or, bit_and, u8, u32, ◌<<<◌,
  ◌>>>◌, length,
}
use bitcoin_miner.Util.Hex.{hex_value}
use bitcoin_miner.Util.Decimal.{is_digit, span_digits}
use bitcoin_miner.Util.Json.{is_empty}

-- The messages of `fail`.
pub data Reason : Type 0 where
  nesting_too_deep : Reason
  unexpected_end : Reason
  invalid_literal : Reason
  invalid_number : Reason
  expected_string : Reason
  unterminated_string : Reason
  unterminated_escape : Reason
  truncated_unicode : Reason
  invalid_unicode : Reason
  invalid_escape : Reason
  unterminated_array : Reason
  expected_comma_or_bracket : Reason
  expected_colon : Reason
  unterminated_object : Reason
  expected_comma_or_brace : Reason
  trailing_characters : Reason

-- A value with the text after it, or a failure with the text at its offset. The code has no bound on
-- its rounds: `out_of_fuel` is no outcome of it.
pub data Parsed {ℓ} (A : Type ℓ) : Type ℓ where
  done : A → Text → Parsed A
  failed : Reason → Text → Parsed A
  out_of_fuel : Parsed A

abbrev pub and_then {ℓ κ} : {A : Type ℓ} {B : Type κ} → Parsed A → (A → Text → Parsed B) → Parsed B
and_then (done a rest) next = next a rest
and_then (failed reason rest) next = failed reason rest
and_then out_of_fuel next = out_of_fuel

abbrev pub is_blank : ℕ → Bool
is_blank c = c == b' ' || c == b'\t' || c == b'\n' || c == b'\r'

unfoldable pub skip_whitespace : Text → Text
skip_whitespace [] = []
skip_whitespace (c ∷ cs) = if is_blank c then skip_whitespace cs else c ∷ cs

-- Characters in front of the text that a parse gives.
unfoldable pub prepend : Text → Parsed Text → Parsed Text
prepend cs (done s rest) = done (cs ++ s) rest
prepend cs (failed reason rest) = failed reason rest
prepend cs out_of_fuel = out_of_fuel

-- The escapes of one letter.
unfoldable pub letter_escape : ℕ → Option ℕ
letter_escape c =
    if c == b'"'
    then some b'"'
    else if c == b'\\'
    then some b'\\'
    else if c == b'/'
    then some b'/'
    else if c == b'b'
    then some 8
    else if c == b'f'
    then some 12
    else if c == b'n'
    then some 10
    else if c == b'r'
    then some 13
    else if c == b't'
    then some 9
    else none

-- The loop over the four digits of a \u escape.
unfoldable pub unicode_code : ℕ → Text → Option ℕ
unicode_code code [] = some code
unicode_code code (h ∷ hs) = do
  digit ← hex_value h
  unicode_code (bit_or (u32 (code <<< 4)) digit) hs

unfoldable pub utf8 : ℕ → Text
utf8 code =
    if ltb code 0x80
    then code ∷ []
    else if ltb code 0x800
    then u8 (bit_or 0xc0 (code >>> 6)) ∷ u8 (bit_or 0x80 (bit_and code 0x3f)) ∷ []
    else u8 (bit_or 0xe0 (code >>> 12))
      ∷ u8 (bit_or 0x80 (bit_and (code >>> 6) 0x3f))
      ∷ u8 (bit_or 0x80 (bit_and code 0x3f))
      ∷ []

-- The loop of `parseString` after the opening quote.
unfoldable mutual
  pub string_body : Text → Parsed Text
  string_body [] = failed unterminated_string []
  string_body (c ∷ cs) = elim (c == b'"') [
    | true ↦ done [] cs
    | false ↦ elim (c == b'\\') [
      | true ↦ string_escape cs
      | false ↦ prepend (c ∷ []) (string_body cs)
    ]
  ]

  pub string_escape : Text → Parsed Text
  string_escape [] = failed unterminated_escape []
  string_escape (e ∷ cs) = elim (letter_escape e) [
    | some x ↦ prepend (x ∷ []) (string_body cs)
    | none ↦ elim (e == b'u') [ true ↦ string_unicode cs | false ↦ failed invalid_escape cs ]
  ]

  pub string_unicode : Text → Parsed Text
  string_unicode (h ∷ i ∷ j ∷ k ∷ cs) = elim (unicode_code 0 (h ∷ i ∷ j ∷ k ∷ [])) [
    | some code ↦ prepend (utf8 code) (string_body cs)
    | none ↦ failed invalid_unicode (h ∷ i ∷ j ∷ k ∷ cs)
  ]
  string_unicode cs = failed truncated_unicode cs

unfoldable pub parse_string : Text → Parsed Text
parse_string [] = failed expected_string []
parse_string (c ∷ cs) = if c == b'"' then string_body cs else failed expected_string (c ∷ cs)

-- A literal, by `text.compare`.
unfoldable pub strip : Text → Text → Option Text
strip [] cs = some cs
strip (w ∷ ws) [] = none
strip (w ∷ ws) (c ∷ cs) = let rest = strip ws cs in if c == w then rest else none

unfoldable pub literal {ℓ} : {A : Type ℓ} → Text → A → Text → Parsed A
literal word value cs = elim (strip word cs) [
  | some rest ↦ done value rest
  | none ↦ failed invalid_literal cs
]

-- `-` or `+`, when the text starts with one.
unfoldable pub span_sign : Text → Text × Text
span_sign [] = ([], [])
span_sign (c ∷ cs) = if c == b'-' || c == b'+' then (c ∷ [], cs) else ([], c ∷ cs)

-- The point and the digits after it.
unfoldable pub span_fraction : Text → Text × Text
span_fraction [] = ([], [])
span_fraction (c ∷ cs) =
    if c == b'.' then (let (ds, rest) = span_digits cs in (c ∷ ds, rest)) else ([], c ∷ cs)

unfoldable pub span_exponent : Text → Text × Text
span_exponent [] = ([], [])
span_exponent (c ∷ cs) =
    if c == b'e' || c == b'E'
    then (let (sign, after) = span_sign cs in
        let (ds, rest) = span_digits after in (c ∷ sign ++ ds, rest))
    else ([], c ∷ cs)

abbrev pub drop_first : Text → Text
drop_first [] = []
drop_first (c ∷ cs) = cs

-- The text of the number; `any` is whether it has a digit before its exponent.
unfoldable pub parse_number : Text → Parsed Text
parse_number cs =
    let (sign, after_sign) = span_sign cs in
    let (whole, after_whole) = span_digits after_sign in
    let (fraction, after_fraction) = span_fraction after_whole in
    let any = not (is_empty whole) || not (is_empty (drop_first fraction)) in
    let (exponent, after_exponent) = span_exponent after_fraction in
    if any
    then done (sign ++ whole ++ fraction ++ exponent) after_exponent
    else failed invalid_number after_fraction
