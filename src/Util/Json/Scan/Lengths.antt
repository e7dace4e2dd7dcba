-- ===== src/Util/Json/Scan/Lengths.antt =====
-- About the strings, literals and numbers of src/util/json.cpp: how far a parse gets in its text.
use bitcoin_miner.Base.{
  ℕ, ◌+◌, ◌≤◌, ◌<◌, Bool, true, false, [], ◌∷◌, ◌≡◌, refl, arith, inl, inr, Bool-cases, not, ◌||◌,
  ◌==◌, Option, none, some, Text, length,
}
use bitcoin_miner.Util.Decimal.{is_digit, span_digits}
use bitcoin_miner.Util.Json.{is_empty}
use bitcoin_miner.Util.Json.Scan.{
  Parsed, done, failed, out_of_fuel, and_then, invalid_escape, invalid_literal, is_blank,
  skip_whitespace, prepend, letter_escape, unicode_code, utf8, string_body, string_escape,
  string_unicode, parse_string, strip, literal, span_sign, span_fraction, span_exponent,
  parse_number, drop_first,
}

-- The parse ends, with a value and fewer than n characters left, or at an offset with n at most.
abbrev pub Within {ℓ} : {A : Type ℓ} → ℕ → Parsed A → Type 0
Within n (done a rest) = length rest < n
Within n (failed reason rest) = length rest ≤ n
Within n out_of_fuel = ⊥

pub Within-le {ℓ} : {A : Type ℓ} (m n : ℕ) (r : Parsed A) → m ≤ n → Within m r → Within n r
Within-le m n (done a rest) h w = omega arith
Within-le m n (failed reason rest) h w = omega arith
Within-le m n out_of_fuel h w = w

pub Within-and_then {ℓ κ} :
    {A : Type ℓ} {B : Type κ} (n : ℕ) (r : Parsed A) (next : A → Text → Parsed B)
    → Within n r
    → ((a : A) (rest : Text) → length rest < n → Within n (next a rest))
    → Within n (and_then r next)
Within-and_then n (done a rest) next w k = k a rest w
Within-and_then n (failed reason rest) next w k = w
Within-and_then n out_of_fuel next w k = w

Within-prepend : (n : ℕ) (cs : Text) (r : Parsed Text) → Within n r → Within n (prepend cs r)
unfolding prepend
Within-prepend n cs (done s rest) w = w
Within-prepend n cs (failed reason rest) w = w
Within-prepend n cs out_of_fuel w = w

pub length-skip_whitespace : (cs : Text) → length (skip_whitespace cs) ≤ length cs
unfolding skip_whitespace
length-skip_whitespace [] = omega arith
length-skip_whitespace (c ∷ cs) = elim (Bool-cases (is_blank c)) [
  | inl blank ↦ rw blank (omega (arith, length-skip_whitespace cs))
  | inr other ↦ rw other (omega arith)
]

module _ {ℓ} {A : Type ℓ} where
  pub Within-test :
      (n : ℕ) (b : Bool) (x y : Parsed A)
      → Within n x
      → Within n y
      → Within n (elim b [ true ↦ x | false ↦ y ])
  Within-test n true x y wx wy = wx
  Within-test n false x y wx wy = wy

  Within-option {κ} :
      {B : Type κ} (n : ℕ) (o : Option B) (x : Parsed A) (f : B → Parsed A)
      → Within n x
      → ((b : B) → Within n (f b))
      → Within n (elim o [ none ↦ x | some b ↦ f b ])
  Within-option n none x f w k = w
  Within-option n (some b) x f w k = k b

mutual
  unfolding string_body

  string_body-Within : (cs : Text) → Within (length cs) (string_body cs)
  string_body-Within [] = omega arith
  string_body-Within (c ∷ cs) = Within-test _ (c == b'"') (done [] cs) _ (omega arith) (
      Within-test _ (c == b'\\') (string_escape cs) (prepend (c ∷ []) (string_body cs))
        (Within-le (length cs) _ _ (omega arith) (string_escape-Within cs))
        (Within-prepend _ (c ∷ []) (string_body cs)
          (Within-le (length cs) _ _ (omega arith) (string_body-Within cs))))

  string_escape-Within : (cs : Text) → Within (length cs) (string_escape cs)
  string_escape-Within [] = omega arith
  string_escape-Within (e ∷ cs) =
      Within-option _ (letter_escape e) _ (λ x. prepend (x ∷ []) (string_body cs))
        (Within-test _ (e == b'u') (string_unicode cs) (failed invalid_escape cs)
          (Within-le (length cs) _ _ (omega arith) (string_unicode-Within cs)) (omega arith))
        λ x.
          Within-prepend _ (x ∷ []) (string_body cs)
            (Within-le (length cs) _ _ (omega arith) (string_body-Within cs))

  string_unicode-Within : (cs : Text) → Within (length cs) (string_unicode cs)
  string_unicode-Within (h ∷ i ∷ j ∷ k ∷ cs) =
      Within-option _ (unicode_code 0 (h ∷ i ∷ j ∷ k ∷ [])) _
        (λ code. prepend (utf8 code) (string_body cs)) (omega arith)
        λ code.
          Within-prepend _ (utf8 code) (string_body cs)
            (Within-le (length cs) _ _ (omega arith) (string_body-Within cs))
  string_unicode-Within cs = omega arith

pub parse_string-Within : (cs : Text) → Within (length cs) (parse_string cs)
unfolding parse_string
parse_string-Within [] = omega arith
parse_string-Within (c ∷ cs) = elim (Bool-cases (c == b'"')) [
  | inl quote ↦ rw quote (Within-le (length cs) _ _ (omega arith) (string_body-Within cs))
  | inr other ↦ rw other (omega arith)
]

strip-lt : (w : ℕ) (ws cs rest : Text) → strip (w ∷ ws) cs ≡ some rest → length rest < length cs
unfolding strip
strip-lt w ws [] rest e = cc
strip-lt w [] (c ∷ cs) rest e = ground arith
strip-lt w (v ∷ ws) (c ∷ cs) rest e = ground (arith, strip-lt v ws cs rest)

pub literal-Within {ℓ} :
    {A : Type ℓ} (w : ℕ) (ws : Text) (a : A) (cs : Text)
    → Within (length cs) (literal (w ∷ ws) a cs)
unfolding literal
literal-Within w ws a cs = go (strip (w ∷ ws) cs) (strip-lt w ws cs)
  where
    go :
        (o : Option Text)
        → ((rest : Text) → o ≡ some rest → length rest < length cs)
        → Within (length cs) (elim o [ some rest ↦ done a rest | none ↦ failed invalid_literal cs ])
    go none k = omega arith
    go (some rest) k = k rest refl

length-span_digits : (cs : Text) → length (span_digits cs).0 + length (span_digits cs).1 ≡ length cs
unfolding span_digits
length-span_digits [] = refl
length-span_digits (c ∷ cs) = elim (Bool-cases (is_digit c)) [
  | inl digit ↦ rw digit (omega (arith, length-span_digits cs))
  | inr other ↦ rw other (omega arith)
]

length-span_sign : (cs : Text) → length (span_sign cs).1 ≤ length cs
unfolding span_sign
length-span_sign [] = omega arith
length-span_sign (c ∷ cs) = ground arith

length-span_fraction :
    (cs : Text) → length (drop_first (span_fraction cs).0) + length (span_fraction cs).1 ≤ length cs
unfolding span_fraction
length-span_fraction [] = omega arith
length-span_fraction (c ∷ cs) = ground (arith, length-span_digits cs)

length-span_exponent : (cs : Text) → length (span_exponent cs).1 ≤ length cs
unfolding span_exponent
length-span_exponent [] = omega arith
length-span_exponent (c ∷ cs) =
    ground (arith, length-span_sign cs, length-span_digits (span_sign cs).1)

any_positive :
    (s t : Text) → (not (is_empty s) || not (is_empty t)) ≡ true → 0 < length s + length t
any_positive [] [] h = cc
any_positive [] (d ∷ ds) h = omega arith
any_positive (c ∷ cs) t h = omega arith

pub parse_number-Within : (cs : Text) → Within (length cs) (parse_number cs)
unfolding parse_number
parse_number-Within cs =
    let signed = length-span_sign cs in
    let after_sign = (span_sign cs).1 in
    let after_whole = (span_digits after_sign).1 in
    let point = length-span_fraction after_whole in
    let whole = length-span_digits after_sign in
    let after_fraction = (span_fraction after_whole).1 in
    elim (Bool-cases (
      not (is_empty (span_digits after_sign).0)
      || not (is_empty (drop_first (span_fraction after_whole).0)))) [
        | inl any ↦ rw any (
            omega (
              arith,
              signed,
              point,
              whole,
              length-span_exponent after_fraction,
              any_positive _ _ any,
            ))
        | inr none_yet ↦ rw none_yet (omega (arith, signed, point, whole))
      ]
