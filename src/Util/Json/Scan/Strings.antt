-- ===== src/Util/Json/Scan/Strings.antt =====
-- About the strings of src/util/json.cpp: what `jsonEscape` writes, `parseString` reads.
use bitcoin_miner.Base.{
  ℕ, ◌/◌, ◌%◌, ◌<◌, Bool, true, false, [], ◌∷◌, ◌++◌, ◌≡◌, refl, sym, subst, ap, ◌∙◌, arith, ltb→lt,
  ◌==◌, ==_iff, if◌then◌else◌, some, Text,
}
use mathlib.Core.List.{append_assoc}
use bitcoin_miner.Base.Bits.{high-bit_or, bit_and_low}
use bitcoin_miner.Util.Hex.{to_hex}
use bitcoin_miner.Util.Hex.RoundTrip.{hex_value-digit}
use bitcoin_miner.Util.Json.Writer.{escape_char, escape_chars, json_escape}
use bitcoin_miner.Util.Json.Scan.{
  done, prepend, letter_escape, unicode_code, utf8, string_body, string_unicode, parse_string,
}

plain_reads :
    (c : ℕ) (t : Text)
    → (c == b'"') ≡ false
    → (c == b'\\') ≡ false
    → string_body (c ∷ t) ≡ prepend (c ∷ []) (string_body t)
unfolding string_body
plain_reads c t quote backslash = rw (string_body, quote, backslash) refl

unicode_code-control : (c : ℕ) → c < 0x20 → unicode_code 0 (to_hex (0 ∷ c ∷ [])) ≡ some c
unfolding unicode_code to_hex
unicode_code-control c h = ground (
  arith,
  bit_and_low 4 c,
  hex_value-digit 0 (omega arith),
  hex_value-digit (c / 16) (omega arith),
  hex_value-digit (c % 16) (omega arith),
  high-bit_or 4 0 0 (omega arith),
  high-bit_or 4 0 (c / 16) (omega arith),
  high-bit_or 4 (c / 16) (c % 16) (omega arith),
)

open_escape : (cs : Text) → string_body (b'\\' ∷ b'u' ∷ cs) ≡ string_unicode cs
unfolding string_body letter_escape
open_escape cs = refl

string_unicode-code :
    (h i j k : ℕ) (t : Text) {code : ℕ}
    → unicode_code 0 (h ∷ i ∷ j ∷ k ∷ []) ≡ some code
    → string_body (b'\\' ∷ b'u' ∷ h ∷ i ∷ j ∷ k ∷ t) ≡ prepend (utf8 code) (string_body t)
unfolding string_unicode
string_unicode-code h i j k t e = open_escape (h ∷ i ∷ j ∷ k ∷ t) ∙ rw (string_unicode, e) refl

utf8-small : (c : ℕ) → c < 0x20 → utf8 c ≡ c ∷ []
unfolding utf8
utf8-small c h = ground arith

control_reads :
    (c : ℕ) (t : Text)
    → c < 0x20
    → string_body (b'\\' ∷ b'u' ∷ to_hex (0 ∷ c ∷ []) ++ t) ≡ prepend (c ∷ []) (string_body t)
unfolding to_hex
control_reads c t h =
    string_unicode-code _ _ _ _ t (unicode_code-control c h)
    ∙ ap (λ u. prepend u (string_body t)) (utf8-small c h)

-- The text `x` reads as the character `c`.
abbrev ReadsAs : ℕ → Text → Text → Type 0
ReadsAs c t x = string_body (x ++ t) ≡ prepend (c ∷ []) (string_body t)

ReadsAs-if :
    (c : ℕ) (t : Text) (b : Bool) (x y : Text)
    → (b ≡ true → ReadsAs c t x)
    → (b ≡ false → ReadsAs c t y)
    → ReadsAs c t (if b then x else y)
ReadsAs-if c t true x y kx ky = kx refl
ReadsAs-if c t false x y kx ky = ky refl

ReadsAs-letter :
    (c k e : ℕ) (t : Text)
    → ReadsAs k t (b'\\' ∷ e ∷ [])
    → (c == k) ≡ true
    → ReadsAs c t (b'\\' ∷ e ∷ [])
ReadsAs-letter c k e t h eq = subst (λ d. ReadsAs d t (b'\\' ∷ e ∷ [])) (sym ((==_iff c k).0 eq)) h

escape_char-ReadsAs : (c : ℕ) (t : Text) → ReadsAs c t (escape_char c)
unfolding escape_char string_body letter_escape
escape_char-ReadsAs c t = ReadsAs-if c t _ _ _ (ReadsAs-letter c b'"' b'"' t refl) λ quote.
    ReadsAs-if c t _ _ _ (ReadsAs-letter c b'\\' b'\\' t refl) λ backslash.
      ReadsAs-if c t _ _ _ (ReadsAs-letter c 8 b'b' t refl) λ _.
        ReadsAs-if c t _ _ _ (ReadsAs-letter c 12 b'f' t refl) λ _.
          ReadsAs-if c t _ _ _ (ReadsAs-letter c 10 b'n' t refl) λ _.
            ReadsAs-if c t _ _ _ (ReadsAs-letter c 13 b'r' t refl) λ _.
              ReadsAs-if c t _ _ _ (ReadsAs-letter c 9 b't' t refl) λ _.
                ReadsAs-if c t _ _ _ (λ h. control_reads c t (ltb→lt c 0x20 h))
                  λ _. plain_reads c t quote backslash

prepend-prepend : (c : ℕ) (s t : Text) → prepend (c ∷ []) (done s t) ≡ done (c ∷ s) t
unfolding prepend
prepend-prepend c s t = refl

string_body-escape_chars :
    (s rest : Text) → string_body (escape_chars s ++ b'"' ∷ rest) ≡ done s rest
unfolding escape_chars string_body
string_body-escape_chars [] rest = refl
string_body-escape_chars (c ∷ cs) rest =
    ap string_body (append_assoc (escape_char c) (escape_chars cs) (b'"' ∷ rest))
    ∙ escape_char-ReadsAs c (escape_chars cs ++ b'"' ∷ rest)
    ∙ ap (prepend (c ∷ [])) (string_body-escape_chars cs rest)
    ∙ prepend-prepend c cs rest

-- Any text, written as a string with any text after it, reads back as that text and stops there.
pub parse_string-json_escape : (s rest : Text) → parse_string (json_escape s ++ rest) ≡ done s rest
unfolding json_escape parse_string
parse_string-json_escape s rest =
    ap string_body (append_assoc (escape_chars s) (b'"' ∷ []) rest)
    ∙ string_body-escape_chars s rest
