-- ===== src/Util/Json/Printable.antt =====
-- About `jsonEscape` and `dump` of src/util/json.cpp: the characters that they write.
use bitcoin_miner.Base.{
  ℕ, suc, ◌/◌, ◌≤◌, ◌<◌, Bool, true, false, [], ◌∷◌, ◌++◌, ◌≡◌, refl, sym, ap, ◌∙◌, subst, arith,
  ltb, ltb→lt, leb, leb→le, ◌==◌, if◌then◌else◌, Text, ℤ, pos, negsuc, All, All-append, bit_and,
}
use bitcoin_miner.Base.Bits.{bit_and_low}
use bitcoin_miner.Base.Bytes.{holds_below, holds_below-at}
use bitcoin_miner.Util.Hex.{hex_digit, to_hex}
use bitcoin_miner.Util.Decimal.{decimal, to_string}
use bitcoin_miner.Util.Decimal.RoundTrip.{IsDigits, decimal-IsDigits}
use bitcoin_miner.Util.Json.{
  Json, Elements, Members, null, bool, number, string, array, object, no_elements, element,
  no_members, member, Floats,
}
use bitcoin_miner.Util.Json.Writer.{
  escape_char, escape_chars, json_escape, dump_to, dump_elements, dump_members, dump, more,
  more_members, comma, newline, padding, colon, number_text, bool_text,
}
use bitcoin_miner.Util.Json.Readable.{IsWhole, IsReadable, AreReadable, IsKeyed}
use bitcoin_miner.Util.Json.Reads.{number_text-whole}

-- No control character.
abbrev pub IsPrintable : Text → Type 0
IsPrintable = All λ c. 0x20 ≤ c

join : (s t : Text) → IsPrintable s → IsPrintable t → IsPrintable (s ++ t)
join s t h k = All-append _ s t h k

digit_table : holds_below (λ n. leb 0x20 (hex_digit n)) 16 ≡ true
unfolding holds_below hex_digit
digit_table = refl

hex_digit_printable : (n : ℕ) → n < 16 → 0x20 ≤ hex_digit n
hex_digit_printable n h = leb→le 0x20 (hex_digit n) (holds_below-at _ 16 digit_table h)

control-IsPrintable : (c : ℕ) → c < 0x20 → IsPrintable (to_hex (0 ∷ c ∷ []))
unfolding to_hex
control-IsPrintable c h =
    let digit : (n : ℕ) → n < 16 → 0x20 ≤ hex_digit n = hex_digit_printable in
    (
      digit 0 (omega arith),
      (
        digit 0 (omega arith),
        (digit (c / 16) (omega arith), (digit (bit_and c 15) (omega (arith, bit_and_low 4 c)), tt)),
      ),
    )

-- The same, kept shut, so that the tests of `escape_char` are found in the goal.
IsShown : Text → Type 0
IsShown t = IsPrintable t

if-IsShown :
    (b : Bool) (s t : Text)
    → (b ≡ true → IsShown s)
    → (b ≡ false → IsShown t)
    → IsShown (if b then s else t)
if-IsShown true s t hs ht = hs refl
if-IsShown false s t hs ht = ht refl

letter-IsShown : (e : ℕ) → 0x20 ≤ e → IsShown (b'\\' ∷ e ∷ [])
unfolding IsShown
letter-IsShown e h = (omega arith, (h, tt))

control-IsShown : (c : ℕ) → ltb c 0x20 ≡ true → IsShown (b'\\' ∷ b'u' ∷ to_hex (0 ∷ c ∷ []))
unfolding IsShown
control-IsShown c h = (omega arith, (omega arith, control-IsPrintable c (ltb→lt c 0x20 h)))

plain-IsShown : (c : ℕ) → ltb c 0x20 ≡ false → IsShown (c ∷ [])
unfolding IsShown
plain-IsShown c h = (ground arith, tt)

escape_char-IsShown : (c : ℕ) → IsShown (escape_char c)
unfolding escape_char
escape_char-IsShown c =
    if-IsShown (c == b'"') _ _ (λ _. letter-IsShown b'"' (omega arith))
      λ _.
        if-IsShown (c == b'\\') _ _ (λ _. letter-IsShown b'\\' (omega arith))
          λ _.
            if-IsShown (c == 8) _ _ (λ _. letter-IsShown b'b' (omega arith))
              λ _.
                if-IsShown (c == 12) _ _ (λ _. letter-IsShown b'f' (omega arith))
                  λ _.
                    if-IsShown (c == 10) _ _ (λ _. letter-IsShown b'n' (omega arith))
                      λ _.
                        if-IsShown (c == 13) _ _ (λ _. letter-IsShown b'r' (omega arith))
                          λ _.
                            if-IsShown (c == 9) _ _ (λ _. letter-IsShown b't' (omega arith))
                              λ _.
                                if-IsShown (ltb c 0x20) _ (c ∷ []) (λ h. control-IsShown c h)
                                  λ h. plain-IsShown c h

escape_char-IsPrintable : (c : ℕ) → IsPrintable (escape_char c)
unfolding IsShown
escape_char-IsPrintable c = escape_char-IsShown c

escape_chars-IsPrintable : (s : Text) → IsPrintable (escape_chars s)
unfolding escape_chars
escape_chars-IsPrintable [] = tt
escape_chars-IsPrintable (c ∷ cs) =
    join (escape_char c) (escape_chars cs) (escape_char-IsPrintable c) (escape_chars-IsPrintable cs)

json_escape-IsPrintable : (s : Text) → IsPrintable (json_escape s)
unfolding json_escape
json_escape-IsPrintable s =
    (omega arith, join (escape_chars s) (b'"' ∷ []) (escape_chars-IsPrintable s) (omega arith))

digits-IsPrintable : (t : Text) → IsDigits t → IsPrintable t
digits-IsPrintable [] h = tt
digits-IsPrintable (c ∷ cs) h = (ground (arith, h.0), digits-IsPrintable cs h.1)

to_string-IsPrintable : (z : ℤ) → IsPrintable (to_string z)
unfolding to_string
to_string-IsPrintable (pos n) = digits-IsPrintable (decimal n) (decimal-IsDigits n)
to_string-IsPrintable (negsuc n) =
    (omega arith, digits-IsPrintable (decimal (suc n)) (decimal-IsDigits (suc n)))

bool_text-IsPrintable : (b : Bool) → IsPrintable (bool_text b)
bool_text-IsPrintable true = omega arith
bool_text-IsPrintable false = omega arith

comma-IsPrintable : (b : Bool) → IsPrintable (comma b)
unfolding comma
comma-IsPrintable true = omega arith
comma-IsPrintable false = tt

module _ (floats : Floats) where
  open floats use {Double}

  number_text-IsPrintable : (x : Double) → IsWhole floats x → IsPrintable (number_text floats x)
  number_text-IsPrintable x (z, small, same) =
      subst IsPrintable (sym (ap (number_text floats) same ∙ number_text-whole floats z small))
        (to_string-IsPrintable z)

  mutual
    unfolding dump_to IsReadable padding newline colon

    dump_to-IsPrintable :
        (d : ℕ) (v : Json Double) → IsReadable floats v → IsPrintable (dump_to floats 0 d v)
    dump_to-IsPrintable d null h = omega arith
    dump_to-IsPrintable d (bool b) h = bool_text-IsPrintable b
    dump_to-IsPrintable d (number x) h = number_text-IsPrintable x h
    dump_to-IsPrintable d (string s) h = json_escape-IsPrintable s
    dump_to-IsPrintable d (array no_elements) h = omega arith
    dump_to-IsPrintable d (array (element x xs)) h = (
      omega arith,
      join _ (b']' ∷ []) (join _ [] (elements-IsPrintable d (element x xs) h) tt) (omega arith),
    )
    dump_to-IsPrintable d (object no_members) h = omega arith
    dump_to-IsPrintable d (object (member k v ms)) h = (
      omega arith,
      join _ (b'}' ∷ []) (join _ [] (members-IsPrintable d (member k v ms) h) tt) (omega arith),
    )

    elements-IsPrintable :
        (d : ℕ) (xs : Elements Double)
        → AreReadable floats xs
        → IsPrintable (dump_elements floats 0 d xs)
    elements-IsPrintable d no_elements h = tt
    elements-IsPrintable d (element x xs) h =
        join _ (dump_elements floats 0 d xs)
          (join _ []
            (join _ (comma (more floats xs)) (dump_to-IsPrintable (suc d) x h.0)
              (comma-IsPrintable _))
            tt)
          (elements-IsPrintable d xs h.1)

    members-IsPrintable :
        (d : ℕ) (ms : Members Double) → IsKeyed floats ms → IsPrintable (dump_members floats 0 d ms)
    members-IsPrintable d no_members h = tt
    members-IsPrintable d (member k v ms) h =
        join _ (dump_members floats 0 d ms)
          (join _ []
            (join _ (comma (more_members floats ms))
              (join _ (dump_to floats 0 (suc d) v)
                (join (json_escape k) (b':' ∷ []) (json_escape-IsPrintable k) (omega arith))
                (dump_to-IsPrintable (suc d) v h.1))
              (comma-IsPrintable _))
            tt)
          (members-IsPrintable d ms h.2)

  -- For a value whose numbers are integers of a magnitude below 9 * 10 ^ 15, in which no object has
  -- a key twice, what dump writes without indentation holds no control character.
  pub dump-IsPrintable : (v : Json Double) → IsReadable floats v → IsPrintable (dump floats 0 v)
  unfolding dump
  dump-IsPrintable v h = dump_to-IsPrintable 0 v h
