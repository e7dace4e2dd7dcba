-- ===== src/Util/Json/Writer.antt =====
-- `jsonEscape`, `dumpTo` and `dump` of src/util/json.cpp: JSON values written as text.
use bitcoin_miner.Base.{
  ℕ, suc, ◌*◌, Bool, true, false, ◌&&◌, [], ◌∷◌, ◌++◌, ltb, ◌==◌, if◌then◌else◌, Text, codes,
  replicate,
}
use bitcoin_miner.Util.Hex.{to_hex}
use bitcoin_miner.Util.Decimal.{to_string}
use bitcoin_miner.Util.Json.{
  Json, Elements, Members, null, bool, number, string, array, object, no_elements, element,
  no_members, member, Floats,
}

-- The switch on one character; "\\u%04x" for the control characters without a letter.
unfoldable pub escape_char : ℕ → Text
escape_char c =
    if c == b'"'
    then b'\\' ∷ b'"' ∷ []
    else if c == b'\\'
    then b'\\' ∷ b'\\' ∷ []
    else if c == 8
    then b'\\' ∷ b'b' ∷ []
    else if c == 12
    then b'\\' ∷ b'f' ∷ []
    else if c == 10
    then b'\\' ∷ b'n' ∷ []
    else if c == 13
    then b'\\' ∷ b'r' ∷ []
    else if c == 9
    then b'\\' ∷ b't' ∷ []
    else if ltb c 0x20
    then b'\\' ∷ b'u' ∷ to_hex (0 ∷ c ∷ [])
    else c ∷ []

unfoldable pub escape_chars : Text → Text
escape_chars [] = []
escape_chars (c ∷ cs) = escape_char c ++ escape_chars cs

unfoldable pub json_escape : Text → Text
json_escape s = b'"' ∷ escape_chars s ++ b'"' ∷ []

abbrev pub bool_text : Bool → Text
bool_text true = codes "true"
bool_text false = codes "false"

-- `pad` with depth + 1, and `padEnd` with depth.
unfoldable pub padding : ℕ → ℕ → Text
padding indent depth = if ltb 0 indent then replicate (indent * depth) b' ' else []

unfoldable pub newline : ℕ → Text
newline indent = if ltb 0 indent then b'\n' ∷ [] else []

unfoldable pub colon : ℕ → Text
colon indent = if ltb 0 indent then b':' ∷ b' ' ∷ [] else b':' ∷ []

-- `if (i + 1 < size) out += ","`.
unfoldable pub comma : Bool → Text
comma true = b',' ∷ []
comma false = []

module _ (floats : Floats) where
  open floats use {Double, of_int, to_int, is_finite, equals, below_9e15, print_10g}

  unfoldable pub number_text : Double → Text
  number_text x =
      if is_finite x
      then if equals x (of_int (to_int x)) && below_9e15 x
        then to_string (to_int x)
        else print_10g x
      else b'0' ∷ []

  abbrev pub more : Elements Double → Bool
  more no_elements = false
  more (element x xs) = true

  abbrev pub more_members : Members Double → Bool
  more_members no_members = false
  more_members (member k v ms) = true

  unfoldable mutual
    pub dump_to : ℕ → ℕ → Json Double → Text
    dump_to indent depth null = codes "null"
    dump_to indent depth (bool b) = bool_text b
    dump_to indent depth (number x) = number_text x
    dump_to indent depth (string s) = json_escape s
    dump_to indent depth (array no_elements) = codes "[]"
    dump_to indent depth (array (element x xs)) =
        b'[' ∷ newline indent
        ++ dump_elements indent depth (element x xs)
        ++ padding indent depth
        ++ b']' ∷ []
    dump_to indent depth (object no_members) = codes "{}"
    dump_to indent depth (object (member k v ms)) =
        b'{' ∷ newline indent
        ++ dump_members indent depth (member k v ms)
        ++ padding indent depth
        ++ b'}' ∷ []

    -- The loops over the elements and over the keys.
    pub dump_elements : ℕ → ℕ → Elements Double → Text
    dump_elements indent depth no_elements = []
    dump_elements indent depth (element x xs) =
        padding indent (suc depth)
        ++ dump_to indent (suc depth) x
        ++ comma (more xs)
        ++ newline indent
        ++ dump_elements indent depth xs

    pub dump_members : ℕ → ℕ → Members Double → Text
    dump_members indent depth no_members = []
    dump_members indent depth (member k v ms) =
        padding indent (suc depth)
        ++ json_escape k
        ++ colon indent
        ++ dump_to indent (suc depth) v
        ++ comma (more_members ms)
        ++ newline indent
        ++ dump_members indent depth ms

  unfoldable pub dump : ℕ → Json Double → Text
  dump indent v = dump_to indent 0 v
