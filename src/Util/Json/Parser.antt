-- ===== src/Util/Json/Parser.antt =====
-- `parseValue`, `parseArray`, `parseObject` and `parse` of src/util/json.cpp. The depth is an
-- argument, since it comes back to its value wherever a parse goes on.
use bitcoin_miner.Base.{
  ℕ, zero, suc, ◌+◌, ◌*◌, true, false, [], ◌∷◌, leb, ◌==◌, if◌then◌else◌, Text, codes, length,
}
use bitcoin_miner.Util.Json.{
  Json, null, bool, number, string, array, object, no_elements, no_members, Floats, push, set,
}
use bitcoin_miner.Util.Json.Scan.{
  Reason, nesting_too_deep, unexpected_end, unterminated_array, expected_comma_or_bracket,
  expected_colon, unterminated_object, expected_comma_or_brace, trailing_characters, Parsed, done,
  failed, out_of_fuel, and_then, skip_whitespace, parse_string, literal, parse_number,
}

abbrev pub max_depth : ℕ
max_depth = 64

-- The cases of the switch on the first character.
pub data Start : Type 0 where
  object_start : Start
  array_start : Start
  string_start : Start
  true_start : Start
  false_start : Start
  null_start : Start
  number_start : Start

unfoldable pub start_of : ℕ → Start
start_of c =
    if c == b'{'
    then object_start
    else if c == b'['
    then array_start
    else if c == b'"'
    then string_start
    else if c == b't'
    then true_start
    else if c == b'f'
    then false_start
    else if c == b'n'
    then null_start
    else number_start

module _ {D : Type 0} where
  -- After an opening bracket and the blanks behind it; `loop` reads the elements or the members.
  unfoldable pub unless_closed : ℕ → Json D → (Text → Parsed (Json D)) → Text → Parsed (Json D)
  unless_closed close empty loop [] = loop []
  unless_closed close empty loop (c ∷ cs) = elim (c == close) [
    | true ↦ done empty cs
    | false ↦ loop (c ∷ cs)
  ]

  -- After an element or a member and the blanks behind it: the reasons are those of a text that ends
  -- and of another character.
  unfoldable pub next_or_close :
      ℕ → Reason → Reason → Json D → (Text → Parsed (Json D)) → Text → Parsed (Json D)
  next_or_close close ended other container loop [] = failed ended []
  next_or_close close ended other container loop (c ∷ cs) = elim (c == b',') [
    | true ↦ loop cs
    | false ↦ elim (c == close) [ true ↦ done container cs | false ↦ failed other (c ∷ cs) ]
  ]

  unfoldable pub after_key : (Text → Parsed (Json D)) → Text → Parsed (Json D)
  after_key value [] = failed expected_colon []
  after_key value (c ∷ cs) = elim (c == b':') [
    | true ↦ value cs
    | false ↦ failed expected_colon (c ∷ cs)
  ]

module _ (floats : Floats) where
  open floats use {Double, strtod}

  -- The switch of `parseValue`; `members` and `elements` are the loops of the containers.
  unfoldable pub parse_start :
      (Text → Parsed (Json Double)) → (Text → Parsed (Json Double)) → Text → Parsed (Json Double)
  parse_start members elements [] = failed unexpected_end []
  parse_start members elements (c ∷ cs) = elim (start_of c) [
    | object_start ↦ unless_closed b'}' (object no_members) members (skip_whitespace cs)
    | array_start ↦ unless_closed b']' (array no_elements) elements (skip_whitespace cs)
    | string_start ↦ and_then (parse_string (c ∷ cs)) λ s rest. done (string s) rest
    | true_start ↦ literal (codes "true") (bool true) (c ∷ cs)
    | false_start ↦ literal (codes "false") (bool false) (c ∷ cs)
    | null_start ↦ literal (codes "null") null (c ∷ cs)
    | number_start ↦ and_then (parse_number (c ∷ cs)) λ t rest. done (number (strtod t).0) rest
  ]

  -- Each value and each round of a loop takes one from the fuel.
  unfoldable mutual
    pub parse_value : ℕ → ℕ → Text → Parsed (Json Double)
    parse_value zero depth cs = out_of_fuel
    parse_value (suc fuel) depth cs = elim (leb max_depth depth) [
      | true ↦ failed nesting_too_deep cs
      | false ↦
          parse_start (parse_members fuel (suc depth) (object no_members))
            (parse_elements fuel (suc depth) (array no_elements)) (skip_whitespace cs)
    ]

    pub parse_elements : ℕ → ℕ → Json Double → Text → Parsed (Json Double)
    parse_elements zero depth arr cs = out_of_fuel
    parse_elements (suc fuel) depth arr cs = and_then (parse_value fuel depth cs) λ v rest.
        next_or_close b']' unterminated_array expected_comma_or_bracket (push arr v)
          (parse_elements fuel depth (push arr v)) (skip_whitespace rest)

    pub parse_members : ℕ → ℕ → Json Double → Text → Parsed (Json Double)
    parse_members zero depth obj cs = out_of_fuel
    parse_members (suc fuel) depth obj cs =
        and_then (parse_string (skip_whitespace cs)) λ key after.
          and_then (after_key (parse_value fuel depth) (skip_whitespace after)) λ v rest.
            next_or_close b'}' unterminated_object expected_comma_or_brace (set obj key v)
              (parse_members fuel depth (set obj key v)) (skip_whitespace rest)

  -- Nothing but blanks may follow the value.
  unfoldable pub finish : Json Double → Text → Parsed (Json Double)
  finish v [] = done v []
  finish v (c ∷ cs) = failed trailing_characters (c ∷ cs)

  -- Two rounds for each character, and one, are enough fuel.
  unfoldable pub parse : Text → Parsed (Json Double)
  parse text =
      and_then (parse_value (2 * length text + 1) 0 text) λ v rest. finish v (skip_whitespace rest)
