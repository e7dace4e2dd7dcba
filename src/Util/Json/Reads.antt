-- ===== src/Util/Json/Reads.antt =====
-- About src/util/json.cpp: how the written values that hold no others are read.
pub mod Arrays
pub mod Objects
use bitcoin_miner.Base.{
  ℕ, zero, suc, ◌+◌, ◌-◌, ◌*◌, ◌^◌, ◌≤◌, ◌<◌, Bool, true, false, ◌&&◌, List, [], ◌∷◌, ◌++◌, ◌≡◌,
  refl, sym, ap, ap₂, ◌∙◌, subst, arith, inl, inr, Bool-cases, leb, ltb, leb-false, ◌==◌, Option,
  none, some, Text, codes, ℤ, pos, negsuc, magnitude, max, length, All, All-append, replicate,
}
use mathlib.Core.List.{append_assoc, append-nil}
use bitcoin_miner.Util.Decimal.{to_string, decimal}
use bitcoin_miner.Util.Decimal.RoundTrip.{IsDigit, IsNumeral, decimal-IsNumeral}
use bitcoin_miner.Util.Json.{
  Json, Elements, Members, null, bool, number, string, array, object, no_elements, element,
  no_members, member, find, put, push_back, push, set, Floats,
}
use bitcoin_miner.Util.Json.Writer.{
  dump_to, dump_elements, dump_members, dump, more, more_members, comma, newline, padding,
  json_escape, colon, number_text, bool_text,
}
use bitcoin_miner.Util.Json.Scan.{
  Reason, Parsed, done, failed, and_then, is_blank, skip_whitespace, parse_string, parse_number,
  literal, strip, unterminated_array, expected_comma_or_bracket, unterminated_object,
  expected_comma_or_brace,
}
use bitcoin_miner.Util.Json.Scan.Strings.{parse_string-json_escape}
use bitcoin_miner.Util.Json.Scan.Numbers.{NumberEnds, parse_number-to_string}
use bitcoin_miner.Util.Json.Parser.{
  max_depth, number_start, start_of, unless_closed, next_or_close, after_key, parse_start,
  parse_value, parse_elements, parse_members, finish, parse,
}
use bitcoin_miner.Util.Json.Readable.{
  IsWhole, IsReadable, AreReadable, IsKeyed, height, height_elements, height_members, rounds,
  rounds_elements, rounds_members, push_all, put_all, push_all-none, put_all-none, rounds-dump_to,
}
use bitcoin_miner.Util.Json.Blanks.{
  AreBlanks, IsSolid, IsInk, IsSolid-IsInk, skip_to, skip_whitespace-blanks, padding-AreBlanks,
  newline-AreBlanks, NumberEnds-blanks, colon-AreBlanks,
}

-- The texts of the containers, opened.
pub around :
    (o c : ℕ) (a b e rest : Text)
    → ((o ∷ a ++ b) ++ e ++ c ∷ []) ++ rest ≡ o ∷ (a ++ (b ++ (e ++ c ∷ rest)))
around o c a b e rest = simp append_assoc

to_string-start :
    (z : ℤ) (rest : Text)
    → (c : ℕ) × (cs : Text) × (to_string z ++ rest ≡ c ∷ cs)
      × (start_of c ≡ number_start)
      × IsSolid (c ∷ cs)
unfolding to_string start_of
to_string-start (pos n) rest = go (decimal n) (decimal-IsNumeral n)
  where
    go :
        (t : Text)
        → IsNumeral t
        → (c : ℕ) × (cs : Text) × (t ++ rest ≡ c ∷ cs)
          × (start_of c ≡ number_start)
          × IsSolid (c ∷ cs)
    go [] (h, _) = absurd (omega arith)
    go (d ∷ ds) (_, h) = (
      d,
      ds ++ rest,
      refl,
      ground (arith, h.0),
      (ground (arith, h.0), ground (arith, h.0), ground (arith, h.0)),
    )
to_string-start (negsuc n) rest = (b'-', decimal (suc n) ++ rest, refl, refl, (refl, refl, refl))

module _ (floats : Floats) where
  open floats use {Double, of_int, whole_finite, whole_cast, whole_equals, whole_small, whole_text}

  pub number_text-whole :
      (z : ℤ) → magnitude z < 9 * 10 ^ 15 → number_text floats (of_int z) ≡ to_string z
  unfolding number_text
  number_text-whole z h =
      rw (whole_finite z h, whole_cast z h, whole_equals z h, whole_small z h) refl

  pub dump_to-IsSolid :
      (indent d : ℕ) (v : Json Double) (rest : Text)
      → IsReadable floats v
      → IsSolid (dump_to floats indent d v ++ rest)
  unfolding dump_to IsReadable json_escape
  dump_to-IsSolid indent d null rest h = (refl, refl, refl)
  dump_to-IsSolid indent d (bool true) rest h = (refl, refl, refl)
  dump_to-IsSolid indent d (bool false) rest h = (refl, refl, refl)
  dump_to-IsSolid indent d (number x) rest (z, small, e) =
      let (c, cs, start, _, solid) = to_string-start z rest in
      subst IsSolid
        (sym (
          ap (λ y. number_text floats y ++ rest) e
          ∙ ap (λ (t : Text). t ++ rest) (number_text-whole z small)
          ∙ start))
        solid
  dump_to-IsSolid indent d (string s) rest h = (refl, refl, refl)
  dump_to-IsSolid indent d (array no_elements) rest h = (refl, refl, refl)
  dump_to-IsSolid indent d (array (element x xs)) rest h = (refl, refl, refl)
  dump_to-IsSolid indent d (object no_members) rest h = (refl, refl, refl)
  dump_to-IsSolid indent d (object (member k v ms)) rest h = (refl, refl, refl)

  pub value-step :
      (fuel d : ℕ) (cs : Text)
      → d < max_depth
      → parse_value floats (suc fuel) d cs
        ≡ parse_start floats
            (parse_members floats fuel (suc d) (object no_members))
            (parse_elements floats fuel (suc d) (array no_elements))
            (skip_whitespace cs)
  unfolding parse_value
  value-step fuel d cs h = rw (parse_value, leb-false max_depth d h) refl

  -- The text of the value, after blanks, is read as the value.
  abbrev pub ReadsValue : Json Double → Type 0
  ReadsValue v =
      (indent d fuel : ℕ) (b rest : Text)
      → AreBlanks b
      → IsReadable floats v
      → d + height v ≤ max_depth
      → rounds v ≤ fuel
      → NumberEnds rest
      → parse_value floats fuel d (b ++ (dump_to floats indent d v ++ rest)) ≡ done v rest

  pub scalar-ReadsValue :
      (v : Json Double)
      → ((m e : Text → Parsed (Json Double)) (indent d : ℕ) (rest : Text)
          → IsReadable floats v
          → NumberEnds rest
          → parse_start floats m e (dump_to floats indent d v ++ rest) ≡ done v rest)
      → 0 < height v
      → 0 < rounds v
      → ReadsValue v
  scalar-ReadsValue v reads low some_round indent d zero b rest hb hr hd hf hn =
      absurd (omega arith)
  scalar-ReadsValue v reads low some_round indent d (suc fuel) b rest hb hr hd hf hn =
      value-step fuel d _ (omega arith)
      ∙ ap (parse_start floats _ _)
          (skip_to b _ hb (IsSolid-IsInk _ (dump_to-IsSolid indent d v rest hr)))
      ∙ reads _ _ indent d rest hr hn

  read_number : Text → Text → Parsed (Json Double)
  read_number t rest = done (number (floats.strtod t).0) rest

  parse_start-number :
      (m e : Text → Parsed (Json Double)) (c : ℕ) (cs : Text)
      → start_of c ≡ number_start
      → parse_start floats m e (c ∷ cs) ≡ and_then (parse_number (c ∷ cs)) read_number
  unfolding parse_start read_number
  parse_start-number m e c cs h = rw (parse_start, h) refl

  pub parse_start-number_text :
      (m e : Text → Parsed (Json Double)) (x : Double) (rest : Text)
      → IsWhole floats x
      → NumberEnds rest
      → parse_start floats m e (number_text floats x ++ rest) ≡ done (number x) rest
  unfolding read_number
  parse_start-number_text m e x rest (z, small, same) hn =
      let (c, cs, start, kind, _) = to_string-start z rest in
      ap (λ y. parse_start floats m e (number_text floats y ++ rest)) same
      ∙ ap (λ (t : Text). parse_start floats m e (t ++ rest)) (number_text-whole z small)
      ∙ ap (parse_start floats m e) start
      ∙ parse_start-number m e c cs kind
      ∙ ap (λ t. and_then (parse_number t) read_number) (sym start)
      ∙ ap (λ r. and_then r read_number) (parse_number-to_string z rest hn)
      ∙ ap (λ r. done (number r.0) rest) (whole_text z small)
      ∙ ap (λ y. done (number y) rest) (sym same)

  pub parse_start-string :
      (m e : Text → Parsed (Json Double)) (s rest : Text)
      → parse_start floats m e (json_escape s ++ rest) ≡ done (string s) rest
  unfolding parse_start json_escape start_of
  parse_start-string m e s rest =
      ap (λ r. and_then r λ t after. done (string t) after) (parse_string-json_escape s rest)

  pub parse_start-word :
      (m e : Text → Parsed (Json Double)) (b : Bool) (rest : Text)
      → parse_start floats m e (bool_text b ++ rest) ≡ done (bool b) rest
  unfolding parse_start start_of literal strip
  parse_start-word m e true rest = refl
  parse_start-word m e false rest = refl

  pub parse_start-null :
      (m e : Text → Parsed (Json Double)) (rest : Text)
      → parse_start floats m e (codes "null" ++ rest) ≡ done null rest
  unfolding parse_start start_of literal strip
  parse_start-null m e rest = refl

  pub parse_start-empty :
      (m e : Text → Parsed (Json Double)) (rest : Text)
      → (parse_start floats m e (codes "[]" ++ rest) ≡ done (array no_elements) rest)
        × (parse_start floats m e (codes "{}" ++ rest) ≡ done (object no_members) rest)
  unfolding parse_start start_of skip_whitespace unless_closed
  parse_start-empty m e rest = (refl, refl)

  pub unless_closed-solid :
      (close : ℕ) (empty : Json Double) (loop : Text → Parsed (Json Double)) (c : ℕ) (cs : Text)
      → (c == close) ≡ false
      → unless_closed close empty loop (c ∷ cs) ≡ loop (c ∷ cs)
  unfolding unless_closed
  unless_closed-solid close empty loop c cs h = rw (unless_closed, h) refl
