-- ===== src/Util/Json/Fuel.antt =====
-- About `parse` of src/util/json.cpp: how far a parse gets in its text.
use bitcoin_miner.Base.{
  ℕ, zero, suc, ◌+◌, ◌*◌, ◌≤◌, ◌<◌, true, false, [], ◌∷◌, ◌≡◌, refl, arith, leb, ◌==◌, Text, codes,
  length,
}
use bitcoin_miner.Util.Json.{
  Json, null, bool, number, string, array, object, no_elements, no_members, Floats, push, set,
}
use bitcoin_miner.Util.Json.Scan.{
  Reason, Parsed, done, failed, out_of_fuel, and_then, expected_colon, nesting_too_deep,
  unterminated_array, expected_comma_or_bracket, unterminated_object, expected_comma_or_brace,
  skip_whitespace, parse_string, literal, parse_number,
}
use bitcoin_miner.Util.Json.Parser.{
  max_depth, object_start, array_start, string_start, true_start, false_start, null_start,
  number_start, start_of, unless_closed, next_or_close, after_key, parse_start, parse_value,
  parse_elements, parse_members, finish, parse,
}
use bitcoin_miner.Util.Json.Scan.Lengths.{
  Within, Within-le, Within-and_then, Within-test, length-skip_whitespace, parse_string-Within,
  literal-Within, parse_number-Within,
}

module _ {D : Type 0} where
  unless_closed-Within :
      (n close : ℕ) (empty : Json D) (loop : Text → Parsed (Json D)) (cs : Text)
      → length cs ≤ n
      → Within n (loop cs)
      → Within n (unless_closed close empty loop cs)
  unfolding unless_closed
  unless_closed-Within n close empty loop [] h w = w
  unless_closed-Within n close empty loop (c ∷ cs) h w =
      Within-test n (c == close) (done empty cs) (loop (c ∷ cs)) (omega arith) w

  next_or_close-Within :
      (n close : ℕ) (ended other : Reason) (v : Json D) (loop : Text → Parsed (Json D)) (cs : Text)
      → length cs ≤ n
      → ((later : Text) → length later < length cs → Within n (loop later))
      → Within n (next_or_close close ended other v loop cs)
  unfolding next_or_close
  next_or_close-Within n close ended other v loop [] h k = omega arith
  next_or_close-Within n close ended other v loop (c ∷ cs) h k =
      Within-test n (c == b',') (loop cs) _ (k cs (omega arith))
        (Within-test n (c == close) (done v cs) (failed other (c ∷ cs)) (omega arith) h)

  after_key-Within :
      (n : ℕ) (value : Text → Parsed (Json D)) (cs : Text)
      → length cs ≤ n
      → ((later : Text) → length later < length cs → Within n (value later))
      → Within n (after_key value cs)
  unfolding after_key
  after_key-Within n value [] h k = omega arith
  after_key-Within n value (c ∷ cs) h k =
      Within-test n (c == b':') (value cs) (failed expected_colon (c ∷ cs)) (k cs (omega arith)) h

module _ (floats : Floats) where
  open floats use {Double}

  parse_start-Within :
      (members elements : Text → Parsed (Json Double)) (cs : Text)
      → ((later : Text) → length later < length cs → Within (length cs) (members later))
      → ((later : Text) → length later < length cs → Within (length cs) (elements later))
      → Within (length cs) (parse_start floats members elements cs)
  unfolding parse_start
  parse_start-Within members elements [] km ke = omega arith
  parse_start-Within members elements (c ∷ cs) km ke =
      let shorter = length-skip_whitespace cs in
      elim (start_of c)
        as (λ s. Within (suc (length cs)) (elim s [
          | object_start ↦ unless_closed b'}' (object no_members) members (skip_whitespace cs)
          | array_start ↦ unless_closed b']' (array no_elements) elements (skip_whitespace cs)
          | string_start ↦ and_then (parse_string (c ∷ cs)) λ s rest. done (string s) rest
          | true_start ↦ literal (codes "true") (bool true) (c ∷ cs)
          | false_start ↦ literal (codes "false") (bool false) (c ∷ cs)
          | null_start ↦ literal (codes "null") null (c ∷ cs)
          | number_start ↦
              and_then (parse_number (c ∷ cs)) λ t rest. done (number (floats.strtod t).0) rest
        ])) [
          | object_start ↦
              unless_closed-Within _ b'}' (object no_members) members (skip_whitespace cs)
                (omega (arith, shorter)) (km _ (omega (arith, shorter)))
          | array_start ↦
              unless_closed-Within _ b']' (array no_elements) elements (skip_whitespace cs)
                (omega (arith, shorter)) (ke _ (omega (arith, shorter)))
          | string_start ↦
              Within-and_then _ (parse_string (c ∷ cs)) (λ s rest. done (string s) rest)
                (parse_string-Within (c ∷ cs)) (λ s rest h. h)
          | true_start ↦ literal-Within _ _ (bool true) (c ∷ cs)
          | false_start ↦ literal-Within _ _ (bool false) (c ∷ cs)
          | null_start ↦ literal-Within _ _ null (c ∷ cs)
          | number_start ↦
              Within-and_then _ (parse_number (c ∷ cs))
                (λ t rest. done (number (floats.strtod t).0) rest) (parse_number-Within (c ∷ cs))
                (λ t rest h. h)
        ]

  mutual
    unfolding parse_value

    parse_value-Within :
        (fuel depth : ℕ) (cs : Text)
        → 2 * length cs < fuel
        → Within (length cs) (parse_value floats fuel depth cs)
    parse_value-Within zero depth cs h = absurd (omega arith)
    parse_value-Within (suc fuel) depth cs h =
        let shorter = length-skip_whitespace cs in
        Within-test _ (leb max_depth depth) (failed nesting_too_deep cs) _ (omega arith) (
          Within-le (length (skip_whitespace cs)) _ _ shorter (
            parse_start-Within _ _ (skip_whitespace cs)
              (λ later k. Within-le (length later) _ _ (omega arith) (
                parse_members-Within fuel (suc depth) (object no_members) later
                  (omega (arith, shorter, k))))
              (λ later k. Within-le (length later) _ _ (omega arith) (
                parse_elements-Within fuel (suc depth) (array no_elements) later
                  (omega (arith, shorter, k))))))

    parse_elements-Within :
        (fuel depth : ℕ) (arr : Json Double) (cs : Text)
        → suc (2 * length cs) < fuel
        → Within (length cs) (parse_elements floats fuel depth arr cs)
    parse_elements-Within zero depth arr cs h = absurd (omega arith)
    parse_elements-Within (suc fuel) depth arr cs h =
        Within-and_then _ (parse_value floats fuel depth cs) _
          (parse_value-Within fuel depth cs (omega arith))
          λ v rest less.
            let shorter = length-skip_whitespace rest in
            next_or_close-Within _ b']' unterminated_array expected_comma_or_bracket (push arr v) _
              (skip_whitespace rest) (omega (arith, shorter, less))
              λ later k. Within-le (length later) _ _ (omega (arith, shorter, less, k)) (
                parse_elements-Within fuel depth (push arr v) later
                  (omega (arith, shorter, less, k)))

    parse_members-Within :
        (fuel depth : ℕ) (obj : Json Double) (cs : Text)
        → suc (2 * length cs) < fuel
        → Within (length cs) (parse_members floats fuel depth obj cs)
    parse_members-Within zero depth obj cs h = absurd (omega arith)
    parse_members-Within (suc fuel) depth obj cs h =
        let start = length-skip_whitespace cs in
        Within-and_then _ (parse_string (skip_whitespace cs)) _
          (Within-le _ _ (parse_string (skip_whitespace cs)) start
            (parse_string-Within (skip_whitespace cs)))
          λ key after less.
            let behind = length-skip_whitespace after in
            Within-and_then _ (after_key (parse_value floats fuel depth) (skip_whitespace after)) _
              (after_key-Within _ (parse_value floats fuel depth) (skip_whitespace after)
                (omega (arith, behind, less))
                λ later k.
                  Within-le (length later) _ _ (omega (arith, behind, less, k))
                    (parse_value-Within fuel depth later (omega (arith, behind, less, k))))
              λ v rest fewer.
                let shorter = length-skip_whitespace rest in
                next_or_close-Within _ b'}' unterminated_object expected_comma_or_brace
                  (set obj key v) _ (skip_whitespace rest) (omega (arith, shorter, fewer))
                  λ later k. Within-le (length later) _ _ (omega (arith, shorter, fewer, k)) (
                    parse_members-Within fuel depth (set obj key v) later
                      (omega (arith, shorter, fewer, k)))

  -- All of the text is read, or the offset is one of the text.
  abbrev pub EndsWithin : Text → Parsed (Json Double) → Type 0
  EndsWithin text (done v rest) = rest ≡ []
  EndsWithin text (failed reason rest) = length rest ≤ length text
  EndsWithin text out_of_fuel = ⊥

  -- For every text the parser's fuel is enough: parsing ends with a value and the whole text read,
  -- or with a failure that leaves no more than the text unread.
  pub parse-EndsWithin : (text : Text) → EndsWithin text (parse floats text)
  unfolding parse finish
  parse-EndsWithin text =
      go (parse_value floats (2 * length text + 1) 0 text)
        (parse_value-Within _ 0 text (omega arith))
    where
      go_rest :
          (v : Json Double) (rest : Text)
          → length rest ≤ length text
          → EndsWithin text (finish floats v rest)
      go_rest v [] h = refl
      go_rest v (c ∷ cs) h = h

      go :
          (r : Parsed (Json Double))
          → Within (length text) r
          → EndsWithin text (and_then r λ v rest. finish floats v (skip_whitespace rest))
      go (done v rest) w =
          go_rest v (skip_whitespace rest) (omega (arith, w, length-skip_whitespace rest))
      go (failed reason rest) w = w
      go out_of_fuel w = w
