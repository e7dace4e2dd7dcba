-- ===== src/Util/Json/Depth/Parse.antt =====
-- About `parse` of src/util/json.cpp: how deep the values are that it gives, and their keys.
use bitcoin_miner.Base.{
  ℕ, zero, suc, ◌+◌, ◌*◌, ◌<◌, Bool, true, false, [], ◌∷◌, ◌≡◌, refl, subst, arith, leb, ◌==◌,
  Option, none, some, Text, codes, length,
}
use bitcoin_miner.Util.Json.{
  Json, null, bool, number, string, array, object, no_elements, no_members, push, set, Floats,
}
use bitcoin_miner.Util.Json.Scan.{
  Reason, Parsed, done, failed, out_of_fuel, and_then, skip_whitespace, strip, literal,
  parse_string, parse_number, nesting_too_deep, unterminated_array, expected_comma_or_bracket,
  unterminated_object, expected_comma_or_brace, invalid_literal,
}
use bitcoin_miner.Util.Json.Parser.{
  max_depth, object_start, array_start, string_start, true_start, false_start, null_start,
  number_start, start_of, unless_closed, next_or_close, after_key, parse_start, parse_value,
  parse_elements, parse_members, finish, parse,
}
use bitcoin_miner.Util.Json.Depth.{Fits, push-Fits, set-Fits}

-- What holds of the value, if the parse gives one.
abbrev Gives {ℓ κ} : {A : Type ℓ} → (A → Type κ) → Parsed A → Type κ
Gives P (done a rest) = P a
Gives P (failed reason rest) = Unit
Gives P out_of_fuel = Unit

module _ {ℓ κ} {A : Type ℓ} (P : A → Type κ) where
  Gives-and_then {ℓ' κ'} :
      {B : Type ℓ'} (Q : B → Type κ') (r : Parsed B) (next : B → Text → Parsed A)
      → Gives Q r
      → ((b : B) (rest : Text) → Q b → Gives P (next b rest))
      → Gives P (and_then r next)
  Gives-and_then Q (done b rest) next h k = k b rest h
  Gives-and_then Q (failed reason rest) next h k = tt
  Gives-and_then Q out_of_fuel next h k = tt

  Gives-test :
      (b : Bool) (x y : Parsed A)
      → (b ≡ true → Gives P x)
      → (b ≡ false → Gives P y)
      → Gives P (elim b [ true ↦ x | false ↦ y ])
  Gives-test true x y hx hy = hx refl
  Gives-test false x y hx hy = hy refl

  Gives-literal : (word : Text) (a : A) (cs : Text) → P a → Gives P (literal word a cs)
  unfolding literal
  Gives-literal word a cs h = go (strip word cs)
    where
      go :
          (o : Option Text)
          → Gives P (elim o [ some rest ↦ done a rest | none ↦ failed invalid_literal cs ])
      go none = tt
      go (some rest) = h

Anything {ℓ} : {A : Type ℓ} → A → Type 0
Anything a = Unit

Gives-Anything {ℓ} : {A : Type ℓ} (r : Parsed A) → Gives Anything r
unfolding Anything
Gives-Anything (done a rest) = tt
Gives-Anything (failed reason rest) = tt
Gives-Anything out_of_fuel = tt

module _ {D : Type 0} (P : Json D → Type 0) where
  Gives-unless_closed :
      (close : ℕ) (empty : Json D) (loop : Text → Parsed (Json D)) (cs : Text)
      → P empty
      → ((later : Text) → Gives P (loop later))
      → Gives P (unless_closed close empty loop cs)
  unfolding unless_closed
  Gives-unless_closed close empty loop [] h k = k []
  Gives-unless_closed close empty loop (c ∷ cs) h k =
      Gives-test P (c == close) (done empty cs) (loop (c ∷ cs)) (λ _. h) (λ _. k (c ∷ cs))

  Gives-next_or_close :
      (close : ℕ) (ended other : Reason) (v : Json D) (loop : Text → Parsed (Json D)) (cs : Text)
      → P v
      → ((later : Text) → Gives P (loop later))
      → Gives P (next_or_close close ended other v loop cs)
  unfolding next_or_close
  Gives-next_or_close close ended other v loop [] h k = tt
  Gives-next_or_close close ended other v loop (c ∷ cs) h k =
      Gives-test P (c == b',') (loop cs) _ (λ _. k cs)
        λ _. Gives-test P (c == close) (done v cs) (failed other (c ∷ cs)) (λ _. h) (λ _. tt)

  Gives-after_key :
      (value : Text → Parsed (Json D)) (cs : Text)
      → ((later : Text) → Gives P (value later))
      → Gives P (after_key value cs)
  unfolding after_key
  Gives-after_key value [] k = tt
  Gives-after_key value (c ∷ cs) k = Gives-test P (c == b':') (value cs) _ (λ _. k cs) (λ _. tt)

module _ (floats : Floats) where
  open floats use {Double}

  Gives-parse_start :
      (d : ℕ) (members elements : Text → Parsed (Json Double)) (cs : Text)
      → d < max_depth
      → ((later : Text) → Gives (Fits d) (members later))
      → ((later : Text) → Gives (Fits d) (elements later))
      → Gives (Fits d) (parse_start floats members elements cs)
  unfolding parse_start Fits Anything
  Gives-parse_start d members elements [] h km ke = tt
  Gives-parse_start d members elements (c ∷ cs) h km ke =
      elim (start_of c)
        as (λ s. Gives (Fits d) (elim s [
          | object_start ↦ unless_closed b'}' (object no_members) members (skip_whitespace cs)
          | array_start ↦ unless_closed b']' (array no_elements) elements (skip_whitespace cs)
          | string_start ↦ and_then (parse_string (c ∷ cs)) λ s rest. done (string s) rest
          | true_start ↦ literal (codes "true") (bool true) (c ∷ cs)
          | false_start ↦ literal (codes "false") (bool false) (c ∷ cs)
          | null_start ↦ literal (codes "null") null (c ∷ cs)
          | number_start ↦
              and_then (parse_number (c ∷ cs)) λ t rest. done (number (floats.strtod t).0) rest
        ])) [
          | object_start ↦
              Gives-unless_closed (Fits d) b'}' (object no_members) members (skip_whitespace cs)
                (h, tt) km
          | array_start ↦
              Gives-unless_closed (Fits d) b']' (array no_elements) elements (skip_whitespace cs)
                (h, tt) ke
          | string_start ↦
              Gives-and_then (Fits d) Anything (parse_string (c ∷ cs))
                (λ s rest. done (string s) rest) (Gives-Anything _) (λ s rest _. h)
          | true_start ↦ Gives-literal (Fits d) (codes "true") (bool true) (c ∷ cs) h
          | false_start ↦ Gives-literal (Fits d) (codes "false") (bool false) (c ∷ cs) h
          | null_start ↦ Gives-literal (Fits d) (codes "null") null (c ∷ cs) h
          | number_start ↦
              Gives-and_then (Fits d) Anything (parse_number (c ∷ cs))
                (λ t rest. done (number (floats.strtod t).0) rest) (Gives-Anything _)
                (λ t rest _. h)
        ]

  mutual
    unfolding parse_value Fits

    parse_value-Fits : (fuel d : ℕ) (cs : Text) → Gives (Fits d) (parse_value floats fuel d cs)
    parse_value-Fits zero d cs = tt
    parse_value-Fits (suc fuel) d cs =
        Gives-test (Fits d) (leb max_depth d) (failed nesting_too_deep cs) _ (λ _. tt)
          λ shallow.
            let h : d < max_depth = ground arith in
            Gives-parse_start d _ _ (skip_whitespace cs) h
              (λ later. parse_members-Fits fuel d (object no_members) later h (h, tt))
              (λ later. parse_elements-Fits fuel d (array no_elements) later h (h, tt))

    parse_elements-Fits :
        (fuel d : ℕ) (arr : Json Double) (cs : Text)
        → d < max_depth
        → Fits d arr
        → Gives (Fits d) (parse_elements floats fuel (suc d) arr cs)
    parse_elements-Fits zero d arr cs h fit = tt
    parse_elements-Fits (suc fuel) d arr cs h fit =
        Gives-and_then (Fits d) (Fits (suc d)) (parse_value floats fuel (suc d) cs) _
          (parse_value-Fits fuel (suc d) cs)
          λ v rest hv.
            let grown = push-Fits d arr v fit h hv in
            Gives-next_or_close (Fits d) b']' unterminated_array expected_comma_or_bracket
              (push arr v) _ (skip_whitespace rest) grown
              λ later. parse_elements-Fits fuel d (push arr v) later h grown

    parse_members-Fits :
        (fuel d : ℕ) (obj : Json Double) (cs : Text)
        → d < max_depth
        → Fits d obj
        → Gives (Fits d) (parse_members floats fuel (suc d) obj cs)
    parse_members-Fits zero d obj cs h fit = tt
    parse_members-Fits (suc fuel) d obj cs h fit =
        Gives-and_then (Fits d) Anything (parse_string (skip_whitespace cs)) _ (Gives-Anything _)
          λ key after _.
            Gives-and_then (Fits d) (Fits (suc d))
              (after_key (parse_value floats fuel (suc d)) (skip_whitespace after)) _
              (Gives-after_key (Fits (suc d)) (parse_value floats fuel (suc d))
                (skip_whitespace after) (parse_value-Fits fuel (suc d)))
              λ v rest hv.
                let grown = set-Fits d obj key v fit h hv in
                Gives-next_or_close (Fits d) b'}' unterminated_object expected_comma_or_brace
                  (set obj key v) _ (skip_whitespace rest) grown
                  λ later. parse_members-Fits fuel d (set obj key v) later h grown

  -- A value that parsing a text gives has at most 64 levels, and no object in it has a key twice.
  pub parse-Fits :
      (text : Text) {v : Json Double} {rest : Text} → parse floats text ≡ done v rest → Fits 0 v
  unfolding parse finish
  parse-Fits text {v} {rest} e =
      go (parse_value floats (2 * length text + 1) 0 text) (parse_value-Fits _ 0 text) e
    where
      go_rest : (w : Json Double) (t : Text) → Fits 0 w → finish floats w t ≡ done v rest → Fits 0 v
      go_rest w [] h e = subst (Fits 0) (cc e) h
      go_rest w (c ∷ cs) h e = cc e

      go :
          (r : Parsed (Json Double))
          → Gives (Fits 0) r
          → and_then r (λ w t. finish floats w (skip_whitespace t)) ≡ done v rest
          → Fits 0 v
      go (done w t) h e = go_rest w (skip_whitespace t) h e
      go (failed reason t) h e = cc e
      go out_of_fuel h e = cc e
