-- ===== src/Util/Json/Reads/Arrays.antt =====
-- About src/util/json.cpp: how the written arrays are read.
use bitcoin_miner.Base.{
  ℕ, zero, suc, ◌+◌, ◌≤◌, [], ◌∷◌, ◌++◌, ◌≡◌, refl, ap, ◌∙◌, arith, Text, All-append,
}
use mathlib.Core.List.{append_assoc}
use bitcoin_miner.Util.Json.{Json, Elements, array, no_elements, element, push_back, push, Floats}
use bitcoin_miner.Util.Json.Writer.{dump_to, dump_elements, more, comma, newline, padding}
use bitcoin_miner.Util.Json.Scan.{
  Parsed, done, skip_whitespace, unterminated_array, expected_comma_or_bracket,
}
use bitcoin_miner.Util.Json.Parser.{
  max_depth, start_of, unless_closed, next_or_close, parse_start, parse_value, parse_elements,
}
use bitcoin_miner.Util.Json.Readable.{
  IsReadable, AreReadable, height, height_elements, rounds, rounds_elements, push_all,
  push_all-none,
}
use bitcoin_miner.Util.Json.Blanks.{
  AreBlanks, IsSolid, skip_to, skip_whitespace-blanks, padding-AreBlanks, newline-AreBlanks,
  NumberEnds-blanks,
}
use bitcoin_miner.Util.Json.Reads.{
  around, value-step, dump_to-IsSolid, ReadsValue, unless_closed-solid,
}

round_of_element :
    (w p x m n xs t : Text)
    → w ++ ((p ++ x ++ m ++ n ++ xs) ++ t) ≡ (w ++ p) ++ (x ++ (m ++ (n ++ (xs ++ t))))
round_of_element w p x m n xs t = simp append_assoc

module _ (floats : Floats) where
  open floats use {Double}

  -- A first element, the others, and the closing bracket, as the loop comes to them.
  abbrev elements_text : ℕ → ℕ → Json Double → Elements Double → Text → Text
  elements_text indent d x xs tail =
      dump_to floats indent (suc d) x
      ++ (comma (more floats xs) ++ (newline indent ++ (dump_elements floats indent d xs ++ tail)))

  abbrev pub ReadsElements : Json Double → Elements Double → Type 0
  ReadsElements x xs =
      (indent d fuel : ℕ) (acc : Elements Double) (b e rest : Text)
      → AreBlanks b
      → AreBlanks e
      → AreReadable floats (element x xs)
      → suc d + height_elements (element x xs) ≤ max_depth
      → rounds_elements (element x xs) ≤ fuel
      → parse_elements floats fuel (suc d) (array acc)
          (b ++ elements_text indent d x xs (e ++ b']' ∷ rest))
        ≡ done (array (push_all acc (element x xs))) rest

  elements-step :
      (fuel d : ℕ) (arr v : Json Double) (cs rest : Text)
      → parse_value floats fuel d cs ≡ done v rest
      → parse_elements floats (suc fuel) d arr cs
        ≡ next_or_close b']' unterminated_array expected_comma_or_bracket
            (push arr v)
            (parse_elements floats fuel d (push arr v))
            (skip_whitespace rest)
  unfolding parse_value
  elements-step fuel d arr v cs rest e = rw (parse_elements, e) refl

  open_array :
      (m e : Text → Parsed (Json Double)) (b t : Text)
      → AreBlanks b
      → IsSolid t
      → parse_start floats m e (b'[' ∷ (b ++ t)) ≡ e t
  unfolding parse_start start_of
  open_array m e b [] hb ht = absurd ht
  open_array m e b (c ∷ cs) hb ht =
      ap (unless_closed b']' (array no_elements) e) (skip_to b (c ∷ cs) hb ht.0)
      ∙ unless_closed-solid floats b']' (array no_elements) e c cs ht.1

  pub last-ReadsElements : (x : Json Double) → ReadsValue floats x → ReadsElements x no_elements
  unfolding AreReadable comma dump_elements height_elements rounds_elements push next_or_close
      skip_whitespace
  last-ReadsElements x reads indent d zero acc b e rest hb he hr hd hf = absurd (omega arith)
  last-ReadsElements x reads indent d (suc fuel) acc b e rest hb he hr hd hf =
      let hn =
        NumberEnds-blanks (newline indent) (e ++ b']' ∷ rest) (newline-AreBlanks indent)
          (NumberEnds-blanks e (b']' ∷ rest) he (refl, refl, refl, refl)) in
      let first =
        reads indent (suc d) fuel b (newline indent ++ (e ++ b']' ∷ rest)) hb hr.0 (omega arith)
          (omega arith) hn in
      elements-step fuel (suc d) (array acc) x _ _ first
      ∙ ap
          (next_or_close b']' unterminated_array expected_comma_or_bracket (array (push_back acc x))
            _)
          (skip_whitespace-blanks (newline indent) (e ++ b']' ∷ rest) (newline-AreBlanks indent)
            ∙ skip_to e (b']' ∷ rest) he refl)

  pub next-ReadsElements :
      (x y : Json Double) (ys : Elements Double)
      → ReadsValue floats x
      → ReadsElements y ys
      → ReadsElements x (element y ys)
  unfolding AreReadable comma dump_elements height_elements rounds_elements push next_or_close
      skip_whitespace
  next-ReadsElements x y ys reads others indent d zero acc b e rest hb he hr hd hf =
      absurd (omega arith)
  next-ReadsElements x y ys reads others indent d (suc fuel) acc b e rest hb he hr hd hf =
      let after =
        newline indent ++ (dump_elements floats indent d (element y ys) ++ (e ++ b']' ∷ rest)) in
      let first =
        reads indent (suc d) fuel b (b',' ∷ after) hb hr.0 (omega arith) (omega arith)
          (refl, refl, refl, refl) in
      let blanks =
        All-append _ (newline indent) (padding indent (suc d)) (newline-AreBlanks indent)
          (padding-AreBlanks indent (suc d)) in
      elements-step fuel (suc d) (array acc) x _ _ first
      ∙ ap (parse_elements floats fuel (suc d) (array (push_back acc x))) (
          round_of_element (newline indent) (padding indent (suc d))
            (dump_to floats indent (suc d) y) (comma (more floats ys)) (newline indent)
            (dump_elements floats indent d ys) (e ++ b']' ∷ rest))
      ∙ others indent d fuel (push_back acc x) _ e rest blanks he hr.1 (omega arith) (omega arith)

  pub array-ReadsValue :
      (x : Json Double) (xs : Elements Double)
      → ReadsElements x xs
      → ReadsValue floats (array (element x xs))
  unfolding IsReadable dump_to height rounds
  array-ReadsValue x xs reads indent d zero b rest hb hr hd hf hn = absurd (omega arith)
  array-ReadsValue x xs reads indent d (suc fuel) b rest hb hr hd hf hn =
      let blanks =
        All-append _ (newline indent) (padding indent (suc d)) (newline-AreBlanks indent)
          (padding-AreBlanks indent (suc d)) in
      let inside = elements_text indent d x xs (padding indent d ++ b']' ∷ rest) in
      value-step floats fuel d _ (omega arith)
      ∙ ap (parse_start floats _ _) (skip_to b _ hb refl)
      ∙ ap (parse_start floats _ _) (
          around b'[' b']' (newline indent) (dump_elements floats indent d (element x xs))
            (padding indent d) rest
          ∙ ap (λ (t : Text). b'[' ∷ t)
              (round_of_element (newline indent) (padding indent (suc d))
                (dump_to floats indent (suc d) x) (comma (more floats xs)) (newline indent)
                (dump_elements floats indent d xs) (padding indent d ++ b']' ∷ rest)))
      ∙ open_array _ _ (newline indent ++ padding indent (suc d)) inside blanks
          (dump_to-IsSolid floats indent (suc d) x _ hr.0)
      ∙ reads indent d fuel no_elements [] (padding indent d) rest tt (padding-AreBlanks indent d)
          hr (omega arith) (omega arith)
      ∙ ap (λ ys. done (array ys) rest) (push_all-none (element x xs))
