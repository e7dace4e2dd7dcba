-- ===== src/Util/Json/Reads/Objects.antt =====
-- About src/util/json.cpp: how the written objects are read.
use bitcoin_miner.Base.{
  ℕ, zero, suc, ◌+◌, ◌≤◌, [], ◌∷◌, ◌++◌, ◌≡◌, refl, ap, ◌∙◌, arith, Text, All-append,
}
use mathlib.Core.List.{append_assoc}
use bitcoin_miner.Util.Json.{Json, Members, object, no_members, member, put, set, Floats}
use bitcoin_miner.Util.Json.Writer.{
  dump_to, dump_members, more_members, comma, newline, padding, json_escape, colon,
}
use bitcoin_miner.Util.Json.Scan.{
  Parsed, done, skip_whitespace, parse_string, unterminated_object, expected_comma_or_brace,
}
use bitcoin_miner.Util.Json.Scan.Strings.{parse_string-json_escape}
use bitcoin_miner.Util.Json.Scan.Numbers.{NumberEnds}
use bitcoin_miner.Util.Json.Parser.{
  max_depth, start_of, unless_closed, next_or_close, after_key, parse_start, parse_value,
  parse_members,
}
use bitcoin_miner.Util.Json.Readable.{
  IsReadable, IsKeyed, height, height_members, rounds, rounds_members, put_all, put_all-none,
}
use bitcoin_miner.Util.Json.Blanks.{
  AreBlanks, IsSolid, skip_to, skip_whitespace-blanks, padding-AreBlanks, newline-AreBlanks,
  NumberEnds-blanks, colon-AreBlanks,
}
use bitcoin_miner.Util.Json.Reads.{around, value-step, ReadsValue, unless_closed-solid}

round_of_member :
    (w p k c v m n ms t : Text)
    → w ++ ((p ++ k ++ c ++ v ++ m ++ n ++ ms) ++ t)
      ≡ (w ++ p) ++ (k ++ (c ++ (v ++ (m ++ (n ++ (ms ++ t))))))
round_of_member w p k c v m n ms t = simp append_assoc

module _ (floats : Floats) where
  open floats use {Double}

  abbrev members_text : ℕ → ℕ → Text → Json Double → Members Double → Text → Text
  members_text indent d k v ms tail =
      json_escape k
      ++ (colon indent
          ++ (dump_to floats indent (suc d) v
              ++ (comma (more_members floats ms)
                  ++ (newline indent ++ (dump_members floats indent d ms ++ tail)))))

  abbrev pub ReadsMembers : Text → Json Double → Members Double → Type 0
  ReadsMembers k v ms =
      (indent d fuel : ℕ) (acc : Members Double) (b e rest : Text)
      → AreBlanks b
      → AreBlanks e
      → IsKeyed floats (member k v ms)
      → suc d + height_members (member k v ms) ≤ max_depth
      → rounds_members (member k v ms) ≤ fuel
      → parse_members floats fuel (suc d) (object acc)
          (b ++ members_text indent d k v ms (e ++ b'}' ∷ rest))
        ≡ done (object (put_all acc (member k v ms))) rest

  members-step :
      (fuel d : ℕ) (obj v : Json Double) (key cs after value rest : Text)
      → parse_string (skip_whitespace cs) ≡ done key after
      → skip_whitespace after ≡ b':' ∷ value
      → parse_value floats fuel d value ≡ done v rest
      → parse_members floats (suc fuel) d obj cs
        ≡ next_or_close b'}' unterminated_object expected_comma_or_brace
            (set obj key v)
            (parse_members floats fuel d (set obj key v))
            (skip_whitespace rest)
  unfolding parse_value after_key
  members-step fuel d obj v key cs after value rest e e' e'' =
      rw (parse_members, e, e', after_key, e'') refl

  open_object :
      (m e : Text → Parsed (Json Double)) (b t : Text)
      → AreBlanks b
      → IsSolid t
      → parse_start floats m e (b'{' ∷ (b ++ t)) ≡ m t
  unfolding parse_start start_of
  open_object m e b [] hb ht = absurd ht
  open_object m e b (c ∷ cs) hb ht =
      ap (unless_closed b'}' (object no_members) m) (skip_to b (c ∷ cs) hb ht.0)
      ∙ unless_closed-solid floats b'}' (object no_members) m c cs ht.2

  -- One round of the loop, up to what follows the value.
  member_round :
      (k : Text) (v : Json Double) (indent d fuel : ℕ) (acc : Members Double) (b after : Text)
      → ReadsValue floats v
      → AreBlanks b
      → IsReadable floats v
      → suc d + height v ≤ max_depth
      → rounds v ≤ fuel
      → NumberEnds after
      → parse_members floats
          (suc fuel)
          (suc d)
          (object acc)
          (b ++ (json_escape k ++ (colon indent ++ (dump_to floats indent (suc d) v ++ after))))
        ≡ next_or_close b'}' unterminated_object expected_comma_or_brace
            (object (put k v acc))
            (parse_members floats fuel (suc d) (object (put k v acc)))
            (skip_whitespace after)
  unfolding set
  member_round k v indent d fuel acc b after reads hb hr hd hf hn =
      let (gap, e, hg) = colon-AreBlanks indent in
      let value = dump_to floats indent (suc d) v ++ after in
      members-step fuel (suc d) (object acc) v k _ (colon indent ++ value) (gap ++ value) after
        (ap parse_string
            (skip_to b (json_escape k ++ (colon indent ++ value)) hb (unfold json_escape in refl))
          ∙ parse_string-json_escape k (colon indent ++ value))
        (ap (λ (t : Text). skip_whitespace (t ++ value)) e
          ∙ skip_to [] (b':' ∷ (gap ++ value)) tt refl)
        (reads indent (suc d) fuel gap after hg hr hd hf hn)

  pub last-ReadsMembers :
      (k : Text) (v : Json Double) → ReadsValue floats v → ReadsMembers k v no_members
  unfolding IsKeyed comma dump_members height_members rounds_members next_or_close skip_whitespace
  last-ReadsMembers k v reads indent d zero acc b e rest hb he hr hd hf = absurd (omega arith)
  last-ReadsMembers k v reads indent d (suc fuel) acc b e rest hb he hr hd hf =
      let hn =
        NumberEnds-blanks (newline indent) (e ++ b'}' ∷ rest) (newline-AreBlanks indent)
          (NumberEnds-blanks e (b'}' ∷ rest) he (refl, refl, refl, refl)) in
      member_round k v indent d fuel acc b (newline indent ++ (e ++ b'}' ∷ rest)) reads hb hr.1
        (omega arith) (omega arith) hn
      ∙ ap (next_or_close b'}' unterminated_object expected_comma_or_brace (object (put k v acc)) _)
          (skip_whitespace-blanks (newline indent) (e ++ b'}' ∷ rest) (newline-AreBlanks indent)
            ∙ skip_to e (b'}' ∷ rest) he refl)

  pub next-ReadsMembers :
      (k l : Text) (v w : Json Double) (ms : Members Double)
      → ReadsValue floats v
      → ReadsMembers l w ms
      → ReadsMembers k v (member l w ms)
  unfolding IsKeyed comma dump_members height_members rounds_members next_or_close skip_whitespace
  next-ReadsMembers k l v w ms reads others indent d zero acc b e rest hb he hr hd hf =
      absurd (omega arith)
  next-ReadsMembers k l v w ms reads others indent d (suc fuel) acc b e rest hb he hr hd hf =
      let after =
        newline indent ++ (dump_members floats indent d (member l w ms) ++ (e ++ b'}' ∷ rest)) in
      let blanks =
        All-append _ (newline indent) (padding indent (suc d)) (newline-AreBlanks indent)
          (padding-AreBlanks indent (suc d)) in
      member_round k v indent d fuel acc b (b',' ∷ after) reads hb hr.1 (omega arith) (omega arith)
        (refl, refl, refl, refl)
      ∙ ap (parse_members floats fuel (suc d) (object (put k v acc))) (
          round_of_member (newline indent) (padding indent (suc d)) (json_escape l) (colon indent)
            (dump_to floats indent (suc d) w) (comma (more_members floats ms)) (newline indent)
            (dump_members floats indent d ms) (e ++ b'}' ∷ rest))
      ∙ others indent d fuel (put k v acc) _ e rest blanks he hr.2 (omega arith) (omega arith)

  pub object-ReadsValue :
      (k : Text) (v : Json Double) (ms : Members Double)
      → ReadsMembers k v ms
      → ReadsValue floats (object (member k v ms))
  unfolding IsReadable dump_to height rounds
  object-ReadsValue k v ms reads indent d zero b rest hb hr hd hf hn = absurd (omega arith)
  object-ReadsValue k v ms reads indent d (suc fuel) b rest hb hr hd hf hn =
      let blanks =
        All-append _ (newline indent) (padding indent (suc d)) (newline-AreBlanks indent)
          (padding-AreBlanks indent (suc d)) in
      let inside = members_text indent d k v ms (padding indent d ++ b'}' ∷ rest) in
      value-step floats fuel d _ (omega arith)
      ∙ ap (parse_start floats _ _) (skip_to b _ hb refl)
      ∙ ap (parse_start floats _ _) (
          around b'{' b'}' (newline indent) (dump_members floats indent d (member k v ms))
            (padding indent d) rest
          ∙ ap (λ (t : Text). b'{' ∷ t)
              (round_of_member (newline indent) (padding indent (suc d)) (json_escape k)
                (colon indent) (dump_to floats indent (suc d) v) (comma (more_members floats ms))
                (newline indent) (dump_members floats indent d ms)
                (padding indent d ++ b'}' ∷ rest)))
      ∙ open_object _ _ (newline indent ++ padding indent (suc d)) inside blanks
          (unfold json_escape in (refl, refl, refl))
      ∙ reads indent d fuel no_members [] (padding indent d) rest tt (padding-AreBlanks indent d) hr
          (omega arith) (omega arith)
      ∙ ap (λ ns. done (object ns) rest) (put_all-none floats (member k v ms) hr)
