-- ===== src/Util/Json/Depth.antt =====
-- About `parse` of src/util/json.cpp: the values that fit its bound on the depth, and their keys.
pub mod Parse
use bitcoin_miner.Base.{
  ℕ, zero, suc, ◌+◌, ◌-◌, ◌*◌, ◌≤◌, ◌<◌, Bool, true, false, List, [], ◌∷◌, ◌++◌, ◌≡◌, refl, sym,
  subst, ap, ◌∙◌, arith, inl, inr, Bool-cases, leb, leb→le, leb-false, ◌==◌, Option, none, some,
  Text, ◌=t=◌, =t=_comm, =t=_eq, codes, length, max,
}
use bitcoin_miner.Util.Json.{
  Json, Elements, Members, null, bool, number, string, array, object, no_elements, element,
  no_members, member, find, put, push_back, push, set, Floats,
}
use bitcoin_miner.Util.Json.Scan.{
  Reason, Parsed, done, failed, out_of_fuel, and_then, skip_whitespace, strip, literal,
  parse_string, parse_number, nesting_too_deep, unterminated_array, expected_comma_or_bracket,
  unterminated_object, expected_comma_or_brace, invalid_literal,
}
use bitcoin_miner.Util.Json.Parser.{
  max_depth, Start, object_start, array_start, string_start, true_start, false_start, null_start,
  number_start, start_of, unless_closed, next_or_close, after_key, parse_start, parse_value,
  parse_elements, parse_members, finish, parse,
}
use bitcoin_miner.Util.Json.Readable.{height, height_elements, height_members}

module _ {D : Type 0} where
  -- A value at a depth: nothing in it is as deep as the bound, and no key of an object comes twice.
  unfoldable mutual
    pub Fits : ℕ → Json D → Type 0
    Fits d (array xs) = (d < max_depth) × FitElements (suc d) xs
    Fits d (object ms) = (d < max_depth) × FitMembers (suc d) ms
    Fits d _ = d < max_depth

    pub FitElements : ℕ → Elements D → Type 0
    FitElements d no_elements = Unit
    FitElements d (element x xs) = Fits d x × FitElements d xs

    pub FitMembers : ℕ → Members D → Type 0
    FitMembers d no_members = Unit
    FitMembers d (member k v ms) = (find k ms ≡ none) × Fits d v × FitMembers d ms

  push_back-FitElements :
      (d : ℕ) (xs : Elements D) (v : Json D)
      → FitElements d xs
      → Fits d v
      → FitElements d (push_back xs v)
  unfolding Fits push_back
  push_back-FitElements d no_elements v h k = (k, tt)
  push_back-FitElements d (element x xs) v h k = (h.0, push_back-FitElements d xs v h.1 k)

  find-put :
      (key k : Text) (v : Json D) (ms : Members D)
      → (k =t= key) ≡ false
      → find key ms ≡ none
      → find key (put k v ms) ≡ none
  unfolding find put
  find-put key k v no_members other gone = rw other refl
  find-put key k v (member l w ms) other gone =
      ground (arith, find-put key k v ms, =t=_eq l key, =t=_eq l k)

  put-FitMembers :
      (d : ℕ) (k : Text) (v : Json D) (ms : Members D)
      → FitMembers d ms
      → Fits d v
      → FitMembers d (put k v ms)
  unfolding Fits put
  put-FitMembers d k v no_members h hv = (unfold find in refl, hv, tt)
  put-FitMembers d k v (member l w ms) (fresh, hw, hs) hv = elim (Bool-cases (l =t= k)) [
    | inl same ↦ rw same (fresh, hv, hs)
    | inr other ↦
        rw other (find-put l k v ms (=t=_comm l k other) fresh, hw, put-FitMembers d k v ms hs hv)
  ]

  pub push-Fits :
      (d : ℕ) (arr v : Json D) → Fits d arr → d < max_depth → Fits (suc d) v → Fits d (push arr v)
  unfolding Fits push
  push-Fits d (array xs) v h k hv = (k, push_back-FitElements (suc d) xs v h.1 hv)
  push-Fits d _ v h k hv = (k, (hv, tt))

  pub set-Fits :
      (d : ℕ) (obj : Json D) (key : Text) (v : Json D)
      → Fits d obj
      → d < max_depth
      → Fits (suc d) v
      → Fits d (set obj key v)
  unfolding Fits set find
  set-Fits d (object ms) key v h k hv = (k, put-FitMembers (suc d) key v ms h.1 hv)
  set-Fits d _ key v h k hv = (k, (refl, hv, tt))
