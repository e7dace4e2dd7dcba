-- ===== src/Util/Json/RoundTrip.antt =====
-- About src/util/json.cpp: what `dump` writes, `parse` reads.
use bitcoin_miner.Base.{ℕ, ◌+◌, ◌*◌, ◌≤◌, [], ◌≡◌, refl, subst, arith, Text, length}
use mathlib.Core.List.{append-nil}
use bitcoin_miner.Util.Json.{
  Json, Elements, Members, null, bool, number, string, array, object, no_elements, element,
  no_members, member, Floats,
}
use bitcoin_miner.Util.Json.Writer.{dump_to, dump}
use bitcoin_miner.Util.Json.Scan.{done, skip_whitespace}
use bitcoin_miner.Util.Json.Parser.{max_depth, parse_value, finish, parse}
use bitcoin_miner.Util.Json.Readable.{IsReadable, height, rounds, rounds-dump_to}
use bitcoin_miner.Util.Json.Reads.{
  ReadsValue, scalar-ReadsValue, parse_start-number_text, parse_start-string, parse_start-word,
  parse_start-null, parse_start-empty,
}
use bitcoin_miner.Util.Json.Reads.Arrays.{
  ReadsElements, last-ReadsElements, next-ReadsElements, array-ReadsValue,
}
use bitcoin_miner.Util.Json.Reads.Objects.{
  ReadsMembers, last-ReadsMembers, next-ReadsMembers, object-ReadsValue,
}

module _ (floats : Floats) where
  open floats use {Double}

  mutual
    unfolding dump_to IsReadable height rounds

    value-Reads : (v : Json Double) → ReadsValue floats v
    value-Reads null =
        scalar-ReadsValue floats null (λ m e indent d rest hr hn. parse_start-null floats m e rest)
          (omega arith) (omega arith)
    value-Reads (bool b) =
        scalar-ReadsValue floats (bool b)
          (λ m e indent d rest hr hn. parse_start-word floats m e b rest) (omega arith)
          (omega arith)
    value-Reads (number x) =
        scalar-ReadsValue floats (number x)
          (λ m e indent d rest hr hn. parse_start-number_text floats m e x rest hr hn) (omega arith)
          (omega arith)
    value-Reads (string s) =
        scalar-ReadsValue floats (string s)
          (λ m e indent d rest hr hn. parse_start-string floats m e s rest) (omega arith)
          (omega arith)
    value-Reads (array no_elements) =
        scalar-ReadsValue floats (array no_elements)
          (λ m e indent d rest hr hn. (parse_start-empty floats m e rest).0) (omega arith)
          (omega arith)
    value-Reads (array (element x xs)) =
        array-ReadsValue floats x xs (elements-Reads x xs (value-Reads x))
    value-Reads (object no_members) =
        scalar-ReadsValue floats (object no_members)
          (λ m e indent d rest hr hn. (parse_start-empty floats m e rest).1) (omega arith)
          (omega arith)
    value-Reads (object (member k v ms)) =
        object-ReadsValue floats k v ms (members-Reads k v ms (value-Reads v))

    elements-Reads :
        (x : Json Double) (xs : Elements Double) → ReadsValue floats x → ReadsElements floats x xs
    elements-Reads x no_elements first = last-ReadsElements floats x first
    elements-Reads x (element y ys) first =
        next-ReadsElements floats x y ys first (elements-Reads y ys (value-Reads y))

    members-Reads :
        (k : Text) (v : Json Double) (ms : Members Double)
        → ReadsValue floats v
        → ReadsMembers floats k v ms
    members-Reads k v no_members first = last-ReadsMembers floats k v first
    members-Reads k v (member l w ms) first =
        next-ReadsMembers floats k l v w ms first (members-Reads l w ms (value-Reads w))

  -- For a value whose numbers are integers of a magnitude below 9 * 10 ^ 15, in which no object has
  -- a key twice, and of at most 64 levels, parsing what dump writes of it, with any indentation,
  -- gives the value and leaves nothing unread.
  pub parse-dump :
      (v : Json Double) (indent : ℕ)
      → IsReadable floats v
      → height v ≤ max_depth
      → parse floats (dump floats indent v) ≡ done v []
  unfolding parse dump finish skip_whitespace
  parse-dump v indent readable low =
      let text = dump_to floats indent 0 v in
      let whole : parse_value floats (2 * length text + 1) 0 text ≡ done v [] =
        subst (λ (t : Text). parse_value floats (2 * length text + 1) 0 t ≡ done v [])
          (append-nil text)
          (value-Reads v indent 0 (2 * length text + 1) [] [] tt readable (omega arith)
            (rounds-dump_to floats indent 0 v) tt) in
      rw whole refl
