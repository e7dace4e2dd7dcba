-- ===== src/Util/Json/Readable.antt =====
-- The values that src/util/json.cpp writes so that it reads them back, and their sizes.
use bitcoin_miner.Base.{
  ℕ, suc, ◌+◌, ◌*◌, ◌^◌, ◌≤◌, ◌<◌, false, [], ◌∷◌, ◌++◌, ◌≡◌, refl, ap, ◌∙◌, arith, none, Text,
  ◌=t=◌, =t=_comm, ℤ, magnitude, max, length, length-append,
}
use bitcoin_miner.Util.Json.{
  Json, Elements, Members, null, bool, number, string, array, object, no_elements, element,
  no_members, member, find, put, push_back, Floats,
}
use bitcoin_miner.Util.Json.Writer.{
  dump_to, dump_elements, dump_members, more, more_members, comma, newline, padding, json_escape,
  colon,
}

module _ (floats : Floats) where
  open floats use {Double, of_int}

  -- The doubles that are integers below 9.0e15.
  abbrev pub IsWhole : Double → Type 0
  IsWhole x = (z : ℤ) × (magnitude z < 9 * 10 ^ 15) × (x ≡ of_int z)

  -- Every number is such an integer, and no key of an object comes twice.
  unfoldable mutual
    pub IsReadable : Json Double → Type 0
    IsReadable (number x) = IsWhole x
    IsReadable (array xs) = AreReadable xs
    IsReadable (object ms) = IsKeyed ms
    IsReadable _ = Unit

    pub AreReadable : Elements Double → Type 0
    AreReadable no_elements = Unit
    AreReadable (element x xs) = IsReadable x × AreReadable xs

    pub IsKeyed : Members Double → Type 0
    IsKeyed no_members = Unit
    IsKeyed (member k v ms) = (find k ms ≡ none) × IsReadable v × IsKeyed ms

module _ {D : Type 0} where
  -- The levels of a value: each array and each object is one.
  unfoldable mutual
    pub height : Json D → ℕ
    height (array xs) = suc (height_elements xs)
    height (object ms) = suc (height_members ms)
    height _ = 1

    pub height_elements : Elements D → ℕ
    height_elements no_elements = 0
    height_elements (element x xs) = max (height x) (height_elements xs)

    pub height_members : Members D → ℕ
    height_members no_members = 0
    height_members (member k v ms) = max (height v) (height_members ms)

  -- The rounds that the parser takes for a value.
  unfoldable mutual
    pub rounds : Json D → ℕ
    rounds (array xs) = suc (rounds_elements xs)
    rounds (object ms) = suc (rounds_members ms)
    rounds _ = 1

    pub rounds_elements : Elements D → ℕ
    rounds_elements no_elements = 0
    rounds_elements (element x xs) = suc (max (rounds x) (rounds_elements xs))

    pub rounds_members : Members D → ℕ
    rounds_members no_members = 0
    rounds_members (member k v ms) = suc (max (rounds v) (rounds_members ms))

  -- One element after the other, pushed onto those before.
  abbrev pub push_all : Elements D → Elements D → Elements D
  push_all before no_elements = before
  push_all before (element x xs) = push_all (push_back before x) xs

  abbrev pub put_all : Members D → Members D → Members D
  put_all before no_members = before
  put_all before (member k v ms) = put_all (put k v before) ms

  push_all-element :
      (y : Json D) (before xs : Elements D)
      → push_all (element y before) xs ≡ element y (push_all before xs)
  unfolding push_back
  push_all-element y before no_elements = refl
  push_all-element y before (element x xs) = push_all-element y (push_back before x) xs

  pub push_all-none : (xs : Elements D) → push_all no_elements xs ≡ xs
  unfolding push_back
  push_all-none no_elements = refl
  push_all-none (element x xs) =
      push_all-element x no_elements xs ∙ ap (element x) (push_all-none xs)

  find-member_none :
      (k key : Text) (v : Json D) (ms : Members D)
      → find key (member k v ms) ≡ none
      → ((k =t= key) ≡ false) × (find key ms ≡ none)
  unfolding find
  find-member_none k key v ms e = ground arith

  put_all-member :
      (k : Text) (v : Json D) (before ms : Members D)
      → find k ms ≡ none
      → put_all (member k v before) ms ≡ member k v (put_all before ms)
  unfolding put
  put_all-member k v before no_members e = refl
  put_all-member k v before (member k' v' ms) e =
      let (other, rest) = find-member_none k' k v' ms e in
      rw (=t=_comm k' k other) (put_all-member k v (put k' v' before) ms rest)

pub put_all-none :
    (floats : Floats) (ms : Members floats.Double) → IsKeyed floats ms → put_all no_members ms ≡ ms
unfolding IsKeyed put
put_all-none floats no_members h = refl
put_all-none floats (member k v ms) h =
    put_all-member k v no_members ms h.0 ∙ ap (member k v) (put_all-none floats ms h.2)

module _ (floats : Floats) where
  open floats use {Double}

  length-element :
      (a b c e rest : Text)
      → length (a ++ b ++ c ++ e ++ rest) ≡ length a + length b + length c + length e + length rest
  length-element a b c e rest = grind (arith, length-append)

  length-member :
      (a k b c d e rest : Text)
      → length (a ++ k ++ b ++ c ++ d ++ e ++ rest)
        ≡ length a + length k + length b + length c + length d + length e + length rest
  length-member a k b c d e rest = grind (arith, length-append)

  length-around :
      (o c : ℕ) (a b e : Text)
      → length ((o ∷ a ++ b) ++ e ++ c ∷ []) ≡ 2 + length a + length b + length e
  length-around o c a b e = grind (arith, length-append)

  mutual
    unfolding dump_to rounds comma

    pub rounds-dump_to :
        (indent depth : ℕ) (v : Json Double)
        → rounds v ≤ 2 * length (dump_to floats indent depth v) + 1
    rounds-dump_to indent depth (array no_elements) = omega arith
    rounds-dump_to indent depth (array (element x xs)) = omega (
      arith,
      rounds-dump_elements indent depth (element x xs),
      length-around b'[' b']' (newline indent) (dump_elements floats indent depth (element x xs))
          (padding indent depth),
    )
    rounds-dump_to indent depth (object no_members) = omega arith
    rounds-dump_to indent depth (object (member k v ms)) = omega (
      arith,
      rounds-dump_members indent depth (member k v ms),
      length-around b'{' b'}' (newline indent) (dump_members floats indent depth (member k v ms))
          (padding indent depth),
    )
    rounds-dump_to indent depth null = omega arith
    rounds-dump_to indent depth (bool b) = omega arith
    rounds-dump_to indent depth (number x) = omega arith
    rounds-dump_to indent depth (string s) = omega arith

    rounds-dump_elements :
        (indent depth : ℕ) (xs : Elements Double)
        → rounds_elements xs ≤ 2 * length (dump_elements floats indent depth xs) + 2
    rounds-dump_elements indent depth no_elements = omega arith
    rounds-dump_elements indent depth (element x no_elements) = omega (
      arith,
      rounds-dump_to indent (suc depth) x,
      length-element (padding indent (suc depth)) (dump_to floats indent (suc depth) x)
          (comma (more floats (no_elements))) (newline indent)
          (dump_elements floats indent depth (no_elements)),
    )
    rounds-dump_elements indent depth (element x (element y ys)) = omega (
      arith,
      rounds-dump_elements indent depth (element y ys),
      rounds-dump_to indent (suc depth) x,
      length-element (padding indent (suc depth)) (dump_to floats indent (suc depth) x)
          (comma (more floats (element y ys))) (newline indent)
          (dump_elements floats indent depth (element y ys)),
    )

    rounds-dump_members :
        (indent depth : ℕ) (ms : Members Double)
        → rounds_members ms ≤ 2 * length (dump_members floats indent depth ms) + 2
    rounds-dump_members indent depth no_members = omega arith
    rounds-dump_members indent depth (member k v no_members) = omega (
      arith,
      rounds-dump_to indent (suc depth) v,
      length-member (padding indent (suc depth)) (json_escape k) (colon indent)
          (dump_to floats indent (suc depth) v) (comma (more_members floats (no_members)))
          (newline indent) (dump_members floats indent depth (no_members)),
    )
    rounds-dump_members indent depth (member k v (member k' v' ms)) = omega (
      arith,
      rounds-dump_members indent depth (member k' v' ms),
      rounds-dump_to indent (suc depth) v,
      length-member (padding indent (suc depth)) (json_escape k) (colon indent)
          (dump_to floats indent (suc depth) v) (comma (more_members floats (member k' v' ms)))
          (newline indent) (dump_members floats indent depth (member k' v' ms)),
    )
