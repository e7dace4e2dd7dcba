-- ===== src/Util/Json.antt =====
-- src/util/json.hpp and the accessors of src/util/json.cpp: JSON values. A text is the list of its
-- bytes. The map of an object and the order of its keys are one list, in the order of insertion.
pub mod Writer
pub mod Scan
pub mod Parser
pub mod Fuel
pub mod Readable
pub mod Blanks
pub mod Reads
pub mod RoundTrip
pub mod Depth
pub mod Access
pub mod Printable
use bitcoin_miner.Base.{
  ℕ, zero, suc, ◌+◌, ◌-◌, ◌*◌, ◌%◌, ◌^◌, ◌<◌, Bool, true, false, ◌&&◌, ◌||◌, List, [], ◌∷◌, not,
  ltb, leb, ◌==◌, if◌then◌else◌, Text, ◌=t=◌, ℤ, pos, negsuc, magnitude, ◌≡◌, Option, none, some,
}
use bitcoin_miner.Util.Decimal.{to_string, strtoll}

-- `Json`, with the fields that its type tag leaves unused left out. `D` is `double`.
mutual
  pub data Json (D : Type 0) : Type 0 where
    null : Json D
    bool : Bool → Json D
    number : D → Json D
    string : Text → Json D
    array : Elements D → Json D
    object : Members D → Json D

  pub data Elements (D : Type 0) : Type 0 where
    no_elements : Elements D
    element : Json D → Elements D → Elements D

  pub data Members (D : Type 0) : Type 0 where
    no_members : Members D
    member : Text → Json D → Members D → Members D

-- `std::map::find` on the keys.
unfoldable pub find : {D : Type 0} → Text → Members D → Option (Json D)
find key no_members = none
find key (member k v rest) = let later = find key rest in if k =t= key then some v else later

-- `object_[key] = value`, with the key at the end of the order when it is new.
unfoldable pub put : {D : Type 0} → Text → Json D → Members D → Members D
put key value no_members = member key value no_members
put key value (member k v rest) =
    let later = put key value rest in if k =t= key then member k value rest else member k v later

unfoldable pub push_back : {D : Type 0} → Elements D → Json D → Elements D
push_back no_elements value = element value no_elements
push_back (element x xs) value = element x (push_back xs value)

unfoldable pub nth : {D : Type 0} → ℕ → Elements D → Json D
nth i no_elements = null
nth zero (element x xs) = x
nth (suc i) (element x xs) = nth i xs

abbrev pub count : {D : Type 0} → Elements D → ℕ
count no_elements = 0
count (element x xs) = suc (count xs)

abbrev pub count_members : {D : Type 0} → Members D → ℕ
count_members no_members = 0
count_members (member k v rest) = suc (count_members rest)

module _ {D : Type 0} where
  abbrev pub is_null : Json D → Bool
  is_null null = true
  is_null _ = false

  abbrev pub is_array : Json D → Bool
  is_array (array xs) = true
  is_array _ = false

  abbrev pub is_object : Json D → Bool
  is_object (object ms) = true
  is_object _ = false

  unfoldable pub size : Json D → ℕ
  size (array xs) = count xs
  size (object ms) = count_members ms
  size _ = 0

  -- Beyond the end, and on what is no array, the shared null value.
  unfoldable pub at : Json D → ℕ → Json D
  at (array xs) i = nth i xs
  at _ i = null

  unfoldable pub has : Json D → Text → Bool
  has (object ms) key = elim (find key ms) [ none ↦ false | some v ↦ true ]
  has _ key = false

  -- `operator[]`.
  unfoldable pub lookup : Json D → Text → Json D
  lookup (object ms) key = elim (find key ms) [ none ↦ null | some v ↦ v ]
  lookup _ key = null

  unfoldable pub push : Json D → Json D → Json D
  push (array xs) value = array (push_back xs value)
  push _ value = array (element value no_elements)

  unfoldable pub set : Json D → Text → Json D → Json D
  set (object ms) key value = object (put key value ms)
  set _ key value = object (member key value no_members)

  unfoldable pub as_string : Json D → Text → Text
  as_string (string s) fallback = s
  as_string _ fallback = fallback

-- The arithmetic on `double` that the code uses, with strtod and printf; the language gives it.
pub record Floats : Type 1 where
  pub Double : Type 0
  -- `static_cast<double>` of an integer, and `static_cast<int64_t>` of a double.
  pub of_int : ℤ → Double
  pub to_int : Double → ℤ
  pub strtod : Text → Double × Text
  pub equals : Double → Double → Bool
  -- `a < b`, as for `b > a`.
  pub less : Double → Double → Bool
  pub less_irrefl : (x : Double) → less x x ≡ false
  -- `x * 2.0`.
  pub twice : Double → Double
  pub is_finite : Double → Bool
  -- `std::fabs(x) < 9.0e15`.
  pub below_9e15 : Double → Bool
  -- "%.10g" and "[%.8g]" without its brackets.
  pub print_10g : Double → Text
  pub print_8g : Double → Text
  -- Integers below 9.0e15 are exact: they are finite, equal to themselves, and survive the casts
  -- and their decimal text.
  pub whole_small : (z : ℤ) → magnitude z < 9 * 10 ^ 15 → below_9e15 (of_int z) ≡ true
  pub whole_finite : (z : ℤ) → magnitude z < 9 * 10 ^ 15 → is_finite (of_int z) ≡ true
  pub whole_equals : (z : ℤ) → magnitude z < 9 * 10 ^ 15 → equals (of_int z) (of_int z) ≡ true
  pub whole_cast : (z : ℤ) → magnitude z < 9 * 10 ^ 15 → to_int (of_int z) ≡ z
  pub whole_text : (z : ℤ) → magnitude z < 9 * 10 ^ 15 → strtod (to_string z) ≡ (of_int z, [])

-- `*end == '\0'`: a `c_str` ends at its first null byte.
abbrev pub at_end : Text → Bool
at_end [] = true
at_end (c ∷ cs) = c == 0

abbrev pub is_empty : Text → Bool
is_empty [] = true
is_empty (c ∷ cs) = false

module _ (floats : Floats) where
  open floats use {Double, of_int, to_int, strtod, equals}

  unfoldable pub as_bool : Json Double → Bool → Bool
  as_bool (bool b) fallback = b
  as_bool (number x) fallback = not (equals x (of_int (pos 0)))
  as_bool _ fallback = fallback

  unfoldable pub as_number : Json Double → Double → Double
  as_number (number x) fallback = x
  as_number (bool b) fallback = if b then of_int (pos 1) else of_int (pos 0)
  as_number (string s) fallback =
      let (v, end) = strtod s in if not (is_empty s) && at_end end then v else fallback
  as_number _ fallback = fallback

  unfoldable pub as_int : Json Double → ℤ → ℤ
  as_int (number x) fallback = to_int x
  as_int (string s) fallback =
      let (v, end) = strtoll s in if at_end end && not (is_empty s) then v else fallback
  as_int (bool b) fallback = if b then pos 1 else pos 0
  as_int _ fallback = fallback

  unfoldable pub as_uint32 : Json Double → ℕ → ℕ
  as_uint32 null fallback = fallback
  as_uint32 v fallback = elim (as_int v (pos fallback)) [ pos n ↦ n % 2 ^ 32 | negsuc n ↦ fallback ]
