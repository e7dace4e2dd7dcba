-- ===== src/Stratum/Payloads/Subscribe.antt =====
-- About `parseSubscribeResult` of src/stratum/message.cpp: the extranonce that it accepts.
use bitcoin_miner.Base.{
  ℕ, ◌≤◌, ◌<◌, Bool, true, false, ◌||◌, not, ltb, if◌then◌else◌, [], ◌≡◌, refl, subst, arith, ℤ,
  pos, negsuc, Option, none, some,
}
use bitcoin_miner.Util.Hex.{from_hex}
use bitcoin_miner.Util.Json.{Json, Floats, is_empty, is_array, at, size, as_string, as_int}
use bitcoin_miner.Stratum.Payloads.{
  Read, bad, good, and_read, require, SubscribeResult, empty_extranonce1, not_three_elements,
  size_out_of_range, bad_extranonce1, extranonce_size, parse_subscribe_result,
}

module _ {ℓ κ} {E : Type ℓ} {A : Type κ} where
  if_bad :
      (b : Bool) (e : E) (x : Read E A) {a : A} → (if b then bad e else x) ≡ good a → x ≡ good a
  if_bad true e x h = cc
  if_bad false e x h = h

  and_read-good {μ} :
      {B : Type μ} (x : Read E A) (f : A → Read E B) {b : B}
      → and_read x f ≡ good b
      → (a : A) × (x ≡ good a) × (f a ≡ good b)
  and_read-good (good a) f h = (a, refl, h)
  and_read-good (bad e) f h = cc

  require-good : (e : E) (o : Option A) {a : A} → require e o ≡ good a → o ≡ some a
  require-good e none h = cc
  require-good e (some a) h = cc

  good_inj : (x : Read E A) {a b : A} → x ≡ good a → x ≡ good b → a ≡ b
  good_inj x e e' = cc

pub extranonce_size-range :
    (z : ℤ) {n : ℕ} → extranonce_size z ≡ some n → (0 < n) × (n ≤ 32) × (z ≡ pos n)
unfolding extranonce_size
extranonce_size-range (pos m) e = ground arith
extranonce_size-range (negsuc m) e = cc

-- What a result says: the second and the third element of its array.
abbrev pub Says : (floats : Floats) → Json floats.Double → SubscribeResult → Type 0
Says floats result r =
    (from_hex (as_string (at result 1) []) ≡ some r.extranonce1)
    × (as_int floats (at result 2) (negsuc 0) ≡ pos r.extranonce2_size)
    × (0 < r.extranonce2_size)
    × (r.extranonce2_size ≤ 32)

-- If the answer to a subscription is accepted, then the extranonce1 is the bytes that the text of
-- its second element writes, and the extranonce2 size is the number in its third, which is from 1
-- to 32.
pub parse_subscribe_result-Says :
    (floats : Floats) (result : Json floats.Double) (r : SubscribeResult)
    → parse_subscribe_result floats result ≡ good r
    → Says floats result r
unfolding parse_subscribe_result
parse_subscribe_result-Says floats result r e =
    let hex = as_string (at result 1) [] in
    let named =
      if_bad (is_empty hex) empty_extranonce1 _
        (if_bad (not (is_array result) || ltb (size result) 3) not_three_elements _ e) in
    let (bytes, read, after) = and_read-good (require bad_extranonce1 (from_hex hex)) _ named in
    let (n, found, last) =
      and_read-good
        (require size_out_of_range (extranonce_size (as_int floats (at result 2) (negsuc 0)))) _
        after in
    let (low, high, number) = extranonce_size-range _ (require-good size_out_of_range _ found) in
    subst (Says floats result) (good_inj _ refl last)
      (require-good bad_extranonce1 _ read, number, low, high)
