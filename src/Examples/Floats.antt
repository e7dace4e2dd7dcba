-- ===== src/Examples/Floats.antt =====
-- Doubles that are integers, for the witnesses: arithmetic that is exact, read and written in decimal.
use bitcoin_miner.Base.{
  suc, ◌*◌, ◌^◌, ◌<◌, Bool, true, false, [], ◌≡◌, refl, sym, ap, ◌∙◌, arith, ltb, lt→ltb, ltb-false,
  ==_iff, ℤ, pos, negsuc, magnitude, ◌=z=◌,
}
use mathlib.Core.List.{append-nil}
use bitcoin_miner.Util.Decimal.{to_string, strtoll}
use bitcoin_miner.Util.Decimal.RoundTrip.{strtoll-to_string}
use bitcoin_miner.Util.Json.{Floats}

abbrev pub less_int : ℤ → ℤ → Bool
less_int (pos m) (pos n) = ltb m n
less_int (pos m) (negsuc n) = false
less_int (negsuc m) (pos n) = true
less_int (negsuc m) (negsuc n) = ltb n m

pub less_int_irrefl : (z : ℤ) → less_int z z ≡ false
less_int_irrefl (pos n) = ltb-false n n (omega arith)
less_int_irrefl (negsuc n) = ltb-false n n (omega arith)

abbrev pub twice_int : ℤ → ℤ
twice_int (pos n) = pos (2 * n)
twice_int (negsuc n) = negsuc (suc (2 * n))

pub =z=_refl : (z : ℤ) → (z =z= z) ≡ true
=z=_refl (pos n) = (==_iff n n).1 refl
=z=_refl (negsuc n) = (==_iff n n).1 refl

pub text_back : (z : ℤ) → magnitude z < 9 * 10 ^ 15 → strtoll (to_string z) ≡ (z, [])
text_back z h =
    ap strtoll (sym (append-nil (to_string z))) ∙ strtoll-to_string z [] (omega arith) tt

abbrev pub whole_floats : Floats
whole_floats = record {
  Double = ℤ;
  of_int = λ z. z;
  to_int = λ z. z;
  strtod = strtoll;
  equals = ◌=z=◌;
  less = less_int;
  less_irrefl = less_int_irrefl;
  twice = twice_int;
  is_finite = λ z. true;
  below_9e15 = λ z. ltb (magnitude z) (9 * 10 ^ 15);
  print_10g = to_string;
  print_8g = to_string;
  whole_small = λ z h. lt→ltb (magnitude z) (9 * 10 ^ 15) h;
  whole_finite = λ z h. refl;
  whole_equals = λ z h. =z=_refl z;
  whole_cast = λ z h. refl;
  whole_text = text_back;
}
