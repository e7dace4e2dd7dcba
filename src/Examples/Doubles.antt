-- ===== src/Examples/Doubles.antt =====
-- Difficulties that are whole numbers, exactly: one choice for the arithmetic on `double`.
use bitcoin_miner.Base.{ℕ, ◌*◌, ◌%◌, ◌^◌, ◌<◌, ◌≡◌, true, false, arith, ltb, leb}
use bitcoin_miner.Bitcoin.Difficulty.{Doubles}

pub word_lt : (d : ℕ) → d % 2 ^ 64 < 2 ^ 64
word_lt d = omega arith

pub word_pos : (d : ℕ) → ltb d 1 ≡ false → leb (2 ^ 64) d ≡ false → 0 < d % 2 ^ 64
word_pos d a b = ground (arith, a, b)

abbrev pub whole_doubles : Doubles
whole_doubles = record {
  Double = ℕ;
  whole = λ n. n;
  above = λ a b. ltb b a;
  below = λ a b. ltb a b;
  at_least = λ a b. leb b a;
  is_finite = λ a. true;
  times = λ a b. a * b;
  to_word = λ d. d % 2 ^ 64;
  to_word_lt = word_lt;
  to_word_pos = word_pos;
}
