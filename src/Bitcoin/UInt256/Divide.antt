-- ===== src/Bitcoin/UInt256/Divide.antt =====
-- About `UInt256::divide` of src/bitcoin/uint256.cpp.
use bitcoin_miner.Base.{
  ℕ, zero, suc, ◌+◌, ◌*◌, ◌/◌, ◌%◌, ◌^◌, ◌≤◌, ◌<◌, ◌≡◌, ap, ◌∙◌, sym, arith, false, ◌==◌, ==_iff,
  if◌then◌else◌, inl, inr, Bool-cases,
}
use native.Mathlib.Nat.{pow-suc, div-div-eq-div-mul, div-le_self}
use bitcoin_miner.Bitcoin.UInt256.{
  UInt256, Fits, value, bit_at, or256, from_word, shl256, ge256, is_zero, zero256, value_lt,
  Division, divide_bit, divide_loop, divide,
}
use bitcoin_miner.Bitcoin.UInt256.Limbs.{bit_at-value, value-or_one, value-with_bit}
use bitcoin_miner.Bitcoin.UInt256.Shift.{value-shl256}
use bitcoin_miner.Bitcoin.UInt256.Sum.{value-sub256}
use bitcoin_miner.Bitcoin.UInt256.Order.{ge256_iff, is_zero_iff}

-- With `bits` rounds to go, the top of the numerator is divided, and the quotient's low bits are
-- still clear.
pub record Divides (n d : UInt256) (bits : ℕ) (s : Division) : Type 0 where
  pub top : ℕ
  pub quotient_fits : Fits s.quotient
  pub remainder_fits : Fits s.remainder
  pub quotient_is : value s.quotient ≡ 2 ^ bits * top
  pub divided : value n / 2 ^ bits ≡ top * value d + value s.remainder
  pub below : value s.remainder < value d

module _ (n d : UInt256) (n_fits : Fits n) (d_fits : Fits d) (bit : ℕ) (h : bit < 256)
    (s : Division) (inv : Divides n d (suc bit) s) where
  half : value n / 2 ^ suc bit ≡ value n / 2 ^ bit / 2
  half =
      ap (λ (t : ℕ). value n / t) (pow-suc 2 bit) ∙ sym (div-div-eq-div-mul (value n) (2 ^ bit) 2)

  -- The remainder has room for one more bit: it is at most the top of the numerator.
  room : value s.remainder < 2 ^ 255
  room = omega (arith, inv.divided, half, div-le_self (value n) (2 ^ bit))

  rem : UInt256
  rem =
      if bit_at n bit == 0 then shl256 s.remainder 1 else or256 (shl256 s.remainder 1) (from_word 1)

  rem_lem : (value rem ≡ 2 * value s.remainder + value n / 2 ^ bit % 2) × Fits rem
  unfolding rem
  rem_lem =
      let shifted = value-shl256 s.remainder 1 inv.remainder_fits in
      let twice : value (shl256 s.remainder 1) ≡ 2 * value s.remainder =
        omega (arith, shifted, room) in
      elim (Bool-cases (bit_at n bit == 0)) [
        | inl e ↦ rw e (
            omega
              (arith, shifted, twice, (==_iff (bit_at n bit) 0).0 e, bit_at-value n bit n_fits h))
        | inr e ↦ rw e (
            ground (
              arith,
              value-or_one (shl256 s.remainder 1) shifted.1 (omega (arith, twice)),
              twice,
              bit_at-value n bit n_fits h,
            ))
      ]

  -- One round keeps the invariant.
  divide_bit-Divides : Divides n d bit (divide_bit n d bit s)
  unfolding divide_bit rem
  divide_bit-Divides =
      let sub = value-sub256 rem d rem_lem.1 d_fits in
      let set = value-with_bit s.quotient inv.quotient_fits bit inv.top h inv.quotient_is in
      elim (Bool-cases (ge256 rem d)) [
        | inl e ↦
            let enough : value d ≤ value rem = (ge256_iff rem d rem_lem.1 d_fits).0 e in
            rw e (record {
              top = 2 * inv.top + 1;
              quotient_fits = set.1;
              remainder_fits = sub.1;
              quotient_is =
                  omega
                    (arith, set.0, inv.quotient_is, ap (λ (t : ℕ). t * inv.top) (pow-suc 2 bit));
              divided =
                  omega
                    (arith, inv.divided, half, rem_lem.0, sub.0, enough, value_lt rem rem_lem.1);
              below = omega (arith, inv.below, rem_lem.0, sub.0, enough, value_lt rem rem_lem.1);
            })
        | inr e ↦
            let less : value rem < value d =
              ground (arith, (ge256_iff rem d rem_lem.1 d_fits).1, e) in
            rw e (record {
              top = 2 * inv.top;
              quotient_fits = inv.quotient_fits;
              remainder_fits = rem_lem.1;
              quotient_is =
                  omega (arith, inv.quotient_is, ap (λ (t : ℕ). t * inv.top) (pow-suc 2 bit));
              divided = omega (arith, inv.divided, half, rem_lem.0);
              below = less;
            })
      ]

module _ (n d : UInt256) (n_fits : Fits n) (d_fits : Fits d) where
  divide_loop-Divides :
      (bits : ℕ) (s : Division)
      → bits ≤ 256
      → Divides n d bits s
      → Divides n d 0 (divide_loop n d bits s)
  unfolding divide_loop
  divide_loop-Divides zero s h inv = inv
  divide_loop-Divides (suc bit) s h inv =
      divide_loop-Divides bit (divide_bit n d bit s) (omega arith)
        (divide_bit-Divides n d n_fits d_fits bit h s inv)

-- For well-formed numbers and a denominator that is not zero, the numerator is the quotient times
-- the denominator plus the remainder, the remainder is below the denominator, and quotient and
-- remainder are well formed.
pub divide_exact :
    (n d : UInt256)
    → Fits n
    → Fits d
    → 0 < value d
    → (value n ≡ value (divide n d).quotient * value d + value (divide n d).remainder)
      × (value (divide n d).remainder < value d)
      × Fits (divide n d).quotient
      × Fits (divide n d).remainder
unfolding divide
divide_exact n d n_fits d_fits pos =
    let last = divide_loop-Divides n d n_fits d_fits 256 start (omega arith) start-Divides in
    rw nonzero (
      omega (arith, last.divided, ap (λ (t : ℕ). t * value d) last.quotient_is),
      last.below,
      last.quotient_fits,
      last.remainder_fits,
    )
  where
    start : Division
    start = record { quotient = zero256; remainder = zero256 }

    nonzero : is_zero d ≡ false
    nonzero = ground (arith, is_zero_iff d)

    start-Divides : Divides n d 256 start
    start-Divides = record {
      top = 0;
      quotient_fits = omega arith;
      remainder_fits = omega arith;
      quotient_is = omega arith;
      divided = omega arith;
      below = omega arith;
    }
