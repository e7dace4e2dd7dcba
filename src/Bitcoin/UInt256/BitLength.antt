-- ===== src/Bitcoin/UInt256/BitLength.antt =====
-- About `UInt256::bitLength` of src/bitcoin/uint256.cpp.
use bitcoin_miner.Base.{
  ℕ, zero, suc, ◌+◌, ◌*◌, ◌/◌, ◌^◌, ◌≤◌, ◌<◌, ◌≡◌, refl, ap, sym, subst, ◌∙◌, arith, Bool-cases,
  inl, inr, ◌==◌, ==_iff, pow_add, two-pow-pos,
}
use native.Mathlib.Nat.{eq-zero-or-pos, zero-add, pow-suc, pow-zero, mul-le-mul_right}
use bitcoin_miner.Bitcoin.UInt256.{UInt256, Fits, value, word_bits, bit_length}

-- n binary digits are enough for w, and no fewer.
abbrev pub IsSize : ℕ → ℕ → Type 0
IsSize w n = (w < 2 ^ n) × (0 < w → 2 ^ n ≤ 2 * w) × (w ≡ 0 → n ≡ 0)

word_bits-IsSize :
    (fuel w bits : ℕ)
    → w < 2 ^ fuel
    → (n : ℕ) × (word_bits fuel w bits ≡ bits + n) × IsSize w n × (n ≤ fuel)
unfolding word_bits
word_bits-IsSize zero w bits h =
    (0, omega arith, (omega arith, λ p. omega arith, λ p. refl), omega arith)
word_bits-IsSize (suc fuel) w bits h = elim (Bool-cases (w == 0)) [
  | inl e ↦
      let z : w ≡ 0 = (==_iff w 0).0 e in
      (0, rw e (omega arith), (omega (arith, pow-zero 2), λ p. omega arith, λ p. refl), omega arith)
  | inr e ↦
      let some_bit : 0 < w = ground arith in
      let (n, is, (lt, ge, nz), le) =
        word_bits-IsSize fuel (w / 2) (bits + 1) (omega (arith, pow-suc 2 fuel)) in
      (
        suc n,
        rw e (is ∙ omega arith),
        (omega (arith, pow-suc 2 n), λ p. grown n some_bit lt ge nz, λ p. absurd (omega arith)),
        omega arith,
      )
]
  where
    grown :
        (n : ℕ)
        → 0 < w
        → w / 2 < 2 ^ n
        → (0 < w / 2 → 2 ^ n ≤ 2 * (w / 2))
        → (w / 2 ≡ 0 → n ≡ 0)
        → 2 ^ suc n ≤ 2 * w
    grown n pos lt ge nz = elim (eq-zero-or-pos (w / 2)) [
      | inl z ↦ omega (arith, pow-suc 2 n, ap (λ (t : ℕ). 2 ^ t) (nz z), pow-zero 2)
      | inr p ↦ omega (arith, pow-suc 2 n, ge p)
    ]

-- The digits of a number with a top part, when the part below is one of k digits at most.
IsSize-high :
    (top low k n : ℕ) → 0 < top → low < 2 ^ k → IsSize top n → IsSize (low + top * 2 ^ k) (k + n)
IsSize-high top low k n pos fits (lt, ge, nz) =
    let both : 2 ^ (k + n) ≡ 2 ^ k * 2 ^ n = pow_add 2 k n in
    (
      omega (arith, both, mul-le-mul_right (2 ^ k) lt),
      λ p. omega (arith, both, mul-le-mul_right (2 ^ k) (ge pos)),
      λ p. absurd (omega (arith, mul-le-mul_right (2 ^ k) pos, two-pow-pos k)),
    )

pub bit_length-IsSize : (v : UInt256) → Fits v → IsSize (value v) (bit_length v)
unfolding bit_length
bit_length-IsSize v fits = elim (Bool-cases (v.limb3 == 0)) [
  | inr e3 ↦ rw e3 (
      in_limb v.limb3 (v.limb0 + v.limb1 * 2 ^ 64 + v.limb2 * 2 ^ 128) 192 (ground arith) fits.3
        (omega arith))
  | inl e3 ↦ elim (Bool-cases (v.limb2 == 0)) [
    | inr e2 ↦
        let z3 = (==_iff v.limb3 0).0 e3 in
        rw (e3, e2)
          (subst (λ (t : ℕ). IsSize t (128 + word_bits 64 v.limb2 0)) (omega (arith, z3))
            (in_limb v.limb2 (v.limb0 + v.limb1 * 2 ^ 64) 128 (ground arith) fits.2 (omega arith)))
    | inl e2 ↦ elim (Bool-cases (v.limb1 == 0)) [
      | inr e1 ↦
          let z3 = (==_iff v.limb3 0).0 e3 in
          let z2 = (==_iff v.limb2 0).0 e2 in
          rw (e3, e2, e1)
            (subst (λ (t : ℕ). IsSize t (64 + word_bits 64 v.limb1 0)) (omega (arith, z3, z2))
              (in_limb v.limb1 v.limb0 64 (ground arith) fits.1 (omega arith)))
      | inl e1 ↦
          let z3 = (==_iff v.limb3 0).0 e3 in
          let z2 = (==_iff v.limb2 0).0 e2 in
          let z1 = (==_iff v.limb1 0).0 e1 in
          elim (Bool-cases (v.limb0 == 0)) [
            | inr e0 ↦
                let (n, is, size, le) = word_bits-IsSize 64 v.limb0 0 fits.0 in
                rw (e3, e2, e1, e0)
                  (subst (λ (t : ℕ). IsSize t (word_bits 64 v.limb0 0)) (omega (arith, z3, z2, z1))
                    (subst (IsSize v.limb0) (sym (is ∙ zero-add n)) size))
            | inl e0 ↦
                rw (e3, e2, e1, e0)
                  (
                    omega (arith, z3, z2, z1, (==_iff v.limb0 0).0 e0),
                    λ p. absurd (omega (arith, z3, z2, z1, (==_iff v.limb0 0).0 e0)),
                    λ p. refl,
                  )
          ]
    ]
  ]
]
  where
    in_limb :
        (top low k : ℕ)
        → 0 < top
        → top < 2 ^ 64
        → low < 2 ^ k
        → IsSize (low + top * 2 ^ k) (k + word_bits 64 top 0)
    in_limb top low k pos hi lo =
        let (n, is, size, le) = word_bits-IsSize 64 top 0 hi in
        IsSize-high top low k (word_bits 64 top 0) pos lo
          (subst (IsSize top) (sym (is ∙ zero-add n)) size)
