-- ===== src/Mining/Work/Extranonce.antt =====
-- About `encodeExtranonce2` of src/mining/work.cpp.
use bitcoin_miner.Base.{
  ℕ, zero, suc, ◌+◌, ◌*◌, ◌/◌, ◌%◌, ◌^◌, ◌≤◌, ◌<◌, List, [], ◌∷◌, ◌++◌, ◌≡◌, ◌≢◌, refl, sym, ap,
  ◌∙◌, arith, Bool-cases, inl, inr, leb, leb→le, length, replicate, length-append, length-replicate,
  pow_add,
}
use native.Mathlib.Nat.{
  pow-suc, pow-zero, pow-le-pow_right, div-div-eq-div-mul, div-add-mod, mod-lt, mod-eq_of_lt,
  add-mul-mod_self_left, div-eq_of_lt, one-le-pow, zero-mod,
}
use bitcoin_miner.Base.Bytes.{IsBytes}
use bitcoin_miner.Mining.Work.{extranonce2_loop, encode_extranonce2}

-- The number that bytes spell with the most significant first.
abbrev pub be_value : List ℕ → ℕ
be_value [] = 0
be_value (b ∷ bs) = b * 256 ^ length bs + be_value bs

be_value-zeros : (n : ℕ) (bs : List ℕ) → be_value (replicate n 0 ++ bs) ≡ be_value bs
be_value-zeros zero bs = refl
be_value-zeros (suc n) bs = omega (arith, be_value-zeros n bs)

zeros-IsBytes : (n : ℕ) (bs : List ℕ) → IsBytes bs → IsBytes (replicate n 0 ++ bs)
zeros-IsBytes zero bs h = h
zeros-IsBytes (suc n) bs h = (omega arith, zeros-IsBytes n bs h)

mod-pow-suc : (k a : ℕ) → a % 256 ^ suc k ≡ a % 256 + 256 * (a / 256 % 256 ^ k)
mod-pow-suc k a =
    let p : ℕ = 256 ^ k in
    let low : ℕ = a % 256 + 256 * (a / 256 % p) in
    let whole : 256 ^ suc k * (a / 256 / p) ≡ 256 * (p * (a / 256 / p)) =
      omega (arith, ap (λ (t : ℕ). t * (a / 256 / p)) (pow-suc 256 k)) in
    let split : a ≡ low + 256 ^ suc k * (a / 256 / p) =
      omega (arith, whole, div-add-mod (a / 256) p) in
    let fits : low < 256 ^ suc k =
      omega (arith, pow-suc 256 k, mod-lt (a / 256) (one-le-pow k 256 (omega arith))) in
    ap (λ (t : ℕ). t % 256 ^ suc k) split
    ∙ add-mul-mod_self_left low (256 ^ suc k) (a / 256 / p)
    ∙ mod-eq_of_lt fits

next_byte : (c i : ℕ) → c / 2 ^ (8 * (i + 1)) ≡ c / 2 ^ (8 * i) / 256
next_byte c i =
    let power : 2 ^ (8 * (i + 1)) ≡ 2 ^ (8 * i) * 256 =
      ap (λ (t : ℕ). 2 ^ t) {y = 8 * i + 8} (omega arith) ∙ pow_add 2 (8 * i) 8 in
    ap (λ (t : ℕ). c / t) power ∙ sym (div-div-eq-div-mul c (2 ^ (8 * i)) 256)

-- What the loop leaves: the bytes written stand at the end, and those before them spell what is left
-- of the counter.
abbrev Spells : ℕ → ℕ → ℕ → List ℕ → List ℕ → Type 0
Spells left i c written out =
    (length out ≡ left + length written)
    × IsBytes out
    × (be_value out ≡ be_value written + 256 ^ length written * (c / 2 ^ (8 * i) % 256 ^ left))

extranonce2_loop-Spells :
    (left i c : ℕ) (written : List ℕ)
    → c < 2 ^ 64
    → IsBytes written
    → Spells left i c written (extranonce2_loop left i c written)
unfolding extranonce2_loop
extranonce2_loop-Spells zero i c written h bytes =
    let nothing : 256 ^ length written * (c / 2 ^ (8 * i) % 1) ≡ 256 ^ length written * 0 =
      ap (λ (t : ℕ). 256 ^ length written * t) (omega arith) in
    (omega arith, bytes, omega (arith, nothing))
extranonce2_loop-Spells (suc left) i c written h bytes = elim (Bool-cases (leb 64 (8 * i))) [
  | inl out ↦
      let below : 2 ^ 64 ≤ 2 ^ (8 * i) =
        pow-le-pow_right (omega arith) {i = 64} (leb→le 64 (8 * i) out) in
      let spent : c / 2 ^ (8 * i) ≡ 0 = div-eq_of_lt (omega (arith, below)) in
      let none_left : 256 ^ length written * (c / 2 ^ (8 * i) % 256 ^ suc left) ≡ 0 =
        ap (λ (t : ℕ). 256 ^ length written * (t % 256 ^ suc left)) spent
        ∙ ap (λ (t : ℕ). 256 ^ length written * t) (zero-mod (256 ^ suc left))
        ∙ omega arith in
      rw out (
        omega (
          arith,
          length-append (replicate {A = ℕ} left 0) written,
          length-replicate {A = ℕ} left 0,
        ),
        (omega arith, zeros-IsBytes left written bytes),
        omega (arith, be_value-zeros left written, none_left),
      )
  | inr on ↦
      let q : ℕ = c / 2 ^ (8 * i) in
      let r : ℕ = c / 2 ^ (8 * (i + 1)) % 256 ^ left in
      let (size, good, spells) =
        extranonce2_loop-Spells left (i + 1) c (q % 256 ∷ written) h (omega arith, bytes) in
      let digits : q % 256 ^ suc left ≡ q % 256 + 256 * r =
        mod-pow-suc left q
        ∙ ap (λ (t : ℕ). q % 256 + 256 * (t % 256 ^ left)) (sym (next_byte c i)) in
      rw on (
        omega (arith, size),
        good,
        omega (
          arith,
          spells,
          ap (λ (t : ℕ). 256 ^ length written * t) digits,
          ap (λ (t : ℕ). t * r) (pow-suc 256 (length written)),
        ),
      )
]

-- For a counter below 2 ^ 64, the extranonce2 has the size asked for, consists of bytes, and spells
-- with the most significant byte first the counter modulo 256 to that size.
pub encode_extranonce2-be_value :
    (counter size : ℕ)
    → counter < 2 ^ 64
    → (length (encode_extranonce2 counter size) ≡ size)
      × IsBytes (encode_extranonce2 counter size)
      × (be_value (encode_extranonce2 counter size) ≡ counter % 256 ^ size)
unfolding encode_extranonce2
encode_extranonce2-be_value counter size h =
    let (length_is, bytes, spells) = extranonce2_loop-Spells size 0 counter [] h tt in
    let whole : counter / 2 ^ (8 * 0) ≡ counter = omega (arith, pow-zero 2) in
    (
      omega (arith, length_is),
      bytes,
      omega (
        arith,
        spells,
        ap (λ (t : ℕ). t % 256 ^ size) whole,
        ap (λ (t : ℕ). t * (counter / 2 ^ (8 * 0) % 256 ^ size)) (pow-zero 256),
      ),
    )

-- Two different counters below 2 ^ 64 and below 256 to the size asked for have different
-- extranonce2 bytes.
pub encode_extranonce2_inj :
    (a b size : ℕ)
    → a < 2 ^ 64
    → b < 2 ^ 64
    → a < 256 ^ size
    → b < 256 ^ size
    → a ≢ b
    → encode_extranonce2 a size ≢ encode_extranonce2 b size
encode_extranonce2_inj a b size ha hb fits_a fits_b different same =
    let (_, _, at_a) = encode_extranonce2-be_value a size ha in
    let (_, _, at_b) = encode_extranonce2-be_value b size hb in
    different (sym (mod-eq_of_lt fits_a) ∙ sym at_a ∙ ap be_value same ∙ at_b ∙ mod-eq_of_lt fits_b)
