-- ===== src/Bitcoin/UInt256/Bytes.antt =====
-- `fromHashLittleEndian` and `toHashLittleEndian` of src/bitcoin/uint256.cpp.
use bitcoin_miner.Base.{
  ℕ, zero, suc, ◌+◌, ◌*◌, ◌^◌, ◌≤◌, ◌<◌, List, [], ◌∷◌, ◌++◌, bit_or, ◌≡◌, refl, ap, sym, ◌∙◌,
  arith, u8, u64, ◌<<<◌, ◌>>>◌, length, take, drop, All-take, All-drop, length-take, length-drop,
  take-append-drop, drop-all, drop-drop, pow_add,
}
use bitcoin_miner.Base.Bits.{low-bit_or}
use bitcoin_miner.Base.Bytes.{IsBytes, le_value, le_value-append, le_value_lt, le_value_inj}
use native.Mathlib.Nat.{pow-le-pow_right, mul-le-mul_right}
use bitcoin_miner.Bitcoin.UInt256.{UInt256, Fits, value}

-- The inner loop: `acc |= uint64_t(byte) << (byte_index * 8)` over the bytes of one limb.
read_word : ℕ → ℕ → List ℕ → ℕ
read_word j acc [] = acc
read_word j acc (b ∷ bs) = read_word (j + 1) (bit_or acc (u64 (b <<< (j * 8)))) bs

-- The bytes of the limb at index i.
abbrev pub limb_bytes : List ℕ → ℕ → List ℕ
limb_bytes hash i = take 8 (drop (i * 8) hash)

unfoldable pub from_hash : List ℕ → UInt256
unfolding read_word
from_hash hash = record {
  limb0 = read_word 0 0 (limb_bytes hash 0);
  limb1 = read_word 0 0 (limb_bytes hash 1);
  limb2 = read_word 0 0 (limb_bytes hash 2);
  limb3 = read_word 0 0 (limb_bytes hash 3);
}

-- The inner loop of the way back, with the rounds that are left, at byte j of a limb.
write_word : ℕ → ℕ → ℕ → List ℕ
write_word zero j w = []
write_word (suc n) j w = u8 (w >>> (j * 8)) ∷ write_word n (j + 1) w

pub to_hash : UInt256 → List ℕ
unfolding write_word
to_hash v =
    write_word 8 0 v.limb0
    ++ (write_word 8 0 v.limb1 ++ (write_word 8 0 v.limb2 ++ write_word 8 0 v.limb3))

-- A hash is 32 bytes.
abbrev pub IsHash : List ℕ → Type 0
IsHash h = (length h ≡ 32) × IsBytes h

read_word-le_value :
    (bs : List ℕ) (j acc : ℕ)
    → IsBytes bs
    → j + length bs ≤ 8
    → acc < 2 ^ (j * 8)
    → read_word j acc bs ≡ acc + le_value bs * 2 ^ (j * 8)
unfolding read_word
read_word-le_value [] j acc h fits low = omega arith
read_word-le_value (b ∷ bs) j acc h fits low =
    let grows : 2 ^ ((j + 1) * 8) ≡ 256 * 2 ^ (j * 8) =
      ap (λ (t : ℕ). 2 ^ t) {y = 8 + j * 8} (omega arith) ∙ pow_add 2 8 (j * 8) in
    let room : 2 ^ ((j + 1) * 8) ≤ 2 ^ 64 =
      pow-le-pow_right {n = 2} (omega arith) {j = 64} (omega arith) in
    let scaled : b * 2 ^ (j * 8) + 2 ^ (j * 8) ≤ 256 * 2 ^ (j * 8) =
      omega (arith, mul-le-mul_right (2 ^ (j * 8)) h.0) in
    let kept : u64 (b * 2 ^ (j * 8)) ≡ b * 2 ^ (j * 8) = omega arith in
    let joined : bit_or acc (u64 (b * 2 ^ (j * 8))) ≡ acc + b * 2 ^ (j * 8) =
      ap (bit_or acc) kept ∙ low-bit_or (j * 8) b acc low in
    ap (λ t. read_word (j + 1) t bs) joined
    ∙ read_word-le_value bs (j + 1) (acc + b * 2 ^ (j * 8)) h.1 (omega arith) (omega arith)
    ∙ omega (arith, ap (λ (t : ℕ). le_value bs * t) grows)

le_value-write_word : (w : ℕ) → w < 2 ^ 64 → le_value (write_word 8 0 w) ≡ w
unfolding write_word
le_value-write_word w h = omega arith

read_limb :
    (bs : List ℕ)
    → IsBytes bs
    → length bs ≡ 8
    → (read_word 0 0 bs ≡ le_value bs) × (le_value bs < 2 ^ 64)
read_limb bs h size = (
  omega (arith, read_word-le_value bs 0 0 h (omega arith) (omega arith)),
  omega (arith, le_value_lt bs h, ap (λ (n : ℕ). 256 ^ n) size),
)

-- The number of a string of bytes, eight bytes at a time.
le_value-limb :
    (bs : List ℕ)
    → 8 ≤ length bs
    → le_value bs ≡ le_value (take 8 bs) + 2 ^ 64 * le_value (drop 8 bs)
le_value-limb bs h =
    let size : length (take 8 bs) ≡ 8 = omega (arith, length-take 8 bs) in
    ap le_value (sym (take-append-drop 8 bs))
    ∙ le_value-append (take 8 bs) (drop 8 bs)
    ∙ ap (λ (n : ℕ). le_value (take 8 bs) + 256 ^ n * le_value (drop 8 bs)) size

module _ (hash : List ℕ) (h : IsHash hash) where
  limb_at :
      (i : ℕ)
      → i < 4
      → (read_word 0 0 (limb_bytes hash i) ≡ le_value (limb_bytes hash i))
        × (le_value (limb_bytes hash i) < 2 ^ 64)
  limb_at i lt =
      read_limb (limb_bytes hash i) (All-take _ 8 (drop (i * 8) hash) (All-drop _ (i * 8) hash h.1))
        (omega (arith, length-take 8 (drop (i * 8) hash), length-drop (i * 8) hash, h.0))

  split :
      le_value hash
      ≡ le_value (limb_bytes hash 0)
        + 2 ^ 64
          * (le_value (limb_bytes hash 1)
              + 2 ^ 64 * (le_value (limb_bytes hash 2) + 2 ^ 64 * le_value (limb_bytes hash 3)))
  split = omega (
    arith,
    h.0,
    le_value-limb hash (omega (arith, h.0)),
    le_value-limb (drop 8 hash) (omega (arith, length-drop 8 hash, h.0)),
    le_value-limb (drop 16 hash) (omega (arith, length-drop 16 hash, h.0)),
    le_value-limb (drop 24 hash) (omega (arith, length-drop 24 hash, h.0)),
    ap le_value (drop-drop 8 8 hash),
    ap le_value (drop-drop 8 16 hash),
    ap le_value (drop-drop 8 24 hash),
    ap le_value (drop-all 32 hash (omega (arith, h.0))),
  )

  -- A hash of 32 bytes is read as the number that it spells with its first byte least significant,
  -- and the result is well formed.
  pub value-from_hash : (value (from_hash hash) ≡ le_value hash) × Fits (from_hash hash)
  unfolding from_hash
  value-from_hash = omega (
    arith,
    split,
    limb_at 0 (omega arith),
    limb_at 1 (omega arith),
    limb_at 2 (omega arith),
    limb_at 3 (omega arith),
  )

-- The bytes written for a number are a hash, and spell the number.
pub to_hash-value : (v : UInt256) → Fits v → IsHash (to_hash v) × (le_value (to_hash v) ≡ value v)
unfolding to_hash write_word
to_hash-value v fits = (
  (refl, omega arith),
  omega (
    arith,
    le_value-write_word v.limb0 fits.0,
    le_value-write_word v.limb1 fits.1,
    le_value-write_word v.limb2 fits.2,
    le_value-write_word v.limb3 fits.3,
    le_value-append (write_word 8 0 v.limb0)
        (write_word 8 0 v.limb1 ++ (write_word 8 0 v.limb2 ++ write_word 8 0 v.limb3)),
    le_value-append (write_word 8 0 v.limb1) (write_word 8 0 v.limb2 ++ write_word 8 0 v.limb3),
    le_value-append (write_word 8 0 v.limb2) (write_word 8 0 v.limb3),
  ),
)

pub value_inj : (v w : UInt256) → Fits v → Fits w → value v ≡ value w → v ≡ w
value_inj v w hv hw e = ground arith

-- For a well-formed number, reading the hash that it is written as gives the number back.
pub from_hash-to_hash : (v : UInt256) → Fits v → from_hash (to_hash v) ≡ v
from_hash-to_hash v fits =
    let (is_hash, spells) = to_hash-value v fits in
    let (reads, fits') = value-from_hash (to_hash v) is_hash in
    value_inj (from_hash (to_hash v)) v fits' fits (reads ∙ spells)

-- For a hash of 32 bytes, writing the number that it is read as gives the hash back.
pub to_hash-from_hash : (hash : List ℕ) → IsHash hash → to_hash (from_hash hash) ≡ hash
to_hash-from_hash hash h =
    let (reads, fits) = value-from_hash hash h in
    let (is_hash, spells) = to_hash-value (from_hash hash) fits in
    le_value_inj (to_hash (from_hash hash)) hash (is_hash.0 ∙ sym h.0) is_hash.1 h.1
      (spells ∙ reads)
