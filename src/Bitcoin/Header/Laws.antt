-- ===== src/Bitcoin/Header/Laws.antt =====
-- About src/bitcoin/block_header.cpp: serializing, parsing and setting the nonce.
use bitcoin_miner.Base.{
  ℕ, ◌+◌, ◌*◌, ◌/◌, ◌%◌, ◌^◌, ◌≤◌, ◌<◌, List, [], ◌++◌, some, ◌≡◌, refl, ap, sym, ◌∙◌, arith,
  bit_or, length, take, drop, get_or, length-append, length-take, length-drop, drop_on, drop-all,
  take-exact, get_or-drop, ==_iff,
}
use mathlib.Core.List.{append-nil, append_assoc}
use native.Mathlib.Nat.{add-zero}
use bitcoin_miner.Base.Bits.{low-bit_or}
use bitcoin_miner.Bitcoin.UInt256.Bytes.{IsHash}
use bitcoin_miner.Bitcoin.Header.{
  BlockHeader, write_le32, read_le32, serialize, deserialize, set_header_nonce,
}

-- The four bytes of a word joined by shifts and `|`.
join_bytes :
    (a b c d : ℕ)
    → a < 256
    → b < 256
    → c < 256
    → d < 256
    → bit_or (bit_or (bit_or a (b * 2 ^ 8)) (c * 2 ^ 16)) (d * 2 ^ 24 % 2 ^ 32)
      ≡ a + b * 256 + c * 65536 + d * 16777216
join_bytes a b c d ha hb hc hd = ground (
  arith,
  low-bit_or 8 b a,
  low-bit_or 16 c (a + b * 2 ^ 8),
  low-bit_or 24 d (a + b * 2 ^ 8 + c * 2 ^ 16),
)

length-write_le32 : (v : ℕ) → length (write_le32 v) ≡ 4
unfolding write_le32
length-write_le32 v = refl

read_le32-write_le32 : (v : ℕ) (rest : List ℕ) → v < 2 ^ 32 → read_le32 (write_le32 v ++ rest) 0 ≡ v
unfolding read_le32 write_le32
read_le32-write_le32 v rest h = omega (
  arith,
  join_bytes (v % 256) (v / 256 % 256) (v / 65536 % 256) (v / 16777216 % 256) (omega arith)
      (omega arith) (omega arith) (omega arith),
)

-- A word read where it was written.
read_le32-drop :
    (p : List ℕ) (i v : ℕ) (rest : List ℕ)
    → v < 2 ^ 32
    → drop i p ≡ write_le32 v ++ rest
    → read_le32 p i ≡ v
unfolding read_le32
read_le32-drop p i v rest h e =
    let at : (j : ℕ) → get_or p (i + j) 0 ≡ get_or (write_le32 v ++ rest) j 0 =
      λ j. get_or-drop i j p 0 ∙ ap (λ t. get_or t j 0) e in
    let first : get_or p i 0 ≡ get_or (write_le32 v ++ rest) 0 0 =
      ap (λ (t : ℕ). get_or p t 0) (sym (add-zero i)) ∙ at 0 in
    rw (first, at 1, at 2, at 3) (read_le32-write_le32 v rest h)

pub length-set_header_nonce :
    (header : List ℕ) (a : ℕ) → length header ≡ 80 → length (set_header_nonce header a) ≡ 80
unfolding set_header_nonce write_le32
length-set_header_nonce header a h = omega (
  arith,
  h,
  length-append (take 76 header) (write_le32 a ++ drop 80 header),
  length-take 76 header,
  length-drop 80 header,
)

-- Setting the nonce again leaves no trace of the one before.
pub set_header_nonce_again :
    (header : List ℕ) (a b : ℕ)
    → length header ≡ 80
    → set_header_nonce (set_header_nonce header a) b ≡ set_header_nonce header b
unfolding set_header_nonce write_le32
set_header_nonce_again header a b h =
    let front : length (take 76 header) ≡ 76 = omega (arith, h, length-take 76 header) in
    let ends : drop 80 header ≡ [] = drop-all 80 header (omega (arith, h)) in
    let ends_again : drop 80 (set_header_nonce header a) ≡ [] =
      drop-all 80 (set_header_nonce header a) (omega (arith, length-set_header_nonce header a h)) in
    rw (take-exact 76 (take 76 header) (write_le32 a ++ drop 80 header) front, ends_again, ends)
      refl

abbrev pub IsHeader : BlockHeader → Type 0
IsHeader h =
    (h.version < 2 ^ 32)
    × IsHash h.previous_block_hash
    × IsHash h.merkle_root
    × (h.timestamp < 2 ^ 32)
    × (h.bits < 2 ^ 32)
    × (h.nonce < 2 ^ 32)

module _ (h : BlockHeader) (w : IsHeader h) where
  abbrev tail76 : List ℕ
  tail76 = write_le32 h.nonce

  abbrev tail72 : List ℕ
  tail72 = write_le32 h.bits ++ tail76

  abbrev tail68 : List ℕ
  tail68 = write_le32 h.timestamp ++ tail72

  abbrev tail36 : List ℕ
  tail36 = h.merkle_root ++ tail68

  abbrev tail4 : List ℕ
  tail4 = h.previous_block_hash ++ tail36

  at4 : drop 4 (serialize h) ≡ tail4
  unfolding serialize write_le32
  at4 = refl

  at36 : drop 36 (serialize h) ≡ tail36
  at36 = drop_on 4 32 (serialize h) h.previous_block_hash tail36 at4 w.1.0

  at68 : drop 68 (serialize h) ≡ tail68
  at68 = drop_on 36 32 (serialize h) h.merkle_root tail68 at36 w.2.0

  at72 : drop 72 (serialize h) ≡ tail72
  at72 =
      drop_on 68 4 (serialize h) (write_le32 h.timestamp) tail72 at68
        (length-write_le32 h.timestamp)

  at76 : drop 76 (serialize h) ≡ tail76
  at76 = drop_on 72 4 (serialize h) (write_le32 h.bits) tail76 at72 (length-write_le32 h.bits)

  version_first : serialize h ≡ write_le32 h.version ++ tail4
  unfolding serialize
  version_first = refl

  -- The 76 bytes before the nonce.
  abbrev front : List ℕ
  front =
      write_le32 h.version
      ++ (h.previous_block_hash ++ (h.merkle_root ++ (write_le32 h.timestamp ++ write_le32 h.bits)))

  length-front : length front ≡ 76
  length-front = omega (
    arith,
    w.1.0,
    w.2.0,
    length-write_le32 h.version,
    length-write_le32 h.timestamp,
    length-write_le32 h.bits,
    length-append (write_le32 h.version)
        (h.previous_block_hash ++ (h.merkle_root ++ (write_le32 h.timestamp ++ write_le32 h.bits))),
    length-append h.previous_block_hash
        (h.merkle_root ++ (write_le32 h.timestamp ++ write_le32 h.bits)),
    length-append h.merkle_root (write_le32 h.timestamp ++ write_le32 h.bits),
    length-append (write_le32 h.timestamp) (write_le32 h.bits),
  )

  serialize-front : (n : ℕ) → serialize (record h { nonce = n }) ≡ front ++ write_le32 n
  unfolding serialize
  serialize-front n = simp append_assoc

  -- Exactly 80 bytes.
  pub length-serialize : length (serialize h) ≡ 80
  unfolding serialize write_le32
  length-serialize = omega (
    arith,
    w.1.0,
    w.2.0,
    length-append h.previous_block_hash tail36,
    length-append h.merkle_root tail68,
  )

  -- For a header whose fields have their widths, parsing its serialized bytes succeeds and gives
  -- the header back.
  pub deserialize-serialize : deserialize (serialize h) ≡ some h
  unfolding deserialize
  deserialize-serialize =
      let version : read_le32 (serialize h) 0 ≡ h.version =
        read_le32-drop (serialize h) 0 h.version tail4 w.0 version_first in
      let previous : take 32 (drop 4 (serialize h)) ≡ h.previous_block_hash =
        ap (take 32) at4 ∙ take-exact 32 h.previous_block_hash tail36 w.1.0 in
      let root : take 32 (drop 36 (serialize h)) ≡ h.merkle_root =
        ap (take 32) at36 ∙ take-exact 32 h.merkle_root tail68 w.2.0 in
      let timestamp : read_le32 (serialize h) 68 ≡ h.timestamp =
        read_le32-drop (serialize h) 68 h.timestamp tail72 w.3 at68 in
      let bits : read_le32 (serialize h) 72 ≡ h.bits =
        read_le32-drop (serialize h) 72 h.bits tail76 w.4 at72 in
      let nonce : read_le32 (serialize h) 76 ≡ h.nonce =
        read_le32-drop (serialize h) 76 h.nonce [] w.5 (at76 ∙ sym (append-nil tail76)) in
      rw ((==_iff _ _).1 length-serialize, version, previous, root, timestamp, bits, nonce)

  -- For a header whose fields have their widths, setting a nonce in its serialized bytes gives the
  -- serialized bytes of the header with that nonce.
  pub set_header_nonce-serialize :
      (n : ℕ) → set_header_nonce (serialize h) n ≡ serialize (record h { nonce = n })
  unfolding set_header_nonce
  set_header_nonce-serialize n =
      let size : length (front ++ write_le32 h.nonce) ≤ 80 = omega (
        arith,
        length-front,
        length-write_le32 h.nonce,
        length-append front (write_le32 h.nonce),
      ) in
      let head : take 76 (front ++ write_le32 h.nonce) ≡ front =
        take-exact 76 front (write_le32 h.nonce) length-front in
      let ends : drop (76 + length (write_le32 n)) (front ++ write_le32 h.nonce) ≡ [] =
        drop-all (76 + length (write_le32 n)) (front ++ write_le32 h.nonce)
          (omega (arith, size, length-write_le32 n)) in
      rw (serialize-front n, serialize-front h.nonce, head, ends, append-nil (write_le32 n))
