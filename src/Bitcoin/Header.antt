-- ===== src/Bitcoin/Header.antt =====
-- src/bitcoin/block_header.hpp and block_header.cpp: the 80-byte block header.
pub mod Laws
use bitcoin_miner.Base.{
  ℕ, zero, suc, ◌+◌, ◌*◌, ◌-◌, ◌/◌, ◌%◌, Bool, true, false, List, [], ◌∷◌, ◌++◌, Option, none, some,
  ◌==◌, if◌then◌else◌, not, bit_or, bit_and, u8, u32, ◌<<<◌, ◌>>>◌, get_or, length, take, drop,
}
use bitcoin_miner.Bitcoin.Sha256.{sha256d, write_at}
use bitcoin_miner.Bitcoin.Hash.{to_display_hex}

pub record BlockHeader : Type 0 where
  pub version : ℕ
  pub previous_block_hash : List ℕ
  pub merkle_root : List ℕ
  pub timestamp : ℕ
  pub bits : ℕ
  pub nonce : ℕ

-- The four bytes that `writeLE32` writes.
unfoldable pub write_le32 : ℕ → List ℕ
write_le32 v = u8 v ∷ u8 (v >>> 8) ∷ u8 (v >>> 16) ∷ u8 (v >>> 24) ∷ []

-- `readLE32` at an offset of a buffer.
unfoldable pub read_le32 : List ℕ → ℕ → ℕ
read_le32 p i =
    bit_or (bit_or (bit_or (get_or p i 0) (get_or p (i + 1) 0 <<< 8)) (get_or p (i + 2) 0 <<< 16))
      (u32 (get_or p (i + 3) 0 <<< 24))

unfoldable pub byte_swap32 : ℕ → ℕ
byte_swap32 v =
    bit_or
      (bit_or (bit_or (u32 (bit_and v 0x000000ff <<< 24)) (u32 (bit_and v 0x0000ff00 <<< 8)))
        (bit_and v 0x00ff0000 >>> 8))
      (bit_and v 0xff000000 >>> 24)

-- `serialize`, the fields one after the other: at 0, 4, 36, 68, 72 and 76.
pub serialize : BlockHeader → List ℕ
serialize h =
    write_le32 h.version
    ++ (h.previous_block_hash
        ++ (h.merkle_root ++ (write_le32 h.timestamp ++ (write_le32 h.bits ++ write_le32 h.nonce))))

pub deserialize : List ℕ → Option BlockHeader
deserialize bytes =
    if not (length bytes == 80)
    then none
    else some (record {
      version = read_le32 bytes 0;
      previous_block_hash = take 32 (drop 4 bytes);
      merkle_root = take 32 (drop 36 bytes);
      timestamp = read_le32 bytes 68;
      bits = read_le32 bytes 72;
      nonce = read_le32 bytes 76;
    })

-- `setHeaderNonce`: only the bytes from 76 on are written.
unfoldable pub set_header_nonce : List ℕ → ℕ → List ℕ
set_header_nonce header nonce = write_at 76 (write_le32 nonce) header

unfoldable pub header_hash : BlockHeader → List ℕ
unfolding serialize
header_hash h = sha256d (serialize h)

unfoldable pub display_hash : BlockHeader → List ℕ
unfolding header_hash
display_hash h = to_display_hex (header_hash h)
