-- ===== src/Examples/Headers.antt =====
-- The header of the genesis block.
use bitcoin_miner.Base.{[], ◌∷◌, some, ◌≡◌, refl, arith}
use bitcoin_miner.Bitcoin.Header.{BlockHeader, write_le32, serialize, deserialize, header_hash}
use bitcoin_miner.Bitcoin.Sha256.{sha256d}
use bitcoin_miner.Bitcoin.Header.Laws.{IsHeader, deserialize-serialize}
use bitcoin_miner.Bitcoin.Hash.{zero_hash}

abbrev genesis : BlockHeader
genesis = record {
  version = 1;
  previous_block_hash = zero_hash;
  merkle_root =
      0x3b ∷ 0xa3 ∷ 0xed ∷ 0xfd ∷ 0x7a ∷ 0x7b ∷ 0x12 ∷ 0xb2 ∷ 0x7a ∷ 0xc7 ∷ 0x2c ∷ 0x3e ∷ 0x67
      ∷ 0x76 ∷ 0x8f ∷ 0x61 ∷ 0x7f ∷ 0xc8 ∷ 0x1b ∷ 0xc3 ∷ 0x88 ∷ 0x8a ∷ 0x51 ∷ 0x32 ∷ 0x3a ∷ 0x9f
      ∷ 0xb8 ∷ 0xaa ∷ 0x4b ∷ 0x1e ∷ 0x5e ∷ 0x4a ∷ [];
  timestamp = 1231006505;
  bits = 0x1d00ffff;
  nonce = 2083236893;
}

-- The published hash, with its last byte first.
genesis-header_hash :
    header_hash genesis
    ≡ 0x6f ∷ 0xe2 ∷ 0x8c ∷ 0x0a ∷ 0xb6 ∷ 0xf1 ∷ 0xb3 ∷ 0x72 ∷ 0xc1 ∷ 0xa6 ∷ 0xa2 ∷ 0x46 ∷ 0xae
      ∷ 0x63 ∷ 0xf7 ∷ 0x4f ∷ 0x93 ∷ 0x1e ∷ 0x83 ∷ 0x65 ∷ 0xe1 ∷ 0x5a ∷ 0x08 ∷ 0x9c ∷ 0x68 ∷ 0xd6
      ∷ 0x19 ∷ 0x00 ∷ 0x00 ∷ 0x00 ∷ 0x00 ∷ 0x00 ∷ []
unfolding header_hash sha256d write_le32
genesis-header_hash = refl

genesis-IsHeader : IsHeader genesis
genesis-IsHeader =
    (omega arith, (refl, omega arith), (refl, omega arith), omega arith, omega arith, omega arith)

deserialize-serialize_example : deserialize (serialize genesis) ≡ some genesis
deserialize-serialize_example = deserialize-serialize genesis genesis-IsHeader
