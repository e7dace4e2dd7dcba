-- ===== src/Stratum/Fields.antt =====
-- The field texts of src/stratum/message.cpp: 32-bit words with the most significant byte first, and
-- the previous block's hash with the bytes of each word reversed.
pub mod RoundTrip
use bitcoin_miner.Base.{
  ℕ, zero, suc, ◌+◌, ◌*◌, ◌||◌, Bool, true, false, List, [], ◌∷◌, Option, none, some, ◌>>=◌, not,
  ◌==◌, if◌then◌else◌, bit_or, u8, u32, ◌<<<◌, ◌>>>◌, get_or, length,
}
use bitcoin_miner.Util.Hex.{to_hex, from_hex}
use bitcoin_miner.Bitcoin.Hash.{to_raw_hex, from_raw_hex, swap_word_bytes}

-- The four bytes joined, the first one highest.
unfoldable pub join_big_endian : List ℕ → ℕ
join_big_endian bytes =
    bit_or
      (bit_or (bit_or (u32 (get_or bytes 0 0 <<< 24)) (get_or bytes 1 0 <<< 16))
        (get_or bytes 2 0 <<< 8))
      (get_or bytes 3 0)

unfoldable pub parse_big_endian_hex32 : List ℕ → Option ℕ
parse_big_endian_hex32 hex = if not (length hex == 8) then none else do
  bytes ← from_hex hex
  if not (length bytes == 4) then none else some (join_big_endian bytes)

unfoldable pub big_endian_bytes : ℕ → List ℕ
big_endian_bytes value = u8 (value >>> 24) ∷ u8 (value >>> 16) ∷ u8 (value >>> 8) ∷ u8 value ∷ []

unfoldable pub to_big_endian_hex32 : ℕ → List ℕ
to_big_endian_hex32 value = to_hex (big_endian_bytes value)

unfoldable pub prev_hash_from_stratum_hex : List ℕ → Option (List ℕ)
prev_hash_from_stratum_hex hex = do as_sent ← from_raw_hex hex; some (swap_word_bytes as_sent)

unfoldable pub prev_hash_to_stratum_hex : List ℕ → List ℕ
prev_hash_to_stratum_hex header_order = to_raw_hex (swap_word_bytes header_order)
