-- ===== src/Stratum/Fields/RoundTrip.antt =====
-- About the field texts of src/stratum/message.cpp, written and read.
use bitcoin_miner.Base.{
  ℕ, ◌+◌, ◌*◌, ◌/◌, ◌%◌, ◌^◌, ◌<◌, true, List, some, ◌≡◌, refl, ap, arith, ◌==◌, ==_iff, bit_or,
  length,
}
use bitcoin_miner.Base.Bits.{high-bit_or}
use bitcoin_miner.Base.Bytes.{IsBytes}
use bitcoin_miner.Util.Hex.{to_hex}
use bitcoin_miner.Util.Hex.RoundTrip.{from_hex-to_hex, length-to_hex}
use bitcoin_miner.Bitcoin.UInt256.Bytes.{IsHash}
use bitcoin_miner.Bitcoin.Hash.{swap_word_bytes}
use bitcoin_miner.Bitcoin.Hash.Laws.{
  from_raw_hex-to_raw_hex, swap_word_bytes-IsHash, swap_word_bytes_twice,
}
use bitcoin_miner.Stratum.Fields.{
  join_big_endian, parse_big_endian_hex32, big_endian_bytes, to_big_endian_hex32,
  prev_hash_from_stratum_hex, prev_hash_to_stratum_hex,
}

-- Joining by shifts and `|` is a sum.
join_words :
    (a b c d : ℕ)
    → a < 256
    → b < 256
    → c < 256
    → d < 256
    → bit_or (bit_or (bit_or (a * 2 ^ 24 % 2 ^ 32) (b * 2 ^ 16)) (c * 2 ^ 8)) d
      ≡ a * 16777216 + b * 65536 + c * 256 + d
join_words a b c d ha hb hc hd = ground (
  arith,
  high-bit_or 24 a (b * 2 ^ 16),
  high-bit_or 16 (a * 256 + b) (c * 2 ^ 8),
  high-bit_or 8 (a * 65536 + b * 256 + c) d,
)

join_big_endian-bytes : (v : ℕ) → v < 2 ^ 32 → join_big_endian (big_endian_bytes v) ≡ v
unfolding join_big_endian big_endian_bytes
join_big_endian-bytes v h = omega (
  arith,
  join_words (v / 16777216 % 256) (v / 65536 % 256) (v / 256 % 256) (v % 256) (omega arith)
      (omega arith) (omega arith) (omega arith),
)

-- For a word below 2 ^ 32, reading its field text gives the word.
pub parse-to_big_endian_hex32 :
    (v : ℕ) → v < 2 ^ 32 → parse_big_endian_hex32 (to_big_endian_hex32 v) ≡ some v
unfolding parse_big_endian_hex32 to_big_endian_hex32
parse-to_big_endian_hex32 v h =
    let bytes : IsBytes (big_endian_bytes v) = unfold big_endian_bytes in omega arith in
    let four : length (big_endian_bytes v) ≡ 4 = unfold big_endian_bytes in refl in
    let eight : (length (to_hex (big_endian_bytes v)) == 8) ≡ true =
      (==_iff _ _).1 (omega (arith, length-to_hex (big_endian_bytes v), four)) in
    rw (eight, from_hex-to_hex (big_endian_bytes v) bytes, (==_iff _ _).1 four)
      (ap some (join_big_endian-bytes v h))

-- For a hash of 32 bytes, reading the pool's text for it as a previous block hash gives the hash.
pub prev_hash_round_trip :
    (hash : List ℕ)
    → IsHash hash
    → prev_hash_from_stratum_hex (prev_hash_to_stratum_hex hash) ≡ some hash
unfolding prev_hash_from_stratum_hex prev_hash_to_stratum_hex
prev_hash_round_trip hash h =
    rw (from_raw_hex-to_raw_hex (swap_word_bytes hash) (swap_word_bytes-IsHash hash h.1))
      (ap some (swap_word_bytes_twice hash h.0))
