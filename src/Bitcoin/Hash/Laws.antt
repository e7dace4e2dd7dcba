-- ===== src/Bitcoin/Hash/Laws.antt =====
-- About src/bitcoin/hash.cpp: the two texts of a hash, and the swap of its words.
use bitcoin_miner.Base.{
  ℕ, zero, suc, ◌+◌, ◌*◌, List, [], ◌∷◌, reverse, some, ◌≡◌, refl, ap, ◌∙◌, length, All-append,
  length-reverse,
}
use mathlib.Core.List.{reverse-cons, reverse-reverse}
use bitcoin_miner.Base.Bytes.{IsBytes, get_or_lt, entries-all}
use bitcoin_miner.Util.Hex.RoundTrip.{from_hex_fixed-to_hex}
use bitcoin_miner.Bitcoin.UInt256.Bytes.{IsHash}
use bitcoin_miner.Bitcoin.Hash.{
  to_raw_hex, from_raw_hex, to_display_hex, from_display_hex, swap_words, swap_word_bytes,
}

All-reverse : (bs : List ℕ) → IsBytes bs → IsBytes (reverse bs)
All-reverse [] h = tt
All-reverse (b ∷ bs) h =
    rw (reverse-cons b bs) (All-append _ (reverse bs) (b ∷ []) (All-reverse bs h.1) (h.0, tt))

pub from_raw_hex-to_raw_hex :
    (hash : List ℕ) → IsHash hash → from_raw_hex (to_raw_hex hash) ≡ some hash
unfolding from_raw_hex to_raw_hex
from_raw_hex-to_raw_hex hash h = from_hex_fixed-to_hex hash 32 h.1 h.0

-- For a hash of 32 bytes, parsing its display text succeeds and gives the hash back.
pub from_display_hex-to_display_hex :
    (hash : List ℕ) → IsHash hash → from_display_hex (to_display_hex hash) ≡ some hash
unfolding from_display_hex to_display_hex
from_display_hex-to_display_hex hash h =
    rw (from_hex_fixed-to_hex (reverse hash) 32 (All-reverse hash h.1) (length-reverse hash ∙ h.0))
      (ap some (reverse-reverse hash))

swap_words-IsBytes : (n word : ℕ) (hash : List ℕ) → IsBytes hash → IsBytes (swap_words n word hash)
unfolding swap_words
swap_words-IsBytes zero word hash h = tt
swap_words-IsBytes (suc n) word hash h = (
  get_or_lt hash (word * 4 + 3) h,
  (
    get_or_lt hash (word * 4 + 2) h,
    (
      get_or_lt hash (word * 4 + 1) h,
      (get_or_lt hash (word * 4 + 0) h, swap_words-IsBytes n (word + 1) hash h),
    ),
  ),
)

pub swap_word_bytes-IsHash : (hash : List ℕ) → IsBytes hash → IsHash (swap_word_bytes hash)
unfolding swap_word_bytes
swap_word_bytes-IsHash hash h = (refl, swap_words-IsBytes 8 0 hash h)

-- For 32 bytes, reversing the bytes within each word of four twice gives the bytes back.
pub swap_word_bytes_twice :
    (hash : List ℕ) → length hash ≡ 32 → swap_word_bytes (swap_word_bytes hash) ≡ hash
unfolding swap_word_bytes
swap_word_bytes_twice hash h = entries-all hash 32 h
