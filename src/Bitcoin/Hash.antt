-- ===== src/Bitcoin/Hash.antt =====
-- src/bitcoin/hash.hpp and hash.cpp: a hash is a list of 32 bytes in internal order.
pub mod Laws
use bitcoin_miner.Base.{
  ℕ, zero, suc, ◌+◌, ◌*◌, ◌-◌, Bool, true, false, ◌&&◌, List, [], ◌∷◌, ◌++◌, reverse, Option, none,
  some, ◌>>=◌, ◌==◌, get_or, replicate, take, drop,
}
use bitcoin_miner.Util.Hex.{to_hex, from_hex_fixed}
use bitcoin_miner.Bitcoin.Sha256.{sha256d}

abbrev pub zero_hash : List ℕ
zero_hash = replicate 32 0

unfoldable pub is_zero_hash : List ℕ → Bool
is_zero_hash [] = true
is_zero_hash (b ∷ bs) = b == 0 && is_zero_hash bs

unfoldable pub to_raw_hex : List ℕ → List ℕ
to_raw_hex hash = to_hex hash

unfoldable pub from_raw_hex : List ℕ → Option (List ℕ)
from_raw_hex hex = from_hex_fixed hex 32

unfoldable pub to_display_hex : List ℕ → List ℕ
to_display_hex hash = to_hex (reverse hash)

unfoldable pub from_display_hex : List ℕ → Option (List ℕ)
from_display_hex hex = do bytes ← from_hex_fixed hex 32; some (reverse bytes)

unfoldable pub double_sha256_concat : List ℕ → List ℕ → List ℕ
double_sha256_concat a b = sha256d (a ++ b)

-- The inner loop of `swapWordBytes`: the four bytes of a word, last first.
abbrev pub swap_word : List ℕ → ℕ → List ℕ
swap_word hash word =
    get_or hash (word * 4 + 3) 0
    ∷ get_or hash (word * 4 + 2) 0
    ∷ get_or hash (word * 4 + 1) 0
    ∷ get_or hash (word * 4 + 0) 0
    ∷ []

-- The outer loop, with the words that are left.
swap_words : ℕ → ℕ → List ℕ → List ℕ
swap_words zero word hash = []
swap_words (suc n) word hash = swap_word hash word ++ swap_words n (word + 1) hash

unfoldable pub swap_word_bytes : List ℕ → List ℕ
unfolding swap_words
swap_word_bytes hash = swap_words 8 0 hash
