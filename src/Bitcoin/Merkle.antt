-- ===== src/Bitcoin/Merkle.antt =====
-- src/bitcoin/merkle.hpp and merkle.cpp. A level is the list of its hashes, the coinbase first.
pub mod Branch
use bitcoin_miner.Base.{
  ℕ, zero, suc, ◌%◌, Bool, true, false, List, [], ◌∷◌, ◌++◌, not, ltb, ◌==◌, if◌then◌else◌, length,
  get_or,
}
use bitcoin_miner.Bitcoin.Hash.{double_sha256_concat, zero_hash}

-- `level.back()` of a level that is not empty.
abbrev pub back : List ℕ → List (List ℕ) → List ℕ
back a [] = a
back a (b ∷ bs) = back b bs

-- `if (level.size() % 2 != 0) level.push_back(level.back())`.
unfoldable pub pad_level : List (List ℕ) → List (List ℕ)
pad_level [] = []
pad_level (a ∷ rest) =
    if not (length (a ∷ rest) % 2 == 0) then a ∷ (rest ++ back a rest ∷ []) else a ∷ rest

-- The loop over the pairs of a level of even size.
unfoldable pub pair_up : List (List ℕ) → List (List ℕ)
pair_up [] = []
pair_up (a ∷ []) = []
pair_up (a ∷ b ∷ rest) = double_sha256_concat a b ∷ pair_up rest

abbrev pub next_level : List (List ℕ) → List (List ℕ)
next_level level = pair_up (pad_level level)

-- `while (level.size() > 1)`. A round halves the level, so a round for each leaf is enough fuel.
unfoldable pub root_loop : ℕ → List (List ℕ) → List (List ℕ)
root_loop zero level = level
root_loop (suc fuel) level =
    let rest = root_loop fuel (next_level level) in if ltb 1 (length level) then rest else level

unfoldable pub merkle_root_from_leaves : List (List ℕ) → List ℕ
merkle_root_from_leaves [] = zero_hash
merkle_root_from_leaves (a ∷ rest) = get_or (root_loop (length (a ∷ rest)) (a ∷ rest)) 0 zero_hash

unfoldable pub merkle_root_from_branch : List ℕ → List (List ℕ) → List ℕ
merkle_root_from_branch acc [] = acc
merkle_root_from_branch acc (b ∷ bs) = merkle_root_from_branch (double_sha256_concat acc b) bs

unfoldable pub branch_loop : ℕ → List (List ℕ) → List (List ℕ) → List (List ℕ)
branch_loop zero level branch = branch
branch_loop (suc fuel) level branch =
    let rest =
      branch_loop fuel (next_level level) (branch ++ get_or (pad_level level) 1 zero_hash ∷ []) in
    if ltb 1 (length level) then rest else branch

unfoldable pub merkle_branch_for_coinbase : List (List ℕ) → List (List ℕ)
merkle_branch_for_coinbase leaves = branch_loop (length leaves) leaves []
