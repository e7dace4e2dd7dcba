-- ===== src/Examples/Targets.antt =====
-- Targets and the hashes that meet them.
use bitcoin_miner.Base.{
  ℕ, ◌*◌, ◌/◌, ◌^◌, ◌≤◌, ◌<◌, true, List, ◌++◌, ◌≡◌, ◌↔◌, refl, arith, replicate,
}
use bitcoin_miner.Base.Bytes.{le_value}
use bitcoin_miner.Bitcoin.UInt256.{Fits, value}
use bitcoin_miner.Bitcoin.UInt256.Bytes.{IsHash}
use bitcoin_miner.Bitcoin.Difficulty.{
  difficulty_one_target, hash_meets_target, target_from_share_difficulty,
  share_difficulty_of_hash_fixed32,
}
use bitcoin_miner.Bitcoin.Difficulty.Share.{
  hash_meets_target_iff, InRange, scaled_one, value-target_from_share_difficulty, meets-difficulty,
}
use bitcoin_miner.Examples.Doubles.{whole_doubles}

-- Its last six bytes are zero, so it is below the difficulty-1 target.
abbrev low_hash : List ℕ
low_hash = replicate 26 0x5a ++ replicate 6 0

abbrev high_hash : List ℕ
high_hash = replicate 32 0xff

low-IsHash : IsHash low_hash
low-IsHash = (refl, omega arith)

high-IsHash : IsHash high_hash
high-IsHash = (refl, omega arith)

hash_meets_target_iff_example :
    (hash_meets_target low_hash difficulty_one_target ≡ true)
    ↔ ((0 < value difficulty_one_target) × (le_value low_hash ≤ value difficulty_one_target))
hash_meets_target_iff_example =
    hash_meets_target_iff low_hash difficulty_one_target low-IsHash (omega arith)

thousand-InRange : InRange whole_doubles 1000
thousand-InRange = (refl, refl, refl)

value-target_from_share_difficulty_example :
    (value (target_from_share_difficulty whole_doubles 1000) ≡ scaled_one / (1000 * 2 ^ 32))
    × Fits (target_from_share_difficulty whole_doubles 1000)
value-target_from_share_difficulty_example =
    value-target_from_share_difficulty whole_doubles 1000 thousand-InRange

meets-difficulty_example :
    (hash_meets_target low_hash (target_from_share_difficulty whole_doubles 1000) ≡ true)
    ↔ (1000 * 2 ^ 32 ≤ value (share_difficulty_of_hash_fixed32 low_hash))
meets-difficulty_example =
    meets-difficulty whole_doubles 1000 low_hash thousand-InRange low-IsHash (omega arith)
