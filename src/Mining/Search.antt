-- ===== src/Mining/Search.antt =====
-- src/mining/backend.hpp and the class CpuReferenceMiner of src/mining/miner.cpp: the nonce search, and
-- the check of one nonce.
pub mod First
use bitcoin_miner.Base.{
  ℕ, zero, suc, ◌+◌, ◌%◌, Bool, true, false, ◌&&◌, List, [], ◌∷◌, Option, none, some, not, ◌==◌,
  if◌then◌else◌, u32,
}
use bitcoin_miner.Bitcoin.Sha256.{sha256d}
use bitcoin_miner.Bitcoin.Hash.{zero_hash}
use bitcoin_miner.Bitcoin.Header.{set_header_nonce}
use bitcoin_miner.Bitcoin.Difficulty.{hash_meets_target}
use bitcoin_miner.Mining.Work.{MiningWork, hash_work_at_nonce}

-- Without `elapsedSeconds`, which the clock gives.
pub record MiningResult : Type 0 where
  pub found : Bool
  pub nonce : ℕ
  pub hash : List ℕ
  pub meets_network_target : Bool
  pub hashes_performed : ℕ
  pub error : Bool
  pub error_message : List ℕ

abbrev pub blank_result : MiningResult
blank_result = record {
  found = false;
  nonce = 0;
  hash = zero_hash;
  meets_network_target = false;
  hashes_performed = 0;
  error = false;
  error_message = [];
}

-- `MiningResult::failure`.
abbrev pub failure : List ℕ → MiningResult
failure message = record blank_result { error = true; error_message = message }

-- "invalid work".
abbrev pub invalid_work : List ℕ
invalid_work = 105 ∷ 110 ∷ 118 ∷ 97 ∷ 108 ∷ 105 ∷ 100 ∷ 32 ∷ 119 ∷ 111 ∷ 114 ∷ 107 ∷ []

module _ {D : Type 0} where
  -- The loop with the rounds it has left: its counter, the header's bytes as the last round left them,
  -- and the hashes performed. `stop i` is what loading the stop flag in round i gives.
  pub search_loop : (ℕ → Bool) → MiningWork D → ℕ → ℕ → ℕ → List ℕ → ℕ → MiningResult
  search_loop stop work start zero i header performed = record blank_result {
    hashes_performed = performed;
  }
  search_loop stop work start (suc left) i header performed =
      let nonce = u32 (start + i) in
      let header' = set_header_nonce header nonce in
      let hash = sha256d header' in
      let rest = search_loop stop work start left (i + 1) header' (performed + 1) in
      if (i % 4096 == 0) && stop i
      then record blank_result { hashes_performed = performed }
      else if hash_meets_target hash work.share_target
      then record blank_result {
        found = true;
        nonce = nonce;
        hash = hash;
        meets_network_target = hash_meets_target hash work.network_target;
        hashes_performed = performed + 1;
      }
      else rest

  -- `CpuReferenceMiner::mine`.
  unfoldable pub mine : (ℕ → Bool) → MiningWork D → ℕ → ℕ → MiningResult
  unfolding search_loop
  mine stop work start nonce_count =
      if not work.valid
      then failure invalid_work
      else if nonce_count == 0
      then blank_result
      else search_loop stop work start nonce_count 0 work.header_bytes 0

-- What `verify` returns and writes through its references; it leaves `hashOut` alone on invalid work.
pub record Verified : Type 0 where
  pub hash_out : Option (List ℕ)
  pub meets_share_target : Bool
  pub meets_network_target : Bool
  pub returned : Bool

unfoldable pub verify : {D : Type 0} → MiningWork D → ℕ → Verified
verify work nonce =
    if not work.valid
    then record {
      hash_out = none;
      meets_share_target = false;
      meets_network_target = false;
      returned = false;
    }
    else let hash = hash_work_at_nonce work nonce in
      let share = hash_meets_target hash work.share_target in
      record {
        hash_out = some hash;
        meets_share_target = share;
        meets_network_target = hash_meets_target hash work.network_target;
        returned = share;
      }
