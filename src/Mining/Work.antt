-- ===== src/Mining/Work.antt =====
-- src/mining/work.hpp and work.cpp: a pool's job, and the header and targets built from it.
pub mod Extranonce
pub mod Header
pub mod Targets
pub mod Valid
use bitcoin_miner.Base.{
  ℕ, zero, suc, ◌+◌, ◌-◌, ◌*◌, Bool, true, false, ◌&&◌, ◌||◌, List, [], ◌∷◌, ◌++◌, not, ltb, leb,
  ◌==◌, if◌then◌else◌, u8, ◌>>>◌, length, replicate,
}
use bitcoin_miner.Bitcoin.UInt256.{UInt256, zero256, is_zero}
use bitcoin_miner.Bitcoin.Sha256.{sha256d}
use bitcoin_miner.Bitcoin.Hash.{zero_hash}
use bitcoin_miner.Bitcoin.Header.{BlockHeader, serialize, set_header_nonce}
use bitcoin_miner.Bitcoin.Merkle.{merkle_root_from_branch}
use bitcoin_miner.Bitcoin.Difficulty.{
  Doubles, target_from_compact_bits, target_from_share_difficulty,
}

-- A string is the list of its characters.
pub record MiningJob (D : Type 0) : Type 0 where
  pub job_id : List ℕ
  pub previous_block_hash : List ℕ
  pub coinbase1 : List ℕ
  pub coinbase2 : List ℕ
  pub merkle_branches : List (List ℕ)
  pub version : ℕ
  pub n_bits : ℕ
  pub n_time : ℕ
  pub clean_jobs : Bool
  pub extranonce1 : List ℕ
  pub extranonce2_size : ℕ
  pub difficulty : D

pub record MiningWork (D : Type 0) : Type 0 where
  pub job_id : List ℕ
  pub extranonce2 : List ℕ
  pub header : BlockHeader
  pub header_bytes : List ℕ
  pub coinbase_hash : List ℕ
  pub merkle_root : List ℕ
  pub share_target : UInt256
  pub share_difficulty : D
  pub network_target : UInt256
  pub valid : Bool

abbrev pub empty {ℓ} : {A : Type ℓ} → List A → Bool
empty [] = true
empty (x ∷ xs) = false

-- `MiningJob::valid`.
abbrev pub job_valid : {D : Type 0} → MiningJob D → Bool
job_valid job = not (empty job.job_id) && not (empty job.coinbase1) && ltb 0 job.extranonce2_size

abbrev pub build_coinbase : List ℕ → List ℕ → List ℕ → List ℕ → List ℕ
build_coinbase coinbase1 extranonce1 extranonce2 coinbase2 =
    coinbase1 ++ (extranonce1 ++ (extranonce2 ++ coinbase2))

-- The loop from index i on, with the bytes it still has to write and those at the end of `out` that
-- are written. The `break` leaves the bytes before them as they were, zero.
pub extranonce2_loop : ℕ → ℕ → ℕ → List ℕ → List ℕ
extranonce2_loop zero i counter written = written
extranonce2_loop (suc left) i counter written =
    let rest = extranonce2_loop left (i + 1) counter (u8 (counter >>> (8 * i)) ∷ written) in
    if leb 64 (8 * i) then replicate (suc left) 0 ++ written else rest

unfoldable pub encode_extranonce2 : ℕ → ℕ → List ℕ
unfolding extranonce2_loop
encode_extranonce2 counter size = extranonce2_loop size 0 counter []

-- The members' initial values, with what the function sets before it first returns.
abbrev pub blank_work : {D : Type 0} → D → List ℕ → List ℕ → MiningWork D
blank_work naught job_id extranonce2 = record {
  job_id = job_id;
  extranonce2 = extranonce2;
  header = record {
    version = 0;
    previous_block_hash = zero_hash;
    merkle_root = zero_hash;
    timestamp = 0;
    bits = 0;
    nonce = 0;
  };
  header_bytes = replicate 80 0;
  coinbase_hash = zero_hash;
  merkle_root = zero_hash;
  share_target = zero256;
  share_difficulty = naught;
  network_target = zero256;
  valid = false;
}

-- The header of step 4, for a Merkle root.
abbrev pub job_header : {D : Type 0} → MiningJob D → List ℕ → BlockHeader
job_header job root = record {
  version = job.version;
  previous_block_hash = job.previous_block_hash;
  merkle_root = root;
  timestamp = job.n_time;
  bits = job.n_bits;
  nonce = 0;
}

module _ (doubles : Doubles) where
  open doubles use {Double, whole}

  -- The share target with its fallback to the network target.
  unfoldable pub share_target_or_network : Double → UInt256 → UInt256
  share_target_or_network difficulty network =
      let share = target_from_share_difficulty doubles difficulty in
      if is_zero share then network else share

  -- Steps 1 to 5.
  unfoldable pub assemble_work : MiningJob Double → List ℕ → MiningWork Double
  assemble_work job extranonce2 =
      let coinbase = build_coinbase job.coinbase1 job.extranonce1 extranonce2 job.coinbase2 in
      let coinbase_hash = sha256d coinbase in
      let root = merkle_root_from_branch coinbase_hash job.merkle_branches in
      let header = job_header job root in
      let network = target_from_compact_bits job.n_bits in
      record {
        job_id = job.job_id;
        extranonce2 = extranonce2;
        header = header;
        header_bytes = serialize header;
        coinbase_hash = coinbase_hash;
        merkle_root = root;
        share_target = share_target_or_network job.difficulty network;
        share_difficulty = job.difficulty;
        network_target = network;
        valid = not (is_zero network);
      }

  unfoldable pub build_work_with_extranonce2 : MiningJob Double → List ℕ → MiningWork Double
  build_work_with_extranonce2 job extranonce2 =
      if not (job_valid job) || not (length extranonce2 == job.extranonce2_size)
      then blank_work (whole 0) job.job_id extranonce2
      else assemble_work job extranonce2

  unfoldable pub build_work : MiningJob Double → ℕ → MiningWork Double
  build_work job counter =
      build_work_with_extranonce2 job (encode_extranonce2 counter job.extranonce2_size)

unfoldable pub hash_work_at_nonce : {D : Type 0} → MiningWork D → ℕ → List ℕ
hash_work_at_nonce work nonce = sha256d (set_header_nonce work.header_bytes nonce)
