-- ===== src/Mining/Controller.antt =====
-- The class MinerController of src/mining/miner.cpp: the job that its threads share, and what is done
-- with a nonce that a backend reports. Each handler holds the mutex, so handlers run one after another.
pub mod Generations
pub mod Shares
use bitcoin_miner.Base.{
  ℕ, ◌+◌, ◌%◌, ◌^◌, Bool, true, false, List, [], ◌∷◌, ◌++◌, Option, none, some, not, if◌then◌else◌,
  u64,
}
use bitcoin_miner.Util.Hex.{to_hex}
use bitcoin_miner.Bitcoin.UInt256.{UInt256}
use bitcoin_miner.Bitcoin.Hash.{zero_hash}
use bitcoin_miner.Bitcoin.Difficulty.{share_difficulty_of_hash_fixed32}
use bitcoin_miner.Mining.Work.{MiningJob, MiningWork}
use bitcoin_miner.Mining.Search.{MiningResult, Verified, verify}

pub data PoolState : Type 0 where
  disconnected : PoolState
  connecting : PoolState
  connected : PoolState
  subscribed : PoolState
  authorized : PoolState
  failed : PoolState

-- The members under `jobMutex_`, and those of the statistics that the handlers set.
pub record Shared (D : Type 0) : Type 0 where
  pub current_job : MiningJob D
  pub has_job : Bool
  pub job_generation : ℕ
  pub pool_state : PoolState
  pub current_job_id : List ℕ
  pub pool_difficulty : D

-- The calls that the pool client makes.
pub data Event (D : Type 0) : Type 0 where
  job_event : MiningJob D → Event D
  difficulty_event : D → Event D
  pool_event : PoolState → Event D

module _ {D : Type 0} where
  unfoldable pub snapshot_job : Shared D → Option (MiningJob D × ℕ)
  snapshot_job s = if not s.has_job then none else some (s.current_job, s.job_generation)

  unfoldable pub on_job : MiningJob D → Shared D → Shared D
  on_job job s = record s {
    current_job = job;
    has_job = true;
    job_generation = u64 (s.job_generation + 1);
    current_job_id = job.job_id;
  }

  unfoldable pub on_difficulty : D → Shared D → Shared D
  on_difficulty difficulty s =
      let told = record s { pool_difficulty = difficulty } in
      if s.has_job
      then record told {
        current_job = record s.current_job { difficulty = difficulty };
        job_generation = u64 (s.job_generation + 1);
      }
      else told

  abbrev pub drop_job : Shared D → Shared D
  drop_job s = record s { has_job = false; job_generation = u64 (s.job_generation + 1) }

  unfoldable pub on_pool_state : PoolState → Shared D → Shared D
  on_pool_state state s =
      let told = record s { pool_state = state } in
      elim state [ disconnected ↦ drop_job told | failed ↦ drop_job told | _ ↦ told ]

  abbrev pub handle : Event D → Shared D → Shared D
  handle (job_event job) s = on_job job s
  handle (difficulty_event difficulty) s = on_difficulty difficulty s
  handle (pool_event state) s = on_pool_state state s

  abbrev pub handle_all : List (Event D) → Shared D → Shared D
  handle_all [] s = s
  handle_all (e ∷ es) s = handle_all es (handle e s)

-- Without `achievedDifficulty`, which is for display.
pub record ShareSubmission : Type 0 where
  pub job_id : List ℕ
  pub extranonce2_hex : List ℕ
  pub n_time : ℕ
  pub nonce : ℕ
  pub achieved_difficulty_exact : UInt256

-- What `handleFoundNonce` does beside its log lines.
pub data Effect : Type 0 where
  block_found : Effect
  submitted : ShareSubmission → Effect
  stale_share : Effect

abbrev pub submission : {D : Type 0} → MiningWork D → ℕ → List ℕ → ShareSubmission
submission work nonce hash = record {
  job_id = work.job_id;
  extranonce2_hex = to_hex work.extranonce2;
  n_time = work.header.timestamp;
  nonce = nonce;
  achieved_difficulty_exact = share_difficulty_of_hash_fixed32 hash;
}

-- The hash that `verify` leaves in a hash that was zero.
abbrev pub hash_or_zero : Option (List ℕ) → List ℕ
hash_or_zero none = zero_hash
hash_or_zero (some hash) = hash

-- `submit` is what `pool_ && pool_->submitShare(submission)` gives.
unfoldable pub handle_found_nonce :
    {D : Type 0} → (ShareSubmission → Bool) → MiningWork D → ℕ → List Effect
handle_found_nonce submit work nonce =
    let checked = verify work nonce in
    if not checked.meets_share_target
    then []
    else let share = submission work nonce (hash_or_zero checked.hash_out) in
      (if checked.meets_network_target then block_found ∷ [] else [])
      ++ (if submit share then submitted share ∷ [] else stale_share ∷ [])
