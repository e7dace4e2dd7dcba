-- ===== src/Mining/Statistics.antt =====
-- The class Statistics of src/mining/stats.hpp and stats.cpp. A reading of the clock is an argument, in
-- milliseconds. Each rate is the sum of the hashes and the time that it is divided by, `none` for the
-- 0.0 of too little data.
pub mod Window
pub mod Best
use bitcoin_miner.Base.{
  ℕ, zero, suc, ◌+◌, ◌-◌, ◌*◌, ◌%◌, ◌^◌, Bool, true, false, ◌&&◌, ◌||◌, List, [], ◌∷◌, ◌++◌, not,
  ltb, leb, ◌==◌, if◌then◌else◌, u64, Text, codes, Option, none, some, min,
}
use bitcoin_miner.Bitcoin.UInt256.{UInt256, zero256, is_zero, gt256}
use bitcoin_miner.Mining.Controller.{
  PoolState, disconnected, connecting, connected, subscribed, authorized, failed,
}
use bitcoin_miner.Util.Json.{
  Json, Floats, null, bool, number, string, object, no_members, set, is_empty,
}

pub data MiningState : Type 0 where
  stopped : MiningState
  starting : MiningState
  running : MiningState
  stopping : MiningState
  in_error : MiningState

unfoldable pub mining_state_text : MiningState → Text
mining_state_text stopped = codes "stopped"
mining_state_text starting = codes "starting"
mining_state_text running = codes "running"
mining_state_text stopping = codes "stopping"
mining_state_text in_error = codes "error"

unfoldable pub pool_state_text : PoolState → Text
pool_state_text disconnected = codes "disconnected"
pool_state_text connecting = codes "connecting"
pool_state_text connected = codes "connected"
pool_state_text subscribed = codes "subscribed"
pool_state_text authorized = codes "authorized"
pool_state_text failed = codes "error"

pub record Sample : Type 0 where
  pub time : ℕ
  pub hashes : ℕ

-- `D` is `double`.
pub record Statistics (D : Type 0) : Type 0 where
  pub total_hashes : ℕ
  pub accepted_shares : ℕ
  pub rejected_shares : ℕ
  pub stale_shares : ℕ
  pub blocks_found : ℕ
  pub mining_state : MiningState
  pub pool_state : PoolState
  pub samples : List Sample
  pub session_hashes : ℕ
  pub process_start : ℕ
  pub session_start : ℕ
  pub session_active : Bool
  pub best_share_difficulty : UInt256
  pub best_share_difficulty_approx : D
  pub last_reject_reason : Text
  pub current_job_id : Text
  pub pool_description : Text
  pub pool_difficulty : D

-- `samples_.front().time < now - 70 s`, in a signed clock.
abbrev pub is_old : ℕ → ℕ → Sample → Bool
is_old now window sample = ltb (sample.time + window) now

unfoldable pub prune_samples : ℕ → List Sample → List Sample
prune_samples now [] = []
prune_samples now (s ∷ rest) =
    let later = prune_samples now rest in if is_old now 70000 s then later else s ∷ rest

-- One turn of the loop of `hashrateOverWindow`, which keeps the sum and the time of the earliest sample.
unfoldable pub count_sample : ℕ → ℕ → Sample → ℕ × ℕ → ℕ × ℕ
count_sample now window s (hashes, earliest) =
    if is_old now window s
    then (hashes, earliest)
    else (u64 (hashes + s.hashes), if ltb s.time earliest then s.time else earliest)

unfoldable pub window_loop : ℕ → ℕ → List Sample → ℕ × ℕ → ℕ × ℕ
window_loop now window [] acc = acc
window_loop now window (s ∷ rest) acc = window_loop now window rest (count_sample now window s acc)

-- A number of hashes over a span of time.
unfoldable pub rate : ℕ → ℕ → Option (ℕ × ℕ)
rate hashes elapsed = if elapsed == 0 then none else some (hashes, elapsed)

unfoldable pub hashrate_over_window : ℕ → ℕ → List Sample → Option (ℕ × ℕ)
hashrate_over_window now window samples =
    let (hashes, earliest) = window_loop now window samples (0, now) in
    if hashes == 0 then none else rate hashes (now - earliest)

module _ {D : Type 0} where
  unfoldable pub add_hashes : ℕ → ℕ → Statistics D → Statistics D
  add_hashes now n s = if n == 0 then s else record s {
    total_hashes = u64 (s.total_hashes + n);
    session_hashes = u64 (s.session_hashes + n);
    samples = prune_samples now (s.samples ++ record { time = now; hashes = n } ∷ []);
  }

  unfoldable pub hashrate_10s : ℕ → Statistics D → Option (ℕ × ℕ)
  hashrate_10s now s = hashrate_over_window now 10000 s.samples

  unfoldable pub hashrate_60s : ℕ → Statistics D → Option (ℕ × ℕ)
  hashrate_60s now s = hashrate_over_window now 60000 s.samples

  unfoldable pub session_average_hashrate : ℕ → Statistics D → Option (ℕ × ℕ)
  session_average_hashrate now s =
      if not s.session_active && s.session_hashes == 0
      then none
      else rate s.session_hashes (now - s.session_start)

  unfoldable pub record_accepted_share : UInt256 → D → Statistics D → Statistics D
  record_accepted_share difficulty approx s =
      let counted : Statistics D = record s { accepted_shares = u64 (s.accepted_shares + 1) } in
      if gt256 difficulty s.best_share_difficulty
      then record counted {
        best_share_difficulty = difficulty;
        best_share_difficulty_approx = approx;
      }
      else counted

  unfoldable pub record_rejected_share : Text → Statistics D → Statistics D
  record_rejected_share reason s = record s {
    rejected_shares = u64 (s.rejected_shares + 1);
    last_reject_reason = reason;
  }

  unfoldable pub record_stale_share : Statistics D → Statistics D
  record_stale_share s = record s { stale_shares = u64 (s.stale_shares + 1) }

  unfoldable pub record_block_found : Statistics D → Statistics D
  record_block_found s = record s { blocks_found = u64 (s.blocks_found + 1) }

  -- `naught` is 0.0.
  unfoldable pub begin_session : D → ℕ → Statistics D → Statistics D
  begin_session naught now s = record s {
    session_start = now;
    session_hashes = 0;
    session_active = true;
    samples = [];
    best_share_difficulty = zero256;
    best_share_difficulty_approx = naught;
    last_reject_reason = [];
    current_job_id = [];
  }

  unfoldable pub end_session : Statistics D → Statistics D
  end_session s = record s { session_active = false; samples = [] }
