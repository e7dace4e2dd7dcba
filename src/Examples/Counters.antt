-- ===== src/Examples/Counters.antt =====
-- Samples and shares, at which the theorems about src/mining/stats.cpp are applied.
use bitcoin_miner.Base.{false, List, [], ◌∷◌, ◌++◌, ◌≡◌, arith, ℤ, pos}
use bitcoin_miner.Bitcoin.UInt256.{UInt256, zero256, from_word}
use bitcoin_miner.Mining.Controller.{disconnected}
use bitcoin_miner.Mining.Statistics.{Statistics, Sample, stopped, hashrate_over_window}
use bitcoin_miner.Mining.Statistics.Window.{add_all, history, hashrate_over_window-add_all}
use bitcoin_miner.Mining.Statistics.Best.{record_all, IsBest, record_all-IsBest}

abbrev counters : Statistics ℤ
counters = record {
  total_hashes = 0;
  accepted_shares = 0;
  rejected_shares = 0;
  stale_shares = 0;
  blocks_found = 0;
  mining_state = stopped;
  pool_state = disconnected;
  samples = [];
  session_hashes = 0;
  process_start = 0;
  session_start = 0;
  session_active = false;
  best_share_difficulty = zero256;
  best_share_difficulty_approx = pos 0;
  last_reject_reason = [];
  current_job_id = [];
  pool_description = [];
  pool_difficulty = pos 0;
}

abbrev batches : List Sample
batches = record { time = 1000; hashes = 50 } ∷ record { time = 90000; hashes = 70 } ∷ []

hashrate_over_window-add_all_example :
    hashrate_over_window 95000 10000 (add_all batches counters).samples
    ≡ hashrate_over_window 95000 10000 (counters.samples ++ history batches)
hashrate_over_window-add_all_example =
    hashrate_over_window-add_all batches 0 95000 10000 counters
      (omega arith, (omega arith, omega arith)) (omega arith)

abbrev accepted : List (UInt256 × ℤ)
accepted = (from_word 5, pos 5) ∷ (from_word 3, pos 3) ∷ []

record_all-IsBest_example : IsBest accepted counters (record_all accepted counters)
record_all-IsBest_example =
    record_all-IsBest accepted counters (omega arith, (omega arith, tt)) (omega arith)
