-- ===== src/Examples/Protocol.antt =====
-- A stream cut in the middle of a line, field texts, and the events of a session.
use bitcoin_miner.Base.{
  ◌^◌, ◌+◌, ◌-◌, ◌%◌, ℕ, Bool, true, false, List, [], ◌∷◌, ◌++◌, ◌≡◌, refl, arith,
}
use bitcoin_miner.Mining.Search.{mine}
use bitcoin_miner.Mining.Worker.{Range, next_range}
use bitcoin_miner.Mining.Worker.Walk.{next_range-mine}
use bitcoin_miner.Mining.Controller.{
  connected, disconnected, Shared, Event, difficulty_event, pool_event, snapshot_job, handle_all,
  on_difficulty, on_pool_state, ShareSubmission, handle_found_nonce,
}
use bitcoin_miner.Mining.Controller.Generations.{handle_all-snapshot_job}
use bitcoin_miner.Mining.Controller.Shares.{Answers, handle_found_nonce-Answers}
use bitcoin_miner.Mining.Work.{hash_work_at_nonce}
use bitcoin_miner.Stratum.Lines.{LineBuffer, append, drain}
use bitcoin_miner.Stratum.Lines.Chunks.{drain-append}
use bitcoin_miner.Examples.Jobs.{job, even_chance, even_chance-IsBytes, never, search_finds}

abbrev started : LineBuffer
started = record { buffer = b'a' ∷ b'b' ∷ []; overflowed = false }

abbrev read1 : List ℕ
read1 = b'c' ∷ 13 ∷ 10 ∷ b'd' ∷ []

abbrev read2 : List ℕ
read2 = b'e' ∷ 10 ∷ b'f' ∷ []

drain-append_example :
    (let first = drain (append started read1) in
      let second = drain (append first.1 read2) in (first.0 ++ second.0, second.1))
    ≡ drain (append started (read1 ++ read2))
drain-append_example = drain-append started read1 read2 refl (omega arith)

abbrev idle : Shared ℕ
idle = record {
  current_job = job;
  has_job = false;
  job_generation = 7;
  pool_state = disconnected;
  current_job_id = [];
  pool_difficulty = 0;
}

abbrev quiet_events : List (Event ℕ)
quiet_events = pool_event connected ∷ difficulty_event 16 ∷ []

quiet-generation : (handle_all quiet_events idle).job_generation ≡ 7
unfolding on_difficulty on_pool_state
quiet-generation = refl

handle_all-snapshot_job_example : snapshot_job (handle_all quiet_events idle) ≡ snapshot_job idle
handle_all-snapshot_job_example =
    handle_all-snapshot_job quiet_events idle (omega arith) quiet-generation

abbrev accepts : ShareSubmission → Bool
accepts share = true

handle_found_nonce-Answers_example :
    Answers accepts even_chance
      (handle_found_nonce accepts even_chance 0)
      0
      (hash_work_at_nonce even_chance 0)
handle_found_nonce-Answers_example =
    handle_found_nonce-Answers accepts even_chance 0 refl even_chance-IsBytes

abbrev last_two : Range
last_two = record { nonce = 4294967295; remaining = 2 }

next_range-mine_example :
    (let result = mine never even_chance 4294967295 2 in
      ((next_range 2 last_two result).nonce ≡ (4294967295 + result.hashes_performed) % 2 ^ 32)
      × ((next_range 2 last_two result).remaining ≡ 2 - (result.hashes_performed + 1)))
next_range-mine_example = next_range-mine never even_chance 2 last_two refl refl search_finds
