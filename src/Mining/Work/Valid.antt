-- ===== src/Mining/Work/Valid.antt =====
-- About `MiningJob::valid` of src/mining/work.hpp and `buildWork` of src/mining/work.cpp: from which
-- jobs work is built.
use bitcoin_miner.Base.{ℕ, ◌^◌, ◌<◌, true, false, List, [], ◌∷◌, length, not, ◌≡◌, ◌↔◌, arith}
use bitcoin_miner.Bitcoin.UInt256.{value}
use bitcoin_miner.Bitcoin.Difficulty.{Doubles, target_from_compact_bits}
use bitcoin_miner.Bitcoin.Difficulty.Decode.{
  compact_negative, unsigned_number, value-target_from_compact_bits,
}
use bitcoin_miner.Mining.Work.{MiningJob, empty, job_valid, encode_extranonce2, build_work}
use bitcoin_miner.Mining.Work.Extranonce.{encode_extranonce2-be_value}
use bitcoin_miner.Mining.Work.Header.{build_work-valid}

empty_iff : (xs : List ℕ) → (not (empty xs) ≡ true) ↔ (0 < length xs)
empty_iff [] = ground arith
empty_iff (x ∷ xs) = ground arith

job_valid_iff :
    {D : Type 0} (job : MiningJob D)
    → (job_valid job ≡ true)
      ↔ ((0 < length job.job_id) × (0 < length job.coinbase1) × (0 < job.extranonce2_size))
job_valid_iff job = ground (arith, empty_iff job.job_id, empty_iff job.coinbase1)

-- A positive target below 2 ^ 256.
abbrev pub HasTarget : ℕ → Type 0
HasTarget n_bits =
    (compact_negative n_bits ≡ false)
    × (0 < unsigned_number n_bits)
    × (unsigned_number n_bits < 2 ^ 256)

target_iff : (n : ℕ) → (0 < value (target_from_compact_bits n)) ↔ HasTarget n
target_iff n = ground (arith, (value-target_from_compact_bits n).0)

module _ (doubles : Doubles) where
  open doubles use {Double}

  -- For a counter below 2 ^ 64, the work built from a job is valid exactly when the job's name and
  -- the first half of its coinbase are not empty, its extranonce2 size is not zero, and its compact
  -- bits stand for a number that is not negative, is positive once the bytes below the point are
  -- cut off, and is below 2 ^ 256.
  pub build_work-valid_iff :
      (job : MiningJob Double) (counter : ℕ)
      → counter < 2 ^ 64
      → ((build_work doubles job counter).valid ≡ true) ↔ (
          (0 < length job.job_id)
          × (0 < length job.coinbase1)
          × (0 < job.extranonce2_size)
          × HasTarget job.n_bits)
  unfolding build_work
  build_work-valid_iff job counter small =
      let (complete, named) = job_valid_iff job in
      let (shown, decoded) = target_iff job.n_bits in
      let (needs, enough) =
        build_work-valid doubles job (encode_extranonce2 counter job.extranonce2_size) in
      (
        λ e.
            let (good, _, target) = needs e in
            let (a, b, c) = complete good in (a, b, c, shown target),
        λ h. enough (
          named (h.0, h.1, h.2),
          (encode_extranonce2-be_value counter job.extranonce2_size small).0,
          decoded h.3,
        ),
      )
