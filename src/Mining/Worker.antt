-- ===== src/Mining/Worker.antt =====
-- The inner loop of `workerLoop` in src/mining/miner.cpp: how a worker walks over the nonces.
pub mod Walk
use bitcoin_miner.Base.{
  ℕ, ◌+◌, ◌-◌, ◌*◌, ◌/◌, ◌%◌, ◌^◌, Bool, true, false, ltb, ◌==◌, if◌then◌else◌, bit_and, u64, leb,
  ◌<<<◌,
}
use bitcoin_miner.Mining.Search.{MiningResult}

pub record Range : Type 0 where
  pub nonce : ℕ
  pub remaining : ℕ

-- The start of a worker's region, for the size of the table of workers.
unfoldable pub first_nonce : ℕ → ℕ → ℕ
first_nonce worker_index workers =
    bit_and (u64 (worker_index <<< 32) / (if workers == 0 then 1 else workers)) 0xffffffff

abbrev pub first_range : ℕ → ℕ → Range
first_range worker_index workers = record {
  nonce = first_nonce worker_index workers;
  remaining = 0x100000000;
}

abbrev pub chunk_of : ℕ → Range → ℕ
chunk_of chunk_size range = if ltb range.remaining chunk_size then range.remaining else chunk_size

-- `a - b` on uint64_t, which wraps below zero.
abbrev pub sub64 : ℕ → ℕ → ℕ
sub64 a b = if leb b a then a - b else a + 2 ^ 64 - b

-- What a round leaves to the next, after a result that is no error.
unfoldable pub next_range : ℕ → Range → MiningResult → Range
next_range chunk_size range result =
    if result.found
    then record {
      nonce = bit_and (result.nonce + 1) 0xffffffff;
      remaining =
          if ltb (result.hashes_performed + 1) range.remaining
          then sub64 range.remaining (result.hashes_performed + 1)
          else 0;
    }
    else record {
      nonce = bit_and (range.nonce + chunk_of chunk_size range) 0xffffffff;
      remaining = sub64 range.remaining (chunk_of chunk_size range);
    }
