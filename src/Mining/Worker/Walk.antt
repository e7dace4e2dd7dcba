-- ===== src/Mining/Worker/Walk.antt =====
-- About the rounds of `workerLoop` of src/mining/miner.cpp.
use bitcoin_miner.Base.{ℕ, ◌+◌, ◌-◌, ◌%◌, ◌^◌, Bool, true, ◌≡◌, refl, ◌∙◌, arith, bit_and, length}
use bitcoin_miner.Base.Bits.{bit_and_low}
use bitcoin_miner.Mining.Work.{MiningWork}
use bitcoin_miner.Mining.Search.{mine}
use bitcoin_miner.Mining.Search.First.{mine-verify}
use bitcoin_miner.Mining.Worker.{Range, chunk_of, next_range}

low_word : (a : ℕ) → bit_and a 0xffffffff ≡ a % 2 ^ 32
low_word a = bit_and_low 32 a

module _ {D : Type 0} (stop : ℕ → Bool) (work : MiningWork D) where
  -- For valid work of 80 header bytes and a round whose search reports a find, the next round
  -- starts at the nonce after those that were hashed, modulo 2 ^ 32, and has one nonce less left
  -- than the round's remaining nonces without those that were hashed, or none.
  pub next_range-mine :
      (chunk_size : ℕ) (range : Range)
      → work.valid ≡ true
      → length work.header_bytes ≡ 80
      → (mine stop work range.nonce (chunk_of chunk_size range)).found ≡ true
      → (let result = mine stop work range.nonce (chunk_of chunk_size range) in
          let next = next_range chunk_size range result in
          (next.nonce ≡ (range.nonce + result.hashes_performed) % 2 ^ 32)
          × (next.remaining ≡ range.remaining - (result.hashes_performed + 1)))
  unfolding next_range
  next_range-mine chunk_size range valid bytes won =
      let result = mine stop work range.nonce (chunk_of chunk_size range) in
      let (some_hash, _, nonce_is, _) =
        mine-verify stop work range.nonce (chunk_of chunk_size range) valid bytes won in
      let next_nonce : bit_and (result.nonce + 1) 0xffffffff
          ≡ (range.nonce + result.hashes_performed) % 2 ^ 32 =
        low_word (result.nonce + 1) ∙ omega (arith, nonce_is, some_hash) in
      rw (won, next_nonce) (refl, ground arith)
