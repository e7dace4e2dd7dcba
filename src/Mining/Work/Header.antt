-- ===== src/Mining/Work/Header.antt =====
-- About `buildWorkWithExtranonce2` and `hashWorkAtNonce` of src/mining/work.cpp: the header and its
-- hash.
use bitcoin_miner.Base.{
  ℕ, ◌^◌, ◌<◌, true, List, [], ◌∷◌, ◌++◌, ◌≡◌, refl, ap, ◌↔◌, arith, Bool-cases, inl, inr, length,
  ◌==◌, ==_iff,
}
use bitcoin_miner.Bitcoin.UInt256.{value}
use bitcoin_miner.Bitcoin.UInt256.Bytes.{IsHash}
use bitcoin_miner.Bitcoin.UInt256.Order.{is_zero_iff}
use bitcoin_miner.Bitcoin.Sha256.{sha256d}
use bitcoin_miner.Bitcoin.Sha256.Size.{sha256d-IsHash}
use bitcoin_miner.Bitcoin.Hash.{double_sha256_concat}
use bitcoin_miner.Bitcoin.Header.{header_hash}
use bitcoin_miner.Bitcoin.Header.Laws.{IsHeader, set_header_nonce-serialize}
use bitcoin_miner.Bitcoin.Merkle.{merkle_root_from_branch}
use bitcoin_miner.Bitcoin.Difficulty.{Doubles, target_from_compact_bits}
use bitcoin_miner.Mining.Work.{
  MiningJob, job_valid, job_header, assemble_work, build_work_with_extranonce2, hash_work_at_nonce,
}

double_sha256_concat-IsHash : (a b : List ℕ) → IsHash (double_sha256_concat a b)
unfolding double_sha256_concat
double_sha256_concat-IsHash a b = sha256d-IsHash _

pub merkle_root_from_branch-IsHash :
    (acc : List ℕ) (branch : List (List ℕ))
    → IsHash acc
    → IsHash (merkle_root_from_branch acc branch)
unfolding merkle_root_from_branch
merkle_root_from_branch-IsHash acc [] h = h
merkle_root_from_branch-IsHash acc (b ∷ bs) h =
    merkle_root_from_branch-IsHash (double_sha256_concat acc b) bs
      (double_sha256_concat-IsHash acc b)

-- The widths that the fields of a job have in the code.
abbrev pub IsJob : {D : Type 0} → MiningJob D → Type 0
IsJob job =
    IsHash job.previous_block_hash
    × (job.version < 2 ^ 32)
    × (job.n_bits < 2 ^ 32)
    × (job.n_time < 2 ^ 32)

module _ (doubles : Doubles) where
  open doubles use {Double}

  -- The Merkle root of the job's coinbase: the two halves, and between them the extranonce1 and this
  -- extranonce2.
  abbrev pub job_root : MiningJob Double → List ℕ → List ℕ
  job_root job extranonce2 =
      merkle_root_from_branch
        (sha256d (job.coinbase1 ++ (job.extranonce1 ++ (extranonce2 ++ job.coinbase2))))
        job.merkle_branches

  job_header-IsHeader :
      (job : MiningJob Double) (extranonce2 : List ℕ)
      → IsJob job
      → IsHeader (job_header job (job_root job extranonce2))
  job_header-IsHeader job extranonce2 (previous, version, bits, time) = (
    version,
    previous,
    merkle_root_from_branch-IsHash _ job.merkle_branches (sha256d-IsHash _),
    time,
    bits,
    omega arith,
  )

  -- The work built from a job and an extranonce2 is valid exactly when the job is complete, the
  -- extranonce2 has the size that the job asks for, and the network target of the job's compact
  -- bits is not zero.
  pub build_work-valid :
      (job : MiningJob Double) (extranonce2 : List ℕ)
      → ((build_work_with_extranonce2 doubles job extranonce2).valid ≡ true) ↔ (
          (job_valid job ≡ true)
          × (length extranonce2 ≡ job.extranonce2_size)
          × (0 < value (target_from_compact_bits job.n_bits)))
  unfolding build_work_with_extranonce2 assemble_work
  build_work-valid job extranonce2 =
      let zero = is_zero_iff (target_from_compact_bits job.n_bits) in
      elim (Bool-cases (job_valid job)) [
        | inr bad ↦ rw bad (λ e. cc, λ e. cc)
        | inl good ↦ elim (Bool-cases (length extranonce2 == job.extranonce2_size)) [
          | inr off ↦ rw (good, off) (λ e. cc, ground (arith, off))
          | inl fits ↦ rw (good, fits) (ground (arith, fits, zero))
        ]
      ]

  pub built :
      (job : MiningJob Double) (extranonce2 : List ℕ)
      → (build_work_with_extranonce2 doubles job extranonce2).valid ≡ true
      → build_work_with_extranonce2 doubles job extranonce2 ≡ assemble_work doubles job extranonce2
  unfolding build_work_with_extranonce2
  built job extranonce2 valid =
      let (good, fits, _) = (build_work-valid job extranonce2).0 valid in
      rw (good, (==_iff _ _).1 fits) refl

  -- For a job whose fields have their widths and an extranonce2 from which valid work is built, the
  -- hash of the work at a nonce is the hash of the block header that has the job's version,
  -- previous block, time and bits, the Merkle root folded from the job's coinbase with this
  -- extranonce2, and that nonce.
  pub hash_work_at_nonce-header_hash :
      (job : MiningJob Double) (extranonce2 : List ℕ) (nonce : ℕ)
      → IsJob job
      → (build_work_with_extranonce2 doubles job extranonce2).valid ≡ true
      → hash_work_at_nonce (build_work_with_extranonce2 doubles job extranonce2) nonce
        ≡ header_hash (record {
          version = job.version;
          previous_block_hash = job.previous_block_hash;
          merkle_root = job_root job extranonce2;
          timestamp = job.n_time;
          bits = job.n_bits;
          nonce = nonce;
        })
  unfolding hash_work_at_nonce header_hash assemble_work
  hash_work_at_nonce-header_hash job extranonce2 nonce widths valid =
      rw (built job extranonce2 valid) (
        ap sha256d (
          set_header_nonce-serialize (job_header job (job_root job extranonce2))
            (job_header-IsHeader job extranonce2 widths) nonce))
