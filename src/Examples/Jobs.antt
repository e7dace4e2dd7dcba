-- ===== src/Examples/Jobs.antt =====
-- A job at the lowest network difficulty, the work built from it, and a search over its nonces.
use bitcoin_miner.Base.{
  ℕ, ◌+◌, ◌-◌, ◌*◌, ◌%◌, ◌^◌, ◌≤◌, ◌<◌, Bool, true, false, ◌&&◌, ◌==◌, List, [], ◌∷◌, some, ◌≡◌,
  ◌≢◌, ◌↔◌, ◌⊎◌, refl, arith, if◌then◌else◌, length, replicate, u32,
}
use bitcoin_miner.Base.Bytes.{IsBytes}
use bitcoin_miner.Bitcoin.UInt256.{UInt256, Fits, value, is_zero, compare256}
use bitcoin_miner.Bitcoin.Header.{header_hash, write_le32, set_header_nonce}
use bitcoin_miner.Bitcoin.Sha256.{sha256d}
use bitcoin_miner.Bitcoin.Difficulty.{
  target_from_compact_bits, target_from_share_difficulty, hash_meets_target, decode_compact_bits,
}
use bitcoin_miner.Bitcoin.Difficulty.Decode.{
  compact_negative, decode_compact_bits-flags, value-target_from_compact_bits,
}
use bitcoin_miner.Mining.Work.{
  MiningJob, MiningWork, encode_extranonce2, build_work_with_extranonce2, hash_work_at_nonce,
}
use bitcoin_miner.Mining.Work.Extranonce.{
  be_value, encode_extranonce2-be_value, encode_extranonce2_inj,
}
use bitcoin_miner.Mining.Work.{build_work}
use bitcoin_miner.Mining.Work.Valid.{HasTarget, build_work-valid_iff}
use bitcoin_miner.Mining.Work.Header.{
  IsJob, job_root, build_work-valid, hash_work_at_nonce-header_hash,
}
use bitcoin_miner.Mining.Work.Targets.{build_work-targets}
use bitcoin_miner.Mining.Search.{mine, verify}
use bitcoin_miner.Mining.Search.First.{hash_in_round, mine-first, mine-verify, mine_complete}
use bitcoin_miner.Examples.Doubles.{whole_doubles}

abbrev pub job : MiningJob ℕ
job = record {
  job_id = b'7' ∷ b'f' ∷ [];
  previous_block_hash = replicate 32 0xab;
  coinbase1 = 1 ∷ 0 ∷ 0 ∷ 0 ∷ [];
  coinbase2 = 0xff ∷ 0xff ∷ [];
  merkle_branches = replicate 32 0x17 ∷ [];
  version = 0x20000000;
  n_bits = 0x207fffff;
  n_time = 1700000000;
  clean_jobs = true;
  extranonce1 = 0xca ∷ 0xfe ∷ [];
  extranonce2_size = 2;
  difficulty = 0;
}

abbrev extranonce2 : List ℕ
extranonce2 = 0 ∷ 9 ∷ []

job-IsJob : IsJob job
job-IsJob = ((refl, omega arith), omega arith, omega arith, omega arith)

abbrev work : MiningWork ℕ
work = build_work_with_extranonce2 whole_doubles job extranonce2

work-valid : work.valid ≡ true
work-valid =
    (build_work-valid whole_doubles job extranonce2).1
      (refl, refl, omega (arith, (value-target_from_compact_bits 0x207fffff).0))

build_work-valid_iff_example : ((build_work whole_doubles job 70000).valid ≡ true) ↔ (
    (0 < length job.job_id)
    × (0 < length job.coinbase1)
    × (0 < job.extranonce2_size)
    × HasTarget job.n_bits)
build_work-valid_iff_example = build_work-valid_iff whole_doubles job 70000 (omega arith)

hash_work_at_nonce-header_hash_example :
    hash_work_at_nonce work 5
    ≡ header_hash (record {
      version = 0x20000000;
      previous_block_hash = replicate 32 0xab;
      merkle_root = job_root whole_doubles job extranonce2;
      timestamp = 1700000000;
      bits = 0x207fffff;
      nonce = 5;
    })
hash_work_at_nonce-header_hash_example =
    hash_work_at_nonce-header_hash whole_doubles job extranonce2 5 job-IsJob work-valid

build_work-targets_example :
    (0 < value work.share_target)
    × Fits work.share_target
    × (0 < value work.network_target)
    × Fits work.network_target
    × (work.share_target ≡ (
        if is_zero (target_from_share_difficulty whole_doubles 0)
        then work.network_target
        else target_from_share_difficulty whole_doubles 0))
build_work-targets_example = build_work-targets whole_doubles job extranonce2 work-valid

encode_extranonce2-be_value_example :
    (length (encode_extranonce2 70000 2) ≡ 2)
    × IsBytes (encode_extranonce2 70000 2)
    × (be_value (encode_extranonce2 70000 2) ≡ 70000 % 256 ^ 2)
encode_extranonce2-be_value_example = encode_extranonce2-be_value 70000 2 (omega arith)

encode_extranonce2_inj_example : encode_extranonce2 513 2 ≢ encode_extranonce2 514 2
encode_extranonce2_inj_example =
    encode_extranonce2_inj 513 514 2 (omega arith) (omega arith) (omega arith) (omega arith)
      (λ e. omega (arith, e))

decode_compact_bits-flags_example :
    ((decode_compact_bits 0x04923456).negative ≡ compact_negative 0x04923456)
    × ((decode_compact_bits 0x04923456).overflow ≡ false)
    × ((decode_compact_bits 0x04923456).ok ≡ false)
decode_compact_bits-flags_example = decode_compact_bits-flags 0x04923456

value-target_from_compact_bits_example :
    (value (target_from_compact_bits 0x1b0404cb) ≡ 0x0404cb * 2 ^ 192)
    × Fits (target_from_compact_bits 0x1b0404cb)
value-target_from_compact_bits_example = value-target_from_compact_bits 0x1b0404cb

-- Header bytes of which the search hashes a few before one meets the target.
abbrev pub plain : UInt256 → MiningWork ℕ
plain target = record {
  job_id = [];
  extranonce2 = [];
  header = record {
    version = 0;
    previous_block_hash = replicate 32 0;
    merkle_root = replicate 32 0;
    timestamp = 0;
    bits = 0;
    nonce = 0;
  };
  header_bytes = replicate 80 0;
  coinbase_hash = replicate 32 0;
  merkle_root = replicate 32 0;
  share_target = target;
  share_difficulty = 0;
  network_target = target;
  valid = true;
}

abbrev pub even_chance : MiningWork ℕ
even_chance = plain (record { limb0 = 0; limb1 = 0; limb2 = 0; limb3 = 2 ^ 61 })

abbrev hopeless : MiningWork ℕ
hopeless = plain (record { limb0 = 1; limb1 = 0; limb2 = 0; limb3 = 0 })

unfoldable pub never : ℕ → Bool
never i = false

pub search_finds : (mine never even_chance 4294967295 2).found ≡ true
unfolding mine set_header_nonce write_le32 sha256d hash_meets_target compare256 never
search_finds = refl

pub even_chance-IsBytes : IsBytes even_chance.extranonce2
even_chance-IsBytes = omega arith

search_fails : (mine never hopeless 0 2).found ≡ false
unfolding mine set_header_nonce write_le32 sha256d hash_meets_target compare256 never
search_fails = refl

search_hashes : (mine never hopeless 0 2).hashes_performed ≡ 2
unfolding mine set_header_nonce write_le32 sha256d hash_meets_target compare256 never
search_hashes = refl

mine-verify_example :
    (0 < (mine never even_chance 4294967295 2).hashes_performed)
    × ((mine never even_chance 4294967295 2).hashes_performed ≤ 2)
    × ((mine never even_chance 4294967295 2).nonce
        ≡ u32 (4294967295 + ((mine never even_chance 4294967295 2).hashes_performed - 1)))
    × (verify even_chance (mine never even_chance 4294967295 2).nonce ≡ record {
      hash_out = some (mine never even_chance 4294967295 2).hash;
      meets_share_target = true;
      meets_network_target = (mine never even_chance 4294967295 2).meets_network_target;
      returned = true;
    })
mine-verify_example = mine-verify never even_chance 4294967295 2 refl refl search_finds

mine-first_example :
    hash_meets_target (hash_in_round never hopeless 0 1) hopeless.share_target
    ≡ ((mine never hopeless 0 2).found && (2 == (mine never hopeless 0 2).hashes_performed))
mine-first_example = mine-first never hopeless 0 2 1 refl refl (omega (arith, search_hashes))

mine_complete_example :
    ((mine never hopeless 0 2).hashes_performed ≡ 2)
    ⊎ (((mine never hopeless 0 2).hashes_performed % 4096 ≡ 0)
        × (never (mine never hopeless 0 2).hashes_performed ≡ true))
mine_complete_example = mine_complete never hopeless 0 2 refl refl search_fails
