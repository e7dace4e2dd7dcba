-- ===== src/Stratum/Payloads/RoundTrip.antt =====
-- About `parseNotify` of src/stratum/message.cpp: a job written as a pool writes it.
use bitcoin_miner.Base.{ℕ, ◌+◌, ◌^◌, ◌<◌, false, List, [], ◌∷◌, ◌≡◌, refl, pos, All}
use bitcoin_miner.Base.Bytes.{IsBytes}
use bitcoin_miner.Util.Hex.{to_hex}
use bitcoin_miner.Util.Hex.RoundTrip.{from_hex-to_hex}
use bitcoin_miner.Util.Json.{
  Json, Elements, bool, string, array, no_elements, element, Floats, is_empty, at, nth, as_string,
  size, as_bool,
}
use bitcoin_miner.Bitcoin.UInt256.Bytes.{IsHash}
use bitcoin_miner.Bitcoin.Hash.{to_raw_hex}
use bitcoin_miner.Bitcoin.Hash.Laws.{from_raw_hex-to_raw_hex}
use bitcoin_miner.Mining.Work.{MiningJob}
use bitcoin_miner.Stratum.Fields.{to_big_endian_hex32, prev_hash_to_stratum_hex}
use bitcoin_miner.Stratum.Fields.RoundTrip.{parse-to_big_endian_hex32, prev_hash_round_trip}
use bitcoin_miner.Stratum.Payloads.{good, read_branches, branches_of, parse_notify}

-- A job whose fields have the widths of their types.
abbrev pub IsJob : {D : Type 0} → MiningJob D → Type 0
IsJob job =
    (is_empty job.job_id ≡ false)
    × IsHash job.previous_block_hash
    × IsBytes job.coinbase1
    × IsBytes job.coinbase2
    × All IsHash job.merkle_branches
    × (job.version < 2 ^ 32)
    × (job.n_bits < 2 ^ 32)
    × (job.n_time < 2 ^ 32)

abbrev pub branch_texts : {D : Type 0} → List (List ℕ) → Elements D
branch_texts [] = no_elements
branch_texts (b ∷ bs) = element (string (to_raw_hex b)) (branch_texts bs)

-- The nine parameters of `mining.notify`.
abbrev pub notify_params : {D : Type 0} → MiningJob D → Json D
notify_params job = array (
    element (string job.job_id) (
      element (string (prev_hash_to_stratum_hex job.previous_block_hash)) (
        element (string (to_hex job.coinbase1)) (
          element (string (to_hex job.coinbase2)) (
            element (array (branch_texts job.merkle_branches)) (
              element (string (to_big_endian_hex32 job.version)) (
                element (string (to_big_endian_hex32 job.n_bits)) (
                  element (string (to_big_endian_hex32 job.n_time))
                    (element (bool job.clean_jobs) no_elements)))))))))

read_branches-texts :
    (D : Type 0) (i : ℕ) (bs : List (List ℕ))
    → All IsHash bs
    → read_branches {D = D} i (branch_texts bs) ≡ good bs
unfolding read_branches as_string
read_branches-texts D i [] h = refl
read_branches-texts D i (b ∷ bs) h =
    rw (from_raw_hex-to_raw_hex b h.0, read_branches-texts D (i + 1) bs h.1) refl

module _ (floats : Floats) where
  open floats use {Double, of_int}

  -- For a job with a name whose fields have the widths of their types, reading the nine parameters
  -- that a pool writes for it gives the job, with the extranonce and the difficulty left unset.
  pub parse_notify-notify_params :
      (job : MiningJob Double)
      → IsJob job
      → parse_notify floats (notify_params job)
        ≡ good (record job { extranonce1 = []; extranonce2_size = 0; difficulty = of_int (pos 0) })
  unfolding parse_notify at nth as_string size branches_of as_bool
  parse_notify-notify_params job (named, previous, c1, c2, branches, version, n_bits, n_time) =
      rw
        (
          named,
          prev_hash_round_trip job.previous_block_hash previous,
          from_hex-to_hex job.coinbase1 c1,
          from_hex-to_hex job.coinbase2 c2,
          read_branches-texts Double 0 job.merkle_branches branches,
          parse-to_big_endian_hex32 job.version version,
          parse-to_big_endian_hex32 job.n_bits n_bits,
          parse-to_big_endian_hex32 job.n_time n_time,
        )
        refl
