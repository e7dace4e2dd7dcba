-- ===== src/Stratum/Payloads.antt =====
-- `parseSubscribeResult` and `parseNotify` of src/stratum/message.cpp.
pub mod RoundTrip
pub mod Subscribe
use bitcoin_miner.Base.{
  ℕ, zero, suc, ◌+◌, ◌-◌, ◌*◌, Bool, true, false, ◌&&◌, ◌||◌, List, [], ◌∷◌, ◌++◌, not, ltb, leb,
  ◌==◌, if◌then◌else◌, Text, codes, ◌=t=◌, ℤ, pos, negsuc, length, Option, none, some,
}
use bitcoin_miner.Util.Hex.{from_hex}
use bitcoin_miner.Util.Json.{
  Json, Elements, null, string, array, no_elements, element, Floats, is_empty, is_array, at, size,
  as_string, as_int, as_bool,
}
use bitcoin_miner.Bitcoin.Hash.{from_raw_hex}
use bitcoin_miner.Mining.Work.{MiningJob}
use bitcoin_miner.Stratum.Fields.{parse_big_endian_hex32, prev_hash_from_stratum_hex}

-- A value, or the text of `error`, one constructor for each; what is written before a failure is
-- never looked at.
pub data Read {ℓ κ} (E : Type ℓ) (A : Type κ) : Type (ℓ ⊔ κ) where
  bad : E → Read E A
  good : A → Read E A

abbrev pub and_read {ℓ κ μ} :
    {E : Type ℓ} {A : Type κ} {B : Type μ} → Read E A → (A → Read E B) → Read E B
and_read (bad e) next = bad e
and_read (good a) next = next a

abbrev pub require {ℓ κ} : {E : Type ℓ} {A : Type κ} → E → Option A → Read E A
require e none = bad e
require e (some a) = good a

pub data SubscribeError : Type 0 where
  not_three_elements : SubscribeError
  empty_extranonce1 : SubscribeError
  bad_extranonce1 : SubscribeError
  size_out_of_range : SubscribeError

pub record SubscribeResult : Type 0 where
  pub extranonce1 : List ℕ
  pub extranonce2_size : ℕ
  pub subscription_id : Text

-- `size <= 0 || size > 32` refuses, and the cast to size_t keeps the rest.
unfoldable pub extranonce_size : ℤ → Option ℕ
extranonce_size (negsuc n) = none
extranonce_size (pos n) = if leb n 0 || ltb 32 n then none else some n

-- The loop over the subscriptions, with the id found so far.
unfoldable pub notify_id : {D : Type 0} → Text → Elements D → Text
notify_id found no_elements = found
notify_id found (element entry rest) =
    let here =
      if is_array entry && leb 2 (size entry) && as_string (at entry 0) [] =t= codes "mining.notify"
      then as_string (at entry 1) []
      else found in
    notify_id here rest

unfoldable pub subscription_of : {D : Type 0} → Json D → Text
subscription_of (array xs) = notify_id [] xs
subscription_of _ = []

pub data NotifyError : Type 0 where
  too_few_parameters : ℕ → NotifyError
  empty_job_id : NotifyError
  invalid_prevhash : NotifyError
  invalid_coinb1 : NotifyError
  invalid_coinb2 : NotifyError
  branch_not_an_array : NotifyError
  invalid_branch : ℕ → NotifyError
  invalid_version : NotifyError
  invalid_nbits : NotifyError
  invalid_ntime : NotifyError

-- The loop over the Merkle branch from the entry i on.
unfoldable pub read_branches : {D : Type 0} → ℕ → Elements D → Read NotifyError (List (List ℕ))
read_branches i no_elements = good []
read_branches i (element entry rest) =
    let later = read_branches (i + 1) rest in
    and_read (require (invalid_branch i) (from_raw_hex (as_string entry [])))
      λ branch. and_read later λ branches. good (branch ∷ branches)

unfoldable pub branches_of : {D : Type 0} → Json D → Read NotifyError (List (List ℕ))
branches_of (array xs) = read_branches 0 xs
branches_of _ = bad branch_not_an_array

module _ (floats : Floats) where
  open floats use {Double, of_int}

  unfoldable pub parse_subscribe_result : Json Double → Read SubscribeError SubscribeResult
  parse_subscribe_result result =
      if not (is_array result) || ltb (size result) 3
      then bad not_three_elements
      else let hex = as_string (at result 1) [] in
        if is_empty hex
        then bad empty_extranonce1
        else and_read (require bad_extranonce1 (from_hex hex)) λ extranonce1.
          and_read
            (require size_out_of_range (extranonce_size (as_int floats (at result 2) (negsuc 0))))
            λ n. good (record {
              extranonce1 = extranonce1;
              extranonce2_size = n;
              subscription_id = subscription_of (at result 0);
            })

  -- The extranonce and the difficulty are for the client to fill in.
  unfoldable pub parse_notify : Json Double → Read NotifyError (MiningJob Double)
  parse_notify params =
      let text = λ (i : ℕ). as_string (at params i) [] in
      if not (is_array params) || ltb (size params) 9
      then bad (too_few_parameters (size params))
      else if is_empty (text 0)
      then bad empty_job_id
      else and_read (require invalid_prevhash (prev_hash_from_stratum_hex (text 1))) λ previous.
        and_read (require invalid_coinb1 (from_hex (text 2))) λ coinbase1.
          and_read (require invalid_coinb2 (from_hex (text 3))) λ coinbase2.
            and_read (branches_of (at params 4)) λ branches.
              and_read (require invalid_version (parse_big_endian_hex32 (text 5))) λ version.
                and_read (require invalid_nbits (parse_big_endian_hex32 (text 6))) λ n_bits.
                  and_read (require invalid_ntime (parse_big_endian_hex32 (text 7))) λ n_time.
                    good (record {
                      job_id = text 0;
                      previous_block_hash = previous;
                      coinbase1 = coinbase1;
                      coinbase2 = coinbase2;
                      merkle_branches = branches;
                      version = version;
                      n_bits = n_bits;
                      n_time = n_time;
                      clean_jobs = as_bool floats (at params 8) false;
                      extranonce1 = [];
                      extranonce2_size = 0;
                      difficulty = of_int (pos 0);
                    })
