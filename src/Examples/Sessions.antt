-- ===== src/Examples/Sessions.antt =====
-- Messages and payloads of src/stratum/message.cpp, at which the theorems about them are applied.
use bitcoin_miner.Base.{true, [], ◌∷◌, ◌≡◌, refl, arith, codes, ℤ, pos, replicate}
use bitcoin_miner.Util.Json.{
  Json, number, string, array, no_elements, element, size, at, nth, as_string, as_int,
}
use bitcoin_miner.Util.Hex.{from_hex, hex_value}
use bitcoin_miner.Mining.Work.{MiningJob}
use bitcoin_miner.Stratum.Messages.{build_subscribe, build_authorize, build_submit}
use bitcoin_miner.Stratum.Messages.Delivery.{IsDelivered, requests-IsDelivered}
use bitcoin_miner.Stratum.Payloads.{
  good, parse_notify, parse_subscribe_result, SubscribeResult, extranonce_size, subscription_of,
  notify_id,
}
use bitcoin_miner.Stratum.Payloads.RoundTrip.{IsJob, notify_params, parse_notify-notify_params}
use bitcoin_miner.Stratum.Payloads.Subscribe.{Says, parse_subscribe_result-Says}
use bitcoin_miner.Examples.Floats.{whole_floats}

requests-IsDelivered_example :
    IsDelivered whole_floats
      (build_subscribe (pos 1) (codes "miner/0.1"))
      (pos 1)
      (codes "mining.subscribe")
      (codes "miner/0.1" ∷ [])
    × IsDelivered whole_floats
        (build_authorize (pos 1) (codes "me\n") (codes "x"))
        (pos 1)
        (codes "mining.authorize")
        (codes "me\n" ∷ codes "x" ∷ [])
    × IsDelivered whole_floats
        (build_submit
          (pos 1)
          (codes "me\n")
          (codes "j\"1")
          (codes "00")
          (codes "5f5e1000")
          (codes "0000002a"))
        (pos 1)
        (codes "mining.submit")
        (codes "me\n" ∷ codes "j\"1" ∷ codes "00" ∷ codes "5f5e1000" ∷ codes "0000002a" ∷ [])
requests-IsDelivered_example =
    requests-IsDelivered whole_floats (pos 1) (codes "miner/0.1") (codes "me\n") (codes "x")
      (codes "j\"1") (codes "00") (codes "5f5e1000") (codes "0000002a") (omega arith)

abbrev told_job : MiningJob ℤ
told_job = record {
  job_id = codes "j1";
  previous_block_hash = replicate 32 7;
  coinbase1 = 1 ∷ 2 ∷ [];
  coinbase2 = 3 ∷ [];
  merkle_branches = replicate 32 9 ∷ [];
  version = 0x20000000;
  n_bits = 0x1d00ffff;
  n_time = 0x5f5e1000;
  clean_jobs = true;
  extranonce1 = [];
  extranonce2_size = 0;
  difficulty = pos 0;
}

told_job-IsJob : IsJob told_job
told_job-IsJob = (
  refl,
  (refl, omega arith),
  omega arith,
  omega arith,
  ((refl, omega arith), tt),
  omega arith,
  omega arith,
  omega arith,
)

parse_notify-notify_params_example :
    parse_notify whole_floats (notify_params told_job)
    ≡ good (record told_job { extranonce1 = []; extranonce2_size = 0; difficulty = pos 0 })
parse_notify-notify_params_example = parse_notify-notify_params whole_floats told_job told_job-IsJob

abbrev welcome : Json ℤ
welcome = array (
    element (array no_elements)
      (element (string (codes "0a0b")) (element (number (pos 4)) no_elements)))

abbrev welcomed : SubscribeResult
welcomed = record { extranonce1 = 10 ∷ 11 ∷ []; extranonce2_size = 4; subscription_id = [] }

welcome_read : parse_subscribe_result whole_floats welcome ≡ good welcomed
unfolding parse_subscribe_result size at nth as_string as_int extranonce_size from_hex hex_value
    subscription_of notify_id
welcome_read = refl

parse_subscribe_result-Says_example : Says whole_floats welcome welcomed
parse_subscribe_result-Says_example =
    parse_subscribe_result-Says whole_floats welcome welcomed welcome_read
