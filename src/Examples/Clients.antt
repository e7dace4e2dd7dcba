-- ===== src/Examples/Clients.antt =====
-- Sessions of a client with a pool, at which the theorems about src/stratum/client.cpp are applied.
use bitcoin_miner.Base.{
  Bool, true, false, List, [], ◌∷◌, ◌++◌, ◌≡◌, refl, arith, Text, codes, ℤ, pos,
}
use bitcoin_miner.Stratum.Client.Receipt.{IsDrained, receive-IsDrained}
use bitcoin_miner.Stratum.Client.Session.{receive}
use bitcoin_miner.Bitcoin.UInt256.{from_word}
use bitcoin_miner.Util.Json.{Json, null, bool, number, as_string, as_int}
use bitcoin_miner.Mining.Controller.{authorized, ShareSubmission}
use bitcoin_miner.Stratum.Messages.{Message, no_error}
use bitcoin_miner.Stratum.Messages.Delivery.{no_bytes, drain-line, parse_message-members}
use bitcoin_miner.Stratum.Client.{
  ClientConfig, Client, handle_submit_response, flush_outbound_queue, find_pending,
}
use bitcoin_miner.Stratum.Client.Session.{Turn, quiet, received, offered, run_turns, run_connection}
use bitcoin_miner.Stratum.Client.Login.Lines.{Refuses, received_lines}
use bitcoin_miner.Stratum.Client.Login.Refused.{EndsRefused, run_connection-EndsRefused}
use bitcoin_miner.Stratum.Lines.{LineBuffer, append}
use bitcoin_miner.Stratum.Messages.{parse_message, read_members}
use bitcoin_miner.Stratum.Client.Login.{grants}
use bitcoin_miner.Util.Json.{as_bool, object, member, no_members, find, lookup, has}
use bitcoin_miner.Util.Json.Writer.{dump, dump_to}
use bitcoin_miner.Util.Json.Parser.{max_depth}
use bitcoin_miner.Util.Json.Readable.{IsReadable, height}
use bitcoin_miner.Util.Json.RoundTrip.{parse-dump}
use bitcoin_miner.Util.Json.Printable.{dump-IsPrintable}
use bitcoin_miner.Base.{ap, sym, subst, ◌≤◌, if◌then◌else◌}
use bitcoin_miner.Base.Texts.{◌=t=◌}
use bitcoin_miner.Stratum.Client.Invariant.{IsSound, handle_submit_response-once}
use bitcoin_miner.Stratum.Client.Runs.{ProgressSound, run_turns-ProgressSound}
use bitcoin_miner.Stratum.Client.Overflow.{run_connection-overflowed}
use bitcoin_miner.Stratum.Client.Flush.{IsSent, IsFresh, flush_outbound_queue-IsSent}
use bitcoin_miner.Examples.Floats.{whole_floats}

abbrev share : ShareSubmission
share = record {
  job_id = codes "j1";
  extranonce2_hex = codes "00000001";
  n_time = 0x5f5e1000;
  nonce = 42;
  achieved_difficulty_exact = from_word 5;
}

-- A session that waits for the answer to request 3, with one more share to send.
abbrev session : Client ℤ
session = record {
  state = authorized;
  socket_open = true;
  lines = record { buffer = []; overflowed = false };
  outbound = share ∷ [];
  pending = (pos 3, share) ∷ [];
  subscribe_id = pos 1;
  authorize_id = pos 2;
  next_id = pos 4;
  extranonce1 = 10 ∷ 11 ∷ [];
  extranonce2_size = 4;
  current_difficulty = pos 1;
  is_authorized = true;
}

session-IsSound : IsSound whole_floats session
session-IsSound = record {
  sized = omega arith;
  distinct = (unfold find_pending in refl, tt);
  logged_in = λ e. refl;
}

abbrev accepting : Message ℤ
accepting = record {
  valid = true;
  parse_error = no_error;
  has_id = true;
  id = pos 3;
  method = [];
  params = null;
  result = bool true;
  error = null;
}

abbrev user : ClientConfig
user = record { username = codes "me"; password = codes "x"; user_agent = codes "miner/0.1" }

abbrev takes_all : Text → Bool
takes_all line = true

handle_submit_response-once_example :
    (let after = (handle_submit_response whole_floats accepting session).0 in
      handle_submit_response whole_floats accepting after ≡ (after, []))
handle_submit_response-once_example =
    handle_submit_response-once whole_floats accepting accepting session session-IsSound refl

-- A worker hands in a share, which is sent in the next turn, and the pool answers the first one.
abbrev busy : List Turn
busy = offered share ∷ quiet ∷ received (codes "{\"id\":3,\"result\":true}\n") ∷ []

run_turns-ProgressSound_example :
    ProgressSound whole_floats (run_turns whole_floats user takes_all busy false session)
run_turns-ProgressSound_example =
    run_turns-ProgressSound whole_floats user takes_all busy false session session-IsSound

abbrev denial : Json ℤ
denial = object (
    member (codes "id") (number (pos 5))
      (member (codes "result") (bool false) (member (codes "error") null no_members)))

denial-IsReadable : IsReadable whole_floats denial
unfolding IsReadable find ◌=t=◌
denial-IsReadable = (refl, (pos 5, omega arith, refl), (refl, tt, (refl, tt, tt)))

denial_low : height denial ≤ max_depth
unfolding height
denial_low = omega arith

abbrev denied : Text
denied = dump whole_floats 0 denial

denied-refused : grants whole_floats (pos 5) (parse_message whole_floats denied) ≡ false
unfolding read_members find ◌=t=◌ lookup has as_string as_int as_bool dump dump_to
denied-refused = ap (grants whole_floats (pos 5)) (
    parse_message-members whole_floats denied _ refl
      (parse-dump whole_floats denial 0 denial-IsReadable denial_low))

-- A worker hands in a share before the pool refuses the login.
abbrev refusal : List Turn
refusal = offered share ∷ received (denied ++ b'\n' ∷ []) ∷ []

refusal-Refuses : Refuses whole_floats (pos 5) (received_lines no_bytes refusal)
unfolding received_lines
refusal-Refuses =
    one_line (append no_bytes (denied ++ b'\n' ∷ [])).overflowed _
      (drain-line denied (dump-IsPrintable whole_floats denial denial-IsReadable))
  where
    one_line :
        (b : Bool) (d : List Text × LineBuffer)
        → d ≡ (denied ∷ [], no_bytes)
        → Refuses whole_floats (pos 5) (if b then [] else d.0 ++ received_lines d.1 [])
    one_line true d e = tt
    one_line false d e =
        subst (λ r. Refuses whole_floats (pos 5) (r.0 ++ received_lines r.1 [])) (sym e)
          (denied-refused, tt)

run_connection-EndsRefused_example :
    (let ended = run_connection whole_floats user takes_all true refusal session in
      EndsRefused whole_floats user takes_all (pos 4) ended.0.1 ended.1)
run_connection-EndsRefused_example =
    run_connection-EndsRefused whole_floats user takes_all true refusal session refusal-Refuses

abbrev deaf : Client ℤ
deaf = record session { lines = record { buffer = []; overflowed = true } }

run_connection-overflowed_example :
    (let ended =
        run_connection whole_floats user takes_all true
          (received (codes "{\"id\":1}\n") ∷ [])
          deaf in
      (ended.1 ≡ false) × (ended.0.0.lines.overflowed ≡ true))
run_connection-overflowed_example =
    run_connection-overflowed whole_floats user takes_all true
      (received (codes "{\"id\":1}\n") ∷ []) deaf refl

session-IsFresh : IsFresh 4 session.pending
unfolding find_pending
session-IsFresh k le = ground arith

flush_outbound_queue-IsSent_example :
    IsSent whole_floats user takes_all 4 session.outbound
      (record session { outbound = [] })
      (flush_outbound_queue user takes_all session)
flush_outbound_queue-IsSent_example =
    flush_outbound_queue-IsSent whole_floats user takes_all 4 session refl (omega arith)
      session-IsFresh refl (λ line. refl)

receive-IsDrained_example :
    IsDrained whole_floats
      (append session.lines (codes "{\"id\":1}\n{"))
      (receive whole_floats (codes "{\"id\":1}\n{") false session)
unfolding append
receive-IsDrained_example =
    receive-IsDrained whole_floats (codes "{\"id\":1}\n{") false session refl
