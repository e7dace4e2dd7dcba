-- ===== src/Stratum/Client.antt =====
-- The class StratumClient of src/stratum/client.hpp and client.cpp: one session with a pool. The
-- socket is what its calls give back: whether a line was sent, and the bytes that were received.
-- Log lines and the texts of the state's details are left out.
pub mod Session
pub mod Submit
pub mod Pending
pub mod Invariant
pub mod Runs
pub mod Overflow
pub mod Flush
pub mod Receipt
pub mod Login
use bitcoin_miner.Base.{
  ℕ, zero, suc, ◌+◌, Bool, true, false, ◌&&◌, ◌||◌, List, [], ◌∷◌, ◌++◌, not, ltb, leb, ◌==◌,
  if◌then◌else◌, Text, codes, ◌=t=◌, ℤ, pos, negsuc, ◌=z=◌, increment64, Option, none, some,
}
use bitcoin_miner.Util.Hex.{from_hex}
use bitcoin_miner.Util.Json.{
  Json, Floats, is_empty, is_null, is_array, at, size, as_string, as_int, as_bool, as_number,
}
use bitcoin_miner.Mining.Work.{MiningJob}
use bitcoin_miner.Mining.Controller.{
  PoolState, disconnected, connecting, connected, subscribed, authorized, failed, ShareSubmission,
}
use bitcoin_miner.Stratum.Fields.{to_big_endian_hex32}
use bitcoin_miner.Stratum.Lines.{LineBuffer, append, next_line}
use bitcoin_miner.Stratum.Messages.{
  Message, is_notification, is_error, error_message, parse_message, build_subscribe,
  build_authorize, build_submit,
}
use bitcoin_miner.Stratum.Payloads.{
  Read, bad, good, parse_subscribe_result, parse_notify, extranonce_size,
}

-- Of `ClientConfig`, what the session reads.
pub record ClientConfig : Type 0 where
  pub username : Text
  pub password : Text
  pub user_agent : Text

-- The members of the class, the socket as whether there is one. `pending` is the map from request
-- ids to shares, each id once.
pub record Client (D : Type 0) : Type 0 where
  pub state : PoolState
  pub socket_open : Bool
  pub lines : LineBuffer
  pub outbound : List ShareSubmission
  pub pending : List (ℤ × ShareSubmission)
  pub subscribe_id : ℤ
  pub authorize_id : ℤ
  pub next_id : ℤ
  pub extranonce1 : List ℕ
  pub extranonce2_size : ℕ
  pub current_difficulty : D
  pub is_authorized : Bool

-- The callbacks, the lines that are sent, the shutdown of the socket, and what `submitShare` returns
-- to a worker.
pub data Output (D : Type 0) : Type 0 where
  job_out : MiningJob D → Output D
  difficulty_out : D → Output D
  submit_result : ShareSubmission → Bool → Text → Output D
  state_change : PoolState → Output D
  sent_line : Text → Output D
  shut_down : Output D
  answered : ShareSubmission → Bool → Output D

abbrev pub Step : Type 0 → Type 0
Step D = Client D × List (Output D)

module _ {D : Type 0} where
  unfoldable pub set_state : PoolState → Client D → Step D
  set_state state c = (record c { state = state }, state_change state ∷ [])

  -- One after the other, with what both put out.
  abbrev pub and_next : Step D → (Client D → Step D) → Step D
  and_next (c, outs) next = let (d, more) = next c in (d, outs ++ more)

  -- Queued only when authorized; otherwise the caller is told.
  unfoldable pub submit_share : ShareSubmission → Client D → Bool × Client D
  submit_share share c = elim (c.state) [
    | authorized ↦ (true, record c { outbound = c.outbound ++ share ∷ [] })
    | _ ↦ (false, c)
  ]

-- `pendingSubmits_.find`, and `erase` of what it finds.
unfoldable pub find_pending : ℤ → List (ℤ × ShareSubmission) → Option ShareSubmission
find_pending id [] = none
find_pending id ((k, share) ∷ rest) =
    let later = find_pending id rest in if k =z= id then some share else later

unfoldable pub erase_pending : ℤ → List (ℤ × ShareSubmission) → List (ℤ × ShareSubmission)
erase_pending id [] = []
erase_pending id ((k, share) ∷ rest) =
    let later = erase_pending id rest in if k =z= id then rest else (k, share) ∷ later

-- `pendingSubmits_[id] = ...`, which replaces the entry that the id may have.
unfoldable pub put_pending :
    ℤ → ShareSubmission → List (ℤ × ShareSubmission) → List (ℤ × ShareSubmission)
put_pending id share [] = (id, share) ∷ []
put_pending id share ((k, old) ∷ rest) =
    let later = put_pending id share rest in
    if k =z= id then (k, share) ∷ rest else (k, old) ∷ later

abbrev pub submit_line : ClientConfig → ℤ → ShareSubmission → Text
submit_line config id share =
    build_submit id config.username share.job_id share.extranonce2_hex
      (to_big_endian_hex32 share.n_time) (to_big_endian_hex32 share.nonce)

module _ {D : Type 0} (config : ClientConfig) (sends : Text → Bool) where
  -- `sendLine`: `sends` is whether the socket took all of the line.
  abbrev pub send_line : Text → Client D → Bool
  send_line line c = c.socket_open && sends line

  -- One turn of the loop of `flushOutboundQueue`. The entry is made before the line is sent, and taken
  -- away when that fails.
  unfoldable pub flush_share : ShareSubmission → Client D → Step D
  flush_share share c =
      let id = c.next_id in
      let line = submit_line config id share in
      let entered = record c {
        next_id = increment64 id;
        pending = put_pending id share c.pending;
      } in
      if send_line line c
      then (entered, sent_line line ∷ [])
      else (record entered { pending = erase_pending id entered.pending }, [])

  unfoldable pub flush_shares : List ShareSubmission → Client D → Step D
  flush_shares [] c = (c, [])
  flush_shares (share ∷ rest) c = and_next (flush_share share c) λ d. flush_shares rest d

  unfoldable pub flush_outbound_queue : Client D → Step D
  flush_outbound_queue c = flush_shares c.outbound (record c { outbound = [] })

module _ (floats : Floats) where
  open floats use {Double, of_int, less}

  unfoldable pub handle_subscribe : Message Double → Client Double → Step Double
  handle_subscribe message c =
      if is_error message
      then set_state failed c
      else elim (parse_subscribe_result floats message.result) [
        | bad e ↦ set_state failed c
        | good r ↦
            set_state subscribed
              (record c { extranonce1 = r.extranonce1; extranonce2_size = r.extranonce2_size })
      ]

  abbrev pub says_true : Message Double → Bool
  says_true message = not (is_error message) && as_bool floats message.result false

  unfoldable pub handle_authorize : Message Double → Client Double → Step Double
  handle_authorize message c =
      if not (says_true message)
      then set_state failed c
      else set_state authorized (record c { is_authorized = true })

  abbrev pub reject_reason : Message Double → Text
  reject_reason message =
      if says_true message
      then []
      else if is_error message
      then error_message floats message.error
      else codes "pool returned false"

  unfoldable pub handle_submit_response : Message Double → Client Double → Step Double
  handle_submit_response message c = elim (find_pending message.id c.pending) [
    | none ↦ (c, [])
    | some share ↦ (
      record c { pending = erase_pending message.id c.pending },
      submit_result share (says_true message) (reject_reason message) ∷ [],
    )
  ]

  unfoldable pub handle_response : Message Double → Client Double → Step Double
  handle_response message c =
      if message.id =z= c.subscribe_id
      then handle_subscribe message c
      else if message.id =z= c.authorize_id
      then handle_authorize message c
      else handle_submit_response message c

  unfoldable pub set_difficulty : Json Double → Client Double → Step Double
  set_difficulty params c =
      if not (is_array params) || ltb (size params) 1
      then (c, [])
      else let difficulty = as_number floats (at params 0) (of_int (pos 0)) in
        if not (less (of_int (pos 0)) difficulty)
        then (c, [])
        else (record c { current_difficulty = difficulty }, difficulty_out difficulty ∷ [])

  unfoldable pub set_extranonce : Json Double → Client Double → Step Double
  set_extranonce params c =
      if not (is_array params) || ltb (size params) 2
      then (c, [])
      else elim (from_hex (as_string (at params 0) [])) [
        | none ↦ (c, [])
        | some bytes ↦ elim (extranonce_size (as_int floats (at params 1) (negsuc 0))) [
          | none ↦ (c, [])
          | some n ↦ (record c { extranonce1 = bytes; extranonce2_size = n }, [])
        ]
      ]

  unfoldable pub handle_notify : Json Double → Client Double → Step Double
  handle_notify params c = elim (parse_notify floats params) [
    | bad e ↦ (c, [])
    | good job ↦ if c.extranonce2_size == 0 then (c, []) else (
      c,
      job_out (record job {
        extranonce1 = c.extranonce1;
        extranonce2_size = c.extranonce2_size;
        difficulty = c.current_difficulty;
      })
          ∷ [],
    )
  ]

  unfoldable pub handle_notification : Message Double → Client Double → Step Double
  handle_notification message c =
      if message.method =t= codes "mining.set_difficulty"
      then set_difficulty message.params c
      else if message.method =t= codes "mining.set_extranonce"
      then set_extranonce message.params c
      else if message.method =t= codes "mining.notify"
      then handle_notify message.params c
      else if message.method =t= codes "client.reconnect"
      then (c, if c.socket_open then shut_down ∷ [] else [])
      else (c, [])

  unfoldable pub handle_message : Message Double → Client Double → Step Double
  handle_message message c =
      if is_notification message then handle_notification message c else handle_response message c
