-- ===== src/Stratum/Client/Session.antt =====
-- `runConnection`, `stop` and the back-off of `threadMain` of src/stratum/client.cpp.
use bitcoin_miner.Base.{
  ℕ, zero, suc, Bool, true, false, ◌||◌, List, [], ◌∷◌, ◌++◌, not, if◌then◌else◌, Text, pos,
  increment64, length, none, some,
}
use bitcoin_miner.Util.Json.{Floats}
use bitcoin_miner.Mining.Controller.{disconnected, connecting, connected, failed, ShareSubmission}
use bitcoin_miner.Stratum.Lines.{append, next_line}
use bitcoin_miner.Stratum.Messages.{Message, parse_message, build_subscribe, build_authorize}
use bitcoin_miner.Stratum.Client.{
  ClientConfig, Client, Output, sent_line, answered, submit_share, Step, set_state, and_next,
  send_line, flush_outbound_queue, handle_message,
}

-- What a turn of the receive loop finds on the socket. `lost` is each reason to leave the loop: an
-- error, the idle timeout, or the end of the stream. `offered` is a worker's call of `submitShare`, which
-- falls between two turns of the loop.
pub data Turn : Type 0 where
  quiet : Turn
  lost : Turn
  received : List ℕ → Turn
  offered : ShareSubmission → Turn

-- How a connection goes on: the step so far, whether the loop goes on, and `reachedAuthorized`.
pub record Progress (D : Type 0) : Type 0 where
  pub client : Client D
  pub outputs : List (Output D)
  pub goes_on : Bool
  pub reached : Bool

module _ (floats : Floats) where
  open floats use {Double, of_int, less, twice}

  -- `lineBuffer_.clear()` empties the buffer, and leaves the flag of its overflow.
  unfoldable pub reset_session : Client Double → Client Double
  reset_session c = record c {
    pending = [];
    outbound = [];
    lines = record c.lines { buffer = [] };
    extranonce1 = [];
    extranonce2_size = 0;
    current_difficulty = of_int (pos 0);
    is_authorized = false;
  }

  -- A line that was taken: a bad message is passed over. `loop` takes the lines after it.
  unfoldable pub take_message :
      (Bool → Client Double → Progress Double)
      → Bool
      → Client Double
      → Message Double
      → Progress Double
  take_message loop reached c message = elim (message.valid) [
    | false ↦ loop reached c
    | true ↦
        let (next, outs) = handle_message floats message c in
        let more = loop (reached || next.is_authorized) next in
        record more { outputs = outs ++ more.outputs }
  ]

  abbrev pub no_line : Bool → Client Double → Progress Double
  no_line reached c = record { client = c; outputs = []; goes_on = true; reached = reached }

  -- `while (lineBuffer_.nextLine(line))`. A round for each byte is enough fuel.
  unfoldable pub take_lines : ℕ → Bool → Client Double → Progress Double
  take_lines zero reached c = no_line reached c
  take_lines (suc fuel) reached c = elim (next_line c.lines) [
    | none ↦ no_line reached c
    | some s ↦
        take_message (take_lines fuel) reached (record c { lines = s.1 }) (parse_message floats s.0)
  ]

  unfoldable pub receive : List ℕ → Bool → Client Double → Progress Double
  receive bytes reached c =
      let lines = append c.lines bytes in
      let filled : Client Double = record c { lines = lines } in
      if lines.overflowed
      then record { client = filled; outputs = []; goes_on = false; reached = reached }
      else take_lines (length lines.buffer) reached filled

  -- The queue is flushed, and then the socket is looked at.
  abbrev pub flush_then :
      ClientConfig
      → (Text → Bool)
      → Client Double
      → (Client Double → Progress Double)
      → Progress Double
  flush_then config sends c look =
      let (flushed, outs) = flush_outbound_queue config sends c in
      let rest = look flushed in record rest { outputs = outs ++ rest.outputs }

  unfoldable pub run_turn :
      ClientConfig → (Text → Bool) → Turn → Bool → Client Double → Progress Double
  run_turn config sends quiet reached c = flush_then config sends c (no_line reached)
  run_turn config sends lost reached c =
      flush_then config sends c (λ d. record (no_line reached d) { goes_on = false })
  run_turn config sends (received bytes) reached c =
      flush_then config sends c (receive bytes reached)
  run_turn config sends (offered share) reached c =
      let (taken, d) = submit_share share c in
      record (no_line reached d) { outputs = answered share taken ∷ [] }

  -- The loop, for as long as no stop is requested: one turn for each of the list.
  unfoldable pub run_turns :
      ClientConfig → (Text → Bool) → List Turn → Bool → Client Double → Progress Double
  run_turns config sends [] reached c = record {
    client = c;
    outputs = [];
    goes_on = true;
    reached = reached;
  }
  run_turns config sends (turn ∷ turns) reached c =
      let first = run_turn config sends turn reached c in
      let rest = run_turns config sends turns first.reached first.client in
      if first.goes_on then record rest { outputs = first.outputs ++ rest.outputs } else first

  -- The two requests, and then the loop.
  unfoldable pub run_session :
      ClientConfig → (Text → Bool) → List Turn → Client Double → Progress Double
  run_session config sends turns c =
      let subscribe = build_subscribe c.next_id config.user_agent in
      let asked : Client Double = record c {
        subscribe_id = c.next_id;
        next_id = increment64 c.next_id;
      } in
      let login = build_authorize asked.next_id config.username config.password in
      let waiting : Client Double = record asked {
        authorize_id = asked.next_id;
        next_id = increment64 asked.next_id;
      } in
      if not (send_line config sends subscribe asked)
      then (let (stopped, outs) = set_state failed asked in
          record { client = stopped; outputs = outs; goes_on = false; reached = false })
      else if not (send_line config sends login waiting)
      then (let (stopped, outs) = set_state failed waiting in
          record {
            client = stopped;
            outputs = sent_line subscribe ∷ outs;
            goes_on = false;
            reached = false;
          })
      else let rest = run_turns config sends turns false waiting in
        record rest { outputs = sent_line subscribe ∷ sent_line login ∷ rest.outputs }

  unfoldable pub close_session : Client Double → Step Double
  close_session c = set_state disconnected (record c { socket_open = false; is_authorized = false })

  -- `connects` is whether `connectTo` gave a socket; the Bool is `reachedAuthorized`.
  unfoldable pub run_connection :
      ClientConfig → (Text → Bool) → Bool → List Turn → Client Double → Step Double × Bool
  run_connection config sends connects turns c =
      let begun = set_state connecting (reset_session c) in
      if not connects
      then (and_next begun λ d. set_state failed d, false)
      else let linked = and_next begun λ d. set_state connected (record d { socket_open = true }) in
        let session = run_session config sends turns linked.0 in
        let (closed, last) = close_session session.client in
        ((closed, linked.1 ++ session.outputs ++ last), session.reached)

  -- The wait before the next connection, and the delay that it starts from.
  unfoldable pub next_delay : Double → Double → Bool → Double → Double × Double
  next_delay initial maximum reached delay =
      let wait = if reached then initial else delay in
      let doubled = twice wait in (wait, if less maximum doubled then maximum else doubled)
