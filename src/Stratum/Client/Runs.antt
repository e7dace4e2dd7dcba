-- ===== src/Stratum/Client/Runs.antt =====
-- About `runConnection` of src/stratum/client.cpp: what holds over a whole connection.
use bitcoin_miner.Base.{
  inl, inr, ℕ, zero, suc, Bool, true, false, ◌||◌, List, [], ◌∷◌, ◌++◌, sym, subst, arith, not,
  if◌then◌else◌, Text, increment64, Option, none, some, All, All-append,
}
use bitcoin_miner.Util.Json.{Floats}
use bitcoin_miner.Mining.Controller.{disconnected, connecting, connected, failed, ShareSubmission}
use bitcoin_miner.Stratum.Lines.{LineBuffer, append, next_line}
use bitcoin_miner.Stratum.Messages.{Message, parse_message, build_subscribe, build_authorize}
use bitcoin_miner.Stratum.Client.{
  ClientConfig, Client, Output, answered, Step, set_state, and_next, send_line, submit_line,
  flush_share, flush_shares, flush_outbound_queue, handle_message,
}
use bitcoin_miner.Stratum.Client.Pending.{erase-IsDistinct, put-IsDistinct}
use bitcoin_miner.Stratum.Client.Submit.{submit_share-cases}
use bitcoin_miner.Stratum.Client.Invariant.{
  IsSound, IsTold, StepSound, sound-if, set_state-StepSound, handle_message-StepSound,
}
use bitcoin_miner.Stratum.Client.Session.{
  Turn, quiet, lost, received, offered, Progress, reset_session, take_message, no_line, take_lines,
  receive, run_turn, run_turns, run_session, close_session, run_connection,
}

module _ (floats : Floats) where
  open floats use {Double, of_int}

  abbrev pub ProgressSound : Progress Double → Type 0
  ProgressSound p = IsSound floats p.client × All (IsTold floats) p.outputs

  -- More outputs before those of the progress.
  before :
      (outs : List (Output Double)) (p : Progress Double)
      → All (IsTold floats) outs
      → ProgressSound p
      → ProgressSound (record p { outputs = outs ++ p.outputs })
  before outs p h k = (k.0, All-append (IsTold floats) outs p.outputs h k.1)

  progress-if :
      (b : Bool) (x y : Progress Double)
      → ProgressSound x
      → ProgressSound y
      → ProgressSound (if b then x else y)
  progress-if true x y hx hy = hx
  progress-if false x y hx hy = hy

  and_next-StepSound :
      (x : Step Double) (next : Client Double → Step Double)
      → StepSound floats x
      → ((c : Client Double) → IsSound floats c → StepSound floats (next c))
      → StepSound floats (and_next x next)
  and_next-StepSound (c, outs) next h k =
      ((k c h.0).0, All-append (IsTold floats) outs (next c).1 h.1 (k c h.0).1)

  module _ (config : ClientConfig) (sends : Text → Bool) where
    flush_share-StepSound :
        (share : ShareSubmission) (c : Client Double)
        → IsSound floats c
        → StepSound floats (flush_share config sends share c)
    unfolding flush_share
    flush_share-StepSound share c h =
        sound-if floats (send_line config sends (submit_line config c.next_id share) c) _ _
          (λ _. (
            record {
              sized = h.sized;
              distinct = put-IsDistinct c.next_id share c.pending h.distinct;
              logged_in = h.logged_in;
            },
            (tt, tt),
          ))
          (λ _. (
            record {
              sized = h.sized;
              distinct =
                  erase-IsDistinct c.next_id _
                    (put-IsDistinct c.next_id share c.pending h.distinct);
              logged_in = h.logged_in;
            },
            tt,
          ))

    flush_shares-StepSound :
        (shares : List ShareSubmission) (c : Client Double)
        → IsSound floats c
        → StepSound floats (flush_shares config sends shares c)
    unfolding flush_shares
    flush_shares-StepSound [] c h = (h, tt)
    flush_shares-StepSound (share ∷ rest) c h =
        and_next-StepSound (flush_share config sends share c) _ (flush_share-StepSound share c h)
          (λ d. flush_shares-StepSound rest d)

    flush-StepSound :
        (c : Client Double)
        → IsSound floats c
        → StepSound floats (flush_outbound_queue config sends c)
    unfolding flush_outbound_queue
    flush-StepSound c h =
        flush_shares-StepSound c.outbound _
          (record { sized = h.sized; distinct = h.distinct; logged_in = h.logged_in })

    take_message-ProgressSound :
        (loop : Bool → Client Double → Progress Double) (reached : Bool) (c : Client Double)
        (m : Message Double)
        → ((r : Bool) (d : Client Double) → IsSound floats d → ProgressSound (loop r d))
        → IsSound floats c
        → ProgressSound (take_message floats loop reached c m)
    unfolding take_message
    take_message-ProgressSound loop reached c m k h = go (m.valid)
      where
        go :
            (b : Bool)
            → ProgressSound (elim b [
              | false ↦ loop reached c
              | true ↦
                  let (next, outs) = handle_message floats m c in
                  let more = loop (reached || next.is_authorized) next in
                  record more { outputs = outs ++ more.outputs }
            ])
        go false = k reached c h
        go true =
            let (sound, told) = handle_message-StepSound floats m c h in
            before _ (loop _ _) told (k _ _ sound)

    take_lines-ProgressSound :
        (fuel : ℕ) (reached : Bool) (c : Client Double)
        → IsSound floats c
        → ProgressSound (take_lines floats fuel reached c)
    unfolding take_lines
    take_lines-ProgressSound zero reached c h = (h, tt)
    take_lines-ProgressSound (suc fuel) reached c h =
        go (take_lines-ProgressSound fuel) (next_line c.lines)
      where
        go :
            ((r : Bool) (d : Client Double)
              → IsSound floats d
              → ProgressSound (take_lines floats fuel r d))
            → (o : Option (List ℕ × LineBuffer))
            → ProgressSound (elim o [
              | none ↦ no_line floats reached c
              | some s ↦
                  take_message floats
                    (take_lines floats fuel)
                    reached
                    (record c { lines = s.1 })
                    (parse_message floats s.0)
            ])
        go k none = (h, tt)
        go k (some s) =
            take_message-ProgressSound (take_lines floats fuel) reached _ _ k
              (record { sized = h.sized; distinct = h.distinct; logged_in = h.logged_in })

    receive-ProgressSound :
        (bytes : List ℕ) (reached : Bool) (c : Client Double)
        → IsSound floats c
        → ProgressSound (receive floats bytes reached c)
    unfolding receive
    receive-ProgressSound bytes reached c h =
        progress-if (append c.lines bytes).overflowed _ _
          (record { sized = h.sized; distinct = h.distinct; logged_in = h.logged_in }, tt)
          (take_lines-ProgressSound _ reached _
            (record { sized = h.sized; distinct = h.distinct; logged_in = h.logged_in }))

    abbrev offer : ShareSubmission → Bool → Bool × Client Double → Progress Double
    offer share reached (taken, d) = record (no_line floats reached d) {
      outputs = answered share taken ∷ [];
    }

    run_turn-ProgressSound :
        (turn : Turn) (reached : Bool) (c : Client Double)
        → IsSound floats c
        → ProgressSound (run_turn floats config sends turn reached c)
    unfolding run_turn
    run_turn-ProgressSound quiet reached c h =
        before _ (no_line floats reached _) (flush-StepSound c h).1 ((flush-StepSound c h).0, tt)
    run_turn-ProgressSound lost reached c h =
        before _
          (record (no_line floats reached (flush_outbound_queue config sends c).0) {
            goes_on = false;
          })
          (flush-StepSound c h).1 ((flush-StepSound c h).0, tt)
    run_turn-ProgressSound (received bytes) reached c h =
        before _ (receive floats bytes reached _) (flush-StepSound c h).1
          (receive-ProgressSound bytes reached _ (flush-StepSound c h).0)
    run_turn-ProgressSound (offered share) reached c h = elim (submit_share-cases share c) [
      | inl (_, queued) ↦
          subst (λ r. ProgressSound (offer share reached r)) (sym queued)
            (record { sized = h.sized; distinct = h.distinct; logged_in = h.logged_in }, (tt, tt))
      | inr (_, refused) ↦
          subst (λ r. ProgressSound (offer share reached r)) (sym refused) (h, (tt, tt))
    ]

    -- Let a client have an extranonce2 of at most 32 bytes, shares that wait for an answer under
    -- distinct ids, and the state authorized only if the session is authorized. After any turns of
    -- the loop, with whatever arrives, whichever sends succeed and whatever shares the workers hand
    -- in, the same holds, every job that the miner was told of has an extranonce2 of 1 to 32 bytes,
    -- and every difficulty is positive.
    pub run_turns-ProgressSound :
        (turns : List Turn) (reached : Bool) (c : Client Double)
        → IsSound floats c
        → ProgressSound (run_turns floats config sends turns reached c)
    unfolding run_turns
    run_turns-ProgressSound [] reached c h = (h, tt)
    run_turns-ProgressSound (turn ∷ turns) reached c h =
        let first = run_turn-ProgressSound turn reached c h in
        progress-if (run_turn floats config sends turn reached c).goes_on _ _
          (before _
            (run_turns floats config sends turns
              (run_turn floats config sends turn reached c).reached
              (run_turn floats config sends turn reached c).client)
            first.1 (run_turns-ProgressSound turns _ _ first.0))
          first

    run_session-ProgressSound :
        (turns : List Turn) (c : Client Double)
        → IsSound floats c
        → ProgressSound (run_session floats config sends turns c)
    unfolding run_session
    run_session-ProgressSound turns c h =
        let asked : Client Double = record c {
          subscribe_id = c.next_id;
          next_id = increment64 c.next_id;
        } in
        let waiting : Client Double = record asked {
          authorize_id = asked.next_id;
          next_id = increment64 asked.next_id;
        } in
        let rest =
          run_turns-ProgressSound turns false waiting
            (record { sized = h.sized; distinct = h.distinct; logged_in = h.logged_in }) in
        let stopped = set_state-StepSound floats failed asked h.sized h.distinct (λ e. cc) in
        let unsent = set_state-StepSound floats failed waiting h.sized h.distinct (λ e. cc) in
        progress-if
          (not (send_line config sends (build_subscribe c.next_id config.user_agent) asked)) _ _
          stopped
          (progress-if
            (not (
              send_line config sends (build_authorize asked.next_id config.username config.password)
                waiting))
            _ _ (unsent.0, (tt, unsent.1)) (rest.0, (tt, (tt, rest.1))))

    close_session-StepSound :
        (c : Client Double) → IsSound floats c → StepSound floats (close_session floats c)
    unfolding close_session
    close_session-StepSound c h =
        set_state-StepSound floats disconnected _ h.sized h.distinct (λ e. cc)

    begin-StepSound :
        (c : Client Double) → StepSound floats (set_state connecting (reset_session floats c))
    unfolding reset_session
    begin-StepSound c =
        set_state-StepSound floats connecting (reset_session floats c) (omega arith) tt (λ e. cc)

    -- In a whole connection every job that the miner is told of has an extranonce2 of 1 to 32 bytes, and
    -- every difficulty is positive.
    pub run_connection-StepSound :
        (connects : Bool) (turns : List Turn) (c : Client Double)
        → StepSound floats (run_connection floats config sends connects turns c).0
    unfolding run_connection
    run_connection-StepSound false turns c =
        and_next-StepSound (set_state connecting (reset_session floats c)) _ (begin-StepSound c)
          λ d h. set_state-StepSound floats failed d h.sized h.distinct (λ e. cc)
    run_connection-StepSound true turns c =
        let linked =
          and_next-StepSound (set_state connecting (reset_session floats c))
            (λ d. set_state connected (record d { socket_open = true })) (begin-StepSound c)
            λ d h.
              set_state-StepSound floats connected (record d { socket_open = true }) h.sized
                h.distinct (λ e. cc) in
        let session = run_session-ProgressSound turns _ linked.0 in
        let closed = close_session-StepSound _ session.0 in
        (
          closed.0,
          All-append (IsTold floats) _ _ (All-append (IsTold floats) _ _ linked.1 session.1)
              closed.1,
        )
