-- ===== src/Stratum/Client/Login/Refused.antt =====
-- About `runConnection` of src/stratum/client.cpp with a pool that grants no login.
use bitcoin_miner.Base.{
  ℕ, Bool, true, false, not, List, [], ◌∷◌, ◌++◌, ◌≡◌, ◌≢◌, refl, sym, subst, Text, ℤ, increment64,
  if◌then◌else◌, All, All-append, inl, inr, ◌⊎◌, length, Bool-cases,
}
use bitcoin_miner.Util.Json.{Floats}
use bitcoin_miner.Mining.Controller.{connected, authorized}
use bitcoin_miner.Stratum.Lines.{LineBuffer, append, drain}
use bitcoin_miner.Stratum.Messages.{build_subscribe, build_authorize}
use bitcoin_miner.Stratum.Client.{
  ClientConfig, Client, Output, set_state, send_line, flush_shares, flush_outbound_queue,
}
use bitcoin_miner.Stratum.Client.Session.{
  Turn, quiet, lost, received, offered, Progress, reset_session, take_lines, receive, run_turn,
  run_turns, run_session, close_session, run_connection,
}
use bitcoin_miner.Stratum.Client.Submit.{submit_share-cases}
use bitcoin_miner.Stratum.Client.Receipt.{take_lines-Drains}
use bitcoin_miner.Stratum.Client.Login.{IsLoggedOut, IsQuiet}
use bitcoin_miner.Stratum.Client.Login.Lines.{
  received_lines, Refuses, StaysRefused, take_lines-StaysRefused,
}

module _ (floats : Floats) (IsRequest : Text → Type 0) (id : ℤ) where
  open floats use {Double, of_int}

  abbrev Ungranted : List Text → Type 0
  Ungranted = Refuses floats id

  module _ (config : ClientConfig) (sends : Text → Bool) where
    flush-empty :
        (c : Client Double)
        → c.outbound ≡ []
        → flush_outbound_queue config sends c ≡ (record c { outbound = [] }, [])
    unfolding flush_outbound_queue
    flush-empty c e = rw e (unfold flush_shares in refl)

    -- After a turn, what the next turns complete grants nothing either.
    abbrev TurnRefused : List Turn → Progress Double → Type 0
    TurnRefused turns p =
        StaysRefused floats IsRequest id p
        × (p.goes_on ≡ true → Ungranted (received_lines p.client.lines turns))

    all-split : (xs ys : List Text) → Ungranted (xs ++ ys) → Ungranted xs × Ungranted ys
    all-split [] ys h = (tt, h)
    all-split (x ∷ xs) ys (first, later) =
        let (front, back) = all-split xs ys later in ((first, front), back)

    receive-TurnRefused :
        (bytes : List ℕ) (turns : List Turn) (reached : Bool) (c : Client Double)
        → IsLoggedOut floats id c
        → reached ≡ false
        → Ungranted (received_lines c.lines (received bytes ∷ turns))
        → TurnRefused turns (receive floats bytes reached c)
    unfolding received_lines receive
    receive-TurnRefused bytes turns reached c h unreached refused = go filled.overflowed refused
      where
        filled : LineBuffer
        filled = append c.lines bytes

        full : Client Double
        full = record c { lines = filled }

        go :
            (b : Bool)
            → Ungranted
                (if b then [] else (drain filled).0 ++ received_lines (drain filled).1 turns)
            → TurnRefused turns (
                if b
                then record { client = full; outputs = []; goes_on = false; reached = reached }
                else take_lines floats (length filled.buffer) reached full)
        go true refused = ((h, tt, unreached), λ e. cc e)
        go false refused =
            let (taken, later) = all-split (drain filled).0 _ refused in
            let left : (take_lines floats (length filled.buffer) reached full).client.lines
                ≡ (drain filled).1 =
              unfold drain in take_lines-Drains floats (length filled.buffer) reached full in
            (
              take_lines-StaysRefused floats IsRequest id (length filled.buffer) reached full h
                  unreached (unfold drain in taken),
              λ e. subst (λ l. Ungranted (received_lines l turns)) (sym left) later,
            )

    run_turn-TurnRefused :
        (turn : Turn) (turns : List Turn) (reached : Bool) (c : Client Double)
        → IsLoggedOut floats id c
        → reached ≡ false
        → Ungranted (received_lines c.lines (turn ∷ turns))
        → TurnRefused turns (run_turn floats config sends turn reached c)
    unfolding run_turn received_lines
    run_turn-TurnRefused quiet turns reached c h unreached refused =
        rw (flush-empty c h.3) (((h.0, h.1, h.2, refl, h.4), tt, unreached), λ e. refused)
    run_turn-TurnRefused lost turns reached c h unreached refused =
        rw (flush-empty c h.3) (((h.0, h.1, h.2, refl, h.4), tt, unreached), λ e. cc e)
    run_turn-TurnRefused (received bytes) turns reached c h unreached refused =
        rw (flush-empty c h.3) (
          receive-TurnRefused bytes turns reached (record c { outbound = [] })
            (h.0, h.1, h.2, refl, h.4) unreached refused)
    run_turn-TurnRefused (offered share) turns reached c h unreached refused =
        elim (submit_share-cases share c) [
          | inl (allowed, _) ↦ absurd (h.0 allowed)
          | inr (_, answer) ↦ rw answer ((h, (refl, tt), unreached), λ e. refused)
        ]

    run_turns-StaysRefused :
        (turns : List Turn) (reached : Bool) (c : Client Double)
        → IsLoggedOut floats id c
        → reached ≡ false
        → Ungranted (received_lines c.lines turns)
        → StaysRefused floats IsRequest id (run_turns floats config sends turns reached c)
    unfolding run_turns
    run_turns-StaysRefused [] reached c h unreached refused = (h, tt, unreached)
    run_turns-StaysRefused (turn ∷ turns) reached c h unreached refused =
        let (now, later) = run_turn-TurnRefused turn turns reached c h unreached refused in
        let first = run_turn floats config sends turn reached c in
        go first now later (run_turns-StaysRefused turns first.reached first.client)
      where
        go :
            (first : Progress Double)
            → StaysRefused floats IsRequest id first
            → (first.goes_on ≡ true → Ungranted (received_lines first.client.lines turns))
            → (IsLoggedOut floats id first.client
                → first.reached ≡ false
                → Ungranted (received_lines first.client.lines turns)
                → StaysRefused floats IsRequest id
                    (run_turns floats config sends turns first.reached first.client))
            → StaysRefused floats IsRequest id (
                let rest = run_turns floats config sends turns first.reached first.client in
                if first.goes_on
                then record rest { outputs = first.outputs ++ rest.outputs }
                else first)
        go first (out, told, still) later k = elim (Bool-cases first.goes_on) [
          | inr stops ↦ rw stops (out, told, still)
          | inl goes ↦
              let (rest, more, after) = k out still (later goes) in
              rw goes (rest, All-append (IsQuiet floats IsRequest) _ _ told more, after)
        ]

-- The two requests of a session whose first id is given.
abbrev pub IsRequest : ClientConfig → ℤ → Text → Type 0
IsRequest config first line =
    (line ≡ build_subscribe first config.user_agent)
    ⊎ (line ≡ build_authorize (increment64 first) config.username config.password)

module _ (floats : Floats) (config : ClientConfig) (sends : Text → Bool) where
  open floats use {Double}

  -- Nothing but the requests for the first id, and no login.
  abbrev pub EndsRefused : ℤ → List (Output Double) → Bool → Type 0
  EndsRefused first outs reached =
      All (IsQuiet floats (IsRequest config first)) outs × (reached ≡ false)

  refused-if :
      (b : Bool) (first : ℤ) (x y : Progress Double)
      → EndsRefused first x.outputs x.reached
      → EndsRefused first y.outputs y.reached
      → (let p = if b then x else y in EndsRefused first p.outputs p.reached)
  refused-if true first x y hx hy = hx
  refused-if false first x y hx hy = hy

  run_session-EndsRefused :
      (turns : List Turn) (c : Client Double)
      → c.state ≢ authorized
      → c.is_authorized ≡ false
      → c.outbound ≡ []
      → c.pending ≡ []
      → Refuses floats (increment64 c.next_id) (received_lines c.lines turns)
      → (let p = run_session floats config sends turns c in
          EndsRefused c.next_id p.outputs p.reached)
  unfolding run_session set_state
  run_session-EndsRefused turns c out not_yet queue pending refused =
      let asked : Client Double = record c {
        subscribe_id = c.next_id;
        next_id = increment64 c.next_id;
      } in
      let waiting : Client Double = record asked {
        authorize_id = asked.next_id;
        next_id = increment64 asked.next_id;
      } in
      let (_, told, still) =
        run_turns-StaysRefused floats (IsRequest config c.next_id) (increment64 c.next_id) config
          sends turns false waiting (out, refl, not_yet, queue, pending) refl refused in
      refused-if (not (send_line config sends (build_subscribe c.next_id config.user_agent) asked))
        c.next_id _ _ ((λ e. cc, tt), refl)
        (refused-if
          (not (
            send_line config sends (build_authorize asked.next_id config.username config.password)
              waiting))
          c.next_id _ _ ((inl refl, (λ e. cc, tt)), refl) ((inl refl, (inr refl, told)), still))

  -- Whatever the client's members were before a connection, whether it connects and which sends
  -- succeed: if none of the lines that its reads complete is an answer without an error to the
  -- login request whose result counts as true (a true, or a number that is not 0), then it sends
  -- nothing but the requests for subscribing and for the login, every share that a worker hands in
  -- is refused, no share is reported as answered, the state is never authorized, and the connection
  -- does not count as authorized.
  pub run_connection-EndsRefused :
      (connects : Bool) (turns : List Turn) (c : Client Double)
      → Refuses floats
          (increment64 c.next_id)
          (received_lines (record c.lines { buffer = [] }) turns)
      → (let ended = run_connection floats config sends connects turns c in
          EndsRefused c.next_id ended.0.1 ended.1)
  unfolding run_connection reset_session set_state close_session
  run_connection-EndsRefused false turns c refused = ((λ e. cc, (λ e. cc, tt)), refl)
  run_connection-EndsRefused true turns c refused =
      let opened : Client Double = record (reset_session floats c) {
        state = connected;
        socket_open = true;
      } in
      let (told, still) = run_session-EndsRefused turns opened (λ e. cc) refl refl refl refused in
      (
        (
          λ e. cc,
          (
            λ e. cc,
            All-append (IsQuiet floats (IsRequest config c.next_id)) _ _ told (λ e. cc, tt),
          ),
        ),
        still,
      )
