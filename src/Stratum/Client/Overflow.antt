-- ===== src/Stratum/Client/Overflow.antt =====
-- About `runConnection` of src/stratum/client.cpp after a line that was too long: the flag of the line
-- buffer outlives the session.
use bitcoin_miner.Base.{
  inl, inr, ℕ, Bool, true, false, List, [], ◌∷◌, ◌≡◌, refl, sym, ap, ◌∙◌, subst, not, if◌then◌else◌,
  Text, increment64,
}
use bitcoin_miner.Util.Json.{Floats}
use bitcoin_miner.Mining.Controller.{ShareSubmission}
use bitcoin_miner.Stratum.Lines.{LineBuffer, append}
use bitcoin_miner.Stratum.Messages.{build_subscribe, build_authorize}
use bitcoin_miner.Stratum.Client.{
  ClientConfig, Client, Step, set_state, send_line, submit_line, flush_share, flush_shares,
  flush_outbound_queue,
}
use bitcoin_miner.Stratum.Client.Submit.{submit_share-cases}
use bitcoin_miner.Stratum.Client.Session.{
  Turn, quiet, lost, received, offered, Progress, reset_session, receive, run_turn, run_turns,
  run_session, close_session, run_connection,
}

module _ (floats : Floats) (config : ClientConfig) (sends : Text → Bool) where
  open floats use {Double}

  abbrev Keeps : Client Double → Client Double → Type 0
  Keeps c d = d.lines ≡ c.lines

  if-Keeps :
      (b : Bool) (x y : Step Double) (c : Client Double)
      → Keeps c x.0
      → Keeps c y.0
      → Keeps c (if b then x else y).0
  if-Keeps true x y c hx hy = hx
  if-Keeps false x y c hx hy = hy

  flush_share-Keeps :
      (share : ShareSubmission) (c : Client Double) → Keeps c (flush_share config sends share c).0
  unfolding flush_share
  flush_share-Keeps share c =
      if-Keeps (send_line config sends (submit_line config c.next_id share) c) _ _ c refl refl

  flush_shares-Keeps :
      (shares : List ShareSubmission) (c : Client Double)
      → Keeps c (flush_shares config sends shares c).0
  unfolding flush_shares
  flush_shares-Keeps [] c = refl
  flush_shares-Keeps (share ∷ rest) c =
      flush_shares-Keeps rest (flush_share config sends share c).0 ∙ flush_share-Keeps share c

  flush-Keeps : (c : Client Double) → Keeps c (flush_outbound_queue config sends c).0
  unfolding flush_outbound_queue
  flush-Keeps c = flush_shares-Keeps c.outbound (record c { outbound = [] })

  -- The buffer has overflowed, and no message was handled.
  abbrev IsDeaf : Progress Double → Type 0
  IsDeaf p = (p.client.lines.overflowed ≡ true) × (p.reached ≡ false)

  if-IsDeaf : (b : Bool) (x y : Progress Double) → IsDeaf x → IsDeaf y → IsDeaf (if b then x else y)
  if-IsDeaf true x y hx hy = hx
  if-IsDeaf false x y hx hy = hy

  append-overflowed :
      (lines : LineBuffer) (bytes : List ℕ) → lines.overflowed ≡ true → append lines bytes ≡ lines
  unfolding append
  append-overflowed lines bytes h = rw h refl

  receive-IsDeaf :
      (bytes : List ℕ) (c : Client Double)
      → c.lines.overflowed ≡ true
      → IsDeaf (receive floats bytes false c)
  unfolding receive
  receive-IsDeaf bytes c h =
      let over : (append c.lines bytes).overflowed ≡ true =
        ap (λ l. l.overflowed) (append-overflowed c.lines bytes h) ∙ h in
      rw over (refl, refl)

  run_turn-IsDeaf :
      (turn : Turn) (c : Client Double)
      → c.lines.overflowed ≡ true
      → IsDeaf (run_turn floats config sends turn false c)
  unfolding run_turn
  run_turn-IsDeaf quiet c h = (ap (λ l. l.overflowed) (flush-Keeps c) ∙ h, refl)
  run_turn-IsDeaf lost c h = (ap (λ l. l.overflowed) (flush-Keeps c) ∙ h, refl)
  run_turn-IsDeaf (received bytes) c h =
      receive-IsDeaf bytes (flush_outbound_queue config sends c).0
        (ap (λ l. l.overflowed) (flush-Keeps c) ∙ h)
  run_turn-IsDeaf (offered share) c h = elim (submit_share-cases share c) [
    | inl (_, queued) ↦ (ap (λ r. r.1.lines.overflowed) queued ∙ h, refl)
    | inr (_, refused) ↦ (ap (λ r. r.1.lines.overflowed) refused ∙ h, refl)
  ]

  run_turns-IsDeaf :
      (turns : List Turn) (c : Client Double)
      → c.lines.overflowed ≡ true
      → IsDeaf (run_turns floats config sends turns false c)
  unfolding run_turns
  run_turns-IsDeaf [] c h = (h, refl)
  run_turns-IsDeaf (turn ∷ turns) c h =
      let first = run_turn-IsDeaf turn c h in
      let next = (run_turn floats config sends turn false c).client in
      let rest = run_turns-IsDeaf turns next first.0 in
      if-IsDeaf (run_turn floats config sends turn false c).goes_on _ _
        (subst (λ r. IsDeaf (run_turns floats config sends turns r next)) (sym first.1) rest) first

  run_session-IsDeaf :
      (turns : List Turn) (c : Client Double)
      → c.lines.overflowed ≡ true
      → IsDeaf (run_session floats config sends turns c)
  unfolding run_session set_state
  run_session-IsDeaf turns c h =
      let asked : Client Double = record c {
        subscribe_id = c.next_id;
        next_id = increment64 c.next_id;
      } in
      let waiting : Client Double = record asked {
        authorize_id = asked.next_id;
        next_id = increment64 asked.next_id;
      } in
      if-IsDeaf (not (send_line config sends (build_subscribe c.next_id config.user_agent) asked)) _
        _ (h, refl)
        (if-IsDeaf
          (not (
            send_line config sends (build_authorize asked.next_id config.username config.password)
              waiting))
          _ _ (h, refl) (run_turns-IsDeaf turns waiting h))

  -- If the line buffer has overflowed before a connection, the connection does not get as far as
  -- authorizing, whatever arrives, and the buffer has overflowed after it too.
  pub run_connection-overflowed :
      (connects : Bool) (turns : List Turn) (c : Client Double)
      → c.lines.overflowed ≡ true
      → (let ended = run_connection floats config sends connects turns c in
          (ended.1 ≡ false) × (ended.0.0.lines.overflowed ≡ true))
  unfolding run_connection reset_session set_state close_session
  run_connection-overflowed false turns c h = (refl, h)
  run_connection-overflowed true turns c h =
      let deaf = run_session-IsDeaf turns _ h in (deaf.1, deaf.0)
