-- ===== src/Stratum/Client/Receipt.antt =====
-- About the loop over lines in `runConnection` of src/stratum/client.cpp: the lines that a read
-- completes are all handled.
use bitcoin_miner.Base.{
  ℕ, zero, suc, Bool, true, false, ◌||◌, not, List, [], ◌∷◌, ◌++◌, ◌≡◌, refl, ap, ◌∙◌, Option, none,
  some, length, codes, pos, negsuc, ◌=z=◌, ◌=t=◌, ltb, if◌then◌else◌, ◌==◌,
}
use bitcoin_miner.Util.Hex.{from_hex}
use bitcoin_miner.Util.Json.{Json, Floats, is_array, at, size, as_string, as_int, as_number}
use bitcoin_miner.Mining.Work.{MiningJob}
use bitcoin_miner.Mining.Controller.{subscribed, failed, ShareSubmission}
use bitcoin_miner.Stratum.Lines.{LineBuffer, append, has_newline, next_line, drain_loop, drain}
use bitcoin_miner.Stratum.Lines.Chunks.{drain-rest}
use bitcoin_miner.Stratum.Messages.{Message, parse_message, is_notification, is_error}
use bitcoin_miner.Stratum.Payloads.{
  Read, NotifyError, SubscribeError, SubscribeResult, bad, good, parse_subscribe_result,
  parse_notify, extranonce_size,
}
use bitcoin_miner.Stratum.Client.{
  Client, Step, job_out, submit_result, set_state, find_pending, erase_pending, handle_subscribe,
  says_true, handle_authorize, reject_reason, handle_submit_response, handle_response,
  set_difficulty, set_extranonce, handle_notify, handle_notification, handle_message,
}
use bitcoin_miner.Stratum.Client.Session.{Progress, take_message, no_line, take_lines, receive}

module _ (floats : Floats) where
  open floats use {Double, of_int, less}

  -- The line buffer is as it was.
  abbrev pub Keeps : Client Double → Step Double → Type 0
  Keeps c step = step.0.lines ≡ c.lines

  if-Keeps :
      (b : Bool) (c : Client Double) (x y : Step Double)
      → Keeps c x
      → Keeps c y
      → Keeps c (if b then x else y)
  if-Keeps true c x y hx hy = hx
  if-Keeps false c x y hx hy = hy

  handle_subscribe-Keeps :
      (m : Message Double) (c : Client Double) → Keeps c (handle_subscribe floats m c)
  unfolding handle_subscribe set_state
  handle_subscribe-Keeps m c =
      if-Keeps (is_error m) c _ _ refl (go (parse_subscribe_result floats m.result))
    where
      go :
          (r : Read SubscribeError SubscribeResult)
          → Keeps c (elim r [
            | bad e ↦ set_state failed c
            | good r ↦
                set_state subscribed
                  (record c { extranonce1 = r.extranonce1; extranonce2_size = r.extranonce2_size })
          ])
      go (bad e) = refl
      go (good r) = refl

  handle_authorize-Keeps :
      (m : Message Double) (c : Client Double) → Keeps c (handle_authorize floats m c)
  unfolding handle_authorize set_state
  handle_authorize-Keeps m c = if-Keeps (not (says_true floats m)) c _ _ refl refl

  handle_submit_response-Keeps :
      (m : Message Double) (c : Client Double) → Keeps c (handle_submit_response floats m c)
  unfolding handle_submit_response
  handle_submit_response-Keeps m c = go (find_pending m.id c.pending)
    where
      go :
          (o : Option ShareSubmission)
          → Keeps c (elim o [
            | none ↦ (c, [])
            | some share ↦ (
              record c { pending = erase_pending m.id c.pending },
              submit_result share (says_true floats m) (reject_reason floats m) ∷ [],
            )
          ])
      go none = refl
      go (some share) = refl

  set_difficulty-Keeps :
      (params : Json Double) (c : Client Double) → Keeps c (set_difficulty floats params c)
  unfolding set_difficulty
  set_difficulty-Keeps params c =
      if-Keeps (not (is_array params) || ltb (size params) 1) c _ _ refl (
        if-Keeps (not (less (of_int (pos 0)) (as_number floats (at params 0) (of_int (pos 0))))) c _
          _ refl refl)

  set_extranonce-Keeps :
      (params : Json Double) (c : Client Double) → Keeps c (set_extranonce floats params c)
  unfolding set_extranonce
  set_extranonce-Keeps params c =
      if-Keeps (not (is_array params) || ltb (size params) 2) c _ _ refl (
        go (from_hex (as_string (at params 0) []))
          (extranonce_size (as_int floats (at params 1) (negsuc 0))))
    where
      go :
          (o : Option (List ℕ)) (n : Option ℕ)
          → Keeps c (elim o [
            | none ↦ (c, [])
            | some bytes ↦ elim n [
              | none ↦ (c, [])
              | some n ↦ (record c { extranonce1 = bytes; extranonce2_size = n }, [])
            ]
          ])
      go none n = refl
      go (some bytes) none = refl
      go (some bytes) (some n) = refl

  handle_notify-Keeps :
      (params : Json Double) (c : Client Double) → Keeps c (handle_notify floats params c)
  unfolding handle_notify
  handle_notify-Keeps params c = go (parse_notify floats params)
    where
      go :
          (r : Read NotifyError (MiningJob Double))
          → Keeps c (elim r [
            | bad e ↦ (c, [])
            | good job ↦ if c.extranonce2_size == 0 then (c, []) else (
              c,
              job_out (record job {
                extranonce1 = c.extranonce1;
                extranonce2_size = c.extranonce2_size;
                difficulty = c.current_difficulty;
              })
                  ∷ [],
            )
          ])
      go (bad e) = refl
      go (good job) = if-Keeps (c.extranonce2_size == 0) c _ _ refl refl

  pub handle_message-Keeps :
      (m : Message Double) (c : Client Double) → Keeps c (handle_message floats m c)
  unfolding handle_message handle_notification handle_response
  handle_message-Keeps m c =
      if-Keeps (is_notification m) c _ _
        (if-Keeps (m.method =t= codes "mining.set_difficulty") c _ _
          (set_difficulty-Keeps m.params c)
          (if-Keeps (m.method =t= codes "mining.set_extranonce") c _ _
            (set_extranonce-Keeps m.params c)
            (if-Keeps (m.method =t= codes "mining.notify") c _ _ (handle_notify-Keeps m.params c)
              (if-Keeps (m.method =t= codes "client.reconnect") c _ _ refl refl))))
        (if-Keeps (m.id =z= c.subscribe_id) c _ _ (handle_subscribe-Keeps m c) (
          if-Keeps (m.id =z= c.authorize_id) c _ _ (handle_authorize-Keeps m c)
            (handle_submit_response-Keeps m c)))

  -- What the lines are taken from is drained.
  abbrev pub Drains : ℕ → Progress Double → LineBuffer → Type 0
  Drains fuel p lines = p.client.lines ≡ (drain_loop fuel lines).1

  take_message-Drains :
      (fuel : ℕ) (reached : Bool) (c : Client Double) (m : Message Double)
      → ((r : Bool) (d : Client Double) → Drains fuel (take_lines floats fuel r d) d.lines)
      → Drains fuel (take_message floats (take_lines floats fuel) reached c m) c.lines
  unfolding take_message
  take_message-Drains fuel reached c m k = go (m.valid)
    where
      go :
          (b : Bool)
          → Drains fuel
              (elim b [
                | false ↦ take_lines floats fuel reached c
                | true ↦
                    let (next, outs) = handle_message floats m c in
                    let more = take_lines floats fuel (reached || next.is_authorized) next in
                    record more { outputs = outs ++ more.outputs }
              ])
              c.lines
      go false = k reached c
      go true = k _ _ ∙ ap (λ l. (drain_loop fuel l).1) (handle_message-Keeps m c)

  pub take_lines-Drains :
      (fuel : ℕ) (reached : Bool) (c : Client Double)
      → Drains fuel (take_lines floats fuel reached c) c.lines
  unfolding take_lines drain_loop
  take_lines-Drains zero reached c = refl
  take_lines-Drains (suc fuel) reached c = go (take_lines-Drains fuel) (next_line c.lines)
    where
      go :
          ((r : Bool) (d : Client Double) → Drains fuel (take_lines floats fuel r d) d.lines)
          → (o : Option (List ℕ × LineBuffer))
          → (let p : Progress Double = elim o [
            | none ↦ no_line floats reached c
            | some s ↦
                take_message floats
                  (take_lines floats fuel)
                  reached
                  (record c { lines = s.1 })
                  (parse_message floats s.0)
          ] in
              let drained : List (List ℕ) × LineBuffer = elim o [
                | none ↦ ([], c.lines)
                | some (line, after) ↦
                    let (more, final) = drain_loop fuel after in (line ∷ more, final)
              ] in
              p.client.lines ≡ drained.1)
      go k none = refl
      go k (some s) = take_message-Drains fuel reached _ _ k

  -- What is left of a buffer after its lines are handled: the loop's fuel was enough.
  abbrev pub IsDrained : LineBuffer → Progress Double → Type 0
  IsDrained lines p =
      (p.client.lines ≡ (drain lines).1) × (has_newline p.client.lines.buffer ≡ false)

  if-IsDrained :
      (b : Bool) (lines : LineBuffer) (x y : Progress Double)
      → b ≡ false
      → IsDrained lines y
      → IsDrained lines (if b then x else y)
  if-IsDrained true lines x y e h = cc e
  if-IsDrained false lines x y e h = h

  -- If a read does not overflow the line buffer, then every line that it completes is taken: after
  -- it the client's buffer is what taking all lines of the buffer leaves, and holds no newline.
  pub receive-IsDrained :
      (bytes : List ℕ) (reached : Bool) (c : Client Double)
      → (append c.lines bytes).overflowed ≡ false
      → IsDrained (append c.lines bytes) (receive floats bytes reached c)
  unfolding receive
  receive-IsDrained bytes reached c h =
      let lines = append c.lines bytes in
      let filled : Client Double = record c { lines = lines } in
      let taken : (take_lines floats (length lines.buffer) reached filled).client.lines
          ≡ (drain lines).1 =
        unfold drain in take_lines-Drains (length lines.buffer) reached filled in
      if-IsDrained lines.overflowed lines _ _ h
        (taken, ap (λ l. has_newline l.buffer) taken ∙ drain-rest lines)
