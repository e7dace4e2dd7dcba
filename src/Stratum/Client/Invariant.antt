-- ===== src/Stratum/Client/Invariant.antt =====
-- About StratumClient of src/stratum/client.cpp: what holds of its members whatever a pool sends, and
-- of what it tells the miner.
use bitcoin_miner.Base.{
  ℕ, ◌≤◌, ◌<◌, Bool, true, false, ◌||◌, List, [], ◌∷◌, ◌≡◌, refl, sym, ap, ◌∙◌, subst, arith, inl,
  inr, Option-cases, not, ltb, ◌==◌, if◌then◌else◌, codes, ◌=t=◌, pos, ◌=z=◌, Option, none, some,
  All,
}
use bitcoin_miner.Util.Hex.{from_hex}
use bitcoin_miner.Util.Json.{Json, Floats, is_array, at, size, as_string, as_number}
use bitcoin_miner.Mining.Work.{MiningJob}
use bitcoin_miner.Mining.Controller.{PoolState, subscribed, authorized, failed, ShareSubmission}
use bitcoin_miner.Stratum.Messages.{Message, is_notification, is_error}
use bitcoin_miner.Stratum.Payloads.{
  Read, NotifyError, SubscribeError, SubscribeResult, bad, good, parse_subscribe_result,
  parse_notify,
}
use bitcoin_miner.Stratum.Payloads.Subscribe.{parse_subscribe_result-Says, extranonce_size-range}
use bitcoin_miner.Stratum.Client.{
  Client, Output, job_out, difficulty_out, submit_result, shut_down, Step, set_state, find_pending,
  erase_pending, handle_subscribe, says_true, handle_authorize, reject_reason,
  handle_submit_response, handle_response, set_difficulty, set_extranonce, handle_notify,
  handle_notification, handle_message,
}
use bitcoin_miner.Stratum.Client.Pending.{IsDistinct, find-erase, erase-IsDistinct}

module _ (floats : Floats) where
  open floats use {Double, of_int, less}

  pub record IsSound (c : Client Double) : Type 0 where
    -- The extranonce2 is none, or of 1 to 32 bytes.
    pub sized : c.extranonce2_size ≤ 32
    pub distinct : IsDistinct c.pending
    -- Only a session that the pool has authorized is in the state that takes shares.
    pub logged_in : c.state ≡ authorized → c.is_authorized ≡ true

  -- What the miner is told: jobs have an extranonce2 of 1 to 32 bytes, and difficulties are positive.
  abbrev pub IsTold : Output Double → Type 0
  IsTold (job_out job) = (0 < job.extranonce2_size) × (job.extranonce2_size ≤ 32)
  IsTold (difficulty_out difficulty) = less (of_int (pos 0)) difficulty ≡ true
  IsTold _ = Unit

  abbrev pub StepSound : Step Double → Type 0
  StepSound (c, outs) = IsSound c × All IsTold outs

  pub sound-if :
      (b : Bool) (x y : Step Double)
      → (b ≡ true → StepSound x)
      → (b ≡ false → StepSound y)
      → StepSound (if b then x else y)
  sound-if true x y hx hy = hx refl
  sound-if false x y hx hy = hy refl

  pub set_state-StepSound :
      (state : PoolState) (c : Client Double)
      → c.extranonce2_size ≤ 32
      → IsDistinct c.pending
      → (state ≡ authorized → c.is_authorized ≡ true)
      → StepSound (set_state state c)
  unfolding set_state
  set_state-StepSound state c sized distinct logged_in =
      (record { sized = sized; distinct = distinct; logged_in = logged_in }, (tt, tt))

  not-false : (b : Bool) → not b ≡ false → b ≡ true
  not-false true e = refl
  not-false false e = cc

  pub keeps : (c : Client Double) → IsSound c → StepSound (c, [])
  keeps c h = (h, tt)

  handle_subscribe-StepSound :
      (m : Message Double) (c : Client Double) → IsSound c → StepSound (handle_subscribe floats m c)
  unfolding handle_subscribe
  handle_subscribe-StepSound m c h =
      sound-if (is_error m) _ _ (λ _. set_state-StepSound failed c h.sized h.distinct (λ e. cc))
        λ _.
          go (parse_subscribe_result floats m.result)
            (λ r e. (parse_subscribe_result-Says floats m.result r e).3)
    where
      go :
          (p : Read SubscribeError SubscribeResult)
          → ((r : SubscribeResult) → p ≡ good r → r.extranonce2_size ≤ 32)
          → StepSound (elim p [
            | bad e ↦ set_state failed c
            | good r ↦
                set_state subscribed
                  (record c { extranonce1 = r.extranonce1; extranonce2_size = r.extranonce2_size })
          ])
      go (bad e) k = set_state-StepSound failed c h.sized h.distinct (λ e. cc)
      go (good r) k = set_state-StepSound subscribed _ (k r refl) h.distinct (λ e. cc)

  handle_authorize-StepSound :
      (m : Message Double) (c : Client Double) → IsSound c → StepSound (handle_authorize floats m c)
  unfolding handle_authorize
  handle_authorize-StepSound m c h =
      sound-if (not (says_true floats m)) _ _
        (λ _. set_state-StepSound failed c h.sized h.distinct (λ e. cc))
        (λ _.
          set_state-StepSound authorized (record c { is_authorized = true }) h.sized h.distinct
            (λ e. refl))

  handle_submit_response-StepSound :
      (m : Message Double) (c : Client Double)
      → IsSound c
      → StepSound (handle_submit_response floats m c)
  unfolding handle_submit_response
  handle_submit_response-StepSound m c h = go (find_pending m.id c.pending)
    where
      go :
          (o : Option ShareSubmission)
          → StepSound (elim o [
            | none ↦ (c, [])
            | some share ↦ (
              record c { pending = erase_pending m.id c.pending },
              submit_result share (says_true floats m) (reject_reason floats m) ∷ [],
            )
          ])
      go none = keeps c h
      go (some share) = (
        record {
          sized = h.sized;
          distinct = erase-IsDistinct m.id c.pending h.distinct;
          logged_in = h.logged_in;
        },
        (tt, tt),
      )

  handle_response-StepSound :
      (m : Message Double) (c : Client Double) → IsSound c → StepSound (handle_response floats m c)
  unfolding handle_response
  handle_response-StepSound m c h =
      sound-if (m.id =z= c.subscribe_id) _ _ (λ _. handle_subscribe-StepSound m c h)
        λ _.
          sound-if (m.id =z= c.authorize_id) _ _ (λ _. handle_authorize-StepSound m c h)
            λ _. handle_submit_response-StepSound m c h

  set_difficulty-StepSound :
      (params : Json Double) (c : Client Double)
      → IsSound c
      → StepSound (set_difficulty floats params c)
  unfolding set_difficulty
  set_difficulty-StepSound params c h =
      let difficulty = as_number floats (at params 0) (of_int (pos 0)) in
      sound-if (not (is_array params) || ltb (size params) 1) _ _ (λ _. keeps c h)
        λ _.
          sound-if (not (less (of_int (pos 0)) difficulty)) _ _ (λ _. keeps c h)
            λ positive. (
              record { sized = h.sized; distinct = h.distinct; logged_in = h.logged_in },
              (not-false _ positive, tt),
            )

  set_extranonce-StepSound :
      (params : Json Double) (c : Client Double)
      → IsSound c
      → StepSound (set_extranonce floats params c)
  unfolding set_extranonce
  set_extranonce-StepSound params c h =
      sound-if (not (is_array params) || ltb (size params) 2) _ _ (λ _. keeps c h)
        λ _. go (from_hex (as_string (at params 0) [])) _ (λ n e. (extranonce_size-range _ e).1)
    where
      go :
          (o : Option (List ℕ)) (p : Option ℕ)
          → ((n : ℕ) → p ≡ some n → n ≤ 32)
          → StepSound (elim o [
            | none ↦ (c, [])
            | some bytes ↦ elim p [
              | none ↦ (c, [])
              | some n ↦ (record c { extranonce1 = bytes; extranonce2_size = n }, [])
            ]
          ])
      go none p k = keeps c h
      go (some bytes) none k = keeps c h
      go (some bytes) (some n) k =
          (record { sized = k n refl; distinct = h.distinct; logged_in = h.logged_in }, tt)

  handle_notify-StepSound :
      (params : Json Double) (c : Client Double)
      → IsSound c
      → StepSound (handle_notify floats params c)
  unfolding handle_notify
  handle_notify-StepSound params c h = go (parse_notify floats params)
    where
      go :
          (p : Read NotifyError (MiningJob Double))
          → StepSound (elim p [
            | bad e ↦ (c, [])
            | good job ↦ if c.extranonce2_size == 0 then (c, []) else (
              c,
              job_out (record job {
                extranonce1 = c.extranonce1;
                extranonce2_size = c.extranonce2_size;
                difficulty = c.current_difficulty;
              })
                  ∷ [],
            )
          ])
      go (bad e) = keeps c h
      go (good job) =
          sound-if (c.extranonce2_size == 0) _ _ (λ _. keeps c h)
            λ some_size. (h, ((ground arith, h.sized), tt))

  handle_notification-StepSound :
      (m : Message Double) (c : Client Double)
      → IsSound c
      → StepSound (handle_notification floats m c)
  unfolding handle_notification
  handle_notification-StepSound m c h =
      sound-if (m.method =t= codes "mining.set_difficulty") _ _
        (λ _. set_difficulty-StepSound m.params c h)
        λ _.
          sound-if (m.method =t= codes "mining.set_extranonce") _ _
            (λ _. set_extranonce-StepSound m.params c h)
            λ _.
              sound-if (m.method =t= codes "mining.notify") _ _
                (λ _. handle_notify-StepSound m.params c h)
                λ _.
                  sound-if (m.method =t= codes "client.reconnect") _ _
                    (λ _. (h, reconnect c.socket_open)) λ _. keeps c h
    where
      reconnect : (b : Bool) → All IsTold (if b then shut_down ∷ [] else [])
      reconnect true = (tt, tt)
      reconnect false = tt

  -- Whatever message a pool sends, a sound client stays sound and tells the miner what it may.
  pub handle_message-StepSound :
      (m : Message Double) (c : Client Double) → IsSound c → StepSound (handle_message floats m c)
  unfolding handle_message
  handle_message-StepSound m c h =
      sound-if (is_notification m) _ _ (λ _. handle_notification-StepSound m c h)
        (λ _. handle_response-StepSound m c h)

module _ (floats : Floats) (m : Message floats.Double) (c : Client floats.Double) where
  response-unknown :
      find_pending m.id c.pending ≡ none → handle_submit_response floats m c ≡ (c, [])
  unfolding handle_submit_response
  response-unknown e = rw (handle_submit_response, e) refl

  response-known :
      {share : ShareSubmission}
      → find_pending m.id c.pending ≡ some share
      → handle_submit_response floats m c ≡ (
        record c { pending = erase_pending m.id c.pending },
        submit_result share (says_true floats m) (reject_reason floats m) ∷ [],
      )
  unfolding handle_submit_response
  response-known e = rw (handle_submit_response, e) refl

-- For a client whose extranonce2 has at most 32 bytes, whose waiting shares have distinct ids and
-- whose state is authorized only if the session is authorized: after an answer to a submission a
-- second answer with the same id changes nothing and reports nothing.
pub handle_submit_response-once :
    (floats : Floats) (m again : Message floats.Double) (c : Client floats.Double)
    → IsSound floats c
    → again.id ≡ m.id
    → (let after = (handle_submit_response floats m c).0 in
        handle_submit_response floats again after ≡ (after, []))
handle_submit_response-once floats m again c h same =
    elim (Option-cases (find_pending m.id c.pending)) [
      | inl gone ↦
          subst (λ r. handle_submit_response floats again r.0 ≡ (r.0, []))
            (sym (response-unknown floats m c gone))
            (response-unknown floats again c (ap (λ i. find_pending i c.pending) same ∙ gone))
      | inr (share, found) ↦
          subst (λ r. handle_submit_response floats again r.0 ≡ (r.0, []))
            (sym (response-known floats m c found))
            (response-unknown floats again (record c { pending = erase_pending m.id c.pending })
              (ap (λ i. find_pending i (erase_pending m.id c.pending)) same
                ∙ find-erase m.id c.pending h.distinct))
    ]
