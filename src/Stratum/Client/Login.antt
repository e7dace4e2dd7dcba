-- ===== src/Stratum/Client/Login.antt =====
-- About a session of src/stratum/client.cpp that the pool does not authorize: what the handlers do
-- before a login is granted. Stratum/Client/Login/Refused is about the whole connection.
pub mod Lines
pub mod Refused
use bitcoin_miner.Base.{
  ℕ, Bool, true, false, ◌&&◌, ◌||◌, not, List, [], ◌∷◌, ◌++◌, ◌≡◌, ◌≢◌, refl, sym, ap, ◌∙◌, subst,
  arith, Option, none, some, Text, codes, ℤ, pos, negsuc, ◌=z=◌, ◌=t=◌, ltb, if◌then◌else◌, ◌==◌,
  All, inl, inr, ◌⊎◌,
}
use bitcoin_miner.Util.Hex.{from_hex}
use bitcoin_miner.Util.Json.{
  Json, Floats, is_array, at, size, as_string, as_int, as_number, as_bool,
}
use bitcoin_miner.Mining.Work.{MiningJob}
use bitcoin_miner.Mining.Controller.{PoolState, subscribed, authorized, failed, ShareSubmission}
use bitcoin_miner.Stratum.Messages.{Message, is_notification, is_error}
use bitcoin_miner.Stratum.Payloads.{
  Read, NotifyError, SubscribeError, SubscribeResult, bad, good, parse_subscribe_result,
  parse_notify, extranonce_size,
}
use bitcoin_miner.Stratum.Client.{
  Client, Output, Step, job_out, difficulty_out, submit_result, state_change, sent_line, shut_down,
  answered, set_state, find_pending, erase_pending, handle_subscribe, says_true, handle_authorize,
  reject_reason, handle_submit_response, handle_response, set_difficulty, set_extranonce,
  handle_notify, handle_notification, handle_message,
}

module _ (floats : Floats) where
  open floats use {Double, of_int, less}

  -- The pool grants the login: an answer to the request, without an error, whose result is true.
  abbrev pub grants : ℤ → Message Double → Bool
  grants id m =
      (m.valid && not (is_notification m))
      && ((m.id =z= id) && (not (is_error m) && as_bool floats m.result false))

  -- Nobody is logged in, and no share is queued or waits for an answer.
  abbrev pub IsLoggedOut : ℤ → Client Double → Type 0
  IsLoggedOut id c =
      (c.state ≢ authorized)
      × (c.authorize_id ≡ id)
      × (c.is_authorized ≡ false)
      × (c.outbound ≡ [])
      × (c.pending ≡ [])

  -- No share is taken, sent or answered, and no state tells of a login; the lines are requests.
  abbrev pub IsQuiet : (Text → Type 0) → Output Double → Type 0
  IsQuiet IsRequest (sent_line line) = IsRequest line
  IsQuiet IsRequest (submit_result share accepted reason) = ⊥
  IsQuiet IsRequest (state_change state) = state ≢ authorized
  IsQuiet IsRequest (answered share taken) = taken ≡ false
  IsQuiet IsRequest _ = Unit

refused_rest :
    (valid notified same granted : Bool)
    → valid ≡ true
    → notified ≡ false
    → same ≡ true
    → ((valid && not notified) && (same && granted)) ≡ false
    → granted ≡ false
refused_rest valid notified same granted v n i e = subst (λ b. b ≡ false) (rw (v, n, i) refl) e

module _ (floats : Floats) (IsRequest : Text → Type 0) (id : ℤ) where
  open floats use {Double, of_int, less}

  abbrev pub StaysOut : Step Double → Type 0
  StaysOut (c, outs) = IsLoggedOut floats id c × All (IsQuiet floats IsRequest) outs

  out-if :
      (b : Bool) (x y : Step Double)
      → (b ≡ true → StaysOut x)
      → (b ≡ false → StaysOut y)
      → StaysOut (if b then x else y)
  out-if true x y hx hy = hx refl
  out-if false x y hx hy = hy refl

  pub set_state-StaysOut :
      (state : PoolState) (c : Client Double)
      → IsLoggedOut floats id c
      → state ≢ authorized
      → StaysOut (set_state state c)
  unfolding set_state
  set_state-StaysOut state c h other = ((other, h.1, h.2, h.3, h.4), (other, tt))

  handle_subscribe-StaysOut :
      (m : Message Double) (c : Client Double)
      → IsLoggedOut floats id c
      → StaysOut (handle_subscribe floats m c)
  unfolding handle_subscribe
  handle_subscribe-StaysOut m c h =
      out-if (is_error m) _ _ (λ _. set_state-StaysOut failed c h (λ e. cc))
        (λ _. go (parse_subscribe_result floats m.result))
    where
      go :
          (r : Read SubscribeError SubscribeResult)
          → StaysOut (elim r [
            | bad e ↦ set_state failed c
            | good r ↦
                set_state subscribed
                  (record c { extranonce1 = r.extranonce1; extranonce2_size = r.extranonce2_size })
          ])
      go (bad e) = set_state-StaysOut failed c h (λ e. cc)
      go (good r) = set_state-StaysOut subscribed _ h (λ e. cc)

  handle_authorize-StaysOut :
      (m : Message Double) (c : Client Double)
      → IsLoggedOut floats id c
      → (not (is_error m) && as_bool floats m.result false) ≡ false
      → StaysOut (handle_authorize floats m c)
  unfolding handle_authorize
  handle_authorize-StaysOut m c h refused = rw refused (set_state-StaysOut failed c h (λ e. cc))

  handle_submit_response-StaysOut :
      (m : Message Double) (c : Client Double)
      → IsLoggedOut floats id c
      → StaysOut (handle_submit_response floats m c)
  unfolding handle_submit_response
  handle_submit_response-StaysOut m c h = go (find_pending m.id c.pending) unknown
    where
      unknown : find_pending m.id c.pending ≡ none
      unknown = ap (find_pending m.id) h.4 ∙ (unfold find_pending in refl)

      go :
          (o : Option ShareSubmission)
          → o ≡ none
          → StaysOut (elim o [
            | none ↦ (c, [])
            | some share ↦ (
              record c { pending = erase_pending m.id c.pending },
              submit_result share (says_true floats m) (reject_reason floats m) ∷ [],
            )
          ])
      go none e = (h, tt)
      go (some share) e = cc e

  set_difficulty-StaysOut :
      (params : Json Double) (c : Client Double)
      → IsLoggedOut floats id c
      → StaysOut (set_difficulty floats params c)
  unfolding set_difficulty
  set_difficulty-StaysOut params c h =
      out-if (not (is_array params) || ltb (size params) 1) _ _ (λ _. (h, tt))
        λ _.
          out-if (not (less (of_int (pos 0)) (as_number floats (at params 0) (of_int (pos 0))))) _ _
            (λ _. (h, tt)) λ _. (h, (tt, tt))

  set_extranonce-StaysOut :
      (params : Json Double) (c : Client Double)
      → IsLoggedOut floats id c
      → StaysOut (set_extranonce floats params c)
  unfolding set_extranonce
  set_extranonce-StaysOut params c h =
      out-if (not (is_array params) || ltb (size params) 2) _ _ (λ _. (h, tt))
        λ _.
          go (from_hex (as_string (at params 0) []))
            (extranonce_size (as_int floats (at params 1) (negsuc 0)))
    where
      go :
          (o : Option (List ℕ)) (n : Option ℕ)
          → StaysOut (elim o [
            | none ↦ (c, [])
            | some bytes ↦ elim n [
              | none ↦ (c, [])
              | some n ↦ (record c { extranonce1 = bytes; extranonce2_size = n }, [])
            ]
          ])
      go none n = (h, tt)
      go (some bytes) none = (h, tt)
      go (some bytes) (some n) = (h, tt)

  handle_notify-StaysOut :
      (params : Json Double) (c : Client Double)
      → IsLoggedOut floats id c
      → StaysOut (handle_notify floats params c)
  unfolding handle_notify
  handle_notify-StaysOut params c h = go (parse_notify floats params)
    where
      go :
          (r : Read NotifyError (MiningJob Double))
          → StaysOut (elim r [
            | bad e ↦ (c, [])
            | good job ↦ if c.extranonce2_size == 0 then (c, []) else (
              c,
              job_out (record job {
                extranonce1 = c.extranonce1;
                extranonce2_size = c.extranonce2_size;
                difficulty = c.current_difficulty;
              })
                  ∷ [],
            )
          ])
      go (bad e) = (h, tt)
      go (good job) = out-if (c.extranonce2_size == 0) _ _ (λ _. (h, tt)) (λ _. (h, (tt, tt)))

  handle_notification-StaysOut :
      (m : Message Double) (c : Client Double)
      → IsLoggedOut floats id c
      → StaysOut (handle_notification floats m c)
  unfolding handle_notification
  handle_notification-StaysOut m c h =
      out-if (m.method =t= codes "mining.set_difficulty") _ _
        (λ _. set_difficulty-StaysOut m.params c h)
        λ _.
          out-if (m.method =t= codes "mining.set_extranonce") _ _
            (λ _. set_extranonce-StaysOut m.params c h)
            λ _.
              out-if (m.method =t= codes "mining.notify") _ _
                (λ _. handle_notify-StaysOut m.params c h)
                λ _.
                  out-if (m.method =t= codes "client.reconnect") _ _
                    (λ _. (h, reconnect c.socket_open)) λ _. (h, tt)
    where
      reconnect : (b : Bool) → All (IsQuiet floats IsRequest) (if b then shut_down ∷ [] else [])
      reconnect true = (tt, tt)
      reconnect false = tt

  -- A message that does not grant the login leaves nobody logged in.
  pub handle_message-StaysOut :
      (m : Message Double) (c : Client Double)
      → IsLoggedOut floats id c
      → m.valid ≡ true
      → grants floats id m ≡ false
      → StaysOut (handle_message floats m c)
  unfolding handle_message handle_response
  handle_message-StaysOut m c h valid refused =
      out-if (is_notification m) _ _ (λ _. handle_notification-StaysOut m c h)
        λ answer.
          out-if (m.id =z= c.subscribe_id) _ _ (λ _. handle_subscribe-StaysOut m c h)
            λ _.
              out-if (m.id =z= c.authorize_id) _ _
                (λ same.
                  handle_authorize-StaysOut m c h
                    (no_grant answer (ap (λ i. m.id =z= i) (sym h.1) ∙ same)))
                (λ _. handle_submit_response-StaysOut m c h)
    where
      no_grant :
          is_notification m ≡ false
          → (m.id =z= id) ≡ true
          → (not (is_error m) && as_bool floats m.result false) ≡ false
      no_grant answer same =
          refused_rest m.valid (is_notification m) (m.id =z= id) _ valid answer same refused
