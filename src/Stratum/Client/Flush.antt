-- ===== src/Stratum/Client/Flush.antt =====
-- About `flushOutboundQueue` of src/stratum/client.cpp on a socket that takes every line: what the
-- pool reads of it.
use bitcoin_miner.Base.{
  ℕ, ◌+◌, ◌*◌, ◌^◌, ◌≤◌, ◌<◌, Bool, true, List, [], ◌∷◌, ◌++◌, length, ◌≡◌, refl, sym, ◌∙◌, subst,
  arith, Text, codes, pos, increment64, none,
}
use mathlib.Core.List.{append_assoc, append-nil}
use bitcoin_miner.Util.Json.{Floats}
use bitcoin_miner.Mining.Controller.{ShareSubmission}
use bitcoin_miner.Stratum.Fields.{to_big_endian_hex32}
use bitcoin_miner.Stratum.Messages.Delivery.{IsDelivered, requests-IsDelivered}
use bitcoin_miner.Stratum.Client.{
  ClientConfig, Client, Output, sent_line, Step, and_next, find_pending, submit_line, flush_share,
  flush_shares, flush_outbound_queue,
}
use bitcoin_miner.Stratum.Client.Pending.{Pending, put-fresh, find-append_none}

-- The shares with the numbers from n on.
abbrev pub number_from : ℕ → List ShareSubmission → Pending
number_from n [] = []
number_from n (share ∷ rest) = (pos n, share) ∷ number_from (n + 1) rest

-- No number from n on is an id that waits for an answer.
abbrev pub IsFresh : ℕ → Pending → Type 0
IsFresh n ps = (k : ℕ) → n ≤ k → find_pending (pos k) ps ≡ none

append-IsFresh :
    (n : ℕ) (share : ShareSubmission) (ps : Pending)
    → IsFresh n ps
    → IsFresh (n + 1) (ps ++ (pos n, share) ∷ [])
append-IsFresh n share ps h k le =
    find-append_none (pos k) (pos n) share ps (ground arith) (h k (omega arith))

increment64-small : (n : ℕ) → n < 9 * 10 ^ 15 → increment64 (pos n) ≡ pos (n + 1)
increment64-small n small = ground arith

module _ (floats : Floats) (config : ClientConfig) (sends : Text → Bool) where
  open floats use {Double}

  -- What the pool reads of the lines that were sent: a submission for each share, in order, with the
  -- numbers from n on as ids, and with the user, the job, the extranonce2, the time and the nonce.
  abbrev pub AreRead : ℕ → List ShareSubmission → List (Output Double) → Type 0
  AreRead n [] outs = outs ≡ []
  AreRead n (share ∷ rest) outs =
      (line : Text) × (more : List (Output Double)) × (outs ≡ sent_line line ∷ more)
      × IsDelivered floats line (pos n) (codes "mining.submit") (
          config.username
          ∷ share.job_id
          ∷ share.extranonce2_hex
          ∷ to_big_endian_hex32 share.n_time
          ∷ to_big_endian_hex32 share.nonce
          ∷ [])
      × AreRead (n + 1) rest more

  -- The shares are sent and wait for their answers, and the queue is as it was.
  abbrev pub IsSent : ℕ → List ShareSubmission → Client Double → Step Double → Type 0
  IsSent n shares c step =
      AreRead n shares step.1
      × (step.0.pending ≡ c.pending ++ number_from n shares)
      × (step.0.outbound ≡ c.outbound)

  entered : ℕ → ShareSubmission → Client Double → Client Double
  entered n share c = record c { next_id = pos (n + 1); pending = c.pending ++ (pos n, share) ∷ [] }

  flush_share-sent :
      (n : ℕ) (share : ShareSubmission) (c : Client Double)
      → c.next_id ≡ pos n
      → n < 9 * 10 ^ 15
      → IsFresh n c.pending
      → c.socket_open ≡ true
      → ((line : Text) → sends line ≡ true)
      → flush_share config sends share c
        ≡ (entered n share c, sent_line (submit_line config (pos n) share) ∷ [])
  unfolding flush_share entered
  flush_share-sent n share c id small fresh open_socket takes =
      rw
        (
          id,
          open_socket,
          takes (submit_line config (pos n) share),
          increment64-small n small,
          put-fresh (pos n) share c.pending (fresh n (omega arith)),
        )
        refl

  flush_shares-IsSent :
      (n : ℕ) (shares : List ShareSubmission) (c : Client Double)
      → c.next_id ≡ pos n
      → n + length shares ≤ 9 * 10 ^ 15
      → IsFresh n c.pending
      → c.socket_open ≡ true
      → ((line : Text) → sends line ≡ true)
      → IsSent n shares c (flush_shares config sends shares c)
  unfolding flush_shares entered
  flush_shares-IsSent n [] c id small fresh open_socket takes =
      (refl, sym (append-nil c.pending), refl)
  flush_shares-IsSent n (share ∷ rest) c id small fresh open_socket takes =
      let next = entered n share c in
      let (read, pending, queue) =
        flush_shares-IsSent (n + 1) rest next refl (omega (arith, small))
          (append-IsFresh n share c.pending fresh) open_socket takes in
      let line = submit_line config (pos n) share in
      let delivered =
        (requests-IsDelivered floats (pos n) [] config.username [] share.job_id
          share.extranonce2_hex (to_big_endian_hex32 share.n_time) (to_big_endian_hex32 share.nonce)
          (omega (arith, small))).2 in
      subst
        (λ (first : Step Double).
          IsSent n (share ∷ rest) c (and_next first λ d. flush_shares config sends rest d))
        (sym (flush_share-sent n share c id (omega (arith, small)) fresh open_socket takes))
        (
          (line, (flush_shares config sends rest next).1, refl, delivered, read),
          pending ∙ append_assoc c.pending ((pos n, share) ∷ []) (number_from (n + 1) rest),
          queue,
        )

  -- Let the next id be n, let n and the number of queued shares be at most 9 * 10 ^ 15 together,
  -- let no number from n on be an id that waits for an answer, and let the socket be open and take
  -- every line. Then flushing sends one line for each queued share, in order, and a pool that
  -- receives and parses the line reads one message with that share's id, which counts up from n,
  -- the method mining.submit, and the user, job, extranonce2, time and nonce of the share; the
  -- shares wait for an answer under these ids, and the queue is empty.
  pub flush_outbound_queue-IsSent :
      (n : ℕ) (c : Client Double)
      → c.next_id ≡ pos n
      → n + length c.outbound ≤ 9 * 10 ^ 15
      → IsFresh n c.pending
      → c.socket_open ≡ true
      → ((line : Text) → sends line ≡ true)
      → IsSent n c.outbound (record c { outbound = [] }) (flush_outbound_queue config sends c)
  unfolding flush_outbound_queue
  flush_outbound_queue-IsSent n c id small fresh open_socket takes =
      flush_shares-IsSent n c.outbound (record c { outbound = [] }) id small fresh open_socket takes
