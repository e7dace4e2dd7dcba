-- ===== src/Mining/Controller/Shares.antt =====
-- About `handleFoundNonce` of src/mining/miner.cpp.
use bitcoin_miner.Base.{
  ℕ, ◌*◌, ◌-◌, ◌/◌, ◌^◌, ◌<◌, Bool, true, false, List, [], ◌∷◌, ◌++◌, some, ◌≡◌, refl, sym, ap, ◌∙◌,
  if◌then◌else◌, length,
}
use bitcoin_miner.Base.Bytes.{IsBytes, le_value}
use bitcoin_miner.Util.Hex.{from_hex}
use bitcoin_miner.Util.Hex.RoundTrip.{from_hex-to_hex}
use bitcoin_miner.Bitcoin.UInt256.{value}
use bitcoin_miner.Bitcoin.UInt256.Bytes.{IsHash}
use bitcoin_miner.Bitcoin.Sha256.Size.{sha256d-IsHash}
use bitcoin_miner.Bitcoin.Difficulty.{hash_meets_target}
use bitcoin_miner.Bitcoin.Difficulty.Share.{value-share_difficulty_fixed32}
use bitcoin_miner.Mining.Work.{MiningWork, hash_work_at_nonce}
use bitcoin_miner.Mining.Search.{mine, verify}
use bitcoin_miner.Mining.Search.First.{mine-verify}
use bitcoin_miner.Mining.Controller.{
  ShareSubmission, Effect, block_found, submitted, stale_share, submission, handle_found_nonce,
}

module _ {D : Type 0} (submit : ShareSubmission → Bool) (work : MiningWork D) where
  -- A nonce that fails the check has no effect.
  pub handle_found_nonce-unverified :
      (nonce : ℕ)
      → (verify work nonce).meets_share_target ≡ false
      → handle_found_nonce submit work nonce ≡ []
  unfolding handle_found_nonce
  handle_found_nonce-unverified nonce bad = rw bad refl

  -- The share says what the work and the hash are: its texts and numbers read back give the
  -- extranonce2 and the exact quotient of the difficulty-1 target by the number that the hash spells.
  pub record Reports (nonce : ℕ) (hash : List ℕ) (share : ShareSubmission) : Type 0 where
    pub job : share.job_id ≡ work.job_id
    pub extranonce : from_hex share.extranonce2_hex ≡ some work.extranonce2
    pub time : share.n_time ≡ work.header.timestamp
    pub at_nonce : share.nonce ≡ nonce
    pub ranked :
        0 < le_value hash → value share.achieved_difficulty_exact ≡ 0xffff * 2 ^ 240 / le_value hash
    pub top : le_value hash ≡ 0 → value share.achieved_difficulty_exact ≡ 2 ^ 256 - 1

  submission-Reports :
      (nonce : ℕ) (hash : List ℕ)
      → IsBytes work.extranonce2
      → IsHash hash
      → Reports nonce hash (submission work nonce hash)
  submission-Reports nonce hash bytes digest =
      let (rank, none_above) = value-share_difficulty_fixed32 hash digest in
      record {
        job = refl;
        extranonce = from_hex-to_hex work.extranonce2 bytes;
        time = refl;
        at_nonce = refl;
        ranked = rank;
        top = none_above;
      }

  hash_work_at_nonce-IsHash : (nonce : ℕ) → IsHash (hash_work_at_nonce work nonce)
  unfolding hash_work_at_nonce
  hash_work_at_nonce-IsHash nonce = sha256d-IsHash _

  -- One share is handed over, after the block that it may be, and counts as submitted or as stale.
  abbrev pub HandsOver : List Effect → ℕ → List ℕ → Type 0
  HandsOver effects nonce hash =
      (share : ShareSubmission) × Reports nonce hash share
      × (effects
          ≡ (if hash_meets_target hash work.network_target then block_found ∷ [] else [])
            ++ (if submit share then submitted share ∷ [] else stale_share ∷ []))

  abbrev pub Answers : List Effect → ℕ → List ℕ → Type 0
  Answers effects nonce hash =
      (hash_meets_target hash work.share_target ≡ false → effects ≡ [])
      × (hash_meets_target hash work.share_target ≡ true → HandsOver effects nonce hash)

  -- For valid work whose extranonce2 consists of bytes and any nonce, whatever backend reported it:
  -- if the hash of the work at the nonce misses the share target, handling the nonce has no effect;
  -- and else it records a block exactly when the hash meets the network target, and then hands over
  -- one share, which counts as submitted or, when the pool client refuses it, as stale. The share
  -- has the job, the time and the nonce, its extranonce2 text decodes to the work's extranonce2,
  -- and its difficulty is 0xffff * 2 ^ 240 divided by the number that the hash spells, rounded
  -- down, or 2 ^ 256 - 1 when that number is zero.
  pub handle_found_nonce-Answers :
      (nonce : ℕ)
      → work.valid ≡ true
      → IsBytes work.extranonce2
      → Answers (handle_found_nonce submit work nonce) nonce (hash_work_at_nonce work nonce)
  unfolding handle_found_nonce verify
  handle_found_nonce-Answers nonce valid extranonce =
      let hash = hash_work_at_nonce work nonce in
      (
        λ missed. simp (valid, missed) refl,
        λ met. (
          submission work nonce hash,
          submission-Reports nonce hash extranonce (hash_work_at_nonce-IsHash nonce),
          simp (valid, met) refl,
        ),
      )

  verify-share :
      (nonce : ℕ)
      → work.valid ≡ true
      → (verify work nonce).meets_share_target
        ≡ hash_meets_target (hash_work_at_nonce work nonce) work.share_target
  unfolding verify
  verify-share nonce valid = simp valid refl

  -- What a search finds is handed over.
  pub handle_found_nonce-mine :
      (stop : ℕ → Bool) (start count : ℕ)
      → work.valid ≡ true
      → length work.header_bytes ≡ 80
      → IsBytes work.extranonce2
      → (mine stop work start count).found ≡ true
      → (let nonce = (mine stop work start count).nonce in
          HandsOver (handle_found_nonce submit work nonce) nonce (hash_work_at_nonce work nonce))
  handle_found_nonce-mine stop start count valid bytes extranonce won =
      let (_, _, _, checked) = mine-verify stop work start count valid bytes won in
      let nonce = (mine stop work start count).nonce in
      (handle_found_nonce-Answers nonce valid extranonce).1
        (sym (verify-share nonce valid) ∙ ap (λ v. v.meets_share_target) checked)
