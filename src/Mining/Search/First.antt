-- ===== src/Mining/Search/First.antt =====
-- About `CpuReferenceMiner::mine` and `verify` of src/mining/miner.cpp: which rounds the search
-- runs and what it reports.
use bitcoin_miner.Base.{
  ℕ, zero, suc, ◌+◌, ◌-◌, ◌%◌, ◌≤◌, ◌<◌, Bool, true, false, ◌&&◌, List, some, ◌≡◌, refl, sym, ap,
  subst, ◌∙◌, ◌⊎◌, arith, Bool-cases, inl, inr, not, ◌==◌, ==_iff, if◌then◌else◌, u32, length,
}
use bitcoin_miner.Bitcoin.Header.{set_header_nonce}
use bitcoin_miner.Bitcoin.Header.Laws.{set_header_nonce_again}
use bitcoin_miner.Bitcoin.Difficulty.{hash_meets_target}
use bitcoin_miner.Mining.Work.{MiningWork, hash_work_at_nonce}
use bitcoin_miner.Mining.Search.{
  MiningResult, failure, invalid_work, blank_result, search_loop, mine, verify,
}

module _ {D : Type 0} (stop : ℕ → Bool) (work : MiningWork D) (start : ℕ) where
  -- The hash that round j computes.
  abbrev pub hash_in_round : ℕ → List ℕ
  hash_in_round j = hash_work_at_nonce work (u32 (start + j))

  abbrev meets : ℕ → Bool
  meets j = hash_meets_target (hash_in_round j) work.share_target

  -- What is true of the result of the rounds from i up to i + left.
  record Searched (i left : ℕ) (r : MiningResult) : Type 0 where
    from : i ≤ r.hashes_performed
    upto : r.hashes_performed ≤ i + left
    only_last :
        (j : ℕ)
        → i ≤ j
        → j < r.hashes_performed
        → meets j ≡ (r.found && (suc j == r.hashes_performed))
    last : r.found ≡ true → i < r.hashes_performed
    nonce_is : r.found ≡ true → r.nonce ≡ u32 (start + (r.hashes_performed - 1))
    hash_is : r.found ≡ true → r.hash ≡ hash_in_round (r.hashes_performed - 1)
    network_is :
        r.found ≡ true → r.meets_network_target ≡ hash_meets_target r.hash work.network_target
    ended :
        (r.found ≡ true)
        ⊎ ((r.hashes_performed ≡ i + left)
            ⊎ ((r.hashes_performed % 4096 ≡ 0) × (stop r.hashes_performed ≡ true)))

  -- A round that misses goes before the rest.
  missed :
      (i left : ℕ) (r : MiningResult)
      → meets i ≡ false
      → Searched (i + 1) left r
      → Searched i (suc left) r
  missed i left r miss s = record {
    from = omega (arith, s.from);
    upto = omega (arith, s.upto);
    only_last = λ j a b. elim (Bool-cases (j == i)) [
      | inl e ↦
          let here : j ≡ i = (==_iff j i).0 e in
          let after : (r.found && (suc j == r.hashes_performed)) ≡ false =
            elim (Bool-cases r.found) [
              | inl won ↦ ground (arith, s.last won, here)
              | inr lost ↦ rw lost refl
            ] in
          ap meets here ∙ miss ∙ sym after
      | inr e ↦ s.only_last j (ground (arith, a, e)) b
    ];
    last = λ e. omega (arith, s.last e);
    nonce_is = s.nonce_is;
    hash_is = s.hash_is;
    network_is = s.network_is;
    ended = elim s.ended [
      | inl won ↦ inl won
      | inr (inl all) ↦ inr (inl (omega (arith, all)))
      | inr (inr halted) ↦ inr (inr halted)
    ];
  }

  stopped : (i : ℕ) → ((i % 4096 == 0) && stop i) ≡ true → (i % 4096 ≡ 0) × (stop i ≡ true)
  stopped i h = ground (arith, h)

  search_loop-Searched :
      (left i : ℕ) (header : List ℕ)
      → ((n : ℕ) → set_header_nonce header n ≡ set_header_nonce work.header_bytes n)
      → length work.header_bytes ≡ 80
      → Searched i left (search_loop stop work start left i header i)
  unfolding search_loop hash_work_at_nonce
  search_loop-Searched zero i header same bytes = record {
    from = omega arith;
    upto = omega arith;
    only_last = λ j a b. absurd (omega (arith, a, b));
    last = λ e. cc;
    nonce_is = λ e. cc;
    hash_is = λ e. cc;
    network_is = λ e. cc;
    ended = inr (inl (omega arith));
  }
  search_loop-Searched (suc left) i header same bytes =
      elim (Bool-cases ((i % 4096 == 0) && stop i)) [
        | inl halt ↦ rw halt (record {
          from = omega arith;
          upto = omega arith;
          only_last = λ j a b. absurd (omega (arith, a, b));
          last = λ e. cc;
          nonce_is = λ e. cc;
          hash_is = λ e. cc;
          network_is = λ e. cc;
          ended = inr (inr (stopped i halt));
        })
        | inr on ↦ elim (Bool-cases (meets i)) [
          | inl hit ↦
              rw (on, same (u32 (start + i)), hit)
                (record {
                  from = omega arith;
                  upto = omega arith;
                  only_last = λ j a b.
                      let here : j ≡ i = omega (arith, a, b) in
                      ap meets here ∙ hit ∙ sym ((==_iff _ _).1 (omega (arith, here)));
                  last = λ e. omega arith;
                  nonce_is = λ e. ap (λ (t : ℕ). u32 (start + t)) {x = i} (omega arith);
                  hash_is = λ e. ap hash_in_round {x = i} (omega arith);
                  network_is = λ e. refl;
                  ended = inl refl;
                })
          | inr miss ↦
              rw (on, same (u32 (start + i)), miss)
                (missed i left _ miss (
                  search_loop-Searched left (i + 1)
                    (set_header_nonce work.header_bytes (u32 (start + i)))
                    (λ n. set_header_nonce_again work.header_bytes (u32 (start + i)) n bytes)
                    bytes))
        ]
      ]

  abbrev IsWork : Type 0
  IsWork = (work.valid ≡ true) × (length work.header_bytes ≡ 80)

  mine-Searched : (count : ℕ) → IsWork → Searched 0 count (mine stop work start count)
  unfolding mine search_loop
  mine-Searched zero (valid, bytes) =
      subst (λ b. Searched 0 0 (if not b then failure invalid_work else blank_result)) (sym valid)
        (search_loop-Searched 0 0 work.header_bytes (λ n. refl) bytes)
  mine-Searched (suc count) (valid, bytes) =
      let search = search_loop stop work start (suc count) 0 work.header_bytes 0 in
      let some_nonce : (suc count == 0) ≡ false = ground arith in
      let checked = if suc count == 0 then blank_result else search in
      subst (λ b. Searched 0 (suc count) (if not b then failure invalid_work else checked))
        (sym valid)
        (subst (λ b. Searched 0 (suc count) (if b then blank_result else search)) (sym some_nonce)
          (search_loop-Searched (suc count) 0 work.header_bytes (λ n. refl) bytes))

  -- The check of a nonce, for valid work.
  verify-valid :
      (nonce : ℕ) (hash : List ℕ)
      → work.valid ≡ true
      → hash_work_at_nonce work nonce ≡ hash
      → hash_meets_target hash work.share_target ≡ true
      → verify work nonce ≡ record {
        hash_out = some hash;
        meets_share_target = true;
        meets_network_target = hash_meets_target hash work.network_target;
        returned = true;
      }
  unfolding verify
  verify-valid nonce hash valid hash_is meets_share = simp (valid, hash_is, meets_share) refl

  -- For valid work of 80 header bytes and each round that the search performed, the hash of that
  -- round's nonce meets the share target exactly when the search reports a find and the round is
  -- its last one.
  pub mine-first :
      (count j : ℕ)
      → work.valid ≡ true
      → length work.header_bytes ≡ 80
      → j < (mine stop work start count).hashes_performed
      → hash_meets_target (hash_in_round j) work.share_target ≡ (
          (mine stop work start count).found
          && (suc j == (mine stop work start count).hashes_performed))
  mine-first count j valid bytes h =
      let s = mine-Searched count (valid, bytes) in s.only_last j (omega arith) h

  -- For valid work of 80 header bytes, a search that reports a find has hashed at least one nonce
  -- and at most as many as asked for; the nonce it reports is that of its last round, counted from
  -- the start modulo 2 ^ 32; and verifying that nonce returns the reported hash, confirms the share
  -- target and gives the reported verdict on the network target.
  pub mine-verify :
      (count : ℕ)
      → work.valid ≡ true
      → length work.header_bytes ≡ 80
      → (mine stop work start count).found ≡ true
      → (let r = mine stop work start count in
          (0 < r.hashes_performed)
          × (r.hashes_performed ≤ count)
          × (r.nonce ≡ u32 (start + (r.hashes_performed - 1)))
          × (verify work r.nonce ≡ record {
            hash_out = some r.hash;
            meets_share_target = true;
            meets_network_target = r.meets_network_target;
            returned = true;
          }))
  mine-verify count valid bytes won =
      let s = mine-Searched count (valid, bytes) in
      let r = mine stop work start count in
      let last : suc (r.hashes_performed - 1) ≡ r.hashes_performed = omega (arith, s.last won) in
      let only_hit : (r.found && (suc (r.hashes_performed - 1) == r.hashes_performed)) ≡ true =
        rw (won, (==_iff _ _).1 last) refl in
      let hash_is : hash_work_at_nonce work r.nonce ≡ r.hash =
        ap (hash_work_at_nonce work) (s.nonce_is won) ∙ sym (s.hash_is won) in
      let meets_last : hash_meets_target r.hash work.share_target ≡ true =
        ap (λ h. hash_meets_target h work.share_target) (s.hash_is won)
        ∙ s.only_last (r.hashes_performed - 1) (omega arith) (omega (arith, last))
        ∙ only_hit in
      (
        s.last won,
        omega (arith, s.upto),
        s.nonce_is won,
        rw (s.network_is won) (verify-valid r.nonce r.hash valid hash_is meets_last),
      )

  -- For valid work of 80 header bytes, a search that reports no find has hashed every nonce asked
  -- for, or has stopped at a round whose number is a multiple of 4096 because the stop flag was set
  -- there.
  pub mine_complete :
      (count : ℕ)
      → work.valid ≡ true
      → length work.header_bytes ≡ 80
      → (mine stop work start count).found ≡ false
      → ((mine stop work start count).hashes_performed ≡ count)
        ⊎ (((mine stop work start count).hashes_performed % 4096 ≡ 0)
            × (stop (mine stop work start count).hashes_performed ≡ true))
  mine_complete count valid bytes lost =
      let s = mine-Searched count (valid, bytes) in
      elim s.ended [
        | inl won ↦ cc
        | inr (inl all) ↦ inl (omega (arith, all))
        | inr (inr halted) ↦ inr halted
      ]
