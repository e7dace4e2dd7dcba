-- ===== src/Mining/Work/Targets.antt =====
-- About `buildWorkWithExtranonce2` of src/mining/work.cpp: the two targets.
use bitcoin_miner.Base.{
  ℕ, ◌<◌, Bool, true, List, ◌≡◌, refl, arith, Bool-cases, inl, inr, if◌then◌else◌,
}
use bitcoin_miner.Bitcoin.UInt256.{Fits, value, is_zero}
use bitcoin_miner.Bitcoin.UInt256.Order.{is_zero_iff}
use bitcoin_miner.Bitcoin.Difficulty.{
  Doubles, target_from_compact_bits, target_from_share_difficulty,
}
use bitcoin_miner.Bitcoin.Difficulty.Decode.{value-target_from_compact_bits}
use bitcoin_miner.Bitcoin.Difficulty.Share.{target_from_share_difficulty-Fits}
use bitcoin_miner.Mining.Work.{
  MiningJob, share_target_or_network, assemble_work, build_work_with_extranonce2,
}
use bitcoin_miner.Mining.Work.Header.{built, build_work-valid}

module _ (doubles : Doubles) where
  open doubles use {Double}

  abbrev share_is_zero : MiningJob Double → Bool
  share_is_zero job = is_zero (target_from_share_difficulty doubles job.difficulty)

  -- When the work built from a job is valid, its share target and its network target are well
  -- formed and not zero, and the share target is that of the job's difficulty, or the network
  -- target when that one is zero.
  pub build_work-targets :
      (job : MiningJob Double) (extranonce2 : List ℕ)
      → (build_work_with_extranonce2 doubles job extranonce2).valid ≡ true
      → (let work = build_work_with_extranonce2 doubles job extranonce2 in
          let share = target_from_share_difficulty doubles job.difficulty in
          (0 < value work.share_target)
          × Fits work.share_target
          × (0 < value work.network_target)
          × Fits work.network_target
          × (work.share_target ≡ (if is_zero share then work.network_target else share)))
  unfolding assemble_work share_target_or_network
  build_work-targets job extranonce2 valid =
      let network = target_from_compact_bits job.n_bits in
      let share = target_from_share_difficulty doubles job.difficulty in
      let (_, network_fits) = value-target_from_compact_bits job.n_bits in
      let share_fits = target_from_share_difficulty-Fits doubles job.difficulty in
      let (_, _, network_pos) = (build_work-valid doubles job extranonce2).0 valid in
      rw (built doubles job extranonce2 valid) (elim (Bool-cases (share_is_zero job)) [
        | inl z ↦ rw z (network_pos, network_fits, network_pos, network_fits, refl)
        | inr p ↦
            rw p (ground (arith, is_zero_iff share), share_fits, network_pos, network_fits, refl)
      ])
