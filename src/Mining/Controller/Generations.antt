-- ===== src/Mining/Controller/Generations.antt =====
-- About `jobGeneration_` of src/mining/miner.cpp and the check of it in `workerLoop`.
use bitcoin_miner.Base.{
  ℕ, suc, ◌+◌, ◌^◌, ◌≤◌, ◌<◌, List, [], ◌∷◌, ◌≡◌, refl, ◌∙◌, ◌⊎◌, inl, inr, Bool-cases, arith,
  length,
}
use bitcoin_miner.Mining.Controller.{
  disconnected, connecting, connected, subscribed, authorized, failed, Shared, Event, job_event,
  difficulty_event, pool_event, snapshot_job, on_job, on_difficulty, on_pool_state, handle,
  handle_all,
}

module _ {D : Type 0} where
  -- A handler moves the generation up by one, or leaves the job as it was.
  abbrev Moves : Shared D → Shared D → Type 0
  Moves s t =
      (t.job_generation ≡ suc s.job_generation)
      ⊎ ((t.job_generation ≡ s.job_generation)
          × (t.current_job ≡ s.current_job)
          × (t.has_job ≡ s.has_job))

  handle-Moves : (e : Event D) (s : Shared D) → suc s.job_generation < 2 ^ 64 → Moves s (handle e s)
  unfolding on_job on_difficulty on_pool_state
  handle-Moves (job_event job) s room = inl (omega (arith, room))
  handle-Moves (difficulty_event d) s room = elim (Bool-cases s.has_job) [
    | inl some_job ↦ rw some_job (inl (omega (arith, room)))
    | inr no_job ↦ rw no_job (inr (refl, refl, refl))
  ]
  handle-Moves (pool_event disconnected) s room = inl (omega (arith, room))
  handle-Moves (pool_event connecting) s room = inr (refl, refl, refl)
  handle-Moves (pool_event connected) s room = inr (refl, refl, refl)
  handle-Moves (pool_event subscribed) s room = inr (refl, refl, refl)
  handle-Moves (pool_event authorized) s room = inr (refl, refl, refl)
  handle-Moves (pool_event failed) s room = inl (omega (arith, room))

  -- The same for a run of handlers.
  abbrev Ran : ℕ → Shared D → Shared D → Type 0
  Ran n s t =
      (t.job_generation ≤ s.job_generation + n)
      × ((s.job_generation < t.job_generation)
          ⊎ ((t.job_generation ≡ s.job_generation)
              × (t.current_job ≡ s.current_job)
              × (t.has_job ≡ s.has_job)))

  handle_all-Ran :
      (es : List (Event D)) (s : Shared D)
      → s.job_generation + length es < 2 ^ 64
      → Ran (length es) s (handle_all es s)
  handle_all-Ran [] s room = (omega arith, inr (refl, refl, refl))
  handle_all-Ran (e ∷ es) s room = elim (handle-Moves e s (omega (arith, room))) [
    | inl up ↦
        let (most, moved) = handle_all-Ran es (handle e s) (omega (arith, room, up)) in
        elim moved [
          | inl more ↦ (omega (arith, most, up), inl (omega (arith, more, up)))
          | inr (same, _, _) ↦ (omega (arith, most, up), inl (omega (arith, same, up)))
        ]
    | inr (same, job, has) ↦
        let (most, moved) = handle_all-Ran es (handle e s) (omega (arith, room, same)) in
        elim moved [
          | inl more ↦ (omega (arith, most, same), inl (omega (arith, more, same)))
          | inr (same', job', has') ↦
              (omega (arith, most, same), inr (same' ∙ same, job' ∙ job, has' ∙ has))
        ]
  ]

  -- When fewer events arrive than the generation can count without wrapping, and the generation
  -- after them is the one before, then a snapshot of the job gives the same job, with the same
  -- difficulty, or none, as before.
  pub handle_all-snapshot_job :
      (es : List (Event D)) (s : Shared D)
      → s.job_generation + length es < 2 ^ 64
      → (handle_all es s).job_generation ≡ s.job_generation
      → snapshot_job (handle_all es s) ≡ snapshot_job s
  unfolding snapshot_job
  handle_all-snapshot_job es s room same = elim (handle_all-Ran es s room).1 [
    | inl more ↦ absurd (omega (arith, more, same))
    | inr (_, job, has) ↦ rw (same, job, has) refl
  ]
