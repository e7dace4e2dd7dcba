-- ===== src/Stratum/Client/Submit.antt =====
-- About `submitShare` of src/stratum/client.cpp.
use bitcoin_miner.Base.{Bool, true, false, [], ◌∷◌, ◌++◌, ◌≡◌, ◌≢◌, refl, inl, inr, ◌⊎◌}
use bitcoin_miner.Mining.Controller.{
  PoolState, disconnected, connecting, connected, subscribed, authorized, failed, ShareSubmission,
}
use bitcoin_miner.Stratum.Client.{Client, submit_share}

module _ {D : Type 0} (share : ShareSubmission) (c : Client D) where
  -- A share is queued when the session is authorized, and else refused.
  pub submit_share-cases :
      ((c.state ≡ authorized)
        × (submit_share share c ≡ (true, record c { outbound = c.outbound ++ share ∷ [] })))
      ⊎ ((c.state ≢ authorized) × (submit_share share c ≡ (false, c)))
  unfolding submit_share
  submit_share-cases = go c.state
    where
      result : PoolState → Bool × Client D
      result s = elim s [
        | authorized ↦ (true, record c { outbound = c.outbound ++ share ∷ [] })
        | _ ↦ (false, c)
      ]

      go :
          (s : PoolState)
          → ((s ≡ authorized)
              × (result s ≡ (true, record c { outbound = c.outbound ++ share ∷ [] })))
            ⊎ ((s ≢ authorized) × (result s ≡ (false, c)))
      go authorized = inl (refl, refl)
      go disconnected = inr (λ e. cc, refl)
      go connecting = inr (λ e. cc, refl)
      go connected = inr (λ e. cc, refl)
      go subscribed = inr (λ e. cc, refl)
      go failed = inr (λ e. cc, refl)
