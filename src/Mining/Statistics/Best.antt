-- ===== src/Mining/Statistics/Best.antt =====
-- About the counters of src/mining/stats.cpp: accepted shares and the best of them.
use bitcoin_miner.Base.{
  ◌≤◌, ◌<◌, List, [], ◌∷◌, ◌≡◌, refl, sym, ap, ◌∙◌, subst, arith, inl, inr, ◌⊎◌, Bool-cases, All,
}
use bitcoin_miner.Bitcoin.UInt256.{UInt256, Fits, value, gt256}
use bitcoin_miner.Bitcoin.UInt256.Order.{gt256_iff}
use bitcoin_miner.Mining.Statistics.{Statistics, record_accepted_share}

-- Shares that are accepted one after the other.
abbrev pub record_all : {D : Type 0} → List (UInt256 × D) → Statistics D → Statistics D
record_all [] s = s
record_all ((difficulty, approx) ∷ rest) s =
    record_all rest (record_accepted_share difficulty approx s)

module _ {D : Type 0} where
  abbrev pub AllFit : List (UInt256 × D) → Type 0
  AllFit = All λ share. Fits (share.0)

  abbrev pub Best : Statistics D → UInt256
  Best s = s.best_share_difficulty

  -- One share: the best is the larger of the two.
  data Chosen (d : UInt256) (approx : D) (s : Statistics D) : Type 0 where
    better :
        value (Best s) < value d
        → Best (record_accepted_share d approx s) ≡ d
        → (record_accepted_share d approx s).best_share_difficulty_approx ≡ approx
        → Chosen d approx s
    no_better :
        value d ≤ value (Best s)
        → Best (record_accepted_share d approx s) ≡ Best s
        → (record_accepted_share d approx s).best_share_difficulty_approx
          ≡ s.best_share_difficulty_approx
        → Chosen d approx s

  choose :
      (d : UInt256) (approx : D) (s : Statistics D) → Fits d → Fits (Best s) → Chosen d approx s
  unfolding record_accepted_share
  choose d approx s hd hs = elim (Bool-cases (gt256 d (Best s))) [
    | inl above ↦ better ((gt256_iff d (Best s) hd hs).0 above) (rw above refl) (rw above refl)
    | inr below ↦
        no_better (ground (arith, gt256_iff d (Best s) hd hs, below)) (rw below refl)
          (rw below refl)
  ]

  abbrev pub IsAmong : List (UInt256 × D) → UInt256 → D → Type 0
  IsAmong [] best approx = ⊥
  IsAmong ((d, x) ∷ rest) best approx = ((best ≡ d) × (approx ≡ x)) ⊎ IsAmong rest best approx

  -- No share is above the best, which is the best before or one of the shares, with its double.
  abbrev pub IsBest : List (UInt256 × D) → Statistics D → Statistics D → Type 0
  IsBest shares s t =
      All (λ share. value (share.0) ≤ value (Best t)) shares
      × (value (Best s) ≤ value (Best t))
      × (((Best t ≡ Best s) × (t.best_share_difficulty_approx ≡ s.best_share_difficulty_approx))
          ⊎ IsAmong shares (Best t) t.best_share_difficulty_approx)

  step-IsBest :
      (d : UInt256) (x : D) (rest : List (UInt256 × D)) (s t : Statistics D)
      → Chosen d x s
      → IsBest rest (record_accepted_share d x s) t
      → IsBest ((d, x) ∷ rest) s t
  step-IsBest d x rest s t (better up e e') (all, low, which) =
      let over : value d ≤ value (Best t) = omega (arith, ap value e, low) in
      (
        (over, all),
        omega (arith, over, up),
        inr (elim which [ inl same ↦ inl (same.0 ∙ e, same.1 ∙ e') | inr among ↦ inr among ]),
      )
  step-IsBest d x rest s t (no_better down e e') (all, low, which) =
      let over : value (Best s) ≤ value (Best t) = omega (arith, ap value e, low) in
      (
        (omega (arith, over, down), all),
        over,
        elim which [ inl same ↦ inl (same.0 ∙ e, same.1 ∙ e') | inr among ↦ inr (inr among) ],
      )

  accepted-Fits :
      (d : UInt256) (x : D) (s : Statistics D)
      → Fits d
      → Fits (Best s)
      → Chosen d x s
      → Fits (Best (record_accepted_share d x s))
  accepted-Fits d x s hd hs (better up e e') = subst Fits (sym e) hd
  accepted-Fits d x s hd hs (no_better down e e') = subst Fits (sym e) hs

  -- For difficulties that fit their limbs, the best after some accepted shares is at least each of
  -- them and the best before, and is the one before or one of them, with the double that came with
  -- it.
  pub record_all-IsBest :
      (shares : List (UInt256 × D)) (s : Statistics D)
      → AllFit shares
      → Fits (Best s)
      → IsBest shares s (record_all shares s)
  record_all-IsBest [] s h hs = (tt, omega arith, inl (refl, refl))
  record_all-IsBest ((d, x) ∷ rest) s h hs =
      let chosen = choose d x s h.0 hs in
      step-IsBest d x rest s (record_all rest (record_accepted_share d x s)) chosen (
        record_all-IsBest rest (record_accepted_share d x s) h.1
          (accepted-Fits d x s h.0 hs chosen))
