-- ===== src/Bitcoin/Merkle/Branch.antt =====
-- About src/bitcoin/merkle.cpp: the branch of the coinbase and the rounds of the loop.
use bitcoin_miner.Base.{
  ℕ, zero, suc, ◌+◌, ◌*◌, ◌/◌, ◌%◌, ◌≤◌, ◌<◌, true, List, [], ◌∷◌, ◌++◌, ◌≡◌, refl, ap, ◌∙◌, arith,
  Bool-cases, inl, inr, ◌==◌, ltb, length, get_or, length-append, lt→ltb,
}
use bitcoin_miner.Bitcoin.Hash.{double_sha256_concat, zero_hash}
use bitcoin_miner.Bitcoin.Merkle.{
  back, pad_level, pair_up, next_level, root_loop, merkle_root_from_leaves, merkle_root_from_branch,
  branch_loop, merkle_branch_for_coinbase,
}

-- What a level of two or more is padded to: the first two hashes stay in front.
pad_level-cons :
    (x : List ℕ) (rest : List (List ℕ))
    → (tail : List (List ℕ)) × ((a : List ℕ) → pad_level (a ∷ x ∷ rest) ≡ a ∷ x ∷ tail)
unfolding pad_level
pad_level-cons x rest = elim (Bool-cases (length (x ∷ x ∷ rest) % 2 == 0)) [
  | inl e ↦ (rest, λ a. rw e)
  | inr e ↦ (rest ++ back x rest ∷ [], λ a. rw e)
]

next_level-cons :
    (x : List ℕ) (rest : List (List ℕ))
    → (tail : List (List ℕ)) × ((a : List ℕ)
        → (next_level (a ∷ x ∷ rest) ≡ double_sha256_concat a x ∷ tail)
          × (get_or (pad_level (a ∷ x ∷ rest)) 1 zero_hash ≡ x))
unfolding pair_up
next_level-cons x rest =
    let (tail, e) = pad_level-cons x rest in
    (pair_up tail, λ a. (ap pair_up (e a), ap (λ l. get_or l 1 zero_hash) (e a)))

merkle_root_from_branch-append :
    (acc x : List ℕ) (bs : List (List ℕ))
    → merkle_root_from_branch acc (bs ++ x ∷ [])
      ≡ double_sha256_concat (merkle_root_from_branch acc bs) x
unfolding merkle_root_from_branch
merkle_root_from_branch-append acc x [] = refl
merkle_root_from_branch-append acc x (b ∷ bs) =
    merkle_root_from_branch-append (double_sha256_concat acc b) x bs

-- The two loops, over levels that differ at most in the first hash.
loops_agree :
    (fuel : ℕ) (a b c : List ℕ) (rest branch : List (List ℕ))
    → merkle_root_from_branch c branch ≡ b
    → merkle_root_from_branch c (branch_loop fuel (a ∷ rest) branch)
      ≡ get_or (root_loop fuel (b ∷ rest)) 0 zero_hash
unfolding branch_loop root_loop
loops_agree zero a b c rest branch h = h
loops_agree (suc fuel) a b c [] branch h = h
loops_agree (suc fuel) a b c (x ∷ rest) branch h =
    let (tail, next) = next_level-cons x rest in
    let (next_a, sibling) = next a in
    let (next_b, _) = next b in
    let many : ltb 1 (suc (suc (length rest))) ≡ true = lt→ltb _ _ (omega arith) in
    rw (many, next_a, sibling, next_b)
      (loops_agree fuel (double_sha256_concat a x) (double_sha256_concat b x) c tail
        (branch ++ x ∷ [])
        (merkle_root_from_branch-append c x branch ∙ ap (λ t. double_sha256_concat t x) h))

-- For every coinbase hash and every list of the other leaves, folding the coinbase hash with the
-- branch computed for the coinbase position, whichever coinbase it was computed with, gives the
-- Merkle root of the tree with that coinbase and those leaves.
pub root-branch :
    (made own : List ℕ) (rest : List (List ℕ))
    → merkle_root_from_branch own (merkle_branch_for_coinbase (made ∷ rest))
      ≡ merkle_root_from_leaves (own ∷ rest)
unfolding merkle_branch_for_coinbase merkle_root_from_leaves
root-branch made own rest =
    loops_agree (length (made ∷ rest)) made own own rest [] (unfold merkle_root_from_branch in refl)

length-pad_level : (level : List (List ℕ)) → length (pad_level level) ≡ (length level + 1) / 2 * 2
unfolding pad_level
length-pad_level [] = refl
length-pad_level (a ∷ rest) = ground (arith, length-append rest (back a rest ∷ []))

length-pair_up : (level : List (List ℕ)) → length (pair_up level) ≡ length level / 2
unfolding pair_up
length-pair_up [] = refl
length-pair_up (a ∷ []) = refl
length-pair_up (a ∷ b ∷ rest) = omega (arith, length-pair_up rest)

-- On a level that is not empty, with at least one round of fuel less than it has hashes, the loop
-- ends with exactly one hash.
pub length-root_loop :
    (fuel : ℕ) (level : List (List ℕ))
    → 0 < length level
    → length level ≤ fuel + 1
    → length (root_loop fuel level) ≡ 1
unfolding root_loop
length-root_loop zero level pos h = omega arith
length-root_loop (suc fuel) level pos h = elim (Bool-cases (ltb 1 (length level))) [
  | inl more ↦
      let many : 1 < length level = ground arith in
      let size : length (next_level level) ≡ (length level + 1) / 2 =
        omega (arith, length-pair_up (pad_level level), length-pad_level level) in
      rw more (length-root_loop fuel (next_level level) (omega (arith, size)) (omega (arith, size)))
  | inr one ↦ rw one (ground arith)
]
