-- ===== src/Examples/Hashes.antt =====
-- Texts, hashes and messages.
use bitcoin_miner.Base.{ℕ, List, [], ◌∷◌, ◌≡◌, replicate}
use bitcoin_miner.Bitcoin.Sha256.{sha256, reset, finalize}
use bitcoin_miner.Bitcoin.Sha256.Buffer.{concat}
use bitcoin_miner.Bitcoin.Sha256.Padding.{IsDigest, sha256-IsDigest}
use bitcoin_miner.Bitcoin.Sha256.Chunks.{updates, finalize-updates}
use bitcoin_miner.Bitcoin.Merkle.{
  merkle_root_from_branch, merkle_branch_for_coinbase, merkle_root_from_leaves,
}
use bitcoin_miner.Bitcoin.Merkle.Branch.{root-branch}

-- "00fFa7".
abbrev text : List ℕ
text = b'0' ∷ b'0' ∷ b'f' ∷ b'F' ∷ b'a' ∷ b'7' ∷ []

abbrev text_bytes : List ℕ
text_bytes = 0x00 ∷ 0xff ∷ 0xa7 ∷ []

abbrev hash_a : List ℕ
hash_a = 1 ∷ 2 ∷ 3 ∷ 4 ∷ replicate 28 0xc5

sha256-IsDigest_example : IsDigest text (sha256 text)
sha256-IsDigest_example = sha256-IsDigest text

finalize-updates_example :
    finalize (updates reset (text ∷ hash_a ∷ hash_a ∷ []))
    ≡ sha256 (concat (text ∷ hash_a ∷ hash_a ∷ []))
finalize-updates_example = finalize-updates (text ∷ hash_a ∷ hash_a ∷ [])

abbrev hash_b : List ℕ
hash_b = replicate 32 0x11

root-branch_example :
    merkle_root_from_branch hash_a (merkle_branch_for_coinbase (hash_b ∷ hash_b ∷ hash_a ∷ []))
    ≡ merkle_root_from_leaves (hash_a ∷ hash_b ∷ hash_a ∷ [])
root-branch_example = root-branch hash_b hash_a (hash_b ∷ hash_a ∷ [])
