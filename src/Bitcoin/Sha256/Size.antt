-- ===== src/Bitcoin/Sha256/Size.antt =====
-- About the size of the output of src/bitcoin/sha256.cpp.
use bitcoin_miner.Base.{ℕ, List, arith}
use bitcoin_miner.Bitcoin.UInt256.Bytes.{IsHash}
use bitcoin_miner.Bitcoin.Sha256.{
  State, Sha256, reset, update, digest, finalize, sha256, sha256d, write_be32,
}

pub digest-IsHash : (s : State) → IsHash (digest s)
unfolding digest write_be32
digest-IsHash s = omega arith

pub finalize-IsHash : (ctx : Sha256) → IsHash (finalize ctx)
unfolding finalize
finalize-IsHash ctx = digest-IsHash _

pub sha256-IsHash : (m : List ℕ) → IsHash (sha256 m)
unfolding sha256
sha256-IsHash m = finalize-IsHash (update reset m)

pub sha256d-IsHash : (m : List ℕ) → IsHash (sha256d m)
unfolding sha256d
sha256d-IsHash m = sha256-IsHash (sha256 m)
