-- ===== src/Bitcoin.antt =====
-- The Bitcoin primitives: src/bitcoin of the repository.
pub mod UInt256
pub mod Sha256
pub mod Hash
pub mod Header
pub mod Merkle
pub mod Difficulty
