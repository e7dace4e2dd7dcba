-- ===== src/Mining.antt =====
-- src/mining: the work built from a job of the pool, the search over its nonces, and the statistics.
pub mod Work
pub mod Search
pub mod Controller
pub mod Worker
pub mod Statistics
