-- ===== src/Examples.antt =====
-- The theorems at concrete numbers, hashes, headers and jobs.
pub mod Doubles
pub mod Numbers
pub mod Targets
pub mod Hashes
pub mod Headers
pub mod Jobs
pub mod Protocol
pub mod Floats
pub mod Texts
pub mod Sessions
pub mod Clients
pub mod Counters
