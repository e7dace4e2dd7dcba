-- ===== src/Stratum.antt =====
-- src/stratum: the messages of the pool as lines over a byte stream, and the client that handles them.
pub mod Lines
pub mod Fields
pub mod Messages
pub mod Payloads
pub mod Client
