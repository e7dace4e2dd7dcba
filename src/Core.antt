-- ===== src/Core.antt =====
-- src/core: the configuration.
pub mod Config
