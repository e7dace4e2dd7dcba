-- ===== src/Util.antt =====
-- src/util: the hexadecimal text of bytes, and JSON.
pub mod Hex
pub mod Decimal
pub mod Json
