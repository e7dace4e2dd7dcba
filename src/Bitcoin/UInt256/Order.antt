-- ===== src/Bitcoin/UInt256/Order.antt =====
-- About `UInt256::compare`, the order and `isZero` of src/bitcoin/uint256.cpp.
use bitcoin_miner.Base.{◌≤◌, ◌<◌, true, ◌≡◌, ◌↔◌, arith}
use Prim.Native.Nat.{compare}
use bitcoin_miner.Bitcoin.UInt256.{
  UInt256, Fits, value, compare256, lt256, le256, gt256, ge256, is_zero,
}

-- For well-formed numbers, comparing them limb by limb from the top gives the comparison of their
-- values.
pub compare256-value :
    (a b : UInt256) → Fits a → Fits b → compare256 a b ≡ compare (value a) (value b)
unfolding compare256
compare256-value a b ha hb = ground arith

pub le256_iff : (a b : UInt256) → Fits a → Fits b → (le256 a b ≡ true) ↔ (value a ≤ value b)
unfolding le256
le256_iff a b ha hb = ground (arith, compare256-value a b ha hb)

pub ge256_iff : (a b : UInt256) → Fits a → Fits b → (ge256 a b ≡ true) ↔ (value b ≤ value a)
unfolding ge256
ge256_iff a b ha hb = ground (arith, compare256-value a b ha hb)

pub lt256_iff : (a b : UInt256) → Fits a → Fits b → (lt256 a b ≡ true) ↔ (value a < value b)
unfolding lt256
lt256_iff a b ha hb = ground (arith, compare256-value a b ha hb)

pub gt256_iff : (a b : UInt256) → Fits a → Fits b → (gt256 a b ≡ true) ↔ (value b < value a)
unfolding gt256
gt256_iff a b ha hb = ground (arith, compare256-value a b ha hb)

pub is_zero_iff : (v : UInt256) → (is_zero v ≡ true) ↔ (value v ≡ 0)
unfolding is_zero
is_zero_iff v = ground arith
