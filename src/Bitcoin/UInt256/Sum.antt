-- ===== src/Bitcoin/UInt256/Sum.antt =====
-- About `operator+` and `operator-` of src/bitcoin/uint256.cpp.
use bitcoin_miner.Base.{ℕ, ◌+◌, ◌-◌, ◌*◌, ◌%◌, ◌^◌, ◌≤◌, ◌<◌, ◌≡◌, arith}
use bitcoin_miner.Bitcoin.UInt256.{UInt256, Fits, value, add_limb, sub_limb, add256, sub256}

add_limb_lem :
    (a b carry : ℕ)
    → a < 2 ^ 64
    → b < 2 ^ 64
    → carry ≤ 1
    → ((add_limb a b carry).out + (add_limb a b carry).carry * 2 ^ 64 ≡ a + b + carry)
      × ((add_limb a b carry).out < 2 ^ 64)
      × ((add_limb a b carry).carry ≤ 1)
unfolding add_limb
add_limb_lem a b carry ha hb hc = ground arith

sub_limb_lem :
    (a b borrow : ℕ)
    → a < 2 ^ 64
    → b < 2 ^ 64
    → borrow ≤ 1
    → ((sub_limb a b borrow).out + b + borrow ≡ a + (sub_limb a b borrow).carry * 2 ^ 64)
      × ((sub_limb a b borrow).out < 2 ^ 64)
      × ((sub_limb a b borrow).carry ≤ 1)
unfolding sub_limb
sub_limb_lem a b borrow ha hb hc = ground arith

-- For well-formed numbers, the sum has the sum of the values modulo 2 ^ 256 and is well formed.
pub value-add256 :
    (a b : UInt256)
    → Fits a
    → Fits b
    → (value (add256 a b) ≡ (value a + value b) % 2 ^ 256) × Fits (add256 a b)
unfolding add256
value-add256 a b ha hb =
    let s0 = add_limb a.limb0 b.limb0 0 in
    let s1 = add_limb a.limb1 b.limb1 s0.carry in
    let s2 = add_limb a.limb2 b.limb2 s1.carry in
    let s3 = add_limb a.limb3 b.limb3 s2.carry in
    let l0 = add_limb_lem a.limb0 b.limb0 0 ha.0 hb.0 (omega arith) in
    let l1 = add_limb_lem a.limb1 b.limb1 s0.carry ha.1 hb.1 l0.2 in
    let l2 = add_limb_lem a.limb2 b.limb2 s1.carry ha.2 hb.2 l1.2 in
    let l3 = add_limb_lem a.limb3 b.limb3 s2.carry ha.3 hb.3 l2.2 in omega (arith, l0, l1, l2, l3)

-- For well-formed numbers, the difference has the difference of the values modulo 2 ^ 256 and is
-- well formed.
pub value-sub256 :
    (a b : UInt256)
    → Fits a
    → Fits b
    → (value (sub256 a b) ≡ (value a + 2 ^ 256 - value b) % 2 ^ 256) × Fits (sub256 a b)
unfolding sub256
value-sub256 a b ha hb =
    let s0 = sub_limb a.limb0 b.limb0 0 in
    let s1 = sub_limb a.limb1 b.limb1 s0.carry in
    let s2 = sub_limb a.limb2 b.limb2 s1.carry in
    let s3 = sub_limb a.limb3 b.limb3 s2.carry in
    let l0 = sub_limb_lem a.limb0 b.limb0 0 ha.0 hb.0 (omega arith) in
    let l1 = sub_limb_lem a.limb1 b.limb1 s0.carry ha.1 hb.1 l0.2 in
    let l2 = sub_limb_lem a.limb2 b.limb2 s1.carry ha.2 hb.2 l1.2 in
    let l3 = sub_limb_lem a.limb3 b.limb3 s2.carry ha.3 hb.3 l2.2 in omega (arith, l0, l1, l2, l3)
