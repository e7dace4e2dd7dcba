-- ===== src/Examples/Numbers.antt =====
-- 256-bit numbers whose limbs carry, borrow and shift into each other.
use bitcoin_miner.Base.{◌+◌, ◌-◌, ◌*◌, ◌^◌, ◌<◌, ◌≡◌, arith}
use bitcoin_miner.Bitcoin.UInt256.{UInt256, Fits, value, divide}
use bitcoin_miner.Bitcoin.UInt256.Divide.{divide_exact}

abbrev big : UInt256
big = record { limb0 = 2 ^ 64 - 1; limb1 = 7; limb2 = 0; limb3 = 2 ^ 63 }

abbrev small : UInt256
small = record { limb0 = 3; limb1 = 1; limb2 = 0; limb3 = 0 }

big-Fits : Fits big
big-Fits = omega arith

small-Fits : Fits small
small-Fits = omega arith

divide_exact_example :
    (value big
      ≡ value (divide big small).quotient * value small + value (divide big small).remainder)
    × (value (divide big small).remainder < value small)
    × Fits (divide big small).quotient
    × Fits (divide big small).remainder
divide_exact_example = divide_exact big small big-Fits small-Fits (omega arith)
