-- ===== src/Core/Config/Laws.antt =====
-- About src/core/config.cpp: ports, secrets, and a configuration written and read.
use bitcoin_miner.Base.{
  ℕ, suc, ◌*◌, ◌-◌, ◌%◌, ◌^◌, ◌≤◌, ◌<◌, Bool, true, false, ◌≡◌, refl, sym, ap, ◌∙◌, arith, not, ltb,
  ltb-false, if◌then◌else◌, Text, codes, ℤ, pos, negsuc, magnitude,
}
use bitcoin_miner.Base.Texts.{◌=t=◌}
use bitcoin_miner.Util.Json.{
  Json, Floats, number, is_null, is_object, is_empty, has, lookup, set, put, find, as_string,
  as_int, as_number,
}
use bitcoin_miner.Core.Config.{
  MinerConfig, PoolConfig, GpuConfig, DashboardConfig, Config, to_int32, patched, port_of, to_port,
  read_threads, read_device, patch_miner, patch_pool, patch_gpu, patch_dashboard,
  apply_partial_json, miner_json, pool_json, gpu_json, dashboard_json, to_json,
}

abbrev pub IsPort : ℕ → Type 0
IsPort p = (0 < p) × (p ≤ 65535)

-- Both ports can be used.
abbrev pub HasPorts : {D : Type 0} → Config D → Type 0
HasPorts c = IsPort c.pool.port × IsPort c.dashboard.port

module _ (floats : Floats) where
  open floats use {Double, of_int, whole_cast}

  port_of-IsPort : (z : ℤ) (fallback : ℕ) → IsPort fallback → IsPort (port_of floats z fallback)
  unfolding port_of
  port_of-IsPort (negsuc n) fallback h = h
  port_of-IsPort (pos n) fallback h = (ground arith, ground arith)

  to_port-IsPort :
      (v : Json Double) (fallback : ℕ) → IsPort fallback → IsPort (to_port floats v fallback)
  unfolding to_port
  to_port-IsPort v fallback h = go (is_null v)
    where
      go :
          (b : Bool)
          → IsPort
              (if b then fallback else port_of floats (as_int floats v (pos fallback)) fallback)
      go true = h
      go false = port_of-IsPort (as_int floats v (pos fallback)) fallback h

  patched-IsPort :
      (section : Json Double) (key : Text) (before : ℕ)
      → IsPort before
      → IsPort (patched section key (to_port floats) before)
  patched-IsPort section key before h = go (has section key)
    where
      go : (b : Bool) → IsPort (if b then to_port floats (lookup section key) before else before)
      go true = to_port-IsPort (lookup section key) before h
      go false = h

  patch_pool-IsPort :
      (p : Json Double) (c : PoolConfig) → IsPort c.port → IsPort (patch_pool floats p c).port
  unfolding patch_pool
  patch_pool-IsPort p c h = go (is_object p)
    where
      go :
          (b : Bool)
          → IsPort
              (if b
                then record {
                  host = patched p (codes "host") as_string c.host;
                  port = patched p (codes "port") (to_port floats) c.port;
                  username = patched p (codes "username") as_string c.username;
                  password = patched p (codes "password") as_string c.password;
                }
                else c).port
      go true = patched-IsPort p (codes "port") c.port h
      go false = h

  patch_dashboard-IsPort :
      (d : Json Double) (c : DashboardConfig)
      → IsPort c.port
      → IsPort (patch_dashboard floats d c).port
  unfolding patch_dashboard
  patch_dashboard-IsPort d c h = go (is_object d)
    where
      go :
          (b : Bool)
          → IsPort
              (if b
                then record {
                  host = patched d (codes "host") as_string c.host;
                  port = patched d (codes "port") (to_port floats) c.port;
                  root = patched d (codes "root") as_string c.root;
                }
                else c).port
      go true = patched-IsPort d (codes "port") c.port h
      go false = h

  -- For a configuration whose two ports are from 1 to 65535, applying any patch leaves one whose
  -- ports are from 1 to 65535.
  pub apply_partial_json-HasPorts :
      (patch : Json Double) (c : Config Double)
      → HasPorts c
      → HasPorts (apply_partial_json floats patch c)
  unfolding apply_partial_json
  apply_partial_json-HasPorts patch c h = go (not (is_object patch))
    where
      go :
          (b : Bool)
          → HasPorts (
              if b then c else record {
                miner = patch_miner floats (lookup patch (codes "miner")) c.miner;
                pool = patch_pool floats (lookup patch (codes "pool")) c.pool;
                gpu = patch_gpu floats (lookup patch (codes "gpu")) c.gpu;
                dashboard = patch_dashboard floats (lookup patch (codes "dashboard")) c.dashboard;
              })
      go true = h
      go false = (patch_pool-IsPort _ c.pool h.0, patch_dashboard-IsPort _ c.dashboard h.1)

  -- Another password, set where the first is set, makes no difference to what leaves the process.
  pub to_json-password :
      (c : Config Double) (password : Text)
      → is_empty password ≡ is_empty c.pool.password
      → to_json floats false (record c { pool = record c.pool { password = password } })
        ≡ to_json floats false c
  unfolding to_json pool_json
  to_json-password c password same = rw same refl

  -- An `int`.
  abbrev pub IsInt32 : ℤ → Type 0
  IsInt32 (pos n) = n < 2 ^ 31
  IsInt32 (negsuc n) = n < 2 ^ 31

  to_int32-same : (z : ℤ) → IsInt32 z → to_int32 z ≡ z
  unfolding to_int32
  to_int32-same (pos n) h = ground arith
  to_int32-same (negsuc n) h =
      let back : 2 ^ 32 - (2 ^ 32 - 1 - n % 2 ^ 32) ≡ suc n = omega arith in
      let high : ltb (2 ^ 32 - 1 - n % 2 ^ 32) (2 ^ 31) ≡ false = ltb-false _ _ (omega arith) in
      rw (high, back) refl

  -- A configuration whose members have the values that their types and the reader allow.
  abbrev pub IsConfig : Config Double → Type 0
  IsConfig c =
      IsInt32 c.miner.device × ((n : ℕ) × (c.miner.cpu_threads ≡ pos n) × (n < 2 ^ 31)) × HasPorts c

  IsInt32-small : (z : ℤ) → IsInt32 z → magnitude z < 9 * 10 ^ 15
  IsInt32-small (pos n) h = omega arith
  IsInt32-small (negsuc n) h = omega arith

  read_device-number :
      (z before : ℤ) → IsInt32 z → read_device floats (number (of_int z)) before ≡ z
  unfolding read_device as_int
  read_device-number z before h = ap to_int32 (whole_cast z (IsInt32-small z h)) ∙ to_int32-same z h

  read_threads-number :
      (n : ℕ) (before : ℤ)
      → n < 2 ^ 31
      → read_threads floats (number (of_int (pos n))) before ≡ pos n
  unfolding read_threads as_int
  read_threads-number n before h =
      rw (read_threads, whole_cast (pos n) (omega arith)) (to_int32-same (pos n) h)

  to_port-number : (p before : ℕ) → IsPort p → to_port floats (number (of_int (pos p))) before ≡ p
  unfolding to_port as_int port_of
  to_port-number p before h = rw (whole_cast (pos p) (omega arith)) (ground arith)

  miner-back :
      (c before : MinerConfig)
      → IsInt32 c.device
      → (n : ℕ) × (c.cpu_threads ≡ pos n) × (n < 2 ^ 31)
      → patch_miner floats (miner_json floats c) before ≡ c
  unfolding patch_miner miner_json set put lookup has find ◌=t=◌ as_string
  miner-back c before device (n, threads, low) =
      let same : read_threads floats (number (of_int c.cpu_threads)) before.cpu_threads
          ≡ c.cpu_threads =
        ap (λ z. read_threads floats (number (of_int z)) before.cpu_threads) threads
        ∙ read_threads-number n before.cpu_threads low
        ∙ sym threads in
      rw (read_device-number c.device before.device device, same) refl

  pool-back :
      (c before : PoolConfig)
      → IsPort c.port
      → patch_pool floats (pool_json floats true c) before ≡ c
  unfolding patch_pool pool_json set put lookup has find ◌=t=◌ as_string
  pool-back c before h = rw (to_port-number c.port before.port h) refl

  gpu-back : (c before : GpuConfig Double) → patch_gpu floats (gpu_json floats c) before ≡ c
  unfolding patch_gpu gpu_json set put lookup has find ◌=t=◌ as_number
  gpu-back c before = refl

  dashboard-back :
      (c before : DashboardConfig)
      → IsPort c.port
      → patch_dashboard floats (dashboard_json floats c) before ≡ record c { root = before.root }
  unfolding patch_dashboard dashboard_json set put lookup has find ◌=t=◌ as_string
  dashboard-back c before h = rw (to_port-number c.port before.port h) refl

  -- For a configuration whose device is a signed 32-bit number, whose number of threads is such a
  -- number and not negative, and whose ports are from 1 to 65535, writing it with its password and
  -- applying that to any other configuration gives it back, but for the directory of the dashboard,
  -- which stays the other's.
  pub apply_partial_json-to_json :
      (c before : Config Double)
      → IsConfig c
      → apply_partial_json floats (to_json floats true c) before
        ≡ record c { dashboard = record c.dashboard { root = before.dashboard.root } }
  unfolding apply_partial_json to_json set put lookup find ◌=t=◌
  apply_partial_json-to_json c before (device, threads, ports) =
      rw
        (
          miner-back c.miner before.miner device threads,
          pool-back c.pool before.pool ports.0,
          gpu-back c.gpu before.gpu,
          dashboard-back c.dashboard before.dashboard ports.1,
        )
        refl
