-- ===== src/Core/Config.antt =====
-- src/core/config.hpp and config.cpp: the configuration, read from JSON and written back. Opening the
-- file of `loadFromFile` is left to the system.
pub mod Laws
use bitcoin_miner.Base.{
  ℕ, zero, suc, ◌+◌, ◌-◌, ◌%◌, ◌^◌, Bool, true, false, ◌&&◌, ◌||◌, List, [], ◌∷◌, not, ltb, leb,
  ◌==◌, if◌then◌else◌, Text, codes, ℤ, pos, negsuc, negate, Option, none, some,
}
use bitcoin_miner.Util.Json.{
  Json, Floats, null, bool, number, string, object, no_members, is_null, is_object, is_empty, has,
  lookup, set, as_string, as_int, as_number,
}
use bitcoin_miner.Util.Json.Scan.{Parsed, done, failed, out_of_fuel}
use bitcoin_miner.Util.Json.Parser.{parse}

pub record MinerConfig : Type 0 where
  pub name : Text
  pub device : ℤ
  pub cpu_threads : ℤ

pub record PoolConfig : Type 0 where
  pub host : Text
  pub port : ℕ
  pub username : Text
  pub password : Text

-- `D` is `double`.
pub record GpuConfig (D : Type 0) : Type 0 where
  pub temperature_warning : D
  pub temperature_stop : D

pub record DashboardConfig : Type 0 where
  pub host : Text
  pub port : ℕ
  pub root : Text

pub record Config (D : Type 0) : Type 0 where
  pub miner : MinerConfig
  pub pool : PoolConfig
  pub gpu : GpuConfig D
  pub dashboard : DashboardConfig

-- The low 32 bits of an integer in two's complement.
abbrev pub low_bits : ℤ → ℕ
low_bits (pos n) = n % 2 ^ 32
low_bits (negsuc n) = 2 ^ 32 - 1 - n % 2 ^ 32

-- `static_cast<int>` of a 64-bit integer.
unfoldable pub to_int32 : ℤ → ℤ
to_int32 z = let low = low_bits z in if ltb low (2 ^ 31) then pos low else negate (2 ^ 32 - low)

unfoldable pub pool_configured : {D : Type 0} → Config D → Bool
pool_configured c =
    not (is_empty c.pool.host) && not (c.pool.port == 0) && not (is_empty c.pool.username)

-- A member that is there, read with the value before as its fallback.
abbrev pub patched {ℓ} : {D : Type 0} {A : Type ℓ} → Json D → Text → (Json D → A → A) → A → A
patched section key read before =
    if has section key then read (lookup section key) before else before

module _ (floats : Floats) where
  open floats use {Double, of_int}

  abbrev pub default_config : Config Double
  default_config = record {
    miner = record { name = codes "AZD-MINER"; device = pos 0; cpu_threads = pos 1 };
    pool = record { host = []; port = 3333; username = []; password = codes "x" };
    gpu = record { temperature_warning = of_int (pos 75); temperature_stop = of_int (pos 85) };
    dashboard = record { host = codes "127.0.0.1"; port = 8080; root = [] };
  }

  unfoldable pub port_of : ℤ → ℕ → ℕ
  port_of (negsuc n) fallback = fallback
  port_of (pos n) fallback = if leb n 0 || ltb 65535 n then fallback else n

  unfoldable pub to_port : Json Double → ℕ → ℕ
  to_port value fallback =
      if is_null value then fallback else port_of (as_int floats value (pos fallback)) fallback

  unfoldable pub read_threads : Json Double → ℤ → ℤ
  read_threads value before = elim (as_int floats value before) [
    | negsuc n ↦ pos 0
    | pos n ↦ to_int32 (pos n)
  ]

  unfoldable pub read_device : Json Double → ℤ → ℤ
  read_device value before = to_int32 (as_int floats value before)

  unfoldable pub patch_miner : Json Double → MinerConfig → MinerConfig
  patch_miner m c =
      if is_object m
      then record {
        name = patched m (codes "name") as_string c.name;
        device = patched m (codes "device") read_device c.device;
        cpu_threads = patched m (codes "cpuThreads") read_threads c.cpu_threads;
      }
      else c

  unfoldable pub patch_pool : Json Double → PoolConfig → PoolConfig
  patch_pool p c =
      if is_object p
      then record {
        host = patched p (codes "host") as_string c.host;
        port = patched p (codes "port") to_port c.port;
        username = patched p (codes "username") as_string c.username;
        password = patched p (codes "password") as_string c.password;
      }
      else c

  unfoldable pub patch_gpu : Json Double → GpuConfig Double → GpuConfig Double
  patch_gpu g c =
      if is_object g
      then record {
        temperature_warning =
            patched g (codes "temperatureWarning") (as_number floats) c.temperature_warning;
        temperature_stop =
            patched g (codes "temperatureStop") (as_number floats) c.temperature_stop;
      }
      else c

  unfoldable pub patch_dashboard : Json Double → DashboardConfig → DashboardConfig
  patch_dashboard d c =
      if is_object d
      then record {
        host = patched d (codes "host") as_string c.host;
        port = patched d (codes "port") to_port c.port;
        root = patched d (codes "root") as_string c.root;
      }
      else c

  unfoldable pub apply_partial_json : Json Double → Config Double → Config Double
  apply_partial_json patch c = if not (is_object patch) then c else record {
    miner = patch_miner (lookup patch (codes "miner")) c.miner;
    pool = patch_pool (lookup patch (codes "pool")) c.pool;
    gpu = patch_gpu (lookup patch (codes "gpu")) c.gpu;
    dashboard = patch_dashboard (lookup patch (codes "dashboard")) c.dashboard;
  }

  -- `none` is a return of false, which leaves `out` alone.
  unfoldable pub load_from_string : Text → Option (Config Double)
  load_from_string text = elim (parse floats text) [
    | done root rest ↦
        if not (is_object root) then none else some (apply_partial_json root default_config)
    | failed reason rest ↦ none
    | out_of_fuel ↦ none
  ]

  abbrev pub empty_object : Json Double
  empty_object = object no_members

  unfoldable pub miner_json : MinerConfig → Json Double
  miner_json c =
      set
        (set (set empty_object (codes "name") (string c.name)) (codes "device")
          (number (of_int c.device)))
        (codes "cpuThreads") (number (of_int c.cpu_threads))

  unfoldable pub pool_json : Bool → PoolConfig → Json Double
  pool_json include_secrets c =
      let open_part =
        set
          (set (set empty_object (codes "host") (string c.host)) (codes "port")
            (number (of_int (pos c.port))))
          (codes "username") (string c.username) in
      if include_secrets
      then set open_part (codes "password") (string c.password)
      else set open_part (codes "passwordSet") (bool (not (is_empty c.password)))

  unfoldable pub gpu_json : GpuConfig Double → Json Double
  gpu_json c =
      set (set empty_object (codes "temperatureWarning") (number c.temperature_warning))
        (codes "temperatureStop") (number c.temperature_stop)

  unfoldable pub dashboard_json : DashboardConfig → Json Double
  dashboard_json c =
      set (set empty_object (codes "host") (string c.host)) (codes "port")
        (number (of_int (pos c.port)))

  unfoldable pub to_json : Bool → Config Double → Json Double
  to_json include_secrets c =
      set
        (set
          (set (set empty_object (codes "miner") (miner_json c.miner)) (codes "pool")
            (pool_json include_secrets c.pool))
          (codes "gpu") (gpu_json c.gpu))
        (codes "dashboard") (dashboard_json c.dashboard)
