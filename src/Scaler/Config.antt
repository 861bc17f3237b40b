-- ===== src/Scaler/Config.antt =====
-- internal/scaler/config.go: the configuration of a scaler and its validation.
pub mod Validate
pub mod Accepts
use oxide_gha_runner_scale_s.Prelude.{ℕ, String, ℤ}

pub record ScaleSetConfig : Type 0 where
  pub namespace : String
  pub id : ℤ

pub record InstanceConfig : Type 0 where
  pub project : String
  pub image : String
  pub boot_disk_gib : ℕ  -- uint
  pub cpus : ℕ  -- uint
  pub memory_gib : ℕ  -- uint
  pub vpc : String
  pub subnet : String

-- The logger is left out.
pub record Config : Type 0 where
  pub scale_set : ScaleSetConfig
  pub instance_config : InstanceConfig
  pub min_runners : ℤ
  pub max_runners : ℤ

abbrev pub bytes_per_gib : ℕ
bytes_per_gib = 1073741824

abbrev pub max_uint64 : ℕ
max_uint64 = 18446744073709551615

abbrev pub max_int32 : ℕ
max_int32 = 2147483647

abbrev pub max_uint16 : ℕ
max_uint16 = 65535

-- `math.MaxUint64 / (1024 * 1024 * 1024)`.
abbrev pub max_byte_count_gib : ℕ
max_byte_count_gib = 17179869183
