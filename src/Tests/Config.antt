-- ===== src/Tests/Config.antt =====
-- The default settings of internal/infra/config/settings.py.
use washing.Prelude.{◌%◌, ◌≤◌, ◌≡◌, refl, Bool, true, codes, Text, pos}
use washing.Config.{RawSettings, accepts_settings}
use washing.Config.Accepted.{IsPositive, accepts_settings-Bounds}
use washing.UseCases.Optimizations.Defs.{Settings}

abbrev shipped : RawSettings
shipped = record {
  database_schema = codes "app";
  database_encryption_key = codes "key";
  celery_task_execution_retention_days = pos 90;
  application_retention_days = pos 15;
  machine_retention_days = pos 15;
  window_size = pos 30;
  min_cpu = pos 1;
  max_cpu = pos 64;
  min_ram_mb = pos 2048;
  max_ram_mb = pos 262144;
}

abbrev any_key : Text → Bool
any_key key = true

accepts_settings-Bounds_example :
    (s : Settings) × IsPositive (pos 30) s.window_size
    × IsPositive (pos 1) s.min_cpu
    × IsPositive (pos 64) s.max_cpu
    × IsPositive (pos 2048) s.min_ram_mb
    × IsPositive (pos 262144) s.max_ram_mb
    × (s.min_cpu ≤ s.max_cpu)
    × (s.min_ram_mb ≤ s.max_ram_mb)
    × (s.min_ram_mb % 1024 ≡ 0)
    × (s.max_ram_mb % 1024 ≡ 0)
unfolding accepts_settings
accepts_settings-Bounds_example = accepts_settings-Bounds any_key shipped refl
