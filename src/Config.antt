-- ===== src/Config.antt =====
-- internal/infra/config/settings.py, the validators of `Settings`
-- `accepts_key` stands for the constructor of Fernet. A setting that is an `int` may have any sign.
pub mod Accepted
use washing.Prelude.{
  ℕ, zero, suc, ◌%◌, ◌==◌, leb, Bool, true, false, ◌&&◌, ◌||◌, List, [], ◌∷◌, all, Text, ℤ, pos,
  negsuc, if◌then◌else◌,
}

-- The settings that a validator reads.
pub record RawSettings : Type 0 where
  pub database_schema : Text
  pub database_encryption_key : Text
  pub celery_task_execution_retention_days : ℤ
  pub application_retention_days : ℤ
  pub machine_retention_days : ℤ
  pub window_size : ℤ
  pub min_cpu : ℤ
  pub max_cpu : ℤ
  pub min_ram_mb : ℤ
  pub max_ram_mb : ℤ

-- `value > 0`
unfoldable pub is_positive : ℤ → Bool
is_positive (pos zero) = false
is_positive (pos (suc n)) = true
is_positive (negsuc n) = false

-- `value % 1024 == 0`
unfoldable pub is_aligned : ℤ → Bool
is_aligned (pos n) = n % 1024 == 0
is_aligned (negsuc n) = suc n % 1024 == 0

-- `not (a > b)`
unfoldable pub is_at_most : ℤ → ℤ → Bool
is_at_most (pos m) (pos n) = leb m n
is_at_most (pos m) (negsuc n) = false
is_at_most (negsuc m) (pos n) = true
is_at_most (negsuc m) (negsuc n) = leb n m

-- [A-Za-z_]
abbrev pub is_letter : ℕ → Bool
is_letter c = leb 65 c && leb c 90 || leb 97 c && leb c 122 || c == 95

-- [A-Za-z0-9_]
abbrev pub is_word : ℕ → Bool
is_word c = is_letter c || leb 48 c && leb c 57

-- `re.fullmatch(r"[A-Za-z_][A-Za-z0-9_]*", value)`
unfoldable pub is_identifier : Text → Bool
is_identifier [] = false
is_identifier (c ∷ s) = is_letter c && all is_word s

-- `validate_positive_retention_days`
unfoldable pub validate_positive_retention_days : RawSettings → Bool
unfolding is_positive
validate_positive_retention_days r =
    is_positive r.celery_task_execution_retention_days
    && (is_positive r.application_retention_days && is_positive r.machine_retention_days)

-- `validate_positive_optimization_settings`
unfoldable pub validate_positive_optimization_settings : RawSettings → Bool
unfolding is_positive
validate_positive_optimization_settings r =
    is_positive r.window_size
    && (is_positive r.min_cpu
        && (is_positive r.max_cpu && (is_positive r.min_ram_mb && is_positive r.max_ram_mb)))

-- `validate_ram_bounds_are_gib_aligned`
unfoldable pub validate_ram_bounds_are_gib_aligned : RawSettings → Bool
unfolding is_aligned
validate_ram_bounds_are_gib_aligned r = is_aligned r.min_ram_mb && is_aligned r.max_ram_mb

-- `validate_optimization_bound_order`
unfoldable pub validate_optimization_bound_order : RawSettings → Bool
unfolding is_at_most
validate_optimization_bound_order r =
    is_at_most r.min_cpu r.max_cpu && is_at_most r.min_ram_mb r.max_ram_mb

-- Whether `Settings()` returns: the validators of the fields, then that of the model.
unfoldable pub accepts_settings : (Text → Bool) → RawSettings → Bool
unfolding validate_positive_retention_days validate_positive_optimization_settings
    validate_ram_bounds_are_gib_aligned validate_optimization_bound_order is_identifier
accepts_settings accepts_key r =
    accepts_key r.database_encryption_key
    && (is_identifier r.database_schema
        && (validate_positive_retention_days r
            && (validate_positive_optimization_settings r
                && (validate_ram_bounds_are_gib_aligned r && validate_optimization_bound_order r))))
