-- ===== src/UseCases/Optimizations/Defs/Visible.antt =====
-- internal/usecases/optimizations.py, the details of a scope, and the providers and samples that
-- the evaluation reads
use washing.Prelude.{
  ℕ, ◌==◌, ltb, leb, Bool, true, false, ◌&&◌, ◌||◌, Option, none, some, List, [], ◌∷◌, take, any,
  keep_if, sort_by, sort_with, Float,
}
use washing.Db.{Machine, MachineProvider, Metric, ScopeName, cpu, ram, disk, eq_scope}

pub data ScopeStatus : Type 0 where
  ok missing_provider ambiguous_provider insufficient_data missing_current_capacity : ScopeStatus

pub data ScopeAction : Type 0 where
  scale_up scale_down keep no_data unavailable : ScopeAction

pub data Reason : Type 0 where
  within_hysteresis no_provider several_providers no_current_capacity no_samples : Reason
  limited_history pressure_high pressure_low : Reason
  raised_to_min_cpu above_max_cpu raised_to_min_ram above_max_ram : Reason

pub data OptimizationStatus : Type 0 where
  ready partial error : OptimizationStatus

pub data OptimizationAction : Type 0 where
  up down mixed hold lacks_data not_available : OptimizationAction

abbrev pub target_utilization_percent : ℕ
target_utilization_percent = 65

abbrev pub upscale_utilization_threshold : ℕ
upscale_utilization_threshold = 85

abbrev pub downscale_utilization_threshold : ℕ
downscale_utilization_threshold = 40

abbrev pub capacity_step_mb : ℕ
capacity_step_mb = 1024

-- The `details` of a scope.
pub record Details : Type 0 where
  pub provider_id : Option ℕ
  pub status : ScopeStatus
  pub samples_used : ℕ
  pub window_size : ℕ
  pub last_metric_date : Option ℕ
  pub utilization_percent : Option Float
  pub current_capacity : Option Float
  pub raw_target_capacity : Option Float
  pub bounded_target_capacity : Option Float
  pub action : ScopeAction
  pub reason_code : Reason

-- The settings that the calculation reads.
pub record Settings : Type 0 where
  pub window_size : ℕ
  pub min_cpu : ℕ
  pub max_cpu : ℕ
  pub min_ram_mb : ℕ
  pub max_ram_mb : ℕ

-- The tables that the calculation reads.
pub record Inventory : Type 0 where
  pub providers : List MachineProvider
  pub cpu_metrics : List Metric
  pub ram_metrics : List Metric
  pub disk_metrics : List Metric

-- `METRIC_MODELS[scope]`
abbrev pub metric_model : Inventory → ScopeName → List Metric
metric_model db cpu = db.cpu_metrics
metric_model db ram = db.ram_metrics
metric_model db disk = db.disk_metrics

abbrev pub is_member : Option ℕ → List ℕ → Bool
is_member none ids = false
is_member (some id) ids = any (λ i. i == id) ids

-- `_provider_sees_machine`
unfoldable pub provider_sees_machine : MachineProvider → Machine → Bool
provider_sees_machine p m = elim p.provisioner_ids [
  | [] ↦ true
  | i ∷ is ↦ is_member m.source_provisioner_id (i ∷ is)
]

-- `_visible_enabled_providers_for_scope`
unfoldable pub visible_enabled_providers_for_scope :
    Inventory → Machine → ScopeName → List MachineProvider
unfolding provider_sees_machine sort_by
visible_enabled_providers_for_scope db m scope =
    keep_if (λ p. provider_sees_machine p m)
      (sort_by (λ p. p.id)
        (keep_if (λ p. p.enabled && p.platform_id == m.platform_id && eq_scope p.scope scope)
          db.providers))

-- `ORDER BY date DESC, id DESC`
abbrev pub is_later : Metric → Metric → Bool
is_later a b = ltb b.date a.date || a.date == b.date && leb b.id a.id

-- `_load_metric_samples`
unfoldable pub load_metric_samples : Inventory → ScopeName → ℕ → ℕ → ℕ → List Metric
unfolding sort_with
load_metric_samples db scope provider_id machine_id limit = take limit (
    sort_with is_later (
      keep_if (λ s. s.provider_id == provider_id && s.machine_id == machine_id)
        (metric_model db scope)))

-- `details` as it is first filled in.
abbrev pub initial : Option ℕ → ℕ → Option Float → Details
initial provider_id window_size current = record {
  provider_id = provider_id;
  status = ok;
  samples_used = 0;
  window_size = window_size;
  last_metric_date = none;
  utilization_percent = none;
  current_capacity = current;
  raw_target_capacity = none;
  bounded_target_capacity = none;
  action = keep;
  reason_code = within_hysteresis;
}

abbrev pub or_reason : Option Reason → Reason → Reason
or_reason none r = r
or_reason (some b) r = b

-- `limit` unless the window is full
abbrev pub unless_limited : Bool → Reason → Reason
unless_limited true r = limited_history
unless_limited false r = r

abbrev pub can_scale_down : ScopeName → Bool
can_scale_down cpu = true
can_scale_down ram = true
can_scale_down disk = false

abbrev pub unavailable_details : ScopeStatus → Reason → Details → Details
unavailable_details status reason d = record d {
  status = status;
  action = unavailable;
  reason_code = reason;
}
