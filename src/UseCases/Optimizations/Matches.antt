-- ===== src/UseCases/Optimizations/Matches.antt =====
-- internal/usecases/optimizations.py, `_optimization_snapshot_matches`: the columns of a snapshot
-- compared by `==`, its enumerations as the texts that are stored.
use washing.Prelude.{◌==◌, ◌&&◌, Bool, Option, Text, codes, eq_text, eq_option, Float, FloatOps}
use washing.UseCases.Optimizations.Defs.{
  ScopeStatus, ScopeAction, Reason, Details, Settings, Scopes, OptimizationStatus,
  OptimizationAction,
}

-- The columns of a snapshot, but for the moment of its calculation.
pub record Snapshot : Type 0 where
  pub status : OptimizationStatus
  pub action : OptimizationAction
  pub settings : Settings
  pub current_cpu : Option Float
  pub current_ram_mb : Option Float
  pub current_disk_mb : Option Float
  pub target_cpu : Option Float
  pub target_ram_mb : Option Float
  pub target_disk_mb : Option Float
  pub details : Scopes

abbrev pub scope_status_text : ScopeStatus → Text
scope_status_text ScopeStatus.ok = codes "ok"
scope_status_text ScopeStatus.missing_provider = codes "missing_provider"
scope_status_text ScopeStatus.ambiguous_provider = codes "ambiguous_provider"
scope_status_text ScopeStatus.insufficient_data = codes "insufficient_data"
scope_status_text ScopeStatus.missing_current_capacity = codes "missing_current_capacity"

abbrev pub scope_action_text : ScopeAction → Text
scope_action_text ScopeAction.scale_up = codes "scale_up"
scope_action_text ScopeAction.scale_down = codes "scale_down"
scope_action_text ScopeAction.keep = codes "keep"
scope_action_text ScopeAction.no_data = codes "insufficient_data"
scope_action_text ScopeAction.unavailable = codes "unavailable"

abbrev pub status_text : OptimizationStatus → Text
status_text OptimizationStatus.ready = codes "ready"
status_text OptimizationStatus.partial = codes "partial"
status_text OptimizationStatus.error = codes "error"

abbrev pub action_text : OptimizationAction → Text
action_text OptimizationAction.up = codes "scale_up"
action_text OptimizationAction.down = codes "scale_down"
action_text OptimizationAction.mixed = codes "mixed"
action_text OptimizationAction.hold = codes "keep"
action_text OptimizationAction.lacks_data = codes "insufficient_data"
action_text OptimizationAction.not_available = codes "unavailable"

abbrev pub eq_settings : Settings → Settings → Bool
eq_settings s t =
    s.window_size == t.window_size
    && s.min_cpu == t.min_cpu
    && s.max_cpu == t.max_cpu
    && s.min_ram_mb == t.min_ram_mb
    && s.max_ram_mb == t.max_ram_mb

abbrev pub reason_text : Reason → Text
reason_text Reason.within_hysteresis = codes "within_hysteresis"
reason_text Reason.no_provider = codes "no_provider"
reason_text Reason.several_providers = codes "ambiguous_provider"
reason_text Reason.no_current_capacity = codes "missing_current_capacity"
reason_text Reason.no_samples = codes "no_samples"
reason_text Reason.limited_history = codes "limited_history"
reason_text Reason.pressure_high = codes "pressure_high"
reason_text Reason.pressure_low = codes "pressure_low"
reason_text Reason.raised_to_min_cpu = codes "raised_to_min_cpu"
reason_text Reason.above_max_cpu = codes "above_max_cpu"
reason_text Reason.raised_to_min_ram = codes "raised_to_min_ram"
reason_text Reason.above_max_ram = codes "above_max_ram"

module _ (fl : FloatOps) where
  abbrev pub eq_capacity : Option Float → Option Float → Bool
  eq_capacity a b = eq_option fl.eq a b

  -- Two dictionaries of a scope. A date is stored as its text, which its ordinal fixes.
  abbrev pub eq_details : Details → Details → Bool
  eq_details d e =
      eq_option (λ i j. i == j) d.provider_id e.provider_id
      && eq_text (scope_status_text d.status) (scope_status_text e.status)
      && d.samples_used == e.samples_used
      && d.window_size == e.window_size
      && eq_option (λ i j. i == j) d.last_metric_date e.last_metric_date
      && eq_capacity d.utilization_percent e.utilization_percent
      && eq_capacity d.current_capacity e.current_capacity
      && eq_capacity d.raw_target_capacity e.raw_target_capacity
      && eq_capacity d.bounded_target_capacity e.bounded_target_capacity
      && eq_text (scope_action_text d.action) (scope_action_text e.action)
      && eq_text (reason_text d.reason_code) (reason_text e.reason_code)

  abbrev pub eq_scopes : Scopes → Scopes → Bool
  eq_scopes s t =
      eq_details s.cpu_details t.cpu_details
      && eq_details s.ram_details t.ram_details
      && eq_details s.disk_details t.disk_details

  -- `_optimization_snapshot_matches`
  unfoldable pub optimization_snapshot_matches : Snapshot → Snapshot → Bool
  unfolding eq_text
  optimization_snapshot_matches current snapshot =
      eq_text (status_text current.status) (status_text snapshot.status)
      && eq_text (action_text current.action) (action_text snapshot.action)
      && eq_settings current.settings snapshot.settings
      && eq_capacity current.current_cpu snapshot.current_cpu
      && eq_capacity current.current_ram_mb snapshot.current_ram_mb
      && eq_capacity current.current_disk_mb snapshot.current_disk_mb
      && eq_capacity current.target_cpu snapshot.target_cpu
      && eq_capacity current.target_ram_mb snapshot.target_ram_mb
      && eq_capacity current.target_disk_mb snapshot.target_disk_mb
      && eq_scopes current.details snapshot.details
