-- ===== src/UseCases/Optimizations/Defs/Evaluation.antt =====
-- internal/usecases/optimizations.py, `evaluate_scope` and what it calls
use washing.Prelude.{
  ℕ, ◌*◌, ltb, Bool, false, ◌&&◌, Option, none, some, List, [], ◌∷◌, length, map, pos, Float,
  FloatOps, if◌then◌else◌,
}
use Prim.Native.Nat.{max}
use washing.Db.{Machine, MachineProvider, Metric, ScopeName, cpu, ram, disk}
use washing.UseCases.Optimizations.Defs.Visible.{
  missing_provider, ambiguous_provider, insufficient_data, missing_current_capacity, scale_up,
  scale_down, no_data, Reason, within_hysteresis, no_provider, several_providers,
  no_current_capacity, no_samples, pressure_high, pressure_low, raised_to_min_cpu, above_max_cpu,
  raised_to_min_ram, above_max_ram, target_utilization_percent, upscale_utilization_threshold,
  downscale_utilization_threshold, capacity_step_mb, Details, Inventory,
  visible_enabled_providers_for_scope, load_metric_samples, initial, or_reason, unless_limited,
  can_scale_down, unavailable_details,
}

module _ (fl : FloatOps) where
  abbrev pub of_ℕ : ℕ → Float
  of_ℕ n = fl.of_ℤ (pos n)

  -- `sum(values)`
  unfoldable pub sum : Float → List Float → Float
  sum acc [] = acc
  sum acc (x ∷ xs) = sum (fl.add acc x) xs

  -- `_average_metric_value`
  unfoldable pub average_metric_value : List Float → Float
  unfolding sum
  average_metric_value [] = of_ℕ 0
  average_metric_value (x ∷ xs) = fl.div (sum (of_ℕ 0) (x ∷ xs)) (of_ℕ (length (x ∷ xs)))

  -- The units of a positive target.
  abbrev pub units : ScopeName → Float → ℕ
  units cpu raw = max 1 (fl.ceil raw)
  units ram raw =
      max capacity_step_mb (fl.ceil (fl.div raw (of_ℕ capacity_step_mb)) * capacity_step_mb)
  units disk raw =
      max capacity_step_mb (fl.ceil (fl.div raw (of_ℕ capacity_step_mb)) * capacity_step_mb)

  -- The argument of `ceil`
  abbrev pub ceiled : ScopeName → Float → Float
  ceiled cpu raw = raw
  ceiled ram raw = fl.div raw (of_ℕ capacity_step_mb)
  ceiled disk raw = fl.div raw (of_ℕ capacity_step_mb)

  -- `_rounded_target`, or `none` for what `ceil` raises on a target that is not finite
  unfoldable pub rounded_target : ScopeName → Float → Option (Option Float)
  rounded_target scope raw =
      if fl.le raw (of_ℕ 0)
      then some none
      else if fl.is_finite (ceiled scope raw)
      then some (some (of_ℕ (units scope raw)))
      else none

  -- The rules of a scope that has bounds, with the reasons that it gives.
  abbrev pub apply_bounds :
      Option ℕ → Option ℕ → Reason → Reason → Float → Option (Option Float × Option Reason)
  apply_bounds none max_capacity low high rounded = none
  apply_bounds (some lo) none low high rounded = none
  apply_bounds (some lo) (some hi) low high rounded =
      if fl.lt rounded (of_ℕ lo)
      then some (some (of_ℕ lo), some low)
      else if fl.lt (of_ℕ hi) rounded
      then some (none, some high)
      else some (some rounded, none)

  -- `_bounded_target`
  abbrev pub bound_rounded :
      ScopeName → Option Float → Option ℕ → Option ℕ → Option (Option Float × Option Reason)
  bound_rounded scope none lo hi = some (none, none)
  bound_rounded cpu (some rounded) lo hi =
      apply_bounds lo hi raised_to_min_cpu above_max_cpu rounded
  bound_rounded ram (some rounded) lo hi =
      apply_bounds lo hi raised_to_min_ram above_max_ram rounded
  bound_rounded disk (some rounded) lo hi = some (some rounded, none)

  abbrev pub bound_if_rounded :
      ScopeName
      → Option (Option Float)
      → Option ℕ
      → Option ℕ
      → Option (Option Float × Option Reason)
  bound_if_rounded scope none lo hi = none
  bound_if_rounded scope (some rounded) lo hi = bound_rounded scope rounded lo hi

  unfoldable pub bounded_target :
      ScopeName → Float → Option ℕ → Option ℕ → Option (Option Float × Option Reason)
  unfolding rounded_target
  bounded_target scope raw lo hi = bound_if_rounded scope (rounded_target scope raw) lo hi

  -- The reason for a capacity below the catalog minimum, where the scope has one.
  abbrev pub raised_reason : ScopeName → Option ℕ → Float → Option (ℕ × Reason)
  raised_reason cpu (some lo) current =
      if fl.lt current (of_ℕ lo) then some (lo, raised_to_min_cpu) else none
  raised_reason ram (some lo) current =
      if fl.lt current (of_ℕ lo) then some (lo, raised_to_min_ram) else none
  raised_reason cpu none current = none
  raised_reason ram none current = none
  raised_reason disk lo current = none

  -- `bounded_target > current * UPSCALE_CAPACITY_MARGIN and bounded_target > current`
  abbrev pub is_upscale : Option Float → Float → Bool
  is_upscale none current = false
  is_upscale (some t) current = fl.lt (fl.mul current (fl.literal 110 100)) t && fl.lt current t

  abbrev pub is_downscale : Option Float → Float → Bool
  is_downscale none current = false
  is_downscale (some t) current = fl.lt t (fl.mul current (fl.literal 80 100)) && fl.lt t current

  -- The decision on pressure, from the details with the bounded target in.
  unfoldable pub decide_pressure :
      ScopeName → Float → Float → Option Float → Option Reason → Bool → Details → Details
  decide_pressure scope current utilization target bound_reason limited d =
      if fl.le (of_ℕ upscale_utilization_threshold) utilization && is_upscale target current
      then record d {
        action = scale_up;
        reason_code = or_reason bound_reason (unless_limited limited pressure_high);
      }
      else if (can_scale_down scope && fl.le utilization (of_ℕ downscale_utilization_threshold))
          && is_downscale target current
      then record d {
        action = scale_down;
        reason_code = or_reason bound_reason (unless_limited limited pressure_low);
      }
      else record d {
        reason_code = or_reason bound_reason (unless_limited limited within_hysteresis);
      }

  abbrev pub decide_raised :
      Option (ℕ × Reason)
      → ScopeName
      → Float
      → Float
      → Option Float
      → Option Reason
      → Bool
      → Details
      → Details
  decide_raised (some (lo, reason)) scope current utilization target bound_reason limited d =
      record d { bounded_target_capacity = some (of_ℕ lo); action = scale_up; reason_code = reason }
  decide_raised none scope current utilization target bound_reason limited d =
      decide_pressure scope current utilization target bound_reason limited
        (record d { bounded_target_capacity = target })

  abbrev pub utilization_of : List Metric → Float
  utilization_of samples = average_metric_value (map (λ (m : Metric). fl.of_ℤ m.value) samples)

  abbrev pub raw_target_of : Float → Float → Float
  raw_target_of current utilization =
      fl.div (fl.mul current utilization) (of_ℕ target_utilization_percent)

  -- The details with what the samples, of which `s` is the newest, say.
  abbrev pub with_samples : Float → Metric → List Metric → Details → Details
  with_samples current s samples d = record d {
    samples_used = length (s ∷ samples);
    last_metric_date = some s.date;
    utilization_percent = some (utilization_of (s ∷ samples));
    raw_target_capacity = some (raw_target_of current (utilization_of (s ∷ samples)));
  }

  -- The decision once the target is bounded.
  abbrev pub decide_bounded :
      ScopeName
      → Float
      → ℕ
      → Option ℕ
      → Metric
      → List Metric
      → Details
      → Option Float
      → Option Reason
      → Details
  decide_bounded scope current window_size lo s samples d target bound_reason =
      decide_raised (raised_reason scope lo current) scope current (utilization_of (s ∷ samples))
        target bound_reason (ltb (length (s ∷ samples)) window_size)
        (with_samples current s samples d)

  -- From the samples on, newest first.
  unfoldable pub decide_samples :
      ScopeName → Float → ℕ → Option ℕ → Option ℕ → List Metric → Details → Option Details
  unfolding average_metric_value bounded_target decide_pressure
  decide_samples scope current window_size lo hi [] d =
      some (record d { status = insufficient_data; action = no_data; reason_code = no_samples })
  decide_samples scope current window_size lo hi (s ∷ samples) d =
      elim (bounded_target scope (raw_target_of current (utilization_of (s ∷ samples))) lo hi) [
        | none ↦ none
        | some (target, bound_reason) ↦
            some (decide_bounded scope current window_size lo s samples d target bound_reason)
      ]

  -- `_evaluate_scope`, by the providers found
  unfoldable pub evaluate_providers :
      Inventory
      → Machine
      → ScopeName
      → Option Float
      → ℕ
      → Option ℕ
      → Option ℕ
      → List MachineProvider
      → Option Details
  unfolding decide_samples load_metric_samples
  evaluate_providers db m scope current window lo hi [] =
      some (unavailable_details missing_provider no_provider (initial none window current))
  evaluate_providers db m scope current window lo hi (p ∷ q ∷ ps) =
      some (unavailable_details ambiguous_provider several_providers (initial none window current))
  evaluate_providers db m scope none window lo hi (p ∷ []) = some (
      unavailable_details missing_current_capacity no_current_capacity
        (initial (some p.id) window none))
  evaluate_providers db m scope (some current) window lo hi (p ∷ []) =
      decide_samples scope current window lo hi (load_metric_samples db scope p.id m.id window)
        (initial (some p.id) window (some current))

  unfoldable pub evaluate_scope :
      Inventory → Machine → ScopeName → Option Float → ℕ → Option ℕ → Option ℕ → Option Details
  unfolding evaluate_providers visible_enabled_providers_for_scope
  evaluate_scope db m scope current window lo hi =
      evaluate_providers db m scope current window lo hi
        (visible_enabled_providers_for_scope db m scope)
