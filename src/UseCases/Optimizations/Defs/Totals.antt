-- ===== src/UseCases/Optimizations/Defs/Totals.antt =====
-- internal/usecases/optimizations.py, the aggregation of the three scopes
use washing.Prelude.{
  Bool, true, false, not, ◌&&◌, ◌||◌, Option, none, some, List, [], ◌∷◌, any, keep_if, Float,
  if◌then◌else◌,
}
use washing.UseCases.Optimizations.Defs.Visible.{
  ok, missing_provider, ambiguous_provider, insufficient_data, missing_current_capacity, scale_up,
  scale_down, keep, no_data, unavailable, OptimizationStatus, ready, partial, error,
  OptimizationAction, up, down, mixed, hold, lacks_data, not_available, Details,
}

-- The details of the three scopes, in the order of the dictionary.
pub record Scopes : Type 0 where
  pub cpu_details : Details
  pub ram_details : Details
  pub disk_details : Details

abbrev pub values : Scopes → List Details
values s = s.cpu_details ∷ s.ram_details ∷ s.disk_details ∷ []

abbrev pub is_ok : Details → Bool
is_ok d = elim d.status [
  | ok ↦ true
  | missing_provider ↦ false
  | ambiguous_provider ↦ false
  | insufficient_data ↦ false
  | missing_current_capacity ↦ false
]

abbrev pub is_ambiguous : Details → Bool
is_ambiguous d = elim d.status [
  | ok ↦ false
  | missing_provider ↦ false
  | ambiguous_provider ↦ true
  | insufficient_data ↦ false
  | missing_current_capacity ↦ false
]

abbrev pub is_scale_up : Details → Bool
is_scale_up d = elim d.action [
  | scale_up ↦ true
  | scale_down ↦ false
  | keep ↦ false
  | no_data ↦ false
  | unavailable ↦ false
]

abbrev pub is_scale_down : Details → Bool
is_scale_down d = elim d.action [
  | scale_up ↦ false
  | scale_down ↦ true
  | keep ↦ false
  | no_data ↦ false
  | unavailable ↦ false
]

-- `_action_from_set`, of the actions of these scopes
unfoldable pub action_from_set : List Details → OptimizationAction
action_from_set ds =
    if any is_scale_up ds && any is_scale_down ds
    then mixed
    else if any is_scale_up ds
    then up
    else if any is_scale_down ds
    then down
    else elim ds [ [] ↦ lacks_data | d ∷ rest ↦ hold ]

abbrev pub is_empty : List Details → Bool
is_empty [] = true
is_empty (d ∷ ds) = false

-- `_aggregate_optimization`
unfoldable pub aggregate_optimization : Scopes → OptimizationStatus × OptimizationAction
unfolding action_from_set
aggregate_optimization s =
    let ok_scopes = keep_if is_ok (values s) in
    if any is_ambiguous (values s) && is_empty ok_scopes
    then (error, not_available)
    else if any is_ambiguous (values s)
    then (
      error,
      if any is_scale_up ok_scopes && any is_scale_down ok_scopes
          then mixed
          else action_from_set ok_scopes,
    )
    else if is_empty ok_scopes
    then (partial, lacks_data)
    else if any (λ d. not (is_ok d)) (values s)
    then (partial, action_from_set ok_scopes)
    else (ready, action_from_set ok_scopes)

-- `_effective_target`
unfoldable pub effective_target : Option Float → Details → Option Float
effective_target none d = none
effective_target (some current) d =
    if is_ok d
    then (if is_scale_up d || is_scale_down d then d.bounded_target_capacity else some current)
    else none
