-- ===== src/UseCases/Optimizations/Decisions.antt =====
-- The actions that a scope may decide.
use mathlib.Core.Path.{subst}
use mathlib.Core.Option.{some-injective}
use washing.Prelude.{
  ℕ, ltb, ◌≡◌, refl, Bool, true, false, ◌&&◌, Option, none, some, List, [], ◌∷◌, Float, FloatOps,
  arith, length, Bool-cases, Option-cases, inl, inr, if◌then◌else◌,
}
use washing.Db.{Machine, MachineProvider, Metric, ScopeName, cpu, ram, disk}
use washing.UseCases.Optimizations.Defs.{
  ScopeStatus, ScopeAction, scale_up, scale_down, keep, no_data, unavailable, of_ℕ, Details, Reason,
  Inventory, decide_pressure, decide_raised, raised_reason, decide_samples, evaluate_providers,
  evaluate_scope, load_metric_samples, visible_enabled_providers_for_scope, can_scale_down,
  is_upscale, is_downscale, decide_bounded, bounded_target, raw_target_of, utilization_of,
  with_samples, initial,
}

-- A target that `test` accepts.
abbrev pub IsTarget : (Float → Bool) → Option Float → Type 0
IsTarget test none = ⊥
IsTarget test (some t) = test t ≡ true

-- What an action says of a scope, its capacity and the target with it.
abbrev pub IsJustified :
    FloatOps → ScopeName → Option Float → Option Float → ScopeStatus → ScopeAction → Type 0
IsJustified fl scope (some current) target ScopeStatus.ok scale_up =
    IsTarget (λ t. fl.lt current t) target
IsJustified fl scope (some current) target ScopeStatus.ok scale_down =
    (can_scale_down scope ≡ true) × IsTarget (λ t. fl.lt t current) target
IsJustified fl scope (some current) target ScopeStatus.ok keep = Unit
IsJustified fl scope current target ScopeStatus.insufficient_data no_data = Unit
IsJustified fl scope current target ScopeStatus.missing_provider unavailable = Unit
IsJustified fl scope current target ScopeStatus.ambiguous_provider unavailable = Unit
IsJustified fl scope none target ScopeStatus.missing_current_capacity unavailable = Unit
IsJustified fl scope current target status action = ⊥

abbrev pub Judged : FloatOps → ScopeName → Option Float → Details → Type 0
Judged fl scope current d = IsJustified fl scope current d.bounded_target_capacity d.status d.action

module _ (fl : FloatOps) (scope : ScopeName) (current : Float) where
  upscale-IsTarget :
      (t : Option Float) → is_upscale fl t current ≡ true → IsTarget (λ x. fl.lt current x) t
  upscale-IsTarget none h = cc
  upscale-IsTarget (some t) h = ground arith

  downscale-IsTarget :
      (t : Option Float) → is_downscale fl t current ≡ true → IsTarget (λ x. fl.lt x current) t
  downscale-IsTarget none h = cc
  downscale-IsTarget (some t) h = ground arith

  -- The three ends of `decide_pressure`, by its tests.
  pressure-IsJustified :
      (u : Float) (t : Option Float) (r : Option Reason) (limited : Bool) (d : Details)
      → d.status ≡ ScopeStatus.ok
      → d.action ≡ keep
      → d.bounded_target_capacity ≡ t
      → let e = decide_pressure fl scope current u t r limited d in
        IsJustified fl scope (some current) e.bounded_target_capacity e.status e.action
  unfolding decide_pressure
  pressure-IsJustified u t r limited d hs ha ht =
      elim (Bool-cases (fl.le (of_ℕ fl 85) u && is_upscale fl t current)) [
        | inl high ↦ rw (high, hs, ht) (upscale-IsTarget t (ground arith))
        | inr calm ↦
            elim (Bool-cases
              ((can_scale_down scope && fl.le u (of_ℕ fl 40)) && is_downscale fl t current)) [
                | inl low ↦
                    rw (calm, low, hs, ht) (ground arith, downscale-IsTarget t (ground arith))
                | inr steady ↦ rw (calm, steady, hs, ha) tt
              ]
      ]

  -- A raise is above the capacity.
  abbrev IsAbove : Option (ℕ × Reason) → Type 0
  IsAbove none = Unit
  IsAbove (some (lo, r)) = fl.lt current (of_ℕ fl lo) ≡ true

  IsAbove-if :
      (lo : ℕ) (r : Reason) (b : Bool)
      → fl.lt current (of_ℕ fl lo) ≡ b
      → IsAbove (if b then some (lo, r) else none)
  IsAbove-if lo r true h = h
  IsAbove-if lo r false h = tt

  raised-IsJustified :
      (x : Option (ℕ × Reason)) (u : Float) (t : Option Float) (r : Option Reason) (limited : Bool)
      (d : Details)
      → IsAbove x
      → d.status ≡ ScopeStatus.ok
      → d.action ≡ keep
      → let e = decide_raised fl x scope current u t r limited d in
        IsJustified fl scope (some current) e.bounded_target_capacity e.status e.action
  raised-IsJustified none u t r limited d h hs ha =
      pressure-IsJustified u t r limited (record d { bounded_target_capacity = t }) hs ha refl
  raised-IsJustified (some (lo, reason)) u t r limited d h hs ha = rw hs h

  samples-IsJustified :
      (window : ℕ) (lo hi : Option ℕ) (samples : List Metric) (d d' : Details)
      → d.status ≡ ScopeStatus.ok
      → d.action ≡ keep
      → IsAbove (raised_reason fl scope lo current)
      → decide_samples fl scope current window lo hi samples d ≡ some d'
      → IsJustified fl scope (some current) d'.bounded_target_capacity d'.status d'.action
  unfolding decide_samples
  samples-IsJustified window lo hi [] d d' hs ha above e =
      subst (Judged fl scope (some current)) (some-injective _ d' e) tt
  samples-IsJustified window lo hi (s ∷ samples) d d' hs ha above e =
      elim (Option-cases (
        bounded_target fl scope (raw_target_of fl current (utilization_of fl (s ∷ samples))) lo
          hi)) [
            | inl failed ↦ cc (rw (failed, decide_samples) at e)
            | inr (x, found) ↦
                subst (Judged fl scope (some current))
                  (some-injective (decide_bounded fl scope current window lo s samples d x.0 x.1) d'
                    (rw (found, decide_samples) at e))
                  (raised-IsJustified (raised_reason fl scope lo current)
                    (utilization_of fl (s ∷ samples)) x.0 x.1 (ltb (length (s ∷ samples)) window)
                    (with_samples fl current s samples d) above hs ha)
          ]

raised_reason-IsAbove :
    (fl : FloatOps) (scope : ScopeName) (current : Float) (lo : Option ℕ)
    → IsAbove fl scope current (raised_reason fl scope lo current)
raised_reason-IsAbove fl cpu current (some lo) =
    IsAbove-if fl cpu current lo _ (fl.lt current (of_ℕ fl lo)) refl
raised_reason-IsAbove fl ram current (some lo) =
    IsAbove-if fl ram current lo _ (fl.lt current (of_ℕ fl lo)) refl
raised_reason-IsAbove fl cpu current none = tt
raised_reason-IsAbove fl ram current none = tt
raised_reason-IsAbove fl disk current lo = tt

module _ (fl : FloatOps) (scope : ScopeName) (db : Inventory) (m : Machine) (window : ℕ)
    (lo hi : Option ℕ) where
  providers-Judged :
      (current : Option Float) (ps : List MachineProvider) (d : Details)
      → evaluate_providers fl db m scope current window lo hi ps ≡ some d
      → Judged fl scope current d
  unfolding evaluate_providers
  providers-Judged none [] d e = subst (Judged fl scope none) (some-injective _ d e) tt
  providers-Judged (some c) [] d e = subst (Judged fl scope (some c)) (some-injective _ d e) tt
  providers-Judged none (p ∷ q ∷ ps) d e = subst (Judged fl scope none) (some-injective _ d e) tt
  providers-Judged (some c) (p ∷ q ∷ ps) d e =
      subst (Judged fl scope (some c)) (some-injective _ d e) tt
  providers-Judged none (p ∷ []) d e = subst (Judged fl scope none) (some-injective _ d e) tt
  providers-Judged (some c) (p ∷ []) d e =
      samples-IsJustified fl scope c window lo hi (load_metric_samples db scope p.id m.id window)
        (initial (some p.id) window (some c)) d refl refl (raised_reason-IsAbove fl scope c lo) e

  -- The action of a scope agrees with its status and its target: to scale up there is a target
  -- above the capacity, to scale down there is one below it and the scope is cpu or ram, an
  -- action of these or to keep comes with the status ok only, and each other status has its own
  -- action.
  pub evaluate_scope-Judged :
      (current : Option Float) (d : Details)
      → evaluate_scope fl db m scope current window lo hi ≡ some d
      → Judged fl scope current d
  unfolding evaluate_scope
  evaluate_scope-Judged current =
      providers-Judged current (visible_enabled_providers_for_scope db m scope)
