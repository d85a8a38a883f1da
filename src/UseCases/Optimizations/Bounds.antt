-- ===== src/UseCases/Optimizations/Bounds.antt =====
-- The targets that a scope may recommend.
use washing.Prelude.{
  ℕ, ◌≤◌, ◌<◌, ◌^◌, ◌%◌, ◌≡◌, refl, Bool, true, false, Option, none, some, List, [], ◌∷◌, Float,
  FloatOps, arith, ltb, length, Bool-cases, inl, inr, if◌then◌else◌,
}
use native.Mathlib.Decide.{dec_lt}
use washing.Db.{Machine, MachineProvider, Metric, ScopeName, cpu, ram, disk}
use washing.UseCases.Optimizations.Defs.{
  of_ℕ, ceiled, units, apply_bounds, bound_rounded, bounded_target, capacity_step_mb, Reason,
  can_scale_down, raised_to_min_cpu, above_max_cpu, raised_to_min_ram, above_max_ram,
  decide_pressure, decide_raised, decide_samples, raised_reason, decide_bounded, raw_target_of,
  utilization_of, with_samples, Details, Inventory, evaluate_scope, evaluate_providers,
  visible_enabled_providers_for_scope, load_metric_samples, initial,
}

-- What IEEE 754 says of integers as doubles: the order is kept, and strictly below 2^53.
pub record IsExact (fl : FloatOps) : Type 0 where
  pub keeps_lt : (m n : ℕ) → m < n → m < 2 ^ 53 → fl.lt (of_ℕ fl m) (of_ℕ fl n) ≡ true
  pub keeps_le : (m n : ℕ) → m ≤ n → fl.lt (of_ℕ fl n) (of_ℕ fl m) ≡ false

-- A whole number of units between the bounds.
abbrev pub IsWithin : FloatOps → ℕ → ℕ → ℕ → Option Float → Type 0
IsWithin fl step lo hi none = Unit
IsWithin fl step lo hi (some t) = (k : ℕ) × (t ≡ of_ℕ fl k) × (lo ≤ k) × (k ≤ hi) × (k % step ≡ 0)

-- The samples of any one provider give a finite target, in the unit that is rounded up.
abbrev pub HasFiniteTargets : FloatOps → ScopeName → Inventory → Machine → Option Float → ℕ → Type 0
HasFiniteTargets fl scope db m none window = Unit
HasFiniteTargets fl scope db m (some c) window =
    (p : ℕ)
    → fl.is_finite (
        ceiled fl scope
          (raw_target_of fl c (utilization_of fl (load_metric_samples db scope p m.id window))))
      ≡ true

-- The step of a scope's capacities.
abbrev pub step_of : ScopeName → ℕ
step_of cpu = 1
step_of ram = capacity_step_mb
step_of disk = capacity_step_mb

units-step :
    (fl : FloatOps) (scope : ScopeName) (raw : Float) → units fl scope raw % step_of scope ≡ 0
units-step fl cpu raw = omega arith
units-step fl ram raw = omega arith
units-step fl disk raw = omega arith

no_target :
    (fl : FloatOps) (lo hi : ℕ) (scope : ScopeName)
    → bound_rounded fl scope none (some lo) (some hi) ≡ some (none, none)
no_target fl lo hi cpu = refl
no_target fl lo hi ram = refl
no_target fl lo hi disk = refl

-- A raise is to the minimum.
abbrev IsRaise : ℕ → Option (ℕ × Reason) → Type 0
IsRaise lo none = Unit
IsRaise lo (some (k, reason)) = k ≡ lo

IsRaise-if : (lo : ℕ) (r : Reason) (b : Bool) → IsRaise lo (if b then some (lo, r) else none)
IsRaise-if lo r true = refl
IsRaise-if lo r false = tt

raised_reason-IsRaise :
    (fl : FloatOps) (lo : ℕ) (scope : ScopeName) (current : Float)
    → IsRaise lo (raised_reason fl scope (some lo) current)
raised_reason-IsRaise fl lo cpu current =
    IsRaise-if lo raised_to_min_cpu (fl.lt current (of_ℕ fl lo))
raised_reason-IsRaise fl lo ram current =
    IsRaise-if lo raised_to_min_ram (fl.lt current (of_ℕ fl lo))
raised_reason-IsRaise fl lo disk current = tt

not-lt→le :
    (fl : FloatOps) (exact : IsExact fl) (m n : ℕ)
    → (m < n → m < 2 ^ 53)
    → fl.lt (of_ℕ fl m) (of_ℕ fl n) ≡ false
    → n ≤ m
not-lt→le fl exact m n small h = elim (dec_lt m n) [
  | yes p ↦ cc (exact.keeps_lt m n p (small p))
  | no p ↦ omega arith
]

module _ (fl : FloatOps) (exact : IsExact fl) (lo hi : ℕ) (ordered : lo ≤ hi) (small : hi < 2 ^ 53)
    (step : ℕ) (aligned : lo % step ≡ 0) where
  apply_bounds-IsWithin :
      (low high : Reason) (k : ℕ)
      → k % step ≡ 0
      → (t : Option Float) × (r : Option Reason) × (apply_bounds fl
            (some lo)
            (some hi)
            low
            high
            (of_ℕ fl k)
          ≡ some (t, r))
        × IsWithin fl step lo hi t
  apply_bounds-IsWithin low high k whole = elim (Bool-cases (fl.lt (of_ℕ fl k) (of_ℕ fl lo))) [
    | inl below ↦ (some (of_ℕ fl lo), some low, rw below, (lo, refl, omega arith, ordered, aligned))
    | inr fits ↦ elim (Bool-cases (fl.lt (of_ℕ fl hi) (of_ℕ fl k))) [
      | inl above ↦ (none, some high, rw (fits, above), tt)
      | inr within ↦ (
        some (of_ℕ fl k),
        none,
        rw (fits, within),
        (
          k,
          refl,
          not-lt→le fl exact k lo (λ p. omega arith) fits,
          not-lt→le fl exact hi k (λ p. small) within,
          whole,
        ),
      )
    ]
  ]

  bound_rounded-IsWithin :
      (scope : ScopeName) (k : ℕ)
      → can_scale_down scope ≡ true
      → k % step ≡ 0
      → (t : Option Float) × (r : Option Reason) × (bound_rounded fl scope
            (some (of_ℕ fl k))
            (some lo)
            (some hi)
          ≡ some (t, r))
        × IsWithin fl step lo hi t
  bound_rounded-IsWithin cpu k bounded = apply_bounds-IsWithin raised_to_min_cpu above_max_cpu k
  bound_rounded-IsWithin ram k bounded = apply_bounds-IsWithin raised_to_min_ram above_max_ram k
  bound_rounded-IsWithin disk k bounded = cc

  -- With both bounds given, the rules of cpu and ram never fail, and what they return is a whole
  -- number of units between the bounds.
  bounded_target-IsWithin :
      (scope : ScopeName) (raw : Float)
      → can_scale_down scope ≡ true
      → step ≡ step_of scope
      → fl.is_finite (ceiled fl scope raw) ≡ true
      → (t : Option Float) × (r : Option Reason) × (bounded_target fl scope raw (some lo) (some hi)
          ≡ some (t, r))
        × IsWithin fl step lo hi t
  unfolding bounded_target
  bounded_target-IsWithin scope raw bounded is_step finite =
      elim (Bool-cases (fl.le raw (of_ℕ fl 0))) [
        | inl zero_target ↦ (none, none, rw zero_target (no_target fl lo hi scope), tt)
        | inr positive ↦
            let (t, r, e, w) =
              bound_rounded-IsWithin scope (units fl scope raw) bounded
                (rw is_step (units-step fl scope raw)) in
            (t, r, rw (positive, finite) e, w)
      ]

  -- What `decide_pressure` writes is not the target.
  decide_pressure_target :
      (scope : ScopeName) (current u : Float) (t : Option Float) (r : Option Reason)
      (limited : Bool) (d : Details)
      → (decide_pressure fl scope current u t r limited d).bounded_target_capacity
        ≡ d.bounded_target_capacity
  unfolding decide_pressure
  decide_pressure_target scope current u t r limited d = ground arith

  decide_raised-IsWithin :
      (x : Option (ℕ × Reason)) (scope : ScopeName) (current u : Float) (t : Option Float)
      (r : Option Reason) (limited : Bool) (d : Details)
      → IsRaise lo x
      → IsWithin fl step lo hi t
      → IsWithin fl step lo hi
          (decide_raised fl x scope current u t r limited d).bounded_target_capacity
  decide_raised-IsWithin none scope current u t r limited d is_lo w =
      rw
        (decide_pressure_target scope current u t r limited
          (record d { bounded_target_capacity = t }))
        w
  decide_raised-IsWithin (some (k, reason)) scope current u t r limited d is_lo w =
      (k, refl, omega arith, omega arith, rw is_lo aligned)

  decide_samples-IsWithin :
      (scope : ScopeName) (current : Float) (window : ℕ) (samples : List Metric) (d : Details)
      → can_scale_down scope ≡ true
      → step ≡ step_of scope
      → IsWithin fl step lo hi d.bounded_target_capacity
      → fl.is_finite (ceiled fl scope (raw_target_of fl current (utilization_of fl samples))) ≡ true
      → (d' : Details) × (decide_samples fl scope current window (some lo) (some hi) samples d
          ≡ some d')
        × IsWithin fl step lo hi d'.bounded_target_capacity
  unfolding decide_samples
  decide_samples-IsWithin scope current window [] d bounded is_step w finite = (_, refl, w)
  decide_samples-IsWithin scope current window (s ∷ samples) d bounded is_step w finite =
      let raw = raw_target_of fl current (utilization_of fl (s ∷ samples)) in
      let (t, r, e, w') = bounded_target-IsWithin scope raw bounded is_step finite in
      (
        decide_bounded fl scope current window (some lo) s samples d t r,
        rw (e, decide_samples),
        decide_raised-IsWithin (raised_reason fl scope (some lo) current) scope current
            (utilization_of fl (s ∷ samples)) t r (ltb (length (s ∷ samples)) window)
            (with_samples fl current s samples d) (raised_reason-IsRaise fl lo scope current) w',
      )

  -- The calculation of a cpu or ram scope raises nothing, and the target that it reports, if any, is
  -- a whole number of the scope's units between the two bounds of the catalog. The bounds are
  -- in order and the lower is a whole number of units, as the settings require, and what is
  -- rounded up, of the capacity and the samples that the tables hold, is a finite float.
  pub evaluate_scope-IsWithin :
      (scope : ScopeName) (db : Inventory) (m : Machine) (current : Option Float) (window : ℕ)
      → can_scale_down scope ≡ true
      → step ≡ step_of scope
      → HasFiniteTargets fl scope db m current window
      → (d : Details) × (evaluate_scope fl db m scope current window (some lo) (some hi) ≡ some d)
        × IsWithin fl step lo hi d.bounded_target_capacity
  unfolding evaluate_scope
  evaluate_scope-IsWithin scope db m current window bounded is_step finite =
      by_providers current finite (visible_enabled_providers_for_scope db m scope)
    where
      by_providers :
          (c : Option Float) (finite : HasFiniteTargets fl scope db m c window)
          (ps : List MachineProvider)
          → (d : Details) × (evaluate_providers fl db m scope c window (some lo) (some hi) ps
              ≡ some d)
            × IsWithin fl step lo hi d.bounded_target_capacity
      by_providers c finite [] = (_, refl, tt)
      by_providers c finite (p ∷ q ∷ ps) = (_, refl, tt)
      by_providers none finite (p ∷ []) = (_, refl, tt)
      by_providers (some current') finite (p ∷ []) =
          decide_samples-IsWithin scope current' window
            (load_metric_samples db scope p.id m.id window)
            (initial (some p.id) window (some current')) bounded is_step tt (finite p.id)
