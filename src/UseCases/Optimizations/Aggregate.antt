-- ===== src/UseCases/Optimizations/Aggregate.antt =====
-- `_aggregate_optimization` as a table of facts about the scopes.
use mathlib.Core.Path.{ap₂}
use washing.Prelude.{
  ◌≡◌, refl, sym, ◌∙◌, Bool, true, false, not, ◌&&◌, List, [], ◌∷◌, any, all, keep_if, arith,
  if◌then◌else◌,
}
use washing.UseCases.Optimizations.Defs.{
  Details, Scopes, values, is_ok, is_ambiguous, is_scale_up, is_scale_down, action_from_set,
  aggregate_optimization, is_empty, OptimizationStatus, OptimizationAction, ready, partial, error,
  up, down, mixed, hold, lacks_data, not_available,
}

-- An ambiguous provider is an error, three scopes that are ok are ready, all else is partial.
abbrev pub status_table : (ambiguous all_ok : Bool) → OptimizationStatus
status_table true all_ok = error
status_table false true = ready
status_table false false = partial

-- Without a scope that is ok there is no action; else the actions of the scopes that are ok count.
abbrev pub action_table : (ambiguous any_ok ups downs : Bool) → OptimizationAction
action_table true false ups downs = not_available
action_table false false ups downs = lacks_data
action_table ambiguous true true true = mixed
action_table ambiguous true true false = up
action_table ambiguous true false true = down
action_table ambiguous true false false = hold

-- The actions of a list, by what it holds.
action_from_set_lem :
    (ambiguous : Bool) (ds : List Details)
    → is_empty ds ≡ false
    → action_from_set ds ≡ action_table ambiguous true (any is_scale_up ds) (any is_scale_down ds)
unfolding action_from_set
action_from_set_lem ambiguous [] h = cc
action_from_set_lem ambiguous (d ∷ ds) h =
    table (any is_scale_up (d ∷ ds)) (any is_scale_down (d ∷ ds)) ambiguous
  where
    table :
        (u v a : Bool)
        → (if u && v then mixed else if u then up else if v then down else hold)
          ≡ action_table a true u v
    table true true true = refl
    table true true false = refl
    table true false true = refl
    table true false false = refl
    table false true true = refl
    table false true false = refl
    table false false true = refl
    table false false false = refl

is_empty-keep_if :
    (p : Details → Bool) (ds : List Details) → is_empty (keep_if p ds) ≡ not (any p ds)
is_empty-keep_if p [] = refl
is_empty-keep_if p (d ∷ ds) = ground (arith, is_empty-keep_if p ds)

any-keep_if :
    (p q : Details → Bool) (ds : List Details) → any q (keep_if p ds) ≡ any (λ d. p d && q d) ds
any-keep_if p q [] = refl
any-keep_if p q (d ∷ ds) = ground (arith, any-keep_if p q ds)

any-not-all : (ds : List Details) → any (λ d. not (is_ok d)) ds ≡ not (all is_ok ds)
any-not-all [] = refl
any-not-all (d ∷ ds) = ground (arith, any-not-all ds)

all→any :
    (d : Details) (ds : List Details) → any is_ok (d ∷ ds) ≡ false → all is_ok (d ∷ ds) ≡ false
all→any d ds h = ground arith

not_eq : (a b : Bool) → a ≡ not b → b ≡ not a
not_eq a true h = rw h
not_eq a false h = rw h

abbrev ladder :
    (ambiguous no_ok some_not ups downs : Bool)
    → OptimizationAction
    → OptimizationStatus × OptimizationAction
ladder ambiguous no_ok some_not ups downs a =
    if ambiguous && no_ok
    then (error, not_available)
    else if ambiguous
    then (error, if ups && downs then mixed else a)
    else if no_ok
    then (partial, lacks_data)
    else if some_not
    then (partial, a)
    else (ready, a)

-- The ladder of `_aggregate_optimization` over any truth values that fit together.
ladder-eq-table :
    (ambiguous no_ok some_not all_ok any_ok u v u' v' : Bool) (a : OptimizationAction)
    → any_ok ≡ not no_ok
    → some_not ≡ not all_ok
    → (any_ok ≡ false → all_ok ≡ false)
    → u' ≡ u
    → v' ≡ v
    → (no_ok ≡ false → a ≡ action_table true true u v)
    → ladder ambiguous no_ok some_not u' v' a
      ≡ (status_table ambiguous all_ok, action_table ambiguous any_ok u v)
ladder-eq-table ambiguous no_ok some_not all_ok any_ok u v u' v' a h1 h2 h3 h4 h5 h6 = ground arith

module _ (s : Scopes) where
  abbrev ok_scopes : List Details
  ok_scopes = keep_if is_ok (values s)

  abbrev ups : Bool
  ups = any (λ d. is_ok d && is_scale_up d) (values s)

  abbrev downs : Bool
  downs = any (λ d. is_ok d && is_scale_down d) (values s)

  action_of_ok :
      (ambiguous : Bool)
      → is_empty ok_scopes ≡ false
      → action_from_set ok_scopes ≡ action_table ambiguous true ups downs
  action_of_ok ambiguous h =
      action_from_set_lem ambiguous ok_scopes h
      ∙ ap₂ (action_table ambiguous true) (any-keep_if is_ok is_scale_up (values s))
          (any-keep_if is_ok is_scale_down (values s))

  any_ok : (e : Bool) → is_empty ok_scopes ≡ e → any is_ok (values s) ≡ not e
  any_ok e h = not_eq e (any is_ok (values s)) (sym h ∙ is_empty-keep_if is_ok (values s))

  -- The status and the action of a machine are those of the tables, read at whether a scope is
  -- ambiguous, whether all scopes and some scope are ok, and whether a scope that is ok scales up
  -- or down.
  pub aggregate_optimization-eq-table :
      let ambiguous = any is_ambiguous (values s) in
      aggregate_optimization s ≡ (
        status_table ambiguous (all is_ok (values s)),
        action_table ambiguous (any is_ok (values s)) ups downs,
      )
  unfolding aggregate_optimization
  aggregate_optimization-eq-table =
      ladder-eq-table (any is_ambiguous (values s)) (is_empty ok_scopes)
        (any (λ d. not (is_ok d)) (values s)) (all is_ok (values s)) (any is_ok (values s)) ups
        downs (any is_scale_up ok_scopes) (any is_scale_down ok_scopes) (action_from_set ok_scopes)
        (any_ok (is_empty ok_scopes) refl) (any-not-all (values s))
        (all→any s.cpu_details (s.ram_details ∷ s.disk_details ∷ []))
        (any-keep_if is_ok is_scale_up (values s)) (any-keep_if is_ok is_scale_down (values s))
        (action_of_ok true)
