-- ===== src/UseCases/Optimizations/Refresh.antt =====
-- The table of optimizations after a refresh: one row for each machine.
use washing.Prelude.{ℕ, ◌≡◌, Option, none, some, List, [], ◌∷◌, FloatOps, if◌then◌else◌}
use washing.UseCases.Optimizations.Matches.{Snapshot, optimization_snapshot_matches}
use washing.UseCases.Optimizations.Snapshot.{
  MachineOptimization, Refreshed, machine_not_found, calculation_failed, created, updated, rewrite,
  find_optimization,
}

-- The rows that a refresh adds or writes.
abbrev pub rows_of : Refreshed → Option (List MachineOptimization)
rows_of machine_not_found = none
rows_of calculation_failed = none
rows_of (created rows) = some rows
rows_of (updated rows) = some rows

abbrev pub count_created : Refreshed → ℕ
count_created machine_not_found = 0
count_created calculation_failed = 0
count_created (created rows) = 1
count_created (updated rows) = 0

module _ (fl : FloatOps) where
  abbrev pub find_row : ℕ → List MachineOptimization → Option MachineOptimization
  find_row id rows = find_optimization fl id rows

  abbrev pub IsUnique : List MachineOptimization → Type 0
  IsUnique [] = Unit
  IsUnique (o ∷ os) = (find_row o.machine_id os ≡ none) × IsUnique os

  -- The row of a machine after its refresh, from the one before.
  abbrev pub row_after : Option MachineOptimization → ℕ → ℕ → Snapshot → MachineOptimization
  row_after none id now snapshot = record {
    machine_id = id;
    computed_at = now;
    snapshot = snapshot;
  }
  row_after (some old) id now snapshot =
      if optimization_snapshot_matches fl old.snapshot snapshot
      then record { machine_id = old.machine_id; computed_at = now; snapshot = old.snapshot }
      else record { machine_id = old.machine_id; computed_at = now; snapshot = snapshot }

  abbrev rewritten : ℕ → Snapshot → Option MachineOptimization → Option MachineOptimization
  rewritten now snapshot none = none
  rewritten now snapshot (some o) = some (rewrite fl now snapshot o)
