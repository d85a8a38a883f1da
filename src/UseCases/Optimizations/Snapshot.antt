-- ===== src/UseCases/Optimizations/Snapshot.antt =====
-- internal/usecases/optimizations.py, the stored snapshot: `_build_optimization_snapshot`
-- and `refresh_machine_optimization`
use washing.Prelude.{ℕ, ◌==◌, Option, none, some, List, [], ◌∷◌, ◌++◌, FloatOps, if◌then◌else◌}
use washing.Db.{Machine, cpu, ram, disk, get}
use washing.UseCases.Optimizations.Matches.{Snapshot, optimization_snapshot_matches}
use washing.UseCases.Optimizations.Defs.{
  Inventory, Settings, Scopes, evaluate_scope, aggregate_optimization, effective_target,
}

-- `MachineOptimization`
pub record MachineOptimization : Type 0 where
  pub machine_id : ℕ
  pub computed_at : ℕ
  pub snapshot : Snapshot

abbrev snapshot_of : Settings → Machine → Scopes → Snapshot
snapshot_of settings m scopes =
    let (status, action) = aggregate_optimization scopes in
    record {
      status = status;
      action = action;
      settings = settings;
      current_cpu = m.cpu;
      current_ram_mb = m.ram_mb;
      current_disk_mb = m.disk_mb;
      target_cpu = effective_target m.cpu scopes.cpu_details;
      target_ram_mb = effective_target m.ram_mb scopes.ram_details;
      target_disk_mb = effective_target m.disk_mb scopes.disk_details;
      details = scopes;
    }

infixl 5 ◌>>=◌
abbrev ◌>>=◌ : {A B : Type 0} → Option A → (A → Option B) → Option B
none >>= f = none
some a >>= f = f a

-- What a refresh does: it finds no machine, its calculation raises, or it leaves these rows.
pub data Refreshed : Type 0 where
  machine_not_found calculation_failed : Refreshed
  created updated : List MachineOptimization → Refreshed

module _ (fl : FloatOps) where
  unfoldable pub build_optimization_snapshot : Inventory → Settings → Machine → Option Snapshot
  unfolding evaluate_scope aggregate_optimization effective_target
  build_optimization_snapshot db settings m = do
    c ←
        evaluate_scope fl db m cpu m.cpu settings.window_size (some settings.min_cpu)
          (some settings.max_cpu)
    r ←
        evaluate_scope fl db m ram m.ram_mb settings.window_size (some settings.min_ram_mb)
          (some settings.max_ram_mb)
    d ← evaluate_scope fl db m disk m.disk_mb settings.window_size none none
    some (snapshot_of settings m (record { cpu_details = c; ram_details = r; disk_details = d }))

  -- The write of the row that was loaded. A snapshot that matches moves its moment only.
  unfoldable pub rewrite : ℕ → Snapshot → MachineOptimization → MachineOptimization
  unfolding optimization_snapshot_matches
  rewrite now snapshot row =
      if optimization_snapshot_matches fl row.snapshot snapshot
      then record row { computed_at = now }
      else record row { computed_at = now; snapshot = snapshot }

  unfoldable pub replace : ℕ → ℕ → Snapshot → List MachineOptimization → List MachineOptimization
  unfolding rewrite
  replace machine_id now snapshot [] = []
  replace machine_id now snapshot (row ∷ rows) =
      let rest = replace machine_id now snapshot rows in
      if row.machine_id == machine_id then rewrite now snapshot row ∷ rows else row ∷ rest

  abbrev pub find_optimization : ℕ → List MachineOptimization → Option MachineOptimization
  find_optimization id rows = get (λ (o : MachineOptimization). o.machine_id) rows id

  abbrev pub store_snapshot :
      Option MachineOptimization → ℕ → ℕ → Snapshot → List MachineOptimization → Refreshed
  store_snapshot none id now snapshot rows =
      created (rows ++ record { machine_id = id; computed_at = now; snapshot = snapshot } ∷ [])
  store_snapshot (some row) id now snapshot rows = updated (replace id now snapshot rows)

  abbrev pub refresh_built : Option Snapshot → ℕ → ℕ → List MachineOptimization → Refreshed
  refresh_built none id now rows = calculation_failed
  refresh_built (some snapshot) id now rows =
      store_snapshot (find_optimization id rows) id now snapshot rows

  abbrev pub refresh_machine :
      Option Machine → Inventory → Settings → ℕ → List MachineOptimization → Refreshed
  refresh_machine none db settings now rows = machine_not_found
  refresh_machine (some m) db settings now rows =
      refresh_built (build_optimization_snapshot db settings m) m.id now rows

  unfoldable pub refresh_machine_optimization :
      List Machine → Inventory → Settings → ℕ → ℕ → List MachineOptimization → Refreshed
  unfolding build_optimization_snapshot get replace
  refresh_machine_optimization machines db settings machine_id now rows =
      refresh_machine (get (λ (m : Machine). m.id) machines machine_id) db settings now rows
