-- ===== src/Tests/Optimizations.antt =====
-- Inputs for internal/usecases/optimizations.py. `whole` has the whole numbers for floats.
use washing.Prelude.{
  ℕ, ◌+◌, ◌*◌, ◌/◌, ◌≤◌, ◌≡◌, refl, ltb, leb, ◌==◌, lt→ltb, true, false, none, some, [], ◌∷◌, codes,
  Float, FloatOps, ℤ, pos, negsuc, arith,
}
use washing.Security.{null}
use washing.Db.{Machine, MachineProvider, cpu}
use washing.UseCases.Optimizations.Defs.{
  Details, Inventory, Settings, Scopes, ScopeStatus, OptimizationStatus, OptimizationAction,
  scale_up, limited_history, missing_provider, no_provider, initial, unavailable_details,
  evaluate_scope, aggregate_optimization,
}
use washing.UseCases.Optimizations.Matches.{Snapshot}
use washing.UseCases.Optimizations.Aggregate.{aggregate_optimization-eq-table}
use washing.UseCases.Optimizations.Bounds.{IsExact, IsWithin, evaluate_scope-IsWithin}
use washing.UseCases.Optimizations.Decisions.{Judged, evaluate_scope-Judged}

abbrev pub float_of : ℤ → Float
float_of (pos n) = record { bits = n }
float_of (negsuc n) = record { bits = 0 }

abbrev pub whole : FloatOps
whole = record {
  of_ℤ = float_of;
  literal = λ n d. record { bits = n / d };
  add = λ a b. record { bits = a.bits + b.bits };
  mul = λ a b. record { bits = a.bits * b.bits };
  div = λ a b. record { bits = a.bits / b.bits };
  lt = λ a b. ltb a.bits b.bits;
  le = λ a b. leb a.bits b.bits;
  eq = λ a b. a.bits == b.bits;
  is_finite = λ a. true;
  ceil = λ a. a.bits;
  truncate = λ a. pos a.bits;
}

not_ltb : (m n : ℕ) → m ≤ n → ltb n m ≡ false
not_ltb m n h = ground arith

whole-IsExact : IsExact whole
whole-IsExact = record { keeps_lt = λ m n h small. lt→ltb m n h; keeps_le = not_ltb }

abbrev pub vm : Machine
vm = record {
  id = 1;
  platform_id = 1;
  application = none;
  source_provisioner_id = none;
  external_id = none;
  hostname = codes "VM";
  region = none;
  environment = none;
  cpu = some (record { bits = 4 });
  ram_mb = some (record { bits = 8192 });
  disk_mb = none;
  extra = null;
}

abbrev pub meter : MachineProvider
meter = record {
  id = 3;
  platform_id = 1;
  name = codes "cpu";
  connector_type = codes "mock";
  scope = cpu;
  config = null;
  enabled = true;
  last_run_at = none;
  last_success_at = none;
  last_error = none;
  provisioner_ids = [];
}

abbrev pub inventory : Inventory
inventory = record {
  providers = meter ∷ [];
  cpu_metrics =
      record { id = 1; provider_id = 3; machine_id = 1; date = 10; value = pos 98 }
      ∷ record { id = 2; provider_id = 3; machine_id = 1; date = 11; value = pos 94 }
      ∷ [];
  ram_metrics = [];
  disk_metrics = [];
}

abbrev pub defaults : Settings
defaults = record {
  window_size = 30;
  min_cpu = 1;
  max_cpu = 64;
  min_ram_mb = 2048;
  max_ram_mb = 262144;
}

evaluate_scope-IsWithin_example :
    (d : Details) × (evaluate_scope whole inventory vm cpu vm.cpu 30 (some 1) (some 64) ≡ some d)
    × IsWithin whole 1 1 64 d.bounded_target_capacity
evaluate_scope-IsWithin_example =
    evaluate_scope-IsWithin whole whole-IsExact 1 64 (omega arith) (omega arith) 1 refl cpu
      inventory vm vm.cpu 30 refl refl (λ p. refl)

abbrev computed : Details
computed = record {
  provider_id = some 3;
  status = ScopeStatus.ok;
  samples_used = 2;
  window_size = 30;
  last_metric_date = some 11;
  utilization_percent = some (record { bits = 96 });
  current_capacity = some (record { bits = 4 });
  raw_target_capacity = some (record { bits = 5 });
  bounded_target_capacity = some (record { bits = 5 });
  action = scale_up;
  reason_code = limited_history;
}

run_evaluate_scope :
    evaluate_scope whole inventory vm cpu vm.cpu 30 (some 1) (some 64) ≡ some computed
unfolding evaluate_scope
run_evaluate_scope = refl

evaluate_scope-Judged_example : Judged whole cpu vm.cpu computed
evaluate_scope-Judged_example =
    evaluate_scope-Judged whole cpu inventory vm 30 (some 1) (some 64) vm.cpu computed
      run_evaluate_scope

abbrev scopes : Scopes
scopes = record {
  cpu_details = computed;
  ram_details = unavailable_details missing_provider no_provider (initial none 30 vm.ram_mb);
  disk_details = unavailable_details missing_provider no_provider (initial none 30 none);
}

aggregate_optimization-eq-table_example :
    aggregate_optimization scopes ≡ (OptimizationStatus.partial, OptimizationAction.up)
aggregate_optimization-eq-table_example = aggregate_optimization-eq-table scopes

abbrev snapshot : Snapshot
snapshot = record {
  status = OptimizationStatus.partial;
  action = OptimizationAction.up;
  settings = defaults;
  current_cpu = vm.cpu;
  current_ram_mb = vm.ram_mb;
  current_disk_mb = none;
  target_cpu = some (record { bits = 5 });
  target_ram_mb = none;
  target_disk_mb = none;
  details = scopes;
}
