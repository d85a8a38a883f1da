-- ===== src/UseCases/Metrics/Collection.antt =====
-- internal/usecases/metrics.py, `run_provider_machine_collection`
mod Samples
pub mod Records
pub mod Atomicity
use washing.Prelude.{
  ℕ, zero, suc, Bool, false, Option, none, some, List, [], ◌∷◌, Text, FloatOps, if◌then◌else◌,
}
use washing.Domain.{Strings}
use washing.Security.{Failure, sanitize_operational_error}
use washing.Db.{Machine, MachineProvider, Metric, ScopeName, cpu, ram, disk, get, update}
use washing.Connectors.{
  MetricCollector, MetricRecord, Collect, Answer, raised, answered, get_metric_collector,
}
use washing.UseCases.Metrics.Defs.{
  Pending, Sample, upsert_all, flush, scoped_machine, provider_id, machine_id,
}
use washing.UseCases.Optimizations.Defs.{Inventory, Settings, metric_model}
use washing.UseCases.Optimizations.Snapshot.{
  MachineOptimization, Refreshed, machine_not_found, calculation_failed, created, updated,
  refresh_machine_optimization,
}

-- The tables that a collection reads and writes.
pub record Tables : Type 0 where
  pub machines : List Machine
  pub inventory : Inventory
  pub optimizations : List MachineOptimization

abbrev pub with_metrics : ScopeName → List Metric → Inventory → Inventory
with_metrics cpu rows i = record i { cpu_metrics = rows }
with_metrics ram rows i = record i { ram_metrics = rows }
with_metrics disk rows i = record i { disk_metrics = rows }

-- The dictionaries that the use case returns, or what it raises again, with the tables after it.
pub data Collected : Type 0 where
  no_provider no_machine out_of_scope : Collected
  collected : ℕ → ℕ → ℕ → Tables → Collected
  collection_failed : Failure → Tables → Collected

unfoldable pub with_provider : ℕ → (MachineProvider → MachineProvider) → Tables → Tables
unfolding update
with_provider id f t =
    let i = t.inventory in
    record t { inventory = record i { providers = update provider_id id f i.providers } }

-- What the program takes from outside a collection: the connectors, the foreign key and
-- the next surrogate key, the exceptions of libraries and built-ins, and the clock.
pub record Outside : Type 0 where
  pub collect : Collect
  pub accepts_machine : ℕ → Bool
  pub next_id : ℕ
  pub integrity_error : Failure
  pub missing_machine_error : Failure
  pub calculation_error : Failure
  pub conversion_error : Failure
  pub now : ℕ
  pub today : ℕ

-- `1 if not records else 0`
abbrev pub skipped_at_first : List MetricRecord → ℕ
skipped_at_first [] = 1
skipped_at_first (r ∷ rs) = 0

abbrev pub at_first : MachineProvider → Tables → List MetricRecord → Pending
at_first p t records = record {
  rows = metric_model t.inventory p.scope;
  added = [];
  created = 0;
  updated = 0;
  skipped = skipped_at_first records;
}

module _ (strings : Strings) (fl : FloatOps) (settings : Settings) (out : Outside) where
  unfoldable pub set_error : Failure → MachineProvider → MachineProvider
  unfolding sanitize_operational_error
  set_error e p = record p { last_error = sanitize_operational_error strings (some e) }

  -- The `except` branch, on the tables as the rollback leaves them.
  unfoldable pub fail : ℕ → Failure → Tables → Collected
  unfolding with_provider set_error sanitize_operational_error update
  fail id e t = collection_failed e (with_provider id (set_error e) t)

  unfoldable pub commit_refreshed :
      MachineProvider → Pending → Tables → Tables → Refreshed → Collected
  unfolding fail sanitize_operational_error update
  commit_refreshed p pending before t machine_not_found = fail p.id out.missing_machine_error before
  commit_refreshed p pending before t calculation_failed = fail p.id out.calculation_error before
  commit_refreshed p pending before t (created rows) =
      collected pending.created pending.updated pending.skipped (record t { optimizations = rows })
  commit_refreshed p pending before t (updated rows) =
      collected pending.created pending.updated pending.skipped (record t { optimizations = rows })

  -- `refresh_machine_optimization` on what its flush has written
  unfoldable pub refresh_flushed :
      MachineProvider → Machine → Pending → Tables → Option (List Metric) → Collected
  unfolding fail with_provider commit_refreshed sanitize_operational_error update
      refresh_machine_optimization
  refresh_flushed p m pending before none = fail p.id out.integrity_error before
  refresh_flushed p m pending before (some rows) =
      let t =
        with_provider p.id (λ q. record q { last_success_at = some out.now })
          (record before { inventory = with_metrics p.scope rows before.inventory }) in
      commit_refreshed p pending before t (
        refresh_machine_optimization fl t.machines t.inventory settings m.id out.now
          t.optimizations)

  abbrev pub store_pending : MachineProvider → Machine → Tables → Option Pending → Collected
  store_pending p m t none = fail p.id out.conversion_error t
  store_pending p m t (some pending) =
      refresh_flushed p m pending t
        (flush out.accepts_machine out.next_id pending.added pending.rows)

  unfoldable pub store_records :
      MachineProvider → Machine → Tables → Answer (List MetricRecord) → Collected
  unfolding fail refresh_flushed sanitize_operational_error update refresh_machine_optimization
      upsert_all flush
  store_records p m t (raised e) = fail p.id e t
  store_records p m t (answered records) =
      store_pending p m t
        (upsert_all strings fl p (m ∷ []) out.today records (at_first p t records))

  unfoldable pub collect_records :
      MachineProvider → Machine → Tables → Answer MetricCollector → Collected
  unfolding fail store_records sanitize_operational_error update refresh_machine_optimization
      upsert_all flush
  collect_records p m t (raised e) = fail p.id e t
  collect_records p m t (answered connector) =
      store_records p m t (out.collect connector p (m ∷ []))

  unfoldable pub collect_machine :
      MachineProvider → Option Machine → Option Machine → Tables → Collected
  unfolding collect_records sanitize_operational_error update refresh_machine_optimization
      upsert_all flush get_metric_collector
  collect_machine p none none t = no_machine
  collect_machine p none (some m) t = out_of_scope
  collect_machine p (some m) any t = collect_records p m t (get_metric_collector p.connector_type)

  unfoldable pub collect_provider : Option MachineProvider → ℕ → Tables → Collected
  unfolding collect_machine sanitize_operational_error update refresh_machine_optimization
      upsert_all flush get_metric_collector scoped_machine get
  collect_provider none id t = no_provider
  collect_provider (some p) id t =
      collect_machine p (scoped_machine p id t.machines) (get machine_id t.machines id) t

  unfoldable pub run_provider_machine_collection : ℕ → ℕ → Tables → Collected
  unfolding collect_provider sanitize_operational_error update refresh_machine_optimization
      upsert_all flush get_metric_collector scoped_machine get
  run_provider_machine_collection provider machine t =
      collect_provider (get provider_id t.inventory.providers provider) machine t
