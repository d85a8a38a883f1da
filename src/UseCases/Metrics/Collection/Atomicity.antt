-- ===== src/UseCases/Metrics/Collection/Atomicity.antt =====
-- What a collection of internal/usecases/metrics.py leaves in the tables, and what it counts.
use washing.Prelude.{
  ℕ, ◌+◌, ◌≡◌, true, Option, none, some, or_else, is_some, List, [], ◌∷◌, FloatOps, ℤ,
}
use washing.Domain.{Strings}
use washing.Db.{Machine, MachineProvider, Metric, ScopeName, get, update}
use washing.Connectors.{MetricCollector, MetricRecord, answered, get_metric_collector}
use washing.UseCases.Metrics.Defs.{Pending, scoped_machine, provider_id, machine_id}
use washing.UseCases.Optimizations.Defs.{Inventory, Settings, metric_model}
use washing.UseCases.Optimizations.Snapshot.{created, updated, refresh_machine_optimization}
use washing.UseCases.Optimizations.Refresh.{rows_of}
use washing.UseCases.Metrics.Collection.{
  Tables, with_metrics, Collected, no_provider, no_machine, out_of_scope, collected,
  collection_failed, with_provider, Outside, at_first, skipped_at_first, set_error,
}
use washing.UseCases.Metrics.Collection.Samples.{value_at}
use washing.UseCases.Metrics.Collection.Records.{
  count_if, held, is_insert, is_update, is_skip, last_sampled, IsCounted,
}

abbrev pub set_success : ℕ → MachineProvider → MachineProvider
set_success now p = record p { last_success_at = some now }

-- The inventory with the rows of one scope and other providers.
abbrev changed_inventory :
    ScopeName → List Metric → (List MachineProvider → List MachineProvider) → Inventory → Inventory
changed_inventory scope rows f i = record (with_metrics scope rows i) {
  providers = f (with_metrics scope rows i).providers;
}

module _ (strings : Strings) (fl : FloatOps) (settings : Settings) (out : Outside) (t : Tables)
    (p : MachineProvider) (machine sampled_machine day : ℕ) where
  abbrev before : List Metric
  before = metric_model t.inventory p.scope

  -- A run that succeeds on the records for a machine: the counters, the metrics, the provider and
  -- the optimization, with all else as it was.
  pub record IsCollected (m : Machine) (records : List MetricRecord) (c u s : ℕ) (t' : Tables)
      : Type 0 where
    pub machines : t'.machines ≡ t.machines
    pub inventory :
        t'.inventory
        ≡ with_metrics p.scope (metric_model t'.inventory p.scope) (record t.inventory {
          providers = update provider_id p.id (set_success out.now) t.inventory.providers;
        })
    pub value :
        value_at p.id sampled_machine day (metric_model t'.inventory p.scope)
        ≡ or_else
            (last_sampled strings fl p (m ∷ []) out.today sampled_machine day records)
            (value_at p.id sampled_machine day before)
    pub optimization :
        rows_of (
          refresh_machine_optimization fl t'.machines t'.inventory settings m.id out.now
            t.optimizations)
        ≡ some t'.optimizations
    pub created :
        c
        ≡ count_if
            (is_insert strings fl p
              (m ∷ [])
              out.today
              (held strings fl p (m ∷ []) out.today before))
            records
    pub updated :
        u
        ≡ count_if
            (is_update strings fl p
              (m ∷ [])
              out.today
              (held strings fl p (m ∷ []) out.today before))
            records
    pub skipped :
        s ≡ skipped_at_first records + count_if (is_skip strings fl p (m ∷ []) out.today) records

  abbrev pub IsAtomic : Collected → Type 0
  IsAtomic no_provider = ⊥
  IsAtomic no_machine =
      (scoped_machine p machine t.machines ≡ none) × (get machine_id t.machines machine ≡ none)
  IsAtomic out_of_scope =
      (scoped_machine p machine t.machines ≡ none)
      × (is_some (get machine_id t.machines machine) ≡ true)
  IsAtomic (collected c u s t') =
      (m : Machine) × (connector : MetricCollector) × (records : List MetricRecord)
      × (scoped_machine p machine t.machines ≡ some m)
      × (get_metric_collector p.connector_type ≡ answered connector)
      × (out.collect connector p (m ∷ []) ≡ answered records)
      × IsCollected m records c u s t'
  IsAtomic (collection_failed e t') =
      t' ≡ with_provider p.id (set_error strings fl settings out e) t

  module _ (m : Machine) (connector : MetricCollector) (records : List MetricRecord)
      (scoped : scoped_machine p machine t.machines ≡ some m)
      (known : get_metric_collector p.connector_type ≡ answered connector)
      (given : out.collect connector p (m ∷ []) ≡ answered records) where
    abbrev left : List Metric → Tables
    left rows = record t {
      inventory =
          changed_inventory p.scope rows (update provider_id p.id (set_success out.now))
            t.inventory;
    }

    abbrev Counted : Pending → Type 0
    Counted q =
        IsCounted strings fl p (m ∷ []) out.today (held strings fl p (m ∷ []) out.today before)
          records (at_first p t records) q

    abbrev IsValue : Option ℤ → Type 0
    IsValue v =
        v
        ≡ or_else (last_sampled strings fl p (m ∷ []) out.today sampled_machine day records)
            (value_at p.id sampled_machine day before)
