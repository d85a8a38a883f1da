-- ===== src/Tests/Metrics.antt =====
-- Inputs for internal/usecases/metrics.py: a collector that answers two samples.
use washing.Prelude.{ℕ, ◌≡◌, refl, Bool, true, false, none, some, List, [], ◌∷◌, codes}
use washing.Domain.Ascii.{ascii}
use washing.Security.{Failure}
use washing.Connectors.{MetricRecord, answered}
use washing.Tests.Optimizations.{whole, vm, meter, inventory, defaults}
use washing.Tests.UseCases.{down}
use washing.UseCases.Metrics.Defs.{Pending, upsert_all}
use washing.UseCases.Metrics.Collection.Records.{held, IsCounted, upsert_all-counts}
use washing.UseCases.Metrics.Collection.{
  Tables, Outside, collection_failed, with_provider, set_error, at_first,
  run_provider_machine_collection,
}

abbrev sample : ℕ → MetricRecord
sample n = record {
  value = record { bits = n };
  date = none;
  machine_id = some 1;
  machine_external_id = none;
  hostname = none;
}

abbrev samples : List MetricRecord
samples = sample 40 ∷ sample 60 ∷ []

abbrev tables : Tables
tables = record { machines = vm ∷ []; inventory = inventory; optimizations = [] }

abbrev accepted : ℕ → Bool
accepted id = true

abbrev unique_error : Failure
unique_error = record { is_json_decode_error = false; message = codes "UNIQUE constraint failed" }

abbrev answering : List MetricRecord → Outside
answering records = record {
  collect = λ connector p machines. answered records;
  accepts_machine = accepted;
  next_id = 10;
  integrity_error = unique_error;
  missing_machine_error = down;
  calculation_error = down;
  conversion_error = down;
  now = 500;
  today = 12;
}

upsert_all-counts_example :
    (q : Pending) × (upsert_all ascii whole meter
        (vm ∷ [])
        12
        samples
        (at_first meter tables samples)
      ≡ some q)
    × IsCounted ascii whole meter
        (vm ∷ [])
        12
        (held ascii whole meter (vm ∷ []) 12 inventory.cpu_metrics)
        samples
        (at_first meter tables samples)
        q
upsert_all-counts_example =
    upsert_all-counts ascii whole meter (vm ∷ []) 12 samples (at_first meter tables samples)
      (refl, (refl, tt))

-- A second sample of a day is an insert too, and the unique constraint fails the collection.
two_samples_fail :
    run_provider_machine_collection ascii whole defaults (answering samples) 3 1 tables
    ≡ collection_failed unique_error
        (with_provider 3 (set_error ascii whole defaults (answering samples) unique_error) tables)
unfolding run_provider_machine_collection
two_samples_fail = refl
