-- ===== src/UseCases/Metrics/Defs.antt =====
-- internal/usecases/metrics.py, the scope of a provider, the samples, and the dispatchers
-- The session does not flush by itself: a query sees the rows of the tables, not those that were
-- added since the last flush. A sample that was loaded is changed in place.
use washing.Prelude.{
  ℕ, suc, ◌==◌, Bool, true, false, ◌&&◌, Option, none, some, or_else, List, [], ◌∷◌, ◌++◌, map,
  keep_if, find, sort_by, Text, eq_text, eq_option, ℤ, FloatOps, is_some, if◌then◌else◌,
}
use washing.Domain.{Strings, normalize_external_id, normalize_hostname}
use washing.Db.{Machine, MachineProvider, Metric, get, update, elem_id}
use washing.Connectors.{MetricRecord}
use washing.UseCases.Publishing.{Broker, Published, publish}

abbrev pub provider_id : MachineProvider → ℕ
provider_id p = p.id

abbrev pub machine_id : Machine → ℕ
machine_id m = m.id

abbrev pub is_attached : Option ℕ → List ℕ → Bool
is_attached none ids = false
is_attached (some id) ids = elem_id id ids

abbrev pub attached_or_all : List ℕ → Option ℕ → Bool
attached_or_all [] source = true
attached_or_all (i ∷ is) source = is_attached source (i ∷ is)

-- `_scoped_machine_query`
unfoldable pub is_scoped : MachineProvider → Machine → Bool
is_scoped p m =
    m.platform_id == p.platform_id && attached_or_all p.provisioner_ids m.source_provisioner_id

unfoldable pub scoped_machines : MachineProvider → List Machine → List Machine
unfolding is_scoped sort_by
scoped_machines p machines = sort_by machine_id (keep_if (is_scoped p) machines)

unfoldable pub scoped_machine : MachineProvider → ℕ → List Machine → Option Machine
unfolding is_scoped get
scoped_machine p id machines = get machine_id (keep_if (is_scoped p) machines) id

abbrev pub id_of : Option Machine → Option ℕ
id_of none = none
id_of (some m) = some m.id

unfoldable pub find_by_external_id : Option Text → List Machine → Option Machine
unfolding eq_text
find_by_external_id none machines = none
find_by_external_id (some id) machines =
    find (λ m. eq_option eq_text m.external_id (some id)) machines

unfoldable pub find_by_hostname : Option Text → List Machine → Option Machine
unfolding eq_text
find_by_hostname none machines = none
find_by_hostname (some name) machines = find (λ m. eq_text m.hostname name) machines

module _ (strings : Strings) where
  -- `_resolve_machine_id`
  unfoldable pub resolve_machine_id : MetricRecord → List Machine → Option ℕ
  unfolding find_by_external_id find_by_hostname normalize_external_id normalize_hostname
  resolve_machine_id r machines = or_else r.machine_id (
      or_else
        (id_of (find_by_external_id (normalize_external_id strings r.machine_external_id) machines))
        (id_of (find_by_hostname (normalize_hostname strings r.hostname) machines)))

-- A sample before the database gives it its surrogate key.
pub record Sample : Type 0 where
  pub provider_id : ℕ
  pub machine_id : ℕ
  pub date : ℕ
  pub value : ℤ

unfoldable pub is_same_day : Sample → Metric → Bool
is_same_day s r =
    r.provider_id == s.provider_id && (r.machine_id == s.machine_id && r.date == s.date)

-- The rows of one table, with the changes of loaded rows, and what was added but not flushed.
pub record Pending : Type 0 where
  pub rows : List Metric
  pub added : List Sample
  pub created : ℕ
  pub updated : ℕ
  pub skipped : ℕ

unfoldable pub set_value : Sample → List Metric → List Metric
unfolding is_same_day
set_value s [] = []
set_value s (r ∷ rs) =
    let rest = set_value s rs in
    if is_same_day s r then record r { value = s.value } ∷ rs else r ∷ rest

unfoldable pub upsert_sample : Sample → Pending → Pending
unfolding is_same_day set_value
upsert_sample s p =
    if is_some (find (is_same_day s) p.rows)
    then record p { rows = set_value s p.rows; updated = suc p.updated }
    else record p { added = p.added ++ s ∷ []; created = suc p.created }

abbrev pub and_then : {A B : Type 0} → Option A → (A → Option B) → Option B
and_then none f = none
and_then (some a) f = f a

abbrev pub or_today : Option ℕ → ℕ → ℕ
or_today none today = today
or_today (some d) today = d

module _ (strings : Strings) (fl : FloatOps) where
  abbrev pub sample_of : MachineProvider → MetricRecord → ℕ → ℕ → Sample
  sample_of provider r today id = record {
    provider_id = provider.id;
    machine_id = id;
    date = or_today r.date today;
    value = fl.truncate r.value;
  }

  -- `none` for what `int` raises on a value that is not finite
  unfoldable pub upsert_resolved :
      MachineProvider → MetricRecord → ℕ → Option ℕ → Pending → Option Pending
  unfolding upsert_sample is_same_day set_value
  upsert_resolved provider r today none p = some (record p { skipped = suc p.skipped })
  upsert_resolved provider r today (some id) p =
      if fl.is_finite r.value then some (upsert_sample (sample_of provider r today id) p) else none

  -- `_upsert_daily_metric`, with the count of its result
  unfoldable pub upsert_daily_metric :
      MachineProvider → List Machine → ℕ → MetricRecord → Pending → Option Pending
  unfolding upsert_resolved resolve_machine_id is_same_day set_value
  upsert_daily_metric provider machines today r p =
      upsert_resolved provider r today (resolve_machine_id strings r machines) p

  unfoldable pub upsert_all :
      MachineProvider → List Machine → ℕ → List MetricRecord → Pending → Option Pending
  unfolding upsert_daily_metric
  upsert_all provider machines today [] p = some p
  upsert_all provider machines today (r ∷ rs) p =
      and_then (upsert_daily_metric provider machines today r p)
        (λ q. upsert_all provider machines today rs q)

-- The INSERTs of a flush: `none` for an IntegrityError, by the unique constraint on the provider,
-- the machine and the day, or by a foreign key that the database refuses. Surrogate keys count up.
unfoldable pub flush : (ℕ → Bool) → ℕ → List Sample → List Metric → Option (List Metric)
unfolding is_same_day
flush accepts_machine next [] rows = some rows
flush accepts_machine next (s ∷ ss) rows =
    let row : Metric = record {
      id = next;
      provider_id = s.provider_id;
      machine_id = s.machine_id;
      date = s.date;
      value = s.value;
    } in
    let rest = flush accepts_machine (suc next) ss (rows ++ row ∷ []) in
    if is_some (find (is_same_day s) rows)
    then none
    else if accepts_machine s.machine_id
    then rest
    else none

-- `dispatch_enabled_provider_syncs`: it changes no row.
unfoldable pub dispatch_enabled_provider_syncs : Broker ℕ → List MachineProvider → Published ℕ
unfolding publish sort_by
dispatch_enabled_provider_syncs enqueue providers =
    publish enqueue [] (map provider_id (sort_by provider_id (keep_if (λ p. p.enabled) providers)))

-- The provider is gone, or what was published, and the rows of the providers.
pub data DispatchedMachines : Type 0 where
  provider_not_found : DispatchedMachines
  dispatched : Published (ℕ × ℕ) → List MachineProvider → DispatchedMachines

abbrev pub set_run : ℕ → MachineProvider → MachineProvider
set_run now p = record p { last_run_at = some now; last_error = none }

unfoldable pub dispatch_found :
    Broker (ℕ × ℕ)
    → List Machine
    → ℕ
    → List MachineProvider
    → Option MachineProvider
    → DispatchedMachines
unfolding publish scoped_machines update
dispatch_found enqueue machines now providers none = provider_not_found
dispatch_found enqueue machines now providers (some p) =
    dispatched (publish enqueue [] (map (λ m. (p.id, m.id)) (scoped_machines p machines)))
      (update provider_id p.id (set_run now) providers)

-- `dispatch_provider_machine_syncs`. The scope of the provider is not among the columns that its
-- first commit writes, so the second load finds it again.
unfoldable pub dispatch_provider_machine_syncs :
    Broker (ℕ × ℕ) → List Machine → ℕ → ℕ → List MachineProvider → DispatchedMachines
unfolding dispatch_found publish scoped_machines update get
dispatch_provider_machine_syncs enqueue machines id now providers =
    dispatch_found enqueue machines now providers (get provider_id providers id)
