-- ===== src/UseCases/Applications/Sync.antt =====
-- internal/usecases/applications.py, the projection of the machines and the sync of one application
-- A projection row without its surrogate key and its sync columns is its key (name, environment,
-- region).
use washing.Prelude.{
  ℕ, suc, ◌==◌, ltb, Bool, true, false, not, ◌&&◌, ◌||◌, Option, none, some, List, [], ◌∷◌, ◌++◌,
  length, map, keep_if, sort_by, Text, eq_text, eq_option, if◌then◌else◌,
}
use washing.Domain.{Strings, normalize_application_code, coalesce_dimension, unknown}
use washing.Security.{Failure, sanitize_operational_error}
use washing.Db.{
  Application, Machine, MachineProvider, get, update, elem_id, validate_application_name,
}
use washing.UseCases.Publishing.{Broker, publish}
use washing.UseCases.Applications.Defs.{application_id}

pub record Key : Type 0 where
  pub name : Text
  pub environment : Text
  pub region : Text

unfoldable pub eq_key : Key → Key → Bool
unfolding eq_text
eq_key a b =
    eq_text a.name b.name && (eq_text a.environment b.environment && eq_text a.region b.region)

abbrev pub key_of : Application → Key
key_of a = record { name = a.name; environment = a.environment; region = a.region }

unfoldable pub elem_key : Key → List Key → Bool
unfolding eq_key
elem_key k [] = false
elem_key k (j ∷ js) = eq_key j k || elem_key k js

-- `a < b` on texts, by code points
unfoldable pub lt_text : Text → Text → Bool
lt_text [] [] = false
lt_text [] (d ∷ t) = true
lt_text (c ∷ s) [] = false
lt_text (c ∷ s) (d ∷ t) = ltb c d || c == d && lt_text s t

unfoldable pub lt_key : Key → Key → Bool
unfolding lt_text eq_text
lt_key a b =
    lt_text a.name b.name
    || eq_text a.name b.name
      && (lt_text a.environment b.environment
          || eq_text a.environment b.environment && lt_text a.region b.region)

-- A set as a sorted list: `snapshot` with `sorted(snapshot)`.
unfoldable pub insert_key : Key → List Key → List Key
unfolding lt_key eq_key
insert_key k [] = k ∷ []
insert_key k (j ∷ js) =
    let rest = insert_key k js in
    if eq_key j k then j ∷ js else if lt_key k j then k ∷ j ∷ js else j ∷ rest

pub record Rebuilt : Type 0 where
  pub created : ℕ
  pub deleted : ℕ
  pub total : ℕ
  pub rows : List Application

module _ (strings : Strings) where
  -- `Application(name=..., environment=..., region=...)`, with the `validates` hooks of the model
  unfoldable pub new_application : ℕ → Key → Application
  unfolding validate_application_name coalesce_dimension
  new_application id k = record {
    id = id;
    name = validate_application_name strings k.name;
    environment = coalesce_dimension strings (some k.environment);
    region = coalesce_dimension strings (some k.region);
    sync_at = none;
    sync_scheduled_at = none;
    sync_error = none;
  }

  -- `db.add` of the keys that no row has; the database counts the surrogate keys up from `next`.
  unfoldable pub add_missing : List Key → ℕ → List Key → List Application
  unfolding elem_key new_application
  add_missing existing next [] = []
  add_missing existing next (k ∷ ks) =
      let same = add_missing existing next ks in
      let more = add_missing existing (suc next) ks in
      if elem_key k existing then same else new_application next k ∷ more

  unfoldable pub with_name : Option Text → Machine → List Key → List Key
  unfolding coalesce_dimension insert_key
  with_name none m ks = ks
  with_name (some name) m ks =
      insert_key
        (record {
          name = name;
          environment = coalesce_dimension strings m.environment;
          region = coalesce_dimension strings m.region;
        })
        ks

  -- The set of the keys of the machines. The query groups equal triples, which a set forgets.
  unfoldable pub snapshot : List Machine → List Key
  unfolding normalize_application_code with_name
  snapshot [] = []
  snapshot (m ∷ ms) = with_name (normalize_application_code strings m.application) m (snapshot ms)

  unfoldable pub rebuild : ℕ → List Key → List Application → Rebuilt
  unfolding add_missing elem_key
  rebuild next keys rows =
      let added = add_missing (map key_of rows) next keys in
      let kept = keep_if (λ a. elem_key (key_of a) keys) rows in
      record {
        created = length added;
        deleted = length (keep_if (λ a. not (elem_key (key_of a) keys)) rows);
        total = length keys;
        rows = kept ++ added;
      }

  unfoldable pub rebuild_applications_from_machines : List Machine → ℕ → List Application → Rebuilt
  unfolding snapshot rebuild
  rebuild_applications_from_machines machines next rows = rebuild next (snapshot machines) rows

-- `func.coalesce(column, "UNKNOWN") == value`
abbrev pub is_dimension : Option Text → Text → Bool
unfolding eq_text
is_dimension none value = eq_text unknown value
is_dimension (some d) value = eq_text d value

-- `_application_machines`
unfoldable pub application_machines : List Machine → Application → List Machine
unfolding eq_text sort_by
application_machines machines a =
    sort_by (λ (m : Machine). m.id)
      (keep_if
        (λ (m : Machine).
          eq_option eq_text m.application (some a.name)
          && (is_dimension m.environment a.environment && is_dimension m.region a.region))
        machines)

-- `_visible_enabled_providers`
unfoldable pub visible_enabled_providers : List MachineProvider → List ℕ → List MachineProvider
unfolding sort_by
visible_enabled_providers providers platform_ids =
    sort_by (λ (p : MachineProvider). p.id)
      (keep_if (λ (p : MachineProvider). p.enabled && elem_id p.platform_id platform_ids) providers)

abbrev pub is_attached : Option ℕ → List ℕ → Bool
is_attached none ids = false
is_attached (some id) ids = elem_id id ids

-- `_provider_sees_machine`
unfoldable pub provider_sees_machine : MachineProvider → Machine → Bool
provider_sees_machine p m =
    p.platform_id == m.platform_id
    && elim p.provisioner_ids [ [] ↦ true | i ∷ is ↦ is_attached m.source_provisioner_id (i ∷ is) ]

-- The tasks of one machine: (provider, machine), as they are enqueued.
unfoldable pub pairs : List Machine → List MachineProvider → List (ℕ × ℕ)
unfolding provider_sees_machine
pairs [] providers = []
pairs (m ∷ ms) providers =
    map (λ (p : MachineProvider). (p.id, m.id)) (keep_if (λ p. provider_sees_machine p m) providers)
    ++ pairs ms providers

-- The application that is there is dispatched, or the broker has raised; the rows after it.
pub data Synced : Type 0 where
  application_not_found : Synced
  synced : ℕ → ℕ → List Application → Synced
  sync_failed : Failure → List Application → Synced

abbrev pub set_synced : ℕ → Application → Application
set_synced now a = record a { sync_scheduled_at = none; sync_at = some now; sync_error = none }

module _ (strings : Strings) where
  abbrev pub set_failed : Failure → Application → Application
  unfolding sanitize_operational_error
  set_failed e a = record a {
    sync_scheduled_at = none;
    sync_error = sanitize_operational_error strings (some e);
  }

  abbrev pub settle_sync : Option Failure → ℕ → ℕ → ℕ → ℕ → List Application → Synced
  unfolding update sanitize_operational_error
  settle_sync none id machines tasks now rows =
      synced machines tasks (update application_id id (set_synced now) rows)
  settle_sync (some e) id machines tasks now rows =
      sync_failed e (update application_id id (set_failed e) rows)

  abbrev pub sync_application :
      Broker (ℕ × ℕ)
      → List Machine
      → List MachineProvider
      → ℕ
      → List Application
      → Option Application
      → Synced
  unfolding publish application_machines visible_enabled_providers pairs update
      sanitize_operational_error
  sync_application enqueue machines providers now rows none = application_not_found
  sync_application enqueue machines providers now rows (some a) =
      let ms = application_machines machines a in
      let todo =
        pairs ms (visible_enabled_providers providers (map (λ (m : Machine). m.platform_id) ms)) in
      settle_sync (publish enqueue [] todo).raised a.id (length ms) (length todo) now rows

  unfoldable pub run_application_metrics_sync :
      Broker (ℕ × ℕ) → List Machine → List MachineProvider → ℕ → ℕ → List Application → Synced
  unfolding get publish application_machines visible_enabled_providers pairs update
      sanitize_operational_error
  run_application_metrics_sync enqueue machines providers now id rows =
      sync_application enqueue machines providers now rows (get application_id rows id)
