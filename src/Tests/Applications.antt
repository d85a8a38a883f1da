-- ===== src/Tests/Applications.antt =====
-- Inputs for internal/usecases/applications.py and metrics.py.
use washing.Prelude.{
  any, map, ℕ, ◌+◌, ◌/◌, ◌-◌, ◌≡◌, refl, none, some, List, [], ◌∷◌, codes, FloatOps,
}
use washing.Domain.{normalize_dimension, strip}
use washing.Domain.Ascii.{ascii, to_upper, is_ascii_space, upper-IsCasing, lower-IsCasing}
use washing.UseCases.Applications.Sync.{Key, elem_key, key_of, rebuild_applications_from_machines}
use washing.UseCases.Applications.Projection.{has_key, rebuild-elem}
use washing.Db.{Machine, Application, get}
use washing.Tests.Optimizations.{whole, vm}
use washing.Tests.UseCases.{once, unlocked}
use washing.UseCases.Applications.Defs.{
  Window, application_id, dispatch_due_application_metrics_syncs,
}
use washing.UseCases.Applications.Slots.{rows_after, outcome_of, slot, dispatch_syncs-slot}

-- Whole numbers for floats, with a quotient that is rounded up.
abbrev upward : FloatOps
upward = record whole { div = λ a b. record { bits = (a.bits + (b.bits - 1)) / b.bits } }

abbrev application : ℕ → Application
application id = record {
  id = id;
  name = codes "APP";
  environment = codes "PROD";
  region = codes "EU";
  sync_at = none;
  sync_scheduled_at = none;
  sync_error = none;
}

abbrev window : Window
window = record {
  window_days = 1;
  tick_seconds = 3600;
  configured_batch_size = 2;
  retry_after_seconds = 3600;
}

abbrev applications : List Application
applications = application 1 ∷ application 2 ∷ application 3 ∷ []

dispatch_syncs-slot_example :
    get application_id
      (rows_after applications (
        dispatch_due_application_metrics_syncs upward unlocked once 90000000000 window
          applications))
      2
    ≡ some (
        slot
          (outcome_of (
            dispatch_due_application_metrics_syncs upward unlocked once 90000000000 window
              applications))
          90000000000
          (application 2))
unfolding get
dispatch_syncs-slot_example =
    dispatch_syncs-slot upward unlocked once 90000000000 applications (application 2) refl window

abbrev named : Key
named = record { name = codes "SHOP"; environment = codes "PROD"; region = codes "UNKNOWN" }

abbrev shop : Machine
shop = record vm { application = some (codes " shop "); environment = some (codes "prod") }

rebuild-elem_example :
    elem_key named
      (map key_of (rebuild_applications_from_machines ascii (shop ∷ vm ∷ []) 4 applications).rows)
    ≡ any (has_key ascii named) (shop ∷ vm ∷ [])
unfolding normalize_dimension strip to_upper is_ascii_space
rebuild-elem_example =
    rebuild-elem ascii upper-IsCasing refl lower-IsCasing (shop ∷ vm ∷ []) 4 applications named
