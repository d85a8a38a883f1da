-- ===== src/UseCases/Applications/Defs.antt =====
-- internal/usecases/applications.py, the batch size and the dispatch of due applications
use Prim.Native.Nat.{max}
use washing.Prelude.{
  ℕ, zero, suc, ◌*◌, ◌/◌, ltb, leb, ◌==◌, Bool, true, false, not, ◌&&◌, ◌||◌, Option, none, some,
  List, [], length, map, take, keep_if, sort_with, pos, FloatOps,
}
use washing.Security.{dispatch_failed}
use washing.Db.{Application, update_each}
use washing.UseCases.Clock.{earlier, days, seconds}
use washing.UseCases.Publishing.{Broker, Published, publish}

-- The settings that the dispatcher reads, as natural numbers: none is negative in a sound setup, and
-- no validator looks at them.
pub record Window : Type 0 where
  pub window_days : ℕ
  pub tick_seconds : ℕ
  pub configured_batch_size : ℕ
  pub retry_after_seconds : ℕ

abbrev pub ticks_per_window : ℕ → ℕ → ℕ
ticks_per_window window_days tick_seconds =
    max 1 (max 1 (window_days * 24 * 60 * 60) / max 1 tick_seconds)

-- The outcome: what was published, with the batch size, and the rows; or the OverflowError of a
-- cutoff before the year 1.
pub data DispatchedSyncs : Type 0 where
  window_overflow : DispatchedSyncs
  dispatched : Published ℕ → ℕ → List Application → DispatchedSyncs

abbrev pub application_id : Application → ℕ
application_id a = a.id

abbrev pub schedule_at : ℕ → Application → Application
schedule_at now a = record a { sync_scheduled_at = some now }

-- `.update({"sync_scheduled_at": None, "sync_error": DISPATCH_FAILED_ERROR})`
abbrev pub release : Application → Application
release a = record a { sync_scheduled_at = none; sync_error = some dispatch_failed }

-- `column IS NULL OR column <= moment`
abbrev pub is_null_or_before : Option ℕ → ℕ → Bool
is_null_or_before none moment = true
is_null_or_before (some t) moment = leb t moment

-- `ORDER BY sync_at ASC NULLS FIRST, id ASC`
abbrev pub is_earlier : Application → Application → Bool
is_earlier a b = elim a.sync_at [
  | none ↦ elim b.sync_at [ none ↦ leb a.id b.id | some t ↦ true ]
  | some s ↦ elim b.sync_at [ none ↦ false | some t ↦ ltb s t || s == t && leb a.id b.id ]
]

unfoldable pub due_applications : (ℕ → Bool) → ℕ → ℕ → ℕ → List Application → List Application
unfolding sort_with
due_applications locked due_before retry_before batch_size rows = take batch_size (
    sort_with is_earlier (
      keep_if
        (λ a.
          (is_null_or_before a.sync_at due_before
            && is_null_or_before a.sync_scheduled_at retry_before)
          && not (locked a.id))
        rows))

-- The `except` branch, if the loop raised. `UPDATE ... WHERE id IN ()` changes no row.
unfoldable pub settle : Published ℕ → ℕ → List Application → DispatchedSyncs
unfolding update_each
settle outcome batch_size rows = elim outcome.raised [
  | none ↦ dispatched outcome batch_size rows
  | some e ↦ dispatched outcome batch_size (update_each application_id outcome.unsent release rows)
]

unfoldable pub reserve_and_publish :
    Broker ℕ → ℕ → ℕ → List Application → List Application → DispatchedSyncs
unfolding settle publish update_each
reserve_and_publish enqueue now batch_size due rows =
    settle (publish enqueue [] (map application_id due)) batch_size
      (update_each application_id (map application_id due) (schedule_at now) rows)

abbrev pub nothing_published : Published ℕ
nothing_published = record { sent = []; unsent = []; raised = none }

module _ (fl : FloatOps) where
  -- `ceil(total_applications / ticks_per_window)`
  abbrev pub ceil_ratio : ℕ → ℕ → ℕ
  ceil_ratio n d = fl.ceil (fl.div (fl.of_ℤ (pos n)) (fl.of_ℤ (pos d)))

  unfoldable pub calculate_application_metrics_sync_batch_size : ℕ → ℕ → ℕ → ℕ → ℕ
  calculate_application_metrics_sync_batch_size zero window_days tick_seconds configured = 0
  calculate_application_metrics_sync_batch_size (suc n) window_days tick_seconds (suc configured) =
      suc configured
  calculate_application_metrics_sync_batch_size (suc n) window_days tick_seconds zero =
      max 1 (ceil_ratio (suc n) (ticks_per_window window_days tick_seconds))

  module _ (locked : ℕ → Bool) (enqueue : Broker ℕ) (now : ℕ) where
    unfoldable pub dispatch_before : Option ℕ → Option ℕ → ℕ → List Application → DispatchedSyncs
    unfolding due_applications reserve_and_publish
    dispatch_before none retry_before batch_size rows = window_overflow
    dispatch_before (some due_before) none batch_size rows = window_overflow
    dispatch_before (some due_before) (some retry_before) batch_size rows =
        reserve_and_publish enqueue now batch_size
          (due_applications locked due_before retry_before batch_size rows) rows

    unfoldable pub dispatch_batch : Window → ℕ → List Application → DispatchedSyncs
    unfolding dispatch_before
    dispatch_batch w zero rows = dispatched nothing_published 0 rows
    dispatch_batch w (suc n) rows =
        dispatch_before (earlier now (days w.window_days))
          (earlier now (seconds w.retry_after_seconds)) (suc n) rows

    unfoldable pub dispatch_due_application_metrics_syncs :
        Window → List Application → DispatchedSyncs
    unfolding calculate_application_metrics_sync_batch_size due_applications publish update_each
        dispatch_batch
    dispatch_due_application_metrics_syncs w rows =
        dispatch_batch w
          (calculate_application_metrics_sync_batch_size (length rows) w.window_days w.tick_seconds
            w.configured_batch_size)
          rows
