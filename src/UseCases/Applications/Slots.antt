-- ===== src/UseCases/Applications/Slots.antt =====
-- Which applications of internal/usecases/applications.py stay scheduled.
use washing.Prelude.{
  ℕ, zero, suc, ◌≡◌, refl, ap, sym, ◌∙◌, Bool, true, false, not, ◌||◌, Option, none, some, is_some,
  List, [], ◌∷◌, ◌++◌, length, map, append-nil, arith, FloatOps, if◌then◌else◌,
}
use washing.Security.{Failure, dispatch_failed}
use washing.Db.{Application, get, update_each, elem_id, changed, changed_if, get-update_each}
use washing.UseCases.Clock.{earlier, days, seconds}
use washing.UseCases.Publishing.{Broker, Published, publish, publish-append, is_empty}
use washing.UseCases.Applications.Defs.{
  Window, DispatchedSyncs, window_overflow, dispatched, application_id, schedule_at, release,
  settle, reserve_and_publish, nothing_published, dispatch_before, dispatch_batch, due_applications,
  dispatch_due_application_metrics_syncs, calculate_application_metrics_sync_batch_size,
}

abbrev pub rows_after : List Application → DispatchedSyncs → List Application
rows_after rows window_overflow = rows
rows_after rows (dispatched outcome batch_size rows') = rows'

abbrev pub outcome_of : DispatchedSyncs → Published ℕ
outcome_of window_overflow = nothing_published
outcome_of (dispatched outcome batch_size rows) = outcome

-- A row after a run: released if its task was left, scheduled if it was published, else untouched.
abbrev pub slot : Published ℕ → ℕ → Application → Application
slot outcome now a =
    if elem_id a.id outcome.unsent
    then record a { sync_scheduled_at = none; sync_error = some dispatch_failed }
    else if elem_id a.id outcome.sent
    then record a { sync_scheduled_at = some now }
    else a

elem_id-append : (j : ℕ) (a b : List ℕ) → elem_id j (a ++ b) ≡ (elem_id j a || elem_id j b)
elem_id-append j [] b = refl
elem_id-append j (i ∷ a) b = ground (arith, elem_id-append j a b)

slot_released :
    (unsent sent : Bool) (now : ℕ) (a : Application)
    → changed (changed_if unsent release) (some (changed_if (sent || unsent) (schedule_at now) a))
      ≡ some (if unsent then release a else changed_if sent (schedule_at now) a)
slot_released true true now a = refl
slot_released true false now a = refl
slot_released false true now a = refl
slot_released false false now a = refl

module _ (now batch_size : ℕ) (ids : List ℕ) (rows : List Application) (a : Application)
    (found : get application_id rows a.id ≡ some a) where
  abbrev marked : List Application
  marked = update_each application_id ids (schedule_at now) rows

  get-marked :
      get application_id marked a.id ≡ some (changed_if (elem_id a.id ids) (schedule_at now) a)
  get-marked =
      get-update_each application_id (schedule_at now) ids a.id rows (λ x. refl) (λ x. refl)
      ∙ ap (changed (changed_if (elem_id a.id ids) (schedule_at now))) found

  get-settle :
      (sent unsent : List ℕ) (raised : Option Failure)
      → sent ++ unsent ≡ ids
      → is_empty unsent ≡ not (is_some raised)
      → get application_id
          (rows_after rows
            (settle (record { sent = sent; unsent = unsent; raised = raised }) batch_size marked))
          a.id
        ≡ some (
            slot
              (outcome_of (
                settle
                  (record { sent = sent; unsent = unsent; raised = raised })
                  batch_size
                  marked))
              now
              a)
  unfolding settle
  get-settle sent [] none split ends =
      get-marked
      ∙ ap (λ l. some (changed_if (elem_id a.id l) (schedule_at now) a))
          (sym split ∙ append-nil sent)
  get-settle sent (u ∷ us) none split ends = absurd (ground arith)
  get-settle sent unsent (some e) split ends =
      get-update_each application_id release unsent a.id marked (λ x. refl) (λ x. refl)
      ∙ ap (changed (changed_if (elem_id a.id unsent) release)) (
          get-marked
          ∙ ap (λ b. some (changed_if b (schedule_at now) a))
              (ap (elem_id a.id) (sym split) ∙ elem_id-append a.id sent unsent))
      ∙ slot_released (elem_id a.id unsent) (elem_id a.id sent) now a

  get-settled :
      (outcome : Published ℕ)
      → outcome.sent ++ outcome.unsent ≡ ids
      → is_empty outcome.unsent ≡ not (is_some outcome.raised)
      → get application_id (rows_after rows (settle outcome batch_size marked)) a.id
        ≡ some (slot (outcome_of (settle outcome batch_size marked)) now a)
  unfolding settle
  get-settled outcome = get-settle outcome.sent outcome.unsent outcome.raised

module _ (fl : FloatOps) (locked : ℕ → Bool) (enqueue : Broker ℕ) (now : ℕ)
    (rows : List Application) (a : Application)
    (found : get application_id rows a.id ≡ some a) where
  get-dispatch_before :
      (due_before retry_before : Option ℕ) (batch_size : ℕ)
      → get application_id
          (rows_after rows
            (dispatch_before fl locked enqueue now due_before retry_before batch_size rows))
          a.id
        ≡ some (
            slot
              (outcome_of
                (dispatch_before fl locked enqueue now due_before retry_before batch_size rows))
              now
              a)
  unfolding dispatch_before reserve_and_publish
  get-dispatch_before none retry_before batch_size = found
  get-dispatch_before (some due_before) none batch_size = found
  get-dispatch_before (some due_before) (some retry_before) batch_size =
      let ids =
        map application_id (due_applications locked due_before retry_before batch_size rows) in
      let (split, ends) = publish-append enqueue [] ids in
      get-settled now batch_size ids rows a found (publish enqueue [] ids) split ends

  get-dispatch_batch :
      (w : Window) (batch_size : ℕ)
      → get application_id
          (rows_after rows (dispatch_batch fl locked enqueue now w batch_size rows))
          a.id
        ≡ some (slot (outcome_of (dispatch_batch fl locked enqueue now w batch_size rows)) now a)
  unfolding dispatch_batch
  get-dispatch_batch w zero = found
  get-dispatch_batch w (suc n) =
      get-dispatch_before (earlier now (days w.window_days))
        (earlier now (seconds w.retry_after_seconds)) (suc n)

  -- After a run of the dispatcher on a table that holds the application under its key, one whose task
  -- was published is scheduled now, one whose task was chosen but left by a failing broker is
  -- released with the error of a failed dispatch, and every other is untouched.
  pub dispatch_syncs-slot :
      (w : Window)
      → get application_id
          (rows_after rows (dispatch_due_application_metrics_syncs fl locked enqueue now w rows))
          a.id
        ≡ some (
            slot
              (outcome_of (dispatch_due_application_metrics_syncs fl locked enqueue now w rows))
              now
              a)
  unfolding dispatch_due_application_metrics_syncs
  dispatch_syncs-slot w = get-dispatch_batch w (
      calculate_application_metrics_sync_batch_size fl (length rows) w.window_days w.tick_seconds
        w.configured_batch_size)
