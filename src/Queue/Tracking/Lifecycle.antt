-- ===== src/Queue/Tracking/Lifecycle.antt =====
-- The row of a task that runs to its end, from the signals of its run.
use washing.Prelude.{
  ℕ, ◌-◌, ◌≡◌, refl, ap, ◌∙◌, Option, none, some, or_else, List, [], ◌∷◌, ◌++◌, Text, codes,
  eq_text, eq_text_refl, elem_text, ℤ,
}
use washing.Domain.{Strings}
use washing.Security.{Json, Failure, sanitize_task_result, sanitize_operational_error}
use washing.Queue.Context.{
  TaskObject, resolve_resource_context, task_request_headers, task_request_args,
}
use washing.Queue.Tracking.{Signal, prerun, postrun, failure, receive, receive_all}
use washing.Queue.Tracking.Rows.{
  Execution, find_execution, start, finish, duration, fail, utcnow, new_execution,
}
use washing.Queue.Tracking.Lookup.{KeepsId, found_or, find_execution-append, find_execution-upsert}
use washing.Queue.Tracking.Atomicity.{
  change, apply_effect, effect, receive-eq-effect, start-KeepsId, finish-KeepsId, fail-KeepsId,
}

module _ (strings : Strings) where
  -- The row of the task after a handler that changes it.
  row_after :
      (s : Signal) (now : ℕ) (others rows : List Execution) (fresh : Execution)
      (f : Execution → Execution)
      → KeepsId f
      → effect strings s now ≡ change fresh f
      → find_execution fresh.task_id (receive strings s now others rows)
        ≡ some (f (found_or fresh (find_execution fresh.task_id (rows ++ others))))
  unfolding apply_effect
  row_after s now others rows fresh f keeps h = rw (
    receive-eq-effect strings s now others rows,
    h,
    find_execution-upsert fresh f keeps fresh.task_id (rows ++ others),
    eq_text_refl fresh.task_id,
  )

  -- The same where the row is known to be there.
  row_after_known :
      (s : Signal) (now : ℕ) (others rows : List Execution) (fresh : Execution)
      (f : Execution → Execution) (e : Execution)
      → KeepsId f
      → effect strings s now ≡ change fresh f
      → find_execution fresh.task_id rows ≡ some e
      → find_execution fresh.task_id (receive strings s now others rows) ≡ some (f e)
  row_after_known s now others rows fresh f e keeps h found =
      row_after s now others rows fresh f keeps h
      ∙ ap (λ o. some (f (found_or fresh o)))
          (find_execution-append fresh.task_id rows others
            ∙ ap (λ o. or_else o (find_execution fresh.task_id others)) found)

-- What a run that succeeded leaves in its row.
pub record HasSucceeded (began ended : ℕ) (retval : Json) (e : Execution) : Type 0 where
  pub status : e.status ≡ codes "SUCCESS"
  pub started_at : e.started_at ≡ some (utcnow began)
  pub finished_at : e.finished_at ≡ some (utcnow ended)
  pub duration_seconds : e.duration_seconds ≡ some (ended - began)
  pub result : e.result ≡ sanitize_task_result retval
  pub error : e.error ≡ none

pub record HasFailed (strings : Strings) (began ended : ℕ) (exception : Option Failure)
    (e : Execution) : Type 0 where
  pub status : e.status ≡ codes "FAILURE"
  pub started_at : e.started_at ≡ some (utcnow began)
  pub finished_at : e.finished_at ≡ some (utcnow ended)
  pub duration_seconds : e.duration_seconds ≡ some (ended - began)
  pub result : e.result ≡ none
  pub error : e.error ≡ sanitize_operational_error strings exception

finish-start-HasSucceeded :
    (began ended : ℕ) (retval : Json) (t t' : Option Text) (rid rid' : Option ℤ) (e : Execution)
    → HasSucceeded began ended retval
        (finish (codes "SUCCESS") retval (utcnow ended) t' rid' (start (utcnow began) t rid e))
unfolding start finish duration eq_text elem_text
finish-start-HasSucceeded began ended retval t t' rid rid' e = record {
  status = refl;
  started_at = refl;
  finished_at = refl;
  duration_seconds = refl;
  result = refl;
  error = refl;
}

finish-fail-start-HasFailed :
    (strings : Strings) (began ended : ℕ) (exception : Option Failure) (retval : Json)
    (t t' t'' : Option Text) (rid rid' rid'' : Option ℤ) (e : Execution)
    → HasFailed strings began ended exception (
        finish
          (codes "FAILURE")
          retval
          (utcnow ended)
          t''
          rid''
          (fail strings (codes "FAILURE") exception t' rid' (start (utcnow began) t rid e)))
unfolding start fail finish duration eq_text elem_text
finish-fail-start-HasFailed strings began ended exception retval t t' t'' rid rid' rid'' e =
    record {
      status = refl;
      started_at = refl;
      finished_at = refl;
      duration_seconds = refl;
      result = refl;
      error = refl;
    }

-- A task with its id, whose resource context can be resolved from each signal of its run.
module _ (strings : Strings) (id name : Text) (task : TaskObject) (args : List Json)
    (named : task.name ≡ some name) (t t' : Option Text) (rid rid' : Option ℤ)
    (context : resolve_resource_context strings name (task_request_headers task) args
      ≡ some (t, rid))
    (context' : resolve_resource_context strings name
        (task_request_headers task)
        (task_request_args task)
      ≡ some (t', rid')) where
  effect-prerun :
      (now : ℕ)
      → effect strings (prerun (some id) task args) now
        ≡ change (new_execution id name (utcnow now) t rid) (start (utcnow now) t rid)
  unfolding effect
  effect-prerun now = simp (named, context)

  effect-postrun :
      (state : Text) (retval : Json) (now : ℕ)
      → effect strings (postrun (some id) task (some state) retval) now
        ≡ change
            (new_execution id name (utcnow now) t' rid')
            (finish state retval (utcnow now) t' rid')
  unfolding effect
  effect-postrun state retval now = simp (named, context')

  effect-failure :
      (exception : Option Failure) (now : ℕ)
      → effect strings (failure (some id) task exception args) now
        ≡ change
            (new_execution id name (utcnow now) t rid)
            (fail strings (codes "FAILURE") exception t rid)
  unfolding effect
  effect-failure exception now = simp (named, context)

  after_prerun :
      (now : ℕ) (others rows : List Execution)
      → (e : Execution) × (find_execution id
            (receive strings (prerun (some id) task args) now others rows)
          ≡ some (start (utcnow now) t rid e))
  after_prerun now others rows = (
    found_or (new_execution id name (utcnow now) t rid) (find_execution id (rows ++ others)),
    row_after strings (prerun (some id) task args) now others rows
        (new_execution id name (utcnow now) t rid) (start (utcnow now) t rid)
        (start-KeepsId (utcnow now) t rid) (effect-prerun now),
  )

  after_postrun :
      (state : Text) (retval : Json) (now : ℕ) (others rows : List Execution) (e : Execution)
      → find_execution id rows ≡ some e
      → find_execution id
          (receive strings (postrun (some id) task (some state) retval) now others rows)
        ≡ some (finish state retval (utcnow now) t' rid' e)
  after_postrun state retval now others rows e =
      row_after_known strings (postrun (some id) task (some state) retval) now others rows
        (new_execution id name (utcnow now) t' rid') (finish state retval (utcnow now) t' rid') e
        (finish-KeepsId state retval (utcnow now) t' rid') (effect-postrun state retval now)

  after_failure :
      (exception : Option Failure) (now : ℕ) (others rows : List Execution) (e : Execution)
      → find_execution id rows ≡ some e
      → find_execution id (receive strings (failure (some id) task exception args) now others rows)
        ≡ some (fail strings (codes "FAILURE") exception t rid e)
  after_failure exception now others rows e =
      row_after_known strings (failure (some id) task exception args) now others rows
        (new_execution id name (utcnow now) t rid) (fail strings (codes "FAILURE") exception t rid)
        e (fail-KeepsId strings (codes "FAILURE") exception t rid) (effect-failure exception now)

  -- If the task has a name and its resource context resolves both from the arguments of the start
  -- and from those of the request at the end, then whatever the table held before, a start followed
  -- by a success leaves the task's row finished, with the two moments, the time between them, the
  -- sanitized result and no error.
  pub receive_all-HasSucceeded :
      (began ended : ℕ) (retval : Json) (others others' rows : List Execution)
      → (e : Execution) × (find_execution id (
            receive_all strings
              (record { signal = prerun (some id) task args; now = began; others = others }
                ∷ record {
                  signal = postrun (some id) task (some (codes "SUCCESS")) retval;
                  now = ended;
                  others = others';
                }
                ∷ [])
              rows)
          ≡ some e)
        × HasSucceeded began ended retval e
  unfolding receive_all
  receive_all-HasSucceeded began ended retval others others' rows =
      let (e, found) = after_prerun began others rows in
      (
        finish (codes "SUCCESS") retval (utcnow ended) t' rid' (start (utcnow began) t rid e),
        after_postrun (codes "SUCCESS") retval ended others' _ (start (utcnow began) t rid e) found,
        finish-start-HasSucceeded began ended retval t t' rid rid' e,
      )

  -- If the task has a name and its resource context resolves both from the arguments of the start
  -- and from those of the request at the end, then whatever the table held before, a start, a
  -- failure and the end in the state FAILURE leave the task's row finished, with the code of the
  -- exception, no result, and the time from the start to the end.
  pub receive_all-HasFailed :
      (began failed ended : ℕ) (exception : Option Failure) (retval : Json)
      (others others' others'' rows : List Execution)
      → (e : Execution) × (find_execution id (
            receive_all strings
              (record { signal = prerun (some id) task args; now = began; others = others }
                ∷ record {
                  signal = failure (some id) task exception args;
                  now = failed;
                  others = others';
                }
                ∷ record {
                  signal = postrun (some id) task (some (codes "FAILURE")) retval;
                  now = ended;
                  others = others'';
                }
                ∷ [])
              rows)
          ≡ some e)
        × HasFailed strings began ended exception e
  unfolding receive_all
  receive_all-HasFailed began failed ended exception retval others others' others'' rows =
      let (e, found) = after_prerun began others rows in
      let e' = fail strings (codes "FAILURE") exception t rid (start (utcnow began) t rid e) in
      (
        finish (codes "FAILURE") retval (utcnow ended) t' rid' e',
        after_postrun (codes "FAILURE") retval ended others'' _ e'
            (after_failure exception failed others' _ (start (utcnow began) t rid e) found),
        finish-fail-start-HasFailed strings began ended exception retval t t t' rid rid rid' e,
      )
