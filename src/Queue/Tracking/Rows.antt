-- ===== src/Queue/Tracking/Rows.antt =====
-- The rows of celery_task_executions, the helpers that insert and change them, and what each
-- handler does to a row. A moment is in microseconds; `aware` tells whether it has its time zone,
-- which SQLite drops.
use washing.Prelude.{
  ℕ, ◌-◌, Bool, true, false, Option, none, some, or_else, List, [], ◌∷◌, ◌++◌, Text, codes, eq_text,
  elem_text, ℤ, if◌then◌else◌,
}
use washing.Domain.{Strings}
use washing.Security.{Json, ErrorCode, Failure, sanitize_operational_error, sanitize_task_result}

pub record Moment : Type 0 where
  pub stamp : ℕ
  pub aware : Bool

-- `CeleryTaskExecution`, without its surrogate key.
pub record Execution : Type 0 where
  pub task_id : Text
  pub task_name : Text
  pub status : Text
  pub resource_type : Option Text
  pub resource_id : Option ℤ
  pub queued_at : Moment
  pub started_at : Option Moment
  pub finished_at : Option Moment
  pub duration_seconds : Option ℕ
  pub result : Option Json
  pub error : Option ErrorCode

-- `datetime.now(timezone.utc)`
abbrev pub utcnow : ℕ → Moment
utcnow now = record { stamp = now; aware = true }

-- The two moments as they are subtracted: both lose their zone if one has none.
unfoldable pub align : Moment → Moment → Moment × Moment
align s f =
    if s.aware
    then (if f.aware then (s, f) else (record s { aware = false }, f))
    else (if f.aware then (s, record f { aware = false }) else (s, f))

-- `_duration_seconds`, in microseconds: `-` stops at 0, as `max(0.0, ...)` does.
unfoldable pub duration : Moment → Moment → ℕ
unfolding align
duration s f = let (s', f') = align s f in f'.stamp - s'.stamp

-- `query.filter(task_id == id).one_or_none()`; the column is unique.
unfoldable pub find_execution : Text → List Execution → Option Execution
find_execution id [] = none
find_execution id (e ∷ es) = if eq_text e.task_id id then some e else find_execution id es

-- The UPDATE of the row that was loaded.
unfoldable pub update_execution : Text → (Execution → Execution) → List Execution → List Execution
update_execution id f [] = []
update_execution id f (e ∷ es) =
    let rest = update_execution id f es in if eq_text e.task_id id then f e ∷ es else e ∷ rest

-- The INSERT of a row, `none` for an IntegrityError.
unfoldable pub insert_execution : Execution → List Execution → Option (List Execution)
unfolding find_execution
insert_execution e rows = elim (find_execution e.task_id rows) [
  | none ↦ some (rows ++ e ∷ [])
  | some _ ↦ none
]

-- `CeleryTaskExecution(task_id=..., ..., queued_at=...)`
abbrev pub new_execution : Text → Text → Moment → Option Text → Option ℤ → Execution
new_execution id name queued_at resource_type resource_id = record {
  task_id = id;
  task_name = name;
  status = codes "PENDING";
  resource_type = resource_type;
  resource_id = resource_id;
  queued_at = queued_at;
  started_at = none;
  finished_at = none;
  duration_seconds = none;
  result = none;
  error = none;
}

abbrev or_rollback : Option (List Execution) → List Execution → List Execution
or_rollback none rows = rows
or_rollback (some rows') rows = rows'

-- `_create_execution_if_missing`. `others` are the rows that other workers insert between the
-- query and the commit.
unfoldable pub create_execution_if_missing :
    Execution → List Execution → List Execution → List Execution
unfolding find_execution insert_execution
create_execution_if_missing e others rows = elim (find_execution e.task_id rows) [
  | some _ ↦ rows ++ others
  | none ↦ or_rollback (insert_execution e (rows ++ others)) (rows ++ others)
]

-- The second attempt, on the row that another worker has inserted.
abbrev or_retry :
    Option (List Execution) → Text → (Execution → Execution) → List Execution → List Execution
or_retry none id mutate rows = update_execution id mutate rows
or_retry (some rows') id mutate rows = rows'

-- `_mutate_execution`, given the row that it makes if there is none.
unfoldable pub mutate_execution :
    Execution → (Execution → Execution) → List Execution → List Execution → List Execution
unfolding find_execution insert_execution update_execution
mutate_execution fresh mutate others rows = elim (find_execution fresh.task_id rows) [
  | some _ ↦ update_execution fresh.task_id mutate (rows ++ others)
  | none ↦
      or_retry (insert_execution (mutate fresh) (rows ++ others)) fresh.task_id mutate
        (rows ++ others)
]

-- `execution.resource_type or resource_type`: the empty text gives way too.
abbrev pub type_or : Option Text → Option Text → Option Text
type_or none t = t
type_or (some []) t = t
type_or (some (c ∷ s)) t = some (c ∷ s)

-- The lines that every handler begins with, under its status.
abbrev pub link : Text → Option Text → Option ℤ → Execution → Execution
link status resource_type resource_id e = record e {
  status = status;
  resource_type = type_or e.resource_type resource_type;
  resource_id = or_else e.resource_id resource_id;
}

-- `mutate` of `_record_task_start`
unfoldable pub start : Moment → Option Text → Option ℤ → Execution → Execution
start now resource_type resource_id e =
    record (link (codes "STARTED") resource_type resource_id e) {
      started_at = some now;
      finished_at = none;
      duration_seconds = none;
      result = none;
      error = none;
    }

abbrev pub terminal_task_states : List Text
terminal_task_states = codes "SUCCESS" ∷ codes "FAILURE" ∷ codes "REVOKED" ∷ []

abbrev duration_since : Option Moment → Moment → Option ℕ → Option ℕ
duration_since none now old = old
duration_since (some s) now old = some (duration s now)

-- `if state in TERMINAL_TASK_STATES`
unfoldable pub close_if_terminal : Text → Moment → Execution → Execution
unfolding duration elem_text
close_if_terminal state now e =
    if elem_text state terminal_task_states
    then record e {
      finished_at = some now;
      duration_seconds = duration_since e.started_at now e.duration_seconds;
    }
    else e

-- `if state == "SUCCESS"`
unfoldable pub keep_result_if_success : Text → Json → Execution → Execution
unfolding eq_text
keep_result_if_success state retval e =
    if eq_text state (codes "SUCCESS")
    then record e { result = sanitize_task_result retval; error = none }
    else e

-- `mutate` of `_record_task_finish`
unfoldable pub finish : Text → Json → Moment → Option Text → Option ℤ → Execution → Execution
unfolding close_if_terminal keep_result_if_success
finish state retval now resource_type resource_id e =
    keep_result_if_success state retval
      (close_if_terminal state now (link state resource_type resource_id e))

-- `mutate` of `_record_task_failure` and of `_record_task_retry`
unfoldable pub fail :
    Strings → Text → Option Failure → Option Text → Option ℤ → Execution → Execution
fail strings status exception resource_type resource_id e =
    record (link status resource_type resource_id e) {
      error = sanitize_operational_error strings exception;
    }
