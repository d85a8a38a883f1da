-- ===== src/Contracts.antt =====
-- internal/contracts/http/resources.py, the views of stored rows
-- A view copies the columns of a row, and sanitizes its error and its result once more. `created_at`
-- and `updated_at` are left out, as in the rows.
pub mod Views
use washing.Prelude.{
  ℕ, Bool, true, false, Option, none, some, List, [], ◌∷◌, Text, codes, elem_text, ℤ, if◌then◌else◌,
}
use washing.Domain.{Strings}
use washing.Security.{
  Json, Fields, dict, null, ErrorCode, code_text, Failure, sanitize_operational_error,
  sanitize_task_result,
}
use washing.Queue.Tracking.{Moment, Execution}
use washing.Db.{Platform, MachineProvider, MachineProvisioner, ScopeName}

-- `TaskExecutionStatus`
abbrev pub task_execution_statuses : List Text
task_execution_statuses =
    codes "PENDING"
    ∷ codes "STARTED"
    ∷ codes "SUCCESS"
    ∷ codes "FAILURE"
    ∷ codes "RETRY"
    ∷ codes "REVOKED"
    ∷ []

pub record TaskExecutionRead : Type 0 where
  pub task_id : Text
  pub task_name : Text
  pub status : Text
  pub resource_type : Option Text
  pub resource_id : Option ℤ
  pub queued_at : Moment
  pub started_at : Option Moment
  pub finished_at : Option Moment
  pub duration_seconds : Option ℕ
  pub result : Option Json
  pub error : Option ErrorCode

pub record ProviderRead : Type 0 where
  pub id : ℕ
  pub platform_id : ℕ
  pub name : Text
  pub connector_type : Text
  pub scope : ScopeName
  pub enabled : Bool
  pub provisioner_ids : List ℕ
  pub last_run_at : Option ℕ
  pub last_success_at : Option ℕ
  pub last_error : Option ErrorCode

pub record ProvisionerRead : Type 0 where
  pub id : ℕ
  pub platform_id : ℕ
  pub name : Text
  pub connector_type : Text
  pub enabled : Bool
  pub cron : Text
  pub last_scheduled_at : Option ℕ
  pub last_run_at : Option ℕ
  pub last_success_at : Option ℕ
  pub last_error : Option ErrorCode

pub record PlatformRead : Type 0 where
  pub id : ℕ
  pub name : Text
  pub description : Option Text
  pub extra : Fields

-- `none` for the ValidationError of an `extra` that is no mapping
unfoldable pub read_platform : Platform → Option PlatformRead
read_platform p = elim p.extra [
  | dict fs ↦ some (record { id = p.id; name = p.name; description = p.description; extra = fs })
  | _ ↦ none
]

-- What `sanitize_result` is given: the stored object, or `None`.
abbrev stored_object : Option Json → Json
stored_object none = null
stored_object (some r) = r

unfoldable pub sanitize_result : Option Json → Option Json
unfolding sanitize_task_result
sanitize_result r = sanitize_task_result (stored_object r)

-- The column holds the text of a code.
abbrev pub stored_text : Option ErrorCode → Option Failure
stored_text none = none
stored_text (some code) = some (record { is_json_decode_error = false; message = code_text code })

module _ (strings : Strings) where
  -- `sanitize_error`, `sanitize_last_error`, `sanitize_sync_error`
  unfoldable pub sanitize_error : Option ErrorCode → Option ErrorCode
  unfolding sanitize_operational_error code_text
  sanitize_error e = sanitize_operational_error strings (stored_text e)

  -- `none` for the ValidationError of a status outside the literal
  unfoldable pub read_task_execution : Execution → Option TaskExecutionRead
  unfolding sanitize_error sanitize_result elem_text
  read_task_execution e =
      if elem_text e.status task_execution_statuses
      then some (record {
        task_id = e.task_id;
        task_name = e.task_name;
        status = e.status;
        resource_type = e.resource_type;
        resource_id = e.resource_id;
        queued_at = e.queued_at;
        started_at = e.started_at;
        finished_at = e.finished_at;
        duration_seconds = e.duration_seconds;
        result = sanitize_result e.result;
        error = sanitize_error e.error;
      })
      else none

  unfoldable pub read_provider : MachineProvider → ProviderRead
  unfolding sanitize_error
  read_provider p = record {
    id = p.id;
    platform_id = p.platform_id;
    name = p.name;
    connector_type = p.connector_type;
    scope = p.scope;
    enabled = p.enabled;
    provisioner_ids = p.provisioner_ids;
    last_run_at = p.last_run_at;
    last_success_at = p.last_success_at;
    last_error = sanitize_error p.last_error;
  }

  unfoldable pub read_provisioner : MachineProvisioner → ProvisionerRead
  unfolding sanitize_error
  read_provisioner p = record {
    id = p.id;
    platform_id = p.platform_id;
    name = p.name;
    connector_type = p.connector_type;
    enabled = p.enabled;
    cron = p.cron;
    last_scheduled_at = p.last_scheduled_at;
    last_run_at = p.last_run_at;
    last_success_at = p.last_success_at;
    last_error = sanitize_error p.last_error;
  }
