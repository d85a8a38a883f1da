-- ===== src/Queue/Tracking.antt =====
-- internal/infra/queue/task_tracking.py, the signal handlers and the rows that they keep
-- A handler is a function from the rows of celery_task_executions to the rows after it. A handler
-- that raises leaves them as they are: Celery logs what a receiver raises.
mod Rows
mod Lookup
pub mod Atomicity
pub mod History
pub mod Lifecycle
unfoldable pub use Rows.*
use washing.Prelude.{ℕ, Option, none, some, List, [], ◌∷◌, ◌++◌, Text, codes, ℤ}
use washing.Domain.{Strings}
use washing.Security.{Json, Fields, Failure}
use washing.Queue.Context.{
  TaskObject, resolve_resource_context, published_task_id, published_task_name, published_args,
  task_request_headers, task_request_args,
}

-- What Celery hands to the receivers.
pub data Signal : Type 0 where
  before_publish : Option Text → Option Fields → Json → Signal
  prerun : Option Text → TaskObject → List Json → Signal
  postrun : Option Text → TaskObject → Option Text → Json → Signal
  failure : Option Text → TaskObject → Option Failure → List Json → Signal
  retry : Option Text → List Json → Option Failure → TaskObject → Signal

-- When a signal arrives, and the rows that other workers insert while it is handled.
pub record Arrival : Type 0 where
  pub signal : Signal
  pub now : ℕ
  pub others : List Execution

-- What a handler makes of the rows, once it has its task id and name and the resource context. A
-- missing id or name, and a context that cannot be resolved, leave only what others insert.
abbrev pub Handling : Type 0
Handling = Text → Text → Option Text → Option ℤ → List Execution → List Execution → List Execution

abbrev with_context :
    Option (Option Text × Option ℤ)
    → Text
    → Text
    → Handling
    → List Execution
    → List Execution
    → List Execution
with_context none id name handling others rows = rows ++ others
with_context (some (resource_type, resource_id)) id name handling others rows =
    handling id name resource_type resource_id others rows

module _ (strings : Strings) where
  abbrev handled :
      Option Text
      → Option Text
      → Option Fields
      → List Json
      → Handling
      → List Execution
      → List Execution
      → List Execution
  handled none name headers args handling others rows = rows ++ others
  handled (some id) none headers args handling others rows = rows ++ others
  handled (some id) (some name) headers args handling others rows =
      with_context (resolve_resource_context strings name headers args) id name handling others rows

  -- `_mutate_execution` as the four worker-side handlers call it
  abbrev mutating : ℕ → (Option Text → Option ℤ → Execution → Execution) → Handling
  mutating now mutate id name resource_type resource_id others rows =
      mutate_execution (new_execution id name (utcnow now) resource_type resource_id)
        (mutate resource_type resource_id) others rows

  abbrev creating : ℕ → Handling
  creating now id name resource_type resource_id others rows =
      create_execution_if_missing (new_execution id name (utcnow now) resource_type resource_id)
        others rows

  -- `sender or _published_task_name(headers, body)`: an empty sender gives way too.
  unfoldable pub record_task_publish :
      Option Text → Option Fields → Json → ℕ → List Execution → List Execution → List Execution
  unfolding create_execution_if_missing resolve_resource_context published_task_id
      published_task_name published_args
  record_task_publish sender headers body now others rows =
      handled (published_task_id headers body) (type_or sender (published_task_name headers body))
        headers (published_args body) (creating now) others rows

  unfoldable pub record_task_start :
      Option Text → TaskObject → List Json → ℕ → List Execution → List Execution → List Execution
  unfolding mutate_execution resolve_resource_context task_request_headers start
  record_task_start id task args now others rows =
      handled id task.name (task_request_headers task) args (mutating now (start (utcnow now)))
        others rows

  abbrev with_state : Option Text → (Text → List Execution) → List Execution → List Execution
  with_state none f rows = rows
  with_state (some state) f rows = f state

  unfoldable pub record_task_finish :
      Option Text
      → TaskObject
      → Option Text
      → Json
      → ℕ
      → List Execution
      → List Execution
      → List Execution
  unfolding mutate_execution resolve_resource_context task_request_headers task_request_args finish
  record_task_finish id task state retval now others rows =
      with_state state
        (λ s.
          handled id task.name (task_request_headers task) (task_request_args task)
            (mutating now (finish s retval (utcnow now))) others rows)
        (rows ++ others)

  unfoldable pub record_task_failure :
      Option Text
      → TaskObject
      → Option Failure
      → List Json
      → ℕ
      → List Execution
      → List Execution
      → List Execution
  unfolding mutate_execution resolve_resource_context task_request_headers fail
  record_task_failure id sender exception args now others rows =
      handled id sender.name (task_request_headers sender) args
        (mutating now (fail strings (codes "FAILURE") exception)) others rows

  unfoldable pub record_task_retry :
      Option Text
      → List Json
      → Option Failure
      → TaskObject
      → ℕ
      → List Execution
      → List Execution
      → List Execution
  unfolding mutate_execution resolve_resource_context task_request_headers fail
  record_task_retry id args reason sender now others rows =
      handled id sender.name (task_request_headers sender) args
        (mutating now (fail strings (codes "RETRY") reason)) others rows

  -- `configure_celery_task_tracking`: which receiver has which signal
  unfoldable pub receive : Signal → ℕ → List Execution → List Execution → List Execution
  unfolding record_task_publish record_task_start record_task_finish record_task_failure
      record_task_retry
  receive (before_publish sender headers body) = record_task_publish sender headers body
  receive (prerun id task args) = record_task_start id task args
  receive (postrun id task state retval) = record_task_finish id task state retval
  receive (failure id sender exception args) = record_task_failure id sender exception args
  receive (retry id args reason sender) = record_task_retry id args reason sender

  -- The signals of any workers, in the order in which their transactions commit.
  unfoldable pub receive_all : List Arrival → List Execution → List Execution
  unfolding receive
  receive_all [] rows = rows
  receive_all (a ∷ arrivals) rows = receive_all arrivals (receive a.signal a.now a.others rows)
