-- ===== src/Tests/Queue.antt =====
-- Inputs for internal/infra/queue.
use washing.Prelude.{◌≡◌, refl, true, Option, none, some, List, [], ◌∷◌, ◌++◌, codes, pos, eq_text}
use washing.Domain.Ascii.{ascii}
use washing.Security.{Json, Fields, Failure, null, int, list, nil, cons}
use washing.Queue.Context.{
  TaskObject, task_resource_type, coerce_first, build_task_tracking_headers,
  resolve_resource_context, task_request_headers, task_request_args, run_provisioner_task,
}
use washing.Queue.Context.Linkage.{resolve-build, resolve-build_retry}
use washing.Queue.Tracking.{
  Execution, Arrival, prerun, postrun, failure, find_execution, new_execution, utcnow, receive,
  receive_all,
}
use washing.Queue.Tracking.Atomicity.{receive_serial}
use washing.Queue.Tracking.History.{Continues, receive_all-Continues}
use washing.Queue.Tracking.Lifecycle.{
  HasSucceeded, HasFailed, receive_all-HasSucceeded, receive_all-HasFailed,
}

abbrev args : List Json
args = int (pos 7) ∷ []

abbrev task : TaskObject
task = record {
  name = some run_provisioner_task;
  request_headers = null;
  request_args = list (cons (int (pos 7)) nil);
}

abbrev boom : Option Failure
boom = some (record { is_json_decode_error = true; message = codes "bad" })

abbrev queued : Execution
queued =
    new_execution (codes "t1") run_provisioner_task (utcnow 5) (some (codes "provisioner"))
      (some (pos 7))

abbrev elsewhere : Execution
elsewhere = new_execution (codes "t2") run_provisioner_task (utcnow 6) none none

abbrev started : Arrival
started = record {
  signal = prerun (some (codes "t1")) task args;
  now = 10;
  others = elsewhere ∷ [];
}

abbrev finished : Arrival
finished = record {
  signal = postrun (some (codes "t1")) task (some (codes "SUCCESS")) (int (pos 1));
  now = 25;
  others = [];
}

resolve-build_example :
    (headers : Fields) × (build_task_tracking_headers ascii run_provisioner_task args
      ≡ some headers)
    × (resolve_resource_context ascii run_provisioner_task (some headers) args
        ≡ some (task_resource_type run_provisioner_task, some (pos 7)))
unfolding coerce_first
resolve-build_example = resolve-build ascii run_provisioner_task args (some (pos 7)) refl

resolve-build_retry_example :
    (headers : Fields) × (build_task_tracking_headers ascii run_provisioner_task args
      ≡ some headers)
    × (resolve_resource_context ascii run_provisioner_task (some headers) []
        ≡ some (task_resource_type run_provisioner_task, some (pos 7)))
unfolding coerce_first
resolve-build_retry_example = resolve-build_retry ascii run_provisioner_task args [] (pos 7) refl

receive_all-Continues_example :
    (e : Execution) × (find_execution
        (codes "t1")
        (receive_all ascii (started ∷ finished ∷ []) (queued ∷ []))
      ≡ some e)
    × Continues queued e
unfolding find_execution eq_text
receive_all-Continues_example =
    receive_all-Continues ascii (started ∷ finished ∷ []) (queued ∷ []) (codes "t1") queued refl

-- Another worker inserts the row between the query and the commit.
receive_serial_example :
    receive ascii (prerun (some (codes "t1")) task args) 10 (queued ∷ []) []
    ≡ receive ascii (prerun (some (codes "t1")) task args) 10 [] ([] ++ queued ∷ [])
receive_serial_example =
    receive_serial ascii (prerun (some (codes "t1")) task args) 10 (queued ∷ []) []

context :
    resolve_resource_context ascii run_provisioner_task (task_request_headers task) args
    ≡ some (some (codes "provisioner"), some (pos 7))
unfolding resolve_resource_context task_request_headers eq_text
context = refl

context_of_request :
    resolve_resource_context ascii run_provisioner_task
      (task_request_headers task)
      (task_request_args task)
    ≡ some (some (codes "provisioner"), some (pos 7))
unfolding resolve_resource_context task_request_headers task_request_args eq_text
context_of_request = refl

receive_all-HasSucceeded_example :
    (e : Execution) × (find_execution
        (codes "t1")
        (receive_all ascii (started ∷ finished ∷ []) (queued ∷ []))
      ≡ some e)
    × HasSucceeded 10 25 (int (pos 1)) e
receive_all-HasSucceeded_example =
    receive_all-HasSucceeded ascii (codes "t1") run_provisioner_task task args refl
      (some (codes "provisioner")) (some (codes "provisioner")) (some (pos 7)) (some (pos 7))
      context context_of_request 10 25 (int (pos 1)) (elsewhere ∷ []) [] (queued ∷ [])

receive_all-HasFailed_example :
    (e : Execution) × (find_execution (codes "t1") (
        receive_all ascii
          (started
            ∷ record { signal = failure (some (codes "t1")) task boom args; now = 20; others = [] }
            ∷ record {
              signal = postrun (some (codes "t1")) task (some (codes "FAILURE")) null;
              now = 25;
              others = [];
            }
            ∷ [])
          (queued ∷ []))
      ≡ some e)
    × HasFailed ascii 10 25 boom e
receive_all-HasFailed_example =
    receive_all-HasFailed ascii (codes "t1") run_provisioner_task task args refl
      (some (codes "provisioner")) (some (codes "provisioner")) (some (pos 7)) (some (pos 7))
      context context_of_request 10 20 25 boom null (elsewhere ∷ []) [] [] (queued ∷ [])
