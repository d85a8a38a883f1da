-- ===== src/Queue/Tracking/Atomicity.antt =====
-- Each handler as one atomic step, whatever other workers insert while it runs.
use washing.Prelude.{
  ℕ, ◌≡◌, refl, sym, ap, ◌∙◌, append-nil, Option-cases, inl, inr, Option, none, some, is_some, List,
  [], ◌∷◌, ◌++◌, Text, codes, arith, ℤ, if◌then◌else◌,
}
use washing.Domain.{Strings}
use washing.Security.{Json, Fields, Failure}
use washing.Queue.Context.{
  resolve_resource_context, published_task_id, published_task_name, published_args,
  task_request_headers, task_request_args,
}
use washing.Queue.Tracking.{
  Signal, before_publish, prerun, postrun, failure, retry, receive, handled, mutating, creating,
  Handling,
}
use washing.Queue.Tracking.Rows.{
  Moment, Execution, find_execution, insert_execution, create_execution_if_missing, new_execution,
  utcnow, type_or, start, finish, fail,
}
use washing.Queue.Tracking.Lookup.{
  upsert, KeepsId, mutate_execution-eq-upsert, find_execution-append,
}

-- What a handler does to the rows: nothing, an insert if the row is missing, or a change of the
-- row, which is made first if it is missing.
pub data Effect : Type 0 where
  nothing : Effect
  create : Execution → Effect
  change : Execution → (Execution → Execution) → Effect

unfoldable pub apply_effect : Effect → List Execution → List Execution
apply_effect nothing rows = rows
apply_effect (create e) rows =
    if is_some (find_execution e.task_id rows) then rows else rows ++ e ∷ []
apply_effect (change fresh f) rows = upsert fresh f rows

create_execution_if_missing-eq :
    (e : Execution) (others rows : List Execution)
    → create_execution_if_missing e others rows ≡ apply_effect (create e) (rows ++ others)
unfolding create_execution_if_missing insert_execution apply_effect
create_execution_if_missing-eq e others rows =
    ground (arith, find_execution-append e.task_id rows others)

pub finish-KeepsId :
    (state : Text) (retval : Json) (now : Moment) (t : Option Text) (id : Option ℤ)
    → KeepsId (finish state retval now t id)
unfolding finish
finish-KeepsId state retval now t id e = ground arith

pub start-KeepsId : (now : Moment) (t : Option Text) (id : Option ℤ) → KeepsId (start now t id)
unfolding start
start-KeepsId now t id e = refl

abbrev pub with_resolved :
    Option (Option Text × Option ℤ) → (Option Text → Option ℤ → Effect) → Effect
with_resolved none k = nothing
with_resolved (some (t, id)) k = k t id

module _ (strings : Strings) where
  -- The effect that a handler has once it has its task id, its name and its resource context.
  abbrev pub effect_of :
      Option Text
      → Option Text
      → Option Fields
      → List Json
      → (Text → Text → Option Text → Option ℤ → Effect)
      → Effect
  effect_of none name headers args k = nothing
  effect_of (some id) none headers args k = nothing
  effect_of (some id) (some name) headers args k =
      with_resolved (resolve_resource_context strings name headers args) (k id name)

  abbrev pub changing :
      ℕ
      → (Option Text → Option ℤ → Execution → Execution)
      → Text
      → Text
      → Option Text
      → Option ℤ
      → Effect
  changing now f id name t rid = change (new_execution id name (utcnow now) t rid) (f t rid)

  abbrev pub with_state_effect : Option Text → (Text → Effect) → Effect
  with_state_effect none k = nothing
  with_state_effect (some state) k = k state

  unfoldable pub effect : Signal → ℕ → Effect
  effect (before_publish sender headers body) now =
      effect_of (published_task_id headers body) (type_or sender (published_task_name headers body))
        headers (published_args body)
        (λ id name t rid. create (new_execution id name (utcnow now) t rid))
  effect (prerun id task args) now =
      effect_of id task.name (task_request_headers task) args (changing now (start (utcnow now)))
  effect (postrun id task state retval) now = with_state_effect state (λ s.
      effect_of id task.name (task_request_headers task) (task_request_args task)
        (changing now (finish s retval (utcnow now))))
  effect (failure id sender exception args) now =
      effect_of id sender.name (task_request_headers sender) args
        (changing now (fail strings (codes "FAILURE") exception))
  effect (retry id args reason sender) now =
      effect_of id sender.name (task_request_headers sender) args
        (changing now (fail strings (codes "RETRY") reason))

  pub fail-KeepsId :
      (status : Text) (exception : Option Failure) (t : Option Text) (id : Option ℤ)
      → KeepsId (fail strings status exception t id)
  unfolding fail
  fail-KeepsId status exception t id e = refl

  handled-eq :
      (id name : Option Text) (headers : Option Fields) (args : List Json) (handling : Handling)
      (k : Text → Text → Option Text → Option ℤ → Effect) (others rows : List Execution)
      → ((i n : Text) (t : Option Text) (rid : Option ℤ)
          → handling i n t rid others rows ≡ apply_effect (k i n t rid) (rows ++ others))
      → handled strings id name headers args handling others rows
        ≡ apply_effect (effect_of id name headers args k) (rows ++ others)
  unfolding apply_effect
  handled-eq none name headers args handling k others rows h = refl
  handled-eq (some i) none headers args handling k others rows h = refl
  handled-eq (some i) (some n) headers args handling k others rows h =
      elim (Option-cases (resolve_resource_context strings n headers args)) [
        | inl e ↦ rw e
        | inr (c, e) ↦ rw e (h i n c.0 c.1)
      ]

  mutating-eq :
      (now : ℕ) (f : Option Text → Option ℤ → Execution → Execution)
      → ((t : Option Text) (rid : Option ℤ) → KeepsId (f t rid))
      → (others rows : List Execution) (i n : Text) (t : Option Text) (rid : Option ℤ)
      → mutating strings now f i n t rid others rows
        ≡ apply_effect (changing now f i n t rid) (rows ++ others)
  unfolding apply_effect
  mutating-eq now f keeps others rows i n t rid =
      mutate_execution-eq-upsert (new_execution i n (utcnow now) t rid) (f t rid) (keeps t rid)
        others rows

  creating-eq :
      (now : ℕ) (others rows : List Execution) (i n : Text) (t : Option Text) (rid : Option ℤ)
      → creating strings now i n t rid others rows
        ≡ apply_effect (create (new_execution i n (utcnow now) t rid)) (rows ++ others)
  creating-eq now others rows i n t rid =
      create_execution_if_missing-eq (new_execution i n (utcnow now) t rid) others rows

  pub receive-eq-effect :
      (s : Signal) (now : ℕ) (others rows : List Execution)
      → receive strings s now others rows ≡ apply_effect (effect s now) (rows ++ others)
  unfolding receive effect
  receive-eq-effect (before_publish sender headers body) now others rows =
      handled-eq (published_task_id headers body)
        (type_or sender (published_task_name headers body)) headers (published_args body)
        (creating strings now) _ others rows (creating-eq now others rows)
  receive-eq-effect (prerun id task args) now others rows =
      handled-eq id task.name (task_request_headers task) args _ _ others rows (
        mutating-eq now (start (utcnow now)) (λ t rid. start-KeepsId (utcnow now) t rid) others
          rows)
  receive-eq-effect (postrun id task none retval) now others rows = unfold apply_effect in refl
  receive-eq-effect (postrun id task (some s) retval) now others rows =
      handled-eq id task.name (task_request_headers task) (task_request_args task) _ _ others rows (
        mutating-eq now (finish s retval (utcnow now))
          (λ t rid. finish-KeepsId s retval (utcnow now) t rid) others rows)
  receive-eq-effect (failure id sender exception args) now others rows =
      handled-eq id sender.name (task_request_headers sender) args _ _ others rows (
        mutating-eq now (fail strings (codes "FAILURE") exception)
          (λ t rid. fail-KeepsId (codes "FAILURE") exception t rid) others rows)
  receive-eq-effect (retry id args reason sender) now others rows =
      handled-eq id sender.name (task_request_headers sender) args _ _ others rows (
        mutating-eq now (fail strings (codes "RETRY") reason)
          (λ t rid. fail-KeepsId (codes "RETRY") reason t rid) others rows)

  -- A handler that other workers' inserts interrupt between its query and its commit leaves the
  -- rows that it would leave had it run after those inserts, alone.
  pub receive_serial :
      (s : Signal) (now : ℕ) (others rows : List Execution)
      → receive strings s now others rows ≡ receive strings s now [] (rows ++ others)
  receive_serial s now others rows =
      receive-eq-effect s now others rows
      ∙ ap (apply_effect (effect s now)) (sym (append-nil (rows ++ others)))
      ∙ sym (receive-eq-effect s now [] (rows ++ others))
