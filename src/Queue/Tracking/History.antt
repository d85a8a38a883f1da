-- ===== src/Queue/Tracking/History.antt =====
-- What no later signal takes away from a row.
use washing.Prelude.{
  ℕ, ◌≡◌, refl, sym, ap, ◌∙◌, Bool-cases, Option-cases, inl, inr, Option, none, some, or_else, List,
  [], ◌∷◌, ◌++◌, Text, codes, arith, eq_text, eq_text_iff, ℤ,
}
use washing.Domain.{Strings}
use washing.Security.{Json, Failure, Fields}
use washing.Queue.Context.{
  resolve_resource_context, task_request_headers, task_request_args, published_task_id,
  published_task_name, published_args,
}
use washing.Queue.Tracking.{
  Signal, before_publish, prerun, postrun, failure, retry, Arrival, receive, receive_all,
}
use washing.Queue.Tracking.Rows.{
  Moment, Execution, find_execution, type_or, start, finish, fail, utcnow,
}
use washing.Queue.Tracking.Lookup.{find_execution-append, find_execution-upsert}
use washing.Queue.Tracking.Atomicity.{
  Effect, nothing, create, change, apply_effect, effect, effect_of, receive-eq-effect,
}

-- The row `b` is a later state of the row `a`: the same task, queued at the same moment, with the
-- resource type (unless it was empty) and the resource id that `a` had, if it had one.
pub record Continues (a b : Execution) : Type 0 where
  pub same_id : b.task_id ≡ a.task_id
  pub same_name : b.task_name ≡ a.task_name
  pub same_queued_at : b.queued_at ≡ a.queued_at
  pub keeps_type : b.resource_type ≡ type_or a.resource_type b.resource_type
  pub keeps_resource_id : b.resource_id ≡ or_else a.resource_id b.resource_id

type_or_trans : (a b c : Option Text) → b ≡ type_or a b → c ≡ type_or b c → c ≡ type_or a c
type_or_trans none b c h k = refl
type_or_trans (some []) b c h k = refl
type_or_trans (some (x ∷ s)) b c h k = ground arith

or_else_trans : (a b c : Option ℤ) → b ≡ or_else a b → c ≡ or_else b c → c ≡ or_else a c
or_else_trans none b c h k = refl
or_else_trans (some x) b c h k = ground arith

type_or_self : (a : Option Text) → a ≡ type_or a a
type_or_self none = refl
type_or_self (some []) = refl
type_or_self (some (c ∷ s)) = refl

or_else_self : (a : Option ℤ) → a ≡ or_else a a
or_else_self none = refl
or_else_self (some n) = refl

pub Continues-refl : (a : Execution) → Continues a a
Continues-refl a = record {
  same_id = refl;
  same_name = refl;
  same_queued_at = refl;
  keeps_type = type_or_self a.resource_type;
  keeps_resource_id = or_else_self a.resource_id;
}

Continues-trans : {a b c : Execution} → Continues a b → Continues b c → Continues a c
Continues-trans {a} {b} {c} p q = record {
  same_id = q.same_id ∙ p.same_id;
  same_name = q.same_name ∙ p.same_name;
  same_queued_at = q.same_queued_at ∙ p.same_queued_at;
  keeps_type =
      type_or_trans a.resource_type b.resource_type c.resource_type p.keeps_type q.keeps_type;
  keeps_resource_id =
      or_else_trans a.resource_id b.resource_id c.resource_id p.keeps_resource_id
        q.keeps_resource_id;
}

type_or_idem : (a t : Option Text) → type_or a t ≡ type_or a (type_or a t)
type_or_idem none t = refl
type_or_idem (some []) t = refl
type_or_idem (some (c ∷ s)) t = refl

or_else_idem : (a t : Option ℤ) → or_else a t ≡ or_else a (or_else a t)
or_else_idem none t = refl
or_else_idem (some n) t = refl

-- A handler's change of a row goes on from it.
abbrev pub IsContinuing : (Execution → Execution) → Type 0
IsContinuing f = (e : Execution) → Continues e (f e)

start-IsContinuing :
    (now : Moment) (t : Option Text) (rid : Option ℤ) → IsContinuing (start now t rid)
unfolding start
start-IsContinuing now t rid e = record {
  same_id = refl;
  same_name = refl;
  same_queued_at = refl;
  keeps_type = type_or_idem e.resource_type t;
  keeps_resource_id = or_else_idem e.resource_id rid;
}

fail-IsContinuing :
    (strings : Strings) (status : Text) (x : Option Failure) (t : Option Text) (rid : Option ℤ)
    → IsContinuing (fail strings status x t rid)
unfolding fail
fail-IsContinuing strings status x t rid e = record {
  same_id = refl;
  same_name = refl;
  same_queued_at = refl;
  keeps_type = type_or_idem e.resource_type t;
  keeps_resource_id = or_else_idem e.resource_id rid;
}

finish_fields :
    (state : Text) (retval : Json) (now : Moment) (t : Option Text) (rid : Option ℤ) (e : Execution)
    → let e' = finish state retval now t rid e in
      (e'.task_id ≡ e.task_id)
      × (e'.task_name ≡ e.task_name)
      × (e'.queued_at ≡ e.queued_at)
      × (e'.resource_type ≡ type_or e.resource_type t)
      × (e'.resource_id ≡ or_else e.resource_id rid)
unfolding finish
finish_fields state retval now t rid e = ground arith

finish-IsContinuing :
    (state : Text) (retval : Json) (now : Moment) (t : Option Text) (rid : Option ℤ)
    → IsContinuing (finish state retval now t rid)
finish-IsContinuing state retval now t rid e =
    let (p, q, r, u, v) = finish_fields state retval now t rid e in
    record {
      same_id = p;
      same_name = q;
      same_queued_at = r;
      keeps_type = u ∙ type_or_idem e.resource_type t ∙ ap (type_or e.resource_type) (sym u);
      keeps_resource_id = v ∙ or_else_idem e.resource_id rid ∙ ap (or_else e.resource_id) (sym v);
    }

abbrev pub IsTame : Effect → Type 0
IsTame nothing = Unit
IsTame (create e) = Unit
IsTame (change fresh f) = IsContinuing f

module _ (strings : Strings) where
  effect_of-IsTame :
      (id name : Option Text) (headers : Option Fields) (args : List Json)
      (k : Text → Text → Option Text → Option ℤ → Effect)
      → ((i n : Text) (t : Option Text) (rid : Option ℤ) → IsTame (k i n t rid))
      → IsTame (effect_of strings id name headers args k)
  effect_of-IsTame none name headers args k h = tt
  effect_of-IsTame (some i) none headers args k h = tt
  effect_of-IsTame (some i) (some n) headers args k h =
      elim (Option-cases (resolve_resource_context strings n headers args)) [
        | inl e ↦ rw e tt
        | inr (c, e) ↦ rw e (h i n c.0 c.1)
      ]

  pub effect-IsTame : (s : Signal) (now : ℕ) → IsTame (effect strings s now)
  unfolding effect
  effect-IsTame (before_publish sender headers body) now =
      effect_of-IsTame (published_task_id headers body)
        (type_or sender (published_task_name headers body)) headers (published_args body) _
        (λ i n t rid. tt)
  effect-IsTame (prerun id task args) now =
      effect_of-IsTame id task.name (task_request_headers task) args _
        (λ i n t rid. start-IsContinuing (utcnow now) t rid)
  effect-IsTame (postrun id task none retval) now = tt
  effect-IsTame (postrun id task (some s) retval) now =
      effect_of-IsTame id task.name (task_request_headers task) (task_request_args task) _
        (λ i n t rid. finish-IsContinuing s retval (utcnow now) t rid)
  effect-IsTame (failure id sender exception args) now =
      effect_of-IsTame id sender.name (task_request_headers sender) args _
        (λ i n t rid. fail-IsContinuing strings (codes "FAILURE") exception t rid)
  effect-IsTame (retry id args reason sender) now =
      effect_of-IsTame id sender.name (task_request_headers sender) args _
        (λ i n t rid. fail-IsContinuing strings (codes "RETRY") reason t rid)

-- A row that is there goes on under any effect that is tame.
apply_effect-Continues :
    (x : Effect) (rows : List Execution) (j : Text) (e : Execution)
    → IsTame x
    → find_execution j rows ≡ some e
    → (e' : Execution) × (find_execution j (apply_effect x rows) ≡ some e') × Continues e e'
unfolding apply_effect
apply_effect-Continues nothing rows j e tame h = (e, h, Continues-refl e)
apply_effect-Continues (create x) rows j e tame h =
    (e, ground (arith, find_execution-append j rows (x ∷ [])), Continues-refl e)
apply_effect-Continues (change fresh f) rows j e tame h =
    elim (Bool-cases (eq_text fresh.task_id j)) [
      | inl same ↦
          let p : fresh.task_id ≡ j = (eq_text_iff fresh.task_id j).0 same in
          (
            f e,
            rw (find_execution-upsert fresh f (λ x. (tame x).same_id) j rows, same, p, h),
            tame e,
          )
      | inr other ↦ (
        e,
        rw (find_execution-upsert fresh f (λ x. (tame x).same_id) j rows, other, h),
        Continues-refl e,
      )
    ]

module _ (strings : Strings) where
  receive-Continues :
      (s : Signal) (now : ℕ) (others rows : List Execution) (j : Text) (e : Execution)
      → find_execution j rows ≡ some e
      → (e' : Execution) × (find_execution j (receive strings s now others rows) ≡ some e')
        × Continues e e'
  receive-Continues s now others rows j e h = rw (receive-eq-effect strings s now others rows) (
      apply_effect-Continues (effect strings s now) (rows ++ others) j e
        (effect-IsTame strings s now) (ground (arith, find_execution-append j rows others)))

  -- Whatever signals arrive, in any order and interleaved with any inserts, a row stays in the
  -- table with its task name and the moment it was queued at, and a resource type that is not
  -- empty and a resource id stay as they were first recorded.
  pub receive_all-Continues :
      (arrivals : List Arrival) (rows : List Execution) (j : Text) (e : Execution)
      → find_execution j rows ≡ some e
      → (e' : Execution) × (find_execution j (receive_all strings arrivals rows) ≡ some e')
        × Continues e e'
  unfolding receive_all
  receive_all-Continues [] rows j e h = (e, h, Continues-refl e)
  receive_all-Continues (a ∷ arrivals) rows j e h =
      let (m, found, step) = receive-Continues a.signal a.now a.others rows j e h in
      let (e', found', rest) =
        receive_all-Continues arrivals (receive strings a.signal a.now a.others rows) j m found in
      (e', found', Continues-trans step rest)
