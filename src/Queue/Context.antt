-- ===== src/Queue/Context.antt =====
-- internal/infra/queue/task_tracking.py, the payload helpers, and internal/infra/queue/task_names.py
-- A Python object is a `Json`: `null` for `None` and for an attribute that is absent, `list` for a
-- list or a tuple, `other` for what is neither JSON nor a sequence (so for `bytes` too).
pub mod Linkage
use washing.Prelude.{
  ℕ, Bool, true, false, Option, none, some, List, [], ◌∷◌, Text, codes, eq_text, ℤ, pos,
  if◌then◌else◌,
}
use washing.Domain.{Strings}
use washing.Security.{
  Json, null, bool, int, float, str, moment, other, dict, list, Fields, end, field, Items, nil,
  cons,
}

-- `d.get(key)`
unfoldable pub get_field : Text → Fields → Json
get_field k end = null
get_field k (field j v fs) = if eq_text j k then v else get_field k fs

unfoldable pub to_list : Items → List Json
to_list nil = []
to_list (cons v vs) = v ∷ to_list vs

abbrev pub resource_type_header : Text
resource_type_header = codes "x-resource-type"

abbrev pub resource_id_header : Text
resource_id_header = codes "x-resource-id"

abbrev pub run_provider_task : Text
run_provider_task = codes "providers.run"

abbrev pub run_provider_machine_task : Text
run_provider_machine_task = codes "providers.run_machine"

abbrev pub run_provisioner_task : Text
run_provisioner_task = codes "provisioners.run"

abbrev pub sync_application_metrics_task : Text
sync_application_metrics_task = codes "applications.sync_metrics"

abbrev pub recalculate_machine_optimizations_task : Text
recalculate_machine_optimizations_task = codes "machines.recalculate_optimizations"

-- `TASK_RESOURCE_TYPES.get(task_name)`
unfoldable pub task_resource_type : Text → Option Text
task_resource_type name =
    if eq_text name run_provider_machine_task
    then some (codes "provider")
    else if eq_text name run_provider_task
    then some (codes "provider")
    else if eq_text name run_provisioner_task
    then some (codes "provisioner")
    else if eq_text name sync_application_metrics_task
    then some (codes "application")
    else if eq_text name recalculate_machine_optimizations_task
    then some (codes "machine")
    else none

-- `_string_or_none`
unfoldable pub string_or_none : Json → Option Text
string_or_none (str (c ∷ s)) = some (c ∷ s)
string_or_none _ = none

-- A result of code that may raise, which is `none`.
infixl 5 ◌>>=◌
abbrev pub ◌>>=◌ {ℓ κ} : {A : Type ℓ} {B : Type κ} → Option A → (A → Option B) → Option B
none >>= f = none
some a >>= f = f a

-- `int(value)`, which raises for a text of digits that are not decimal, such as "²".
abbrev pub int_of_digits : Option ℕ → Option (Option ℤ)
int_of_digits none = none
int_of_digits (some n) = some (some (pos n))

abbrev pub type_header : Option Text → Fields → Fields
type_header none fs = fs
type_header (some t) fs = field resource_type_header (str t) fs

abbrev pub id_header : Option ℤ → Fields
id_header none = end
id_header (some n) = field resource_id_header (int n) end

abbrev pub header_type : Option Fields → Option Text
header_type none = none
header_type (some fs) = string_or_none (get_field resource_type_header fs)

abbrev pub or_task_type : Option Text → Text → Option Text
or_task_type none name = task_resource_type name
or_task_type (some t) name = some t

module _ (strings : Strings) where
  -- `_coerce_resource_id`
  unfoldable pub coerce_resource_id : Json → Option (Option ℤ)
  coerce_resource_id (int n) = some (some n)
  coerce_resource_id (str s) =
      if strings.isdigit s then int_of_digits (strings.parse_int s) else some none
  coerce_resource_id _ = some none

  -- `_coerce_resource_id(args[0]) if args else None`
  unfoldable pub coerce_first : List Json → Option (Option ℤ)
  unfolding coerce_resource_id
  coerce_first [] = some none
  coerce_first (v ∷ vs) = coerce_resource_id v

  unfoldable pub build_task_tracking_headers : Text → List Json → Option Fields
  unfolding task_resource_type coerce_first
  build_task_tracking_headers name args = do
    resource_id ← coerce_first args
    some (type_header (task_resource_type name) (id_header resource_id))

  abbrev pub header_id : Option Fields → Option (Option ℤ)
  header_id none = some none
  header_id (some fs) = coerce_resource_id (get_field resource_id_header fs)

  -- The id from the arguments, for a resource that has a type.
  abbrev pub fallback_id : Option ℤ → Option Text → List Json → Option (Option ℤ)
  fallback_id (some n) resource_type args = some (some n)
  fallback_id none none args = some none
  fallback_id none (some t) args = coerce_first args

  -- `_resolve_resource_context`
  unfoldable pub resolve_resource_context :
      Text → Option Fields → List Json → Option (Option Text × Option ℤ)
  unfolding task_resource_type string_or_none coerce_resource_id coerce_first get_field
  resolve_resource_context name headers args = do
    let resource_type = or_task_type (header_type headers) name
    found ← header_id headers
    resource_id ← fallback_id found resource_type args
    some (resource_type, resource_id)

abbrev text_or : Json → Option Text → Option Text
text_or (str s) other_text = some s
text_or _ other_text = other_text

abbrev pub field_of_body : Text → Json → Option Text
field_of_body k (dict fs) = text_or (get_field k fs) none
field_of_body k _ = none

abbrev pub field_of_headers : Text → Option Fields → Option Text → Option Text
field_of_headers k none other_text = other_text
field_of_headers k (some fs) other_text = text_or (get_field k fs) other_text

-- `_published_task_id`
unfoldable pub published_task_id : Option Fields → Json → Option Text
unfolding get_field
published_task_id headers body =
    field_of_headers (codes "id") headers (field_of_body (codes "id") body)

-- `_published_task_name`
unfoldable pub published_task_name : Option Fields → Json → Option Text
unfolding get_field
published_task_name headers body =
    field_of_headers (codes "task") headers (field_of_body (codes "task") body)

-- `tuple(value)` of a sequence, and nothing of any other object.
unfoldable pub sequence_args : Json → List Json
unfolding to_list
sequence_args (list xs) = to_list xs
sequence_args _ = []

-- `_published_args`
unfoldable pub published_args : Json → List Json
unfolding get_field sequence_args
published_args (list (cons v vs)) = sequence_args v
published_args (dict fs) = sequence_args (get_field (codes "args") fs)
published_args _ = []

-- A Celery task object, by the attributes that the handlers read. An absent object has none.
pub record TaskObject : Type 0 where
  pub name : Option Text
  pub request_headers : Json
  pub request_args : Json

-- `_task_request_headers`
unfoldable pub task_request_headers : TaskObject → Option Fields
task_request_headers task = elim task.request_headers [ dict fs ↦ some fs | _ ↦ none ]

-- `_task_request_args`
unfoldable pub task_request_args : TaskObject → List Json
unfolding sequence_args
task_request_args task = sequence_args task.request_args
