-- ===== src/Security.antt =====
-- internal/infra/security/sanitization.py
-- `Json` is the type of the Python values that reach a task result: the JSON values, and the
-- `datetime` and other objects that the sanitizer turns into text.
pub mod Allowlist
pub mod Errors
use washing.Prelude.{
  ℕ, Bool, true, false, ◌&&◌, ◌||◌, Option, none, some, List, [], ◌∷◌, String, Text, codes,
  contains, ends_with, eq_text, elem_text, ℤ, Float, if◌then◌else◌,
}
use washing.Domain.{Strings, strip}

-- The codes, by the names of their constants.
pub data ErrorCode : Type 0 where
  disabled resource_not_found invalid_configuration connector_unavailable : ErrorCode
  dispatch_failed unexpected : ErrorCode

-- The text that is stored for a code.
unfoldable pub code_text : ErrorCode → Text
code_text disabled = codes "disabled"
code_text resource_not_found = codes "resource_not_found"
code_text invalid_configuration = codes "invalid_configuration"
code_text connector_unavailable = codes "connector_unavailable"
code_text dispatch_failed = codes "dispatch_failed"
code_text unexpected = codes "unexpected_error"

-- An exception or a text: whether it is a `JSONDecodeError`, and what `str` shows of it.
pub record Failure : Type 0 where
  pub is_json_decode_error : Bool
  pub message : Text

-- The tests on the stripped text in lower case, in their order.
unfoldable pub classify_message : Text → ErrorCode
unfolding contains ends_with
classify_message message =
    if contains message (codes "must be enabled") || contains message (codes "disabled")
    then disabled
    else if ends_with message (codes "not found") || contains message (codes " not found")
    then resource_not_found
    else if contains message (codes "unsupported metric collector type")
        || contains message (codes "unsupported machine provisioner type")
    then connector_unavailable
    else if contains message (codes "invalid mock")
        || contains message (codes "invalid config")
        || contains message (codes "invalid configuration")
        || contains message (codes "invalid encrypted payload")
    then invalid_configuration
    else if contains message (codes "enqueue")
        || contains message (codes "dispatch")
        || contains message (codes "publish")
    then dispatch_failed
    else unexpected

-- `if not message`
abbrev pub classify_non_empty : Text → ErrorCode
classify_non_empty [] = unexpected
classify_non_empty (c ∷ s) = classify_message (c ∷ s)

unfoldable pub sanitize_operational_error : Strings → Option Failure → Option ErrorCode
unfolding classify_message
sanitize_operational_error str none = none
sanitize_operational_error str (some value) =
    if value.is_json_decode_error
    then some invalid_configuration
    else some (classify_non_empty (str.lower (strip str value.message)))

abbrev pub safe_task_result_keys : List Text
safe_task_result_keys =
    codes "application_id"
    ∷ codes "applications"
    ∷ codes "batch_size"
    ∷ codes "created"
    ∷ codes "deleted"
    ∷ codes "flavor_changes"
    ∷ codes "machine_id"
    ∷ codes "machines"
    ∷ codes "provider_id"
    ∷ codes "providers"
    ∷ codes "provisioners"
    ∷ codes "skipped"
    ∷ codes "status"
    ∷ codes "synced"
    ∷ codes "total"
    ∷ codes "updated"
    ∷ []

unfoldable pub is_safe_key : Text → Bool
unfolding elem_text
is_safe_key key = elem_text key safe_task_result_keys

-- A key is what `str` shows of it. `moment` is a
-- `datetime` with its ISO form, `other` any other object with what `str` shows of it.
mutual
  pub data Json : Type 0 where
    null : Json
    bool : Bool → Json
    int : ℤ → Json
    float : Float → Json
    str : Text → Json
    moment : Text → Json
    other : Text → Json
    dict : Fields → Json
    list : Items → Json

  pub data Fields : Type 0 where
    end : Fields
    field : Text → Json → Fields → Fields

  pub data Items : Type 0 where
    nil : Items
    cons : Json → Items → Items

-- `d[key] = value`: the value of a key that is there already is replaced in its place.
unfoldable pub set_field : Text → Json → Fields → Fields
set_field k v end = field k v end
set_field k v (field j w fs) =
    let rest = set_field k v fs in if eq_text j k then field j v fs else field j w rest

unfoldable mutual
  pub sanitize_json_value : Json → Json
  sanitize_json_value null = null
  sanitize_json_value (bool b) = bool b
  sanitize_json_value (int n) = int n
  sanitize_json_value (float x) = float x
  sanitize_json_value (str s) = str s
  sanitize_json_value (moment s) = str s
  sanitize_json_value (other s) = str s
  sanitize_json_value (dict fs) = dict (sanitize_fields fs end)
  sanitize_json_value (list xs) = list (sanitize_items xs)

  -- The comprehension over a mapping, from the entries made so far.
  pub sanitize_fields : Fields → Fields → Fields
  sanitize_fields end made = made
  sanitize_fields (field k v fs) made =
      sanitize_fields fs (if is_safe_key k then set_field k (sanitize_json_value v) made else made)

  pub sanitize_items : Items → Items
  sanitize_items nil = nil
  sanitize_items (cons v vs) = cons (sanitize_json_value v) (sanitize_items vs)

-- `result or None`
abbrev pub non_empty_dict : Fields → Option Json
non_empty_dict end = none
non_empty_dict (field k v fs) = some (dict (field k v fs))

unfoldable pub sanitize_task_result : Json → Option Json
unfolding sanitize_json_value
sanitize_task_result null = none
sanitize_task_result (dict fs) = non_empty_dict (sanitize_fields fs end)
sanitize_task_result v = some (dict (field (codes "status") (sanitize_json_value v) end))
