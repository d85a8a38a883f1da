-- ===== src/Contracts/Views.antt =====
-- What a view of internal/contracts/http/resources.py shows of what was stored.
use mathlib.Core.Path.{subst}
use washing.Prelude.{◌≡◌, ◌≢◌, refl, sym, ap, ◌∙◌, Option, none, some}
use washing.Domain.{Strings, strip}
use washing.Security.{
  Json, Fields, null, dict, end, field, sanitize_json_value, sanitize_fields, sanitize_task_result,
  non_empty_dict, ErrorCode, disabled, resource_not_found, invalid_configuration,
  connector_unavailable, dispatch_failed, unexpected, code_text, classify_non_empty,
  classify_message,
}
use washing.Security.Allowlist.{IsSafe, sanitize_json_value_fixed, sanitize_task_result-IsSafe}
use washing.Contracts.{sanitize_result, sanitize_error}

-- The code that a view shows for a stored code.
abbrev pub shown : ErrorCode → ErrorCode
shown disabled = disabled
shown resource_not_found = unexpected
shown invalid_configuration = unexpected
shown connector_unavailable = unexpected
shown dispatch_failed = dispatch_failed
shown unexpected = unexpected

classify-code_text : (code : ErrorCode) → classify_non_empty (code_text code) ≡ shown code
unfolding classify_message code_text
classify-code_text disabled = refl
classify-code_text resource_not_found = refl
classify-code_text invalid_configuration = refl
classify-code_text connector_unavailable = refl
classify-code_text dispatch_failed = refl
classify-code_text unexpected = refl

-- A view classifies a stored error again: of the six codes, it shows "disabled", "dispatch_failed"
-- and "unexpected_error" as they are, and each other as "unexpected_error". The texts of the codes
-- are stripped and in lower case.
pub sanitize_error-stored :
    (strings : Strings) (code : ErrorCode)
    → strings.lower (strip strings (code_text code)) ≡ code_text code
    → sanitize_error strings (some code) ≡ some (shown code)
unfolding sanitize_error
sanitize_error-stored strings code plain =
    ap (λ t. some (classify_non_empty t)) plain ∙ ap some (classify-code_text code)

non_empty_dict-ne : (fs : Fields) → non_empty_dict fs ≢ some (dict end)
non_empty_dict-ne end h = cc
non_empty_dict-ne (field k v fs) h = cc

sanitize_task_result-ne : (v : Json) → sanitize_task_result v ≢ some (dict end)
unfolding sanitize_task_result
sanitize_task_result-ne null h = cc
sanitize_task_result-ne (dict fs) h = non_empty_dict-ne (sanitize_fields fs end) h
sanitize_task_result-ne v h = cc

fields-fixed : (gs : Fields) → IsSafe (dict gs) → sanitize_fields gs end ≡ gs
unfolding sanitize_json_value
fields-fixed gs safe =
    let e : dict (sanitize_fields gs end) ≡ dict gs =
      (sanitize_json_value_fixed (dict gs)).0.0 safe in
    cc

again :
    (gs : Fields)
    → IsSafe (dict gs)
    → dict gs ≢ dict end
    → sanitize_task_result (dict gs) ≡ some (dict gs)
unfolding sanitize_task_result
again end safe full = absurd (full refl)
again (field k v fs) safe full = ap non_empty_dict (fields-fixed (field k v fs) safe)

kept : (v : Json) (o : Option Json) → sanitize_task_result v ≡ o → sanitize_result o ≡ o
unfolding sanitize_result sanitize_task_result
kept v none e = refl
kept v (some r) e =
    let ((gs, eq), safe) = sanitize_task_result-IsSafe v r e in
    subst (λ x. sanitize_task_result x ≡ some x) (sym eq)
      (again gs (subst IsSafe eq safe)
        (λ empty. sanitize_task_result-ne v (e ∙ ap some (eq ∙ empty))))

-- A view shows the result of a task as it was stored, whatever the task returned.
pub sanitize_result-stored :
    (retval : Json) → sanitize_result (sanitize_task_result retval) ≡ sanitize_task_result retval
sanitize_result-stored retval = kept retval (sanitize_task_result retval) refl
