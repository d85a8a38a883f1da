-- ===== src/Tests/Security.antt =====
-- Inputs for internal/domain and internal/infra/security.
use washing.Prelude.{◌≡◌, refl, ◌↔◌, false, Option, some, Text, codes, pos}
use washing.Domain.{
  normalize_application_code, normalize_dimension, normalize_external_id, normalize_hostname, strip,
}
use washing.Domain.Canonical.{IsCanonicalOr, normalize_stable}
use washing.Domain.Ascii.{ascii, upper-IsCasing, lower-IsCasing, to_upper, to_lower, is_ascii_space}
use washing.Security.{
  Json, Fields, int, str, moment, dict, list, end, field, nil, cons, sanitize_json_value,
  sanitize_task_result, ErrorCode, Failure, sanitize_operational_error, set_field, is_safe_key,
  resource_not_found,
}
use washing.Security.Allowlist.{IsSafe, sanitize_json_value_fixed, sanitize_task_result-IsSafe}
use washing.Security.Errors.{HasReason, sanitize_operational_error-HasReason}

abbrev host : Option Text
host = some (codes "  vm-01.example ")

normalize_stable_example :
    let app = normalize_application_code ascii host in
    let dim = normalize_dimension ascii host in
    let ext = normalize_external_id ascii host in
    let name = normalize_hostname ascii host in
    (normalize_application_code ascii app ≡ app)
    × (normalize_dimension ascii dim ≡ dim)
    × (normalize_external_id ascii ext ≡ ext)
    × (normalize_hostname ascii name ≡ name)
    × IsCanonicalOr ascii ascii.upper app
    × IsCanonicalOr ascii ascii.upper dim
    × IsCanonicalOr ascii ascii.lower ext
    × IsCanonicalOr ascii ascii.upper name
normalize_stable_example = normalize_stable ascii upper-IsCasing lower-IsCasing host

run_hostname : normalize_hostname ascii host ≡ some (codes "VM-01.EXAMPLE")
unfolding normalize_hostname strip to_upper is_ascii_space
run_hostname = refl

-- A nested secret, a date and a repeated key.
abbrev payload : Json
payload = dict (
    field (codes "status") (moment (codes "2026-01-01")) (
      field (codes "token") (str (codes "s3cret")) (
        field (codes "machines")
          (list (cons (dict (field (codes "password") (str (codes "x")) end)) nil))
          (field (codes "status") (int (pos 2)) end))))

abbrev clean : Json
clean = dict (
    field (codes "status") (int (pos 2))
      (field (codes "machines") (list (cons (dict end) nil)) end))

sanitize_payload : sanitize_task_result payload ≡ some clean
unfolding sanitize_task_result set_field is_safe_key
sanitize_payload = refl

sanitize_task_result-IsSafe_example : ((gs : Fields) × (clean ≡ dict gs)) × IsSafe clean
sanitize_task_result-IsSafe_example = sanitize_task_result-IsSafe payload clean sanitize_payload

sanitize_json_value_fixed_example :
    (IsSafe payload ↔ (sanitize_json_value payload ≡ payload))
    × (sanitize_json_value (sanitize_json_value payload) ≡ sanitize_json_value payload)
sanitize_json_value_fixed_example = sanitize_json_value_fixed payload

abbrev missing : Failure
missing = record { is_json_decode_error = false; message = codes " Provisioner 7 NOT found" }

run_error : sanitize_operational_error ascii (some missing) ≡ some resource_not_found
unfolding sanitize_operational_error strip to_lower is_ascii_space
run_error = refl

sanitize_operational_error-HasReason_example :
    (code : ErrorCode) × (sanitize_operational_error ascii (some missing) ≡ some code)
    × HasReason false (ascii.lower (strip ascii missing.message)) code
sanitize_operational_error-HasReason_example = sanitize_operational_error-HasReason ascii missing
