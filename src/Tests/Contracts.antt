-- ===== src/Tests/Contracts.antt =====
-- Inputs for internal/contracts/http/resources.py.
use washing.Prelude.{◌≡◌, refl, some, codes, pos}
use washing.Domain.{strip}
use washing.Domain.Ascii.{ascii, to_lower, is_ascii_space}
use washing.Security.{
  Json, str, int, dict, end, field, sanitize_task_result, resource_not_found, unexpected, code_text,
}
use washing.Contracts.{sanitize_error, sanitize_result}
use washing.Contracts.Views.{sanitize_error-stored, sanitize_result-stored}

sanitize_error-stored_example : sanitize_error ascii (some resource_not_found) ≡ some unexpected
unfolding strip to_lower is_ascii_space code_text
sanitize_error-stored_example = sanitize_error-stored ascii resource_not_found refl

abbrev result : Json
result =
    dict
      (field (codes "status") (str (codes "completed")) (field (codes "token") (int (pos 1)) end))

sanitize_result-stored_example :
    sanitize_result (sanitize_task_result result) ≡ sanitize_task_result result
sanitize_result-stored_example = sanitize_result-stored result
