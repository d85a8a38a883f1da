-- ===== src/Tests/Connectors.antt =====
-- Inputs for internal/infra/connectors/provisioners/mock.py: a directory with a preset, a file whose
-- name is no preset's, and a directory.
use washing.Prelude.{
  ◌≡◌, ◌↔◌, refl, Bool, true, false, Option, some, List, [], ◌∷◌, Text, codes, In, eq_text,
}
use washing.Connectors.{answered}
use washing.Connectors.Presets.{
  Entry, file_name, has_file, entries_of, matches_rest, validate_mock_preset_name, resolve_name,
  resolve_mock_preset_path, list_mock_presets,
}
use washing.Connectors.Presets.Names.{list-resolves, resolved-IsInside}

abbrev mock_dir : Option (List Entry)
mock_dir = some (
    record { stem = codes "single-vm"; is_file = true }
    ∷ record { stem = codes "Notes"; is_file = true }
    ∷ record { stem = codes "old"; is_file = false }
    ∷ [])

abbrev never : Text → Text → Bool
never s t = false

list-resolves_example :
    In (codes "single-vm") (list_mock_presets never mock_dir)
    ↔ (resolve_mock_preset_path mock_dir (codes "single-vm") ≡ answered (codes "single-vm.json"))
list-resolves_example = list-resolves never mock_dir (codes "single-vm")

resolved-IsInside_example :
    (codes "single-vm.json" ≡ file_name (codes "single-vm"))
    × (has_file (entries_of mock_dir) (codes "single-vm") ≡ true)
    × (In 47 (codes "single-vm.json") → ⊥)
unfolding resolve_mock_preset_path validate_mock_preset_name resolve_name has_file matches_rest
    eq_text
resolved-IsInside_example =
    resolved-IsInside mock_dir (codes "single-vm") (codes "single-vm.json") refl
