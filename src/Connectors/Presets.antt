-- ===== src/Connectors/Presets.antt =====
-- internal/infra/connectors/provisioners/mock.py, the names of the presets
-- The directory of the presets is the list of its entries that end in .json, each by its stem, or
-- none where it does not exist; a path in it is its last component. `sorted` compares by `before`.
pub mod Names
use washing.Prelude.{
  ℕ, ◌==◌, leb, Bool, true, false, ◌&&◌, ◌||◌, Option, none, some, List, [], ◌∷◌, ◌++◌, Text, codes,
  eq_text, sort_with, if◌then◌else◌,
}
use washing.Connectors.{Answer, raised, answered, value_error}

pub record Entry : Type 0 where
  pub stem : Text
  pub is_file : Bool

-- `[a-z0-9]`
abbrev pub is_name_char : ℕ → Bool
is_name_char c = (leb 97 c && leb c 122) || (leb 48 c && leb c 57)

-- `_MOCK_PRESET_NAME_RE` on the rest of a text, after a letter or digit or not
unfoldable pub matches_rest : Bool → Text → Bool
matches_rest in_word [] = in_word
matches_rest in_word (c ∷ s) =
    (is_name_char c || (c == 45 && in_word)) && matches_rest (is_name_char c) s

-- `_MOCK_PRESET_NAME_RE.fullmatch`
abbrev pub is_preset_name : Text → Bool
is_preset_name s = matches_rest false s

unfoldable pub validate_mock_preset_name : Text → Answer Text
unfolding matches_rest
validate_mock_preset_name preset =
    if is_preset_name preset
    then answered preset
    else raised (value_error (codes "invalid mock preset: " ++ preset))

-- `path.is_file()` of `stem.json`
unfoldable pub has_file : List Entry → Text → Bool
unfolding eq_text
has_file [] stem = false
has_file (e ∷ es) stem = (eq_text e.stem stem && e.is_file) || has_file es stem

abbrev pub entries_of : Option (List Entry) → List Entry
entries_of none = []
entries_of (some es) = es

abbrev pub file_name : Text → Text
file_name preset_name = preset_name ++ codes ".json"

unfoldable pub resolve_name : Option (List Entry) → Answer Text → Answer Text
unfolding has_file
resolve_name presets_dir (raised e) = raised e
resolve_name presets_dir (answered preset_name) =
    if has_file (entries_of presets_dir) preset_name
    then answered (file_name preset_name)
    else raised (value_error (codes "unknown mock preset: " ++ preset_name))

unfoldable pub resolve_mock_preset_path : Option (List Entry) → Text → Answer Text
unfolding resolve_name validate_mock_preset_name
resolve_mock_preset_path presets_dir preset =
    resolve_name presets_dir (validate_mock_preset_name preset)

-- The stems that `list_mock_presets` sorts
unfoldable pub preset_stems : List Entry → List Text
unfolding matches_rest
preset_stems [] = []
preset_stems (e ∷ es) =
    let rest = preset_stems es in if e.is_file && is_preset_name e.stem then e.stem ∷ rest else rest

module _ (before : Text → Text → Bool) where
  unfoldable pub list_mock_presets : Option (List Entry) → List Text
  unfolding preset_stems sort_with
  list_mock_presets none = []
  list_mock_presets (some es) = sort_with before (preset_stems es)
