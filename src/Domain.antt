-- ===== src/Domain.antt =====
-- internal/domain/applications.py, internal/domain/machines.py
-- What they take from Python's Unicode tables (whether a character is white space, `str.upper`,
-- `str.lower`, `str.isdigit`, and `int` of a text, `none` where it raises) is the parameter
-- `Strings`; `str.strip` is written out over it.
pub mod Canonical
pub mod Ascii
use mathlib.Core.List.{reverse}
use washing.Prelude.{ℕ, Bool, Option, none, some, [], ◌∷◌, Text, codes, if◌then◌else◌}

pub record Strings : Type 0 where
  pub is_space : ℕ → Bool
  pub upper : Text → Text
  pub lower : Text → Text
  pub isdigit : Text → Bool
  pub parse_int : Text → Option ℕ

-- `normalized or None`, then the transformation
abbrev pub transform_non_empty : (Text → Text) → Text → Option Text
transform_non_empty transform [] = none
transform_non_empty transform (c ∷ s) = some (transform (c ∷ s))

abbrev pub unknown : Text
unknown = codes "UNKNOWN"

-- `normalized or default`: `None` and the empty text give way
abbrev pub or_default : Option Text → Text → Text
or_default none default = default
or_default (some []) default = default
or_default (some (c ∷ s)) default = c ∷ s

module _ (str : Strings) where
  unfoldable pub lstrip : Text → Text
  lstrip [] = []
  lstrip (c ∷ s) = let rest = lstrip s in if str.is_space c then rest else c ∷ s

  -- `value.strip()`
  unfoldable pub strip : Text → Text
  unfolding lstrip
  strip s = reverse (lstrip (reverse (lstrip s)))

  unfoldable pub normalize_optional : Option Text → (Text → Text) → Option Text
  normalize_optional none transform = none
  normalize_optional (some value) transform = transform_non_empty transform (strip value)

  unfoldable pub normalize_application_code : Option Text → Option Text
  unfolding normalize_optional
  normalize_application_code value = normalize_optional value str.upper

  unfoldable pub normalize_dimension : Option Text → Option Text
  unfolding normalize_optional
  normalize_dimension value = normalize_optional value str.upper

  unfoldable pub coalesce_dimension : Option Text → Text
  unfolding normalize_dimension
  coalesce_dimension value = or_default (normalize_dimension value) unknown

  unfoldable pub normalize_external_id : Option Text → Option Text
  unfolding normalize_optional
  normalize_external_id value = normalize_optional value str.lower

  unfoldable pub normalize_hostname : Option Text → Option Text
  unfolding normalize_optional
  normalize_hostname value = normalize_optional value str.upper
