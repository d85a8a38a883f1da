-- ===== src/Auth/Settings.antt =====
-- internal/infra/auth/settings.py
use washing.Prelude.{
  ℕ, ◌==◌, Bool, true, false, not, ◌&&◌, ◌||◌, Option, none, some, List, [], ◌∷◌, ◌++◌, map,
  keep_if, Text, codes, eq_text, ℤ, if◌then◌else◌,
}
use mathlib.Core.List.{reverse}
use washing.Domain.{Strings, strip}
use washing.Config.{is_positive}

pub record OidcSettings : Type 0 where
  pub oidc_enabled : Bool
  pub oidc_issuer_url : Option Text
  pub oidc_discovery_url : Option Text
  pub oidc_jwks_cache_ttl_seconds : ℤ
  pub oidc_role_claim_paths : List Text
  pub oidc_user_role_name : Text
  pub oidc_admin_role_name : Text
  pub oidc_swagger_client_id : Option Text
  pub oidc_swagger_use_pkce : Bool
  pub oidc_swagger_scopes : List Text

-- `s.split(c)`: the piece that `c` has not closed yet stands first.
abbrev pub prepend_first : ℕ → List Text → List Text
prepend_first c [] = (c ∷ []) ∷ []
prepend_first c (piece ∷ pieces) = (c ∷ piece) ∷ pieces

unfoldable pub split_on : ℕ → Text → List Text
split_on sep [] = [] ∷ []
split_on sep (c ∷ s) =
    let pieces = split_on sep s in if c == sep then [] ∷ pieces else prepend_first c pieces

-- `not value`
abbrev pub is_blank : Text → Bool
is_blank [] = true
is_blank (c ∷ s) = false

-- `not value` of an optional text
abbrev pub is_missing : Option Text → Bool
is_missing none = true
is_missing (some s) = is_blank s

-- `value.replace("\n", ",").replace(" ", ",")`
abbrev pub as_comma : ℕ → ℕ
as_comma c = if c == 10 || c == 32 then 44 else c

-- `s.rstrip("/")`
unfoldable pub drop_slashes : Text → Text
drop_slashes [] = []
drop_slashes (c ∷ s) = let rest = drop_slashes s in if c == 47 then rest else c ∷ s

unfoldable pub rstrip_slash : Text → Text
unfolding drop_slashes
rstrip_slash s = reverse (drop_slashes (reverse s))

abbrev pub has_paths : List Text → Bool
has_paths [] = false
has_paths (p ∷ ps) = true

module _ (strings : Strings) where
  -- `split_csv_settings` of a text
  unfoldable pub split_csv_settings : Text → List Text
  unfolding split_on strip
  split_csv_settings value =
      keep_if (λ item. not (is_blank item)) (map (strip strings) (split_on 44 (map as_comma value)))

  -- `validate_required_oidc_fields`
  unfoldable pub validate_required_oidc_fields : OidcSettings → Bool
  unfolding strip eq_text
  validate_required_oidc_fields s =
      not s.oidc_enabled
      || (not (is_missing s.oidc_issuer_url)
          && (has_paths s.oidc_role_claim_paths
              && (not (is_blank (strip strings s.oidc_user_role_name))
                  && (not (is_blank (strip strings s.oidc_admin_role_name))
                      && not (eq_text s.oidc_user_role_name s.oidc_admin_role_name)))))

  -- Whether `OIDCSettings()` returns.
  unfoldable pub accepts_oidc_settings : OidcSettings → Bool
  unfolding validate_required_oidc_fields is_positive
  accepts_oidc_settings s =
      is_positive s.oidc_jwks_cache_ttl_seconds && validate_required_oidc_fields s

abbrev pub well_known : Text
well_known = codes "/.well-known/openid-configuration"

abbrev pub derived_url : Option Text → Option Text
unfolding rstrip_slash
derived_url none = none
derived_url (some []) = none
derived_url (some (c ∷ s)) = some (rstrip_slash (c ∷ s) ++ well_known)

abbrev pub explicit_url : Option Text → Option Text → Option Text
unfolding rstrip_slash
explicit_url none issuer = derived_url issuer
explicit_url (some []) issuer = derived_url issuer
explicit_url (some (c ∷ s)) issuer = some (c ∷ s)

unfoldable pub discovery_url : OidcSettings → Option Text
unfolding rstrip_slash
discovery_url s = explicit_url s.oidc_discovery_url s.oidc_issuer_url
