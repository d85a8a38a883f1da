-- ===== src/Auth/Swagger.antt =====
-- internal/infra/auth/oidc.py, the security scheme that the OpenAPI document and Swagger show
use washing.Prelude.{
  Bool, not, ◌&&◌, ◌||◌, Option, none, some, List, [], ◌∷◌, ◌++◌, Text, codes, eq_text, contains,
  starts_with, length, drop, if◌then◌else◌,
}
use washing.Domain.{Strings}
use washing.Security.{Json, str, Fields}
use washing.Queue.Context.{get_field}
use washing.Auth.Settings.{OidcSettings, rstrip_slash}
use washing.Auth.Oidc.Documents.{
  World, Caches, Checked, passed, denied, crashed, load_provider_metadata,
}

-- `oidc_docs_shell_is_public`, of a path and an Accept header that is empty when there is none
unfoldable pub oidc_docs_shell_is_public : Strings → OidcSettings → Text → Text → Bool
unfolding eq_text contains
oidc_docs_shell_is_public strings s path accept =
    not s.oidc_enabled
    || (eq_text path (codes "/") && contains (strings.lower accept) (codes "text/html"))

abbrev pub rewritten : Text → Text → Option Text → Text
unfolding starts_with rstrip_slash
rewritten endpoint issuer none = endpoint
rewritten endpoint issuer (some []) = endpoint
rewritten endpoint issuer (some (c ∷ s)) =
    let prefix = rstrip_slash issuer in
    if starts_with endpoint prefix
    then rstrip_slash (c ∷ s) ++ drop (length prefix) endpoint
    else endpoint

-- `_rewrite_provider_endpoint`
unfoldable pub rewrite_provider_endpoint : Json → Json → Option Text → Option Text
unfolding rewritten
rewrite_provider_endpoint (str endpoint) (str issuer) public_issuer =
    some (rewritten endpoint issuer public_issuer)
rewrite_provider_endpoint (str endpoint) issuer public_issuer = some endpoint
rewrite_provider_endpoint endpoint issuer public_issuer = none

-- The scheme: a bearer token that is pasted, or the authorization code flow with its two urls.
pub data SecurityScheme : Type 0 where
  bearer_discovery_down bearer_only : SecurityScheme
  authorization_code : Text → Text → List Text → SecurityScheme

abbrev pub flow_scheme : Option Text → Option Text → List Text → SecurityScheme
flow_scheme (some (c ∷ s)) (some (d ∷ t)) scopes = authorization_code (c ∷ s) (d ∷ t) scopes
flow_scheme authorization token scopes = bearer_only

unfoldable pub scheme_of : OidcSettings → Fields → SecurityScheme
unfolding rewrite_provider_endpoint get_field
scheme_of s metadata =
    let issuer = get_field (codes "issuer") metadata in
    flow_scheme
      (rewrite_provider_endpoint (get_field (codes "authorization_endpoint") metadata) issuer
        s.oidc_issuer_url)
      (rewrite_provider_endpoint (get_field (codes "token_endpoint") metadata) issuer
        s.oidc_issuer_url)
      s.oidc_swagger_scopes

abbrev pub scheme_or_down :
    OidcSettings → Checked Fields × Caches → Checked (Option SecurityScheme) × Caches
unfolding scheme_of
scheme_or_down s (passed metadata, c) = (passed (some (scheme_of s metadata)), c)
scheme_or_down s (denied status detail, c) = (passed (some bearer_discovery_down), c)
scheme_or_down s (crashed, c) = (crashed, c)

-- `swagger_security_scheme`. It loads the document without the lock of the other requests, by the
-- same steps.
unfoldable pub swagger_security_scheme :
    World → OidcSettings → Caches → Checked (Option SecurityScheme) × Caches
unfolding load_provider_metadata scheme_of
swagger_security_scheme world s c =
    if not s.oidc_enabled
    then (passed none, c)
    else scheme_or_down s (load_provider_metadata world s c)

pub record OauthConfig : Type 0 where
  pub client_id : Text
  pub use_pkce : Bool
  pub scopes : Option Text

-- `" ".join(scopes)`
unfoldable pub join_spaces : List Text → Text
join_spaces [] = []
join_spaces (s ∷ []) = s
join_spaces (s ∷ t ∷ ts) = s ++ (32 ∷ join_spaces (t ∷ ts))

abbrev pub config_of : OidcSettings → Option Text → Option OauthConfig
unfolding join_spaces
config_of s none = none
config_of s (some []) = none
config_of s (some (c ∷ cs)) = some (record {
  client_id = c ∷ cs;
  use_pkce = s.oidc_swagger_use_pkce;
  scopes = elim s.oidc_swagger_scopes [ [] ↦ none | t ∷ ts ↦ some (join_spaces (t ∷ ts)) ];
})

-- `swagger_oauth_config`
unfoldable pub swagger_oauth_config : OidcSettings → Option OauthConfig
unfolding join_spaces
swagger_oauth_config s = if not s.oidc_enabled then none else config_of s s.oidc_swagger_client_id
