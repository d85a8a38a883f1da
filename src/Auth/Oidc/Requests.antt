-- ===== src/Auth/Oidc/Requests.antt =====
-- internal/infra/auth/oidc.py, from the Authorization header to a principal with the role
use washing.Prelude.{
  ◌==◌, Bool, false, not, ◌&&◌, ◌||◌, Option, none, some, [], ◌∷◌, Text, codes, eq_text,
  if◌then◌else◌,
}
use washing.Domain.{Strings}
use washing.Security.{Json, str, dict, Fields}
use washing.Queue.Context.{get_field}
use washing.Auth.Settings.{OidcSettings, is_blank}
use washing.Auth.Claims.{AuthenticatedPrincipal, can_read, can_write, principal_from_claims}
use washing.Auth.Oidc.Documents.{
  World, Header, SigningKey, signing_key, invalid_key, key_error, Decoded, decoded,
  expired_signature, invalid_token, Session, ◌>>=◌, pass, deny, crash, provider_unavailable,
  invalid_bearer, is_truthy, as_dict, load_provider_metadata, load_jwk,
}

abbrev pub issuer_or : Option Text → Json → Json
issuer_or none v = v
issuer_or (some []) v = v
issuer_or (some (x ∷ xs)) v = str (x ∷ xs)

-- `s.partition(" ")`, without the separator
unfoldable pub partition_space : Text → Text × Text
partition_space [] = ([], [])
partition_space (c ∷ s) =
    let (head, tail) = partition_space s in if c == 32 then ([], s) else (c ∷ head, tail)

-- `settings.oidc_issuer_url or metadata.get("issuer")`
abbrev pub issuer_of : OidcSettings → Fields → Json
unfolding get_field
issuer_of s metadata = issuer_or s.oidc_issuer_url (get_field (codes "issuer") metadata)

-- The url of the keys; what is no text and not falsy is no url for httpx.
abbrev pub with_url : Json → (Text → Session Fields) → Session Fields
with_url (str url) f = f url
with_url v f = crash

abbrev pub is_none_algorithm : Json → Bool
unfolding eq_text
is_none_algorithm (str a) = eq_text a (codes "none")
is_none_algorithm v = false

abbrev pub with_kid : Option Text → (Text → Session Fields) → Session Fields
with_kid none f = deny 401 (codes "missing key identifier")
with_kid (some []) f = deny 401 (codes "missing key identifier")
with_kid (some (x ∷ xs)) f = f (x ∷ xs)

abbrev pub claims_of : Decoded → Session Fields
claims_of (decoded v) = as_dict v pass (deny 401 invalid_bearer)
claims_of expired_signature = deny 401 (codes "expired bearer token")
claims_of invalid_token = deny 401 invalid_bearer

abbrev pub principal_or_deny : Option AuthenticatedPrincipal → Session AuthenticatedPrincipal
principal_or_deny none = deny 401 invalid_bearer
principal_or_deny (some p) = pass p

unfoldable pub has_role : OidcSettings → Text → AuthenticatedPrincipal → Bool
unfolding eq_text can_read can_write
has_role s required_role p =
    (eq_text required_role (codes "user") && can_read p s)
    || (eq_text required_role (codes "admin") && can_write p s)

abbrev pub check_role :
    OidcSettings → Text → AuthenticatedPrincipal → Session (Option AuthenticatedPrincipal)
check_role s required_role p =
    if has_role s required_role p then pass (some p) else deny 403 (codes "insufficient role")

-- The principal of the claims, when it has the role.
unfoldable pub admit : OidcSettings → Text → Fields → Session (Option AuthenticatedPrincipal)
unfolding principal_from_claims has_role
admit s required_role claims =
    principal_or_deny (principal_from_claims claims s.oidc_role_claim_paths)
    >>= check_role s required_role

module _ (strings : Strings) where
  -- `_extract_bearer_token` of a header that is there
  unfoldable pub bearer_token : Text → Session Text
  unfolding partition_space eq_text
  bearer_token authorization =
      let (scheme, token) = partition_space authorization in
      if not (eq_text (strings.lower scheme) (codes "bearer")) || is_blank token
      then deny 401 (codes "invalid authorization header")
      else pass token

  unfoldable pub extract_bearer_token : Option Text → Session (Option Text)
  unfolding bearer_token
  extract_bearer_token none = pass none
  extract_bearer_token (some []) = pass none
  extract_bearer_token (some (x ∷ xs)) = bearer_token (x ∷ xs) >>= λ t. pass (some t)

module _ (world : World) where
  -- The token is decoded with a key, for the one algorithm that its header names.
  unfoldable pub decode_with : Text → Json → Json → SigningKey → Session Fields
  decode_with token algorithm issuer (signing_key key) =
      claims_of (world.decode token key algorithm issuer)
  decode_with token algorithm issuer invalid_key = deny 401 (codes "invalid signing key")
  decode_with token algorithm issuer key_error = crash

  unfoldable pub decode_header : OidcSettings → Text → Json → Json → Option Header → Session Fields
  unfolding load_jwk decode_with
  decode_header s token issuer jwks_uri none = deny 401 invalid_bearer
  decode_header s token issuer jwks_uri (some header) =
      if not (is_truthy header.alg) || is_none_algorithm header.alg
      then deny 401 invalid_bearer
      else with_kid header.kid (λ kid.
        with_url jwks_uri (λ url. load_jwk world s url kid) >>= λ jwk.
        decode_with token header.alg issuer (world.signing_key_of (dict jwk) header.alg))

  unfoldable pub decode_for : OidcSettings → Text → Fields → Session Fields
  unfolding get_field decode_header
  decode_for s token metadata =
      let issuer = issuer_of s metadata in
      let jwks_uri = get_field (codes "jwks_uri") metadata in
      if not (is_truthy issuer) || not (is_truthy jwks_uri)
      then deny 503 provider_unavailable
      else decode_header s token issuer jwks_uri (world.unverified_header token)

  -- `_decode_token`
  unfoldable pub decode_token : OidcSettings → Text → Session Fields
  unfolding load_provider_metadata decode_for
  decode_token s token = load_provider_metadata world s >>= decode_for s token

  module _ (strings : Strings) where
    unfoldable pub authorize_token :
        OidcSettings → Text → Option Text → Session (Option AuthenticatedPrincipal)
    unfolding decode_token admit
    authorize_token s required_role none = deny 401 (codes "missing bearer token")
    authorize_token s required_role (some token) = decode_token s token >>= admit s required_role

    -- `authorize_request`, of the Authorization header of the request
    unfoldable pub authorize_request :
        OidcSettings → Option Text → Text → Session (Option AuthenticatedPrincipal)
    unfolding extract_bearer_token authorize_token
    authorize_request s authorization required_role =
        if not s.oidc_enabled
        then pass none
        else (extract_bearer_token strings authorization >>= authorize_token s required_role)
