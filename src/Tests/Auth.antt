-- ===== src/Tests/Auth.antt =====
-- Inputs for internal/infra/auth/ and app/api/main.py: a provider with one key, and a token whose
-- claims grant the admin role of one client.
use washing.Prelude.{
  ℕ, ◌≤◌, ◌≡◌, refl, ◌↔◌, true, Option, none, some, [], ◌∷◌, ◌⊎◌, Text, codes, pos, elem_text,
  eq_text,
}
use washing.Domain.Ascii.{ascii, to_lower, to_upper}
use washing.Security.{Json, Fields, null, str, dict, list, end, field, nil, cons}
use washing.Auth.Settings.{OidcSettings, discovery_url}
use washing.Auth.Claims.{extract_roles, AuthenticatedPrincipal}
use washing.Auth.Claims.Paths.{Grants, extract_roles-Grants}
use washing.Auth.Oidc.Documents.{
  World, signing_key, decoded, payload, Caches, passed, cached, load_provider_metadata,
}
use washing.Auth.Oidc.Requests.{authorize_request}
use washing.Auth.Oidc.Cached.{IsDated, load_provider_metadata-again}
use washing.Auth.Oidc.Admitted.{IsBearer, IsDecoded, IsAdmitted, authorize_request-IsEntitled}
use washing.Api.Gate.{
  HttpRequest, MetricsEndpoint, handed_on, is_read, oidc_http_middleware, mutation-IsAdmin,
}

abbrev settings : OidcSettings
settings = record {
  oidc_enabled = true;
  oidc_issuer_url = some (codes "https://id");
  oidc_discovery_url = some (codes "https://id/d");
  oidc_jwks_cache_ttl_seconds = pos 300;
  oidc_role_claim_paths = codes "resource_access.*.roles" ∷ [];
  oidc_user_role_name = codes "user";
  oidc_admin_role_name = codes "admin";
  oidc_swagger_client_id = none;
  oidc_swagger_use_pkce = true;
  oidc_swagger_scopes = [];
}

abbrev claims : Fields
claims = field (codes "sub") (str (codes "u1")) (
    field (codes "resource_access")
      (dict (
        field (codes "washing")
          (dict (field (codes "roles") (list (cons (str (codes "admin")) nil)) end)) end))
      end)

abbrev jwk : Json
jwk = dict (field (codes "kid") (str (codes "k1")) end)

-- One document serves as the discovery document and as the keys.
abbrev document : Fields
document =
    field (codes "jwks_uri") (str (codes "https://id/k"))
      (field (codes "keys") (list (cons jwk nil)) end)

abbrev world : World
world = record {
  monotonic = λ n. n;
  fetch = λ n url. payload (dict document);
  unverified_header = λ token. some (record { alg = str (codes "RS256"); kid = some (codes "k1") });
  signing_key_of = λ key algorithm. signing_key null;
  decode = λ token key algorithm issuer. decoded (dict claims);
}

abbrev cold : Caches
cold = record { metadata = []; jwks = []; readings = 0; fetches = 0 }

abbrev warm : Caches
warm = record {
  metadata = (codes "https://id/d", 300000000, document) ∷ [];
  jwks = [];
  readings = 1;
  fetches = 1;
}

extract_roles-Grants_example :
    (elem_text (codes "admin") (extract_roles (dict claims) settings.oidc_role_claim_paths) ≡ true)
    ↔ Grants (dict claims) settings.oidc_role_claim_paths (codes "admin")
extract_roles-Grants_example =
    extract_roles-Grants (dict claims) settings.oidc_role_claim_paths (codes "admin")

run_roles :
    elem_text (codes "admin") (extract_roles (dict claims) settings.oidc_role_claim_paths) ≡ true
unfolding extract_roles elem_text
run_roles = refl

run_load : load_provider_metadata world settings cold ≡ (passed document, warm)
unfolding load_provider_metadata
run_load = refl

load_provider_metadata-again_example :
    (u : Text) × (expiry : ℕ) × (discovery_url settings ≡ some u)
    × (cached u warm.metadata ≡ some (expiry, document))
    × IsDated world 300 document cold warm u expiry
    × ((expiry ≤ 1)
        ⊎ (load_provider_metadata world settings warm
            ≡ (passed document, record warm { readings = 2 })))
load_provider_metadata-again_example =
    load_provider_metadata-again world world settings document cold warm 300 refl run_load

abbrev hot : Caches
hot = record {
  metadata = (codes "https://id/d", 300000000, document) ∷ [];
  jwks = (codes "https://id/k", 300000001, document) ∷ [];
  readings = 2;
  fetches = 2;
}

abbrev bearer : Option Text
bearer = some (codes "bearer t")

abbrev principal : AuthenticatedPrincipal
principal = record { subject = codes "u1"; username = none; roles = codes "admin" ∷ [] }

run_authorize :
    authorize_request world ascii settings bearer (codes "user") cold
    ≡ (passed (some principal), hot)
unfolding authorize_request to_lower
run_authorize = refl

authorize_request-IsEntitled_example :
    (token : Text) × IsBearer ascii bearer token × IsAdmitted world settings (codes "user") token
authorize_request-IsEntitled_example =
    authorize_request-IsEntitled world ascii settings bearer (codes "user") cold hot
      (some principal) refl run_authorize

abbrev endpoint : MetricsEndpoint
endpoint = record { prometheus_api_enabled = true; prometheus_api_path = codes "/metrics" }

abbrev request : HttpRequest
request = record {
  method = codes "delete";
  path = codes "/v1/platforms/1";
  authorization = bearer;
  accept = [];
}

run_gate : oidc_http_middleware ascii endpoint settings world request cold ≡ (handed_on, hot)
unfolding oidc_http_middleware authorize_request to_lower to_upper
run_gate = refl

mutation-IsAdmin_example :
    (token : Text) × (fields : Fields) × IsBearer ascii bearer token
    × IsDecoded world token fields
    × Grants (dict fields) settings.oidc_role_claim_paths settings.oidc_admin_role_name
unfolding to_upper eq_text is_read
mutation-IsAdmin_example =
    mutation-IsAdmin ascii endpoint settings world cold hot request (codes "platforms/1") refl refl
      refl refl refl run_gate
