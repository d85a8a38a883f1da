-- ===== src/Api/Gate.antt =====
-- app/api/main.py, the role that a request needs and the middleware that asks for it
use washing.Prelude.{
  ℕ, ◌≡◌, ◌≢◌, refl, ap, arith, Bool, true, false, ◌&&◌, ◌||◌, Option, none, some, ◌++◌, Text,
  codes, eq_text, starts_with, ◌==◌, inl, inr, if◌then◌else◌,
}
use washing.Domain.{Strings}
use washing.Auth.Settings.{OidcSettings}
use washing.Auth.Claims.{AuthenticatedPrincipal}
use washing.Auth.Oidc.Documents.{World, Caches, Checked, passed, denied, crashed}
use washing.Auth.Oidc.Requests.{authorize_request}
use washing.Security.{Fields, dict}
use washing.Auth.Claims.Paths.{Grants}
use washing.Auth.Oidc.Admitted.{IsEntitled, IsDecoded, IsBearer, authorize_request-IsEntitled}
use washing.Auth.Swagger.{oidc_docs_shell_is_public}

pub record HttpRequest : Type 0 where
  pub method : Text
  pub path : Text
  pub authorization : Option Text
  pub accept : Text

-- The settings of the metrics endpoint.
pub record MetricsEndpoint : Type 0 where
  pub prometheus_api_enabled : Bool
  pub prometheus_api_path : Text

abbrev pub openapi_url : Text
openapi_url = codes "/v1/openapi.json"

-- What the middleware does: it answers itself, hands the request on, or lets an exception out.
-- `answered` has the status, the detail, and whether the header WWW-Authenticate is set.
pub data Passage : Type 0 where
  answered : ℕ → Text → Bool → Passage
  handed_on : Passage
  failed : Passage

module _ (strings : Strings) (endpoint : MetricsEndpoint) (s : OidcSettings) where
  unfoldable pub is_public_path : HttpRequest → Bool
  unfolding eq_text starts_with oidc_docs_shell_is_public
  is_public_path r =
      (eq_text r.path (codes "/health")
        || (eq_text r.path (codes "/oauth2-redirect") || starts_with r.path (codes "/static/")))
      || ((endpoint.prometheus_api_enabled && eq_text r.path endpoint.prometheus_api_path)
          || (eq_text r.path (codes "/") && oidc_docs_shell_is_public strings s r.path r.accept))

  unfoldable pub is_protected_path : HttpRequest → Bool
  unfolding eq_text starts_with
  is_protected_path r =
      eq_text r.path (codes "/")
      || (eq_text r.path openapi_url || starts_with r.path (codes "/v1/"))

  unfoldable pub is_read : Text → Bool
  unfolding eq_text
  is_read method = eq_text method (codes "GET") || eq_text method (codes "HEAD")

  -- `_required_role_for_api_request`
  unfoldable pub required_role_for_api_request : HttpRequest → Option Text
  unfolding eq_text is_public_path is_protected_path is_read
  required_role_for_api_request r =
      let method = strings.upper r.method in
      if eq_text method (codes "OPTIONS")
      then none
      else if is_public_path r
      then none
      else if is_protected_path r
      then some (if is_read method then codes "user" else codes "admin")
      else none

  abbrev pub passage : {A : Type 0} → Checked A × Caches → Passage × Caches
  passage (passed a, c) = (handed_on, c)
  passage (denied status detail, c) = (answered status detail (status == 401), c)
  passage (crashed, c) = (failed, c)

  abbrev pub guarded : World → HttpRequest → Option Text → Caches → Passage × Caches
  guarded world r none c = (handed_on, c)
  guarded world r (some role) c = passage (authorize_request world strings s r.authorization role c)

  -- `oidc_http_middleware`
  unfoldable pub oidc_http_middleware : World → HttpRequest → Caches → Passage × Caches
  unfolding required_role_for_api_request
  oidc_http_middleware world r c = guarded world r (required_role_for_api_request r) c

or_true : (b : Bool) → (b || true) ≡ true
or_true b = ground arith

admin_neq_user : codes "admin" ≢ codes "user"
admin_neq_user h = cc

admin-Grants :
    (s : OidcSettings) (claims : Fields)
    → IsEntitled s (codes "admin") claims
    → Grants (dict claims) s.oidc_role_claim_paths s.oidc_admin_role_name
admin-Grants s claims (inl (e, g)) = g
admin-Grants s claims (inr (e, g)) = absurd (admin_neq_user e)

module _ (strings : Strings) (endpoint : MetricsEndpoint) (s : OidcSettings) (world : World)
    (c c' : Caches) where
  required-admin :
      (r : HttpRequest) (rest : Text)
      → r.path ≡ codes "/v1/" ++ rest
      → eq_text (strings.upper r.method) (codes "OPTIONS") ≡ false
      → is_read strings endpoint s (strings.upper r.method) ≡ false
      → (endpoint.prometheus_api_enabled && eq_text r.path endpoint.prometheus_api_path) ≡ false
      → required_role_for_api_request strings endpoint s r ≡ some (codes "admin")
  unfolding required_role_for_api_request is_public_path is_protected_path
  required-admin r rest at no_options no_read no_metrics =
      rw (no_options, no_metrics, no_read, at, or_true (eq_text rest (codes "openapi.json"))) refl

  handed_on-passed :
      (r : HttpRequest) (x : Checked (Option AuthenticatedPrincipal) × Caches)
      → passage strings endpoint s x ≡ (handed_on, c')
      → (p : Option AuthenticatedPrincipal) × (x ≡ (passed p, c'))
  handed_on-passed r (passed p, d) h = (p, ap (λ k. (passed p, k.1)) h)
  handed_on-passed r (denied status detail, d) h = let e = ap (λ k. k.0) h in cc
  handed_on-passed r (crashed, d) h = let e = ap (λ k. k.0) h in cc

  -- With OIDC enabled, a request to a path under /v1/ whose method is not GET, HEAD or OPTIONS is
  -- handed on to its route only if it carries a Bearer token that the library decodes to claims
  -- which grant the admin role; the path is not that of the metrics endpoint.
  pub mutation-IsAdmin :
      (r : HttpRequest) (rest : Text)
      → s.oidc_enabled ≡ true
      → r.path ≡ codes "/v1/" ++ rest
      → eq_text (strings.upper r.method) (codes "OPTIONS") ≡ false
      → is_read strings endpoint s (strings.upper r.method) ≡ false
      → (endpoint.prometheus_api_enabled && eq_text r.path endpoint.prometheus_api_path) ≡ false
      → oidc_http_middleware strings endpoint s world r c ≡ (handed_on, c')
      → (token : Text) × (claims : Fields) × IsBearer strings r.authorization token
        × IsDecoded world token claims
        × Grants (dict claims) s.oidc_role_claim_paths s.oidc_admin_role_name
  unfolding oidc_http_middleware
  mutation-IsAdmin r rest on at no_options no_read no_metrics h =
      let (p, e) =
        handed_on-passed r (authorize_request world strings s r.authorization (codes "admin") c)
          (rw (required-admin r rest at no_options no_read no_metrics) at h) in
      let (token, bearer, (claims, read, entitled)) =
        authorize_request-IsEntitled world strings s r.authorization (codes "admin") c c' p on e in
      (token, claims, bearer, read, admin-Grants s claims entitled)
