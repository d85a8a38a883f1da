-- ===== src/Auth/Oidc/Admitted.antt =====
-- Whom internal/infra/auth/oidc.py lets pass, and how it refuses.
use washing.Prelude.{
  some_inj, &&-true, ||-true, ||-false, ◌≡◌, refl, sym, ap, Bool, true, false, not, ◌&&◌, ◌||◌,
  Option, none, some, List, [], ◌∷◌, Text, codes, eq_text, elem_text, eq_text→eq, ◌⊎◌, Bool-cases,
  Option-cases, inl, inr, arith,
}
use washing.Domain.{Strings}
use washing.Security.{Json, dict, Fields}
use washing.Queue.Context.{get_field}
use washing.Auth.Settings.{OidcSettings, is_blank}
use washing.Auth.Claims.{
  AuthenticatedPrincipal, can_read, can_write, principal_of, text_of, first_text,
  principal_from_claims, extract_roles,
}
use washing.Auth.Claims.Paths.{Grants, extract_roles-Grants}
use washing.Auth.Oidc.Documents.{
  World, Header, SigningKey, signing_key, Decoded, decoded, expired_signature, invalid_token,
  Caches, passed, ◌>>=◌, pass, is_truthy, invalid_key, key_error, load_provider_metadata, load_jwk,
}
use washing.Auth.Oidc.Chains.{passed_inj, denied-ne, crashed-ne, >>=-passed}
use washing.Auth.Oidc.Requests.{
  is_none_algorithm, issuer_of, decode_with, claims_of, decode_header, decode_for, with_kid,
  with_url, decode_token, has_role, check_role, bearer_token, extract_bearer_token, authorize_token,
  admit, authorize_request, partition_space,
}

-- The token was decoded to the claims, with a key, for an algorithm other than "none".
abbrev pub IsDecoded : World → Text → Fields → Type 0
IsDecoded world token claims =
    (key : Json) × (algorithm : Json) × (issuer : Json) × (world.decode token key algorithm issuer
      ≡ decoded (dict claims))
    × (is_none_algorithm algorithm ≡ false)

module _ (world : World) (s : OidcSettings) (token : Text) (claims : Fields) (c' : Caches) where
  claims_of-decoded :
      (r : Decoded) (c : Caches) → claims_of r c ≡ (passed claims, c') → r ≡ decoded (dict claims)
  claims_of-decoded (decoded (dict fs)) c h =
      ap (λ g. decoded (dict g)) (passed_inj (ap (λ p. p.0) h))
  claims_of-decoded (decoded v) c h = absurd (denied-ne h)
  claims_of-decoded expired_signature c h = absurd (denied-ne h)
  claims_of-decoded invalid_token c h = absurd (denied-ne h)

  decode_with-IsDecoded :
      (algorithm issuer : Json) (k : SigningKey) (c : Caches)
      → is_none_algorithm algorithm ≡ false
      → decode_with world token algorithm issuer k c ≡ (passed claims, c')
      → IsDecoded world token claims
  unfolding decode_with
  decode_with-IsDecoded algorithm issuer (signing_key key) c e h =
      (key, algorithm, issuer, claims_of-decoded (world.decode token key algorithm issuer) c h, e)
  decode_with-IsDecoded algorithm issuer invalid_key c e h = absurd (denied-ne h)
  decode_with-IsDecoded algorithm issuer key_error c e h = absurd (crashed-ne h)

  decode_kid-IsDecoded :
      (algorithm issuer jwks_uri : Json) (kid : Option Text) (c : Caches)
      → is_none_algorithm algorithm ≡ false
      → with_kid kid
          (λ kid. with_url jwks_uri (λ url. load_jwk world s url kid) >>= λ jwk.
            decode_with world token algorithm issuer (world.signing_key_of (dict jwk) algorithm))
          c
        ≡ (passed claims, c')
      → IsDecoded world token claims
  decode_kid-IsDecoded algorithm issuer jwks_uri none c e h = absurd (denied-ne h)
  decode_kid-IsDecoded algorithm issuer jwks_uri (some []) c e h = absurd (denied-ne h)
  decode_kid-IsDecoded algorithm issuer jwks_uri (some (x ∷ xs)) c e h =
      let (jwk, d, held, k) =
        >>=-passed (with_url jwks_uri (λ url. load_jwk world s url (x ∷ xs)))
          (λ jwk.
            decode_with world token algorithm issuer (world.signing_key_of (dict jwk) algorithm))
          c c' claims h in
      decode_with-IsDecoded algorithm issuer (world.signing_key_of (dict jwk) algorithm) d e k

  decode_header-IsDecoded :
      (issuer jwks_uri : Json) (header : Option Header) (c : Caches)
      → decode_header world s token issuer jwks_uri header c ≡ (passed claims, c')
      → IsDecoded world token claims
  unfolding decode_header
  decode_header-IsDecoded issuer jwks_uri none c h = absurd (denied-ne h)
  decode_header-IsDecoded issuer jwks_uri (some header) c h =
      elim (Bool-cases (not (is_truthy header.alg) || is_none_algorithm header.alg)) [
        | inl bad ↦ absurd (denied-ne (rw bad at h))
        | inr good ↦
            decode_kid-IsDecoded header.alg issuer jwks_uri header.kid c
              (||-false (not (is_truthy header.alg)) (is_none_algorithm header.alg) good).1
              (rw good at h)
      ]

  decode_for-IsDecoded :
      (metadata : Fields) (c : Caches)
      → decode_for world s token metadata c ≡ (passed claims, c')
      → IsDecoded world token claims
  unfolding decode_for
  decode_for-IsDecoded metadata c h =
      let issuer = issuer_of s metadata in
      let jwks_uri = get_field (codes "jwks_uri") metadata in
      elim (Bool-cases (not (is_truthy issuer) || not (is_truthy jwks_uri))) [
        | inl bad ↦ absurd (denied-ne (rw bad at h))
        | inr good ↦
            decode_header-IsDecoded issuer jwks_uri (world.unverified_header token) c (rw good at h)
      ]

  decode_token-IsDecoded :
      (c : Caches)
      → decode_token world s token c ≡ (passed claims, c')
      → IsDecoded world token claims
  unfolding decode_token
  decode_token-IsDecoded c h =
      let (metadata, d, held, k) =
        >>=-passed (load_provider_metadata world s) (decode_for world s token) c c' claims h in
      decode_for-IsDecoded metadata d k

-- The claims grant the role that was asked for: "admin", or for "user" one of the two.
abbrev pub IsEntitled : OidcSettings → Text → Fields → Type 0
IsEntitled s required_role claims =
    ((required_role ≡ codes "admin")
      × Grants (dict claims) s.oidc_role_claim_paths s.oidc_admin_role_name)
    ⊎ ((required_role ≡ codes "user")
        × (Grants (dict claims) s.oidc_role_claim_paths s.oidc_user_role_name
            ⊎ Grants (dict claims) s.oidc_role_claim_paths s.oidc_admin_role_name))

principal_of-roles :
    (subject username : Option Text) (roles : List Text) (p : AuthenticatedPrincipal)
    → principal_of subject username roles ≡ some p
    → p.roles ≡ roles
principal_of-roles none username roles p h = cc
principal_of-roles (some []) username roles p h = cc
principal_of-roles (some (x ∷ xs)) username roles p h =
    ap (λ o. elim o [ none ↦ [] | some q ↦ q.roles ]) (sym h)

principal_from_claims-roles :
    (claims : Fields) (paths : List Text) (p : AuthenticatedPrincipal)
    → principal_from_claims claims paths ≡ some p
    → p.roles ≡ extract_roles (dict claims) paths
unfolding principal_from_claims
principal_from_claims-roles claims paths p h =
    principal_of-roles (text_of (get_field (codes "sub") claims))
      (first_text (text_of (get_field (codes "preferred_username") claims))
        (text_of (get_field (codes "email") claims)))
      (extract_roles (dict claims) paths) p h

module _ (s : OidcSettings) (required_role : Text) (claims : Fields)
    (p : AuthenticatedPrincipal) where
  granted :
      p.roles ≡ extract_roles (dict claims) s.oidc_role_claim_paths
      → (role : Text) → elem_text role p.roles ≡ true
      → Grants (dict claims) s.oidc_role_claim_paths role
  granted e role h = (extract_roles-Grants (dict claims) s.oidc_role_claim_paths role).0 (rw e at h)

  has_role-IsEntitled :
      p.roles ≡ extract_roles (dict claims) s.oidc_role_claim_paths
      → has_role s required_role p ≡ true
      → IsEntitled s required_role claims
  unfolding has_role can_read can_write
  has_role-IsEntitled e h =
      elim (||-true (eq_text required_role (codes "user") && can_read p s)
        (eq_text required_role (codes "admin") && can_write p s) h) [
          | inl user ↦
              let (named, holds) =
                &&-true (eq_text required_role (codes "user")) (can_read p s) user in
              inr (
                eq_text→eq required_role (codes "user") named,
                elim (||-true (elem_text s.oidc_user_role_name p.roles)
                    (elem_text s.oidc_admin_role_name p.roles) holds) [
                      | inl u ↦ inl (granted e s.oidc_user_role_name u)
                      | inr a ↦ inr (granted e s.oidc_admin_role_name a)
                    ],
              )
          | inr admin ↦
              let (named, holds) =
                &&-true (eq_text required_role (codes "admin")) (can_write p s) admin in
              inl (
                eq_text→eq required_role (codes "admin") named,
                granted e s.oidc_admin_role_name holds,
              )
        ]

not-false : (b : Bool) → not b ≡ false → b ≡ true
not-false b h = ground arith

-- The token that a header carries after "Bearer", in any case.
abbrev pub IsBearer : Strings → Option Text → Text → Type 0
unfolding partition_space
IsBearer strings authorization token =
    (header : Text) × (authorization ≡ some header)
    × (strings.lower (partition_space header).0 ≡ codes "bearer")
    × ((partition_space header).1 ≡ token)

module _ (s : OidcSettings) (required_role : Text) (claims : Fields) (c c' : Caches) where
  checked-IsEntitled :
      (p : Option AuthenticatedPrincipal) (q : AuthenticatedPrincipal) (d : Caches)
      → principal_from_claims claims s.oidc_role_claim_paths ≡ some q
      → check_role s required_role q d ≡ (passed p, c')
      → IsEntitled s required_role claims
  checked-IsEntitled p q d e h = elim (Bool-cases (has_role s required_role q)) [
    | inl holds ↦
        has_role-IsEntitled s required_role claims q
          (principal_from_claims-roles claims s.oidc_role_claim_paths q e) holds
    | inr lacks ↦ absurd (denied-ne (rw lacks at h))
  ]

  admit-IsEntitled :
      (p : Option AuthenticatedPrincipal)
      → admit s required_role claims c ≡ (passed p, c')
      → IsEntitled s required_role claims
  unfolding admit
  admit-IsEntitled p h =
      elim (Option-cases (principal_from_claims claims s.oidc_role_claim_paths)) [
        | inl e ↦ absurd (denied-ne (rw e at h))
        | inr (q, e) ↦ checked-IsEntitled p q c e (rw e at h)
      ]

-- The library decodes the token to claims that grant the role.
abbrev pub IsAdmitted : World → OidcSettings → Text → Text → Type 0
IsAdmitted world s required_role token =
    (claims : Fields) × IsDecoded world token claims × IsEntitled s required_role claims

bearer_token-IsBearer :
    (strings : Strings) (header t : Text) (c d : Caches)
    → bearer_token strings header c ≡ (passed t, d)
    → IsBearer strings (some header) t
unfolding bearer_token
bearer_token-IsBearer strings header t c d h =
    let (scheme, token) = partition_space header in
    let named = eq_text (strings.lower scheme) (codes "bearer") in
    elim (Bool-cases (not named || is_blank token)) [
      | inl bad ↦ absurd (denied-ne (rw bad at h))
      | inr good ↦ (
        header,
        refl,
        eq_text→eq (strings.lower scheme) (codes "bearer")
            (not-false named (||-false (not named) (is_blank token) good).0),
        passed_inj (ap (λ p. p.0) (rw good at h)),
      )
    ]

extract_bearer_token-IsBearer :
    (strings : Strings) (authorization : Option Text) (t : Text) (c d : Caches)
    → extract_bearer_token strings authorization c ≡ (passed (some t), d)
    → IsBearer strings authorization t
unfolding extract_bearer_token
extract_bearer_token-IsBearer strings none t c d h = let e = passed_inj (ap (λ p. p.0) h) in cc
extract_bearer_token-IsBearer strings (some []) t c d h = let e = passed_inj (ap (λ p. p.0) h) in cc
extract_bearer_token-IsBearer strings (some (x ∷ xs)) t c d h =
    let (u, k, e, g) =
      >>=-passed (bearer_token strings (x ∷ xs)) (λ t. pass (some t)) c d (some t) h in
    let same : u ≡ t = some_inj (passed_inj (ap (λ p. p.0) g)) in
    bearer_token-IsBearer strings (x ∷ xs) t c k (rw same at e)

module _ (world : World) (strings : Strings) (s : OidcSettings) (required_role : Text)
    (c c' : Caches) (p : Option AuthenticatedPrincipal) where
  token-IsAdmitted :
      (token : Option Text) (d : Caches)
      → authorize_token world strings s required_role token d ≡ (passed p, c')
      → (t : Text) × (token ≡ some t) × IsAdmitted world s required_role t
  unfolding authorize_token
  token-IsAdmitted none d h = absurd (denied-ne h)
  token-IsAdmitted (some t) d h =
      let (claims, e, read, k) =
        >>=-passed (decode_token world s t) (admit s required_role) d c' p h in
      let entitled = admit-IsEntitled s required_role claims e c' p k in
      (t, refl, (claims, decode_token-IsDecoded world s t claims e d read, entitled))

-- With OIDC enabled, a request that passes carries a Bearer header, the token after it was decoded
-- by the library to claims for an algorithm other than "none", and the claims grant the role that
-- was asked for: the admin role for "admin", the user or the admin role for "user".
pub authorize_request-IsEntitled :
    (world : World) (strings : Strings) (s : OidcSettings) (authorization : Option Text)
    (required_role : Text) (c c' : Caches) (p : Option AuthenticatedPrincipal)
    → s.oidc_enabled ≡ true
    → authorize_request world strings s authorization required_role c ≡ (passed p, c')
    → (token : Text) × IsBearer strings authorization token × IsAdmitted world s required_role token
unfolding authorize_request
authorize_request-IsEntitled world strings s authorization required_role c c' p on h =
    let (token, d, read, k) =
      >>=-passed (extract_bearer_token strings authorization)
        (authorize_token world strings s required_role) c c' p (rw on at h) in
    let (t, e, admitted) = token-IsAdmitted world strings s required_role c c' p token d k in
    (t, extract_bearer_token-IsBearer strings authorization t c d (rw e at read), admitted)
