-- ===== src/Auth/Oidc/Documents.antt =====
-- internal/infra/auth/oidc.py, the documents of the provider and their caches
-- One request runs with no other between its steps: the lock is held around each step on a cache.
-- The clock counts microseconds, and its readings and the answers of the provider are numbered.
use washing.Prelude.{
  ℕ, ◌^◌, ◌%◌, suc, ◌+◌, ◌*◌, ◌==◌, ltb, Bool, true, false, not, Option, none, some, List, [], ◌∷◌,
  Text, codes, eq_text, ℤ, pos, negsuc, if◌then◌else◌,
}
use washing.Security.{
  Json, null, bool, int, float, str, moment, other, dict, list, Fields, end, field, Items, nil,
  cons,
}
use washing.Queue.Context.{get_field}
use washing.Auth.Settings.{OidcSettings, discovery_url, is_blank}

-- What `httpx.get` and `response.json` come to.
pub data Fetched : Type 0 where
  http_error not_json : Fetched
  payload : Json → Fetched

-- The header of a token. PyJWT refuses a `kid` that is not a text.
pub record Header : Type 0 where
  pub alg : Json
  pub kid : Option Text

pub data SigningKey : Type 0 where
  signing_key : Json → SigningKey
  invalid_key : SigningKey
  key_error : SigningKey

pub data Decoded : Type 0 where
  decoded : Json → Decoded
  expired_signature invalid_token : Decoded

-- What is not under src/: the clock, the provider, and PyJWT. `signing_key_of` is
-- `PyJWK.from_dict(jwk, algorithm).key`, `key_error` any exception of it but InvalidKeyError;
-- `decode token key algorithm issuer` is `jwt.decode` without the audience.
pub record World : Type 0 where
  pub monotonic : ℕ → ℕ
  pub fetch : ℕ → Text → Fetched
  pub unverified_header : Text → Option Header
  pub signing_key_of : Json → Json → SigningKey
  pub decode : Text → Json → Json → Json → Decoded

-- A dict of the module: url → (expiry, document)
abbrev pub Cache : Type 0
Cache = List (Text × ℕ × Fields)

pub record Caches : Type 0 where
  pub metadata : Cache
  pub jwks : Cache
  pub readings : ℕ
  pub fetches : ℕ

-- `denied` is OIDCAuthenticationError, `crashed` any other exception.
pub data Checked (A : Type 0) : Type 0 where
  passed : A → Checked A
  denied : ℕ → Text → Checked A
  crashed : Checked A

abbrev pub Session : Type 0 → Type 0
Session A = Caches → Checked A × Caches

abbrev pub after : {A B : Type 0} → Checked A × Caches → (A → Session B) → Checked B × Caches
after (passed a, c) f = f a c
after (denied status detail, c) f = (denied status detail, c)
after (crashed, c) f = (crashed, c)

infixl 5 ◌>>=◌
abbrev pub ◌>>=◌ : {A B : Type 0} → Session A → (A → Session B) → Session B
(m >>= f) c = after (m c) f

abbrev pub pass : {A : Type 0} → A → Session A
pass a c = (passed a, c)

abbrev pub deny : {A : Type 0} → ℕ → Text → Session A
deny status detail c = (denied status detail, c)

abbrev pub crash : {A : Type 0} → Session A
crash c = (crashed, c)

abbrev pub provider_unavailable : Text
provider_unavailable = codes "authentication provider unavailable"

abbrev pub invalid_bearer : Text
invalid_bearer = codes "invalid bearer token"

-- `cache.get(url)`
unfoldable pub cached : Text → Cache → Option (ℕ × Fields)
unfolding eq_text
cached url [] = none
cached url ((u, expiry, doc) ∷ entries) =
    if eq_text u url then some (expiry, doc) else cached url entries

-- `time.monotonic() + ttl`. A ttl that is not positive is refused by the settings.
abbrev pub expiry_after : ℕ → ℤ → ℕ
expiry_after now (pos seconds) = now + seconds * 1000000
expiry_after now (negsuc seconds) = now

-- `value` in a test. A double is zero with either sign.
abbrev pub is_truthy : Json → Bool
is_truthy null = false
is_truthy (bool b) = b
is_truthy (int (pos n)) = not (n == 0)
is_truthy (int (negsuc n)) = true
is_truthy (float x) = not (x.bits % 2 ^ 63 == 0)
is_truthy (str s) = not (is_blank s)
is_truthy (moment s) = true
is_truthy (other s) = true
is_truthy (dict end) = false
is_truthy (dict (field k v fs)) = true
is_truthy (list nil) = false
is_truthy (list (cons v vs)) = true

abbrev pub as_dict : {A : Type 0} → Json → (Fields → Session A) → Session A → Session A
as_dict (dict fs) f g = f fs
as_dict null f g = g
as_dict (bool b) f g = g
as_dict (int n) f g = g
as_dict (float x) f g = g
as_dict (str t) f g = g
as_dict (moment t) f g = g
as_dict (other t) f g = g
as_dict (list xs) f g = g

-- `if not jwks`: an empty document counts as none.
abbrev pub usable : Option Fields → Option Fields
usable none = none
usable (some end) = none
usable (some (field k v fs)) = some (field k v fs)

abbrev pub has_kid : Text → Json → Bool
unfolding eq_text
has_kid kid (str k) = eq_text k kid
has_kid kid v = false

-- The first key with the identifier of the token.
unfoldable pub find_jwk : Text → Items → Session Fields
unfolding get_field eq_text
find_jwk kid nil = deny 401 (codes "unknown signing key")
find_jwk kid (cons (dict fs) vs) =
    let rest = find_jwk kid vs in if has_kid kid (get_field (codes "kid") fs) then pass fs else rest
find_jwk kid (cons v vs) = find_jwk kid vs

abbrev pub find_in_keys : Text → Json → Session Fields
unfolding find_jwk
find_in_keys kid (list keys) = find_jwk kid keys
find_in_keys kid v = deny 503 provider_unavailable

module _ (world : World) where
  abbrev pub read_clock : Session ℕ
  read_clock c = (passed (world.monotonic c.readings), record c { readings = suc c.readings })

  abbrev pub fetched : Fetched → Session Json
  fetched http_error = deny 503 provider_unavailable
  fetched not_json = deny 503 provider_unavailable
  fetched (payload v) = pass v

  -- `_fetch_json` and `_fetch_json_sync`
  unfoldable pub fetch_json : Text → Session Json
  fetch_json url c = fetched (world.fetch c.fetches url) (record c { fetches = suc c.fetches })

  -- `cached is not None and cached[0] > time.monotonic()`
  unfoldable pub still_valid : Option (ℕ × Fields) → Session (Option Fields)
  still_valid none = pass none
  still_valid (some (expiry, doc)) =
      read_clock >>= λ now. pass (if ltb now expiry then some doc else none)

  -- A fetched document goes into the cache of discovery documents.
  unfoldable pub store_metadata : Text → ℤ → Fields → Session Fields
  store_metadata url ttl doc = read_clock >>= λ now c.
      (passed doc, record c { metadata = (url, expiry_after now ttl, doc) ∷ c.metadata })

  unfoldable pub store_jwks : Text → ℤ → Fields → Session Fields
  store_jwks url ttl doc = read_clock >>= λ now c.
      (passed doc, record c { jwks = (url, expiry_after now ttl, doc) ∷ c.jwks })

  abbrev pub doc_or_fetch : Text → (Fields → Session Fields) → Option Fields → Session Fields
  unfolding fetch_json
  doc_or_fetch url store (some doc) = pass doc
  doc_or_fetch url store none =
      fetch_json url >>= λ v. as_dict v store (deny 503 provider_unavailable)

  -- The discovery document at a url, which the settings may not have.
  unfoldable pub load_metadata_at : OidcSettings → Option Text → Session Fields
  unfolding cached still_valid store_metadata fetch_json
  load_metadata_at s none = deny 503 provider_unavailable
  load_metadata_at s (some []) = deny 503 provider_unavailable
  load_metadata_at s (some (x ∷ xs)) =
      (λ c. still_valid (cached (x ∷ xs) c.metadata) c)
      >>= doc_or_fetch (x ∷ xs) (store_metadata (x ∷ xs) s.oidc_jwks_cache_ttl_seconds)

  -- `_load_provider_metadata`
  unfoldable pub load_provider_metadata : OidcSettings → Session Fields
  unfolding load_metadata_at discovery_url
  load_provider_metadata s = load_metadata_at s (discovery_url s)

  -- `_load_jwk`
  unfoldable pub load_jwk : OidcSettings → Text → Text → Session Fields
  unfolding cached still_valid store_jwks fetch_json get_field find_jwk
  load_jwk s jwks_uri kid =
      (λ c. still_valid (cached jwks_uri c.jwks) c)
      >>= (λ found.
          doc_or_fetch jwks_uri (store_jwks jwks_uri s.oidc_jwks_cache_ttl_seconds) (usable found))
      >>= λ jwks. find_in_keys kid (get_field (codes "keys") jwks)
