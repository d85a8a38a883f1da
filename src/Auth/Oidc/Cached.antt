-- ===== src/Auth/Oidc/Cached.antt =====
-- What the caches of internal/infra/auth/oidc.py spare: a document that was loaded is not fetched
-- again before it expires.
use mathlib.Core.Path.{subst}
use washing.Prelude.{
  ℕ, suc, pos, ◌+◌, ◌*◌, ◌<◌, ◌≡◌, refl, ap, ◌∙◌, ltb, ltb→lt, ◌≤◌, ◌⊎◌, lt→ltb, false, Option,
  none, some, [], ◌∷◌, Text, eq_text_refl, Bool-cases, inl, inr, arith,
}
use washing.Security.{Json, dict, Fields}
use washing.Auth.Settings.{OidcSettings, discovery_url, is_blank}
use washing.Auth.Oidc.Documents.{
  Fetched, http_error, not_json, payload, World, Caches, Checked, expiry_after, deny,
  provider_unavailable, passed, Session, after, cached, still_valid, fetch_json, fetched,
  store_metadata, doc_or_fetch, as_dict, load_provider_metadata, load_metadata_at,
}
use washing.Auth.Oidc.Chains.{passed_inj, denied-ne}

-- The moment that an entry is kept until: that of an entry that was in the cache, or the time to live
-- after the last reading of the clock.
abbrev pub IsDated : World → ℕ → Fields → Caches → Caches → Text → ℕ → Type 0
IsDated world ttl doc c c' url expiry =
    (cached url c.metadata ≡ some (expiry, doc))
    ⊎ ((n : ℕ) × (suc n ≡ c'.readings) × (expiry ≡ world.monotonic n + ttl * 1000000))

module _ (world : World) (s : OidcSettings) (doc : Fields) (start c' : Caches) (ttl : ℕ)
    (lives : s.oidc_jwks_cache_ttl_seconds ≡ pos ttl) where
  abbrev IsCached : Text → Type 0
  IsCached url =
      (expiry : ℕ) × (cached url c'.metadata ≡ some (expiry, doc))
      × IsDated world ttl doc start c' url expiry

  abbrev store : Text → Fields → Session Fields
  unfolding store_metadata
  store url = store_metadata world url s.oidc_jwks_cache_ttl_seconds

  from_store :
      (url : Text) (d : Fields) (c : Caches) → store url d c ≡ (passed doc, c') → IsCached url
  unfolding store cached store_metadata
  from_store url d c h =
      let e : d ≡ doc = passed_inj (ap (λ p. p.0) h) in
      (
        expiry_after (world.monotonic c.readings) s.oidc_jwks_cache_ttl_seconds,
        subst
            (λ k.
              cached url k.metadata
              ≡ some (expiry_after (world.monotonic c.readings) s.oidc_jwks_cache_ttl_seconds, doc))
            (ap (λ p. p.1) h) (rw (eq_text_refl url, e) refl),
        inr (
          c.readings,
          ap (λ p. p.1.readings) h,
          ap (expiry_after (world.monotonic c.readings)) lives,
        ),
      )

  from_json :
      (url : Text) (v : Json) (c : Caches)
      → as_dict v (store url) (deny 503 provider_unavailable) c ≡ (passed doc, c')
      → IsCached url
  from_json url (dict fs) c h = from_store url fs c h
  from_json url v c h = absurd (denied-ne h)

  from_fetch :
      (url : Text) (f : Fetched) (c : Caches)
      → after (fetched world f c) (λ v. as_dict v (store url) (deny 503 provider_unavailable))
        ≡ (passed doc, c')
      → IsCached url
  from_fetch url http_error c h = absurd (denied-ne h)
  from_fetch url not_json c h = absurd (denied-ne h)
  from_fetch url (payload v) c h = from_json url v c h

  from_cache :
      (url : Text) (m : Option (ℕ × Fields))
      → cached url start.metadata ≡ m
      → after (still_valid world m start) (doc_or_fetch world url (store url)) ≡ (passed doc, c')
      → IsCached url
  unfolding still_valid fetch_json
  from_cache url none e h =
      from_fetch url (world.fetch start.fetches url) (record start { fetches = suc start.fetches })
        h
  from_cache url (some (expiry, d)) e h =
      elim (Bool-cases (ltb (world.monotonic start.readings) expiry)) [
        | inl lt ↦
            let k : ◌≡◌ {A = Checked Fields × Caches}
                (passed d, record start { readings = suc start.readings }) (passed doc, c') =
              rw lt at h in
            (
              expiry,
              subst (λ k. cached url k.metadata ≡ some (expiry, doc)) (ap (λ p. p.1) k)
                  (e ∙ ap (λ x. some (expiry, x)) (passed_inj (ap (λ p. p.0) k))),
              inl (e ∙ ap (λ x. some (expiry, x)) (passed_inj (ap (λ p. p.0) k))),
            )
        | inr ge ↦
            from_fetch url (world.fetch start.fetches url)
              (record start { fetches = suc start.fetches; readings = suc start.readings })
              (rw ge at h)
      ]

  from_url :
      (url : Option Text)
      → load_metadata_at world s url start ≡ (passed doc, c')
      → (u : Text) × (url ≡ some u) × (is_blank u ≡ false) × IsCached u
  unfolding load_metadata_at
  from_url none h = absurd (denied-ne h)
  from_url (some []) h = absurd (denied-ne h)
  from_url (some (x ∷ xs)) h =
      (x ∷ xs, refl, refl, from_cache (x ∷ xs) (cached (x ∷ xs) start.metadata) refl h)

still_cached :
    (world : World) (s : OidcSettings) (doc : Fields) (c : Caches) (u : Text) (expiry : ℕ)
    → is_blank u ≡ false
    → cached u c.metadata ≡ some (expiry, doc)
    → world.monotonic c.readings < expiry
    → load_metadata_at world s (some u) c ≡ (passed doc, record c { readings = suc c.readings })
unfolding load_metadata_at still_valid
still_cached world s doc c [] expiry full e lt = absurd (cc)
still_cached world s doc c (x ∷ xs) expiry full e lt =
    rw (e, lt→ltb (world.monotonic c.readings) expiry lt) refl

-- Once the discovery document is loaded, the cache holds it under its url until a moment, which is
-- that of an entry that was there, or the configured seconds after the last reading of the clock;
-- and the next load before that moment returns the document and fetches nothing, whatever the
-- provider has by then become: another world with the same settings.
pub load_provider_metadata-again :
    (world later : World) (s : OidcSettings) (doc : Fields) (c c' : Caches) (ttl : ℕ)
    → s.oidc_jwks_cache_ttl_seconds ≡ pos ttl
    → load_provider_metadata world s c ≡ (passed doc, c')
    → (u : Text) × (expiry : ℕ) × (discovery_url s ≡ some u)
      × (cached u c'.metadata ≡ some (expiry, doc))
      × IsDated world ttl doc c c' u expiry
      × ((expiry ≤ later.monotonic c'.readings)
          ⊎ (load_provider_metadata later s c'
              ≡ (passed doc, record c' { readings = suc c'.readings })))
unfolding load_provider_metadata
load_provider_metadata-again world later s doc c c' ttl lives h =
    let (u, eq, full, (expiry, held, dated)) =
      from_url world s doc c c' ttl lives (discovery_url s) h in
    (
      u,
      expiry,
      eq,
      held,
      dated,
      elim (Bool-cases (ltb (later.monotonic c'.readings) expiry)) [
        | inl lt ↦ inr (
            rw eq (
              still_cached later s doc c' u expiry full held
                (ltb→lt (later.monotonic c'.readings) expiry lt)))
        | inr ge ↦ inl (ground arith)
      ],
    )
