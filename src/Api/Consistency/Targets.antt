-- ===== src/Api/Consistency/Targets.antt =====
-- What a provider that a route of app/api/routes/machines/ has loaded, and its targets, are.
use mathlib.Core.Path.{subst}
use washing.Prelude.{ℕ, ◌≡◌, ◌⊎◌, inl, inr, ap, ◌∙◌, true, Option, none, some, Text, eq_text}
use washing.Db.{MachineProvisioner, MachineProvider, ScopeName, get, elem_id}
use washing.Api.Store.{Store, done, require, get_or_404, Patch, unset, null, to, rows_of}
use washing.Api.Providers.{
  provider_id, provisioner_id, platform_id, no_platform, no_provider, load_provider,
  load_provider_of_type, ensure_scope_matches, ensure_platform_matches, ensure_target_platform,
  ensure_target_scope,
}
use washing.Api.Consistency.Tables.{get-key}
use washing.Api.Consistency.Guards.{
  >>=-done, done_inj, get_or_404-done, rows_of-All, ensure_platform_matches-All,
  ensure_scope_matches-All, IsFree,
}

pub load_provider-get :
    (st : Store) (id : ℕ) (p : MachineProvider)
    → load_provider st id ≡ done p
    → get provider_id st.providers id ≡ some p
unfolding load_provider
load_provider-get st id p h = get_or_404-done provider_id st.providers id no_provider p h

pub load_provider_of_type-get :
    (st : Store) (id : ℕ) (t : Text) (p : MachineProvider)
    → load_provider_of_type st id t ≡ done p
    → get provider_id st.providers id ≡ some p
unfolding load_provider_of_type
load_provider_of_type-get st id t p h =
    let (r, e, k) = >>=-done (load_provider st id) _ p h in
    let (u, typed, k2) = >>=-done (require (eq_text r.connector_type t) 404 no_provider) _ p k in
    load_provider-get st id r e ∙ ap some (done_inj k2)

-- The two targets of a PATCH keep a provisioner of the provider on its platform, and free.
module _ (st : Store) (p : MachineProvider) (i : ℕ) (q : MachineProvisioner) where
  pub ensure_target_platform-on :
      (patch : Patch ℕ) (target : ℕ)
      → ensure_target_platform st p patch ≡ done target
      → elem_id i p.provisioner_ids ≡ true
      → get provisioner_id st.provisioners i ≡ some q
      → q.platform_id ≡ p.platform_id
      → q.platform_id ≡ target
  unfolding ensure_target_platform
  ensure_target_platform-on unset target h m found on = on ∙ done_inj h
  ensure_target_platform-on null target h m found on = cc
  ensure_target_platform-on (to platform) target h m found on =
      let (r, e, k) =
        >>=-done (get_or_404 platform_id st.platforms platform no_platform) _ target h in
      let (u, matches, k2) =
        >>=-done
          (ensure_platform_matches platform
            (rows_of provisioner_id st.provisioners p.provisioner_ids))
          _ target k in
      rows_of-All provisioner_id (λ q. q.platform_id ≡ platform) st.provisioners p.provisioner_ids i
        q
        (ensure_platform_matches-All platform
          (rows_of provisioner_id st.provisioners p.provisioner_ids) matches)
        m found
      ∙ done_inj k2

  pub ensure_target_scope-IsFree :
      (patch : Option ScopeName) (target : ScopeName)
      → ensure_target_scope st p patch ≡ done target
      → elem_id i p.provisioner_ids ≡ true
      → get provisioner_id st.provisioners i ≡ some q
      → (p.scope ≡ target) ⊎ IsFree st.providers target (some p.id) i
  unfolding ensure_target_scope
  ensure_target_scope-IsFree none target h m found = inl (done_inj h)
  ensure_target_scope-IsFree (some scope) target h m found =
      let rows = rows_of provisioner_id st.provisioners p.provisioner_ids in
      let (u, matches, k) = >>=-done (ensure_scope_matches st scope p.id rows) _ target h in
      let free =
        rows_of-All provisioner_id (λ q. IsFree st.providers scope (some p.id) q.id) st.provisioners
          p.provisioner_ids i q (ensure_scope_matches-All st scope p.id rows matches) m found in
      inr (
        subst (λ s. IsFree st.providers s (some p.id) i) (done_inj k)
          (subst (IsFree st.providers scope (some p.id))
            (get-key provisioner_id st.provisioners i q found) free))
