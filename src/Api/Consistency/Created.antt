-- ===== src/Api/Consistency/Created.antt =====
-- The routes that create providers keep the links of app/api/routes/.
use mathlib.Core.Path.{subst}
use washing.Prelude.{
  ℕ, suc, ◌<◌, ◌≡◌, ◌==◌, ◌⊎◌, ==_iff, inl, inr, refl, ap, ◌∙◌, true, false, not, ◌||◌, none, some,
  List, [], ◌∷◌, All, Text, codes, arith, Bool-cases,
}
use washing.Security.{Fields, str, end, field}
use washing.Db.{MachineProvisioner, MachineProvider, ScopeName, get, elem_id}
use washing.Api.Store.{Store, done, require, get_or_404, provider_name_taken}
use washing.Api.Providers.{
  provider_id, provisioner_id, platform_id, no_platform, check_provisioners, ensure_no_conflict,
  other_platform, NewProvider, provider_row, add_provider, has_repeats, provider_exists,
  create_prometheus_provider, create_dynatrace_provider, create_mock_provider,
}
use washing.Api.Consistency.Tables.{All-snoc, All-imp, Pairwise-snoc, get-key}
use washing.Api.Consistency.Keys.{keys-next}
use washing.Api.Consistency.Links.{IsConsistent, Apart, Placed}
use washing.Api.Consistency.Guards.{
  >>=-done, done_inj, require-done, get_or_404-done, IsFree, ensure_no_conflict-IsFree, serves,
  free-All,
}

-- A provisioner that passed the check is on the platform, and free for the scope.
check_provisioners_found :
    (st : Store) (platform : ℕ) (scope : ScopeName) (ids : List ℕ) (i : ℕ) (u : Unit {0})
    → check_provisioners st platform scope ids ≡ done u
    → elem_id i ids ≡ true
    → (q : MachineProvisioner) × (get provisioner_id st.provisioners i ≡ some q)
      × (q.platform_id ≡ platform)
      × IsFree st.providers scope none i
unfolding check_provisioners
check_provisioners_found st platform scope [] i u h m = absurd (ground arith)
check_provisioners_found st platform scope (j ∷ ids) i u h m =
    let detail = codes "provisioner not found" in
    let (q, e, h1) = >>=-done (get_or_404 provisioner_id st.provisioners j detail) _ u h in
    let (v, on, h2) = >>=-done (require (q.platform_id == platform) 400 other_platform) _ u h1 in
    let (w, free, h3) = >>=-done (ensure_no_conflict st scope none q.id) _ u h2 in
    let found = get_or_404-done provisioner_id st.provisioners j detail q e in
    elim (Bool-cases (j == i)) [
      | inl same ↦
          let eq : j ≡ i = (==_iff j i).0 same in
          (
            q,
            subst (λ k. get provisioner_id st.provisioners k ≡ some q) eq found,
            (==_iff q.platform_id platform).0
                (require-done (q.platform_id == platform) 400 other_platform v on),
            subst (IsFree st.providers scope none)
                (get-key provisioner_id st.provisioners j q found ∙ eq)
                (ensure_no_conflict-IsFree st scope none q.id w free),
          )
      | inr other ↦ check_provisioners_found st platform scope ids i u h3 (rw other at m)
    ]

-- The provisioner is not among the ids, or it is on the platform and free for the scope.
abbrev pub IsLinkable : ℕ → Store → ℕ → ScopeName → List ℕ → Type 0
IsLinkable i st platform scope ids =
    (elem_id i ids ≡ false)
    ⊎ ((q : MachineProvisioner) × (get provisioner_id st.provisioners i ≡ some q)
        × (q.platform_id ≡ platform)
        × IsFree st.providers scope none i)

module _ (i : ℕ) (st : Store) (row : MachineProvider) where
  new-Placed :
      IsLinkable i st row.platform_id row.scope row.provisioner_ids → Placed i st.provisioners row
  new-Placed (inl h) = inl h
  new-Placed (inr (q, found, on, free)) = inr (q, found, on)

  new-Apart :
      IsLinkable i st row.platform_id row.scope row.provisioner_ids
      → All (λ r. Apart i r row) st.providers
  new-Apart (inl h) = absent st.providers
    where
      absent : (rows : List MachineProvider) → All (λ r. Apart i r row) rows
      absent [] = tt
      absent (r ∷ rs) = (ground (arith, h), absent rs)
  new-Apart (inr (q, found, on, free)) =
      All-imp (λ r. serves i row.scope r ≡ false) (λ r. Apart i r row) st.providers
        (free-All st.providers row.scope i free) (λ r k. ground (arith, k))

module _ (i : ℕ) (st st' : Store) (p : MachineProvider) where
  pub add-IsConsistent :
      (connector_type : Text) (config : Fields) (new : NewProvider) (ids : List ℕ)
      → IsLinkable i st new.platform_id new.scope ids
      → add_provider st connector_type config new ids ≡ done (p, st')
      → IsConsistent i st
      → IsConsistent i st'
  unfolding add_provider
  add-IsConsistent connector_type config new ids linked h (all, pairs, keys, below) =
      let row = provider_row st.next_provider_id connector_type config new ids in
      let (u, e, k) =
        >>=-done
          (require
            (not
              (provider_name_taken st.providers row.id row.platform_id row.name || has_repeats ids))
            409 provider_exists)
          _ (p, st') h in
      let after = ap (λ r. r.1) (done_inj k) in
      subst (IsConsistent i) after (
        All-snoc (Placed i st.provisioners) st.providers row all (new-Placed i st row linked),
        Pairwise-snoc (Apart i) st.providers row pairs (new-Apart i st row linked),
        keys-next provider_id st.providers row below keys,
        All-snoc (λ p. p.id < suc st.next_provider_id) st.providers row
            (All-imp (λ p. p.id < st.next_provider_id) (λ p. p.id < suc st.next_provider_id)
              st.providers below (λ p h. omega (arith, h)))
            (omega arith),
      )

  pub create_prometheus_provider-IsConsistent :
      (new : NewProvider) (url query : Text)
      → create_prometheus_provider st new url query ≡ done (p, st')
      → IsConsistent i st
      → IsConsistent i st'
  unfolding create_prometheus_provider
  create_prometheus_provider-IsConsistent new url query h good =
      let (q, e, k) =
        >>=-done (get_or_404 platform_id st.platforms new.platform_id no_platform) _ (p, st') h in
      add-IsConsistent (codes "prometheus")
        (field (codes "url") (str url) (field (codes "query") (str query) end)) new [] (inl refl) k
        good

  pub create_mock_provider-IsConsistent :
      (new : NewProvider)
      → create_mock_provider st new ≡ done (p, st')
      → IsConsistent i st
      → IsConsistent i st'
  unfolding create_mock_provider
  create_mock_provider-IsConsistent new h good =
      let (q, e, k) =
        >>=-done (get_or_404 platform_id st.platforms new.platform_id no_platform) _ (p, st') h in
      add-IsConsistent (codes "mock_metric") end new [] (inl refl) k good

  pub create_dynatrace_provider-IsConsistent :
      (new : NewProvider) (ids : List ℕ) (url token : Text)
      → create_dynatrace_provider st new ids url token ≡ done (p, st')
      → IsConsistent i st
      → IsConsistent i st'
  unfolding create_dynatrace_provider
  create_dynatrace_provider-IsConsistent new ids url token h good =
      let (q, e, k) =
        >>=-done (get_or_404 platform_id st.platforms new.platform_id no_platform) _ (p, st') h in
      let (u, checked, k2) =
        >>=-done (check_provisioners st new.platform_id new.scope ids) _ (p, st') k in
      add-IsConsistent (codes "dynatrace")
        (field (codes "url") (str url) (field (codes "token") (str token) end)) new ids
        (elim (Bool-cases (elem_id i ids)) [
          | inl m ↦ inr (check_provisioners_found st new.platform_id new.scope ids i u checked m)
          | inr m ↦ inl m
        ])
        k2 good
