-- ===== src/Api/Consistency/Changed.antt =====
-- The routes that change one provider keep the links of app/api/routes/.
use mathlib.Core.Path.{subst}
use washing.Prelude.{
  ℕ, ◌<◌, ◌≡◌, ◌==◌, ◌⊎◌, inl, inr, refl, sym, ap, Bool, true, false, not, Option, none, some, All,
  Text, arith, Bool-cases,
}
use washing.Security.{Json, Fields, dict}
use washing.Db.{MachineProvider, ScopeName, get, remove, elem_id}
use washing.Api.Store.{Store, done, require, Patch, patched, as_fields, provider_name_taken}
use washing.Api.Providers.{
  provider_id, load_provider, load_provider_of_type, put_provider, ProviderPatch,
  ensure_target_platform, ensure_target_scope, moved, commit_provider, update_provider,
  provider_exists, delete_provider,
}
use washing.Api.Consistency.Tables.{
  All-imp, All-keep_if, Pairwise-keep_if, get-All, get-key, Others, Pairwise-get,
}
use washing.Api.Consistency.Keys.{keys-keep_if}
use washing.Api.Consistency.Links.{
  IsConsistent, Apart, Apart-sym, eq_scope-sym, Placed, put-IsConsistent,
}
use washing.Api.Consistency.Guards.{>>=-done, done_inj, IsFree, serves, free-Others}
use washing.Api.Consistency.Targets.{
  load_provider_of_type-get, ensure_target_platform-on, ensure_target_scope-IsFree,
}

commit_provider-after :
    (st st' : Store) (p p' : MachineProvider) (platform : ℕ) (scope : ScopeName) (config : Json)
    (name : Option Text)
    → commit_provider st p platform scope config name ≡ done (p', st')
    → (n : Text) × (put_provider st (moved platform n scope config) p.id ≡ st')
unfolding commit_provider
commit_provider-after st st' p p' platform scope config none h = cc
commit_provider-after st st' p p' platform scope config (some n) h =
    let (u, e, k) =
      >>=-done
        (require (not (provider_name_taken st.providers p.id platform n)) 409 provider_exists) _
        (p', st') h in
    (n, ap (λ r. r.1) (done_inj k))

module _ (i : ℕ) (st : Store) (p : MachineProvider) (good : IsConsistent i st)
    (found : get provider_id st.providers p.id ≡ some p) where
  p-Placed : Placed i st.provisioners p
  p-Placed = get-All provider_id (Placed i st.provisioners) st.providers p.id p good.0 found

  moved-Placed :
      (patch : Patch ℕ) (platform : ℕ) (n : Text) (scope : ScopeName) (config : Json)
      → ensure_target_platform st p patch ≡ done platform
      → Placed i st.provisioners (moved platform n scope config p)
  moved-Placed patch platform n scope config h = elim (Bool-cases (elem_id i p.provisioner_ids)) [
    | inr m ↦ inl m
    | inl m ↦ elim p-Placed [
      | inl off ↦ absurd (ground (arith, m, off))
      | inr (q, at, on) ↦ inr (q, at, ensure_target_platform-on st p i q patch platform h m at on)
    ]
  ]

  p-Others :
      (f : MachineProvider → MachineProvider) → Others provider_id f p.id p (Apart i p) st.providers
  p-Others f =
      Pairwise-get provider_id f p.id p (Apart i) (Apart-sym i) st.providers found good.2 good.1

  abbrev OthersOf : MachineProvider → Type 0
  OthersOf p' = All (λ r. ((r.id == p.id) ≡ true) ⊎ Apart i p' r) st.providers

  moved-Apart :
      (patch : Option ScopeName) (platform : ℕ) (n : Text) (scope : ScopeName) (config : Json)
      → ensure_target_scope st p patch ≡ done scope
      → OthersOf (moved platform n scope config p)
  moved-Apart patch platform n scope config h = elim (Bool-cases (elem_id i p.provisioner_ids)) [
    | inr m ↦ absent m
    | inl m ↦ elim p-Placed [
      | inl off ↦ absent off
      | inr (q, at, on) ↦ elim (ensure_target_scope-IsFree st p i q patch scope h m at) [
        | inl same ↦ kept same
        | inr free ↦ freed free
      ]
    ]
  ]
    where
      absent : elem_id i p.provisioner_ids ≡ false → OthersOf (moved platform n scope config p)
      absent m =
          All-imp (λ r. ((r.id == p.id) ≡ true) ⊎ Apart i p r)
            (λ r. ((r.id == p.id) ≡ true) ⊎ Apart i (moved platform n scope config p) r)
            st.providers (p-Others (λ r. r)) (λ r a. inr (rw m))

      kept : p.scope ≡ scope → OthersOf (moved platform n scope config p)
      kept same =
          subst (λ t. OthersOf (moved platform n t config p)) same
            (All-imp (λ r. ((r.id == p.id) ≡ true) ⊎ Apart i p r)
              (λ r. ((r.id == p.id) ≡ true) ⊎ Apart i (moved platform n p.scope config p) r)
              st.providers (p-Others (λ r. r)) (λ r a. a))

      freed : IsFree st.providers scope (some p.id) i → OthersOf (moved platform n scope config p)
      freed free =
          All-imp (λ r. ((r.id == p.id) ≡ true) ⊎ (serves i scope r ≡ false))
            (λ r. ((r.id == p.id) ≡ true) ⊎ Apart i (moved platform n scope config p) r)
            st.providers (free-Others st.providers scope p.id i free)
            (λ r a. elim a [
              | inl e ↦ inl e
              | inr k ↦ inr (rw (eq_scope-sym scope r.scope) (ground (arith, k)))
            ])

  moved-IsConsistent :
      (platform_patch : Patch ℕ) (scope_patch : Option ScopeName) (platform : ℕ) (n : Text)
      (scope : ScopeName) (config : Json)
      → ensure_target_platform st p platform_patch ≡ done platform
      → ensure_target_scope st p scope_patch ≡ done scope
      → IsConsistent i (put_provider st (moved platform n scope config) p.id)
  moved-IsConsistent platform_patch scope_patch platform n scope config h k =
      put-IsConsistent i st p.id (moved platform n scope config) p (λ r. refl) found
        (moved-Placed platform_patch platform n scope config h)
        (moved-Apart scope_patch platform n scope config k) good

module _ (i : ℕ) (st st' : Store) where
  pub delete_provider-IsConsistent :
      (id : ℕ) → delete_provider st id ≡ done st' → IsConsistent i st → IsConsistent i st'
  unfolding delete_provider remove
  delete_provider-IsConsistent id h (all, pairs, keys, below) =
      let (p, e, k) = >>=-done (load_provider st id) _ st' h in
      let t : MachineProvider → Bool = λ r. not (r.id == id) in
      subst (IsConsistent i) (done_inj k) (
        All-keep_if (Placed i st.provisioners) t st.providers all,
        Pairwise-keep_if (Apart i) t st.providers pairs,
        keys-keep_if provider_id t st.providers keys,
        All-keep_if (λ p. p.id < st.next_provider_id) t st.providers below,
      )

  pub update_provider-IsConsistent :
      (id : ℕ) (connector_type : Text) (patch : ProviderPatch) (configure : Fields → Fields)
      (p' : MachineProvider)
      → update_provider st id connector_type patch configure ≡ done (p', st')
      → IsConsistent i st
      → IsConsistent i st'
  unfolding update_provider
  update_provider-IsConsistent id connector_type patch configure p' h good =
      let (p, e1, k1) = >>=-done (load_provider_of_type st id connector_type) _ (p', st') h in
      let (scope, e2, k2) = >>=-done (ensure_target_scope st p patch.scope) _ (p', st') k1 in
      let (platform, e3, k3) =
        >>=-done (ensure_target_platform st p patch.platform_id) _ (p', st') k2 in
      let config = dict (configure (as_fields p.config)) in
      let (n, after) =
        commit_provider-after st st' p p' platform scope config (patched patch.name p.name) k3 in
      let at_id = load_provider_of_type-get st id connector_type p e1 in
      let found =
        subst (λ j. get provider_id st.providers j ≡ some p)
          (sym (get-key provider_id st.providers id p at_id)) at_id in
      subst (IsConsistent i) after (
        moved-IsConsistent i st p good found patch.platform_id patch.scope platform n scope config
          e3 e2)
