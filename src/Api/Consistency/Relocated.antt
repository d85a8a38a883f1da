-- ===== src/Api/Consistency/Relocated.antt =====
-- A PATCH that moves a provisioner keeps the links of app/api/routes/.
use mathlib.Core.Path.{subst}
use washing.Prelude.{
  ℕ, ◌≡◌, ◌==◌, ◌⊎◌, ==_iff, inl, inr, refl, sym, ap, ◌∙◌, true, false, not, Option, none, some,
  some_inj, List, [], ◌∷◌, All, Text, codes, eq_text, arith, Bool-cases,
}
use washing.Security.{Json, Fields, dict}
use washing.Db.{MachineProvisioner, MachineProvider, get, update, elem_id}
use washing.Api.Store.{
  Store, Reply, done, require, get_or_404, Patch, unset, null, to, patched, as_fields,
  attached_providers, provisioner_name_taken,
}
use washing.Api.Providers.{provisioner_id, platform_id, no_platform, not_same_platform}
use washing.Api.Provisioners.{
  no_provisioner, load_provisioner_of_type, linked_machines, is_empty, ensure_providers_on,
  ensure_platform_can_change, provisioner_exists, put_provisioner, ProvisionerPatch,
  ensure_new_platform, relocated, commit_provisioner, update_provisioner,
}
use washing.Api.Consistency.Tables.{All-imp, get-key}
use washing.Api.Consistency.Links.{IsConsistent, Placed}
use washing.Api.Consistency.Guards.{>>=-done, done_inj, require-done, get_or_404-done}
use washing.Api.Consistency.Provisioners.{update-Placed}

ensure_providers_on-All :
    (platform i : ℕ) (ps : List MachineProvider) (u : Unit {0})
    → ensure_providers_on platform (attached_providers ps i) ≡ done u
    → All (λ p. (elem_id i p.provisioner_ids ≡ false) ⊎ (p.platform_id ≡ platform)) ps
unfolding ensure_providers_on attached_providers
ensure_providers_on-All platform i [] u h = tt
ensure_providers_on-All platform i (p ∷ ps) u h = elim (Bool-cases (elem_id i p.provisioner_ids)) [
  | inr off ↦ (inl off, ensure_providers_on-All platform i ps u (rw off at h))
  | inl m ↦
      let (v, e, k) =
        >>=-done (require (p.platform_id == platform) 400 not_same_platform)
          (λ _. ensure_providers_on platform (attached_providers ps i)) u (rw m at h) in
      (
        inr (
            (==_iff p.platform_id platform).0
              (require-done (p.platform_id == platform) 400 not_same_platform v e)),
        ensure_providers_on-All platform i ps u k,
      )
]

-- A provisioner keeps its platform, or the providers that have it are on the new one.
abbrev Follows : MachineProvisioner → ℕ → MachineProvider → Type 0
Follows q target p =
    (elem_id q.id p.provisioner_ids ≡ false) ⊎ ((target ≡ q.platform_id) ⊎ (p.platform_id ≡ target))

stays-Follows :
    (q : MachineProvisioner) (target : ℕ) (ps : List MachineProvider)
    → target ≡ q.platform_id
    → All (Follows q target) ps
stays-Follows q target [] e = tt
stays-Follows q target (p ∷ ps) e = (inr (inl e), stays-Follows q target ps e)

module _ (st : Store) (q : MachineProvisioner) where
  can_change-Follows :
      (target : ℕ) (u : Unit {0})
      → ensure_platform_can_change st q target ≡ done u
      → All (Follows q target) st.providers
  unfolding ensure_platform_can_change
  can_change-Follows target u h = elim (Bool-cases (target == q.platform_id)) [
    | inl e ↦ stays-Follows q target st.providers ((==_iff target q.platform_id).0 e)
    | inr e ↦
        let (v, empty, k) =
          >>=-done
            (require (is_empty (linked_machines st.machines q.id)) 409
              (codes "cannot move provisioner with linked machines"))
            _ u (rw e at h) in
        All-imp (λ p. (elem_id q.id p.provisioner_ids ≡ false) ⊎ (p.platform_id ≡ target))
          (Follows q target) st.providers (ensure_providers_on-All target q.id st.providers u k)
          (λ p a. elim a [ inl x ↦ inl x | inr x ↦ inr (inr x) ])
  ]

  ensure_new_platform-Follows :
      (patch : Patch ℕ) (target : ℕ)
      → ensure_new_platform st q patch ≡ done target
      → All (Follows q target) st.providers
  unfolding ensure_new_platform
  ensure_new_platform-Follows unset target h =
      stays-Follows q target st.providers (sym (done_inj h))
  ensure_new_platform-Follows null target h = cc
  ensure_new_platform-Follows (to platform) target h =
      let (r, e, k) =
        >>=-done (get_or_404 platform_id st.platforms platform no_platform) _ target h in
      let (u, can, k2) = >>=-done (ensure_platform_can_change st q platform) _ target k in
      subst (λ t. All (Follows q t) st.providers) (done_inj k2) (can_change-Follows platform u can)

module _ (i : ℕ) (st st' : Store) (q : MachineProvisioner)
    (found : get provisioner_id st.provisioners q.id ≡ some q) where
  relocated-Placed :
      (target : ℕ) (n cron : Text) (config : Json) (ps : List MachineProvider)
      → All (Placed i st.provisioners) ps
      → All (Follows q target) ps
      → All
          (Placed i (update provisioner_id q.id (relocated target n cron config) st.provisioners))
          ps
  relocated-Placed target n cron config [] h k = tt
  relocated-Placed target n cron config (p ∷ ps) h k = (
    update-Placed i (relocated target n cron config) (λ q. refl) st.provisioners q.id p
        (λ r e at on m.
          let same : q ≡ r =
            some_inj (sym found ∙ ap (get provisioner_id st.provisioners) e ∙ at) in
          follow (subst (λ j. elem_id j p.provisioner_ids ≡ true) (sym e) m)
            (ap (λ q. q.platform_id) same ∙ on) k.0)
        h.0,
    relocated-Placed target n cron config ps h.1 k.1,
  )
    where
      follow :
          elem_id q.id p.provisioner_ids ≡ true
          → q.platform_id ≡ p.platform_id
          → Follows q target p
          → target ≡ p.platform_id
      follow m on (inl off) = absurd (ground (arith, m, off))
      follow m on (inr (inl e)) = e ∙ on
      follow m on (inr (inr e)) = sym e

  commit_provisioner-after :
      (q' : MachineProvisioner) (target : ℕ) (config : Json) (name cron : Option Text)
      → commit_provisioner st q target config name cron ≡ done (q', st')
      → (n : Text) × (c : Text) × (put_provisioner st (relocated target n c config) q.id ≡ st')
  unfolding commit_provisioner
  commit_provisioner-after q' target config none cron h = cc
  commit_provisioner-after q' target config (some n) none h = cc
  commit_provisioner-after q' target config (some n) (some c) h =
      let (u, e, k) =
        >>=-done
          (require (not (provisioner_name_taken st.provisioners q.id target n)) 409
            provisioner_exists)
          _ (q', st') h in
      (n, c, ap (λ r. r.1) (done_inj k))

load_provisioner_of_type-get :
    (st : Store) (id : ℕ) (t : Text) (q : MachineProvisioner)
    → load_provisioner_of_type st id t ≡ done q
    → get provisioner_id st.provisioners id ≡ some q
unfolding load_provisioner_of_type
load_provisioner_of_type-get st id t q h =
    let (r, e, k) = >>=-done (get_or_404 provisioner_id st.provisioners id no_provisioner) _ q h in
    let (u, typed, k2) = >>=-done (require (eq_text r.connector_type t) 404 no_provisioner) _ q k in
    get_or_404-done provisioner_id st.provisioners id no_provisioner r e ∙ ap some (done_inj k2)

pub update_provisioner-IsConsistent :
    (i : ℕ) (st st' : Store) (id : ℕ) (connector_type : Text) (patch : ProvisionerPatch)
    (configure : Fields → Reply Fields) (q' : MachineProvisioner)
    → update_provisioner st id connector_type patch configure ≡ done (q', st')
    → IsConsistent i st
    → IsConsistent i st'
unfolding update_provisioner
update_provisioner-IsConsistent i st st' id connector_type patch configure q' h
      (all, pairs, keys, below) =
    let (q, e1, k1) = >>=-done (load_provisioner_of_type st id connector_type) _ (q', st') h in
    let (target, e2, k2) = >>=-done (ensure_new_platform st q patch.platform_id) _ (q', st') k1 in
    let (config, e3, k3) = >>=-done (configure (as_fields q.config)) _ (q', st') k2 in
    let at_id = load_provisioner_of_type-get st id connector_type q e1 in
    let found =
      subst (λ j. get provisioner_id st.provisioners j ≡ some q)
        (sym (get-key provisioner_id st.provisioners id q at_id)) at_id in
    let (n, c, after) =
      commit_provisioner-after i st st' q found q' target (dict config) (patched patch.name q.name)
        (patched patch.cron q.cron) k3 in
    subst (IsConsistent i) after (
      relocated-Placed i st st' q found target n c (dict config) st.providers all
          (ensure_new_platform-Follows st q patch.platform_id target e2),
      pairs,
      keys,
      below,
    )
