-- ===== src/Api/Consistency/Attached.antt =====
-- The routes that enable, attach and detach keep the links of app/api/routes/.
use mathlib.Core.Path.{subst}
use washing.Prelude.{
  ℕ, ◌≡◌, ◌==◌, ◌⊎◌, ==_iff, inl, inr, refl, ap, ◌∙◌, Bool, true, false, not, ◌||◌, some, codes,
  arith, Bool-cases,
}
use washing.Db.{MachineProvisioner, MachineProvider, get, elem_id}
use washing.Api.Store.{Store, done, require, get_or_404}
use washing.Api.Providers.{
  provider_id, provisioner_id, load_provider, ensure_no_conflict, not_same_platform, put_provider,
  set_provider_enabled, enable_provider, disable_provider, append_provisioner, drop_provisioner,
  association_exists, load_pair, attach_provider_provisioner, detach_provider_provisioner,
}
use washing.Api.Consistency.Tables.{All-imp, get-key}
use washing.Api.Consistency.Links.{
  elem-keep_if, elem-snoc, false_or_true, IsConsistent, Apart, eq_scope-sym, shrinks,
  put-IsConsistent, shrink-IsConsistent,
}
use washing.Api.Consistency.Guards.{
  >>=-done, done_inj, require-done, get_or_404-done, IsFree, ensure_no_conflict-IsFree, serves,
  free-Others,
}
use washing.Api.Consistency.Targets.{load_provider-get}

load_pair-get :
    (st : Store) (id j : ℕ) (p : MachineProvider)
    → load_pair st id j ≡ done p
    → (get provider_id st.providers id ≡ some p)
      × ((q : MachineProvisioner) × (get provisioner_id st.provisioners j ≡ some q)
          × (q.platform_id ≡ p.platform_id))
unfolding load_pair
load_pair-get st id j p h =
    let detail = codes "provisioner not found" in
    let (r, e, k) = >>=-done (load_provider st id) _ p h in
    let (q, e2, k2) = >>=-done (get_or_404 provisioner_id st.provisioners j detail) _ p k in
    let (u, on, k3) =
      >>=-done (require (q.platform_id == r.platform_id) 400 not_same_platform) _ p k2 in
    let same : r ≡ p = done_inj k3 in
    (
      load_provider-get st id r e ∙ ap some same,
      (
        q,
        get_or_404-done provisioner_id st.provisioners j detail q e2,
        (==_iff q.platform_id r.platform_id).0
              (require-done (q.platform_id == r.platform_id) 400 not_same_platform u on)
            ∙ ap (λ r. r.platform_id) same,
      ),
    )

false_or_same : (b : Bool) → ((b || false) ≡ false) ⊎ (b ≡ true)
false_or_same true = inr refl
false_or_same false = inl refl

module _ (i : ℕ) (st st' : Store) where
  set_enabled-IsConsistent :
      (b : Bool) (id : ℕ) (p : MachineProvider)
      → load_provider st id ≡ done p
      → IsConsistent i st
      → IsConsistent i (put_provider st (set_provider_enabled b) id)
  set_enabled-IsConsistent b id p e good =
      shrink-IsConsistent i st id (set_provider_enabled b) p (λ r. refl)
        (load_provider-get st id p e)
        (shrinks refl refl refl (false_or_true (elem_id i p.provisioner_ids))) good

  pub enable_provider-IsConsistent :
      (id : ℕ) (p' : MachineProvider)
      → enable_provider st id ≡ done (p', st')
      → IsConsistent i st
      → IsConsistent i st'
  unfolding enable_provider
  enable_provider-IsConsistent id p' h good =
      let (p, e, k) = >>=-done (load_provider st id) _ (p', st') h in
      subst (IsConsistent i) (ap (λ r. r.1) (done_inj k))
        (set_enabled-IsConsistent true id p e good)

  pub disable_provider-IsConsistent :
      (id : ℕ) (p' : MachineProvider)
      → disable_provider st id ≡ done (p', st')
      → IsConsistent i st
      → IsConsistent i st'
  unfolding disable_provider
  disable_provider-IsConsistent id p' h good =
      let (p, e, k) = >>=-done (load_provider st id) _ (p', st') h in
      subst (IsConsistent i) (ap (λ r. r.1) (done_inj k))
        (set_enabled-IsConsistent false id p e good)

  pub detach_provider_provisioner-IsConsistent :
      (id j : ℕ)
      → detach_provider_provisioner st id j ≡ done st'
      → IsConsistent i st
      → IsConsistent i st'
  unfolding detach_provider_provisioner
  detach_provider_provisioner-IsConsistent id j h good =
      let (p, e, k) = >>=-done (load_pair st id j) _ st' h in
      elim (Bool-cases (elem_id j p.provisioner_ids)) [
        | inr off ↦ subst (IsConsistent i) (done_inj (rw off at k)) good
        | inl on ↦ subst (IsConsistent i) (done_inj (rw on at k)) (
            shrink-IsConsistent i st id (drop_provisioner j) p (λ r. refl)
              (load_pair-get st id j p e).0
              (shrinks refl refl refl (elem-keep_if i (λ k. not (k == j)) p.provisioner_ids)) good)
      ]

  serves-Apart :
      (j : ℕ) (p r : MachineProvider)
      → serves i p.scope r ≡ false
      → Apart i (append_provisioner j p) r
  serves-Apart j p r x = rw (eq_scope-sym p.scope r.scope) (ground (arith, x))

  -- A provider gets one more provisioner, which is on its platform and free for its scope.
  append-IsConsistent :
      (id j : ℕ) (p : MachineProvider)
      → load_pair st id j ≡ done p
      → IsFree st.providers p.scope (some p.id) j
      → IsConsistent i st
      → IsConsistent i (put_provider st (append_provisioner j) id)
  append-IsConsistent id j p e free good =
      let (found, (q, at, on)) = load_pair-get st id j p e in
      elim (Bool-cases (j == i)) [
        | inr other ↦
            shrink-IsConsistent i st id (append_provisioner j) p (λ r. refl) found
              (shrinks refl refl refl (
                rw (elem-snoc i j p.provisioner_ids, other)
                  (false_or_same (elem_id i p.provisioner_ids))))
              good
        | inl same ↦
            let eq : j ≡ i = (==_iff j i).0 same in
            put-IsConsistent i st id (append_provisioner j) p (λ r. refl) found
              (inr (q, subst (λ k. get provisioner_id st.provisioners k ≡ some q) eq at, on))
              (All-imp (λ r. ((r.id == p.id) ≡ true) ⊎ (serves j p.scope r ≡ false))
                (λ r. ((r.id == id) ≡ true) ⊎ Apart i (append_provisioner j p) r) st.providers
                (free-Others st.providers p.scope p.id j free)
                (λ r a. elim a [
                  | inl x ↦ inl (
                      subst (λ n. (r.id == n) ≡ true) (get-key provider_id st.providers id p found)
                        x)
                  | inr x ↦ inr (serves-Apart j p r (subst (λ k. serves k p.scope r ≡ false) eq x))
                ]))
              good
      ]

  pub attach_provider_provisioner-IsConsistent :
      (raced : Bool) (id j : ℕ)
      → attach_provider_provisioner raced st id j ≡ done st'
      → IsConsistent i st
      → IsConsistent i st'
  unfolding attach_provider_provisioner
  attach_provider_provisioner-IsConsistent raced id j h good =
      let (p, e, k) = >>=-done (load_pair st id j) _ st' h in
      elim (Bool-cases (elem_id j p.provisioner_ids)) [
        | inl on ↦ subst (IsConsistent i) (done_inj (rw on at k)) good
        | inr off ↦
            let (u, free, k2) =
              >>=-done (ensure_no_conflict st p.scope (some p.id) j) _ st' (rw off at k) in
            let (v, free_key, k3) =
              >>=-done (require (not raced) 409 association_exists) _ st' k2 in
            subst (IsConsistent i) (done_inj k3) (
              append-IsConsistent id j p e
                (ensure_no_conflict-IsFree st p.scope (some p.id) j u free) good)
      ]
