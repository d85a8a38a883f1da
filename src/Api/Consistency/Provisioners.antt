-- ===== src/Api/Consistency/Provisioners.antt =====
-- The routes that change provisioners keep the links of app/api/routes/.
use mathlib.Core.Path.{subst}
use washing.Prelude.{
  ℕ, ◌<◌, ◌≡◌, ◌==◌, ◌⊎◌, ==_iff, inl, inr, refl, sym, ap, ◌∙◌, Bool, true, false, not, some, List,
  [], ◌∷◌, ◌++◌, keep_if, All, Text, arith, Bool-cases,
}
use washing.Security.{Fields}
use washing.Db.{MachineProvisioner, MachineProvider, get, remove, update, get-update, elem_id}
use washing.Api.Store.{Store, done, require, get_or_404, provisioner_name_taken}
use washing.Api.Providers.{provider_id, provisioner_id, drop_provisioner}
use washing.Api.Provisioners.{
  no_provisioner, NewProvisioner, provisioner_row, add_provisioner, provisioner_exists,
  put_provisioner, set_provisioner_enabled, enable_provisioner, disable_provisioner,
  delete_provisioner,
}
use washing.Api.Consistency.Tables.{All-imp, All-map, Pairwise-map, get-snoc, get-key, get-keep_if}
use washing.Api.Consistency.Keys.{keys-map}
use washing.Api.Consistency.Links.{
  IsConsistent, Apart, Placed, Shrinks, shrinks, Shrinks-Apart, elem-keep_if,
}
use washing.Api.Consistency.Guards.{>>=-done, done_inj}

elem-dropped : (i : ℕ) (ids : List ℕ) → elem_id i (keep_if (λ j. not (j == i)) ids) ≡ false
elem-dropped i [] = refl
elem-dropped i (j ∷ ids) = elim (Bool-cases (j == i)) [
  | inl e ↦ rw e (elem-dropped i ids)
  | inr e ↦ rw (e, e) (elem-dropped i ids)
]

module _ (i : ℕ) where
  -- The row of the provisioner is still found, and on the platforms of the providers that have it.
  replaced :
      (qs qs' : List MachineProvisioner) (ps : List MachineProvider)
      → ((p : MachineProvider) → Placed i qs p → Placed i qs' p)
      → All (Placed i qs) ps
      → All (Placed i qs') ps
  replaced qs qs' ps up h = All-imp (Placed i qs) (Placed i qs') ps h up

  snoc-Placed :
      (qs : List MachineProvisioner) (q : MachineProvisioner) (p : MachineProvider)
      → Placed i qs p
      → Placed i (qs ++ (q ∷ [])) p
  snoc-Placed qs q p (inl h) = inl h
  snoc-Placed qs q p (inr (r, found, on)) = inr (r, get-snoc provisioner_id qs i r q found, on)

  pub kept-Placed :
      (t : MachineProvisioner → Bool) (qs : List MachineProvisioner) (p p' : MachineProvider)
      → Shrinks i p p'
      → Placed i qs p
      → ((q : MachineProvisioner)
          → get provisioner_id qs i ≡ some q
          → q.platform_id ≡ p.platform_id
          → (t q ≡ true) ⊎ (elem_id i p'.provisioner_ids ≡ false))
      → Placed i (keep_if t qs) p'
  kept-Placed t qs p p' (shrinks a b c (inl h)) placed stays = inl h
  kept-Placed t qs p p' (shrinks a b c (inr h)) (inl k) stays = absurd (ground (arith, h, k))
  kept-Placed t qs p p' (shrinks a b c (inr h)) (inr (q, found, on)) stays =
      elim (stays q found on) [
        | inl keep ↦ inr (q, get-keep_if provisioner_id t qs i q found keep, on ∙ sym b)
        | inr off ↦ inl off
      ]

  module _ (f : MachineProvisioner → MachineProvisioner)
      (keeps : (q : MachineProvisioner) → (f q).id ≡ q.id) where
    pub update-Placed :
        (qs : List MachineProvisioner) (id : ℕ) (p : MachineProvider)
        → ((q : MachineProvisioner)
            → id ≡ i
            → get provisioner_id qs i ≡ some q
            → q.platform_id ≡ p.platform_id
            → elem_id i p.provisioner_ids ≡ true
            → (f q).platform_id ≡ p.platform_id)
        → Placed i qs p
        → Placed i (update provisioner_id id f qs) p
    update-Placed qs id p stays (inl h) = inl h
    update-Placed qs id p stays (inr (q, found, on)) =
        elim (Bool-cases (elem_id i p.provisioner_ids)) [
          | inr off ↦ inl off
          | inl m ↦ elim (Bool-cases (id == i)) [
            | inr e ↦ inr (q, rw (get-update provisioner_id f id i qs keeps, e) found, on)
            | inl e ↦ inr (
              f q,
              rw (get-update provisioner_id f id i qs keeps, e, found) refl,
              stays q ((==_iff id i).0 e) found on m,
            )
          ]
        ]

module _ (i : ℕ) (st st' : Store) where
  pub add_provisioner-IsConsistent :
      (connector_type : Text) (config : Fields) (new : NewProvisioner) (q : MachineProvisioner)
      → add_provisioner st connector_type config new ≡ done (q, st')
      → IsConsistent i st
      → IsConsistent i st'
  unfolding add_provisioner
  add_provisioner-IsConsistent connector_type config new q h (all, pairs, keys, below) =
      let row = provisioner_row st.next_provisioner_id connector_type config new in
      let (u, e, k) =
        >>=-done
          (require (not (provisioner_name_taken st.provisioners row.id row.platform_id row.name))
            409 provisioner_exists)
          _ (q, st') h in
      subst (IsConsistent i) (ap (λ r. r.1) (done_inj k)) (
        replaced i st.provisioners (st.provisioners ++ (row ∷ [])) st.providers
            (snoc-Placed i st.provisioners row) all,
        pairs,
        keys,
        below,
      )

  put_enabled :
      (b : Bool) (id : ℕ)
      → IsConsistent i st
      → IsConsistent i (put_provisioner st (set_provisioner_enabled b) id)
  put_enabled b id (all, pairs, keys, below) = (
    replaced i st.provisioners
        (update provisioner_id id (set_provisioner_enabled b) st.provisioners) st.providers
        (λ p.
          update-Placed i (set_provisioner_enabled b) (λ q. refl) st.provisioners id p
            (λ q e found on m. on))
        all,
    pairs,
    keys,
    below,
  )

  pub enable_provisioner-IsConsistent :
      (id : ℕ) (q' : MachineProvisioner)
      → enable_provisioner st id ≡ done (q', st')
      → IsConsistent i st
      → IsConsistent i st'
  unfolding enable_provisioner
  enable_provisioner-IsConsistent id q' h good =
      let (q, e, k) =
        >>=-done (get_or_404 provisioner_id st.provisioners id no_provisioner) _ (q', st') h in
      subst (IsConsistent i) (ap (λ r. r.1) (done_inj k)) (put_enabled true id good)

  pub disable_provisioner-IsConsistent :
      (id : ℕ) (q' : MachineProvisioner)
      → disable_provisioner st id ≡ done (q', st')
      → IsConsistent i st
      → IsConsistent i st'
  unfolding disable_provisioner
  disable_provisioner-IsConsistent id q' h good =
      let (q, e, k) =
        >>=-done (get_or_404 provisioner_id st.provisioners id no_provisioner) _ (q', st') h in
      subst (IsConsistent i) (ap (λ r. r.1) (done_inj k)) (put_enabled false id good)

  pub delete_provisioner-IsConsistent :
      (id : ℕ) → delete_provisioner st id ≡ done st' → IsConsistent i st → IsConsistent i st'
  unfolding delete_provisioner remove
  delete_provisioner-IsConsistent id h (all, pairs, keys, below) =
      let (q, e, k) =
        >>=-done (get_or_404 provisioner_id st.provisioners id no_provisioner) _ st' h in
      subst (IsConsistent i) (done_inj k) (
        All-map (Placed i (remove provisioner_id id st.provisioners)) (drop_provisioner id)
            st.providers
            (All-imp (Placed i st.provisioners)
              (λ p. Placed i (remove provisioner_id id st.provisioners) (drop_provisioner id p))
              st.providers all
              (λ p h.
                kept-Placed i (λ q. not (q.id == id)) st.provisioners p (drop_provisioner id p)
                  (less id p) h (gone id p))),
        Pairwise-map (Apart i) (drop_provisioner id) st.providers
            (λ p r.
              Shrinks-Apart i p (drop_provisioner id p) r (drop_provisioner id r) (less id p)
                (less id r))
            pairs,
        keys-map provider_id (drop_provisioner id) (λ p. refl) st.providers keys,
        All-map (λ p. p.id < st.next_provider_id) (drop_provisioner id) st.providers below,
      )
    where
      less : (id : ℕ) (p : MachineProvider) → Shrinks i p (drop_provisioner id p)
      less id p = shrinks refl refl refl (elem-keep_if i (λ j. not (j == id)) p.provisioner_ids)

      gone :
          (id : ℕ) (p : MachineProvider) (q : MachineProvisioner)
          → get provisioner_id st.provisioners i ≡ some q
          → q.platform_id ≡ p.platform_id
          → (not (q.id == id) ≡ true) ⊎ (elem_id i (drop_provisioner id p).provisioner_ids ≡ false)
      gone id p q found on = elim (Bool-cases (i == id)) [
        | inl e ↦ inr (
            subst (λ k. elem_id i (keep_if (λ j. not (j == k)) p.provisioner_ids) ≡ false)
              ((==_iff i id).0 e) (elem-dropped i p.provisioner_ids))
        | inr e ↦ inl (
            subst (λ k. not (k == id) ≡ true)
              (sym (get-key provisioner_id st.provisioners i q found)) (rw e))
      ]
