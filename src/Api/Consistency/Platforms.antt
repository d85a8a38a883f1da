-- ===== src/Api/Consistency/Platforms.antt =====
-- The deletion of a platform keeps the links of app/api/routes/.
use mathlib.Core.Path.{subst}
use washing.Prelude.{
  ℕ, ◌<◌, ◌≡◌, ◌==◌, inl, inr, refl, sym, Bool, true, not, List, [], ◌∷◌, keep_if, All, Bool-cases,
}
use washing.Db.{MachineProvisioner, MachineProvider, elem_id}
use washing.Api.Store.{Store, done, get_or_404}
use washing.Api.Providers.{provider_id, platform_id, no_platform}
use washing.Api.Platforms.{delete_platform, provisioners_of, drop_provisioners}
use washing.Api.Consistency.Tables.{All-map, All-keep_if, Pairwise-map, Pairwise-keep_if}
use washing.Api.Consistency.Keys.{keys-map, keys-keep_if}
use washing.Api.Consistency.Links.{
  IsConsistent, Apart, Placed, Shrinks, shrinks, Shrinks-Apart, elem-keep_if,
}
use washing.Api.Consistency.Guards.{>>=-done, done_inj}
use washing.Api.Consistency.Provisioners.{kept-Placed}

module _ (i : ℕ) (st st' : Store) where
  pub delete_platform-IsConsistent :
      (id : ℕ) → delete_platform st id ≡ done st' → IsConsistent i st → IsConsistent i st'
  unfolding delete_platform
  delete_platform-IsConsistent id h (all, pairs, keys, below) =
      let (p, e, k) = >>=-done (get_or_404 platform_id st.platforms id no_platform) _ st' h in
      subst (IsConsistent i) (done_inj k) (
        All-map (Placed i kept_provisioners) drop kept (placed st.providers all),
        Pairwise-map (Apart i) drop kept
            (λ p r. Shrinks-Apart i p (drop p) r (drop r) (less p) (less r))
            (Pairwise-keep_if (Apart i) stays st.providers pairs),
        keys-map provider_id drop (λ p. refl) kept
            (keys-keep_if provider_id stays st.providers keys),
        All-map (λ p. p.id < st.next_provider_id) drop kept
            (All-keep_if (λ p. p.id < st.next_provider_id) stays st.providers below),
      )
    where
      drop : MachineProvider → MachineProvider
      drop = drop_provisioners (provisioners_of id st.provisioners)

      stays : MachineProvider → Bool
      stays p = not (p.platform_id == id)

      kept : List MachineProvider
      kept = keep_if stays st.providers

      remains : MachineProvisioner → Bool
      remains q = not (q.platform_id == id)

      kept_provisioners : List MachineProvisioner
      kept_provisioners = keep_if remains st.provisioners

      less : (p : MachineProvider) → Shrinks i p (drop p)
      less p = shrinks refl refl refl (
          elem-keep_if i (λ j. not (elem_id j (provisioners_of id st.provisioners)))
            p.provisioner_ids)

      placed :
          (ps : List MachineProvider)
          → All (Placed i st.provisioners) ps
          → All (λ p. Placed i kept_provisioners (drop p)) (keep_if stays ps)
      placed [] all = tt
      placed (p ∷ ps) all = elim (Bool-cases (stays p)) [
        | inr e ↦ rw e (placed ps all.1)
        | inl e ↦ rw e (
          kept-Placed i remains st.provisioners p (drop p) (less p) all.0
              (λ q found on. inl (subst (λ n. not (n == id) ≡ true) (sym on) e)),
          placed ps all.1,
        )
      ]
