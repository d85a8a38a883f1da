-- ===== src/Api/Consistency/Histories.antt =====
-- Whatever requests arrive, the links between providers and provisioners stay as app/api/routes/
-- means them.
use mathlib.Core.Path.{subst}
use washing.Prelude.{false, ℕ, ◌≡◌, refl, ap, not, Option, List, [], ◌∷◌, Text, codes}
use washing.Security.{Json, Fields, str, dict, end, field}
use washing.Db.{Platform, MachineProvisioner}
use washing.Api.Store.{
  with_config, Store, Reply, done, refused, raised, Patch, get_or_404, require, platform_name_taken,
}
use washing.Api.Providers.{
  given, prometheus_config, dynatrace_config, update_prometheus_provider, update_dynatrace_provider,
  update_mock_provider, platform_id, no_platform,
}
use washing.Api.Provisioners.{
  with_parameters, with_preset, NewProvisioner, create_capsule_provisioner,
  create_dynatrace_provisioner, create_mock_provisioner, update_capsule_provisioner,
  update_dynatrace_provisioner, update_mock_provisioner, valid_preset,
}
use washing.Api.Platforms.{create_platform, update_platform}
use washing.Api.Requests.{
  Request, post_platform, patch_platform, remove_platform, post_prometheus_provider,
  post_dynatrace_provider, post_mock_provider, patch_prometheus_provider, patch_dynatrace_provider,
  patch_mock_provider, turn_on_provider, turn_off_provider, remove_provider, attach, detach,
  post_capsule_provisioner, post_dynatrace_provisioner, post_mock_provisioner,
  patch_capsule_provisioner, patch_dynatrace_provisioner, patch_mock_provisioner,
  turn_on_provisioner, turn_off_provisioner, remove_provisioner, settled, settled_with, serve,
  serve_all,
}
use washing.Api.Consistency.Links.{IsConsistent}
use washing.Api.Consistency.Guards.{>>=-done, done_inj}
use washing.Api.Consistency.Created.{
  create_prometheus_provider-IsConsistent, create_dynatrace_provider-IsConsistent,
  create_mock_provider-IsConsistent,
}
use washing.Api.Consistency.Changed.{update_provider-IsConsistent, delete_provider-IsConsistent}
use washing.Api.Consistency.Attached.{
  enable_provider-IsConsistent, disable_provider-IsConsistent,
  attach_provider_provisioner-IsConsistent, detach_provider_provisioner-IsConsistent,
}
use washing.Api.Consistency.Provisioners.{
  add_provisioner-IsConsistent, enable_provisioner-IsConsistent, disable_provisioner-IsConsistent,
  delete_provisioner-IsConsistent,
}
use washing.Api.Consistency.Relocated.{update_provisioner-IsConsistent}
use washing.Api.Consistency.Platforms.{delete_platform-IsConsistent}

module _ (i : ℕ) (st : Store) (good : IsConsistent i st) where
  settled-IsConsistent :
      (r : Reply Store)
      → ((st' : Store) → r ≡ done st' → IsConsistent i st → IsConsistent i st')
      → IsConsistent i (settled r st)
  settled-IsConsistent (done st') keeps = keeps st' refl good
  settled-IsConsistent (refused status detail) keeps = good
  settled-IsConsistent raised keeps = good

  settled_with-IsConsistent :
      {A : Type 0} (r : Reply (A × Store))
      → ((st' : Store) (a : A) → r ≡ done (a, st') → IsConsistent i st → IsConsistent i st')
      → IsConsistent i (settled_with r st)
  settled_with-IsConsistent (done (a, st')) keeps = keeps st' a refl good
  settled_with-IsConsistent (refused status detail) keeps = good
  settled_with-IsConsistent raised keeps = good

module _ (i : ℕ) (st st' : Store) where
  create_platform-IsConsistent :
      (name : Text) (description : Option Text) (extra : Json) (p : Platform)
      → create_platform st name description extra ≡ done (p, st')
      → IsConsistent i st
      → IsConsistent i st'
  unfolding create_platform
  create_platform-IsConsistent name description extra p h (all, pairs, keys, below) =
      let (u, e, k) =
        >>=-done
          (require (not (platform_name_taken st.platforms name)) 409
            (codes "platform name already exists"))
          _ (p, st') h in
      subst (IsConsistent i) (ap (λ r. r.1) (done_inj k)) (all, pairs, keys, below)

  update_platform-IsConsistent :
      (id : ℕ) (description : Patch Text) (extra : Patch Json) (p : Platform)
      → update_platform st id description extra ≡ done (p, st')
      → IsConsistent i st
      → IsConsistent i st'
  unfolding update_platform
  update_platform-IsConsistent id description extra p h (all, pairs, keys, below) =
      let (q, e, k) = >>=-done (get_or_404 platform_id st.platforms id no_platform) _ (p, st') h in
      subst (IsConsistent i) (ap (λ r. r.1) (done_inj k)) (all, pairs, keys, below)

  create_capsule_provisioner-IsConsistent :
      (new : NewProvisioner) (token : Text) (parameters : Fields) (q : MachineProvisioner)
      → create_capsule_provisioner st new token parameters ≡ done (q, st')
      → IsConsistent i st
      → IsConsistent i st'
  unfolding create_capsule_provisioner
  create_capsule_provisioner-IsConsistent new token parameters q h good =
      let (p, e, k) =
        >>=-done (get_or_404 platform_id st.platforms new.platform_id no_platform) _ (q, st') h in
      add_provisioner-IsConsistent i st st' (codes "capsule")
        (field (codes "token") (str token) (field (codes "parameters") (dict parameters) end)) new q
        k good

  create_dynatrace_provisioner-IsConsistent :
      (new : NewProvisioner) (url token : Text) (q : MachineProvisioner)
      → create_dynatrace_provisioner st new url token ≡ done (q, st')
      → IsConsistent i st
      → IsConsistent i st'
  unfolding create_dynatrace_provisioner
  create_dynatrace_provisioner-IsConsistent new url token q h good =
      let (p, e, k) =
        >>=-done (get_or_404 platform_id st.platforms new.platform_id no_platform) _ (q, st') h in
      add_provisioner-IsConsistent i st st' (codes "dynatrace")
        (field (codes "url") (str url) (field (codes "token") (str token) end)) new q k good

  create_mock_provisioner-IsConsistent :
      (preset_error : Text → Option Text) (new : NewProvisioner) (preset : Text)
      (q : MachineProvisioner)
      → create_mock_provisioner preset_error st new preset ≡ done (q, st')
      → IsConsistent i st
      → IsConsistent i st'
  unfolding create_mock_provisioner
  create_mock_provisioner-IsConsistent preset_error new preset q h good =
      let (p, e, k) =
        >>=-done (get_or_404 platform_id st.platforms new.platform_id no_platform) _ (q, st') h in
      let (v, e2, k2) = >>=-done (valid_preset (preset_error preset) preset) _ (q, st') k in
      add_provisioner-IsConsistent i st st' (codes "mock") (field (codes "preset") (str v) end) new
        q k2 good

module _ (preset_error : Text → Option Text) (i : ℕ) where
  serve-IsConsistent :
      (r : Request) (st : Store) → IsConsistent i st → IsConsistent i (serve preset_error r st)
  unfolding serve update_prometheus_provider update_dynatrace_provider update_mock_provider
      update_capsule_provisioner update_dynatrace_provisioner update_mock_provisioner
  serve-IsConsistent (post_platform name description extra) st good =
      settled_with-IsConsistent i st good _
        (λ st' p. create_platform-IsConsistent i st st' name description extra p)
  serve-IsConsistent (patch_platform id description extra) st good =
      settled_with-IsConsistent i st good _
        (λ st' p. update_platform-IsConsistent i st st' id description extra p)
  serve-IsConsistent (remove_platform id) st good =
      settled-IsConsistent i st good _ (λ st'. delete_platform-IsConsistent i st st' id)
  serve-IsConsistent (post_prometheus_provider new url query) st good =
      settled_with-IsConsistent i st good _
        (λ st' p. create_prometheus_provider-IsConsistent i st st' p new url query)
  serve-IsConsistent (post_dynatrace_provider new ids url token) st good =
      settled_with-IsConsistent i st good _
        (λ st' p. create_dynatrace_provider-IsConsistent i st st' p new ids url token)
  serve-IsConsistent (post_mock_provider new) st good =
      settled_with-IsConsistent i st good _
        (λ st' p. create_mock_provider-IsConsistent i st st' p new)
  serve-IsConsistent (patch_prometheus_provider id patch url query) st good =
      settled_with-IsConsistent i st good (update_prometheus_provider st id patch url query)
        (λ st' p.
          update_provider-IsConsistent i st st' id (codes "prometheus") patch
            (prometheus_config url query) p)
  serve-IsConsistent (patch_dynatrace_provider id patch url token) st good =
      settled_with-IsConsistent i st good (update_dynatrace_provider st id patch url token)
        (λ st' p.
          update_provider-IsConsistent i st st' id (codes "dynatrace") patch
            (dynatrace_config url token) p)
  serve-IsConsistent (patch_mock_provider id patch) st good =
      settled_with-IsConsistent i st good (update_mock_provider st id patch) (λ st' p.
        update_provider-IsConsistent i st st' id (codes "mock_metric") patch (λ config. config) p)
  serve-IsConsistent (turn_on_provider id) st good =
      settled_with-IsConsistent i st good _ (λ st' p. enable_provider-IsConsistent i st st' id p)
  serve-IsConsistent (turn_off_provider id) st good =
      settled_with-IsConsistent i st good _ (λ st' p. disable_provider-IsConsistent i st st' id p)
  serve-IsConsistent (remove_provider id) st good =
      settled-IsConsistent i st good _ (λ st'. delete_provider-IsConsistent i st st' id)
  serve-IsConsistent (attach id j) st good =
      settled-IsConsistent i st good _
        (λ st'. attach_provider_provisioner-IsConsistent i st st' false id j)
  serve-IsConsistent (detach id j) st good =
      settled-IsConsistent i st good _
        (λ st'. detach_provider_provisioner-IsConsistent i st st' id j)
  serve-IsConsistent (post_capsule_provisioner new token parameters) st good =
      settled_with-IsConsistent i st good _
        (λ st' q. create_capsule_provisioner-IsConsistent i st st' new token parameters q)
  serve-IsConsistent (post_dynatrace_provisioner new url token) st good =
      settled_with-IsConsistent i st good _
        (λ st' q. create_dynatrace_provisioner-IsConsistent i st st' new url token q)
  serve-IsConsistent (post_mock_provisioner new preset) st good =
      settled_with-IsConsistent i st good _
        (λ st' q. create_mock_provisioner-IsConsistent i st st' preset_error new preset q)
  serve-IsConsistent (patch_capsule_provisioner id patch token parameters) st good =
      settled_with-IsConsistent i st good (update_capsule_provisioner st id patch token parameters)
        (λ st' q.
          update_provisioner-IsConsistent i st st' id (codes "capsule") patch
            (λ config.
              done (with_parameters parameters (with_config (codes "token") (given token) config)))
            q)
  serve-IsConsistent (patch_dynatrace_provisioner id patch url token) st good =
      settled_with-IsConsistent i st good (update_dynatrace_provisioner st id patch url token)
        (λ st' q.
          update_provisioner-IsConsistent i st st' id (codes "dynatrace") patch
            (λ config. done (dynatrace_config url token config)) q)
  serve-IsConsistent (patch_mock_provisioner id patch preset) st good =
      settled_with-IsConsistent i st good (update_mock_provisioner preset_error st id patch preset)
        (λ st' q.
          update_provisioner-IsConsistent i st st' id (codes "mock") patch
            (with_preset preset_error preset) q)
  serve-IsConsistent (turn_on_provisioner id) st good =
      settled_with-IsConsistent i st good _ (λ st' q. enable_provisioner-IsConsistent i st st' id q)
  serve-IsConsistent (turn_off_provisioner id) st good =
      settled_with-IsConsistent i st good _
        (λ st' q. disable_provisioner-IsConsistent i st st' id q)
  serve-IsConsistent (remove_provisioner id) st good =
      settled-IsConsistent i st good _ (λ st'. delete_provisioner-IsConsistent i st st' id)

  -- Whatever requests arrive to create, change, delete, attach or detach providers, provisioners and
  -- platforms, one commit after another: if before them no two providers of one scope have
  -- provisioner i attached, and each provider that has it is on its platform, then so it is after
  -- them; the ids of providers stay distinct and below the sequence.
  pub serve_all-IsConsistent :
      (requests : List Request) (st : Store)
      → IsConsistent i st
      → IsConsistent i (serve_all preset_error requests st)
  unfolding serve_all
  serve_all-IsConsistent [] st good = good
  serve_all-IsConsistent (r ∷ rs) st good =
      serve_all-IsConsistent rs (serve preset_error r st) (serve-IsConsistent r st good)
