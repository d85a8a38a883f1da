-- ===== src/Api/Requests.antt =====
-- app/api/routes/platforms.py and routes/machines/: the requests that change the tables of
-- connectors, and what a sequence of them leaves
-- `preset_error` is the message of `resolve_mock_preset_path`, which reads the file system.
use washing.Prelude.{false, ℕ, Option, List, [], ◌∷◌, Text}
use washing.Security.{Json, Fields}
use washing.Api.Store.{Store, Reply, done, refused, raised, Patch}
use washing.Api.Providers.{
  NewProvider, ProviderPatch, create_prometheus_provider, create_dynatrace_provider,
  create_mock_provider, enable_provider, disable_provider, update_prometheus_provider,
  update_dynatrace_provider, update_mock_provider, delete_provider, attach_provider_provisioner,
  detach_provider_provisioner,
}
use washing.Api.Provisioners.{
  NewProvisioner, ProvisionerPatch, create_capsule_provisioner, create_dynatrace_provisioner,
  create_mock_provisioner, enable_provisioner, disable_provisioner, update_capsule_provisioner,
  update_dynatrace_provisioner, update_mock_provisioner, delete_provisioner,
}
use washing.Api.Platforms.{create_platform, update_platform, delete_platform}

pub data Request : Type 0 where
  post_platform : Text → Option Text → Json → Request
  patch_platform : ℕ → Patch Text → Patch Json → Request
  remove_platform : ℕ → Request
  post_prometheus_provider : NewProvider → Text → Text → Request
  post_dynatrace_provider : NewProvider → List ℕ → Text → Text → Request
  post_mock_provider : NewProvider → Request
  patch_prometheus_provider : ℕ → ProviderPatch → Option Text → Option Text → Request
  patch_dynatrace_provider : ℕ → ProviderPatch → Option Text → Option Text → Request
  patch_mock_provider : ℕ → ProviderPatch → Request
  turn_on_provider turn_off_provider remove_provider : ℕ → Request
  attach detach : ℕ → ℕ → Request
  post_capsule_provisioner : NewProvisioner → Text → Fields → Request
  post_dynatrace_provisioner : NewProvisioner → Text → Text → Request
  post_mock_provisioner : NewProvisioner → Text → Request
  patch_capsule_provisioner : ℕ → ProvisionerPatch → Option Text → Patch Fields → Request
  patch_dynatrace_provisioner : ℕ → ProvisionerPatch → Option Text → Option Text → Request
  patch_mock_provisioner : ℕ → ProvisionerPatch → Option Text → Request
  turn_on_provisioner turn_off_provisioner remove_provisioner : ℕ → Request

-- The tables after a reply: those of before, when the handler raised.
abbrev pub settled : Reply Store → Store → Store
settled (done st') st = st'
settled (refused status detail) st = st
settled raised st = st

abbrev pub settled_with : {A : Type 0} → Reply (A × Store) → Store → Store
settled_with (done (a, st')) st = st'
settled_with (refused status detail) st = st
settled_with raised st = st

module _ (preset_error : Text → Option Text) where
  unfoldable pub serve : Request → Store → Store
  unfolding create_platform update_platform delete_platform create_prometheus_provider
      create_dynatrace_provider create_mock_provider enable_provider disable_provider
      update_prometheus_provider update_dynatrace_provider update_mock_provider delete_provider
      attach_provider_provisioner detach_provider_provisioner create_capsule_provisioner
      create_dynatrace_provisioner create_mock_provisioner enable_provisioner disable_provisioner
      update_capsule_provisioner update_dynatrace_provisioner update_mock_provisioner
      delete_provisioner
  serve (post_platform name description extra) st =
      settled_with (create_platform st name description extra) st
  serve (patch_platform id description extra) st =
      settled_with (update_platform st id description extra) st
  serve (remove_platform id) st = settled (delete_platform st id) st
  serve (post_prometheus_provider new url query) st =
      settled_with (create_prometheus_provider st new url query) st
  serve (post_dynatrace_provider new ids url token) st =
      settled_with (create_dynatrace_provider st new ids url token) st
  serve (post_mock_provider new) st = settled_with (create_mock_provider st new) st
  serve (patch_prometheus_provider id patch url query) st =
      settled_with (update_prometheus_provider st id patch url query) st
  serve (patch_dynatrace_provider id patch url token) st =
      settled_with (update_dynatrace_provider st id patch url token) st
  serve (patch_mock_provider id patch) st = settled_with (update_mock_provider st id patch) st
  serve (turn_on_provider id) st = settled_with (enable_provider st id) st
  serve (turn_off_provider id) st = settled_with (disable_provider st id) st
  serve (remove_provider id) st = settled (delete_provider st id) st
  serve (attach id i) st = settled (attach_provider_provisioner false st id i) st
  serve (detach id i) st = settled (detach_provider_provisioner st id i) st
  serve (post_capsule_provisioner new token parameters) st =
      settled_with (create_capsule_provisioner st new token parameters) st
  serve (post_dynatrace_provisioner new url token) st =
      settled_with (create_dynatrace_provisioner st new url token) st
  serve (post_mock_provisioner new preset) st =
      settled_with (create_mock_provisioner preset_error st new preset) st
  serve (patch_capsule_provisioner id patch token parameters) st =
      settled_with (update_capsule_provisioner st id patch token parameters) st
  serve (patch_dynatrace_provisioner id patch url token) st =
      settled_with (update_dynatrace_provisioner st id patch url token) st
  serve (patch_mock_provisioner id patch preset) st =
      settled_with (update_mock_provisioner preset_error st id patch preset) st
  serve (turn_on_provisioner id) st = settled_with (enable_provisioner st id) st
  serve (turn_off_provisioner id) st = settled_with (disable_provisioner st id) st
  serve (remove_provisioner id) st = settled (delete_provisioner st id) st

  -- The requests in the order of their commits.
  unfoldable pub serve_all : List Request → Store → Store
  unfolding serve
  serve_all [] st = st
  serve_all (r ∷ rs) st = serve_all rs (serve r st)
