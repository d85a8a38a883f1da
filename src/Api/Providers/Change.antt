-- ===== src/Api/Providers/Change.antt =====
-- app/api/routes/machines/providers.py and mock_providers.py, the routes that change one provider
use washing.Prelude.{
  ℕ, ◌==◌, keep_if, Bool, true, false, not, Option, none, some, [], ◌∷◌, ◌++◌, Text, codes,
  if◌then◌else◌,
}
use washing.Security.{Json, Fields, str, dict}
use washing.Db.{MachineProvider, ScopeName, remove, update, elem_id}
use washing.Api.Store.{
  Store, Reply, done, refused, ◌>>=◌, ◌>>◌, require, get_or_404, Patch, unset, null, to, patched,
  with_config, as_fields, rows_of, provider_name_taken,
}
use washing.Api.Providers.Guards.{
  ensure_no_conflict, ensure_platform_matches, ensure_scope_matches, load_provider,
  load_provider_of_type, no_platform, platform_id, provider_exists, provider_id, provisioner_id,
}

-- The row as it is committed under its id.
abbrev pub put_provider : Store → (MachineProvider → MachineProvider) → ℕ → Store
put_provider st f id = record st { providers = update provider_id id f st.providers }

abbrev pub set_provider_enabled : Bool → MachineProvider → MachineProvider
set_provider_enabled b p = record p { enabled = b }

-- `enable_provider` and `disable_provider`
unfoldable pub enable_provider : Store → ℕ → Reply (MachineProvider × Store)
unfolding load_provider
enable_provider st id = do
  p ← load_provider st id
  done (set_provider_enabled true p, put_provider st (set_provider_enabled true) id)

unfoldable pub disable_provider : Store → ℕ → Reply (MachineProvider × Store)
unfolding load_provider
disable_provider st id = do
  p ← load_provider st id
  done (set_provider_enabled false p, put_provider st (set_provider_enabled false) id)

-- The fields of a PATCH that every type of provider shares. A scope that is null is not applied.
pub record ProviderPatch : Type 0 where
  pub platform_id : Patch ℕ
  pub name : Patch Text
  pub scope : Option ScopeName

-- `db.get(Platform, None)` finds no row.
unfoldable pub ensure_target_platform : Store → MachineProvider → Patch ℕ → Reply ℕ
unfolding get_or_404 ensure_platform_matches
ensure_target_platform st p unset = done p.platform_id
ensure_target_platform st p null = refused 404 no_platform
ensure_target_platform st p (to platform) = do
  _ ← get_or_404 platform_id st.platforms platform no_platform
  ensure_platform_matches platform (rows_of provisioner_id st.provisioners p.provisioner_ids)
  done platform

unfoldable pub ensure_target_scope : Store → MachineProvider → Option ScopeName → Reply ScopeName
unfolding ensure_scope_matches
ensure_target_scope st p none = done p.scope
ensure_target_scope st p (some scope) = do
  ensure_scope_matches st scope p.id (rows_of provisioner_id st.provisioners p.provisioner_ids)
  done scope

abbrev pub moved : ℕ → Text → ScopeName → Json → MachineProvider → MachineProvider
moved platform name scope config p = record p {
  platform_id = platform;
  name = name;
  scope = scope;
  config = config;
}

-- `commit_or_409` of an update: the name is null, taken, or stored.
unfoldable pub commit_provider :
    Store → MachineProvider → ℕ → ScopeName → Json → Option Text → Reply (MachineProvider × Store)
unfolding provider_name_taken
commit_provider st p platform scope config none = refused 409 provider_exists
commit_provider st p platform scope config (some name) =
    require (not (provider_name_taken st.providers p.id platform name)) 409 provider_exists
    >> done (
      moved platform name scope config p,
      put_provider st (moved platform name scope config) p.id,
    )

-- What the three typed PATCH routes do, each with its type and its keys of the configuration.
unfoldable pub update_provider :
    Store → ℕ → Text → ProviderPatch → (Fields → Fields) → Reply (MachineProvider × Store)
unfolding load_provider_of_type ensure_target_scope ensure_target_platform commit_provider
update_provider st id connector_type patch configure = do
  p ← load_provider_of_type st id connector_type
  scope ← ensure_target_scope st p patch.scope
  platform ← ensure_target_platform st p patch.platform_id
  commit_provider st p platform scope (dict (configure (as_fields p.config)))
      (patched patch.name p.name)

abbrev pub given : Option Text → Option Json
given none = none
given (some s) = some (str s)

abbrev pub prometheus_config : Option Text → Option Text → Fields → Fields
prometheus_config url query config =
    with_config (codes "query") (given query) (with_config (codes "url") (given url) config)

abbrev pub dynatrace_config : Option Text → Option Text → Fields → Fields
dynatrace_config url token config =
    with_config (codes "token") (given token) (with_config (codes "url") (given url) config)

unfoldable pub update_prometheus_provider :
    Store → ℕ → ProviderPatch → Option Text → Option Text → Reply (MachineProvider × Store)
unfolding update_provider
update_prometheus_provider st id patch url query =
    update_provider st id (codes "prometheus") patch (prometheus_config url query)

unfoldable pub update_dynatrace_provider :
    Store → ℕ → ProviderPatch → Option Text → Option Text → Reply (MachineProvider × Store)
unfolding update_provider
update_dynatrace_provider st id patch url token =
    update_provider st id (codes "dynatrace") patch (dynatrace_config url token)

-- `update_mock_provider`, which leaves the configuration as it is
unfoldable pub update_mock_provider : Store → ℕ → ProviderPatch → Reply (MachineProvider × Store)
unfolding update_provider
update_mock_provider st id patch =
    update_provider st id (codes "mock_metric") patch (λ config. config)

-- `delete_provider`, with its rows of the association table
unfoldable pub delete_provider : Store → ℕ → Reply Store
unfolding load_provider
delete_provider st id = do
  _ ← load_provider st id
  done (record st { providers = remove provider_id id st.providers })

abbrev pub not_same_platform : Text
not_same_platform = codes "provider and provisioner must belong to the same platform"

abbrev pub append_provisioner : ℕ → MachineProvider → MachineProvider
append_provisioner i p = record p { provisioner_ids = p.provisioner_ids ++ (i ∷ []) }

abbrev pub drop_provisioner : ℕ → MachineProvider → MachineProvider
drop_provisioner i p = record p { provisioner_ids = keep_if (λ j. not (j == i)) p.provisioner_ids }

-- The pair of an attach or a detach route, on one platform.
unfoldable pub load_pair : Store → ℕ → ℕ → Reply MachineProvider
unfolding load_provider get_or_404
load_pair st id i = do
  p ← load_provider st id
  q ← get_or_404 provisioner_id st.provisioners i (codes "provisioner not found")
  require (q.platform_id == p.platform_id) 400 not_same_platform
  done p

abbrev pub association_exists : Text
association_exists = codes "provider/provisioner association already exists"

-- `attach_provider_provisioner`. `raced` is whether another session has committed the pair since the
-- provider was loaded, so that the key of the pairs refuses the commit.
unfoldable pub attach_provider_provisioner : Bool → Store → ℕ → ℕ → Reply Store
unfolding load_pair ensure_no_conflict
attach_provider_provisioner raced st id i = do
  p ← load_pair st id i
  let attached =
      ensure_no_conflict st p.scope (some p.id) i
      >> (require (not raced) 409 association_exists
          >> done (put_provider st (append_provisioner i) id))
  if elem_id i p.provisioner_ids then done st else attached

-- `detach_provider_provisioner`
unfoldable pub detach_provider_provisioner : Store → ℕ → ℕ → Reply Store
unfolding load_pair
detach_provider_provisioner st id i = do
  p ← load_pair st id i
  if elem_id i p.provisioner_ids then done (put_provider st (drop_provisioner i) id) else done st
