-- ===== src/Api/Providers/Create.antt =====
-- app/api/routes/machines/providers.py and mock_providers.py, the routes that create providers
use washing.Prelude.{ℕ, suc, Bool, false, not, ◌||◌, none, List, [], ◌∷◌, ◌++◌, Text, codes}
use washing.Security.{Fields, str, end, dict, field}
use washing.Db.{MachineProvider, ScopeName, elem_id}
use washing.Api.Store.{Store, Reply, done, ◌>>=◌, ◌>>◌, require, get_or_404, provider_name_taken}
use washing.Api.Providers.Guards.{check_provisioners, no_platform, platform_id, provider_exists}

-- The association table has each pair once, so a commit with a repeated id is refused.
unfoldable pub has_repeats : List ℕ → Bool
has_repeats [] = false
has_repeats (i ∷ ids) = elem_id i ids || has_repeats ids

pub record NewProvider : Type 0 where
  pub platform_id : ℕ
  pub name : Text
  pub scope : ScopeName

abbrev pub provider_row : ℕ → Text → Fields → NewProvider → List ℕ → MachineProvider
provider_row id connector_type config new provisioner_ids = record {
  id = id;
  platform_id = new.platform_id;
  name = new.name;
  connector_type = connector_type;
  scope = new.scope;
  config = dict config;
  enabled = false;
  last_run_at = none;
  last_success_at = none;
  last_error = none;
  provisioner_ids = provisioner_ids;
}

-- `db.add(provider)` and `commit_or_409`
unfoldable pub add_provider :
    Store → Text → Fields → NewProvider → List ℕ → Reply (MachineProvider × Store)
unfolding provider_name_taken has_repeats
add_provider st connector_type config new provisioner_ids =
    let p = provider_row st.next_provider_id connector_type config new provisioner_ids in
    require
      (not (
        provider_name_taken st.providers p.id p.platform_id p.name
        || has_repeats p.provisioner_ids))
      409 provider_exists
    >> done (
      p,
      record st {
        providers = st.providers ++ (p ∷ []);
        next_provider_id = suc st.next_provider_id;
      },
    )

-- `create_prometheus_provider`
unfoldable pub create_prometheus_provider :
    Store → NewProvider → Text → Text → Reply (MachineProvider × Store)
unfolding get_or_404 add_provider
create_prometheus_provider st new url query = do
  _ ← get_or_404 platform_id st.platforms new.platform_id no_platform
  add_provider st (codes "prometheus")
      (field (codes "url") (str url) (field (codes "query") (str query) end)) new []

-- `create_dynatrace_provider`
unfoldable pub create_dynatrace_provider :
    Store → NewProvider → List ℕ → Text → Text → Reply (MachineProvider × Store)
unfolding get_or_404 add_provider check_provisioners
create_dynatrace_provider st new provisioner_ids url token = do
  _ ← get_or_404 platform_id st.platforms new.platform_id no_platform
  check_provisioners st new.platform_id new.scope provisioner_ids
  add_provider st (codes "dynatrace")
      (field (codes "url") (str url) (field (codes "token") (str token) end)) new provisioner_ids

-- `create_mock_provider`
unfoldable pub create_mock_provider : Store → NewProvider → Reply (MachineProvider × Store)
unfolding get_or_404 add_provider
create_mock_provider st new = do
  _ ← get_or_404 platform_id st.platforms new.platform_id no_platform
  add_provider st (codes "mock_metric") end new []
