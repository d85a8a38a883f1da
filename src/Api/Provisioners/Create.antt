-- ===== src/Api/Provisioners/Create.antt =====
-- app/api/routes/machines/provisioners.py and mock_provisioners.py, the guards and the routes that
-- create provisioners
use washing.Prelude.{
  ℕ, suc, ◌==◌, Bool, true, false, not, Option, none, some, List, [], ◌∷◌, ◌++◌, keep_if, eq_option,
  Text, codes, eq_text, if◌then◌else◌,
}
use washing.Security.{Fields, str, end, dict, field}
use washing.Db.{Machine, MachineProvisioner, MachineProvider}
use washing.Api.Store.{
  Store, Reply, done, refused, ◌>>=◌, ◌>>◌, require, get_or_404, attached_providers,
  provisioner_name_taken,
}
use washing.Api.Providers.{provisioner_id, platform_id, no_platform, not_same_platform}

abbrev pub no_provisioner : Text
no_provisioner = codes "provisioner not found"

abbrev pub provisioner_exists : Text
provisioner_exists = codes "provisioner name already exists for this platform"

-- `_load_provisioner_of_type`
unfoldable pub load_provisioner_of_type : Store → ℕ → Text → Reply MachineProvisioner
unfolding get_or_404 eq_text
load_provisioner_of_type st id connector_type = do
  q ← get_or_404 provisioner_id st.provisioners id no_provisioner
  require (eq_text q.connector_type connector_type) 404 no_provisioner
  done q

-- `provisioner.machines`
unfoldable pub linked_machines : List Machine → ℕ → List Machine
linked_machines machines id =
    keep_if (λ m. eq_option (λ i j. i == j) m.source_provisioner_id (some id)) machines

abbrev pub is_empty {ℓ} : {A : Type ℓ} → List A → Bool
is_empty [] = true
is_empty (x ∷ xs) = false

unfoldable pub ensure_providers_on : ℕ → List MachineProvider → Reply (Unit {0})
ensure_providers_on platform [] = done tt
ensure_providers_on platform (p ∷ ps) =
    require (p.platform_id == platform) 400 not_same_platform >> ensure_providers_on platform ps

-- `_ensure_provisioner_platform_can_change`
unfoldable pub ensure_platform_can_change : Store → MachineProvisioner → ℕ → Reply (Unit {0})
unfolding linked_machines ensure_providers_on attached_providers
ensure_platform_can_change st q platform =
    let checked =
      require (is_empty (linked_machines st.machines q.id)) 409
        (codes "cannot move provisioner with linked machines")
      >> ensure_providers_on platform (attached_providers st.providers q.id) in
    if platform == q.platform_id then done tt else checked

pub record NewProvisioner : Type 0 where
  pub platform_id : ℕ
  pub name : Text
  pub cron : Text

abbrev pub provisioner_row : ℕ → Text → Fields → NewProvisioner → MachineProvisioner
provisioner_row id connector_type config new = record {
  id = id;
  platform_id = new.platform_id;
  name = new.name;
  connector_type = connector_type;
  config = dict config;
  enabled = false;
  cron = new.cron;
  last_scheduled_at = none;
  last_run_at = none;
  last_success_at = none;
  last_error = none;
}

-- `db.add(provisioner)` and `commit_or_409`
unfoldable pub add_provisioner :
    Store → Text → Fields → NewProvisioner → Reply (MachineProvisioner × Store)
unfolding provisioner_name_taken
add_provisioner st connector_type config new =
    let q = provisioner_row st.next_provisioner_id connector_type config new in
    require (not (provisioner_name_taken st.provisioners q.id q.platform_id q.name)) 409
      provisioner_exists
    >> done (
      q,
      record st {
        provisioners = st.provisioners ++ (q ∷ []);
        next_provisioner_id = suc st.next_provisioner_id;
      },
    )

unfoldable pub create_capsule_provisioner :
    Store → NewProvisioner → Text → Fields → Reply (MachineProvisioner × Store)
unfolding get_or_404 add_provisioner
create_capsule_provisioner st new token parameters = do
  _ ← get_or_404 platform_id st.platforms new.platform_id no_platform
  add_provisioner st (codes "capsule")
      (field (codes "token") (str token) (field (codes "parameters") (dict parameters) end)) new

unfoldable pub create_dynatrace_provisioner :
    Store → NewProvisioner → Text → Text → Reply (MachineProvisioner × Store)
unfolding get_or_404 add_provisioner
create_dynatrace_provisioner st new url token = do
  _ ← get_or_404 platform_id st.platforms new.platform_id no_platform
  add_provisioner st (codes "dynatrace")
      (field (codes "url") (str url) (field (codes "token") (str token) end)) new

abbrev pub valid_preset : Option Text → Text → Reply Text
valid_preset none preset = done preset
valid_preset (some detail) preset = refused 400 detail

-- The preset of the mock routes; `preset_error` is the message of `resolve_mock_preset_path`.
module _ (preset_error : Text → Option Text) where
  unfoldable pub create_mock_provisioner :
      Store → NewProvisioner → Text → Reply (MachineProvisioner × Store)
  unfolding get_or_404 add_provisioner
  create_mock_provisioner st new preset = do
    _ ← get_or_404 platform_id st.platforms new.platform_id no_platform
    p ← valid_preset (preset_error preset) preset
    add_provisioner st (codes "mock") (field (codes "preset") (str p) end) new
