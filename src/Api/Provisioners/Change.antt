-- ===== src/Api/Provisioners/Change.antt =====
-- app/api/routes/machines/provisioners.py and mock_provisioners.py, the routes that change one
-- provisioner
use washing.Prelude.{
  ℕ, ◌==◌, Bool, true, false, not, Option, none, some, map, eq_option, Text, codes, if◌then◌else◌,
}
use washing.Security.{Json, Fields, str, end, dict}
use washing.Db.{Machine, MachineProvisioner, remove, update}
use washing.Api.Store.{
  Store, Reply, done, refused, ◌>>=◌, ◌>>◌, require, get_or_404, Patch, unset, null, to, patched,
  with_config, as_fields, provisioner_name_taken,
}
use washing.Api.Providers.{
  dynatrace_config, provisioner_id, platform_id, no_platform, given, drop_provisioner,
}
use washing.Api.Provisioners.Create.{
  ensure_platform_can_change, load_provisioner_of_type, no_provisioner, provisioner_exists,
  valid_preset,
}

abbrev pub put_provisioner : Store → (MachineProvisioner → MachineProvisioner) → ℕ → Store
put_provisioner st f id = record st { provisioners = update provisioner_id id f st.provisioners }

abbrev pub set_provisioner_enabled : Bool → MachineProvisioner → MachineProvisioner
set_provisioner_enabled b q = record q { enabled = b }

unfoldable pub enable_provisioner : Store → ℕ → Reply (MachineProvisioner × Store)
unfolding get_or_404
enable_provisioner st id = do
  q ← get_or_404 provisioner_id st.provisioners id no_provisioner
  done (set_provisioner_enabled true q, put_provisioner st (set_provisioner_enabled true) id)

unfoldable pub disable_provisioner : Store → ℕ → Reply (MachineProvisioner × Store)
unfolding get_or_404
disable_provisioner st id = do
  q ← get_or_404 provisioner_id st.provisioners id no_provisioner
  done (set_provisioner_enabled false q, put_provisioner st (set_provisioner_enabled false) id)

-- The fields of a PATCH that every type of provisioner shares.
pub record ProvisionerPatch : Type 0 where
  pub platform_id : Patch ℕ
  pub name : Patch Text
  pub cron : Patch Text

unfoldable pub ensure_new_platform : Store → MachineProvisioner → Patch ℕ → Reply ℕ
unfolding get_or_404 ensure_platform_can_change
ensure_new_platform st q unset = done q.platform_id
ensure_new_platform st q null = refused 404 no_platform
ensure_new_platform st q (to platform) = do
  _ ← get_or_404 platform_id st.platforms platform no_platform
  ensure_platform_can_change st q platform
  done platform

abbrev pub relocated : ℕ → Text → Text → Json → MachineProvisioner → MachineProvisioner
relocated platform name cron config q = record q {
  platform_id = platform;
  name = name;
  cron = cron;
  config = config;
}

-- `commit_or_409` of an update: a name or a cron that is null is refused like a name that is taken.
unfoldable pub commit_provisioner :
    Store
    → MachineProvisioner
    → ℕ
    → Json
    → Option Text
    → Option Text
    → Reply (MachineProvisioner × Store)
unfolding provisioner_name_taken
commit_provisioner st q platform config none cron = refused 409 provisioner_exists
commit_provisioner st q platform config (some name) none = refused 409 provisioner_exists
commit_provisioner st q platform config (some name) (some cron) =
    require (not (provisioner_name_taken st.provisioners q.id platform name)) 409 provisioner_exists
    >> done (
      relocated platform name cron config q,
      put_provisioner st (relocated platform name cron config) q.id,
    )

-- What the three typed PATCH routes do, each with its type and its keys of the configuration.
unfoldable pub update_provisioner :
    Store
    → ℕ
    → Text
    → ProvisionerPatch
    → (Fields → Reply Fields)
    → Reply (MachineProvisioner × Store)
unfolding load_provisioner_of_type ensure_new_platform commit_provisioner
update_provisioner st id connector_type patch configure = do
  q ← load_provisioner_of_type st id connector_type
  platform ← ensure_new_platform st q patch.platform_id
  config ← configure (as_fields q.config)
  commit_provisioner st q platform (dict config) (patched patch.name q.name)
      (patched patch.cron q.cron)

-- `config["parameters"] = payload.parameters or {}` where the field is set
abbrev pub with_parameters : Patch Fields → Fields → Fields
with_parameters unset config = config
with_parameters null config = with_config (codes "parameters") (some (dict end)) config
with_parameters (to fs) config = with_config (codes "parameters") (some (dict fs)) config

unfoldable pub update_capsule_provisioner :
    Store → ℕ → ProvisionerPatch → Option Text → Patch Fields → Reply (MachineProvisioner × Store)
unfolding update_provisioner
update_capsule_provisioner st id patch token parameters =
    update_provisioner st id (codes "capsule") patch (λ config.
      done (with_parameters parameters (with_config (codes "token") (given token) config)))

unfoldable pub update_dynatrace_provisioner :
    Store → ℕ → ProvisionerPatch → Option Text → Option Text → Reply (MachineProvisioner × Store)
unfolding update_provisioner
update_dynatrace_provisioner st id patch url token =
    update_provisioner st id (codes "dynatrace") patch
      (λ config. done (dynatrace_config url token config))

-- `preset_error` is the message of `resolve_mock_preset_path`.
module _ (preset_error : Text → Option Text) where
  abbrev pub with_preset : Option Text → Fields → Reply Fields
  with_preset none config = done config
  with_preset (some preset) config = valid_preset (preset_error preset) preset >>= λ p.
      done (with_config (codes "preset") (some (str p)) config)

  unfoldable pub update_mock_provisioner :
      Store → ℕ → ProvisionerPatch → Option Text → Reply (MachineProvisioner × Store)
  unfolding update_provisioner
  update_mock_provisioner st id patch preset =
      update_provisioner st id (codes "mock") patch (with_preset preset)

-- The foreign key of a machine to the provisioner that found it is ON DELETE SET NULL.
abbrev pub unlink_machine : ℕ → Machine → Machine
unlink_machine id m = record m {
  source_provisioner_id =
      if eq_option (λ i j. i == j) m.source_provisioner_id (some id)
      then none
      else m.source_provisioner_id;
}

-- `delete_provisioner`, with its rows of the association table
unfoldable pub delete_provisioner : Store → ℕ → Reply Store
unfolding get_or_404 remove
delete_provisioner st id = do
  _ ← get_or_404 provisioner_id st.provisioners id no_provisioner
  done (record st {
    provisioners = remove provisioner_id id st.provisioners;
    providers = map (drop_provisioner id) st.providers;
    machines = map (unlink_machine id) st.machines;
  })
