-- ===== src/Api/Providers/Guards.antt =====
-- app/api/routes/machines/providers.py, the guards of the routes that change providers
use washing.Prelude.{ℕ, ◌==◌, not, Option, none, some, is_some, List, [], ◌∷◌, Text, codes, eq_text}
use washing.Db.{MachineProvisioner, MachineProvider, ScopeName, Platform}
use washing.Api.Store.{Store, Reply, done, ◌>>=◌, ◌>>◌, require, get_or_404, scope_conflict}

abbrev pub provider_id : MachineProvider → ℕ
provider_id p = p.id

abbrev pub provisioner_id : MachineProvisioner → ℕ
provisioner_id q = q.id

abbrev pub other_platform : Text
other_platform = codes "provider and provisioners must belong to the same platform"

abbrev pub scope_taken : Text
scope_taken = codes "provisioner cannot have more than one provider for the same scope"

abbrev pub provider_exists : Text
provider_exists = codes "provider name already exists for this platform"

abbrev pub no_provider : Text
no_provider = codes "provider not found"

-- `_load_provider`
unfoldable pub load_provider : Store → ℕ → Reply MachineProvider
unfolding get_or_404
load_provider st id = get_or_404 provider_id st.providers id no_provider

-- `_load_provider_of_type`
unfoldable pub load_provider_of_type : Store → ℕ → Text → Reply MachineProvider
unfolding load_provider eq_text
load_provider_of_type st id connector_type = do
  p ← load_provider st id
  require (eq_text p.connector_type connector_type) 404 no_provider
  done p

-- `_ensure_provider_platform_matches_provisioners`, over the provisioners of the provider
unfoldable pub ensure_platform_matches : ℕ → List MachineProvisioner → Reply (Unit {0})
ensure_platform_matches platform_id [] = done tt
ensure_platform_matches platform_id (q ∷ qs) =
    require (q.platform_id == platform_id) 400 other_platform
    >> ensure_platform_matches platform_id qs

-- One provisioner has no other provider of the scope.
unfoldable pub ensure_no_conflict : Store → ScopeName → Option ℕ → ℕ → Reply (Unit {0})
unfolding scope_conflict
ensure_no_conflict st scope id provisioner_id =
    require (not (is_some (scope_conflict st.providers provisioner_id scope id))) 409 scope_taken

-- `_ensure_provider_scope_matches_provisioners`
unfoldable pub ensure_scope_matches :
    Store → ScopeName → ℕ → List MachineProvisioner → Reply (Unit {0})
unfolding ensure_no_conflict
ensure_scope_matches st scope id [] = done tt
ensure_scope_matches st scope id (q ∷ qs) =
    ensure_no_conflict st scope (some id) q.id >> ensure_scope_matches st scope id qs

-- `_load_provisioners_for_provider` for a provider that is new
unfoldable pub check_provisioners : Store → ℕ → ScopeName → List ℕ → Reply (Unit {0})
unfolding get_or_404 ensure_no_conflict
check_provisioners st platform_id scope [] = done tt
check_provisioners st platform_id scope (i ∷ ids) = do
  q ← get_or_404 provisioner_id st.provisioners i (codes "provisioner not found")
  require (q.platform_id == platform_id) 400 other_platform
  ensure_no_conflict st scope none q.id
  check_provisioners st platform_id scope ids

abbrev pub no_platform : Text
no_platform = codes "platform not found"

abbrev pub platform_id : Platform → ℕ
platform_id p = p.id
