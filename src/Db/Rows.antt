-- ===== src/Db/Rows.antt =====
-- internal/infra/db/models.py, a record for each class, the table lookups by key, and the conflict
-- test between the providers of a provisioner
use washing.Prelude.{
  ℕ, ◌==◌, Bool, true, false, not, keep_if, Option, none, some, List, [], ◌∷◌, Text, ℤ, Float,
  if◌then◌else◌,
}
use washing.Domain.{Strings, normalize_application_code, normalize_hostname}
use washing.Security.{Json, ErrorCode}

-- The three metric scopes; other texts do not pass the API.
pub data ScopeName : Type 0 where
  cpu ram disk : ScopeName

pub record Platform : Type 0 where
  pub id : ℕ
  pub name : Text
  pub description : Option Text
  pub extra : Json

pub record Machine : Type 0 where
  pub id : ℕ
  pub platform_id : ℕ
  pub application : Option Text
  pub source_provisioner_id : Option ℕ
  pub external_id : Option Text
  pub hostname : Text
  pub region : Option Text
  pub environment : Option Text
  pub cpu : Option Float
  pub ram_mb : Option Float
  pub disk_mb : Option Float
  pub extra : Json

pub record MachineProvisioner : Type 0 where
  pub id : ℕ
  pub platform_id : ℕ
  pub name : Text
  pub connector_type : Text
  pub config : Json
  pub enabled : Bool
  pub cron : Text
  pub last_scheduled_at : Option ℕ
  pub last_run_at : Option ℕ
  pub last_success_at : Option ℕ
  pub last_error : Option ErrorCode

-- `provisioner_ids` is the relationship through machine_provider_provisioners.
pub record MachineProvider : Type 0 where
  pub id : ℕ
  pub platform_id : ℕ
  pub name : Text
  pub connector_type : Text
  pub scope : ScopeName
  pub config : Json
  pub enabled : Bool
  pub last_run_at : Option ℕ
  pub last_success_at : Option ℕ
  pub last_error : Option ErrorCode
  pub provisioner_ids : List ℕ

pub record Application : Type 0 where
  pub id : ℕ
  pub name : Text
  pub environment : Text
  pub region : Text
  pub sync_at : Option ℕ
  pub sync_scheduled_at : Option ℕ
  pub sync_error : Option ErrorCode

-- `MachineMetricMixin`
pub record Metric : Type 0 where
  pub id : ℕ
  pub provider_id : ℕ
  pub machine_id : ℕ
  pub date : ℕ
  pub value : ℤ

-- `db.get(Model, id)`
module _ {A : Type 0} (key : A → ℕ) where
  unfoldable pub get : List A → ℕ → Option A
  get [] id = none
  get (r ∷ rs) id = if key r == id then some r else get rs id

  -- `DELETE ... WHERE id = ...`
  unfoldable pub remove : ℕ → List A → List A
  remove id rows = keep_if (λ r. not (key r == id)) rows

  -- `UPDATE ... WHERE id = ...`
  unfoldable pub update : ℕ → (A → A) → List A → List A
  update id f [] = []
  update id f (r ∷ rs) = (if key r == id then f r else r) ∷ update id f rs

-- `provider_id is not None and provider.id == provider_id`
abbrev is_same_provider : Option ℕ → MachineProvider → Bool
is_same_provider none p = false
is_same_provider (some id) p = p.id == id

abbrev pub eq_scope : ScopeName → ScopeName → Bool
eq_scope cpu cpu = true
eq_scope cpu ram = false
eq_scope cpu disk = false
eq_scope ram cpu = false
eq_scope ram ram = true
eq_scope ram disk = false
eq_scope disk cpu = false
eq_scope disk ram = false
eq_scope disk disk = true

-- `find_provider_scope_conflict`, over the providers attached to the provisioner. The candidate
-- object is one of them or not by its place in the list.
unfoldable pub find_provider_scope_conflict :
    List (MachineProvider × Bool) → ScopeName → Option ℕ → Option MachineProvider
find_provider_scope_conflict [] scope provider_id = none
find_provider_scope_conflict ((p, is_candidate) ∷ providers) scope provider_id =
    let rest = find_provider_scope_conflict providers scope provider_id in
    if is_candidate
    then rest
    else if is_same_provider provider_id p
    then rest
    else if eq_scope p.scope scope
    then some p
    else rest

-- `normalize(value) or value`
abbrev pub or_value : Option Text → Text → Text
or_value none value = value
or_value (some []) value = value
or_value (some (c ∷ s)) value = c ∷ s

-- The `validates` hooks of `Machine` and `Application`.
module _ (strings : Strings) where
  unfoldable pub validate_hostname : Text → Text
  unfolding normalize_hostname
  validate_hostname value = or_value (normalize_hostname strings (some value)) value

  unfoldable pub validate_application_name : Text → Text
  unfolding normalize_application_code
  validate_application_name value = or_value (normalize_application_code strings (some value)) value
