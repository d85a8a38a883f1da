-- ===== src/Api/Store.antt =====
-- app/api/routes/common.py, the tables that the routes of connectors work on, and their replies
-- A handler returns the tables that its commit leaves, or the refusal that it raises: the session
-- is then closed without a commit. Payloads are what pydantic has let through. A commit that the
-- database refuses is told by the constraints of internal/infra/db/models.py.
use washing.Prelude.{
  ℕ, ◌==◌, Bool, true, false, not, ◌&&◌, Option, none, some, List, [], ◌∷◌, Text, eq_text, any,
  keep_if, map,
}
use washing.Security.{Json, Fields, end, dict, set_field}
use washing.Db.{
  Platform, Machine, MachineProvisioner, MachineProvider, ScopeName, get, elem_id,
  find_provider_scope_conflict,
}

-- The `next` fields are the sequences of the identity columns.
pub record Store : Type 0 where
  pub platforms : List Platform
  pub provisioners : List MachineProvisioner
  pub providers : List MachineProvider
  pub machines : List Machine
  pub next_platform_id : ℕ
  pub next_provisioner_id : ℕ
  pub next_provider_id : ℕ

-- `refused` is HTTPException with its status and detail; `raised` any other exception.
pub data Reply {ℓ} (A : Type ℓ) : Type ℓ where
  done : A → Reply A
  refused : ℕ → Text → Reply A
  raised : Reply A

infixl 5 ◌>>=◌ ◌>>◌
abbrev pub ◌>>=◌ {ℓ κ} : {A : Type ℓ} {B : Type κ} → Reply A → (A → Reply B) → Reply B
done a >>= f = f a
refused status detail >>= f = refused status detail
raised >>= f = raised

abbrev pub ◌>>◌ {ℓ κ} : {A : Type ℓ} {B : Type κ} → Reply A → Reply B → Reply B
m >> k = m >>= λ _. k

abbrev pub require : Bool → ℕ → Text → Reply (Unit {0})
require true status detail = done tt
require false status detail = refused status detail

abbrev pub found_or_404 : {A : Type 0} → Option A → Text → Reply A
found_or_404 none detail = refused 404 detail
found_or_404 (some r) detail = done r

-- `get_or_404`
unfoldable pub get_or_404 : {A : Type 0} → (A → ℕ) → List A → ℕ → Text → Reply A
unfolding get
get_or_404 key rows id detail = found_or_404 (get key rows id) detail

-- A field of a PATCH payload: not there, null, or a value.
pub data Patch (A : Type 0) : Type 0 where
  unset null : Patch A
  to : A → Patch A

-- `setattr` of a field that is there. A column that is NOT NULL is then `none`.
abbrev pub patched : {A : Type 0} → Patch A → A → Option A
patched unset old = some old
patched null old = none
patched (to a) old = some a

abbrev pub is_there : {A : Type 0} → Patch A → Bool
is_there unset = false
is_there null = true
is_there (to a) = true

-- `config[key] = value` where the value is given
abbrev pub with_config : Text → Option Json → Fields → Fields
unfolding set_field
with_config key none config = config
with_config key (some v) config = set_field key v config

-- `dict(row.config)`: the column holds a mapping.
abbrev pub as_fields : Json → Fields
as_fields (dict fs) = fs
as_fields v = end

abbrev pub cons_found : {A : Type 0} → Option A → List A → List A
cons_found none rest = rest
cons_found (some r) rest = r ∷ rest

-- The rows behind a relationship: those of the ids in the association table.
unfoldable pub rows_of : {A : Type 0} → (A → ℕ) → List A → List ℕ → List A
unfolding get
rows_of key rows [] = []
rows_of key rows (i ∷ ids) = cons_found (get key rows i) (rows_of key rows ids)

-- `provisioner.providers`
unfoldable pub attached_providers : List MachineProvider → ℕ → List MachineProvider
attached_providers providers id = keep_if (λ p. elem_id id p.provisioner_ids) providers

abbrev pub as_stored : List MachineProvider → List (MachineProvider × Bool)
as_stored ps = map (λ p. (p, false)) ps

-- `find_provider_scope_conflict` with no candidate object
unfoldable pub scope_conflict :
    List MachineProvider → ℕ → ScopeName → Option ℕ → Option MachineProvider
unfolding find_provider_scope_conflict attached_providers
scope_conflict providers id scope provider_id =
    find_provider_scope_conflict (as_stored (attached_providers providers id)) scope provider_id

-- Unique constraints (platform_id, name): another row holds the pair.
unfoldable pub provider_name_taken : List MachineProvider → ℕ → ℕ → Text → Bool
unfolding eq_text
provider_name_taken rows id platform_id name =
    any (λ p. not (p.id == id) && (p.platform_id == platform_id && eq_text p.name name)) rows

unfoldable pub provisioner_name_taken : List MachineProvisioner → ℕ → ℕ → Text → Bool
unfolding eq_text
provisioner_name_taken rows id platform_id name =
    any (λ q. not (q.id == id) && (q.platform_id == platform_id && eq_text q.name name)) rows

unfoldable pub platform_name_taken : List Platform → Text → Bool
unfolding eq_text
platform_name_taken rows name = any (λ p. eq_text p.name name) rows
