-- ===== src/Api/Pages.antt =====
-- app/api/routes/common.py, `paginate_query`, app/api/deps.py, and the lists of connectors in
-- app/api/routes/machines/
-- `name_before` is the order of the database on names, which its collation fixes.
pub mod Cover
use washing.Prelude.{
  ℕ, zero, suc, ◌+◌, ◌*◌, ◌≤◌, ◌≡◌, ◌==◌, ltb, leb, refl, sym, ap, ◌∙◌, Bool, true, false, not,
  ◌&&◌, ◌||◌, Option, none, some, List, [], ◌∷◌, ◌++◌, append-nil, map, length, take, drop, keep_if,
  insert_with, sort_with, eq_option, Text, codes, arith, Bool-cases, inl, inr, if◌then◌else◌,
}
use washing.Domain.{Strings}
use washing.Db.{MachineProvider, MachineProvisioner, ScopeName, eq_scope, elem_id}
use washing.Contracts.{ProviderRead, ProvisionerRead, read_provider, read_provisioner}
use washing.Api.Store.{
  Store, Reply, done, refused, raised, ◌>>=◌, get_or_404, attached_providers, rows_of,
}
use washing.Api.Providers.{provider_id, provisioner_id, no_provider}
use washing.Api.Provisioners.{no_provisioner}

-- `PaginationParams`, which FastAPI has let through: 1 ≤ limit ≤ 200
pub record PaginationParams : Type 0 where
  pub offset : ℕ
  pub limit : ℕ

pub record PaginatedResponse (A : Type 0) : Type 0 where
  pub items : List A
  pub offset : ℕ
  pub limit : ℕ
  pub total : ℕ

module _ {A R : Type 0} (before : A → A → Bool) (serialize : A → R) where
  -- `paginate_query`, of the rows that the query selects
  unfoldable pub paginate_query : PaginationParams → List A → PaginatedResponse R
  unfolding sort_with
  paginate_query pagination rows = record {
    items = map serialize (take pagination.limit (drop pagination.offset (sort_with before rows)));
    offset = pagination.offset;
    limit = pagination.limit;
    total = length rows;
  }

-- `query.filter(column == value)` when the value is given
abbrev pub filter_by : {A B : Type 0} → Option B → (B → A → Bool) → List A → List A
filter_by none test rows = rows
filter_by (some b) test rows = keep_if (test b) rows

abbrev pub eq_bool : Bool → Bool → Bool
eq_bool true b = b
eq_bool false true = false
eq_bool false false = true

module _ (strings : Strings) (name_before : Text → Text → Bool) where
  -- `ORDER BY name ASC, id ASC`
  unfoldable pub provider_before : MachineProvider → MachineProvider → Bool
  provider_before p r =
      name_before p.name r.name || (not (name_before r.name p.name) && leb p.id r.id)

  unfoldable pub provisioner_before : MachineProvisioner → MachineProvisioner → Bool
  provisioner_before p r =
      name_before p.name r.name || (not (name_before r.name p.name) && leb p.id r.id)

  -- `list_providers`
  unfoldable pub list_providers :
      Store
      → Option ℕ
      → Option ScopeName
      → Option Bool
      → PaginationParams
      → PaginatedResponse ProviderRead
  unfolding paginate_query provider_before read_provider
  list_providers st platform_id scope enabled pagination =
      paginate_query provider_before (read_provider strings) pagination (
        filter_by enabled (λ b p. eq_bool p.enabled b)
          (filter_by scope (λ s p. eq_scope p.scope s)
            (filter_by platform_id (λ i p. p.platform_id == i) st.providers)))

  -- `list_provisioners`
  unfoldable pub list_provisioners :
      Store → Option ℕ → Option Bool → PaginationParams → PaginatedResponse ProvisionerRead
  unfolding paginate_query provisioner_before read_provisioner
  list_provisioners st platform_id enabled pagination =
      paginate_query provisioner_before (read_provisioner strings) pagination (
        filter_by enabled (λ b q. eq_bool q.enabled b)
          (filter_by platform_id (λ i q. q.platform_id == i) st.provisioners))

  -- `list_provisioner_providers`
  unfoldable pub list_provisioner_providers :
      Store → ℕ → PaginationParams → Reply (PaginatedResponse ProviderRead)
  unfolding get_or_404 paginate_query provider_before read_provider attached_providers
  list_provisioner_providers st id pagination = do
    _ ← get_or_404 provisioner_id st.provisioners id no_provisioner
    done (
        paginate_query provider_before (read_provider strings) pagination
          (attached_providers st.providers id))

  -- `list_provider_provisioners`
  unfoldable pub list_provider_provisioners :
      Store → ℕ → PaginationParams → Reply (PaginatedResponse ProvisionerRead)
  unfolding get_or_404 paginate_query provisioner_before read_provisioner rows_of
  list_provider_provisioners st id pagination = do
    p ← get_or_404 provider_id st.providers id no_provider
    done (
        paginate_query provisioner_before (read_provisioner strings) pagination
          (rows_of provisioner_id st.provisioners p.provisioner_ids))
