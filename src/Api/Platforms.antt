-- ===== src/Api/Platforms.antt =====
-- app/api/routes/platforms.py, the routes that change platforms
use washing.Prelude.{
  ℕ, suc, ◌==◌, not, Option, none, some, List, [], ◌∷◌, ◌++◌, map, keep_if, Text, codes,
  if◌then◌else◌,
}
use washing.Security.{Json}
use washing.Db.{
  update, Platform, Machine, MachineProvisioner, MachineProvider, remove, update, elem_id,
}
use washing.Api.Store.{
  null, unset, to, Patch, Store, Reply, done, ◌>>=◌, ◌>>◌, require, get_or_404, Patch, unset, null,
  to, platform_name_taken,
}
use washing.Api.Providers.{platform_id, provisioner_id, no_platform}

abbrev pub platform_row : ℕ → Text → Option Text → Json → Platform
platform_row id name description extra = record {
  id = id;
  name = name;
  description = description;
  extra = extra;
}

-- `create_platform`
unfoldable pub create_platform : Store → Text → Option Text → Json → Reply (Platform × Store)
unfolding platform_name_taken
create_platform st name description extra =
    let p = platform_row st.next_platform_id name description extra in
    require (not (platform_name_taken st.platforms name)) 409 (codes "platform name already exists")
    >> done (
      p,
      record st {
        platforms = st.platforms ++ (p ∷ []);
        next_platform_id = suc st.next_platform_id;
      },
    )

-- A description that is null clears the column.
abbrev pub described : Patch Text → Option Text → Option Text
described unset old = old
described null old = none
described (to s) old = some s

-- The column holds JSON, so a null is stored as the JSON value null.
abbrev pub with_extra : Patch Json → Json → Json
with_extra unset old = old
with_extra null old = Json.null
with_extra (to v) old = v

abbrev pub redescribed : Patch Text → Patch Json → Platform → Platform
redescribed description extra p = record p {
  description = described description p.description;
  extra = with_extra extra p.extra;
}

-- `update_platform`
unfoldable pub update_platform : Store → ℕ → Patch Text → Patch Json → Reply (Platform × Store)
unfolding get_or_404 update
update_platform st id description extra = do
  p ← get_or_404 platform_id st.platforms id no_platform
  done (
    redescribed description extra p,
    record st { platforms = update platform_id p.id (redescribed description extra) st.platforms },
  )

-- The ids of the provisioners of a platform.
unfoldable pub provisioners_of : ℕ → List MachineProvisioner → List ℕ
provisioners_of id qs = map provisioner_id (keep_if (λ q. q.platform_id == id) qs)

abbrev pub drop_provisioners : List ℕ → MachineProvider → MachineProvider
drop_provisioners gone p = record p {
  provisioner_ids = keep_if (λ i. not (elem_id i gone)) p.provisioner_ids;
}

abbrev pub unlinked : List ℕ → Option ℕ → Option ℕ
unlinked gone none = none
unlinked gone (some i) = if elem_id i gone then none else some i

abbrev pub unlink_machines : List ℕ → Machine → Machine
unlink_machines gone m = record m { source_provisioner_id = unlinked gone m.source_provisioner_id }

-- `delete_platform`. The relationships cascade: the machines, providers and provisioners of the
-- platform are deleted, with the rows of the association table that hold one of them. A machine of
-- another platform loses the provisioner that found it.
unfoldable pub delete_platform : Store → ℕ → Reply Store
unfolding get_or_404 remove provisioners_of
delete_platform st id = do
  _ ← get_or_404 platform_id st.platforms id no_platform
  done (record st {
    platforms = remove platform_id id st.platforms;
    provisioners = keep_if (λ q. not (q.platform_id == id)) st.provisioners;
    providers =
        map (drop_provisioners (provisioners_of id st.provisioners))
          (keep_if (λ p. not (p.platform_id == id)) st.providers);
    machines =
        map (unlink_machines (provisioners_of id st.provisioners))
          (keep_if (λ m. not (m.platform_id == id)) st.machines);
  })
