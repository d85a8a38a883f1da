-- ===== src/Api/Consistency/Refused.antt =====
-- What the 409 of the attach route of app/api/routes/machines/providers.py stands for.
use washing.Prelude.{ℕ, ◌≡◌, ◌==◌, ◌⊎◌, Bool, true, false, In, Text}
use washing.Db.{MachineProvider}
use washing.Api.Store.{Store}
use washing.Api.Providers.{association_exists, scope_taken}
use washing.Api.Consistency.Guards.{serves}

-- What the 409 says: the key of the pairs, or another provider of the scope that has the provisioner.
abbrev pub IsTaken : Bool → Store → ℕ → MachineProvider → Text → Type 0
IsTaken raced st j p detail =
    ((raced ≡ true) × (detail ≡ association_exists))
    ⊎ ((r : MachineProvider) × (detail ≡ scope_taken)
        × In r st.providers
        × ((r.id == p.id) ≡ false)
        × (serves j p.scope r ≡ true))
