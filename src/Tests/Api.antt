-- ===== src/Tests/Api.antt =====
-- Inputs for app/api/routes/: one platform, one provisioner, a provider that has it and a second
-- provider of the same scope, which is refused.
use washing.Prelude.{
  ltb, arith, sort_with, insert_with, ◌≡◌, refl, Option, none, List, [], ◌∷◌, Text, codes, map,
}
use washing.Domain.Ascii.{ascii}
use washing.Security.{Fields, str, field, dict, end}
use washing.Db.{MachineProvider, MachineProvisioner, cpu}
use washing.Api.Pages.{paginate_query}
use washing.Api.Pages.Cover.{pages, pages_cover}
use washing.Api.Store.{Store, unset, null}
use washing.Api.Providers.{NewProvider, provider_row}
use washing.Api.Provisioners.{NewProvisioner, provisioner_row}
use washing.Api.Views.{
  stored, dynatrace_provider_read_model, capsule_read_model, dynatrace_provisioner_read_model,
  read_models_same,
}
use washing.Api.Requests.{
  Request, post_platform, post_dynatrace_provisioner, post_dynatrace_provider, attach, serve_all,
}
use washing.Api.Consistency.Links.{IsConsistent}
use washing.Api.Consistency.Histories.{serve_all-IsConsistent}
use washing.Api.Platforms.{redescribed, platform_row}
use washing.Contracts.{read_platform}

abbrev empty : Store
empty = record {
  platforms = [];
  provisioners = [];
  providers = [];
  machines = [];
  next_platform_id = 1;
  next_provisioner_id = 1;
  next_provider_id = 1;
}

abbrev provisioner : NewProvisioner
provisioner = record { platform_id = 1; name = codes "inventory"; cron = codes "*/5 * * * *" }

abbrev first_provider : NewProvider
first_provider = record { platform_id = 1; name = codes "a"; scope = cpu }

abbrev second_provider : NewProvider
second_provider = record { platform_id = 1; name = codes "b"; scope = cpu }

abbrev requests : List Request
requests =
    post_platform (codes "site") none (dict end)
    ∷ post_dynatrace_provisioner provisioner (codes "https://d") (codes "t")
    ∷ post_dynatrace_provider first_provider (1 ∷ []) (codes "https://d") (codes "t")
    ∷ post_dynatrace_provider second_provider (1 ∷ []) (codes "https://d") (codes "t")
    ∷ post_dynatrace_provider second_provider [] (codes "https://d") (codes "t")
    ∷ attach 2 1
    ∷ []

abbrev valid : Text → Option Text
valid preset = none

serve_all-IsConsistent_example : IsConsistent 1 (serve_all valid requests empty)
serve_all-IsConsistent_example = serve_all-IsConsistent valid 1 requests empty (tt, tt, tt, tt)

-- The third and the last request were refused with 409: the second provider was created without the
-- provisioner, and it did not get it.
run_links :
    map (λ p. p.provisioner_ids) (serve_all valid requests empty).providers ≡ (1 ∷ []) ∷ [] ∷ []
unfolding serve_all
run_links = refl

-- A PATCH with an `extra` that is null leaves a row that cannot be shown.
run_null_extra :
    read_platform (redescribed unset null (platform_row 1 (codes "site") none (dict end))) ≡ none
unfolding read_platform
run_null_extra = refl

abbrev row : MachineProvider
row =
    provider_row 1 (codes "dynatrace") (field (codes "url") (str (codes "https://d")) end)
      first_provider []

abbrev source : MachineProvisioner
source = provisioner_row 1 (codes "capsule") (field (codes "parameters") (dict end) end) provisioner

abbrev config : Fields
config = field (codes "url") (str (codes "https://d")) end

read_models_same_example :
    (dynatrace_provider_read_model ascii (record row { config = stored (codes "t") config })
      ≡ dynatrace_provider_read_model ascii (record row { config = stored (codes "u") config }))
    × (capsule_read_model ascii (record source { config = stored (codes "t") config })
        ≡ capsule_read_model ascii (record source { config = stored (codes "u") config }))
    × (dynatrace_provisioner_read_model ascii (record source { config = stored (codes "t") config })
        ≡ dynatrace_provisioner_read_model ascii
            (record source { config = stored (codes "u") config }))
read_models_same_example = read_models_same ascii row source config 116 117 [] []

abbrev two_providers : Store
two_providers = record empty {
  providers =
      provider_row 1 (codes "dynatrace") config first_provider (1 ∷ [])
      ∷ provider_row 2 (codes "dynatrace") config second_provider []
      ∷ [];
  provisioners = source ∷ [];
}

pages_cover_example : pages ltb (λ n. n) (3 ∷ 1 ∷ 2 ∷ []) 2 2 ≡ 1 ∷ 2 ∷ 3 ∷ []
unfolding paginate_query sort_with insert_with
pages_cover_example = pages_cover ltb (λ n. n) (3 ∷ 1 ∷ 2 ∷ []) 2 2 (omega arith)
