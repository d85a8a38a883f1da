-- ===== src/Api/Views.antt =====
-- app/api/routes/machines/, the typed read models of providers and provisioners
-- A route stores texts alone under "url" and "query", so that `str` gives them back.
use washing.Prelude.{
  ℕ, ◌≡◌, refl, ap, ◌∙◌, Bool, false, [], ◌∷◌, Text, codes, eq_text, eq_text→eq, eq_text_refl,
  Bool-cases, inl, inr,
}
use washing.Domain.{Strings}
use washing.Security.{Json, str, dict, Fields, end, field, set_field}
use washing.Queue.Context.{get_field}
use washing.Db.{MachineProvider, MachineProvisioner}
use washing.Auth.Oidc.{is_truthy}
use washing.Api.Store.{as_fields}
use washing.Contracts.{ProviderRead, ProvisionerRead, read_provider, read_provisioner}

-- `str(config.get(key, ""))`
abbrev pub shown_text : Json → Text
shown_text (str s) = s
shown_text v = []

-- `dict(config.get(key, {}))`
abbrev pub shown_fields : Json → Fields
shown_fields (dict fs) = fs
shown_fields v = end

pub record PrometheusProviderRead : Type 0 where
  pub provider : ProviderRead
  pub url : Text
  pub query : Text

pub record DynatraceProviderRead : Type 0 where
  pub provider : ProviderRead
  pub url : Text
  pub has_token : Bool

pub record CapsuleProvisionerRead : Type 0 where
  pub provisioner : ProvisionerRead
  pub has_token : Bool
  pub parameters : Fields

pub record DynatraceProvisionerRead : Type 0 where
  pub provisioner : ProvisionerRead
  pub url : Text
  pub has_token : Bool

module _ (strings : Strings) where
  -- `_prometheus_read_model`
  unfoldable pub prometheus_read_model : MachineProvider → PrometheusProviderRead
  unfolding get_field read_provider
  prometheus_read_model p = record {
    provider = read_provider strings p;
    url = shown_text (get_field (codes "url") (as_fields p.config));
    query = shown_text (get_field (codes "query") (as_fields p.config));
  }

  -- `_dynatrace_provider_read_model`
  unfoldable pub dynatrace_provider_read_model : MachineProvider → DynatraceProviderRead
  unfolding get_field read_provider
  dynatrace_provider_read_model p = record {
    provider = read_provider strings p;
    url = shown_text (get_field (codes "url") (as_fields p.config));
    has_token = is_truthy (get_field (codes "token") (as_fields p.config));
  }

  -- `_capsule_read_model`
  unfoldable pub capsule_read_model : MachineProvisioner → CapsuleProvisionerRead
  unfolding get_field read_provisioner
  capsule_read_model q = record {
    provisioner = read_provisioner strings q;
    has_token = is_truthy (get_field (codes "token") (as_fields q.config));
    parameters = shown_fields (get_field (codes "parameters") (as_fields q.config));
  }

  -- `_dynatrace_provisioner_read_model`
  unfoldable pub dynatrace_provisioner_read_model : MachineProvisioner → DynatraceProvisionerRead
  unfolding get_field read_provisioner
  dynatrace_provisioner_read_model q = record {
    provisioner = read_provisioner strings q;
    url = shown_text (get_field (codes "url") (as_fields q.config));
    has_token = is_truthy (get_field (codes "token") (as_fields q.config));
  }

get_field-set_field : (k : Text) (v : Json) (fs : Fields) → get_field k (set_field k v fs) ≡ v
unfolding get_field set_field
get_field-set_field k v end = rw (eq_text_refl k)
get_field-set_field k v (field j w fs) = elim (Bool-cases (eq_text j k)) [
  | inl e ↦ rw (e, e)
  | inr e ↦ rw (e, e) (get_field-set_field k v fs)
]

get_field-set_field_other :
    (k l : Text) (v : Json) (fs : Fields)
    → eq_text k l ≡ false
    → get_field l (set_field k v fs) ≡ get_field l fs
unfolding get_field set_field
get_field-set_field_other k l v end apart = rw apart
get_field-set_field_other k l v (field j w fs) apart = elim (Bool-cases (eq_text j k)) [
  | inl e ↦
      let j_apart : eq_text j l ≡ false = ap (λ x. eq_text x l) (eq_text→eq j k e) ∙ apart in
      rw (e, j_apart)
  | inr e ↦ elim (Bool-cases (eq_text j l)) [
    | inl d ↦ rw (e, d)
    | inr d ↦ rw (e, d) (get_field-set_field_other k l v fs apart)
  ]
]

abbrev token_key : Text
token_key = codes "token"

abbrev pub stored : Text → Fields → Json
stored token config = dict (set_field (codes "token") (str token) config)

-- A view of a provider or a provisioner does not depend on its token: after any two tokens that are
-- not empty were stored in one configuration, the Dynatrace view of a provider, and the Capsule and
-- the Dynatrace view of a provisioner, are the same.
pub read_models_same :
    (strings : Strings) (p : MachineProvider) (q : MachineProvisioner) (config : Fields) (c d : ℕ)
    (s t : Text)
    → (dynatrace_provider_read_model strings (record p { config = stored (c ∷ s) config })
        ≡ dynatrace_provider_read_model strings (record p { config = stored (d ∷ t) config }))
      × (capsule_read_model strings (record q { config = stored (c ∷ s) config })
          ≡ capsule_read_model strings (record q { config = stored (d ∷ t) config }))
      × (dynatrace_provisioner_read_model strings (record q { config = stored (c ∷ s) config })
          ≡ dynatrace_provisioner_read_model strings (record q { config = stored (d ∷ t) config }))
unfolding dynatrace_provider_read_model capsule_read_model dynatrace_provisioner_read_model eq_text
read_models_same strings p q config c d s t =
    rw
      (
        get_field-set_field token_key (str (c ∷ s)) config,
        get_field-set_field token_key (str (d ∷ t)) config,
        get_field-set_field_other token_key (codes "url") (str (c ∷ s)) config refl,
        get_field-set_field_other token_key (codes "url") (str (d ∷ t)) config refl,
        get_field-set_field_other token_key (codes "parameters") (str (c ∷ s)) config refl,
        get_field-set_field_other token_key (codes "parameters") (str (d ∷ t)) config refl,
      )
      (refl, refl, refl)
