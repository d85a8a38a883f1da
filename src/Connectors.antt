-- ===== src/Connectors.antt =====
-- internal/infra/connectors/base.py and internal/infra/connectors/registry.py
pub mod Presets
-- What a connector answers is its protocol's: a list of records, or what it raises.
use washing.Prelude.{
  ℕ, Option, none, some, List, [], ◌∷◌, ◌++◌, false, Text, codes, eq_text, Float, if◌then◌else◌,
}
use washing.Security.{Json, Failure}
use washing.Db.{Machine, MachineProvider}

pub record MachineRecord : Type 0 where
  pub external_id : Option Text
  pub hostname : Text
  pub application : Option Text
  pub region : Option Text
  pub environment : Option Text
  pub cpu : Option Float
  pub ram_mb : Option Float
  pub disk_mb : Option Float
  pub extra : Json

-- A date is an ordinal.
pub record MetricRecord : Type 0 where
  pub value : Float
  pub date : Option ℕ
  pub machine_id : Option ℕ
  pub machine_external_id : Option Text
  pub hostname : Option Text

-- A value, or an exception.
pub data Answer (A : Type 0) : Type 0 where
  raised : Failure → Answer A
  answered : A → Answer A

pub data MetricCollector : Type 0 where
  mock_metrics empty_metrics : MetricCollector

-- The protocol of the collectors.
abbrev pub Collect : Type 0
Collect = MetricCollector → MachineProvider → List Machine → Answer (List MetricRecord)

abbrev pub value_error : Text → Failure
value_error message = record { is_json_decode_error = false; message = message }

module _ {A : Type 0} where
  -- `d[key]` of a dictionary of connectors
  unfoldable pub lookup_connector : Text → List (Text × A) → Option A
  unfolding eq_text
  lookup_connector name [] = none
  lookup_connector name ((n, connector) ∷ rest) =
      if eq_text n name then some connector else lookup_connector name rest

abbrev pub metric_collectors : List (Text × MetricCollector)
metric_collectors =
    (codes "mock", mock_metrics)
    ∷ (codes "mock_metric", mock_metrics)
    ∷ (codes "prometheus", empty_metrics)
    ∷ (codes "dynatrace", empty_metrics)
    ∷ []

abbrev pub or_value_error : {A : Type 0} → Text → Option A → Answer A
or_value_error message none = raised (value_error message)
or_value_error message (some connector) = answered connector

unfoldable pub get_metric_collector : Text → Answer MetricCollector
unfolding lookup_connector
get_metric_collector connector_type =
    or_value_error (codes "unsupported metric collector type: " ++ connector_type)
      (lookup_connector connector_type metric_collectors)

pub data Provisioning : Type 0 where
  mock_inventory capsule_inventory dynatrace_inventory : Provisioning

abbrev pub machine_provisioners : List (Text × Provisioning)
machine_provisioners =
    (codes "mock", mock_inventory)
    ∷ (codes "mock_inventory", mock_inventory)
    ∷ (codes "capsule", capsule_inventory)
    ∷ (codes "dynatrace", dynatrace_inventory)
    ∷ []

unfoldable pub get_machine_provisioner : Text → Answer Provisioning
unfolding lookup_connector
get_machine_provisioner connector_type =
    or_value_error (codes "unsupported machine provisioner type: " ++ connector_type)
      (lookup_connector connector_type machine_provisioners)
