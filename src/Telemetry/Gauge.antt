-- ===== src/Telemetry/Gauge.antt =====
-- `Gauge` of shared/telemetry/metrics.py.
use rt_financial_anomaly_det.Prelude.{String, List, ◌++◌}
use rt_financial_anomaly_det.Shared.Json.{Json}
use rt_financial_anomaly_det.Telemetry.Series.{
  Numbers, Labels, key_of, value, alter, header_lines, value_lines,
}

pub record Gauge (N : Type 0) : Type 0 where
  pub name : String
  pub description : String
  pub label_names : List String
  pub values : List (Labels × N)

module _ {N : Type 0} (num : Numbers N) (str : Json → String) where
  unfoldable pub change : (N → N) → List (String × Json) → Gauge N → Gauge N
  unfolding alter key_of
  change f labels g = record g {
    values = alter num.float_zero f (key_of str g.label_names labels) g.values;
  }

  -- `set`
  unfoldable pub set : N → List (String × Json) → Gauge N → Gauge N
  unfolding change
  set amount labels g = change (λ v. amount) labels g

  -- `inc`
  unfoldable pub inc : N → List (String × Json) → Gauge N → Gauge N
  unfolding change
  inc amount labels g = change (λ v. num.add v amount) labels g

  -- `dec`
  unfoldable pub dec : N → List (String × Json) → Gauge N → Gauge N
  unfolding change
  dec amount labels g = change (λ v. num.subtract v amount) labels g

  -- `get`
  unfoldable pub get : List (String × Json) → Gauge N → N
  unfolding value key_of
  get labels g = value num.float_zero (key_of str g.label_names labels) g.values

module _ {N : Type 0} (num : Numbers N) where
  -- `collect`
  unfoldable pub collect : Gauge N → List String
  unfolding value_lines
  collect g =
      header_lines g.name g.description "gauge" ++ value_lines num g.name g.label_names g.values
