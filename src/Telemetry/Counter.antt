-- ===== src/Telemetry/Counter.antt =====
-- `Counter` of shared/telemetry/metrics.py.
use rt_financial_anomaly_det.Prelude.{String, List, ◌++◌, if◌then◌else◌}
use rt_financial_anomaly_det.Shared.Errors.{value_error}
use rt_financial_anomaly_det.Shared.Json.{Json}
use rt_financial_anomaly_det.Shared.Session.{Result, ok, err}
use rt_financial_anomaly_det.Telemetry.Series.{
  Numbers, Labels, key_of, value, alter, header_lines, value_lines,
}

pub record Counter (N : Type 0) : Type 0 where
  pub name : String
  pub description : String
  pub label_names : List String
  pub values : List (Labels × N)

module _ {N : Type 0} (num : Numbers N) (str : Json → String) where
  -- `inc`; a negative increment raises
  unfoldable pub inc : N → List (String × Json) → Counter N → Result (Unit {0}) × Counter N
  unfolding alter key_of
  inc amount labels c = if num.less amount num.float_zero then (err value_error, c) else (
    ok tt,
    record c {
      values =
          alter num.float_zero (λ v. num.add v amount) (key_of str c.label_names labels) c.values;
    },
  )

  -- `get`
  unfoldable pub get : List (String × Json) → Counter N → N
  unfolding value key_of
  get labels c = value num.float_zero (key_of str c.label_names labels) c.values

module _ {N : Type 0} (num : Numbers N) where
  -- `collect`
  unfoldable pub collect : Counter N → List String
  unfolding value_lines
  collect c =
      header_lines c.name c.description "counter" ++ value_lines num c.name c.label_names c.values
