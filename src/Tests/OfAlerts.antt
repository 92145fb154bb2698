-- ===== src/Tests/OfAlerts.antt =====
-- The theorems on alerts.
use rt_financial_anomaly_det.Prelude.{◌≡◌, refl, true, false, some, [], ◌∷◌, ltb}
use rt_financial_anomaly_det.Shared.Enums.{approved, blocked, false_positive}
use rt_financial_anomaly_det.Shared.Errors.{invalid_state_transition}
use rt_financial_anomaly_det.Shared.Session.{Env, err, in_session}
use rt_financial_anomaly_det.Alerts.Actions.{
  AlertResolutionResponse, resolve_alert, resolution_response,
}
use rt_financial_anomaly_det.Alerts.Actions.Atomicity.{Resolves, resolve_alert-Resolves}
use rt_financial_anomaly_det.Alerts.Actions.Races.{resolve_alert_twice}
use rt_financial_anomaly_det.Alerts.Lifecycle.{Evolves}
use rt_financial_anomaly_det.Alerts.Interleaving.{analyst, tick, run, run-Evolves}
use rt_financial_anomaly_det.Tests.Data.{
  env_at, database, resolution, open_alert, escalation_settings, uuid_at,
}

abbrev refusing : Env
refusing = record { now = 200; uuid4 = uuid_at; accepted = false }

abbrev answer : AlertResolutionResponse
unfolding resolution_response
answer = resolution_response (env_at 200) (resolution false_positive "ana") 5

resolve_alert-Resolves_example :
    Resolves
      (env_at 200)
      (resolution false_positive "ana")
      database
      (in_session (resolve_alert (env_at 200) (resolution false_positive "ana")) database).1
unfolding resolve_alert resolution_response rt_financial_anomaly_det.Alerts.Actions.is_resolution
    rt_financial_anomaly_det.Prelude.select rt_financial_anomaly_det.Alerts.Actions.is_resolvable
    rt_financial_anomaly_det.Alerts.Actions.resolution_event
resolve_alert-Resolves_example =
    resolve_alert-Resolves (env_at 200) (resolution false_positive "ana") database answer refl

resolve_alert_twice_example :
    in_session
      (resolve_alert (env_at 300) (resolution blocked "bob"))
      (in_session (resolve_alert (env_at 200) (resolution false_positive "ana")) database).1
    ≡ (
      err (invalid_state_transition false_positive blocked 11),
      (in_session (resolve_alert (env_at 200) (resolution false_positive "ana")) database).1,
    )
unfolding resolve_alert resolution_response rt_financial_anomaly_det.Prelude.select
    rt_financial_anomaly_det.Alerts.Actions.is_resolution
    rt_financial_anomaly_det.Alerts.Actions.is_resolvable
    rt_financial_anomaly_det.Alerts.Actions.resolution_event
resolve_alert_twice_example =
    resolve_alert_twice (env_at 200) (env_at 300) (resolution false_positive "ana")
      (resolution blocked "bob") database open_alert answer refl refl refl (refl, (5, refl))

run-Evolves_example :
    Evolves database.alerts
      (run
        (tick escalation_settings (λ id. false) (env_at 160)
          ∷ analyst (env_at 200) (resolution approved "ana")
          ∷ tick escalation_settings (λ id. false) (env_at 400)
          ∷ [])
        database).alerts
run-Evolves_example =
    run-Evolves
      (tick escalation_settings (λ id. false) (env_at 160)
        ∷ analyst (env_at 200) (resolution approved "ana")
        ∷ tick escalation_settings (λ id. false) (env_at 400)
        ∷ [])
      database
