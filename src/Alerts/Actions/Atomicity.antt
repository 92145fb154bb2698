-- ===== src/Alerts/Actions/Atomicity.antt =====
-- `resolve_alert` as one transaction: what a failed call leaves behind, and what a call that
-- returns has committed.
use rt_financial_anomaly_det.Prelude.{
  ℕ, String, ◌≡◌, inl, inr, none, some, [], ◌∷◌, ◌++◌, arith, head?, head?-map, head?-map-none,
  List, select, update, Option-cases, if◌then◌else◌,
}
use rt_financial_anomaly_det.Shared.Enums.{false_positive, same_status}
use rt_financial_anomaly_det.Shared.Errors.{Error}
use rt_financial_anomaly_det.Shared.Models.{Alert, Database}
use rt_financial_anomaly_det.Shared.Session.{Env, ok, err, in_session}
use rt_financial_anomaly_det.Alerts.Actions.{
  Resolution, AlertResolutionResponse, resolution_event, resolve_alert, is_resolvable, resolved,
  resolution_audit, resolution_outbox, add_compensation, compensation_outbox,
}

-- A call that raises, for whatever reason, leaves the database as it was.
pub resolve_alert_atomic :
    (env : Env) (r : Resolution) (db : Database) (e : Error)
    → (in_session (resolve_alert env r) db).0 ≡ err e
    → (in_session (resolve_alert env r) db).1 ≡ db
unfolding resolve_alert
resolve_alert_atomic env r db e h = ground arith

-- What a call that returns has committed: the row update, one audit entry, the resolution's event
-- and, for a false positive only, the compensation event.
pub record Resolves (env : Env) (r : Resolution) (db db' : Database) : Type 0 where
  pub row : Alert
  pub corr : ℕ
  pub event_type : String
  pub found : head? (select (is_resolvable r.alert_id) db.alerts) ≡ some row
  pub parsed : r.correlation_id ≡ some corr
  pub mapped : resolution_event r.target_status ≡ some event_type
  pub alerts : db'.alerts ≡ update (is_resolvable r.alert_id) (resolved env r) db.alerts
  pub audit_logs : db'.audit_logs ≡ db.audit_logs ++ resolution_audit env r corr ∷ []
  pub outbox_events : db'.outbox_events ≡ (
      if same_status r.target_status false_positive
      then (db.outbox_events ++ resolution_outbox env r corr event_type (resolved env r row) ∷ [])
        ++ compensation_outbox env r corr (resolved env r row) ∷ []
      else db.outbox_events ++ resolution_outbox env r corr event_type (resolved env r row) ∷ [])

module _ (env : Env) (r : Resolution) (db : Database) (resp : AlertResolutionResponse)
    (h : (in_session (resolve_alert env r) db).0 ≡ ok resp) where
  abbrev rows : List Alert
  rows = select (is_resolvable r.alert_id) db.alerts

  needs_row : head? rows ≡ none → ⊥
  unfolding resolve_alert
  needs_row e = ground (arith, head?-map-none (resolved env r) rows)

  needs_uuid : r.correlation_id ≡ none → ⊥
  unfolding resolve_alert
  needs_uuid e = ground arith

  needs_event : resolution_event r.target_status ≡ none → ⊥
  unfolding resolve_alert
  needs_event e = ground arith

  -- A call that returns has found an open row of that id, and has committed its update, one audit
  -- entry, the event of the resolution and, for a false positive only, the compensation event.
  pub resolve_alert-Resolves : Resolves env r db (in_session (resolve_alert env r) db).1
  unfolding resolve_alert add_compensation
  resolve_alert-Resolves = elim (Option-cases (head? rows)) [
    | inl e ↦ absurd (needs_row e)
    | inr (row, found) ↦ elim (Option-cases r.correlation_id) [
      | inl e ↦ absurd (needs_uuid e)
      | inr (corr, parsed) ↦ elim (Option-cases (resolution_event r.target_status)) [
        | inl e ↦ absurd (needs_event e)
        | inr (event_type, mapped) ↦ record {
          row = row;
          corr = corr;
          event_type = event_type;
          found = found;
          parsed = parsed;
          mapped = mapped;
          alerts = ground (arith, head?-map (resolved env r) rows found);
          audit_logs = ground (arith, head?-map (resolved env r) rows found);
          outbox_events = ground (arith, head?-map (resolved env r) rows found);
        }
      ]
    ]
  ]
