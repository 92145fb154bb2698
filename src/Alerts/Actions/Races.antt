-- ===== src/Alerts/Actions/Races.antt =====
-- Who wins where several analysts, or an analyst and the scheduler, act on one alert.
use rt_financial_anomaly_det.Prelude.{
  subst, select_sound, String, select-and, select-update, update_unmatched, ℕ, ◌≡◌, refl, ◌∙◌, true,
  false, some, List, [], ◌∷◌, arith, select, if◌then◌else◌,
}
use rt_financial_anomaly_det.Shared.Enums.{
  escalated_email, escalated_slack, AlertStatus, is_terminal, approved, blocked, false_positive,
}
use rt_financial_anomaly_det.Shared.Errors.{resource_not_found, invalid_state_transition}
use rt_financial_anomaly_det.Shared.Models.{Alert, Database}
use rt_financial_anomaly_det.Shared.Session.{Env, ok, err, in_session}
use rt_financial_anomaly_det.Alerts.Actions.{
  Resolution, AlertResolutionResponse, is_resolution, resolution_event, resolve_alert, has_id,
  is_resolvable, resolved, is_valid_pre_resolution, resolution_response,
}
use rt_financial_anomaly_det.Alerts.Actions.Atomicity.{resolve_alert-Resolves}

-- The requests that reach the UPDATE.
abbrev pub IsWellFormed : Resolution → Type 0
IsWellFormed r =
    (is_resolution r.target_status ≡ true) × ((corr : ℕ) × (r.correlation_id ≡ some corr))

module _ (id : ℕ) where
  -- In a table with one row of an id, the guarded SELECT finds that row exactly if it is open.
  select-resolvable :
      (xs : List Alert) (a : Alert)
      → select (has_id id) xs ≡ a ∷ []
      → select (is_resolvable id) xs ≡ (if is_terminal a.status then [] else a ∷ [])
  unfolding is_resolvable
  select-resolvable xs a h =
      rw (select-and (has_id id) (λ a. is_valid_pre_resolution a.status) xs, h)
        (unfold select is_terminal in ground arith)

  select-resolvable_none :
      (xs : List Alert) → select (has_id id) xs ≡ [] → select (is_resolvable id) xs ≡ []
  unfolding is_resolvable
  select-resolvable_none xs h =
      rw (select-and (has_id id) (λ a. is_valid_pre_resolution a.status) xs, h)
        (unfold select in refl)

event_of_resolution :
    (s : AlertStatus) → is_resolution s ≡ true → (e : String) × (resolution_event s ≡ some e)
unfolding is_resolution resolution_event
event_of_resolution approved h = (_, refl)
event_of_resolution blocked h = (_, refl)
event_of_resolution false_positive h = (_, refl)
event_of_resolution AlertStatus.pending h = cc
event_of_resolution escalated_email h = cc
event_of_resolution escalated_slack h = cc

mapped_is_terminal :
    (s : AlertStatus) {e : String} → resolution_event s ≡ some e → is_terminal s ≡ true
unfolding resolution_event is_terminal
mapped_is_terminal s h = ground arith

terminal_of_resolution : (s : AlertStatus) → is_resolution s ≡ true → is_terminal s ≡ true
unfolding is_resolution is_terminal
terminal_of_resolution s h = h

module _ (env : Env) (r : Resolution) (db : Database) (good : IsWellFormed r) where
  -- A request for a resolution status, with a UUID as correlation id, on an id that no row has: 404,
  -- and nothing is written.
  pub resolve_alert_missing :
      select (has_id r.alert_id) db.alerts ≡ []
      → in_session (resolve_alert env r) db ≡ (err (resource_not_found "Alert" r.alert_id), db)
  unfolding resolve_alert
  resolve_alert_missing h =
      let none_open = select-resolvable_none r.alert_id db.alerts h in
      simp (good.0, good.1.1, none_open, update_unmatched _ (resolved env r) db.alerts none_open, h)

  -- A request for a resolution status, with a UUID as correlation id, on an id whose one row is resolved already: 409 with the row's status,
  -- and nothing is written.
  pub resolve_alert_closed :
      (a : Alert)
      → select (has_id r.alert_id) db.alerts ≡ a ∷ []
      → is_terminal a.status ≡ true
      → in_session (resolve_alert env r) db
        ≡ (err (invalid_state_transition a.status r.target_status r.alert_id), db)
  unfolding resolve_alert
  resolve_alert_closed a h t =
      let none_open : select (is_resolvable r.alert_id) db.alerts ≡ [] =
        select-resolvable r.alert_id db.alerts a h ∙ rw t refl in
      simp (good.0, good.1.1, none_open, update_unmatched _ (resolved env r) db.alerts none_open, h)

  -- A request for a resolution status, with a UUID as correlation id, on an id whose one row is open and the commit is accepted: the call
  -- returns the new status, and the time of its clock.
  pub resolve_alert_open :
      (a : Alert)
      → select (has_id r.alert_id) db.alerts ≡ a ∷ []
      → is_terminal a.status ≡ false
      → env.accepted ≡ true
      → (resp : AlertResolutionResponse) × ((in_session (resolve_alert env r) db).0 ≡ ok resp)
        × (resp.status ≡ r.target_status)
        × (resp.resolved_at ≡ env.now)
  unfolding resolve_alert
  resolve_alert_open a h open_ accepted =
      let row : select (is_resolvable r.alert_id) db.alerts ≡ a ∷ [] =
        select-resolvable r.alert_id db.alerts a h ∙ rw open_ refl in
      let event = event_of_resolution r.target_status good.0 in
      (
        resolution_response env r good.1.0,
        simp (good.0, good.1.1, row, accepted, event.1),
        unfold resolution_response in refl,
        unfold resolution_response in refl,
      )

module _ (env : Env) (r : Resolution) (db : Database) (a : Alert) (resp : AlertResolutionResponse)
    (one : select (has_id r.alert_id) db.alerts ≡ a ∷ [])
    (done : (in_session (resolve_alert env r) db).0 ≡ ok resp) where
  -- The call that returned found its row open.
  resolved_was_open : select (is_resolvable r.alert_id) db.alerts ≡ a ∷ []
  resolved_was_open =
      let res = resolve_alert-Resolves env r db resp done in
      ground (arith, select-resolvable r.alert_id db.alerts a one, res.found)

  -- It left exactly one row of that id, the resolved one.
  resolved_row :
      select (has_id r.alert_id) (in_session (resolve_alert env r) db).1.alerts
      ≡ resolved env r a ∷ []
  resolved_row =
      let res = resolve_alert-Resolves env r db resp done in
      rw
        (
          res.alerts,
          select-update (has_id r.alert_id) (is_resolvable r.alert_id) (resolved env r)
              (λ x. unfold resolved in refl) db.alerts,
          one,
        )
        (rw (select_sound (is_resolvable r.alert_id) db.alerts _ _ resolved_was_open) refl)

  resolved-is_terminal : is_terminal (resolved env r a).status ≡ true
  unfolding resolved
  resolved-is_terminal =
      let res = resolve_alert-Resolves env r db resp done in
      mapped_is_terminal r.target_status res.mapped

-- The first of two analysts wins: once a call has resolved the one row of an id, a next call on it, by
-- whomever, to whatever resolution status and with a UUID as correlation id, is answered 409 with the first call's status and writes
-- nothing.
pub resolve_alert_twice :
    (env env' : Env) (r r' : Resolution) (db : Database) (a : Alert)
    (resp : AlertResolutionResponse)
    → select (has_id r.alert_id) db.alerts ≡ a ∷ []
    → (in_session (resolve_alert env r) db).0 ≡ ok resp
    → r'.alert_id ≡ r.alert_id
    → IsWellFormed r'
    → in_session (resolve_alert env' r') (in_session (resolve_alert env r) db).1 ≡ (
      err (invalid_state_transition r.target_status r'.target_status r.alert_id),
      (in_session (resolve_alert env r) db).1,
    )
unfolding resolved
resolve_alert_twice env env' r r' db a resp one done same good' =
    let db' = (in_session (resolve_alert env r) db).1 in
    subst
      (λ k.
        in_session (resolve_alert env' r') db'
        ≡ (err (invalid_state_transition r.target_status r'.target_status k), db'))
      same
      (resolve_alert_closed env' r' db' good' (resolved env r a)
        (rw same (resolved_row env r db a resp one done))
        (resolved-is_terminal env r db a resp one done))
