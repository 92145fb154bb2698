-- ===== src/Alerts/Interleaving.antt =====
-- Analysts and the scheduler on one alerts table, in any order: each of their transactions is one
-- step, as the row locks and the conditional UPDATEs of the source make it.
use rt_financial_anomaly_det.Prelude.{
  ℕ, String, ◌⊎◌, inl, inr, ◌+◌, ◌≡◌, refl, sym, ap, subst, Bool, true, false, Option, none, some,
  List, [], ◌∷◌, arith,
}
use rt_financial_anomaly_det.Shared.Enums.{
  AlertStatus, escalated_email, escalated_slack, is_terminal, same_status, same_status_lem,
}
use rt_financial_anomaly_det.Shared.Models.{Alert, Database}
use rt_financial_anomaly_det.Shared.Session.{Env, in_session, Result-cases}
use rt_financial_anomaly_det.Alerts.Actions.{
  Resolution, resolve_alert, resolved, resolution_event, is_resolvable,
}
use rt_financial_anomaly_det.Alerts.Actions.Atomicity.{resolve_alert_atomic, resolve_alert-Resolves}
use rt_financial_anomaly_det.Alerts.Escalation.{
  Settings, Tier, email_tier, slack_tier, is_still, record_escalation, escalate, escalate_all,
  run_tier, due_alerts, run_escalation_tick,
}
use rt_financial_anomaly_det.Alerts.Lifecycle.{
  to_email, to_slack, to_resolved, Lifecycle, stay, step, RowEvolves, Evolves, Evolves-refl,
  Evolves-trans, Evolves-update,
}

mapped_is_terminal :
    (s : AlertStatus) {e : String} → resolution_event s ≡ some e → is_terminal s ≡ true
unfolding resolution_event is_terminal
mapped_is_terminal s h = ground arith

module _ (env : Env) (r : Resolution) (a : Alert) where
  resolvable_is_open : is_resolvable r.alert_id a ≡ true → is_terminal a.status ≡ false
  unfolding is_resolvable is_terminal
  resolvable_is_open h = ground arith

  resolved-RowEvolves :
      is_terminal r.target_status ≡ true
      → is_resolvable r.alert_id a ≡ true
      → RowEvolves a (resolved env r a)
  unfolding resolved
  resolved-RowEvolves target h = record {
    same_id = refl;
    same_transaction = refl;
    same_user = refl;
    same_severity = refl;
    same_score = refl;
    same_created = refl;
    lifecycle = step (to_resolved (resolvable_is_open h) target) stay;
    frozen = λ t. ground (arith, resolvable_is_open h);
  }

-- Whatever a call of `resolve_alert` does, the table evolves.
pub resolve_alert-Evolves :
    (env : Env) (r : Resolution) (db : Database)
    → Evolves db.alerts (in_session (resolve_alert env r) db).1.alerts
resolve_alert-Evolves env r db = elim (Result-cases (in_session (resolve_alert env r) db).0) [
  | inl (resp, h) ↦
      let res = resolve_alert-Resolves env r db resp h in
      subst (Evolves db.alerts) (sym res.alerts) (
        Evolves-update _ _
          (λ a. resolved-RowEvolves env r a (mapped_is_terminal r.target_status res.mapped))
          db.alerts)
  | inr (e, h) ↦
      subst (Evolves db.alerts)
        (sym (ap (λ (d : Database). d.alerts) (resolve_alert_atomic env r db e h)))
        (Evolves-refl db.alerts)
]

-- Each tier takes an alert from its source status one edge along the state machine.
module _ (now : ℕ) (a : Alert) where
  email_tier-RowEvolves :
      same_status a.status AlertStatus.pending ≡ true → RowEvolves a (email_tier.escalated now a)
  unfolding is_terminal
  email_tier-RowEvolves h = record {
    same_id = refl;
    same_transaction = refl;
    same_user = refl;
    same_severity = refl;
    same_score = refl;
    same_created = refl;
    lifecycle =
        subst (λ s. Lifecycle s escalated_email)
          (sym (same_status_lem a.status AlertStatus.pending h)) (step to_email stay);
    frozen = λ t. ground arith;
  }

  slack_tier-RowEvolves :
      same_status a.status escalated_email ≡ true → RowEvolves a (slack_tier.escalated now a)
  unfolding is_terminal
  slack_tier-RowEvolves h = record {
    same_id = refl;
    same_transaction = refl;
    same_user = refl;
    same_severity = refl;
    same_score = refl;
    same_created = refl;
    lifecycle =
        subst (λ s. Lifecycle s escalated_slack) (sym (same_status_lem a.status escalated_email h))
          (step to_slack stay);
    frozen = λ t. ground arith;
  }

module _ (tier : Tier)
    (moves : (now : ℕ) (a : Alert)
      → same_status a.status tier.source ≡ true
      → RowEvolves a (tier.escalated now a))
    (env : Env) where
  alerts-record_escalation :
      (place : ℕ) (row : Option Alert) (db : Database)
      → (record_escalation tier env place row db).1.alerts ≡ db.alerts
  unfolding record_escalation
  alerts-record_escalation place none db = refl
  alerts-record_escalation place (some row) db = refl

  is_still_source :
      (id : ℕ) (a : Alert) → is_still tier id a ≡ true → same_status a.status tier.source ≡ true
  unfolding is_still
  is_still_source id a h = ground arith

  escalate-Evolves :
      (place : ℕ) (a : Alert) (db : Database)
      → Evolves db.alerts (escalate tier env place a db).1.alerts
  unfolding escalate
  escalate-Evolves place a db =
      subst (Evolves db.alerts) (sym (alerts-record_escalation place _ _))
        (Evolves-update _ _ (λ b h. moves env.now b (is_still_source a.id b h)) db.alerts)

  escalate_all-Evolves :
      (place : ℕ) (due : List Alert) (db : Database)
      → Evolves db.alerts (escalate_all tier env place due db).1.alerts
  unfolding escalate_all
  escalate_all-Evolves place [] db = Evolves-refl db.alerts
  escalate_all-Evolves place (a ∷ due) db =
      let next = (escalate tier env place a db).1 in
      Evolves-trans db.alerts next.alerts _ (escalate-Evolves place a db)
        (escalate_all-Evolves (place + 2) due next)

  run_tier-Evolves :
      (settings : Settings) (locked : ℕ → Bool) (place : ℕ) (db : Database)
      → Evolves db.alerts (run_tier tier settings env locked place db).1.alerts
  unfolding run_tier
  run_tier-Evolves settings locked place db =
      escalate_all-Evolves place (due_alerts tier settings env.now locked db) db

-- The database after a tick is the old one, or that of the two tiers one after the other.
abbrev both_tiers : Settings → (ℕ → Bool) → Env → Database → (ℕ × Database) × (ℕ × Database)
both_tiers settings locked env db =
    let email = run_tier email_tier settings env locked 0 db in
    (email, run_tier slack_tier settings env locked (email.0 + email.0) email.1)

module _ (settings : Settings) (locked : ℕ → Bool) (env : Env) (db : Database) where
  tick_cases :
      ((in_session (run_escalation_tick settings locked env) db).1 ≡ db)
      ⊎ ((in_session (run_escalation_tick settings locked env) db).1
          ≡ (both_tiers settings locked env db).1.1)
  unfolding run_escalation_tick
  tick_cases = ground arith

  pub run_escalation_tick-Evolves :
      Evolves db.alerts (in_session (run_escalation_tick settings locked env) db).1.alerts
  run_escalation_tick-Evolves =
      let (email, slack) = both_tiers settings locked env db in
      let committed : Evolves db.alerts slack.1.alerts =
        Evolves-trans db.alerts email.1.alerts _
          (run_tier-Evolves email_tier email_tier-RowEvolves env settings locked 0 db)
          (run_tier-Evolves slack_tier slack_tier-RowEvolves env settings locked (email.0 + email.0)
            email.1) in
      elim tick_cases [
        | inl same ↦
            subst (Evolves db.alerts) (sym (ap (λ (d : Database). d.alerts) same))
              (Evolves-refl db.alerts)
        | inr done ↦
            subst (Evolves db.alerts) (sym (ap (λ (d : Database). d.alerts) done)) committed
      ]

-- One transaction on the alerts table.
pub data Action : Type 0 where
  analyst : Env → Resolution → Action
  tick : Settings → (ℕ → Bool) → Env → Action

unfoldable pub act : Action → Database → Database
act (analyst env r) db = (in_session (resolve_alert env r) db).1
act (tick settings locked env) db = (in_session (run_escalation_tick settings locked env) db).1

unfoldable pub run : List Action → Database → Database
unfolding act
run [] db = db
run (a ∷ rest) db = run rest (act a db)

act-Evolves : (a : Action) (db : Database) → Evolves db.alerts (act a db).alerts
unfolding act
act-Evolves (analyst env r) db = resolve_alert-Evolves env r db
act-Evolves (tick settings locked env) db = run_escalation_tick-Evolves settings locked env db

-- Whatever analysts and schedulers do, in any order, with any clocks and any refused commits, every
-- alert keeps its place and its identity, its status moves only along the documented state
-- machine, and an alert whose status is terminal is not changed at all.
pub run-Evolves :
    (actions : List Action) (db : Database) → Evolves db.alerts (run actions db).alerts
unfolding run
run-Evolves [] db = Evolves-refl db.alerts
run-Evolves (a ∷ rest) db =
    Evolves-trans db.alerts (act a db).alerts _ (act-Evolves a db) (run-Evolves rest (act a db))
