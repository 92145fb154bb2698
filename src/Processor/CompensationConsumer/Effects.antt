-- ===== src/Processor/CompensationConsumer/Effects.antt =====
-- What `CompensationConsumer` leaves of one event: its compensation and its inbox row together, or
-- nothing.
use rt_financial_anomaly_det.Prelude.{
  ℕ, ap, sym, subst, ◌∙◌, ◌≡◌, refl, ◌⊎◌, inl, inr, Bool, true, false, some, [], ◌∷◌, ◌++◌, arith,
  any, head?, select, Bool-cases, Option-cases,
}
use rt_financial_anomaly_det.Shared.Errors.{Error}
use rt_financial_anomaly_det.Shared.Session.Reads.{Reads-result}
use rt_financial_anomaly_det.Processor.TransactionConsumer.Session.{
  is_event_processed_sound, is_event_processed-Reads,
}
use rt_financial_anomaly_det.Shared.Json.{
  null, flag, number, uuid, text, time, array, object, Fields, get,
}
use rt_financial_anomaly_det.Shared.Models.{Database}
use rt_financial_anomaly_det.Shared.Session.{
  Env, Result, ok, err, Session, in_session, Result-cases,
}
use rt_financial_anomaly_det.Detection.Values.{truthy}
use rt_financial_anomaly_det.Processor.Context.{has_user}
use rt_financial_anomaly_det.Processor.Pipeline.{write_inbox, is_inbox_row}
use rt_financial_anomaly_det.Processor.Compensation.{
  recalculate_user_risk_profile, write_compensation,
}
use rt_financial_anomaly_det.Processor.Messages.{Consumer, is_event_processed}
use rt_financial_anomaly_det.Processor.CompensationConsumer.{
  parse_uuid, parse_alert_id, compensate, try_compensate, compensate_once,
}

module _ (consumer : Consumer) (env : Env) (event_id : ℕ) (payload : Fields) (db : Database) where
  abbrev compensated_db : Result Bool × Database
  compensated_db = in_session (compensate consumer env event_id payload) db

  -- A compensation that raises leaves the database as it was.
  compensate_atomic : {e : Error} → compensated_db.0 ≡ err e → compensated_db.1 ≡ db
  unfolding compensate parse_alert_id parse_uuid recalculate_user_risk_profile write_inbox
  compensate_atomic h = ground arith

  pub record Compensates (db' : Database) : Type 0 where
    pub user_id : ℕ
    pub names_user : get "user_id" payload ≡ some (uuid user_id)
    pub inbox_fresh : any (is_inbox_row event_id consumer.group) db.processed_events ≡ false
    pub processed_events :
        db'.processed_events
        ≡ db.processed_events
          ++ record { event_id = event_id; consumer_group = consumer.group; processed_at = env.now }
            ∷ []
    pub risk_profiles :
        db'.risk_profiles
        ≡ (write_compensation env.now user_id
            (head? (select (has_user user_id) db.risk_profiles))
            db).risk_profiles
    pub alerts : db'.alerts ≡ db.alerts

  user_of :
      {b : Bool}
      → compensated_db.0 ≡ ok b
      → (user_id : ℕ) × (get "user_id" payload ≡ some (uuid user_id))
  unfolding compensate parse_alert_id parse_uuid
  user_of h = elim (Option-cases (get "user_id" payload)) [
    | inl e ↦ absurd (ground arith)
    | inr (uuid n, e) ↦ (n, e)
    | inr (null, e) ↦ absurd (ground arith)
    | inr (flag b, e) ↦ absurd (ground arith)
    | inr (number d, e) ↦ absurd (ground arith)
    | inr (text s, e) ↦ absurd (ground arith)
    | inr (time t, e) ↦ absurd (ground arith)
    | inr (array xs, e) ↦ absurd (ground arith)
    | inr (object o, e) ↦ absurd (ground arith)
  ]

  compensate-Compensates : {b : Bool} → compensated_db.0 ≡ ok b → Compensates compensated_db.1
  unfolding compensate parse_alert_id parse_uuid recalculate_user_risk_profile write_inbox
      write_compensation
  compensate-Compensates h =
      let (n, e) = user_of h in
      record {
        user_id = n;
        names_user = e;
        inbox_fresh = ground arith;
        processed_events = ground arith;
        risk_profiles = ground arith;
        alerts = ground arith;
      }

  compensate_true : {b : Bool} → compensated_db.0 ≡ ok b → b ≡ true
  unfolding compensate parse_alert_id parse_uuid recalculate_user_risk_profile write_inbox
  compensate_true h = ground arith

  abbrev tried : Result Bool × Database
  tried = in_session (try_compensate consumer env event_id payload) db

  tried_ok :
      {b : Bool}
      → truthy (get "user_id" payload) ≡ true
      → compensated_db.0 ≡ ok b
      → (tried.0 ≡ ok b) × (compensated_db.1 ≡ tried.1)
  unfolding try_compensate
  tried_ok named h = ((ground (arith, named, h)), (ground (arith, named, h)))

  -- The `try` block compensates and is acknowledged, or is not acknowledged and writes nothing.
  tried-cases :
      ((tried.0 ≡ ok false) × (tried.1 ≡ db)) ⊎ ((tried.0 ≡ ok true) × Compensates tried.1)
  unfolding try_compensate
  tried-cases = elim (Bool-cases (truthy (get "user_id" payload))) [
    | inr missing ↦ inl ((ground (arith, missing)), (ground (arith, missing)))
    | inl named ↦ elim (Result-cases compensated_db.0) [
      | inr (e, h) ↦
          inl ((ground (arith, named, h)), (ground (arith, named, h, compensate_atomic h)))
      | inl (b, h) ↦
          let (result, same) = tried_ok named h in
          inr
            (result ∙ ap ok (compensate_true h), subst Compensates same (compensate-Compensates h))
    ]
  ]

  abbrev once : Result Bool × Database
  once = in_session (compensate_once consumer env event_id payload) db

  abbrev start : Session
  start = record { committed = db; working = db }

  checked :
      {r : Result Bool}
      → (is_event_processed consumer event_id start).0 ≡ r
      → is_event_processed consumer event_id start ≡ (r, start)
  checked h =
      Reads-result (is_event_processed consumer event_id) start
        (is_event_processed-Reads consumer event_id) h

  once_new : (is_event_processed consumer event_id start).0 ≡ ok false → once ≡ tried
  unfolding compensate_once
  once_new h = rw (checked h) refl

  once_seen : (is_event_processed consumer event_id start).0 ≡ ok true → once ≡ (ok true, db)
  unfolding compensate_once
  once_seen h = rw (checked h) refl

  once_raised :
      {e : Error} → (is_event_processed consumer event_id start).0 ≡ err e → once ≡ (err e, db)
  unfolding compensate_once
  once_raised h = rw (checked h) refl

  abbrev pub Compensated : Type 0
  Compensated = (once.0 ≡ ok true) × Compensates once.1

  -- The session of one event writes nothing, and is then acknowledged only if the event was in the
  -- inbox before; or it commits the compensation of the user's profile and the inbox row together.
  pub compensate_once-cases :
      ((once.1 ≡ db)
        × (once.0 ≡ ok true
            → any (is_inbox_row event_id consumer.group) db.processed_events ≡ true))
      ⊎ Compensated
  compensate_once-cases = elim (Result-cases (is_event_processed consumer event_id start).0) [
    | inr (e, h) ↦ inl (
      ap (λ o. o.1) (once_raised h),
      λ answered. absurd (ground (arith, once_raised h, answered)),
    )
    | inl (b, h) ↦ elim (Bool-cases b) [
      | inl known ↦
          let seen = h ∙ ap ok known in
          inl (
            ap (λ o. o.1) (once_seen seen),
            λ answered. is_event_processed_sound consumer event_id start seen,
          )
      | inr fresh ↦
          let new = once_new (h ∙ ap ok fresh) in
          elim tried-cases [
            | inl (denied, same) ↦ inl (
              ap (λ o. o.1) new ∙ same,
              λ answered. absurd (ground (arith, new, denied, answered)),
            )
            | inr (answered, done) ↦
                inr (ap (λ o. o.0) new ∙ answered, subst Compensates (sym (ap (λ o. o.1) new)) done)
          ]
    ]
  ]
