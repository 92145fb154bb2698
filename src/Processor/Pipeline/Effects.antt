-- ===== src/Processor/Pipeline/Effects.antt =====
-- `process_transaction_event` as one transaction: what a failed run leaves behind, and what a run
-- that returns has committed.
use rt_financial_anomaly_det.Prelude.{
  ℕ, ◌+◌, String, ap, sym, subst, ◌∙◌, ◌⊎◌, ◌≡◌, refl, inl, inr, true, false, Option, none, some,
  List, [], ◌∷◌, ◌++◌, ◌==◌, arith, any, select, ==_iff, update, if◌then◌else◌, Option-cases,
}
use rt_financial_anomaly_det.Prelude.Appended.{unselected, selected}
use rt_financial_anomaly_det.Shared.Errors.{Error, value_error}
use rt_financial_anomaly_det.Shared.Json.{Json, Fields, get}
use rt_financial_anomaly_det.Shared.Models.{Alert, RiskProfile, Database}
use rt_financial_anomaly_det.Shared.Session.{
  Env, Result, ok, err, Session, in_session, Result-cases,
}
use rt_financial_anomaly_det.Shared.Session.Reads.{Reads, Reads-result, Reads-or_raise}
use rt_financial_anomaly_det.Detection.Schemas.{TransactionContext, DetectionResult}
use rt_financial_anomaly_det.Detection.Values.{TextOps, decimal_of}
use rt_financial_anomaly_det.Processor.Context.{
  parse_context, created_at_of, uuid_of, amount_of, metadata_of, get_risk_profile_snapshot,
  has_user,
}
use rt_financial_anomaly_det.Processor.Pipeline.{
  Pipeline, Event, alert_of, alert_outbox, write_alert, write_inbox, write_decision, decide,
  upsert_profile, process_transaction_event, is_transaction, mark_processed, is_inbox_row,
}

created_at_of-Reads : (now : ℕ) (v : Option Json) → Reads (created_at_of now v)
unfolding created_at_of
created_at_of-Reads now v s = ground arith

uuid_of-Reads : (v : Option Json) → Reads (uuid_of v)
unfolding uuid_of
uuid_of-Reads v s = ground arith

amount_of-Reads : (ops : TextOps) (v : Option Json) → Reads (amount_of ops v)
unfolding amount_of
amount_of-Reads ops none s = refl
amount_of-Reads ops (some v) s = Reads-or_raise (decimal_of ops (some v)) value_error s

metadata_of-Reads : (v : Option Json) → Reads (metadata_of v)
unfolding metadata_of
metadata_of-Reads v s = ground arith

parse_context-Reads :
    (ops : TextOps) (now corr : ℕ) (payload : Fields) → Reads (parse_context ops now corr payload)
unfolding parse_context
parse_context-Reads ops now corr payload s = ground (
  arith,
  created_at_of-Reads now (get "created_at" payload),
  uuid_of-Reads (get "transaction_id" payload),
  uuid_of-Reads (get "user_id" payload),
  amount_of-Reads ops (get "amount" payload),
  metadata_of-Reads (get "metadata" payload),
)

decide-Reads :
    (pipeline : Pipeline) (now : ℕ) (t : TransactionContext) → Reads (decide pipeline now t)
unfolding decide get_risk_profile_snapshot
decide-Reads pipeline now t s = ground arith

-- The profiles after an alert of a user: one more alert in the user's profile, or a first profile.
abbrev pub profiles_after : ℕ → ℕ → List RiskProfile → List RiskProfile
profiles_after now user_id rows =
    if any (λ (p : RiskProfile). p.user_id == user_id) rows
    then update (λ (p : RiskProfile). p.user_id == user_id)
        (λ (p : RiskProfile). record p {
          total_alerts = p.total_alerts + 1;
          last_recalculated_at = now;
        })
        rows
    else rows
      ++ record {
        user_id = user_id;
        risk_score = 0;
        total_alerts = 1;
        false_positive_count = 0;
        last_recalculated_at = now;
      }
        ∷ []

-- The writes of one transaction, in a session that has written nothing before.
module _ (env : Env) (carrier : Fields) (group : String) (event_id : ℕ) (t : TransactionContext)
    (d : DetectionResult) (corr : ℕ) (db : Database) where
  write_decision_atomic :
      (e : Error)
      → (in_session (write_decision env carrier group event_id t d corr) db).0 ≡ err e
      → (in_session (write_decision env carrier group event_id t d corr) db).1 ≡ db
  unfolding write_decision write_alert write_inbox
  write_decision_atomic e h = ground arith

  write_decision_profiles :
      (found : List RiskProfile)
      → select (has_user t.user_id) db.risk_profiles ≡ found
      → (in_session (write_decision env carrier group event_id t d corr) db).0 ≡ ok tt
      → d.should_alert ≡ true
      → (in_session (write_decision env carrier group event_id t d corr) db).1.risk_profiles
        ≡ profiles_after env.now t.user_id db.risk_profiles
  unfolding write_decision write_alert write_inbox upsert_profile
  write_decision_profiles [] rows h alerts =
      ground (arith, rows, unselected (has_user t.user_id) db.risk_profiles rows)
  write_decision_profiles (p ∷ []) rows h alerts =
      let (known, hit) = selected (has_user t.user_id) db.risk_profiles p [] rows in
      let same : p.user_id ≡ t.user_id = (==_iff p.user_id t.user_id).0 hit in
      ground (arith, rows, known, same)
  write_decision_profiles (p ∷ q ∷ rest) rows h alerts = absurd (ground (arith, rows))

  -- What the writes of a transaction leave in the database.
  pub record Writes (db' : Database) : Type 0 where
    pub transactions :
        db'.transactions ≡ update (is_transaction t) (mark_processed env.now) db.transactions
    pub inbox_fresh : any (is_inbox_row event_id group) db.processed_events ≡ false
    pub processed_events :
        db'.processed_events
        ≡ db.processed_events
          ++ record { event_id = event_id; consumer_group = group; processed_at = env.now } ∷ []
    pub alert_fresh :
        d.should_alert ≡ true → any (λ (a : Alert). a.transaction_id == t.id) db.alerts ≡ false
    pub alerts :
        db'.alerts ≡ (if d.should_alert then db.alerts ++ alert_of env t d corr ∷ [] else db.alerts)
    pub outbox_events : db'.outbox_events ≡ (
        if d.should_alert
        then db.outbox_events ++ alert_outbox env carrier t d corr ∷ []
        else db.outbox_events)
    pub profiles_kept : d.should_alert ≡ false → db'.risk_profiles ≡ db.risk_profiles
    pub profiles_counted :
        d.should_alert ≡ true
        → db'.risk_profiles ≡ profiles_after env.now t.user_id db.risk_profiles
    pub audit_logs : db'.audit_logs ≡ db.audit_logs
    pub dead_letters : db'.dead_letters ≡ db.dead_letters
    pub fraud_rules : db'.fraud_rules ≡ db.fraud_rules

  write_decision-Writes :
      (in_session (write_decision env carrier group event_id t d corr) db).0 ≡ ok tt
      → Writes (in_session (write_decision env carrier group event_id t d corr) db).1
  unfolding write_decision write_alert write_inbox upsert_profile
  write_decision-Writes h = record {
    transactions = ground arith;
    inbox_fresh = ground arith;
    processed_events = ground arith;
    alert_fresh = λ a. ground arith;
    alerts = ground arith;
    outbox_events = ground arith;
    profiles_kept = λ a. ground arith;
    profiles_counted =
        λ a. write_decision_profiles (select (has_user t.user_id) db.risk_profiles) refl h a;
    audit_logs = ground arith;
    dead_letters = ground arith;
    fraud_rules = ground arith;
  }

-- The data that a run which reaches its writes has decided on.
pub record Decided (pipeline : Pipeline) (env : Env) (event : Event) (db : Database) : Type 0 where
  pub corr : ℕ
  pub event_id : ℕ
  pub t : TransactionContext
  pub d : DetectionResult
  pub has_corr : event.correlation_id ≡ some corr
  pub has_event_id : event.event_id ≡ some event_id
  pub parsed : (in_session (parse_context pipeline.ops env.now corr event.payload) db).0 ≡ ok t
  pub decided : (in_session (decide pipeline env.now t) db).0 ≡ ok d

module _ (pipeline : Pipeline) (env : Env) (carrier : Fields) (event : Event) (db : Database) where
  abbrev pub outcome : Result DetectionResult × Database
  outcome = in_session (process_transaction_event pipeline env carrier event) db

  abbrev pub writes : Decided pipeline env event db → Result (Unit {0}) × Database
  writes x =
      in_session (write_decision env carrier pipeline.consumer_group x.event_id x.t x.d x.corr) db

  abbrev pub returning : DetectionResult → Result (Unit {0}) → Result DetectionResult
  returning d (ok u) = ok d
  returning d (err e) = err e

  abbrev start : Session
  start = record { committed = db; working = db }

  parsed_result :
      (corr : ℕ) {r : Result TransactionContext}
      → (parse_context pipeline.ops env.now corr event.payload start).0 ≡ r
      → parse_context pipeline.ops env.now corr event.payload start ≡ (r, start)
  parsed_result corr h =
      Reads-result (parse_context pipeline.ops env.now corr event.payload) start
        (parse_context-Reads pipeline.ops env.now corr event.payload) h

  decided_result :
      (t : TransactionContext) {r : Result DetectionResult}
      → (decide pipeline env.now t start).0 ≡ r
      → decide pipeline env.now t start ≡ (r, start)
  decided_result t h =
      Reads-result (decide pipeline env.now t) start (decide-Reads pipeline env.now t) h

  outcome-Decided :
      (x : Decided pipeline env event db) → outcome ≡ (returning x.d (writes x).0, (writes x).1)
  unfolding process_transaction_event
  outcome-Decided x =
      rw (x.has_corr, x.has_event_id, parsed_result x.corr x.parsed, decided_result x.t x.decided)
        (elim (Result-cases
          (write_decision env carrier pipeline.consumer_group x.event_id x.t x.d x.corr start).0) [
            | inl (u, w) ↦ ground (arith, w)
            | inr (e, w) ↦ ground (arith, w)
          ])

  -- A run raises before it writes anything, or it makes the writes of what it decided.
  outcome-cases :
      ((e : Error) × (outcome ≡ (err e, db)))
      ⊎ ((x : Decided pipeline env event db) × (outcome
            ≡ (returning x.d (writes x).0, (writes x).1)))
  unfolding process_transaction_event
  outcome-cases = elim (Option-cases event.correlation_id) [
    | inl e ↦ inl (value_error, ground arith)
    | inr (corr, has_corr) ↦ elim (Option-cases event.event_id) [
      | inl e ↦ inl (value_error, ground arith)
      | inr (event_id, has_event_id) ↦
          elim (Result-cases (parse_context pipeline.ops env.now corr event.payload start).0) [
            | inr (e, h) ↦ inl (e, rw (has_corr, has_event_id, parsed_result corr h) refl)
            | inl (t, parsed) ↦ elim (Result-cases (decide pipeline env.now t start).0) [
              | inr (e, h) ↦ inl (
                e,
                rw (has_corr, has_event_id, parsed_result corr parsed, decided_result t h) refl,
              )
              | inl (d, decided) ↦
                  let x : Decided pipeline env event db = record {
                    corr = corr;
                    event_id = event_id;
                    t = t;
                    d = d;
                    has_corr = has_corr;
                    has_event_id = has_event_id;
                    parsed = parsed;
                    decided = decided;
                  } in
                  inr (x, outcome-Decided x)
            ]
          ]
    ]
  ]

  returned_writes :
      (x : Decided pipeline env event db) (d : DetectionResult)
      → ok d ≡ returning x.d (writes x).0
      → (d ≡ x.d) × ((writes x).0 ≡ ok tt)
  returned_writes x d h = elim (Result-cases (writes x).0) [
    | inl (u, w) ↦ (ground (arith, w), w)
    | inr (e, w) ↦ absurd (ground (arith, w))
  ]

  -- A run that raises, at whatever step, leaves the database as it was.
  pub process_transaction_event_atomic : (e : Error) → outcome.0 ≡ err e → outcome.1 ≡ db
  process_transaction_event_atomic e h = elim outcome-cases [
    | inl (e', same) ↦ ap (λ o. o.1) same
    | inr (x, same) ↦ elim (Result-cases (writes x).0) [
      | inl (u, w) ↦ absurd (ground (arith, h, same, w))
      | inr (e', w) ↦
          ap (λ o. o.1) same
          ∙ write_decision_atomic env carrier pipeline.consumer_group x.event_id x.t x.d x.corr db
              e' w
    ]
  ]

  -- A run that returns `d` had an event with both ids, a valid payload and `d` as its decision,
  -- and has committed the writes of that decision, all of them and no other: the transaction is
  -- processed, the event is in the inbox, and exactly if the decision alerts, the alert and its event
  -- are written and the profile of the user counts one more alert, or is a first one.
  pub process_transaction_event-Writes :
      (d : DetectionResult)
      → outcome.0 ≡ ok d
      → (x : Decided pipeline env event db) × (d ≡ x.d)
        × Writes env carrier pipeline.consumer_group x.event_id x.t x.d x.corr db outcome.1
  process_transaction_event-Writes d h = elim outcome-cases [
    | inl (e, same) ↦ absurd (ground (arith, h, same))
    | inr (x, same) ↦
        let (same_d, written) = returned_writes x d (sym h ∙ ap (λ o. o.0) same) in
        (
          x,
          same_d,
          subst (Writes env carrier pipeline.consumer_group x.event_id x.t x.d x.corr db)
              (sym (ap (λ o. o.1) same))
              (write_decision-Writes env carrier pipeline.consumer_group x.event_id x.t x.d x.corr
                db written),
        )
  ]
