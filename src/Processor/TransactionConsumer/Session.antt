-- ===== src/Processor/TransactionConsumer/Session.antt =====
-- The session in which `TransactionConsumer.process_single_message` consumes one event.
use rt_financial_anomaly_det.Prelude.{
  ℕ, ◌≡◌, ◌∙◌, sym, ap, subst, refl, ◌⊎◌, inl, inr, Bool, true, false, List, [], ◌∷◌, ◌++◌, arith,
  any, select, Bool-cases,
}
use rt_financial_anomaly_det.Shared.Errors.{Error}
use rt_financial_anomaly_det.Shared.Json.{Fields}
use rt_financial_anomaly_det.Shared.Models.{ProcessedEvent, Database}
use rt_financial_anomaly_det.Shared.Session.{
  Env, Result, ok, err, Session, in_session, Result-cases, ◌>>=◌, pure, scalar_one_or_none,
}
use rt_financial_anomaly_det.Shared.Session.Reads.{Reads, Reads-result}
use rt_financial_anomaly_det.Detection.Schemas.{DetectionResult}
use rt_financial_anomaly_det.Processor.Pipeline.{Pipeline, is_inbox_row}
use rt_financial_anomaly_det.Processor.Pipeline.Effects.{
  Decided, Writes, outcome, process_transaction_event_atomic, process_transaction_event-Writes,
}
use rt_financial_anomaly_det.Processor.Messages.{Envelope, Consumer, is_event_processed, is_some}
use rt_financial_anomaly_det.Processor.TransactionConsumer.{event_of, consume_event}

pub is_event_processed-Reads :
    (consumer : Consumer) (event_id : ℕ) → Reads (is_event_processed consumer event_id)
unfolding is_event_processed
is_event_processed-Reads consumer event_id s = ground arith

module _ {A : Type 0} (test : A → Bool) where
  any-nil : (xs : List A) → select test xs ≡ [] → any test xs ≡ false
  unfolding select
  any-nil [] h = refl
  any-nil (x ∷ xs) h = ground (arith, any-nil xs)

  any-cons : (xs : List A) (y : A) (ys : List A) → select test xs ≡ y ∷ ys → any test xs ≡ true
  unfolding select
  any-cons [] y ys h = cc
  any-cons (x ∷ xs) y ys h = ground (arith, any-cons xs y ys)

  pub any-append_right : (xs : List A) (x : A) → test x ≡ true → any test (xs ++ x ∷ []) ≡ true
  any-append_right [] x h = ground arith
  any-append_right (y ∷ xs) x h = ground (arith, any-append_right xs x h)

-- The inbox check answers True only for an event whose row is there.
pub is_event_processed_sound :
    (consumer : Consumer) (event_id : ℕ) (s : Session)
    → (is_event_processed consumer event_id s).0 ≡ ok true
    → any (is_inbox_row event_id consumer.group) s.working.processed_events ≡ true
unfolding is_event_processed
is_event_processed_sound consumer event_id s h =
    go (select (is_inbox_row event_id consumer.group) s.working.processed_events) refl h
  where
    go :
        (rows : List ProcessedEvent)
        → select (is_inbox_row event_id consumer.group) s.working.processed_events ≡ rows
        → ((scalar_one_or_none rows >>= λ row. pure (is_some row)) s).0 ≡ ok true
        → any (is_inbox_row event_id consumer.group) s.working.processed_events ≡ true
    go [] e h = ground arith
    go (x ∷ []) e h =
        any-cons (is_inbox_row event_id consumer.group) s.working.processed_events x [] e
    go (x ∷ y ∷ rest) e h = ground arith

module _ (consumer : Consumer) (pipeline : Pipeline) (env : Env) (carrier : Fields) (event_id : ℕ)
    (envelope : Envelope) (db : Database) where
  abbrev pub consumed : Result (Unit {0}) × Database
  consumed = in_session (consume_event consumer pipeline env carrier event_id envelope) db

  abbrev pub Decides : Type 0
  Decides =
      (x : Decided pipeline env (event_of event_id envelope) db) × Writes env carrier
        pipeline.consumer_group x.event_id x.t x.d x.corr db consumed.1

  abbrev pub ConsumeCases : Type 0
  ConsumeCases =
      ((e : Error) × (consumed ≡ (err e, db)))
      ⊎ (((consumed ≡ (ok tt, db))
            × (any (is_inbox_row event_id consumer.group) db.processed_events ≡ true))
          ⊎ ((consumed.0 ≡ ok tt) × Decides))

  abbrev pub start : Session
  start = record { committed = db; working = db }

  abbrev forget : Result DetectionResult → Result (Unit {0})
  forget (ok d) = ok tt
  forget (err e) = err e

  checked :
      {r : Result Bool}
      → (is_event_processed consumer event_id start).0 ≡ r
      → is_event_processed consumer event_id start ≡ (r, start)
  checked h =
      Reads-result (is_event_processed consumer event_id) start
        (is_event_processed-Reads consumer event_id) h

  abbrev ran : Result DetectionResult × Database
  ran = outcome pipeline env carrier (event_of event_id envelope) db

  consumed_new :
      (is_event_processed consumer event_id start).0 ≡ ok false → consumed ≡ (forget ran.0, ran.1)
  unfolding consume_event
  consumed_new fresh = rw (checked fresh) (elim (Result-cases ran.0) [
    | inl (d, h) ↦ ground (arith, h)
    | inr (e, h) ↦ ground (arith, h)
  ])

  new_cases : (is_event_processed consumer event_id start).0 ≡ ok false → ConsumeCases
  new_cases fresh = elim (Result-cases ran.0) [
    | inr (e, h) ↦ inl (
      e,
      consumed_new fresh
          ∙ (rw
              (
                h,
                process_transaction_event_atomic pipeline env carrier (event_of event_id envelope)
                    db e h,
              )
              refl),
    )
    | inl (d, h) ↦
        let (x, same, writes) =
          process_transaction_event-Writes pipeline env carrier (event_of event_id envelope) db d
            h in
        inr (
          inr (
            ap (λ o. o.0) (consumed_new fresh) ∙ ap forget h,
            (
              x,
              subst (Writes env carrier pipeline.consumer_group x.event_id x.t x.d x.corr db)
                  (sym (ap (λ o. o.1) (consumed_new fresh))) writes,
            ),
          ))
  ]

  pub consumed_seen :
      (is_event_processed consumer event_id start).0 ≡ ok true → consumed ≡ (ok tt, db)
  unfolding consume_event
  consumed_seen seen = rw (checked seen) refl

  -- The session of an event fails and writes nothing, finds the event in the inbox and writes
  -- nothing, or commits the writes of the pipeline.
  pub consume_event-cases : ConsumeCases
  consume_event-cases = elim (Result-cases (is_event_processed consumer event_id start).0) [
    | inr (e, h) ↦ inl (e, (unfold consume_event in rw (checked h) refl))
    | inl (b, h) ↦ elim (Bool-cases b) [
      | inl known ↦
          let seen = h ∙ ap ok known in
          inr (inl (consumed_seen seen, is_event_processed_sound consumer event_id start seen))
      | inr fresh ↦ new_cases (h ∙ ap ok fresh)
    ]
  ]
