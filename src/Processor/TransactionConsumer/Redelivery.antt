-- ===== src/Processor/TransactionConsumer/Redelivery.antt =====
-- Redelivery of a message of the transactions stream, and the alerts that any sequence of
-- messages can leave.
use rt_financial_anomaly_det.Prelude.{
  ℕ, String, ◌≡◌, ◌≢◌, sym, subst, refl, inl, inr, Bool, true, false, some, List, [], ◌∷◌, ◌++◌,
  arith, any, select, if◌then◌else◌, ltb, ◌==◌, All, All-append,
}
use rt_financial_anomaly_det.Prelude.Keys.{Distinct}
use rt_financial_anomaly_det.Shared.Json.{Fields}
use rt_financial_anomaly_det.Shared.Models.{Alert, ProcessedEvent, Database}
use rt_financial_anomaly_det.Shared.Session.{Env, Result, ok}
use rt_financial_anomaly_det.Outbox.Publisher.{delivered}
use rt_financial_anomaly_det.Detection.Schemas.{TransactionContext, DetectionResult}
use rt_financial_anomaly_det.Processor.Pipeline.{Pipeline, is_inbox_row, alert_of}
use rt_financial_anomaly_det.Processor.Pipeline.Effects.{Writes}
use rt_financial_anomaly_det.Processor.Messages.{
  Envelope, Message, Wire, Consumer, World, Replies, parse_event_envelope, identified, drop_pending,
  acknowledge, is_event_processed,
}
use rt_financial_anomaly_det.Processor.TransactionConsumer.{
  process_identified, process_single_message, acknowledge_or_keep,
}
use rt_financial_anomaly_det.Processor.TransactionConsumer.Session.{consumed_seen, start}
use rt_financial_anomaly_det.Processor.TransactionConsumer.Acknowledged.{
  process_single_message-Settles,
}

module _ {A : Type 0} (key : A → ℕ) where
  any_other : (k : ℕ) (xs : List A) → any (λ y. key y == k) xs ≡ false → All (λ y. key y ≢ k) xs
  any_other k [] h = tt
  any_other k (x ∷ xs) h = (ground arith, any_other k xs (ground arith))

  pub Distinct-append :
      (xs : List A) (x : A)
      → Distinct key xs
      → any (λ y. key y == key x) xs ≡ false
      → Distinct key (xs ++ x ∷ [])
  Distinct-append [] x d h = (tt, tt)
  Distinct-append (y ∷ xs) x d h = (
    All-append (λ z. key y ≢ key z) xs (x ∷ []) d.0 ((any_other (key x) (y ∷ xs) h).0, tt),
    Distinct-append xs x d.1 (ground arith),
  )

module _ (pipeline : Pipeline) (env : Env) (carrier : Fields) (db db' : Database) where
  -- The writes of a decision leave at most one alert for each transaction.
  Writes-Distinct :
      (group : String) (event_id : ℕ) (t : TransactionContext) (d : DetectionResult) (corr : ℕ)
      → Writes env carrier group event_id t d corr db db'
      → Distinct (λ (a : Alert). a.transaction_id) db.alerts
      → Distinct (λ (a : Alert). a.transaction_id) db'.alerts
  unfolding alert_of
  Writes-Distinct group event_id t d corr writes h =
      subst (Distinct (λ (a : Alert). a.transaction_id)) (sym writes.alerts)
        (go d.should_alert writes.alert_fresh)
    where
      go :
          (b : Bool)
          → (b ≡ true → any (λ (a : Alert). a.transaction_id == t.id) db.alerts ≡ false)
          → Distinct
              (λ (a : Alert). a.transaction_id)
              (if b then db.alerts ++ alert_of env t d corr ∷ [] else db.alerts)
      go true fresh =
          Distinct-append (λ (a : Alert). a.transaction_id) db.alerts (alert_of env t d corr) h
            (fresh refl)
      go false fresh = h

module _ (consumer : Consumer) (pipeline : Pipeline) (wire : Wire) (env : Env) (carrier : Fields)
    (replies : Replies) (m : Message) (delivery_count : ℕ) (w : World) where
  abbrev after : Result Bool × World
  after = process_single_message consumer pipeline wire env carrier replies m delivery_count w

  -- Where the pipeline and the consumer have the same group: whatever a message is, and however often
  -- it was delivered, it leaves at most one alert for each
  -- transaction where there was at most one.
  pub process_single_message_one_alert :
      pipeline.consumer_group ≡ consumer.group
      → Distinct (λ (a : Alert). a.transaction_id) w.db.alerts
      → Distinct (λ (a : Alert). a.transaction_id) after.1.db.alerts
  process_single_message_one_alert same h =
      elim (process_single_message-Settles consumer pipeline wire env carrier replies m
        delivery_count w same) [
          | inl (kept, unchanged) ↦ rw unchanged h
          | inr (inl (acked, inl (over, (row, s, g, tells, e, n, written)))) ↦ rw written h
          | inr (inl (acked, inr (bad, (row, s, g, tells, e, n, written)))) ↦ rw written h
          | inr (inr (acked, event_id, envelope, known, inbox, inl unchanged)) ↦ rw unchanged h
          | inr (inr (acked, event_id, envelope, known, inbox, inr (x, writes))) ↦
              Writes-Distinct pipeline env carrier w.db after.1.db pipeline.consumer_group
                x.event_id x.t x.d x.corr writes h
        ]

  -- An event that the inbox has one row of is not processed again, unless it was delivered too often: the database stays as it is, and where
  -- Redis answers, the message is acknowledged.
  pub process_single_message_redelivered :
      (event_id : ℕ) (envelope : Envelope) (row : ProcessedEvent)
      → identified (parse_event_envelope wire m.fields) ≡ some (event_id, envelope)
      → select (is_inbox_row event_id consumer.group) w.db.processed_events ≡ row ∷ []
      → ltb consumer.max_deliveries delivery_count ≡ false
      → (after.1.db ≡ w.db)
        × (replies.xack ≡ delivered → after ≡ (ok true, drop_pending m.message_id w))
  unfolding process_single_message process_identified
  process_single_message_redelivered event_id envelope row known inbox under =
      let seen : (is_event_processed consumer event_id
            (start consumer pipeline env carrier event_id envelope w.db)).0
          ≡ ok true =
        (unfold is_event_processed in rw inbox refl) in
      rw (under, known, consumed_seen consumer pipeline env carrier event_id envelope w.db seen)
        (
          (unfold acknowledge_or_keep acknowledge in ground arith),
          (λ h. unfold acknowledge_or_keep acknowledge in rw h refl),
        )
