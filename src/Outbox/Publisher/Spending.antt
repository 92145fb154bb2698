-- ===== src/Outbox/Publisher/Spending.antt =====
-- What a committed batch takes off the attempts that pending events have left.
use rt_financial_anomaly_det.Prelude.{
  ℕ, ◌+◌, ◌≤◌, String, ◌≡◌, refl, inl, inr, Bool, true, false, List, [], ◌∷◌, arith, ◌==◌, All,
  All-map, Bool-cases, length, select,
}
use rt_financial_anomaly_det.Prelude.Keys.{
  All-select, All-selected, All-order_by, All-take, Distinct, Distinct-select, Distinct-order_by,
  Distinct-take, IsOnly, Distinct-IsOnly,
}
use rt_financial_anomaly_det.Shared.Enums.{is_pending}
use rt_financial_anomaly_det.Shared.Json.{Fields}
use rt_financial_anomaly_det.Shared.Models.{OutboxEvent, Database}
use rt_financial_anomaly_det.Shared.Session.{Env}
use rt_financial_anomaly_det.Outbox.Publisher.{
  is_polled, Redis, Settings, Delivery, publish_all, publish_batch, poll_pending_events,
  commit_batch,
}
use rt_financial_anomaly_det.Outbox.Publisher.Invariant.{Accounts, IsAccounted}
use rt_financial_anomaly_det.Outbox.Publisher.Progress.{budget, IsFresh, publish_all_spends}

-- What is polled is fresh, where primary keys are distinct and the relay accounts for its events.
module _ (max : ℕ) (redis : Redis) (db : Database) where
  IsFresh-rows :
      (xs : List OutboxEvent)
      → All (IsOnly (λ (x : OutboxEvent). x.id) db.outbox_events) xs
      → All (IsAccounted max redis db.dead_letters) xs
      → All (λ (x : OutboxEvent). is_pending x.status ≡ true) xs
      → All (IsFresh max db) xs
  IsFresh-rows [] only accounted pending = tt
  IsFresh-rows (x ∷ xs) only accounted pending = (
    (only.0, pending.0, accounted.0.retriable (ground arith)),
    IsFresh-rows xs only.1 accounted.1 pending.1,
  )

  module _ (batch_size : ℕ) (locked : ℕ → Bool)
      (distinct : Distinct (λ (e : OutboxEvent). e.id) db.outbox_events)
      (accounts : Accounts max redis db) where
    All-poll :
        (P : OutboxEvent → Type 0)
        → All P (select (is_polled locked) db.outbox_events)
        → All P (poll_pending_events batch_size locked db)
    unfolding poll_pending_events
    All-poll P h =
        All-take P batch_size _
          (All-order_by P (λ e. e.created_at) (select (is_polled locked) db.outbox_events) h)

    poll_pending_events-IsFresh : All (IsFresh max db) (poll_pending_events batch_size locked db)
    poll_pending_events-IsFresh =
        IsFresh-rows _
          (All-poll _ (
            All-select _ (is_polled locked) db.outbox_events
              (Distinct-IsOnly _ db.outbox_events distinct)))
          (All-poll _ (All-select _ (is_polled locked) db.outbox_events accounts))
          (All-poll _
            (All-map (λ e h. ground arith) _ (All-selected (is_polled locked) db.outbox_events)))

    poll_pending_events-Distinct :
        Distinct (λ (e : OutboxEvent). e.id) (poll_pending_events batch_size locked db)
    unfolding poll_pending_events
    poll_pending_events-Distinct = Distinct-take _ batch_size _ (
        Distinct-order_by _ (λ e. e.created_at) _
          (Distinct-select _ (is_polled locked) db.outbox_events distinct))

module _ (settings : Settings) (env : Env) (carrier : Fields) (deliver : ℕ → Delivery)
    (error : String) (locked : ℕ → Bool) (redis : Redis) (db : Database)
    (accepted : env.accepted ≡ true)
    (distinct : Distinct (λ (e : OutboxEvent). e.id) db.outbox_events)
    (accounts : Accounts settings.max_retries redis db) where
  commit_batch_accepted :
      (b : Bool) (n : ℕ) (redis' : Redis) (changed : Database)
      → b ≡ true
      → (commit_batch b n redis' changed db).2 ≡ changed
  unfolding commit_batch
  commit_batch_accepted true n redis' changed e = refl
  commit_batch_accepted false n redis' changed e = cc

  -- Where the commit is accepted, ids are distinct and the relay accounts for every event, a batch
  -- takes at least one attempt off the budget for every event that it polled.
  pub publish_batch_spends :
      budget settings.max_retries
          (publish_batch settings env carrier deliver error locked redis db).2
        + length (poll_pending_events settings.batch_size locked db)
      ≤ budget settings.max_retries db
  unfolding publish_batch
  publish_batch_spends =
      let events = poll_pending_events settings.batch_size locked db in
      let (redis', changed) = publish_all settings env carrier deliver error 0 events (redis, db) in
      let spends =
        publish_all_spends settings env carrier deliver error 0 events redis db
          (poll_pending_events-Distinct settings.max_retries redis db settings.batch_size locked
            distinct accounts)
          (poll_pending_events-IsFresh settings.max_retries redis db settings.batch_size locked
            distinct accounts) in
      elim (Bool-cases (length events == 0)) [
        | inl empty ↦ rw empty (ground arith)
        | inr polled ↦
            rw (polled, commit_batch_accepted env.accepted (length events) redis' changed accepted)
              spends
      ]
