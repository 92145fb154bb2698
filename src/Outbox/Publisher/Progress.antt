-- ===== src/Outbox/Publisher/Progress.antt =====
-- Every committed batch spends attempts: the relay drains the outbox after finitely many batches,
-- whatever Redis does.
use rt_financial_anomaly_det.Prelude.{
  fun_ext, ℕ, suc, ◌+◌, ◌-◌, ◌≤◌, ◌<◌, String, ◌≡◌, ◌≢◌, refl, sym, ap, ◌∙◌, inl, inr, Bool, true,
  false, List, [], ◌∷◌, arith, leb, ◌==◌, if◌then◌else◌, All, update, Bool-cases, length,
  select-update,
}
use rt_financial_anomaly_det.Prelude.Keys.{Distinct, IsOnly, sum, sum-update_one}
use rt_financial_anomaly_det.Shared.Enums.{is_pending}
use rt_financial_anomaly_det.Shared.Json.{Fields}
use rt_financial_anomaly_det.Shared.Models.{OutboxEvent, Database}
use rt_financial_anomaly_det.Shared.Session.{Env}
use rt_financial_anomaly_det.Outbox.Publisher.{
  Redis, Settings, Delivery, publish_event, has_event_id, mark_published, mark_retried, mark_dead,
  settle, publish_one, publish_all,
}

-- The attempts that a pending event has left.
abbrev pub attempts : ℕ → OutboxEvent → ℕ
attempts max e = if is_pending e.status then max - e.retry_count else 0

abbrev pub budget : ℕ → Database → ℕ
budget max db = sum (attempts max) db.outbox_events

-- What the loop knows of an event that it has yet to publish: its row is as it was polled.
abbrev pub IsFresh : ℕ → Database → OutboxEvent → Type 0
IsFresh max db e =
    IsOnly (λ (x : OutboxEvent). x.id) db.outbox_events e
    × (is_pending e.status ≡ true)
    × (e.retry_count < max)

module _ (settings : Settings) (env : Env) (carrier : Fields) (deliver : ℕ → Delivery)
    (error : String) where
  -- How a round changes the row of its event.
  pub outcome : OutboxEvent → Bool → OutboxEvent → OutboxEvent
  outcome event true e = mark_published env.now e
  outcome event false e =
      if leb settings.max_retries (event.retry_count + 1)
      then mark_dead (event.retry_count + 1) e
      else mark_retried (event.retry_count + 1) e

  pub id-outcome :
      (event : OutboxEvent) (done : Bool) (e : OutboxEvent) → (outcome event done e).id ≡ e.id
  unfolding outcome
  id-outcome event true e = refl
  id-outcome event false e = ground arith

  settle_updates :
      (place : ℕ) (event : OutboxEvent) (done : Bool) (db : Database)
      → (settle settings env place error event done db).outbox_events
        ≡ update (has_event_id event.id) (outcome event done) db.outbox_events
  unfolding settle outcome
  settle_updates place event true db = refl
  settle_updates place event false db =
      elim (Bool-cases (leb settings.max_retries (event.retry_count + 1))) [
        | inl spent ↦ simp spent (ap with_change (fun_ext λ e. sym (rw spent refl)))
        | inr room ↦ simp room (ap with_change (fun_ext λ e. sym (rw room refl)))
      ]
    where
      with_change : (OutboxEvent → OutboxEvent) → List OutboxEvent
      with_change f = update (has_event_id event.id) f db.outbox_events

  -- A round takes at least one attempt off its event.
  outcome_spends :
      (event : OutboxEvent) (done : Bool)
      → is_pending event.status ≡ true
      → event.retry_count < settings.max_retries
      → attempts settings.max_retries (outcome event done event)
        < attempts settings.max_retries event
  unfolding outcome
  outcome_spends event true p h = ground arith
  outcome_spends event false p h = ground arith

  abbrev pub published? : OutboxEvent → Redis → Bool
  published? event redis = (publish_event carrier (deliver event.id) event redis).0

  pub publish_one_updates :
      (place : ℕ) (event : OutboxEvent) (redis : Redis) (db : Database)
      → (publish_one settings env carrier deliver error place event (redis, db)).1.outbox_events
        ≡ update (has_event_id event.id) (outcome event (published? event redis)) db.outbox_events
  unfolding publish_one
  publish_one_updates place event redis db = settle_updates place event (published? event redis) db

  publish_one_spends :
      (place : ℕ) (event : OutboxEvent) (redis : Redis) (db : Database)
      → IsFresh settings.max_retries db event
      → budget settings.max_retries
          (publish_one settings env carrier deliver error place event (redis, db)).1
        < budget settings.max_retries db
  publish_one_spends place event redis db (only, pending, room) =
      let done = published? event redis in
      rw (publish_one_updates place event redis db) (
        omega (
          arith,
          sum-update_one (attempts settings.max_retries) (has_event_id event.id)
              (outcome event done) db.outbox_events event only,
          outcome_spends event done pending room,
        ))

  publish_one_others :
      (place : ℕ) (event : OutboxEvent) (redis : Redis) (db : Database) (e : OutboxEvent)
      → event.id ≢ e.id
      → IsFresh settings.max_retries db e
      → IsFresh settings.max_retries
          (publish_one settings env carrier deliver error place event (redis, db)).1
          e
  publish_one_others place event redis db e other (only, pending, room) =
      let change = outcome event (published? event redis) in
      let kept : IsOnly (λ (x : OutboxEvent). x.id)
          (update (has_event_id event.id) change db.outbox_events) e =
        select-update (has_event_id e.id) (has_event_id event.id) change
          (λ x. ap (λ (k : ℕ). k == e.id) (id-outcome event (published? event redis) x))
          db.outbox_events
        ∙ rw only (ground arith) in
      (rw (publish_one_updates place event redis db) kept, pending, room)

  publish_one_rest :
      (place : ℕ) (event : OutboxEvent) (redis : Redis) (db : Database) (rest : List OutboxEvent)
      → All (λ (e : OutboxEvent). event.id ≢ e.id) rest
      → All (IsFresh settings.max_retries db) rest
      → All
          (IsFresh settings.max_retries
            (publish_one settings env carrier deliver error place event (redis, db)).1)
          rest
  publish_one_rest place event redis db [] ne fresh = tt
  publish_one_rest place event redis db (e ∷ rest) ne fresh = (
    publish_one_others place event redis db e ne.0 fresh.0,
    publish_one_rest place event redis db rest ne.1 fresh.1,
  )

  pub publish_all_spends :
      (place : ℕ) (events : List OutboxEvent) (redis : Redis) (db : Database)
      → Distinct (λ (e : OutboxEvent). e.id) events
      → All (IsFresh settings.max_retries db) events
      → budget settings.max_retries
            (publish_all settings env carrier deliver error place events (redis, db)).1
          + length events
        ≤ budget settings.max_retries db
  unfolding publish_all
  publish_all_spends place [] redis db ne fresh = omega arith
  publish_all_spends place (event ∷ rest) redis db ne fresh =
      let (redis', db') = publish_one settings env carrier deliver error place event (redis, db) in
      omega (
        arith,
        publish_one_spends place event redis db fresh.0,
        publish_all_spends (suc place) rest redis' db' ne.1
            (publish_one_rest place event redis db rest ne.0 fresh.1),
      )
