-- ===== src/Outbox/Publisher/Drain.antt =====
-- The relay drains the outbox: with enough committed batches nothing is left pending, even if
-- Redis refuses every event.
use rt_financial_anomaly_det.Prelude.{
  subst, select-and, order_by, not, fun_ext, ℕ, suc, ◌-◌, ◌≤◌, ◌<◌, String, ◌≡◌, refl, sym, ap, ◌∙◌,
  inl, inr, Bool, true, false, List, [], ◌∷◌, arith, ◌==◌, ==_iff, All, Bool-cases, length, select,
}
use rt_financial_anomaly_det.Prelude.Keys.{limit_empty, take-nil, Distinct-update, Distinct, sum}
use rt_financial_anomaly_det.Shared.Enums.{is_pending}
use rt_financial_anomaly_det.Shared.Json.{Fields}
use rt_financial_anomaly_det.Shared.Models.{OutboxEvent, DeadLetterEvent, Database}
use rt_financial_anomaly_det.Shared.Session.{Result, ok, Env}
use rt_financial_anomaly_det.Outbox.Publisher.{
  is_polled, Redis, Settings, Delivery, has_event_id, publish_one, publish_all, publish_batch,
  poll_pending_events, commit_batch,
}
use rt_financial_anomaly_det.Outbox.Publisher.Invariant.{
  publish_batch-Accounts, Accounts, IsAccounted,
}
use rt_financial_anomaly_det.Outbox.Publisher.Progress.{
  attempts, budget, publish_one_updates, outcome, id-outcome, published?,
}
use rt_financial_anomaly_det.Outbox.Publisher.Spending.{publish_batch_spends}

-- One poll of the loop, with what its surroundings do.
pub record Round : Type 0 where
  pub env : Env
  pub carrier : Fields
  pub deliver : ℕ → Delivery
  pub error : String
  pub locked : ℕ → Bool

-- The polls of `run_loop` that reach `publish_batch`.
pub run_rounds : Settings → List Round → Redis → Database → Redis × Database
run_rounds settings [] redis db = (redis, db)
run_rounds settings (r ∷ rest) redis db =
    let (_, redis', db') =
      publish_batch settings r.env r.carrier r.deliver r.error r.locked redis db in
    run_rounds settings rest redis' db'

-- The commit is accepted, and no other replica holds a row.
abbrev pub IsClear : Round → Type 0
IsClear r = (r.env.accepted ≡ true) × ((id : ℕ) → r.locked id ≡ false)

abbrev pub pending_rows : Database → List OutboxEvent
pending_rows db = select (λ (e : OutboxEvent). is_pending e.status) db.outbox_events

budget_zero :
    (max : ℕ) (redis : Redis) (letters : List DeadLetterEvent) (xs : List OutboxEvent)
    → All (IsAccounted max redis letters) xs
    → sum (attempts max) xs ≡ 0
    → select (λ (e : OutboxEvent). is_pending e.status) xs ≡ []
unfolding select
budget_zero max redis letters [] h z = refl
budget_zero max redis letters (x ∷ xs) h z =
    ground (arith, h.0.retriable, budget_zero max redis letters xs h.1)

module _ (settings : Settings) (r : Round) (redis : Redis) (db : Database) where
  abbrev next : Redis × Database
  next =
      let (_, redis', db') =
        publish_batch settings r.env r.carrier r.deliver r.error r.locked redis db in
      (redis', db')

  polled_when_clear :
      ((id : ℕ) → r.locked id ≡ false)
      → select (is_polled r.locked) db.outbox_events ≡ pending_rows db
  polled_when_clear clear =
      ap (λ (w : OutboxEvent → Bool). select w db.outbox_events)
        (fun_ext λ e. rw (clear e.id) (ground arith))

  -- With nothing pending a poll does nothing.
  idle :
      pending_rows db ≡ []
      → (publish_batch settings r.env r.carrier r.deliver r.error r.locked redis db)
        ≡ (ok 0, redis, db)
  unfolding publish_batch poll_pending_events
  idle none_pending =
      let nothing : select (is_polled r.locked) db.outbox_events ≡ [] =
        select-and (λ (e : OutboxEvent). is_pending e.status) (λ e. not (r.locked e.id))
          db.outbox_events
        ∙ rw none_pending (unfold select in refl) in
      rw nothing (unfold order_by in rw (take-nil settings.batch_size) refl)

  -- A poll that finds nothing, finds nothing pending.
  nothing_polled :
      0 < settings.batch_size
      → ((id : ℕ) → r.locked id ≡ false)
      → length (poll_pending_events settings.batch_size r.locked db) ≡ 0
      → pending_rows db ≡ []
  unfolding poll_pending_events
  nothing_polled some_room clear h =
      sym (polled_when_clear clear)
      ∙ limit_empty (settings.batch_size - 1) (λ e. e.created_at) _ (rw (size_suc) at h)
    where
      size_suc : settings.batch_size ≡ suc (settings.batch_size - 1)
      size_suc = omega arith

module _ (settings : Settings) (env : Env) (carrier : Fields) (deliver : ℕ → Delivery)
    (error : String) where
  publish_all-Distinct :
      (place : ℕ) (events : List OutboxEvent) (redis : Redis) (db : Database)
      → Distinct (λ (e : OutboxEvent). e.id) db.outbox_events
      → Distinct
          (λ (e : OutboxEvent). e.id)
          (publish_all settings env carrier deliver error place events (redis, db)).1.outbox_events
  unfolding publish_all
  publish_all-Distinct place [] redis db h = h
  publish_all-Distinct place (event ∷ rest) redis db h =
      let (redis', db') = publish_one settings env carrier deliver error place event (redis, db) in
      let change =
        outcome settings env carrier deliver error event
          (published? settings env carrier deliver error event redis) in
      publish_all-Distinct (suc place) rest redis' db' (
        rw (publish_one_updates settings env carrier deliver error place event redis db) (
          Distinct-update _ (has_event_id event.id) change
            (id-outcome settings env carrier deliver error event _) db.outbox_events h))

  commit_batch-Distinct :
      (accepted : Bool) (n : ℕ) (redis : Redis) (changed db : Database)
      → Distinct (λ (e : OutboxEvent). e.id) changed.outbox_events
      → Distinct (λ (e : OutboxEvent). e.id) db.outbox_events
      → Distinct
          (λ (e : OutboxEvent). e.id)
          (commit_batch accepted n redis changed db).2.outbox_events
  unfolding commit_batch
  commit_batch-Distinct true n redis changed db h old = h
  commit_batch-Distinct false n redis changed db h old = old

  publish_batch-Distinct :
      (locked : ℕ → Bool) (redis : Redis) (db : Database)
      → Distinct (λ (e : OutboxEvent). e.id) db.outbox_events
      → Distinct
          (λ (e : OutboxEvent). e.id)
          (publish_batch settings env carrier deliver error locked redis db).2.outbox_events
  unfolding publish_batch
  publish_batch-Distinct locked redis db h =
      let events = poll_pending_events settings.batch_size locked db in
      let (redis', changed) = publish_all settings env carrier deliver error 0 events (redis, db) in
      elim (Bool-cases (length events == 0)) [
        | inl empty ↦ rw empty h
        | inr polled ↦ rw polled (
            commit_batch-Distinct env.accepted (length events) redis' changed db
              (publish_all-Distinct 0 events redis db h) h)
      ]

-- Once nothing is pending, nothing is pending after any more rounds.
stays_drained :
    (settings : Settings) (rounds : List Round) (redis : Redis) (db : Database)
    → pending_rows db ≡ []
    → pending_rows (run_rounds settings rounds redis db).1 ≡ []
unfolding run_rounds
stays_drained settings [] redis db h = h
stays_drained settings (r ∷ rest) redis db h =
    subst
      (λ (b : Result ℕ × Redis × Database). pending_rows (run_rounds settings rest b.1 b.2).1 ≡ [])
      (sym (idle settings r redis db h)) (stays_drained settings rest redis db h)

-- The relay drains the outbox whatever Redis does: if a batch has room, ids are distinct, the relay
-- accounts for every event at the start, the commits are accepted and no other
-- replica holds rows, then after as many polls as the pending events have attempts left together,
-- every event is published or dead-lettered.
pub run_rounds_drain :
    (settings : Settings) (rounds : List Round) (redis : Redis) (db : Database)
    → 0 < settings.batch_size
    → All IsClear rounds
    → Distinct (λ (e : OutboxEvent). e.id) db.outbox_events
    → Accounts settings.max_retries redis db
    → budget settings.max_retries db ≤ length rounds
    → pending_rows (run_rounds settings rounds redis db).1 ≡ []
unfolding run_rounds
run_rounds_drain settings [] redis db room clear distinct accounts enough =
    budget_zero settings.max_retries redis db.dead_letters db.outbox_events accounts (omega arith)
run_rounds_drain settings (r ∷ rest) redis db room clear distinct accounts enough =
    let (_, redis', db') =
      publish_batch settings r.env r.carrier r.deliver r.error r.locked redis db in
    let spends =
      publish_batch_spends settings r.env r.carrier r.deliver r.error r.locked redis db clear.0.0
        distinct accounts in
    elim (Bool-cases (length (poll_pending_events settings.batch_size r.locked db) == 0)) [
      | inl empty ↦
          let drained = nothing_polled settings r redis db room clear.0.1 ((==_iff _ 0).0 empty) in
          subst
            (λ (b : Result ℕ × Redis × Database).
              pending_rows (run_rounds settings rest b.1 b.2).1 ≡ [])
            (sym (idle settings r redis db drained)) (stays_drained settings rest redis db drained)
      | inr polled ↦
          run_rounds_drain settings rest redis' db' room clear.1
            (publish_batch-Distinct settings r.env r.carrier r.deliver r.error r.locked redis db
              distinct)
            (publish_batch-Accounts settings r.env r.carrier r.deliver r.error r.locked redis db
              accounts)
            (ground (arith, spends))
    ]
