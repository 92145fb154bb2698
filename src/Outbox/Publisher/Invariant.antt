-- ===== src/Outbox/Publisher/Invariant.antt =====
-- The relay keeps account of every event: what is marked published is in a stream, what is marked
-- dead has a dead letter, and what is pending has retries left.
use rt_financial_anomaly_det.Prelude.{
  append-nil, append_assoc, ap, ◌∙◌, subst, sym, ℕ, suc, ◌+◌, ◌≤◌, ◌<◌, String, ◌≡◌, refl, inl, inr,
  Bool, true, false, List, [], ◌∷◌, ◌++◌, arith, leb, leb→le, ◌==◌, ==_iff, All, All-map, Some,
  Some-append_left, Some-append_right, All-update, Bool-cases, length,
}
use rt_financial_anomaly_det.Shared.Enums.{OutboxStatus, published, dead_lettered}
use rt_financial_anomaly_det.Shared.Json.{Fields}
use rt_financial_anomaly_det.Shared.Models.{OutboxEvent, DeadLetterEvent, Database}
use rt_financial_anomaly_det.Shared.Session.{Env}
use rt_financial_anomaly_det.Outbox.Publisher.{
  commit_batch, Entry, Redis, Settings, Delivery, delivered, refused, answer_lost, entry_of,
  publish_event, has_event_id, flush, mark_published, mark_retried, mark_dead, dead_letter,
  handle_publish_failure, publish_one, publish_all, publish_batch, poll_pending_events,
}

abbrev pub Streamed : Redis → OutboxEvent → Type 0
Streamed redis e = Some (λ (n : Entry). n.event.event_id ≡ e.id) redis

abbrev pub Lettered : ℕ → List DeadLetterEvent → OutboxEvent → Type 0
Lettered max letters e =
    Some (λ (d : DeadLetterEvent). (d.original_event_id ≡ e.id) × (max ≤ d.retry_count)) letters

-- One event is accounted for.
pub record IsAccounted (max : ℕ) (redis : Redis) (letters : List DeadLetterEvent) (e : OutboxEvent)
    : Type 0 where
  pub relayed : e.status ≡ published → Streamed redis e
  pub lettered : e.status ≡ dead_lettered → Lettered max letters e
  pub retriable : e.status ≡ OutboxStatus.pending → e.retry_count < max

abbrev pub Accounts : ℕ → Redis → Database → Type 0
Accounts max redis db = All (IsAccounted max redis db.dead_letters) db.outbox_events

module _ (max : ℕ) where
  IsAccounted-more :
      (redis more : Redis) (letters new : List DeadLetterEvent) (e : OutboxEvent)
      → IsAccounted max redis letters e
      → IsAccounted max (redis ++ more) (letters ++ new) e
  IsAccounted-more redis more letters new e h = record {
    relayed = λ p. Some-append_left _ redis more (h.relayed p);
    lettered = λ p. Some-append_left _ letters new (h.lettered p);
    retriable = h.retriable;
  }

  Accounts-streams :
      (redis more : Redis) (db : Database) → Accounts max redis db → Accounts max (redis ++ more) db
  Accounts-streams redis more db =
      All-map
        (λ e h. record {
          relayed = λ p. Some-append_left _ redis more (h.relayed p);
          lettered = h.lettered;
          retriable = h.retriable;
        })
        db.outbox_events

  -- Marking an event whose entry is in a stream.
  settle_published :
      (now : ℕ) (event : OutboxEvent) (redis : Redis) (db : Database)
      → Streamed redis event
      → Accounts max redis db
      → Accounts max redis (flush event.id (mark_published now) db)
  settle_published now event redis db entry =
      All-update (has_event_id event.id) (mark_published now) (λ e h. h)
        (λ e same h. record {
          relayed = λ p.
              subst (λ k. Some (λ (n : Entry). n.event.event_id ≡ k) redis)
                (sym ((==_iff e.id event.id).0 same)) entry;
          lettered = λ p. cc;
          retriable = λ p. cc;
        })
        db.outbox_events

  settle_retried :
      (event : OutboxEvent) (redis : Redis) (db : Database)
      → event.retry_count + 1 < max
      → Accounts max redis db
      → Accounts max redis (flush event.id (mark_retried (event.retry_count + 1)) db)
  settle_retried event redis db room =
      All-update (has_event_id event.id) (mark_retried (event.retry_count + 1)) (λ e h. h)
        (λ e same h. record { relayed = h.relayed; lettered = h.lettered; retriable = λ p. room })
        db.outbox_events

  settle_dead :
      (env : Env) (place : ℕ) (error : String) (event : OutboxEvent) (redis : Redis) (db : Database)
      → max ≤ event.retry_count + 1
      → Accounts max redis db
      → let dead = flush event.id (mark_dead (event.retry_count + 1)) db in
        Accounts max redis
          (record dead { dead_letters = db.dead_letters ++ dead_letter env place error event ∷ [] })
  unfolding dead_letter
  settle_dead env place error event redis db spent =
      let letter = dead_letter env place error event in
      All-update (has_event_id event.id) (mark_dead (event.retry_count + 1))
        (λ e h. record {
          relayed = h.relayed;
          lettered = λ p. Some-append_left _ db.dead_letters (letter ∷ []) (h.lettered p);
          retriable = h.retriable;
        })
        (λ e same h. record {
          relayed = λ p. cc;
          lettered = λ p.
              Some-append_right _ db.dead_letters (letter ∷ [])
                (inl (sym ((==_iff e.id event.id).0 same), spent));
          retriable = λ p. cc;
        })
        db.outbox_events

module _ (settings : Settings) (env : Env) (carrier : Fields) (deliver : ℕ → Delivery)
    (error : String) where
  handle_publish_failure-Accounts :
      (place : ℕ) (event : OutboxEvent) (redis : Redis) (db : Database)
      → Accounts settings.max_retries redis db
      → Accounts settings.max_retries redis
          (handle_publish_failure settings env place error event db)
  unfolding handle_publish_failure
  handle_publish_failure-Accounts place event redis db h =
      elim (Bool-cases (leb settings.max_retries (event.retry_count + 1))) [
        | inl spent ↦
            rw spent
              (settle_dead settings.max_retries env place error event redis db (leb→le _ _ spent) h)
        | inr room ↦ rw room (settle_retried settings.max_retries event redis db (ground arith) h)
      ]

  -- One event published or not.
  publish_one-Accounts :
      (d : Delivery)
      → (place : ℕ) (event : OutboxEvent) (redis : Redis) (db : Database) → deliver event.id ≡ d
      → Accounts settings.max_retries redis db
      → let (redis', db') =
          publish_one settings env carrier deliver error place event (redis, db) in
        Accounts settings.max_retries redis' db'
  unfolding publish_one
  publish_one-Accounts delivered place event redis db e h =
      let entry = entry_of carrier event in
      rw e (
        settle_published settings.max_retries env.now event (redis ++ entry ∷ []) db
          (Some-append_right _ redis (entry ∷ []) (inl (unfold entry_of in refl)))
          (Accounts-streams settings.max_retries redis (entry ∷ []) db h))
  publish_one-Accounts refused place event redis db e h =
      rw e (handle_publish_failure-Accounts place event redis db h)
  publish_one-Accounts answer_lost place event redis db e h = rw e (
      handle_publish_failure-Accounts place event (redis ++ entry_of carrier event ∷ []) db
        (Accounts-streams settings.max_retries redis (entry_of carrier event ∷ []) db h))

  publish_all-Accounts :
      (place : ℕ) (events : List OutboxEvent) (redis : Redis) (db : Database)
      → Accounts settings.max_retries redis db
      → let (redis', db') =
          publish_all settings env carrier deliver error place events (redis, db) in
        Accounts settings.max_retries redis' db'
  unfolding publish_all
  publish_all-Accounts place [] redis db h = h
  publish_all-Accounts place (event ∷ rest) redis db h =
      let (redis', db') = publish_one settings env carrier deliver error place event (redis, db) in
      publish_all-Accounts (suc place) rest redis' db'
        (publish_one-Accounts (deliver event.id) place event redis db refl h)

  -- Streams only grow.
  publish_one_grows :
      (place : ℕ) (event : OutboxEvent) (redis : Redis) (db : Database)
      → (more : Redis) × ((publish_one settings env carrier deliver error place event (redis, db)).0
          ≡ redis ++ more)
  unfolding publish_one
  publish_one_grows place event redis db = grows (deliver event.id)
    where
      grows :
          (d : Delivery)
          → (more : Redis) × ((publish_event carrier d event redis).1 ≡ redis ++ more)
      grows delivered = (entry_of carrier event ∷ [], refl)
      grows refused = ([], sym (append-nil redis))
      grows answer_lost = (entry_of carrier event ∷ [], refl)

  publish_all_grows :
      (place : ℕ) (events : List OutboxEvent) (redis : Redis) (db : Database)
      → (more : Redis) × ((publish_all settings env carrier deliver error place events
            (redis, db)).0
          ≡ redis ++ more)
  unfolding publish_all
  publish_all_grows place [] redis db = ([], sym (append-nil redis))
  publish_all_grows place (event ∷ rest) redis db =
      let (redis', db') = publish_one settings env carrier deliver error place event (redis, db) in
      let (first, p) = publish_one_grows place event redis db in
      let (later, q) = publish_all_grows (suc place) rest redis' db' in
      (first ++ later, q ∙ ap (λ (l : Redis). l ++ later) p ∙ append_assoc redis first later)

module _ (max : ℕ) (redis : Redis) (changed db : Database) where
  commit_batch-Accounts :
      (accepted : Bool) (n : ℕ)
      → Accounts max redis changed
      → Accounts max redis db
      → let (_, redis', db') = commit_batch accepted n redis changed db in Accounts max redis' db'
  unfolding commit_batch
  commit_batch-Accounts true n h old = h
  commit_batch-Accounts false n h old = old

-- Whatever Redis does to each XADD, and whether or not the commit is accepted: if the relay
-- accounts for every event before a batch, it does so after it. An event marked published is in
-- a stream, one marked dead has a dead letter that counts at least `max_retries` attempts, and one
-- that is pending has attempts left.
pub publish_batch-Accounts :
    (settings : Settings) (env : Env) (carrier : Fields) (deliver : ℕ → Delivery) (error : String)
    (locked : ℕ → Bool) (redis : Redis) (db : Database)
    → Accounts settings.max_retries redis db
    → let (_, redis', db') = publish_batch settings env carrier deliver error locked redis db in
      Accounts settings.max_retries redis' db'
unfolding publish_batch
publish_batch-Accounts settings env carrier deliver error locked redis db h =
    let max = settings.max_retries in
    let events = poll_pending_events settings.batch_size locked db in
    let (redis', changed) = publish_all settings env carrier deliver error 0 events (redis, db) in
    let (more, grown) = publish_all_grows settings env carrier deliver error 0 events redis db in
    elim (Bool-cases (length events == 0)) [
      | inl empty ↦ rw empty h
      | inr polled ↦ rw polled (
          commit_batch-Accounts max redis' changed db env.accepted (length events)
            (publish_all-Accounts settings env carrier deliver error 0 events redis db h)
            (rw grown (Accounts-streams max redis more db h)))
    ]
