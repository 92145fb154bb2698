-- ===== src/Processor/CompensationConsumer/Balance.antt =====
-- What one message of the compensation stream leaves of the inbox and of the risk profiles.
use rt_financial_anomaly_det.Prelude.{
  ℕ, ◌+◌, ◌≤◌, ◌≡◌, refl, sym, ap, subst, ◌∙◌, inl, inr, String, Bool, true, false, Option, none,
  some, List, [], ◌∷◌, ◌++◌, arith, any, All, head?, ==_iff, length, ltb, select, Bool-cases,
}
use rt_financial_anomaly_det.Prelude.Keys.{
  Distinct, Distinct-update, All-selected, select_key-cases, sum, sum-update_one,
}
use rt_financial_anomaly_det.Prelude.Appended.{
  sum-append_one, length-append_one, unmatched, unselected, length-select_append,
}
use rt_financial_anomaly_det.Shared.Json.{Fields}
use rt_financial_anomaly_det.Shared.Models.{ProcessedEvent, RiskProfile, Database}
use rt_financial_anomaly_det.Shared.Session.{Env, Result, in_session}
use rt_financial_anomaly_det.Processor.Context.{has_user}
use rt_financial_anomaly_det.Processor.Pipeline.{is_inbox_row}
use rt_financial_anomaly_det.Processor.Compensation.{
  write_compensation, compensated, initial_profile,
}
use rt_financial_anomaly_det.Processor.Messages.{
  Envelope, Message, Wire, Consumer, World, Replies, identified, acknowledge, handle_dead_letter,
}
use rt_financial_anomaly_det.Processor.TransactionConsumer.Acknowledged.{handle_dead_letter-cases}
use rt_financial_anomaly_det.Processor.TransactionConsumer.Redelivery.{Distinct-append}
use rt_financial_anomaly_det.Processor.CompensationConsumer.{
  parse_event_envelope, compensate_once, acknowledge_true, process_identified,
  process_single_message,
}
use rt_financial_anomaly_det.Processor.CompensationConsumer.Effects.{
  Compensates, compensate_once-cases,
}

abbrev pub user_of : RiskProfile → ℕ
user_of p = p.user_id

-- the false positives of all users together
abbrev pub false_positives : Database → ℕ
false_positives db = sum (λ (p : RiskProfile). p.false_positive_count) db.risk_profiles

abbrev pub inbox_rows : String → ℕ → Database → List ProcessedEvent
inbox_rows group event_id db = select (is_inbox_row event_id group) db.processed_events

-- A user has one profile at most, and an event one row of the group at most.
abbrev pub IsConsistent : String → Database → Type 0
IsConsistent group db =
    Distinct user_of db.risk_profiles × ((event_id : ℕ) → length (inbox_rows group event_id db) ≤ 1)

-- As many false positives were added as rows of the inbox.
abbrev pub Balances : Database → Database → Type 0
Balances db db' =
    false_positives db' + length db.processed_events
    ≡ false_positives db + length db'.processed_events

abbrev pub Keeps : String → Database → Database → Type 0
Keeps group db db' = IsConsistent group db → IsConsistent group db' × Balances db db'

module _ (group : String) where
  pub Keeps-trans : (a b c : Database) → Keeps group a b → Keeps group b c → Keeps group a c
  Keeps-trans a b c f g h = let (hb, ab) = f h in let (hc, bc) = g hb in (hc, omega (arith, ab, bc))

  pub Keeps-same :
      (db db' : Database)
      → db'.processed_events ≡ db.processed_events
      → db'.risk_profiles ≡ db.risk_profiles
      → Keeps group db db'
  Keeps-same db db' inbox profiles h = (
    (
      subst (Distinct user_of) (sym profiles) h.0,
      (λ event_id.
          subst
            (λ (rows : List ProcessedEvent). length (select (is_inbox_row event_id group) rows) ≤ 1)
            (sym inbox) (h.1 event_id)),
    ),
    rw (inbox, profiles) refl,
  )

-- The row of a new event is its only one.
inbox_append :
    (group : String) (row : ProcessedEvent) (rows : List ProcessedEvent) (event_id : ℕ)
    → any (is_inbox_row row.event_id group) rows ≡ false
    → length (select (is_inbox_row event_id group) rows) ≤ 1
    → length (select (is_inbox_row event_id group) (rows ++ row ∷ [])) ≤ 1
inbox_append group row rows event_id fresh few =
    elim (Bool-cases (is_inbox_row event_id group row)) [
      | inr miss ↦ rw (length-select_append (is_inbox_row event_id group) rows row, miss) few
      | inl hit ↦
          let same : row.event_id ≡ event_id = ground arith in
          let none_ =
            unmatched (is_inbox_row event_id group) rows
              (subst (λ k. any (is_inbox_row k group) rows ≡ false) same fresh) in
          rw (length-select_append (is_inbox_row event_id group) rows row, hit, none_) (omega arith)
    ]

-- A compensation keeps the profiles distinct and counts one false positive.
module _ (now user_id : ℕ) (db : Database) (distinct : Distinct user_of db.risk_profiles) where
  abbrev written : Database
  written = write_compensation now user_id (head? (select (has_user user_id) db.risk_profiles)) db

  written-Distinct : Distinct user_of written.risk_profiles
  unfolding write_compensation
  written-Distinct = elim (select_key-cases user_of user_id db.risk_profiles distinct) [
    | inl missing ↦ rw missing (
        Distinct-append user_of db.risk_profiles (initial_profile now user_id) distinct
          (unselected (has_user user_id) db.risk_profiles missing))
    | inr (p, found) ↦ rw found (
        Distinct-update user_of (has_user p.user_id) (compensated now) (λ q. refl) db.risk_profiles
          distinct)
  ]

  written_counts : false_positives written ≡ false_positives db + 1
  unfolding write_compensation
  written_counts = elim (select_key-cases user_of user_id db.risk_profiles distinct) [
    | inl missing ↦ rw missing (
        sum-append_one (λ (q : RiskProfile). q.false_positive_count) db.risk_profiles
          (initial_profile now user_id))
    | inr (p, found) ↦
        let hit : has_user user_id p ≡ true =
          (subst (All (λ q. has_user user_id q ≡ true)) found
            (All-selected (has_user user_id) db.risk_profiles)).0 in
        let same : user_id ≡ p.user_id = sym ((==_iff p.user_id user_id).0 hit) in
        let only : select (has_user p.user_id) db.risk_profiles ≡ p ∷ [] =
          subst (λ k. select (has_user k) db.risk_profiles ≡ p ∷ []) same found in
        rw found (
          omega (
            arith,
            sum-update_one (λ (q : RiskProfile). q.false_positive_count) (has_user p.user_id)
                (compensated now) db.risk_profiles p only,
          ))
  ]

module _ (consumer : Consumer) (env : Env) (event_id : ℕ) (payload : Fields)
    (db db' : Database) where
  Compensates-Keeps : Compensates consumer env event_id payload db db' → Keeps consumer.group db db'
  Compensates-Keeps c (users, few) =
      let row : ProcessedEvent = record {
        event_id = event_id;
        consumer_group = consumer.group;
        processed_at = env.now;
      } in
      (
        (
          subst (Distinct user_of) (sym c.risk_profiles)
              (written-Distinct env.now c.user_id db users),
          (λ e.
              subst
                (λ (rows : List ProcessedEvent).
                  length (select (is_inbox_row e consumer.group) rows) ≤ 1)
                (sym c.processed_events)
                (inbox_append consumer.group row db.processed_events e c.inbox_fresh (few e))),
        ),
        omega (
          arith,
          ap (sum (λ (q : RiskProfile). q.false_positive_count)) c.risk_profiles
              ∙ written_counts env.now c.user_id db users,
          ap length c.processed_events ∙ length-append_one db.processed_events row,
        ),
      )

module _ (consumer : Consumer) (wire : Wire) (env : Env) (replies : Replies) (m : Message)
    (delivery_count : ℕ) (w : World) where
  dead_letter-Keeps :
      (error : String)
      → Keeps consumer.group w.db
          (handle_dead_letter consumer
            (parse_event_envelope wire)
            env
            replies
            m
            error
            delivery_count
            w).1.db
  dead_letter-Keeps error =
      let w' =
        (handle_dead_letter consumer (parse_event_envelope wire) env replies m error delivery_count
          w).1 in
      elim (handle_dead_letter-cases consumer (parse_event_envelope wire) env replies m error
        delivery_count w) [
          | inl (pending, same) ↦
              Keeps-same consumer.group w.db w'.db (ap (λ (d : Database). d.processed_events) same)
                (ap (λ (d : Database). d.risk_profiles) same)
          | inr (acked, (row, s, g, tells, e, n, same)) ↦
              Keeps-same consumer.group w.db w'.db (ap (λ (d : Database). d.processed_events) same)
                (ap (λ (d : Database). d.risk_profiles) same)
        ]

  acknowledged_db :
      (o : Result Bool × Database) → (acknowledge_true replies.xack m.message_id w o).1.db ≡ o.1
  unfolding acknowledge_true acknowledge
  acknowledged_db o = ground arith

  once-Keeps :
      (event_id : ℕ) (payload : Fields)
      → Keeps consumer.group w.db
          (in_session (compensate_once consumer env event_id payload) w.db).1
  once-Keeps event_id payload =
      let after = (in_session (compensate_once consumer env event_id payload) w.db).1 in
      elim (compensate_once-cases consumer env event_id payload w.db) [
        | inl (same, known) ↦
            Keeps-same consumer.group w.db after (ap (λ (d : Database). d.processed_events) same)
              (ap (λ (d : Database). d.risk_profiles) same)
        | inr (answered, c) ↦ Compensates-Keeps consumer env event_id payload w.db after c
      ]

  identified-Keeps :
      (o : Option (ℕ × Envelope))
      → Keeps consumer.group w.db
          (process_identified consumer wire env replies m delivery_count w o).1.db
  unfolding process_identified
  identified-Keeps none = dead_letter-Keeps (wire.corrupt_message m.fields)
  identified-Keeps (some (event_id, envelope)) =
      subst (Keeps consumer.group w.db)
        (sym (
          acknowledged_db
            (in_session (compensate_once consumer env event_id envelope.payload) w.db)))
        (once-Keeps event_id envelope.payload)

  pub message-Keeps :
      Keeps consumer.group w.db
        (process_single_message consumer wire env replies m delivery_count w).1.db
  unfolding process_single_message
  message-Keeps = elim (Bool-cases (ltb consumer.max_deliveries delivery_count)) [
    | inl over ↦
        rw over (dead_letter-Keeps (wire.exceeded_message delivery_count consumer.max_deliveries))
    | inr under ↦ rw under (identified-Keeps (identified (parse_event_envelope wire m.fields)))
  ]
