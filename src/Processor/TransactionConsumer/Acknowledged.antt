-- ===== src/Processor/TransactionConsumer/Acknowledged.antt =====
-- What one message of the transactions stream leaves in the database and in the pending list of
-- the consumer group.
use rt_financial_anomaly_det.Prelude.{
  ℕ, ◌<◌, String, ◌≡◌, ◌∙◌, sym, ap, subst, refl, ◌⊎◌, inl, inr, true, Option, none, some, [], ◌∷◌,
  ◌++◌, arith, eq_iff, any, Bool-cases, ltb, List, select, not, ◌==◌,
}
use rt_financial_anomaly_det.Shared.Errors.{Error}
use rt_financial_anomaly_det.Shared.Json.{Fields}
use rt_financial_anomaly_det.Shared.Models.{ProcessedEvent, DeadLetterEvent, Database}
use rt_financial_anomaly_det.Shared.Session.{Env, Result, ok, err}
use rt_financial_anomaly_det.Outbox.Publisher.{Delivery, delivered, refused, answer_lost}
use rt_financial_anomaly_det.Processor.Pipeline.{Pipeline, is_inbox_row}
use rt_financial_anomaly_det.Processor.Pipeline.Effects.{Decided, Writes}
use rt_financial_anomaly_det.Processor.Messages.{
  Envelope, Message, Wire, Consumer, World, Replies, parse_event_envelope, acknowledge, identified,
  dead_letter_row, finish_dead_letter, add_dead_letter_entry, handle_dead_letter,
}
use rt_financial_anomaly_det.Processor.TransactionConsumer.{
  event_of, acknowledge_or_keep, process_identified, process_single_message,
}
use rt_financial_anomaly_det.Processor.TransactionConsumer.Session.{
  consumed, consume_event-cases, any-append_right,
}

-- What a dead letter tells of an event that could be read, or of a message that could not.
abbrev pub TellsEvent : Consumer → Fields → DeadLetterEvent → Option (ℕ × Envelope) → Type 0
TellsEvent consumer fields row none =
    (row.event_type ≡ consumer.unknown_type) × (row.payload ≡ fields)
TellsEvent consumer fields row (some (event_id, envelope)) =
    (row.original_event_id ≡ event_id)
    × (row.event_type ≡ envelope.event_type)
    × (row.payload ≡ envelope.payload)

-- The dead letter of the message was written, and nothing else.
abbrev pub DeadLettered :
    Consumer → Option (ℕ × Envelope) → Fields → String → ℕ → Database → Database → Type 0
DeadLettered consumer event fields error delivery_count db db' =
    (row : DeadLetterEvent) × (row.stream_name ≡ consumer.stream_key)
    × (row.consumer_group ≡ some consumer.group)
    × TellsEvent consumer fields row event
    × (row.error_message ≡ error)
    × (row.retry_count ≡ delivery_count)
    × (db' ≡ record db { dead_letters = db.dead_letters ++ row ∷ [] })

-- The pending list after the XACK of a message, and after no other command: without the message,
-- unless Redis refused the command.
abbrev pub without_message : Delivery → ℕ → List ℕ → List ℕ
without_message refused message_id pending = pending
without_message delivered message_id pending = select (λ p. not (p == message_id)) pending
without_message answer_lost message_id pending = select (λ p. not (p == message_id)) pending

module _ (consumer : Consumer) (parse : Fields → Option Envelope) (env : Env) (replies : Replies)
    (m : Message) (error : String) (delivery_count : ℕ) (w : World) where
  abbrev dead_lettered : World
  dead_lettered = (handle_dead_letter consumer parse env replies m error delivery_count w).1

  row_tells :
      (o : Option (ℕ × Envelope))
      → let row = dead_letter_row consumer env o m.fields error delivery_count in
        (row.stream_name ≡ consumer.stream_key)
        × (row.consumer_group ≡ some consumer.group)
        × TellsEvent consumer m.fields row o
        × (row.error_message ≡ error)
        × (row.retry_count ≡ delivery_count)
  unfolding dead_letter_row
  row_tells none = (refl, refl, (refl, refl), refl, refl)
  row_tells (some (event_id, envelope)) = (refl, refl, (refl, refl, refl), refl, refl)

  pub handle_dead_letter-cases :
      ((dead_lettered.pending ≡ w.pending) × (dead_lettered.db ≡ w.db))
      ⊎ ((dead_lettered.pending ≡ without_message replies.xack m.message_id w.pending)
          × DeadLettered consumer
              (identified (parse m.fields))
              m.fields
              error
              delivery_count
              w.db
              dead_lettered.db)
  unfolding handle_dead_letter finish_dead_letter
  handle_dead_letter-cases = elim (Bool-cases env.accepted) [
    | inl h ↦
        let (stream, group, tells, reason, count) = row_tells (identified (parse m.fields)) in
        inr (
          (unfold acknowledge add_dead_letter_entry in ground arith),
          (
            dead_letter_row consumer env (identified (parse m.fields)) m.fields error
                delivery_count,
            stream,
            group,
            tells,
            reason,
            count,
            (unfold acknowledge add_dead_letter_entry in ground arith),
          ),
        )
    | inr h ↦ inl ((ground arith), (ground arith))
  ]

module _ (consumer : Consumer) (pipeline : Pipeline) (wire : Wire) (env : Env) (carrier : Fields)
    (replies : Replies) (m : Message) (delivery_count : ℕ) (w : World) where
  abbrev InInbox : ℕ → Database → Type 0
  InInbox event_id db = any (is_inbox_row event_id consumer.group) db.processed_events ≡ true

  -- the writes of the pipeline for the event
  abbrev Processed : ℕ → Envelope → Database → Type 0
  Processed event_id envelope db' =
      (x : Decided pipeline env (event_of event_id envelope) w.db) × Writes env carrier
        pipeline.consumer_group x.event_id x.t x.d x.corr w.db db'

  abbrev pub pending_after : List ℕ
  pending_after = without_message replies.xack m.message_id w.pending

  abbrev pub parsed_event : Option (ℕ × Envelope)
  parsed_event = identified (parse_event_envelope wire m.fields)

  -- the dead letter of the message, with the reason for it
  abbrev pub LettersMessage : Database → Type 0
  LettersMessage db' =
      ((consumer.max_deliveries < delivery_count)
        × DeadLettered consumer parsed_event m.fields
            (wire.exceeded_message delivery_count consumer.max_deliveries) delivery_count w.db db')
      ⊎ ((parsed_event ≡ none)
          × DeadLettered consumer parsed_event m.fields (wire.corrupt_message m.fields)
              delivery_count w.db db')

  abbrev pub Settles : World → Type 0
  Settles w' =
      ((w'.pending ≡ w.pending) × (w'.db ≡ w.db))
      ⊎ (((w'.pending ≡ pending_after) × LettersMessage w'.db)
          ⊎ ((w'.pending ≡ pending_after)
              × (event_id : ℕ) × (envelope : Envelope) × (identified
                    (parse_event_envelope wire m.fields)
                  ≡ some (event_id, envelope))
              × InInbox event_id w'.db
              × ((w'.db ≡ w.db) ⊎ Processed event_id envelope w'.db)))

  after_ok :
      (o : Result (Unit {0}) × Database)
      → o.0 ≡ ok tt
      → ((acknowledge_or_keep replies.xack m.message_id w o).1.pending ≡ pending_after)
        × ((acknowledge_or_keep replies.xack m.message_id w o).1.db ≡ o.1)
  unfolding acknowledge_or_keep acknowledge
  after_ok o h = ((ground arith), (ground arith))

  after_err :
      (o : Result (Unit {0}) × Database) (e : Error)
      → o.0 ≡ err e
      → ((acknowledge_or_keep replies.xack m.message_id w o).1.pending ≡ w.pending)
        × ((acknowledge_or_keep replies.xack m.message_id w o).1.db ≡ o.1)
  unfolding acknowledge_or_keep
  after_err o e h = ((ground arith), (ground arith))

  written_inbox :
      pipeline.consumer_group ≡ consumer.group
      → (event_id : ℕ) (envelope : Envelope) (db' : Database) → Processed event_id envelope db'
      → InInbox event_id db'
  written_inbox same event_id envelope db' (x, writes) =
      let row : ProcessedEvent = record {
        event_id = x.event_id;
        consumer_group = pipeline.consumer_group;
        processed_at = env.now;
      } in
      let hit : is_inbox_row event_id consumer.group row ≡ true =
        ground (arith, x.has_event_id, (eq_iff pipeline.consumer_group consumer.group).1 same) in
      ap (any (is_inbox_row event_id consumer.group)) writes.processed_events
      ∙ any-append_right (is_inbox_row event_id consumer.group) w.db.processed_events row hit

  Settles-identified :
      pipeline.consumer_group ≡ consumer.group
      → (event_id : ℕ) (envelope : Envelope)
      → identified (parse_event_envelope wire m.fields) ≡ some (event_id, envelope)
      → Settles
          (process_identified consumer pipeline wire env carrier replies m delivery_count w
            (some (event_id, envelope))).1
  unfolding process_identified
  Settles-identified same event_id envelope h =
      let o = consumed consumer pipeline env carrier event_id envelope w.db in
      elim (consume_event-cases consumer pipeline env carrier event_id envelope w.db) [
        | inl (e, c) ↦
            let (kept, unchanged) = after_err o e (ap (λ o. o.0) c) in
            inl (kept, unchanged ∙ ap (λ o. o.1) c)
        | inr (inl (c, known)) ↦
            let (acked, kept) = after_ok o (ap (λ o. o.0) c) in
            let unchanged = kept ∙ ap (λ o. o.1) c in
            inr (
              inr (
                acked,
                event_id,
                envelope,
                h,
                subst (InInbox event_id) (sym unchanged) known,
                inl unchanged,
              ))
        | inr (inr (c, done)) ↦
            let (acked, kept) = after_ok o c in
            let done' = subst (Processed event_id envelope) (sym kept) done in
            inr (
              inr (
                acked,
                event_id,
                envelope,
                h,
                written_inbox same event_id envelope _ done',
                inr done',
              ))
      ]

  abbrev with_parsed : Option (ℕ × Envelope) → World
  with_parsed o =
      (process_identified consumer pipeline wire env carrier replies m delivery_count w o).1

  abbrev lettered : String → World
  lettered error =
      (handle_dead_letter consumer (parse_event_envelope wire) env replies m error delivery_count
        w).1

  Settles-dead_letter :
      (error : String)
      → (DeadLettered consumer parsed_event m.fields error delivery_count w.db (lettered error).db
          → LettersMessage (lettered error).db)
      → Settles (lettered error)
  Settles-dead_letter error reason =
      elim (handle_dead_letter-cases consumer (parse_event_envelope wire) env replies m error
        delivery_count w) [
          | inl kept ↦ inl kept
          | inr (acked, dead) ↦ inr (inl (acked, reason dead))
        ]

  Settles-parsed :
      pipeline.consumer_group ≡ consumer.group
      → (o : Option (ℕ × Envelope)) → parsed_event ≡ o
      → Settles (with_parsed o)
  unfolding process_identified
  Settles-parsed same none h =
      Settles-dead_letter (wire.corrupt_message m.fields) (λ dead. inr (h, dead))
  Settles-parsed same (some (event_id, envelope)) h = Settles-identified same event_id envelope h

  -- Where the pipeline and the consumer have the same group, a message does one of three things. It
  -- stays pending and nothing is written. Or its dead letter is written and nothing else, with the
  -- event of the message or, where it cannot be read, its fields, with the number of deliveries and
  -- the error: too many deliveries, or no event that can be read. Or its event is in the inbox, with
  -- the writes of the pipeline made now, all together, or nothing written because it was there before.
  -- In the last two cases this message, and no other, leaves the pending list, unless Redis refuses
  -- the XACK.
  pub process_single_message-Settles :
      pipeline.consumer_group ≡ consumer.group
      → Settles
          (process_single_message consumer pipeline wire env carrier replies m delivery_count w).1
  unfolding process_single_message
  process_single_message-Settles same =
      elim (Bool-cases (ltb consumer.max_deliveries delivery_count)) [
        | inl over ↦
            let many : consumer.max_deliveries < delivery_count = ground arith in
            rw over (
              Settles-dead_letter (wire.exceeded_message delivery_count consumer.max_deliveries)
                (λ dead. inl (many, dead)))
        | inr under ↦ rw under (Settles-parsed same parsed_event refl)
      ]
