-- ===== src/Gateway/Notifications/Settled.antt =====
-- What becomes of a pending entry in the loops of `NotificationForwarder`.
use rt_financial_anomaly_det.Prelude.{
  ◌≡◌, refl, sym, ◌∙◌, ap, subst, ◌⊎◌, inl, inr, true, false, not, Option, none, some, List, [],
  ◌∷◌, ◌++◌, append_assoc, append-nil, arith, eq_iff, Some, Some-append_left, Some-append_right,
  select, if◌then◌else◌, Bool-cases,
}
use rt_financial_anomaly_det.Shared.Json.{Json}
use rt_financial_anomaly_det.Shared.Session.{Result, ok, err}
use rt_financial_anomaly_det.Outbox.Publisher.{Delivery, delivered, refused, answer_lost}
use rt_financial_anomaly_det.Detection.Values.{TextOps}
use rt_financial_anomaly_det.Gateway.Notifications.{
  format_notification_message, Envelope, Reader, parse_event_envelope, Entry, same_entry, World,
  drop_pending, acknowledge, publish_notification, forward, forward_envelope,
  process_stream_message,
}
use rt_financial_anomaly_det.Gateway.Notifications.Relay.{Arrival, entry_of}

abbrev pub IsPending : Entry → List Entry → Type 0
IsPending k pending = Some (λ e. e ≡ k) pending

same_entry_lem : (e f : Entry) → same_entry e f ≡ true → e ≡ f
same_entry_lem e f h =
    let s : e.stream ≡ f.stream = ground (arith, eq_iff e.stream f.stream) in
    let i : e.message_id ≡ f.message_id = ground arith in
    λ x. record { stream = s x; message_id = i x }

-- Acknowledging an entry keeps every other one.
IsPending-select :
    (k e : Entry) (pending : List Entry)
    → same_entry k e ≡ false
    → IsPending k pending
    → IsPending k (select (λ p. not (same_entry p e)) pending)
unfolding select
IsPending-select k e [] ne s = elim s [ ]
IsPending-select k e (p ∷ rest) ne (inl h) =
    subst
      (λ b. IsPending k (
        if b
        then p ∷ select (λ p. not (same_entry p e)) rest
        else select (λ p. not (same_entry p e)) rest))
      (sym (ap (λ p. not (same_entry p e)) h ∙ ap not ne)) (inl h)
IsPending-select k e (p ∷ rest) ne (inr s) = elim (Bool-cases (not (same_entry p e))) [
  | inl keeps ↦ rw keeps (inr (IsPending-select k e rest ne s))
  | inr drops ↦ rw drops (IsPending-select k e rest ne s)
]

module _ (reader : Reader) (ops : TextOps) where
  -- The delivery cannot be read as an event, or its notification is among the published ones.
  abbrev pub IsSettled : Arrival → List Json → Type 0
  IsSettled a published =
      (parse_event_envelope reader a.message.fields ≡ none)
      ⊎ ((envelope : Envelope) × (n : Json) × (parse_event_envelope reader a.message.fields
            ≡ some envelope)
          × (format_notification_message ops a.now envelope.event_type envelope.payload ≡ ok n)
          × Some (λ p. p ≡ n) published)

  -- The deliveries `ds` were all that was processed: nothing published is taken back, and a pending
  -- entry stays pending, or a delivery of it was settled.
  abbrev pub Relays : List Arrival → World → World → Type 0
  Relays ds w w' =
      ((t : List Json) × (w'.published ≡ w.published ++ t))
      × ((k : Entry)
          → IsPending k w.pending
          → IsPending k w'.pending
            ⊎ Some (λ (a : Arrival). (entry_of a ≡ k) × IsSettled a w'.published) ds)

  pub Relays-none : (ds : List Arrival) (w : World) → Relays ds w w
  Relays-none ds w = (([], sym (append-nil w.published)), λ k h. inl h)

  IsSettled-append :
      (a : Arrival) (published t : List Json) → IsSettled a published → IsSettled a (published ++ t)
  IsSettled-append a published t (inl h) = inl h
  IsSettled-append a published t (inr (envelope, n, parsed, formatted, s)) =
      inr (envelope, n, parsed, formatted, Some-append_left (λ p. p ≡ n) published t s)

  IsSettled-later :
      (k : Entry) (ds : List Arrival) (published t : List Json)
      → Some (λ (a : Arrival). (entry_of a ≡ k) × IsSettled a published) ds
      → Some (λ (a : Arrival). (entry_of a ≡ k) × IsSettled a (published ++ t)) ds
  IsSettled-later k [] published t s = elim s [ ]
  IsSettled-later k (a ∷ ds) published t (inl (h, s)) = inl (h, IsSettled-append a published t s)
  IsSettled-later k (a ∷ ds) published t (inr s) = inr (IsSettled-later k ds published t s)

  abbrev IsSettledIn : Entry → List Json → List Arrival → Type 0
  IsSettledIn k published ds = Some (λ (a : Arrival). (entry_of a ≡ k) × IsSettled a published) ds

  pub Relays-then :
      (ds es : List Arrival) (w w' w'' : World)
      → Relays ds w w'
      → Relays es w' w''
      → Relays (ds ++ es) w w''
  Relays-then ds es w w' w'' ((t, more), keep) ((t', more'), keep') = (
    (t ++ t', more' ∙ ap (λ p. p ++ t') more ∙ append_assoc w.published t t'),
    λ k h. elim (keep k h) [
      | inr s ↦ inr (
          Some-append_left _ ds es
            (subst (λ p. IsSettledIn k p ds) (sym more') (IsSettled-later k ds w'.published t' s)))
      | inl h' ↦ elim (keep' k h') [ inl h'' ↦ inl h'' | inr s ↦ inr (Some-append_right _ ds es s) ]
    ],
  )

  pub Relays-before :
      (ds es : List Arrival) (w w' : World) → Relays ds w w' → Relays (ds ++ es) w w'
  Relays-before ds es w w' r = Relays-then ds es w w' w' r (Relays-none es w')

  pub Relays-skip :
      (a : Arrival) (ds : List Arrival) (w w' : World) → Relays ds w w' → Relays (a ∷ ds) w w'
  Relays-skip a ds w w' r = Relays-then (a ∷ []) ds w w w' (Relays-none (a ∷ []) w) r

  -- What one message leaves: what is published grows, and either the pending entries stay or the
  -- message is settled and its own entry is dropped.
  abbrev Outcome : Arrival → World → World → Type 0
  Outcome a w w' =
      ((t : List Json) × (w'.published ≡ w.published ++ t))
      × ((w'.pending ≡ w.pending)
          ⊎ ((w'.pending ≡ (drop_pending (entry_of a) w).pending) × IsSettled a w'.published))

  Outcome-acknowledge :
      (a : Arrival) (xack : Delivery) (w : World)
      → IsSettled a w.published
      → Outcome a w (acknowledge xack (entry_of a) w).1
  unfolding acknowledge
  Outcome-acknowledge a delivered w s = (([], sym (append-nil w.published)), inr (refl, s))
  Outcome-acknowledge a refused w s = (([], sym (append-nil w.published)), inl refl)
  Outcome-acknowledge a answer_lost w s = (([], sym (append-nil w.published)), inr (refl, s))

  Outcome-published :
      (a : Arrival) (n : Json) (w w' : World)
      → Outcome a (record w { published = w.published ++ n ∷ [] }) w'
      → Outcome a w w'
  Outcome-published a n w w' ((t, more), o) =
      ((n ∷ t, more ∙ append_assoc w.published (n ∷ []) t), o)

  Outcome-publish :
      (a : Arrival) (publish xack : Delivery) (n : Json) (w : World)
      → IsSettled a (w.published ++ n ∷ [])
      → Outcome a w (publish_notification publish xack (entry_of a) n w).1
  unfolding publish_notification
  Outcome-publish a delivered xack n w s =
      Outcome-published a n w _ (Outcome-acknowledge a xack _ s)
  Outcome-publish a refused xack n w s = (([], sym (append-nil w.published)), inl refl)
  Outcome-publish a answer_lost xack n w s = ((n ∷ [], refl), inl refl)

  Outcome-forward :
      (a : Arrival) (envelope : Envelope) (w : World)
      → parse_event_envelope reader a.message.fields ≡ some envelope
      → (r : Result Json)
      → format_notification_message ops a.now envelope.event_type envelope.payload ≡ r
      → Outcome a w (forward a.replies (entry_of a) w r).1
  Outcome-forward a envelope w parsed (err e) h = (([], sym (append-nil w.published)), inl refl)
  Outcome-forward a envelope w parsed (ok n) h =
      Outcome-publish a a.replies.publish a.replies.xack n w (
        inr
          (envelope, n, parsed, h, Some-append_right (λ p. p ≡ n) w.published (n ∷ []) (inl refl)))

  Outcome-envelope :
      (a : Arrival) (w : World) (o : Option Envelope)
      → parse_event_envelope reader a.message.fields ≡ o
      → Outcome a w (forward_envelope ops a.now a.replies (entry_of a) w o).1
  unfolding forward_envelope
  Outcome-envelope a w none h = Outcome-acknowledge a a.replies.xack w (inl h)
  Outcome-envelope a w (some envelope) h = Outcome-forward a envelope w h _ refl

  Outcome-Relays : (a : Arrival) (w w' : World) → Outcome a w w' → Relays (a ∷ []) w w'
  Outcome-Relays a w w' (more, inl same) = (more, λ k h. inl (subst (IsPending k) (sym same) h))
  Outcome-Relays a w w' (more, inr (dropped, s)) = (
    more,
    λ k h. elim (Bool-cases (same_entry k (entry_of a))) [
      | inl own ↦ inr (inl (sym (same_entry_lem k (entry_of a) own), s))
      | inr other ↦
          inl
            (subst (IsPending k) (sym dropped) (IsPending-select k (entry_of a) w.pending other h))
    ],
  )

  pub process_stream_message-Relays :
      (a : Arrival) (w : World)
      → Relays (a ∷ []) w (process_stream_message reader ops a.now a.replies a.stream a.message w).1
  unfolding process_stream_message
  process_stream_message-Relays a w =
      Outcome-Relays a w _
        (Outcome-envelope a w (parse_event_envelope reader a.message.fields) refl)
