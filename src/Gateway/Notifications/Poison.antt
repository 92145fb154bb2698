-- ===== src/Gateway/Notifications/Poison.antt =====
-- Where the XAUTOCLAIM loop of `NotificationForwarder` stops.
use rt_financial_anomaly_det.Prelude.{
  ◌≡◌, ap, ◌∙◌, String, Bool, true, false, some, List, ◌∷◌, arith,
}
use rt_financial_anomaly_det.Shared.Errors.{attribute_error}
use rt_financial_anomaly_det.Shared.Json.{Json, object}
use rt_financial_anomaly_det.Shared.Session.{err}
use rt_financial_anomaly_det.Detection.Values.{TextOps}
use rt_financial_anomaly_det.Gateway.Notifications.{
  format_notification_message, is_alert_event, with_dict, Envelope, Reader, parse_event_envelope,
  World, process_stream_message, forward_envelope, forward,
}
use rt_financial_anomaly_det.Gateway.Notifications.Relay.{
  Arrival, entry_of, Claim, claimed, has_data, process_messages, process_claims,
}

-- `isinstance(payload, dict)`
abbrev pub is_dict : Json → Bool
is_dict (object fields) = true
is_dict other = false

module _ (reader : Reader) (ops : TextOps) where
  no_dict :
      (payload : Json) (f : _) → is_dict payload ≡ false → with_dict payload f ≡ err attribute_error
  no_dict payload f h = ground arith

  format_raises :
      (now : _) (event_type : String) (payload : Json)
      → is_alert_event ops now event_type ≡ true
      → is_dict payload ≡ false
      → format_notification_message ops now event_type payload ≡ err attribute_error
  unfolding format_notification_message
  format_raises now event_type payload alert nodict = ground arith

  poisoned :
      (a : Arrival) (w : World) (envelope : Envelope)
      → parse_event_envelope reader a.message.fields ≡ some envelope
      → is_alert_event ops a.now envelope.event_type ≡ true
      → is_dict envelope.payload ≡ false
      → process_stream_message reader ops a.now a.replies a.stream a.message w
        ≡ (err attribute_error, w)
  unfolding process_stream_message forward_envelope
  poisoned a w envelope parsed alert nodict =
      ap (λ o. forward_envelope ops a.now a.replies (entry_of a) w o) parsed
      ∙ ap (λ r. forward a.replies (entry_of a) w r)
          (format_raises a.now envelope.event_type envelope.payload alert nodict)

  -- An alert event whose payload is no dict, in front of a page that XAUTOCLAIM hands over: the
  -- round ends there. The message stays pending, and nothing that comes after it on this page or a
  -- later one is forwarded, in this round or in any other that begins with it.
  pub process_claims_poisoned :
      (a : Arrival) (rest : List Arrival) (more : List Claim) (next_start_id : _) (w : World)
      (envelope : Envelope)
      → a.shutting_down ≡ false
      → has_data a.message.fields ≡ true
      → parse_event_envelope reader a.message.fields ≡ some envelope
      → is_alert_event ops a.now envelope.event_type ≡ true
      → is_dict envelope.payload ≡ false
      → process_claims reader ops (claimed next_start_id (a ∷ rest) ∷ more) w ≡ w
  unfolding process_claims process_messages
  process_claims_poisoned a rest more next_start_id w envelope goes nonempty parsed alert nodict =
      ground (arith, goes, nonempty, poisoned a w envelope parsed alert nodict)
