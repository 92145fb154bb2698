-- ===== src/Gateway/Notifications/Listener.antt =====
-- `RedisPubSubListener.run_listener_loop` of services/gateway/consumers/notification_forwarder.py: what
-- each round of `get_message` gave, and what every socket does with a broadcast of it. The waiting, the
-- subscription and its end are left out.
use rt_financial_anomaly_det.Prelude.{
  ℕ, Bool, true, false, ◌&&◌, Option, none, some, List, [], ◌∷◌, str_eq, if◌then◌else◌, String,
}
use rt_financial_anomaly_det.Shared.Json.{Json}
use rt_financial_anomaly_det.Detection.Values.{truthy}
use rt_financial_anomaly_det.Gateway.Connections.{Connection, Sending, is_sent, broadcast}

-- a message of Pub/Sub, with what each socket does with it
pub record Incoming : Type 0 where
  pub kind : String
  pub content : Option Json
  pub send : ℕ → Sending

-- the two tests of a round; none is a round without a message or with an exception of Redis
unfoldable pub is_notification : Option Incoming → Bool
unfolding truthy
is_notification none = false
is_notification (some m) = str_eq m.kind "message" && truthy m.content

unfoldable pub broadcast_message : Option Incoming → List Connection → ℕ × List Connection
unfolding broadcast
broadcast_message none active = (0, active)
broadcast_message (some m) active = broadcast m.send active

-- one round: the deliveries, and the connections that are left
unfoldable pub listen_once : Option Incoming → List Connection → ℕ × List Connection
unfolding is_notification broadcast_message
listen_once o active = if is_notification o then broadcast_message o active else (0, active)

unfoldable pub listen : List (Option Incoming) → List Connection → List Connection
unfolding listen_once
listen [] active = active
listen (o ∷ rest) active = listen rest (listen_once o active).1

-- A socket takes whatever a round sends it.
abbrev pub takes : Option Incoming → Connection → Bool
takes none c = true
takes (some m) c = if is_notification (some m) then is_sent (m.send c.socket) else true

abbrev pub takes_all : List (Option Incoming) → Connection → Bool
takes_all [] c = true
takes_all (o ∷ rest) c = takes o c && takes_all rest c
