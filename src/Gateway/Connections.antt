-- ===== src/Gateway/Connections.antt =====
-- `WebSocketConnectionManager` of services/gateway/ws/manager.py. A socket is a number, the dict of
-- active connections a list of entries in the order of insertion. What a socket does with a message
-- is chosen by its surroundings.
pub mod Broadcast
pub mod Heartbeat
use rt_financial_anomaly_det.Prelude.{
  ℕ, suc, ◌+◌, String, Bool, true, false, not, Option, none, some, List, [], ◌∷◌, ◌++◌, ltb, ◌==◌,
  if◌then◌else◌, any, length, select, update,
}

pub record Connection : Type 0 where
  pub socket : ℕ
  pub client_id : String
  pub connected_at : ℕ
  pub last_pong : ℕ
  pub last_ping_sent : Option ℕ

-- A send succeeds, finds the socket in another state than CONNECTED, or raises.
pub data Sending : Type 0 where
  sent not_connected raised : Sending

abbrev pub is_sent : Sending → Bool
is_sent sent = true
is_sent not_connected = false
is_sent raised = false

abbrev pub has_socket : ℕ → Connection → Bool
has_socket socket c = c.socket == socket

abbrev pub fresh_connection : ℕ → ℕ → String → Connection
fresh_connection now socket client_id = record {
  socket = socket;
  client_id = client_id;
  connected_at = now;
  last_pong = now;
  last_ping_sent = none;
}

-- `connect`: the assignment to the dict replaces an entry in place, or adds one at the end
unfoldable pub connect : ℕ → ℕ → String → List Connection → List Connection
connect now socket client_id active =
    if any (has_socket socket) active
    then update (has_socket socket) (λ c. fresh_connection now socket client_id) active
    else active ++ fresh_connection now socket client_id ∷ []

-- `disconnect`, `pop(websocket, None)`
unfoldable pub disconnect : ℕ → List Connection → List Connection
disconnect socket active = select (λ c. not (has_socket socket c)) active

abbrev pub ponged : ℕ → Connection → Connection
ponged now c = record c { last_pong = now; last_ping_sent = none }

-- `record_pong`
unfoldable pub record_pong : ℕ → ℕ → List Connection → List Connection
record_pong now socket active = update (has_socket socket) (ponged now) active

-- `send_personal_message`: a socket that raises is disconnected
unfoldable pub send_personal_message : Sending → ℕ → List Connection → Bool × List Connection
send_personal_message sent socket active = (true, active)
send_personal_message not_connected socket active = (false, active)
send_personal_message raised socket active = (false, disconnect socket active)

-- the loop of `broadcast`: the sockets that failed, and the deliveries
unfoldable pub deliver_all : (ℕ → Sending) → List Connection → List ℕ × ℕ
deliver_all send [] = ([], 0)
deliver_all send (c ∷ rest) =
    let (failed, delivered) = deliver_all send rest in
    if is_sent (send c.socket) then (failed, suc delivered) else (c.socket ∷ failed, delivered)

-- `pop` for every socket of a list
unfoldable pub disconnect_all : List ℕ → List Connection → List Connection
unfolding disconnect
disconnect_all [] active = active
disconnect_all (socket ∷ rest) active = disconnect_all rest (disconnect socket active)

unfoldable pub broadcast : (ℕ → Sending) → List Connection → ℕ × List Connection
unfolding deliver_all disconnect_all
broadcast send active =
    let (failed, delivered) = deliver_all send active in (delivered, disconnect_all failed active)

-- `(now - last_ping) > ping_timeout`
unfoldable pub is_overdue : ℕ → ℕ → Connection → Bool
is_overdue timeout now c = elim c.last_ping_sent [
  | none ↦ false
  | some ping ↦ ltb (ping + timeout) now
]

abbrev pub pinged : ℕ → Connection → Connection
pinged now c = record c { last_ping_sent = some now }

-- one round of the loop of a heartbeat check: the entries, and the stale sockets
unfoldable pub ping_one :
    ℕ → ℕ → (ℕ → Sending) → Connection → List Connection × List ℕ → List Connection × List ℕ
unfolding is_overdue
ping_one timeout now send c (active, stale) =
    if is_overdue timeout now c
    then (active, c.socket ∷ stale)
    else (if is_sent (send c.socket)
        then (update (has_socket c.socket) (pinged now) active, stale)
        else (active, c.socket ∷ stale))

unfoldable pub ping_all :
    ℕ → ℕ → (ℕ → Sending) → List Connection → List Connection × List ℕ → List Connection × List ℕ
ping_all timeout now send [] state = state
ping_all timeout now send (c ∷ rest) state =
    ping_all timeout now send rest (ping_one timeout now send c state)

-- one check of `run_heartbeat_loop`; the stale sockets are closed and removed
unfoldable pub heartbeat_check : ℕ → ℕ → (ℕ → Sending) → List Connection → List Connection
heartbeat_check timeout now send active =
    let (active', stale) = ping_all timeout now send active (active, []) in
    disconnect_all stale active'

unfoldable pub close_all : List Connection → List Connection
close_all active = []
