-- ===== src/Gateway/Sockets.antt =====
-- `verify_jwt_token` of services/gateway/auth/jwt.py and `websocket_alerts_endpoint` of
-- services/gateway/ws/router.py. The decoder of jose, with the secret and the algorithm of the
-- settings, and `json.loads` are parameters, and so are the text methods of Python.
pub mod Sessions
use Prim.Native.String.{◌++◌ as str_append}
use package.text.Mathlib.Text.{starts_with}
use rt_financial_anomaly_det.Prelude.{
  ℕ, String, Bool, true, false, not, ◌&&◌, ◌||◌, Option, none, some, List, [], ◌∷◌, str_eq,
  if◌then◌else◌,
}
use rt_financial_anomaly_det.Shared.Errors.{authentication}
use rt_financial_anomaly_det.Shared.Json.{Json, text, object, Fields, dict, get}
use rt_financial_anomaly_det.Shared.Session.{Result, ok, err}
use rt_financial_anomaly_det.Detection.Values.{TextOps}
use rt_financial_anomaly_det.Gateway.Connections.{Connection, connect, record_pong, disconnect}

-- what the endpoint calls: `jwt.decode`, where none is a JWTError, `json.loads`, where none is an
-- exception, `s.replace("dev-token-", "")` and `s.split("Bearer ")[1]`
pub record Outside : Type 0 where
  pub ops : TextOps
  pub decode : String → Option Fields
  pub loads : String → Option Json
  pub without_dev_prefix : String → String
  pub after_bearer : String → String

abbrev pub is_empty : String → Bool
is_empty s = str_eq s ""

abbrev pub decoded : Option Fields → Result Fields
decoded none = err authentication
decoded (some claims) = ok claims

abbrev pub dev_claims : String → Fields
dev_claims role =
    let name = str_append "dev_" role in
    dict (("sub", text name) ∷ ("role", text role) ∷ ("username", text name) ∷ [])

unfoldable pub verify_jwt_token : Outside → String → Result Fields
verify_jwt_token outside token =
    let role =
      if starts_with token "dev-token-" then outside.without_dev_prefix token else "analyst" in
    if is_empty token
    then err authentication
    else if starts_with token "dev-token-" || str_eq token "dev-token-analyst"
    then ok (dev_claims role)
    else decoded (outside.decode token)

-- the loop over the items of the header Sec-WebSocket-Protocol
unfoldable pub protocol_token : Outside → List String → Option String
protocol_token outside [] = none
protocol_token outside (proto ∷ rest) =
    let clean = outside.ops.strip proto in
    let later = protocol_token outside rest in
    if starts_with clean "Bearer "
    then some (outside.ops.strip (outside.after_bearer clean))
    else if not (is_empty clean) && not (str_eq clean "jwt")
    then some clean
    else later

-- `token` where it is given and not empty
unfoldable pub auth_token : Outside → Option String → List String → Option String
unfolding protocol_token
auth_token outside none protocols = protocol_token outside protocols
auth_token outside (some token) protocols =
    if is_empty token then protocol_token outside protocols else some token

-- `if not auth_token`
abbrev pub non_empty : Option String → Option String
non_empty none = none
non_empty (some token) = if is_empty token then none else some token

abbrev pub verified : Outside → Option String → Result Fields
unfolding verify_jwt_token
verified outside none = err authentication
verified outside (some token) = verify_jwt_token outside token

-- `str(claims.get("sub", "analyst_client"))`
abbrev pub client_of : TextOps → Option Json → String
client_of ops none = "analyst_client"
client_of ops (some sub) = ops.str sub

-- a handshake: closed with code 4401, or accepted and connected
pub data Handshake : Type 0 where
  closed : ℕ → Handshake
  accepted : List Connection → Handshake

module _ (outside : Outside) (now socket : ℕ) where
  abbrev pub finish_handshake : List Connection → Result Fields → Handshake
  unfolding connect get
  finish_handshake active (err e) = closed 4401
  finish_handshake active (ok claims) =
      accepted (connect now socket (client_of outside.ops (get "sub" claims)) active)

  unfoldable pub handshake : Option String → List String → List Connection → Handshake
  unfolding auth_token verified finish_handshake
  handshake token protocols active =
      finish_handshake active (verified outside (non_empty (auth_token outside token protocols)))

-- `data.strip().lower() == "pong"`
abbrev pub is_pong_text : TextOps → String → Bool
is_pong_text ops message = str_eq (ops.lower (ops.strip message)) "pong"

abbrev pub is_pong_type : Option Json → Bool
is_pong_type (some (text t)) = str_eq t "pong"
is_pong_type other = false

-- `isinstance(msg, dict) and msg.get("type") == "pong"`
abbrev pub is_pong_message : Json → Bool
unfolding get
is_pong_message (object fields) = is_pong_type (get "type" fields)
is_pong_message other = false

-- a message counts as a pong as JSON or as a text, also where it is no JSON
unfoldable pub is_pong : Outside → String → Bool
unfolding is_pong_message
is_pong outside message = elim (outside.loads message) [
  | some msg ↦ is_pong_message msg || is_pong_text outside.ops message
  | none ↦ is_pong_text outside.ops message
]

-- the messages of the client, each with the time of its arrival, until it disconnects
unfoldable pub receive : Outside → ℕ → List (ℕ × String) → List Connection → List Connection
unfolding is_pong record_pong
receive outside socket [] active = active
receive outside socket ((now, message) ∷ rest) active =
    receive outside socket rest
      (if is_pong outside message then record_pong now socket active else active)

abbrev pub after_handshake :
    Outside → ℕ → List (ℕ × String) → List Connection → Handshake → List Connection
unfolding receive disconnect
after_handshake outside socket messages active (closed code) = active
after_handshake outside socket messages active (accepted connected) =
    disconnect socket (receive outside socket messages connected)

-- `websocket_alerts_endpoint`, from the handshake to the end of the connection
unfoldable pub websocket_alerts_endpoint :
    Outside
    → ℕ
    → ℕ
    → Option String
    → List String
    → List (ℕ × String)
    → List Connection
    → List Connection
unfolding handshake after_handshake
websocket_alerts_endpoint outside now socket token protocols messages active =
    after_handshake outside socket messages active
      (handshake outside now socket token protocols active)
