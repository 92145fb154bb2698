-- ===== src/Gateway/Sockets/Sessions.antt =====
-- What a client's session leaves of the registry of connections, and who is let in.
use Prim.Native.String.{◌++◌ as str_append}
use Prim.Native.Char.{code}
use package.text.Mathlib.TextLemmas.{cons-append}
use package.text.Mathlib.TextPositions.{starts_with-append}
use rt_financial_anomaly_det.Prelude.{
  ℕ, ◌≡◌, refl, sym, ◌∙◌, ap, String, true, false, not, Option, some, List, [], ◌∷◌, ◌++◌, arith,
  any, select, update, Bool-cases, inl, inr, ==_refl, eq_iff,
}
use rt_financial_anomaly_det.Shared.Json.{Fields, get}
use rt_financial_anomaly_det.Shared.Session.{Result, ok, err}
use rt_financial_anomaly_det.Gateway.Connections.{
  Connection, has_socket, fresh_connection, ponged, connect, record_pong, disconnect,
}
use rt_financial_anomaly_det.Gateway.Sockets.{
  Outside, is_empty, non_empty, auth_token, verified, verify_jwt_token, dev_claims, client_of,
  closed, accepted, finish_handshake, handshake, is_pong, receive, after_handshake,
  websocket_alerts_endpoint,
}

-- The entries of the other sockets.
abbrev pub others : ℕ → List Connection → List Connection
others socket active = select (λ (c : Connection). not (has_socket socket c)) active

module _ (socket : ℕ) where
  others-update :
      (f : Connection → Connection)
      → ((c : Connection) → has_socket socket c ≡ true → has_socket socket (f c) ≡ true)
      → (active : List Connection)
      → others socket (update (has_socket socket) f active) ≡ others socket active
  unfolding select update
  others-update f keeps [] = refl
  others-update f keeps (c ∷ rest) = ground (arith, keeps c, others-update f keeps rest)

  others-append :
      (c : Connection) (active : List Connection)
      → has_socket socket c ≡ true
      → others socket (active ++ c ∷ []) ≡ others socket active
  unfolding select
  others-append c [] h = rw h refl
  others-append c (d ∷ rest) h = ground (arith, others-append c rest h)

  others-connect :
      (now : ℕ) (client_id : String) (active : List Connection)
      → others socket (connect now socket client_id active) ≡ others socket active
  unfolding connect
  others-connect now client_id active = elim (Bool-cases (any (has_socket socket) active)) [
    | inl known ↦ rw known (others-update _ (λ c h. ==_refl socket) active)
    | inr new ↦
        rw new (others-append (fresh_connection now socket client_id) active (==_refl socket))
  ]

  others-receive :
      (outside : Outside) (messages : List (ℕ × String)) (active : List Connection)
      → others socket (receive outside socket messages active) ≡ others socket active
  unfolding receive record_pong
  others-receive outside [] active = refl
  others-receive outside ((now, message) ∷ rest) active =
      elim (Bool-cases (is_pong outside message)) [
        | inl pong ↦ rw pong (
            others-receive outside rest (update (has_socket socket) (ponged now) active)
            ∙ others-update (ponged now) (λ c h. h) active)
        | inr silent ↦ rw silent (others-receive outside rest active)
      ]

-- A session of a client that is let in ends with the entries of the other sockets, untouched and in
-- their order, and none of its own, whatever it sends; a client that is not let in changes nothing.
pub websocket_alerts_endpoint_effect :
    (outside : Outside) (now socket : ℕ) (token : Option String) (protocols : List String)
    (messages : List (ℕ × String)) (active : List Connection)
    → websocket_alerts_endpoint outside now socket token protocols messages active
      ≡ (elim (handshake outside now socket token protocols active) [
        | closed code ↦ active
        | accepted connected ↦ others socket active
      ])
unfolding websocket_alerts_endpoint handshake disconnect
websocket_alerts_endpoint_effect outside now socket token protocols messages active =
    finish (verified outside (non_empty (auth_token outside token protocols)))
  where
    finish :
        (r : Result Fields)
        → after_handshake outside socket messages active
            (finish_handshake outside now socket active r)
          ≡ (elim (finish_handshake outside now socket active r) [
            | closed code ↦ active
            | accepted connected ↦ others socket active
          ])
    finish (err e) = refl
    finish (ok claims) =
        others-receive socket outside messages
          (connect now socket (client_of outside.ops (get "sub" claims)) active)
        ∙ others-connect socket now (client_of outside.ops (get "sub" claims)) active

abbrev head_code : String → ℕ
head_code String.[] = 0
head_code (String.◌∷◌ c s) = code c

dev_token-nonempty : (name : String) → is_empty (str_append "dev-token-" name) ≡ false
dev_token-nonempty name = elim (Bool-cases (is_empty (str_append "dev-token-" name))) [
  | inl e ↦
      let same = (eq_iff (str_append "dev-token-" name) "").0 e in
      absurd (omega (arith, ap head_code (sym (cons-append "d" "ev-token-" name) ∙ same)))
  | inr ne ↦ ne
]

-- Whoever presents a development token is let in, whatever the secret, the algorithm and the
-- environment are: no decoder is asked.
pub dev_token_accepted :
    (outside : Outside) (now socket : ℕ) (name : String) (protocols : List String)
    (active : List Connection)
    → let token = str_append "dev-token-" name in
      handshake outside now socket (some token) protocols active
      ≡ accepted (
          connect now socket
            (client_of outside.ops (get "sub" (dev_claims (outside.without_dev_prefix token))))
            active)
unfolding handshake auth_token verify_jwt_token
dev_token_accepted outside now socket name protocols active =
    let token = str_append "dev-token-" name in
    ground (arith, dev_token-nonempty name, starts_with-append "dev-token-" name)
