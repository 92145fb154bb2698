-- ===== src/Tests/OfApi.antt =====
-- The theorems on the web API, the sockets and the admin site.
use rt_financial_anomaly_det.Prelude.{
  select, str_eq, if◌then◌else◌, ℕ, ◌≡◌, refl, arith, String, true, false, Option, none, some, List,
  [], ◌∷◌,
}
use rt_financial_anomaly_det.Shared.Enums.{RuleType}
use rt_financial_anomaly_det.Shared.Json.{text, end, dict, get}
use rt_financial_anomaly_det.Shared.Models.{FraudRule}
use rt_financial_anomaly_det.Shared.Session.{Session, in_session}
use rt_financial_anomaly_det.Alerts.Queries.{AlertFilter, newest_first, summary_of}
use rt_financial_anomaly_det.Gateway.Api.{
  ActionRequest, approve_alert, block_alert, mark_alert_false_positive, create_transaction,
  response_status, list_alerts, get_alert_detail, get_transaction,
}
use rt_financial_anomaly_det.Gateway.Api.Answers.{
  IsRefused, Is500For, endpoint_answers, endpoint_bad_correlation,
}
use rt_financial_anomaly_det.Gateway.Api.Managed.{get_session, get_session_endpoints}
use rt_financial_anomaly_det.Gateway.Connections.{connect}
use rt_financial_anomaly_det.Gateway.Sockets.{
  Outside, accepted, handshake, client_of, dev_claims, websocket_alerts_endpoint,
}
use rt_financial_anomaly_det.Gateway.Sockets.Sessions.{
  websocket_alerts_endpoint_effect, dev_token_accepted,
}
use rt_financial_anomaly_det.Admin.FraudRules.{RuleTables}
use rt_financial_anomaly_det.Admin.Replay.{
  AdminRequest, save, delete, delete_many, run_requests, Tells, run_requests-Tells,
}
use rt_financial_anomaly_det.Tests.Data.{env_at, database, ops}
use rt_financial_anomaly_det.Tests.OfGateway.{connection, request, uuid_text}

abbrev everything : AlertFilter
everything = record { status = none; severity = none; from_time = none; to_time = none }

abbrev session : Session
session = record { committed = database; working = database }

abbrev parses : String → Option ℕ
parses s = some 5

abbrev refuses : String → Option ℕ
refuses s = none

abbrev action : ActionRequest
action = record { alert_id = 12; resolution_reason = none; x_actor = some "ana" }

endpoint_answers_example :
    (response_status 200 (in_session (approve_alert parses (env_at 200) "id" action) database).0
      ≡ 409)
    × (response_status 200 (in_session (block_alert parses (env_at 200) "id" action) database).0
        ≡ 409)
    × (response_status 200
          (in_session (mark_alert_false_positive parses (env_at 200) "id" action) database).0
        ≡ 409)
unfolding rt_financial_anomaly_det.Prelude.select rt_financial_anomaly_det.Shared.Enums.is_terminal
endpoint_answers_example =
    endpoint_answers parses (env_at 200) "id" action database 5 refl refl
      (((λ e. omega arith), tt), (tt, tt))

-- a header that is no UUID; the ids of the service are "id"
abbrev parses_id : String → Option ℕ
parses_id s = if str_eq s "id" then some 5 else none

abbrev Refused : Type 0
Refused = IsRefused parses_id ops (some "abc")

endpoint_bad_correlation_example :
    Is500For Refused 200 database
      (in_session (approve_alert parses_id (env_at 200) "abc" action) database)
    × Is500For Refused 200 database
        (in_session (block_alert parses_id (env_at 200) "abc" action) database)
    × Is500For Refused 200 database
        (in_session (mark_alert_false_positive parses_id (env_at 200) "abc" action) database)
    × Is500For Refused 202 database (
        in_session (create_transaction parses_id (env_at 200) "abc" uuid_text end request) database)
unfolding rt_financial_anomaly_det.Gateway.Api.request_id
endpoint_bad_correlation_example =
    endpoint_bad_correlation parses_id ops "id" "id" 5 5 refl refl refl (env_at 200) (some "abc")
      database action uuid_text end request

get_session_endpoints_example :
    let q : ActionRequest = record { alert_id = 11; resolution_reason = none; x_actor = none } in
    (get_session true (approve_alert parses (env_at 200) "id" q) database
      ≡ in_session (approve_alert parses (env_at 200) "id" q) database)
    × (get_session true (block_alert parses (env_at 200) "id" q) database
        ≡ in_session (block_alert parses (env_at 200) "id" q) database)
    × (get_session true (mark_alert_false_positive parses (env_at 200) "id" q) database
        ≡ in_session (mark_alert_false_positive parses (env_at 200) "id" q) database)
    × (get_session true (create_transaction parses (env_at 200) "id" uuid_text end request) database
        ≡ in_session (create_transaction parses (env_at 200) "id" uuid_text end request) database)
    × (get_session true (list_alerts everything 1 10) database
        ≡ in_session (list_alerts everything 1 10) database)
    × (get_session true (get_alert_detail 3) database ≡ in_session (get_alert_detail 3) database)
    × (get_session true (get_transaction 3) database ≡ in_session (get_transaction 3) database)
get_session_endpoints_example =
    get_session_endpoints parses (env_at 200) "id"
      (record { alert_id = 11; resolution_reason = none; x_actor = none }) uuid_text end request
      everything 1 10 3 database

-- a decoder that knows one token
abbrev outside : Outside
outside = record {
  ops = ops;
  decode = λ token. some (dict (("sub", text "ana") ∷ []));
  loads = λ message. none;
  without_dev_prefix = λ token. "risk";
  after_bearer = λ header. "token";
}

websocket_alerts_endpoint_effect_example :
    websocket_alerts_endpoint outside 200 2
      (some "token")
      []
      ((210, "pong") ∷ (220, "hello") ∷ [])
      (connection 1 ∷ [])
    ≡ connection 1 ∷ []
unfolding handshake rt_financial_anomaly_det.Prelude.select
websocket_alerts_endpoint_effect_example =
    websocket_alerts_endpoint_effect outside 200 2 (some "token") []
      ((210, "pong") ∷ (220, "hello") ∷ []) (connection 1 ∷ [])

dev_token_accepted_example :
    handshake outside 200 2 (some "dev-token-risk") [] (connection 1 ∷ [])
    ≡ accepted (connect 200 2 (client_of ops (get "sub" (dev_claims "risk"))) (connection 1 ∷ []))
dev_token_accepted_example = dev_token_accepted outside 200 2 "risk" [] (connection 1 ∷ [])

abbrev rule : ℕ → FraudRule
rule id = record {
  id = id;
  name = "Large amount";
  rule_type = "AMOUNT_THRESHOLD";
  parameters = end;
  severity = "HIGH";
  enabled = true;
}

abbrev tables : RuleTables
tables = record { rules = []; audit = [] }

abbrev requests : List AdminRequest
requests =
    save (some "root") (rule 1) false
    ∷ save none (record (rule 1) { enabled = false }) true
    ∷ save none (rule 2) false
    ∷ delete (some "root") (rule 1)
    ∷ delete_many none (rule 2 ∷ [])
    ∷ []

run_requests-Tells_example : Tells (run_requests requests tables)
unfolding rt_financial_anomaly_det.Admin.FraudRules.stored_snapshot
    rt_financial_anomaly_det.Prelude.select
run_requests-Tells_example = run_requests-Tells requests tables (λ id. refl)
