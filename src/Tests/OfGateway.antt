-- ===== src/Tests/OfGateway.antt =====
-- The theorems on the ingestion of transactions and on the rule cache.
use rt_financial_anomaly_det.Prelude.{
  arith, List, ◌==◌, if◌then◌else◌, ℕ, ◌≡◌, refl, String, some, [], ◌∷◌, select,
}
use rt_financial_anomaly_det.Shared.Enums.{submitted}
use rt_financial_anomaly_det.Shared.Json.{end, text, Json}
use rt_financial_anomaly_det.Shared.Session.{ok, in_session}
use rt_financial_anomaly_det.Gateway.Ingestion.{
  TransactionCreateRequest, submit_transaction, outbox_payload,
}
use rt_financial_anomaly_det.Gateway.Ingestion.Submission.{submit_transaction_twice}
use rt_financial_anomaly_det.Gateway.Ingestion.Delivered.{
  submitted_context, parse_context-outbox_payload,
}
use rt_financial_anomaly_det.Gateway.Connections.{
  Connection, Sending, sent, raised, has_socket, pinged, heartbeat_check,
}
use rt_financial_anomaly_det.Gateway.Connections.Heartbeat.{is_alive, heartbeat_check_effect}
use rt_financial_anomaly_det.Processor.Context.{parse_context}
use rt_financial_anomaly_det.Processor.RuleCache.{RuleCache}
use rt_financial_anomaly_det.Tests.Data.{env_at, database, ops}
use rt_financial_anomaly_det.Tests.OfDetection.{amount, rules}

abbrev pub uuid_text : ℕ → String
uuid_text n = "uuid"

abbrev str_text : Json → String
str_text (text s) = s
str_text other = ""

abbrev pub request : TransactionCreateRequest
request = record {
  amount = amount 2500;
  currency = "USD";
  country = "US";
  merchant_category = "grocery";
  user_id = 7;
  idempotency_key = some "order 1";
  metadata = end;
}

submit_transaction_twice_example :
    let db' =
      (in_session (submit_transaction uuid_text (env_at 200) end request (some 5)) database).1 in
    in_session
      (submit_transaction uuid_text
        (env_at 300)
        end
        (record request { amount = amount 9900 })
        (some 6))
      db'
    ≡ (ok (record { transaction_id = 901; status = submitted; correlation_id = 5 }), db')
unfolding select
submit_transaction_twice_example =
    submit_transaction_twice uuid_text (env_at 200) (env_at 300) end end request
      (record request { amount = amount 9900 }) 5 6 "order 1" database (λ e. cc) refl refl refl refl
      refl

parse_context-outbox_payload_example :
    parse_context
      (record ops { str = str_text })
      400
      5
      (outbox_payload (env_at 200) end request)
      (record { committed = database; working = database })
    ≡ (
      ok (submitted_context (env_at 200) request 5),
      record { committed = database; working = database },
    )
unfolding rt_financial_anomaly_det.Processor.Context.is_valid_context
parse_context-outbox_payload_example =
    parse_context-outbox_payload (record ops { str = str_text }) (env_at 200) end request 5 400
      (record { committed = database; working = database }) (λ t. refl) refl

abbrev cache : RuleCache
cache = record { rules = rules; last_refreshed_at = some 100 }

abbrev pub connection : ℕ → Connection
connection socket = record {
  socket = socket;
  client_id = "analyst";
  connected_at = 100;
  last_pong = 100;
  last_ping_sent = some 130;
}

abbrev connections : List Connection
connections = connection 1 ∷ connection 2 ∷ []

abbrev reaching : ℕ → Sending
reaching socket = if socket == 1 then raised else sent

heartbeat_check_effect_example :
    select (has_socket 2) (heartbeat_check 40 160 reaching connections)
    ≡ (if is_alive 40 160 reaching 2 (connection 2) then pinged 160 (connection 2) ∷ [] else [])
unfolding select
heartbeat_check_effect_example =
    heartbeat_check_effect 40 160 reaching 2 connections (connection 2)
      (((λ e. omega arith), tt), (tt, tt)) refl
