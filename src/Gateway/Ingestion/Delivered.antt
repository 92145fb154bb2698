-- ===== src/Gateway/Ingestion/Delivered.antt =====
-- The event of a submission, as the processor reads it.

use rt_financial_anomaly_det.Prelude.{ℕ, String, ◌≡◌, true, some}
use rt_financial_anomaly_det.Shared.Json.{text, Fields, get}
use rt_financial_anomaly_det.Shared.Session.{Env, Session, ok}
use rt_financial_anomaly_det.Detection.Schemas.{TransactionContext}
use rt_financial_anomaly_det.Detection.Values.{TextOps, decimal_of}
use rt_financial_anomaly_det.Processor.Context.{
  parse_context, is_valid_context, created_at_of, uuid_of, amount_of, str_or, metadata_of,
}
use rt_financial_anomaly_det.Gateway.Ingestion.{TransactionCreateRequest, outbox_payload}

-- what the processor is to see of a submission
abbrev pub submitted_context : Env → TransactionCreateRequest → ℕ → TransactionContext
submitted_context env payload corr = record {
  id = env.uuid4 1;
  user_id = payload.user_id;
  amount = payload.amount;
  currency = payload.currency;
  country = payload.country;
  merchant_category = payload.merchant_category;
  created_at = env.now;
  metadata = payload.metadata;
  correlation_id = some corr;
}

-- What the gateway writes into the event of a submission, the processor reads back exactly, whatever
-- its own clock says, if `str` keeps texts and the request passes the bounds of the context.
pub parse_context-outbox_payload :
    (ops : TextOps) (env : Env) (carrier : Fields) (payload : TransactionCreateRequest)
    (corr now : ℕ) (s : Session)
    → ((t : String) → ops.str (text t) ≡ t)
    → is_valid_context (submitted_context env payload corr) ≡ true
    → parse_context ops now corr (outbox_payload env carrier payload) s
      ≡ (ok (submitted_context env payload corr), s)
unfolding parse_context outbox_payload get created_at_of uuid_of amount_of str_or metadata_of
    decimal_of
parse_context-outbox_payload ops env carrier payload corr now s keeps valid =
    simp (keeps payload.currency, keeps payload.country, keeps payload.merchant_category, valid)
