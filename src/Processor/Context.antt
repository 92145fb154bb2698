-- ===== src/Processor/Context.antt =====
-- How `DetectionPipeline` of services/processor/services/detection_pipeline.py gathers what it
-- Decides on: the transaction from the event's payload, the user's velocity and risk profile.
use Prim.Native.String.{count}
use rt_financial_anomaly_det.Prelude.{
  ℕ, ◌+◌, ◌*◌, ◌^◌, String, Bool, false, not, ◌&&◌, Option, none, some, List, [], ◌∷◌, leb, ◌==◌,
  length, select,
}
use rt_financial_anomaly_det.Shared.Errors.{validation, key_error, value_error, attribute_error}
use rt_financial_anomaly_det.Shared.Json.{Decimal, Json, text, uuid, time, object, Fields, end, get}
use rt_financial_anomaly_det.Shared.Models.{Transaction, RiskProfile, Database}
use rt_financial_anomaly_det.Shared.Session.{
  Exec, ◌>>=◌, ◌>>◌, pure, raise, require, or_raise, query, scalar_one_or_none,
}
use rt_financial_anomaly_det.Detection.Schemas.{
  TransactionContext, VelocityContext, RiskProfileSnapshot,
}
use rt_financial_anomaly_det.Detection.Values.{TextOps, decimal_of}

-- `datetime.fromisoformat(payload["created_at"])`, or the clock where the key is missing. A text
-- that is no time, and a value that is no text, raise.
unfoldable pub created_at_of : ℕ → Option Json → Exec ℕ
created_at_of now none = pure now
created_at_of now (some (time t)) = pure t
created_at_of now (some (text s)) = raise value_error
created_at_of now (some (uuid n)) = raise value_error
created_at_of now (some other) = raise attribute_error

-- `uuid.UUID(str(payload[key]))`
unfoldable pub uuid_of : Option Json → Exec ℕ
uuid_of none = raise key_error
uuid_of (some (uuid n)) = pure n
uuid_of (some other) = raise value_error

-- `Decimal(str(payload["amount"]))`
unfoldable pub amount_of : TextOps → Option Json → Exec Decimal
amount_of ops none = raise key_error
amount_of ops (some v) = or_raise (decimal_of ops (some v)) value_error

-- `str(payload.get(key, default))`
unfoldable pub str_or : TextOps → String → Option Json → String
str_or ops default none = default
str_or ops default (some v) = ops.str v

-- `payload.get("metadata", {})`; what is no dict is refused by the schema
unfoldable pub metadata_of : Option Json → Exec Fields
metadata_of none = pure end
metadata_of (some (object fields)) = pure fields
metadata_of (some other) = raise validation

-- the bounds of the fields of `TransactionContext`
unfoldable pub is_valid_context : TransactionContext → Bool
is_valid_context t =
    not t.amount.negative
    && (not (t.amount.coefficient == 0)
        && (count t.currency == 3
            && (count t.country == 2
                && (leb 1 (count t.merchant_category) && leb (count t.merchant_category) 128))))

unfoldable pub parse_context : TextOps → ℕ → ℕ → Fields → Exec TransactionContext
unfolding created_at_of uuid_of amount_of str_or metadata_of
parse_context ops now corr payload = do
  created_at ← created_at_of now (get "created_at" payload)
  id ← uuid_of (get "transaction_id" payload)
  user_id ← uuid_of (get "user_id" payload)
  amount ← amount_of ops (get "amount" payload)
  metadata ← metadata_of (get "metadata" payload)
  let context : TransactionContext = record {
    id = id;
    user_id = user_id;
    amount = amount;
    currency = str_or ops "USD" (get "currency" payload);
    country = str_or ops "" (get "country" payload);
    merchant_category = str_or ops "" (get "merchant_category" payload);
    created_at = created_at;
    metadata = metadata;
    correlation_id = some corr;
  }
  require (is_valid_context context) validation
  pure context

-- the sum of two amounts, exactly
unfoldable pub add_decimal : Decimal → Decimal → Decimal
add_decimal a b = record {
  negative = false;
  coefficient = a.coefficient * 10 ^ b.scale + b.coefficient * 10 ^ a.scale;
  scale = a.scale + b.scale;
}

-- COALESCE(SUM(amount), 0.00); the column's amounts are positive
unfoldable pub total_amount : List Transaction → Decimal
unfolding add_decimal
total_amount [] = record { negative = false; coefficient = 0; scale = 2 }
total_amount (t ∷ rest) = add_decimal t.amount (total_amount rest)

-- the WHERE clause of `get_velocity_context`, `window` in microseconds
unfoldable pub in_window : ℕ → ℕ → ℕ → Transaction → Bool
in_window user_id reference_time window t =
    t.user_id == user_id
    && (leb reference_time (t.created_at + window) && leb t.created_at reference_time)

abbrev pub minute : ℕ
minute = 60000000

unfoldable pub get_velocity_context : ℕ → ℕ → ℕ → Database → VelocityContext
unfolding total_amount
get_velocity_context window_minutes user_id reference_time db =
    let rows =
      select (in_window user_id reference_time (window_minutes * minute)) db.transactions in
    record {
      user_id = user_id;
      window_minutes = window_minutes;
      transaction_count = length rows;
      total_amount = total_amount rows;
    }

abbrev pub has_user : ℕ → RiskProfile → Bool
has_user user_id p = p.user_id == user_id

unfoldable pub snapshot_of : ℕ → Option RiskProfile → RiskProfileSnapshot
snapshot_of user_id none = record {
  user_id = user_id;
  risk_score = 0;
  total_alerts = 0;
  false_positive_count = 0;
  last_recalculated_at = none;
}
snapshot_of user_id (some p) = record {
  user_id = p.user_id;
  risk_score = p.risk_score;
  total_alerts = p.total_alerts;
  false_positive_count = p.false_positive_count;
  last_recalculated_at = some p.last_recalculated_at;
}

unfoldable pub get_risk_profile_snapshot : ℕ → Exec RiskProfileSnapshot
unfolding snapshot_of
get_risk_profile_snapshot user_id = do
  rows ← query (λ db. select (has_user user_id) db.risk_profiles)
  profile ← scalar_one_or_none rows
  pure (snapshot_of user_id profile)
