-- ===== src/Tests/OfCompensation.antt =====
-- The theorems on the compensation consumer.
use rt_financial_anomaly_det.Prelude.{arith, some, none, List, [], ◌∷◌, select}
use rt_financial_anomaly_det.Shared.Json.{uuid, text, dict}
use rt_financial_anomaly_det.Shared.Enums.{false_positive}
use rt_financial_anomaly_det.Alerts.Actions.{compensation_outbox}
use rt_financial_anomaly_det.Outbox.Publisher.{delivered, refused}
use rt_financial_anomaly_det.Processor.Messages.{Envelope, Message, Wire, Consumer, World}
use rt_financial_anomaly_det.Processor.CompensationConsumer.Balance.{IsConsistent, Balances}
use rt_financial_anomaly_det.Processor.CompensationConsumer.Batches.{
  claimed, Batch, read, reclaimed, process_batches,
}
use rt_financial_anomaly_det.Processor.CompensationConsumer.ExactlyOnce.{process_batches_once}
use rt_financial_anomaly_det.Tests.Data.{env_at, database, resolution, open_alert}

abbrev envelope : Envelope
envelope = record {
  event_id = some 51;
  correlation_id = some 5;
  event_type = "compensation.requested";
  payload =
      (compensation_outbox (env_at 200) (resolution false_positive "ana") 5 open_alert).payload;
}

abbrev wire : Wire
wire = record {
  from_json = λ s. some envelope;
  from_dict = λ v. none;
  exceeded_message = λ count limit. "exceeded";
  corrupt_message = λ fields. "corrupt";
}

abbrev consumer : Consumer
consumer = record {
  group = "compensation-group";
  stream_key = "stream:compensation";
  unknown_type = "unknown.compensation";
  max_deliveries = 5;
}

abbrev message : Message
message = record { message_id = 71; fields = dict (("event", text "{}") ∷ []) }

-- the first XACK is refused, so that the message is claimed again
abbrev batches : List Batch
batches =
    read (
      record {
        message = message;
        env = env_at 200;
        replies = record { xack = refused; xadd = refused };
      }
      ∷ [])
    ∷ reclaimed (
        claimed 0 (
          record {
            message = message;
            env = env_at 300;
            replies = record { xack = delivered; xadd = refused };
          }
          ∷ [])
        ∷ [])
    ∷ []

abbrev world : World
world = record { db = database; pending = []; dead_letter_stream = [] }

process_batches_once_example :
    IsConsistent "compensation-group" (process_batches consumer wire batches world).db
    × Balances database (process_batches consumer wire batches world).db
process_batches_once_example =
    process_batches_once consumer wire batches world
      ((tt, tt), (λ event_id. unfold select in omega arith))
