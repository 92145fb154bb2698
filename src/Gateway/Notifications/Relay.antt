-- ===== src/Gateway/Notifications/Relay.antt =====
-- The loops of `NotificationForwarder`: the batches of `run_consumer_loop` (XREADGROUP on both
-- streams) and the pages of `run_autoclaim_loop` (XAUTOCLAIM), one after the other. What a message
-- meets, the clock, the answers of Redis and a shutdown that was asked for, is part of its arrival.
-- The waiting between batches and the setup of the groups are left out.
use rt_financial_anomaly_det.Prelude.{
  ℕ, String, Bool, true, false, ◌||◌, List, [], ◌∷◌, ◌++◌, map, ◌==◌, if◌then◌else◌,
}
use rt_financial_anomaly_det.Shared.Json.{Fields, end}
use rt_financial_anomaly_det.Shared.Session.{Result, ok, err}
use rt_financial_anomaly_det.Detection.Values.{TextOps}
use rt_financial_anomaly_det.Processor.Messages.{Message}
use rt_financial_anomaly_det.Gateway.Notifications.{
  Reader, Entry, World, Replies, process_stream_message,
}

-- a message of a stream with what its processing takes from its surroundings
pub record Arrival : Type 0 where
  pub stream : String
  pub message : Message
  pub now : ℕ
  pub replies : Replies
  pub shutting_down : Bool

abbrev pub entry_of : Arrival → Entry
entry_of a = record { stream = a.stream; message_id = a.message.message_id }

-- the answer of one XAUTOCLAIM: an exception, or the next start id (0 for "0-0") and the messages
pub data Claim : Type 0 where
  failed : Claim
  claimed : ℕ → List Arrival → Claim

-- what XREADGROUP delivers, a list for each stream, or the answers for one stream of one round of
-- the XAUTOCLAIM loop
pub data Batch : Type 0 where
  read : List (List Arrival) → Batch
  reclaimed : List Claim → Batch

-- `if message_data`
abbrev pub has_data : Fields → Bool
has_data end = false
has_data other = true

abbrev pub any_data : Fields → Bool
any_data fields = true

abbrev pub is_nil : List Arrival → Bool
is_nil [] = true
is_nil (a ∷ rest) = false

abbrev pub concat : List (List Arrival) → List Arrival
concat [] = []
concat (xs ∷ rest) = xs ++ concat rest

module _ (reader : Reader) (ops : TextOps) where
  -- the loop over the messages of a stream; `wanted` is its test on a message's data
  unfoldable pub process_messages :
      (Fields → Bool) → List Arrival → World → Result (Unit {0}) × World
  process_messages wanted [] w = (ok tt, w)
  process_messages wanted (a ∷ rest) w =
      let (r, w') = process_stream_message reader ops a.now a.replies a.stream a.message w in
      let continued = process_messages wanted rest w' in
      let skipped = process_messages wanted rest w in
      if a.shutting_down
      then (ok tt, w)
      else if wanted a.message.fields
      then elim r [ ok u ↦ continued | err e ↦ (err e, w') ]
      else skipped

  -- the loop over the streams, which an exception ends
  unfoldable pub process_streams : List (List Arrival) → World → World
  unfolding process_messages
  process_streams [] w = w
  process_streams (arrivals ∷ rest) w =
      let (r, w') = process_messages any_data arrivals w in
      let continued = process_streams rest w' in elim r [ ok u ↦ continued | err e ↦ w' ]

  -- the pages of XAUTOCLAIM for one stream; an exception ends them
  unfoldable pub process_claims : List Claim → World → World
  unfolding process_messages
  process_claims [] w = w
  process_claims (failed ∷ rest) w = w
  process_claims (claimed next_start_id arrivals ∷ rest) w =
      let (r, w') = process_messages has_data arrivals w in
      let continued = process_claims rest w' in
      let next = if next_start_id == 0 || is_nil arrivals then w' else continued in
      elim r [ ok u ↦ next | err e ↦ w' ]

  abbrev pub add_pending : List Arrival → World → World
  add_pending arrivals w = record w { pending = w.pending ++ map entry_of arrivals }

  unfoldable pub process_batch : Batch → World → World
  unfolding process_streams process_claims
  process_batch (read streams) w = process_streams streams (add_pending (concat streams) w)
  process_batch (reclaimed claims) w = process_claims claims w

  unfoldable pub process_batches : List Batch → World → World
  unfolding process_batch
  process_batches [] w = w
  process_batches (b ∷ rest) w = process_batches rest (process_batch b w)
