-- ===== src/Processor/CompensationConsumer/Batches.antt =====
-- The loops of `CompensationConsumer`: the batches of `run_consumer_loop` (XREADGROUP) and the pages
-- of `run_autoclaim_loop` (XAUTOCLAIM), one after the other. What each message meets is part of its
-- arrival; the waiting between batches and the setup of the group are left out.
use rt_financial_anomaly_det.Prelude.{
  ℕ, Bool, true, false, ◌||◌, List, [], ◌∷◌, ◌++◌, map, ◌==◌, if◌then◌else◌,
}
use rt_financial_anomaly_det.Shared.Session.{Env, Result, ok, err}
use rt_financial_anomaly_det.Processor.Messages.{Message, Wire, Consumer, World, Replies}
use rt_financial_anomaly_det.Processor.CompensationConsumer.{process_single_message}

-- a message with what its processing takes from its surroundings
pub record Arrival : Type 0 where
  pub message : Message
  pub env : Env
  pub replies : Replies

-- the answer of one XAUTOCLAIM: an exception, or the next start id (0 for "0-0") and the messages
pub data Claim : Type 0 where
  failed : Claim
  claimed : ℕ → List Arrival → Claim

-- what one XREADGROUP delivers, or the answers of one round of the XAUTOCLAIM loop
pub data Batch : Type 0 where
  read : List Arrival → Batch
  reclaimed : List Claim → Batch

abbrev pub is_nil : List Arrival → Bool
is_nil [] = true
is_nil (a ∷ rest) = false

module _ (consumer : Consumer) (wire : Wire) where
  -- the loop over the messages, which an exception ends; the result says whether one did
  unfoldable pub process_messages : ℕ → List Arrival → World → Result (Unit {0}) × World
  process_messages delivery_count [] w = (ok tt, w)
  process_messages delivery_count (a ∷ rest) w =
      let (r, w') =
        process_single_message consumer wire a.env a.replies a.message delivery_count w in
      let continued = process_messages delivery_count rest w' in
      elim r [ ok b ↦ continued | err e ↦ (err e, w') ]

  -- the pages of one round: an exception ends them, and so do the last page and an empty one
  unfoldable pub process_claims : List Claim → World → World
  unfolding process_messages
  process_claims [] w = w
  process_claims (failed ∷ rest) w = w
  process_claims (claimed next messages ∷ rest) w =
      let (r, w') = process_messages 2 messages w in
      let continued = process_claims rest w' in
      elim r [ ok u ↦ if next == 0 || is_nil messages then w' else continued | err e ↦ w' ]

  abbrev pub add_pending : List Arrival → World → World
  add_pending arrivals w = record w {
    pending = w.pending ++ map (λ (a : Arrival). a.message.message_id) arrivals;
  }

  unfoldable pub process_batch : Batch → World → World
  unfolding process_messages process_claims
  process_batch (read arrivals) w = (process_messages 1 arrivals (add_pending arrivals w)).1
  process_batch (reclaimed claims) w = process_claims claims w

  unfoldable pub process_batches : List Batch → World → World
  unfolding process_batch
  process_batches [] w = w
  process_batches (b ∷ rest) w = process_batches rest (process_batch b w)
