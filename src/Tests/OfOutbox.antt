-- ===== src/Tests/OfOutbox.antt =====
-- The theorems on the outbox relay.
use rt_financial_anomaly_det.Prelude.{Bool, ℕ, ◌+◌, ◌≤◌, ◌≡◌, refl, false, [], ◌∷◌, arith, length}
use rt_financial_anomaly_det.Shared.Json.{end}
use rt_financial_anomaly_det.Outbox.Publisher.{
  Delivery, answer_lost, publish_batch, poll_pending_events,
}
use rt_financial_anomaly_det.Outbox.Publisher.Invariant.{Accounts, publish_batch-Accounts}
use rt_financial_anomaly_det.Outbox.Publisher.Progress.{budget}
use rt_financial_anomaly_det.Outbox.Publisher.Spending.{publish_batch_spends}
use rt_financial_anomaly_det.Outbox.Publisher.Drain.{
  Round, run_rounds, pending_rows, run_rounds_drain,
}
use rt_financial_anomaly_det.Tests.Data.{env_at, database, publisher_settings}

abbrev losing : ℕ → Delivery
losing id = answer_lost

abbrev nothing_locked : ℕ → Bool
nothing_locked id = false

pub database-Accounts : Accounts 2 [] database
database-Accounts =
    (record { relayed = λ p. cc; lettered = λ p. cc; retriable = λ p. omega arith }, tt)

publish_batch-Accounts_example :
    Accounts 2
      (publish_batch publisher_settings
        (env_at 200)
        end
        losing
        "timeout"
        nothing_locked
        []
        database).1
      (publish_batch publisher_settings
        (env_at 200)
        end
        losing
        "timeout"
        nothing_locked
        []
        database).2
publish_batch-Accounts_example =
    publish_batch-Accounts publisher_settings (env_at 200) end losing "timeout" nothing_locked []
      database database-Accounts

publish_batch_spends_example :
    budget 2
        (publish_batch publisher_settings
          (env_at 200)
          end
          losing
          "timeout"
          nothing_locked
          []
          database).2
      + length (poll_pending_events 10 nothing_locked database)
    ≤ budget 2 database
publish_batch_spends_example =
    publish_batch_spends publisher_settings (env_at 200) end losing "timeout" nothing_locked []
      database refl (tt, tt) database-Accounts

abbrev pub failing : Round
failing = record {
  env = env_at 200;
  carrier = end;
  deliver = losing;
  error = "timeout";
  locked = nothing_locked;
}

run_rounds_drain_example :
    pending_rows (run_rounds publisher_settings (failing ∷ failing ∷ []) [] database).1 ≡ []
run_rounds_drain_example =
    run_rounds_drain publisher_settings (failing ∷ failing ∷ []) [] database (omega arith)
      ((refl, λ id. refl), ((refl, λ id. refl), tt)) (tt, tt) database-Accounts (omega arith)
