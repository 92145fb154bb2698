-- ===== src/Telemetry/Backlog.antt =====
-- `sample_stream_backlog` and `sample_outbox_backlog` of shared/telemetry/metrics.py.
use rt_financial_anomaly_det.Prelude.{
  ℕ, ◌≡◌, ◌∙◌, ap, ◌≤◌, String, Bool, true, false, Option, none, some, List, [], ◌∷◌, select,
  length, All, str_eq, if◌then◌else◌, ◌<◌,
}
use rt_financial_anomaly_det.Prelude.Keys.{Distinct}
use rt_financial_anomaly_det.Shared.Enums.{is_pending}
use rt_financial_anomaly_det.Shared.Json.{Json, text}
use rt_financial_anomaly_det.Shared.Models.{OutboxEvent, Database}
use rt_financial_anomaly_det.Outbox.Publisher.{Redis, Settings}
use rt_financial_anomaly_det.Outbox.Publisher.Drain.{Round, IsClear, run_rounds, run_rounds_drain}
use rt_financial_anomaly_det.Outbox.Publisher.Invariant.{Accounts}
use rt_financial_anomaly_det.Outbox.Publisher.Progress.{budget}
use rt_financial_anomaly_det.Telemetry.Series.{Numbers, key_of, value, value-alter, key_eq_refl}
use rt_financial_anomaly_det.Telemetry.Gauge.{Gauge}
use rt_financial_anomaly_det.Telemetry.Gauge

-- a group of XINFO GROUPS; the lag is none where Redis does not know it
pub record Group (N : Type 0) : Type 0 where
  pub name : String
  pub lag : Option N
  pub pending : N

module _ {N : Type 0} (num : Numbers N) (str : Json → String) where
  -- `lag is not None and lag >= 0`
  abbrev has_lag : Option N → Bool
  has_lag none = false
  has_lag (some lag) = num.at_most num.float_zero lag

  abbrev lag_or : N → Option N → N
  lag_or pending none = pending
  lag_or pending (some lag) = lag

  -- the backlog of a group
  unfoldable pub backlog_of : Group N → N
  backlog_of group = if has_lag group.lag then lag_or group.pending group.lag else group.pending

  -- the first group of the name
  unfoldable pub find_group : String → List (Group N) → Option (Group N)
  find_group group_name [] = none
  find_group group_name (g ∷ rest) =
      if str_eq g.name group_name then some g else find_group group_name rest

  abbrev record_backlog : String → Gauge N → Option (Group N) → N × Gauge N
  unfolding backlog_of Gauge.set
  record_backlog stream_name g none = (num.float_zero, g)
  record_backlog stream_name g (some group) =
      (backlog_of group, Gauge.set num str (backlog_of group) (("stream", text stream_name) ∷ []) g)

  -- `sample_stream_backlog`: the answer of XINFO GROUPS is none where it raises
  unfoldable pub sample_stream_backlog :
      Option (List (Group N)) → String → String → Gauge N → N × Gauge N
  unfolding find_group record_backlog
  sample_stream_backlog none stream_name group_name g = (num.float_zero, g)
  sample_stream_backlog (some groups) stream_name group_name g =
      record_backlog stream_name g (find_group group_name groups)

  -- `sample_outbox_backlog`; a query that raises leaves the gauge as it is
  unfoldable pub sample_outbox_backlog : Bool → Database → String → Gauge N → ℕ × Gauge N
  unfolding Gauge.set
  sample_outbox_backlog false db service g = (0, g)
  sample_outbox_backlog true db service g =
      let count = length (select (λ (e : OutboxEvent). is_pending e.status) db.outbox_events) in
      (count, Gauge.set num str (num.of_count count) (("service", text service) ∷ []) g)

  level_after_set :
      (amount : N) (labels : List (String × Json)) (g : Gauge N)
      → Gauge.get num str labels (Gauge.set num str amount labels g) ≡ amount
  unfolding Gauge.get Gauge.set Gauge.change
  level_after_set amount labels g =
      let key = key_of str g.label_names labels in
      value-alter num.float_zero (λ v. amount) key key g.values
      ∙ ap (λ b. if b then amount else value num.float_zero key g.values) (key_eq_refl key)

  -- Once the relay has drained the outbox, under the conditions of its drain, the backlog that
  -- a service samples is zero, and that is what its gauge then shows.
  pub sample_outbox_backlog_drained :
      (settings : Settings) (rounds : List Round) (redis : Redis) (db : Database) (service : String)
      (g : Gauge N)
      → 0 < settings.batch_size
      → All IsClear rounds
      → Distinct (λ (e : OutboxEvent). e.id) db.outbox_events
      → Accounts settings.max_retries redis db
      → budget settings.max_retries db ≤ length rounds
      → let (n, g') =
          sample_outbox_backlog true (run_rounds settings rounds redis db).1 service g in
        (n ≡ 0) × (Gauge.get num str (("service", text service) ∷ []) g' ≡ num.of_count 0)
  unfolding sample_outbox_backlog
  sample_outbox_backlog_drained settings rounds redis db service g room clear distinct accounts
        enough =
      let drained = run_rounds_drain settings rounds redis db room clear distinct accounts enough in
      let none_left = ap length drained in
      (none_left, level_after_set _ (("service", text service) ∷ []) g ∙ ap num.of_count none_left)
