-- ===== src/Tests/OfTelemetry.antt =====
-- The theorems on the metrics, with numbers that are natural numbers or infinity.
use rt_financial_anomaly_det.Prelude.{
  ◌↔◌, ℕ, ◌+◌, ◌-◌, ◌≡◌, refl, Bool, true, false, String, Option, none, some, List, [], ◌∷◌, arith,
  map, length, leb, ltb, ◌==◌, Some, ==_iff, ap,
}
use rt_financial_anomaly_det.Shared.Json.{Json, text}
use rt_financial_anomaly_det.Telemetry.Series.{Numbers}
use rt_financial_anomaly_det.Telemetry.Counter.{Counter}
use rt_financial_anomaly_det.Telemetry.Gauge.{Gauge}
use rt_financial_anomaly_det.Telemetry.Gauge
use rt_financial_anomaly_det.Telemetry.Histogram.{new_histogram, count_of, sum_of, buckets_of}
use rt_financial_anomaly_det.Telemetry.Refinement.{
  GaugeOp, run_gauge, replay_gauge, run_gauge_refines,
}
use rt_financial_anomaly_det.Telemetry.LabelSets.{SameLabels}
use rt_financial_anomaly_det.Telemetry.Tally.{
  Observation, run_histogram, amounts, tally, total, run_histogram_refines,
}
use rt_financial_anomaly_det.Telemetry.Cumulative.{IsOrder, IsRising, run_histogram-IsRising}
use rt_financial_anomaly_det.Telemetry.Backlog.{
  sample_outbox_backlog, sample_outbox_backlog_drained,
}
use rt_financial_anomaly_det.Outbox.Publisher.Drain.{run_rounds}
use rt_financial_anomaly_det.Tests.Data.{database, publisher_settings}
use rt_financial_anomaly_det.Tests.OfOutbox.{failing, database-Accounts}

-- none is infinity
abbrev Extended : Type 0
Extended = Option ℕ

abbrev add : Extended → Extended → Extended
add (some a) (some b) = some (a + b)
add a b = none

abbrev subtract : Extended → Extended → Extended
subtract (some a) (some b) = some (a - b)
subtract a b = none

abbrev less : Extended → Extended → Bool
less (some a) (some b) = ltb a b
less (some a) none = true
less none b = false

abbrev at_most : Extended → Extended → Bool
at_most a none = true
at_most none (some b) = false
at_most (some a) (some b) = leb a b

abbrev equal : Extended → Extended → Bool
equal (some a) (some b) = a == b
equal none none = true
equal a b = false

abbrev is_infinite : Extended → Bool
is_infinite none = true
is_infinite (some a) = false

abbrev show : Extended → String
show none = "inf"
show (some a) = "1"

abbrev num : Numbers Extended
num = record {
  float_zero = some 0;
  add = add;
  subtract = subtract;
  less = less;
  at_most = at_most;
  infinity = none;
  is_infinite = is_infinite;
  equal = equal;
  show = show;
  of_count = λ n. some n;
}

abbrev str : Json → String
str (text s) = s
str other = ""

abbrev requests : Counter Extended
requests = record {
  name = "requests";
  description = "Requests";
  label_names = "status" ∷ [];
  values = [];
}

abbrev ok_label : List (String × Json)
ok_label = ("status", text "ok") ∷ []

abbrev backlog : Gauge Extended
backlog = record {
  name = "backlog";
  description = "Backlog";
  label_names = "service" ∷ [];
  values = [];
}

abbrev changes : List (GaugeOp Extended)
changes = GaugeOp.set (some 4) [] ∷ GaugeOp.inc (some 2) [] ∷ GaugeOp.dec (some 1) [] ∷ []

run_gauge_refines_example :
    (same : List (String × Json) → Bool) × ((given : List (String × Json))
      → (same given ≡ true) ↔ SameLabels str ("service" ∷ []) [] given)
    × (Gauge.get num str [] (run_gauge num str changes backlog)
        ≡ replay_gauge num str same changes (Gauge.get num str [] backlog))
run_gauge_refines_example = run_gauge_refines num str changes backlog []

abbrev observations : List (Observation Extended)
observations = (some 3, ok_label) ∷ (some 9, ok_label) ∷ []

abbrev bounds : List Extended
bounds = some 10 ∷ some 5 ∷ []

run_histogram_refines_example :
    let h = new_histogram num "latency" "Latency" ("status" ∷ []) bounds in
    (same : List (String × Json) → Bool) × ((given : List (String × Json))
      → (same given ≡ true) ↔ SameLabels str ("status" ∷ []) ok_label given)
    × (count_of num str ok_label (run_histogram num str observations h)
        ≡ length (amounts num str same observations))
    × (sum_of num str ok_label (run_histogram num str observations h)
        ≡ total num (some 0) (amounts num str same observations))
    × (buckets_of num str ok_label (run_histogram num str observations h)
        ≡ map (λ b. (b, tally num (amounts num str same observations) b)) h.buckets)
run_histogram_refines_example =
    run_histogram_refines num str "latency" "Latency" ("status" ∷ []) bounds observations ok_label

transitive : (a b c : Extended) → at_most a b ≡ true → at_most b c ≡ true → at_most a c ≡ true
transitive a b none p q = refl
transitive (some a) (some b) (some c) p q = ground arith
transitive a none (some c) p q = cc
transitive none (some b) (some c) p q = cc

total_order : (a b : Extended) → at_most a b ≡ false → at_most b a ≡ true
total_order a none p = cc
total_order none (some b) p = refl
total_order (some a) (some b) p = ground arith

equal_lem : (a b : Extended) → equal a b ≡ true → a ≡ b
equal_lem none none p = refl
equal_lem (some a) (some b) p = ap some ((==_iff a b).0 p)
equal_lem none (some b) p = cc
equal_lem (some a) none p = cc

num-IsOrder : IsOrder num
num-IsOrder = record {
  transitive = transitive;
  total = total_order;
  top = λ a. refl;
  equal_lem = equal_lem;
}

run_histogram-IsRising_example :
    let h =
      run_histogram num str observations
        (new_histogram num "latency" "Latency" ("status" ∷ []) bounds) in
    IsRising (buckets_of num str ok_label h)
    × Some
        (λ (k : Extended × ℕ). (k.0 ≡ none) × (k.1 ≡ count_of num str ok_label h))
        (buckets_of num str ok_label h)
run_histogram-IsRising_example =
    run_histogram-IsRising num num-IsOrder str "latency" "Latency" ("status" ∷ []) bounds
      observations ok_label

sample_outbox_backlog_drained_example :
    let (n, g) =
      sample_outbox_backlog num str true
        (run_rounds publisher_settings (failing ∷ failing ∷ []) [] database).1
        "relay"
        backlog in
    (n ≡ 0) × (Gauge.get num str (("service", text "relay") ∷ []) g ≡ some 0)
sample_outbox_backlog_drained_example =
    sample_outbox_backlog_drained num str publisher_settings (failing ∷ failing ∷ []) [] database
      "relay" backlog (omega arith) ((refl, λ id. refl), ((refl, λ id. refl), tt)) (tt, tt)
      database-Accounts (omega arith)
