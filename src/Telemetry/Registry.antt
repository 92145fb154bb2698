-- ===== src/Telemetry/Registry.antt =====
-- `MetricsRegistry` of shared/telemetry/metrics.py, and the catalog of metrics that the module
-- registers.
use Prim.Native.String.{◌++◌ as str_append}
use rt_financial_anomaly_det.Prelude.{
  ℕ, ◌≡◌, refl, sym, ◌∙◌, ap, subst, eq_iff, String, Bool, true, false, Option, none, some, List,
  [], ◌∷◌, ◌++◌, head?, select, str_eq, if◌then◌else◌, Bool-cases, Option-cases, inl, inr,
}
use rt_financial_anomaly_det.Telemetry.Series.{Numbers, sorted, join, str_leb}
use rt_financial_anomaly_det.Telemetry.Counter.{Counter}
use rt_financial_anomaly_det.Telemetry.Counter
use rt_financial_anomaly_det.Telemetry.Gauge.{Gauge}
use rt_financial_anomaly_det.Telemetry.Gauge
use rt_financial_anomaly_det.Telemetry.Histogram.{Histogram, new_histogram}
use rt_financial_anomaly_det.Telemetry.Histogram

pub data Metric (N : Type 0) : Type 0 where
  counter : Counter N → Metric N
  gauge : Gauge N → Metric N
  histogram : Histogram N → Metric N

-- `metric.name`
abbrev pub name_of : {N : Type 0} → Metric N → String
name_of (counter c) = c.name
name_of (gauge g) = g.name
name_of (histogram h) = h.name

module _ {N : Type 0} where
  -- `get_metric`
  unfoldable pub get_metric : String → List (Metric N) → Option (Metric N)
  get_metric name [] = none
  get_metric name (m ∷ rest) = if str_eq (name_of m) name then some m else get_metric name rest

  abbrev add_metric : Metric N → List (Metric N) → Option (Metric N) → Metric N × List (Metric N)
  add_metric m metrics (some existing) = (existing, metrics)
  add_metric m metrics none = (m, metrics ++ m ∷ [])

  -- `register`: a metric whose name is taken is dropped for the one that has it
  unfoldable pub register : Metric N → List (Metric N) → Metric N × List (Metric N)
  unfolding get_metric
  register m metrics = add_metric m metrics (get_metric (name_of m) metrics)

  unfoldable pub register_all : List (Metric N) → List (Metric N) → List (Metric N)
  unfolding register
  register_all [] metrics = metrics
  register_all (m ∷ rest) metrics = register_all rest (register m metrics).1

module _ {N : Type 0} (num : Numbers N) (show_count : ℕ → String) where
  abbrev collect_metric : Metric N → List String
  collect_metric (counter c) = Counter.collect num c
  collect_metric (gauge g) = Gauge.collect num g
  collect_metric (histogram h) = Histogram.collect num show_count h

  abbrev block_of : List String → List String
  unfolding join
  block_of [] = []
  block_of (line ∷ lines) = join "\n" (line ∷ lines) ∷ []

  unfoldable pub blocks : List (Metric N) → List String
  unfolding join Counter.collect Gauge.collect Histogram.collect
  blocks [] = []
  blocks (m ∷ rest) = block_of (collect_metric m) ++ blocks rest

  -- `generate_prometheus_text`
  unfoldable pub generate_prometheus_text : List (Metric N) → String
  unfolding blocks sorted join
  generate_prometheus_text metrics =
      str_append
        (join "\n\n"
          (blocks (sorted (λ (a b : Metric N). str_leb (name_of a) (name_of b)) metrics)))
        "\n"

  abbrev new_counter : String → String → String → Metric N
  new_counter name description label =
      counter
        (record { name = name; description = description; label_names = label ∷ []; values = [] })

  abbrev new_gauge : String → String → List String → Metric N
  new_gauge name description label_names =
      gauge
        (record { name = name; description = description; label_names = label_names; values = [] })

  -- the registry after the module's import; `default_buckets` is DEFAULT_HISTOGRAM_BUCKETS
  unfoldable pub catalog : List N → List (Metric N)
  unfolding register_all new_histogram
  catalog default_buckets =
      register_all
        (new_counter "transactions_received_total"
            "Total transactions received by Gateway ingestion endpoint" "status"
          ∷ new_counter "transactions_rejected_total"
              "Total transactions rejected by Gateway before persistence" "reason"
          ∷ new_counter "transactions_processed_total"
              "Total transactions processed through detection pipeline" "status"
          ∷ new_counter "processing_failures_total"
              "Total unhandled transaction processing failures" "stage"
          ∷ new_counter "alerts_created_total" "Total anomaly alerts generated by severity"
              "severity"
          ∷ new_counter "escalations_total" "Total alerts escalated through time-driven scheduler"
              "level"
          ∷ histogram (
              new_histogram num "processing_latency_seconds"
                "Processing latency in seconds across pipeline stages" ("stage" ∷ [])
                default_buckets)
          ∷ new_gauge "stream_backlog_length" "Unprocessed message lag in Redis Streams"
              ("stream" ∷ [])
          ∷ new_gauge "outbox_backlog_length"
              "Count of pending events in database Transactional Outbox" ("service" ∷ [])
          ∷ new_counter "outbox_dead_lettered_total"
              "Total events escalated to Dead Letter table / stream" "stream"
          ∷ new_counter "outbox_events_published_total"
              "Total outbox events published to Redis Streams" "event_type"
          ∷ new_gauge "websocket_connections_active"
              "Number of currently active analyst WebSocket connections" []
          ∷ [])
        []

module _ {N : Type 0} where
  abbrev or_first : Option (Metric N) → Option (Metric N) → Option (Metric N)
  or_first (some m) other = some m
  or_first none other = other

  or_first-if :
      (b : Bool) (x : Metric N) (p q : Option (Metric N))
      → (if b then some x else or_first p q) ≡ or_first (if b then some x else p) q
  or_first-if true x p q = refl
  or_first-if false x p q = refl

  get_metric-append :
      (name : String) (ms ns : List (Metric N))
      → get_metric name (ms ++ ns) ≡ or_first (get_metric name ms) (get_metric name ns)
  unfolding get_metric
  get_metric-append name [] ns = refl
  get_metric-append name (m ∷ ms) ns =
      ap (λ o. if str_eq (name_of m) name then some m else o) (get_metric-append name ms ns)
      ∙ or_first-if (str_eq (name_of m) name) m (get_metric name ms) (get_metric name ns)

  or_first_taken : (o p : Option (Metric N)) (x : Metric N) → o ≡ some x → or_first o p ≡ o
  or_first_taken none p x h = cc
  or_first_taken (some y) p x h = refl

  or_first-none : (o : Option (Metric N)) → or_first o none ≡ o
  or_first-none none = refl
  or_first-none (some x) = refl

  or_first_assoc :
      (o p q : Option (Metric N)) → or_first (or_first o p) q ≡ or_first o (or_first p q)
  or_first_assoc none p q = refl
  or_first_assoc (some x) p q = refl

  register_first :
      (m : Metric N) (ms : List (Metric N)) (name : String)
      → get_metric name (register m ms).1 ≡ or_first (get_metric name ms) (get_metric name (m ∷ []))
  unfolding register get_metric
  register_first m ms name = elim (Option-cases (get_metric (name_of m) ms)) [
    | inl free ↦ rw free (get_metric-append name ms (m ∷ []))
    | inr (existing, taken) ↦ elim (Bool-cases (str_eq (name_of m) name)) [
      | inl same ↦ rw taken (
          sym (
            or_first_taken (get_metric name ms) (get_metric name (m ∷ [])) existing (
              subst (λ n. get_metric n ms ≡ some existing) ((eq_iff (name_of m) name).0 same)
                taken)))
      | inr other ↦ rw (taken, other) (sym (or_first-none (get_metric name ms)))
    ]
  ]

  head?-if :
      (b : Bool) (x : Metric N) (xs : List (Metric N))
      → or_first (if b then some x else none) (head? xs) ≡ head? (if b then x ∷ xs else xs)
  head?-if true x xs = refl
  head?-if false x xs = refl

  register_all-or :
      (ms r : List (Metric N)) (name : String)
      → get_metric name (register_all ms r)
        ≡ or_first (get_metric name r) (head? (select (λ m. str_eq (name_of m) name) ms))
  unfolding register_all select get_metric
  register_all-or [] r name = sym (or_first-none (get_metric name r))
  register_all-or (m ∷ rest) r name =
      register_all-or rest (register m r).1 name
      ∙ ap (λ o. or_first o (head? (select (λ m. str_eq (name_of m) name) rest)))
          (register_first m r name)
      ∙ or_first_assoc (get_metric name r) (get_metric name (m ∷ []))
          (head? (select (λ m. str_eq (name_of m) name) rest))
      ∙ ap (or_first (get_metric name r))
          (head?-if (str_eq (name_of m) name) m (select (λ m. str_eq (name_of m) name) rest))

  -- The first of a name wins: after any registrations on an empty registry, what it has under a name
  -- is the first metric of that name that was registered, and nothing where there was none.
  pub register_all_first :
      (ms : List (Metric N)) (name : String)
      → get_metric name (register_all ms []) ≡ head? (select (λ m. str_eq (name_of m) name) ms)
  unfolding get_metric
  register_all_first ms name = register_all-or ms [] name
