-- ===== src/Telemetry/Refinement.antt =====
-- Counters and gauges against functions from labels to numbers: what a run of operations leaves is
-- what replaying them on a function gives.
use rt_financial_anomaly_det.Prelude.{
  ◌≡◌, refl, sym, ◌↔◌, true, ◌∙◌, ap, String, Bool, List, [], ◌∷◌, if◌then◌else◌, Bool-cases, inl,
  inr,
}
use rt_financial_anomaly_det.Shared.Json.{Json}
use rt_financial_anomaly_det.Telemetry.Series.{Numbers, Labels, key_of, key_eq, value, value-alter}
use rt_financial_anomaly_det.Telemetry.LabelSets.{SameLabels, key_of_iff}
use rt_financial_anomaly_det.Telemetry.Counter.{Counter}
use rt_financial_anomaly_det.Telemetry.Counter
use rt_financial_anomaly_det.Telemetry.Gauge.{Gauge}
use rt_financial_anomaly_det.Telemetry.Gauge

-- an operation with its keyword arguments
pub data CounterOp (N : Type 0) : Type 0 where
  inc : N → List (String × Json) → CounterOp N

pub data GaugeOp (N : Type 0) : Type 0 where
  set inc dec : N → List (String × Json) → GaugeOp N

module _ {N : Type 0} (num : Numbers N) (str : Json → String) where
  unfoldable pub run_counter : List (CounterOp N) → Counter N → Counter N
  run_counter [] c = c
  run_counter (CounterOp.inc amount labels ∷ rest) c =
      run_counter rest (Counter.inc num str amount labels c).1

  unfoldable pub run_gauge : List (GaugeOp N) → Gauge N → Gauge N
  run_gauge [] g = g
  run_gauge (set amount labels ∷ rest) g = run_gauge rest (Gauge.set num str amount labels g)
  run_gauge (GaugeOp.inc amount labels ∷ rest) g =
      run_gauge rest (Gauge.inc num str amount labels g)
  run_gauge (dec amount labels ∷ rest) g = run_gauge rest (Gauge.dec num str amount labels g)

  abbrev hits : List String → Labels → List (String × Json) → Bool
  hits label_names key labels = key_eq (key_of str label_names labels) key

  -- the operations under the labels that a test tells
  module _ (hit : List (String × Json) → Bool) where
    -- the total: the increments with such labels that are not negative
    unfoldable pub replay_counter : List (CounterOp N) → N → N
    replay_counter [] total = total
    replay_counter (CounterOp.inc amount labels ∷ rest) total =
        let added = num.add total amount in
        replay_counter rest
          (if num.less amount num.float_zero then total else if hit labels then added else total)

    -- the level
    unfoldable pub replay_gauge : List (GaugeOp N) → N → N
    replay_gauge [] level = level
    replay_gauge (set amount labels ∷ rest) level =
        replay_gauge rest (if hit labels then amount else level)
    replay_gauge (GaugeOp.inc amount labels ∷ rest) level =
        replay_gauge rest (if hit labels then num.add level amount else level)
    replay_gauge (dec amount labels ∷ rest) level =
        replay_gauge rest (if hit labels then num.subtract level amount else level)

  inc-value :
      (amount : N) (labels : List (String × Json)) (c : Counter N) (key : Labels)
      → value num.float_zero key (Counter.inc num str amount labels c).1.values ≡ (
          if num.less amount num.float_zero
          then value num.float_zero key c.values
          else if key_eq (key_of str c.label_names labels) key
          then num.add (value num.float_zero key c.values) amount
          else value num.float_zero key c.values)
  unfolding Counter.inc
  inc-value amount labels c key = elim (Bool-cases (num.less amount num.float_zero)) [
    | inl negative ↦ rw negative refl
    | inr positive ↦ rw positive (
        value-alter num.float_zero (λ v. num.add v amount) (key_of str c.label_names labels) key
          c.values)
  ]

  inc_names :
      (amount : N) (labels : List (String × Json)) (c : Counter N)
      → (Counter.inc num str amount labels c).1.label_names ≡ c.label_names
  unfolding Counter.inc
  inc_names amount labels c = elim (Bool-cases (num.less amount num.float_zero)) [
    | inl negative ↦ rw negative refl
    | inr positive ↦ rw positive refl
  ]

  run_counter_names :
      (ops : List (CounterOp N)) (c : Counter N) → (run_counter ops c).label_names ≡ c.label_names
  unfolding run_counter
  run_counter_names [] c = refl
  run_counter_names (CounterOp.inc amount labels ∷ rest) c =
      run_counter_names rest (Counter.inc num str amount labels c).1 ∙ inc_names amount labels c

  value-run_counter :
      (ops : List (CounterOp N)) (c : Counter N) (key : Labels)
      → value num.float_zero key (run_counter ops c).values
        ≡ replay_counter (hits c.label_names key) ops (value num.float_zero key c.values)
  unfolding run_counter replay_counter
  value-run_counter [] c key = refl
  value-run_counter (CounterOp.inc amount labels ∷ rest) c key =
      let c' = (Counter.inc num str amount labels c).1 in
      value-run_counter rest c' key
      ∙ ap (λ names. replay_counter (hits names key) rest (value num.float_zero key c'.values))
          (inc_names amount labels c)
      ∙ ap (replay_counter (hits c.label_names key) rest) (inc-value amount labels c key)

  -- the test whether two lists of arguments have one key
  abbrev one_key : List String → List (String × Json) → List (String × Json) → Bool
  one_key label_names labels = hits label_names (key_of str label_names labels)

  one_key_iff :
      (label_names : List String) (a b : List (String × Json))
      → (one_key label_names a b ≡ true) ↔ SameLabels str label_names a b
  one_key_iff label_names a b =
      let (to, from) = key_of_iff str label_names b a in
      (
        (λ e name given. sym (to e name given)),
        (λ same. from (λ name given. sym (same name given))),
      )

  -- A counter is a function from sets of labels to totals, whatever the arithmetic of its numbers:
  -- after any increments, in which a negative one raises and changes nothing, what `get` reads under
  -- some labels is the total that was there before, with the increments under the same set of labels
  -- added in their order, and no other.
  pub run_counter_refines :
      (ops : List (CounterOp N)) (c : Counter N) (labels : List (String × Json))
      → (same : List (String × Json) → Bool) × ((given : List (String × Json))
          → (same given ≡ true) ↔ SameLabels str c.label_names labels given)
        × (Counter.get num str labels (run_counter ops c)
            ≡ replay_counter same ops (Counter.get num str labels c))
  unfolding Counter.get
  run_counter_refines ops c labels = (
    one_key c.label_names labels,
    one_key_iff c.label_names labels,
    ap (λ names. value num.float_zero (key_of str names labels) (run_counter ops c).values)
          (run_counter_names ops c)
        ∙ value-run_counter ops c (key_of str c.label_names labels),
  )

  run_gauge_names :
      (ops : List (GaugeOp N)) (g : Gauge N) → (run_gauge ops g).label_names ≡ g.label_names
  unfolding run_gauge Gauge.set Gauge.inc Gauge.dec Gauge.change
  run_gauge_names [] g = refl
  run_gauge_names (set amount labels ∷ rest) g =
      run_gauge_names rest (Gauge.set num str amount labels g)
  run_gauge_names (GaugeOp.inc amount labels ∷ rest) g =
      run_gauge_names rest (Gauge.inc num str amount labels g)
  run_gauge_names (dec amount labels ∷ rest) g =
      run_gauge_names rest (Gauge.dec num str amount labels g)

  change-value :
      (f : N → N) (labels : List (String × Json)) (g : Gauge N) (key : Labels)
      → value num.float_zero key (Gauge.change num str f labels g).values ≡ (
          if key_eq (key_of str g.label_names labels) key
          then f (value num.float_zero key g.values)
          else value num.float_zero key g.values)
  unfolding Gauge.change
  change-value f labels g key =
      value-alter num.float_zero f (key_of str g.label_names labels) key g.values

  value-run_gauge :
      (ops : List (GaugeOp N)) (g : Gauge N) (key : Labels)
      → value num.float_zero key (run_gauge ops g).values
        ≡ replay_gauge (hits g.label_names key) ops (value num.float_zero key g.values)
  unfolding run_gauge replay_gauge Gauge.set Gauge.inc Gauge.dec Gauge.change
  value-run_gauge [] g key = refl
  value-run_gauge (set amount labels ∷ rest) g key =
      value-run_gauge rest (Gauge.set num str amount labels g) key
      ∙ ap (replay_gauge (hits g.label_names key) rest) (change-value (λ v. amount) labels g key)
  value-run_gauge (GaugeOp.inc amount labels ∷ rest) g key =
      value-run_gauge rest (Gauge.inc num str amount labels g) key
      ∙ ap (replay_gauge (hits g.label_names key) rest)
          (change-value (λ v. num.add v amount) labels g key)
  value-run_gauge (dec amount labels ∷ rest) g key =
      value-run_gauge rest (Gauge.dec num str amount labels g) key
      ∙ ap (replay_gauge (hits g.label_names key) rest)
          (change-value (λ v. num.subtract v amount) labels g key)

  -- A gauge is a function from sets of labels to levels, whatever the arithmetic of its numbers:
  -- after any operations, what `get` reads under some labels is what the operations under the same
  -- set of labels, in their order and no other, make of the level that was there before. A set of
  -- labels is the texts of the arguments, in whatever order, and "unknown" for each label that no
  -- argument names.
  pub run_gauge_refines :
      (ops : List (GaugeOp N)) (g : Gauge N) (labels : List (String × Json))
      → (same : List (String × Json) → Bool) × ((given : List (String × Json))
          → (same given ≡ true) ↔ SameLabels str g.label_names labels given)
        × (Gauge.get num str labels (run_gauge ops g)
            ≡ replay_gauge same ops (Gauge.get num str labels g))
  unfolding Gauge.get
  run_gauge_refines ops g labels = (
    one_key g.label_names labels,
    one_key_iff g.label_names labels,
    ap (λ names. value num.float_zero (key_of str names labels) (run_gauge ops g).values)
          (run_gauge_names ops g)
        ∙ value-run_gauge ops g (key_of str g.label_names labels),
  )
