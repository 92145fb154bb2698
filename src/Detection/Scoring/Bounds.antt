-- ===== src/Detection/Scoring/Bounds.antt =====
-- The composite score as a number: its range, its rounding, and how it follows its parts.
use native.Mathlib.Nat.{div-eq_of_lt-le, div-lt_iff_lt-mul, div-mul-le_self, lt-div-mul-add}
use rt_financial_anomaly_det.Prelude.{
  ap, ℕ, ◌+◌, ◌*◌, ◌/◌, ◌≤◌, ◌<◌, ◌≡◌, min, String, List, [], ◌∷◌, arith,
}
use rt_financial_anomaly_det.Detection.Schemas.{ScoringWeights, RuleMatch}
use rt_financial_anomaly_det.Detection.Scoring.{
  one, quantize, severity_value_of, calculate_rule_severity_score, weighted_sum,
  compute_composite_risk_score,
}

pub div_mono : (a b c : ℕ) → 0 < c → a ≤ b → a / c ≤ b / c
div_mono a b c p h = grind arith

module _ (unit n : ℕ) (positive : 0 < unit) where
  -- With a positive unit, rounding gives the nearest multiple of 0.0001, and a half goes up.
  pub quantize_nearest :
      (2 * (unit * quantize unit n) ≤ 2 * (n * one) + unit)
      × (2 * (n * one) < 2 * (unit * quantize unit n) + unit)
  unfolding quantize
  quantize_nearest =
      let scaled = 2 * (n * one) + unit in
      (
        omega (arith, div-mul-le_self scaled (2 * unit)),
        omega (arith, lt-div-mul-add {a = scaled} {b = 2 * unit} (omega arith)),
      )

  pub quantize-le-one : n ≤ unit → quantize unit n ≤ one
  unfolding quantize
  quantize-le-one h = omega (
    arith,
    (div-lt_iff_lt-mul {k = 2 * unit} {x = 2 * (n * one) + unit} {y = 10001} (omega arith)).1
        (omega arith),
  )

quantize_mono : (unit m n : ℕ) → 0 < unit → m ≤ n → quantize unit m ≤ quantize unit n
unfolding quantize
quantize_mono unit m n p h =
    div_mono (2 * (m * one) + unit) (2 * (n * one) + unit) (2 * unit) (omega arith) (omega arith)

-- Four digits stay as they are.
pub quantize_exact : (n : ℕ) → quantize one n ≡ n
unfolding quantize
quantize_exact n = omega arith

weighted_sum_mono :
    (a a' b b' c c' : ℕ) (w : ScoringWeights)
    → a ≤ a'
    → b ≤ b'
    → c ≤ c'
    → weighted_sum a b c w ≤ weighted_sum a' b' c' w
weighted_sum_mono a a' b b' c c' w p q r = grind arith

pub severity_value_of-le-one : (s : String) → severity_value_of s ≤ one
unfolding severity_value_of
severity_value_of-le-one s = ground arith

-- The rules' score lies in [0, 1].
pub calculate_rule_severity_score-le-one :
    (matches : List RuleMatch) → calculate_rule_severity_score matches ≤ one
unfolding calculate_rule_severity_score
calculate_rule_severity_score-le-one [] = omega arith
calculate_rule_severity_score-le-one (m ∷ matches) =
    omega (arith, severity_value_of-le-one m.severity, calculate_rule_severity_score-le-one matches)

-- The composite score is at most one, whatever the scores and the weights over a positive unit.
pub compute_composite_risk_score-le-one :
    (rule ml profile : ℕ) (w : ScoringWeights)
    → 0 < w.unit
    → compute_composite_risk_score rule ml profile w ≤ one
unfolding compute_composite_risk_score
compute_composite_risk_score-le-one rule ml profile w p =
    quantize-le-one (w.unit * one) (min (w.unit * one) (weighted_sum rule ml profile w))
      (omega arith) (omega arith)

-- Over a positive unit, no part can rise and the composite score fall.
pub compute_composite_risk_score_mono :
    (rule rule' ml ml' profile profile' : ℕ) (w : ScoringWeights)
    → 0 < w.unit
    → rule ≤ rule'
    → ml ≤ ml'
    → profile ≤ profile'
    → compute_composite_risk_score rule ml profile w
      ≤ compute_composite_risk_score rule' ml' profile' w
unfolding compute_composite_risk_score
compute_composite_risk_score_mono rule rule' ml ml' profile profile' w p a b c =
    quantize_mono (w.unit * one) (min (w.unit * one) (weighted_sum rule ml profile w))
      (min (w.unit * one) (weighted_sum rule' ml' profile' w)) (omega arith)
      (omega (arith, weighted_sum_mono rule rule' ml ml' profile profile' w a b c))

mul-le-mul : (a b c : ℕ) → b ≤ c → a * b ≤ a * c
mul-le-mul a b c h = grind arith

quantize_scaled : (u m : ℕ) → 0 < u → quantize (u * one) (u * m) ≡ m
unfolding quantize
quantize_scaled u m p =
    div-eq_of_lt-le {k = m} (2 * (u * one)) {m = 2 * (u * m * one) + u * one} (omega arith)
      (omega arith)

-- Over a positive unit, with weights that sum to one, the composite score is an average: it lies
-- between any bounds of the three scores that are at most one.
pub compute_composite_risk_score_between :
    (lo hi rule ml profile : ℕ) (w : ScoringWeights)
    → 0 < w.unit
    → w.w_rule + w.w_ml + w.w_profile ≡ w.unit
    → hi ≤ one
    → (lo ≤ rule) × (rule ≤ hi)
    → (lo ≤ ml) × (ml ≤ hi)
    → (lo ≤ profile) × (profile ≤ hi)
    → (lo ≤ compute_composite_risk_score rule ml profile w)
      × (compute_composite_risk_score rule ml profile w ≤ hi)
unfolding compute_composite_risk_score
compute_composite_risk_score_between lo hi rule ml profile w p total top a b c =
    let u = w.unit in
    let ws = weighted_sum rule ml profile w in
    let lower : u * lo ≤ ws = omega (
      arith,
      ap (λ (t : ℕ). t * lo) total,
      mul-le-mul w.w_rule lo rule a.0,
      mul-le-mul w.w_ml lo ml b.0,
      mul-le-mul w.w_profile lo profile c.0,
    ) in
    let upper : ws ≤ u * hi = omega (
      arith,
      ap (λ (t : ℕ). t * hi) total,
      mul-le-mul w.w_rule rule hi a.1,
      mul-le-mul w.w_ml ml hi b.1,
      mul-le-mul w.w_profile profile hi c.1,
    ) in
    let capped : u * hi ≤ u * one = mul-le-mul u hi one top in
    (
      omega (
        arith,
        quantize_scaled u lo p,
        quantize_mono (u * one) (u * lo) (min (u * one) ws) (omega arith) (omega arith),
      ),
      omega (
        arith,
        quantize_scaled u hi p,
        quantize_mono (u * one) (min (u * one) ws) (u * hi) (omega arith) (omega arith),
      ),
    )
