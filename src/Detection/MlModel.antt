-- ===== src/Detection/MlModel.antt =====
-- services/processor/domain/ml_model.py. Floats are exact decimals, and so is their arithmetic; the
-- model is what its method answers for a row of features, where none is an exception of numpy or
-- scikit-learn. What the files of a model hold is an argument.
pub mod Normalization
pub mod Loading
use rt_financial_anomaly_det.Prelude.{
  ℕ, ◌+◌, ◌-◌, ◌*◌, ◌/◌, ◌%◌, ◌^◌, min, String, Bool, true, false, not, ◌||◌, Option, none, some,
  List, [], ◌∷◌, ltb, ◌==◌, if◌then◌else◌,
}
use rt_financial_anomaly_det.Shared.Json.{
  Decimal, Json, null, flag, number, text, array, object, Items, nil, cons, Fields, dict, get,
}
use rt_financial_anomaly_det.Detection.Schemas.{TransactionContext, VelocityContext}
use rt_financial_anomaly_det.Detection.Values.{TextOps, truthy, more_than}
use rt_financial_anomaly_det.Detection.Scoring.{one}

abbrev pub decimal : Bool → ℕ → ℕ → Decimal
decimal negative coefficient scale = record {
  negative = negative;
  coefficient = coefficient;
  scale = scale;
}

abbrev hundredths : ℕ → Json
hundredths n = number (decimal false n 2)

-- DEFAULT_COUNTRY_TIERS
abbrev pub default_country_tiers : Fields
default_country_tiers = dict (
    ("US", hundredths 10)
    ∷ ("CA", hundredths 10)
    ∷ ("GB", hundredths 10)
    ∷ ("DE", hundredths 10)
    ∷ ("FR", hundredths 10)
    ∷ ("AU", hundredths 10)
    ∷ ("JP", hundredths 10)
    ∷ ("SG", hundredths 10)
    ∷ ("BR", hundredths 40)
    ∷ ("IN", hundredths 40)
    ∷ ("MX", hundredths 40)
    ∷ ("ZA", hundredths 50)
    ∷ ("NG", hundredths 80)
    ∷ ("RU", hundredths 80)
    ∷ ("KP", hundredths 100)
    ∷ ("IR", hundredths 100)
    ∷ ("SY", hundredths 100)
    ∷ [])

-- DEFAULT_CATEGORY_MAP
abbrev pub default_category_map : Fields
default_category_map = dict (
    ("groceries", hundredths 10)
    ∷ ("supermarket", hundredths 10)
    ∷ ("pharmacy", hundredths 10)
    ∷ ("utilities", hundredths 10)
    ∷ ("retail", hundredths 20)
    ∷ ("restaurant", hundredths 20)
    ∷ ("travel", hundredths 40)
    ∷ ("electronics", hundredths 50)
    ∷ ("jewelry", hundredths 70)
    ∷ ("money_transfer", hundredths 80)
    ∷ ("crypto", hundredths 90)
    ∷ ("gambling", hundredths 95)
    ∷ ("weapons", hundredths 100)
    ∷ [])

abbrev pub default_feature_names : Json
default_feature_names = array (
    cons (text "amount") (
      cons (text "hour_of_day") (
        cons (text "country_risk_tier")
          (cons (text "merchant_category_code") (cons (text "user_rolling_count") nil)))))

pub record MlMetadata : Type 0 where
  pub model_version : Json
  pub min_score : Decimal
  pub max_score : Decimal
  pub feature_names : Json
  pub country_risk_tiers : Json
  pub merchant_category_map : Json

-- `value if value is not None else default`
abbrev pub unless_none : Option Json → Json → Json
unless_none none default = default
unless_none (some null) default = default
unless_none (some v) default = v

-- `feature_names or [...]`
unfoldable pub names_or_default : Option Json → Json
unfolding truthy
names_or_default none = default_feature_names
names_or_default (some names) = if truthy (some names) then names else default_feature_names

-- `data.get(key, default)`
unfoldable pub get_with_default : String → Json → Fields → Json
unfolding get
get_with_default key default fields = elim (get key fields) [ none ↦ default | some v ↦ v ]

module _ (ops : TextOps) where
  -- `float(value)`; none is an exception
  unfoldable pub float_of : Json → Option Decimal
  float_of (number d) = some d
  float_of (flag true) = some (decimal false 1 0)
  float_of (flag false) = some (decimal false 0 0)
  float_of (text s) = ops.decimal s
  float_of other = none

  abbrev pub with_scores : Fields → Option Decimal → Option Decimal → Option MlMetadata
  unfolding names_or_default get_with_default get
  with_scores fields none max_score = none
  with_scores fields (some min_score) none = none
  with_scores fields (some min_score) (some max_score) = some (record {
    model_version = get_with_default "model_version" (text "1.0.0") fields;
    min_score = min_score;
    max_score = max_score;
    feature_names = names_or_default (get "feature_names" fields);
    country_risk_tiers =
        unless_none (get "country_risk_tiers" fields) (object default_country_tiers);
    merchant_category_map =
        unless_none (get "merchant_category_map" fields) (object default_category_map);
  })

  -- `MLMetadata.from_dict`; none is an exception, also of `get` on a value that is no dict
  unfoldable pub from_dict : Json → Option MlMetadata
  unfolding float_of with_scores get_with_default
  from_dict (object fields) =
      with_scores fields
        (float_of (get_with_default "min_score" (number (decimal true 30 2)) fields))
        (float_of (get_with_default "max_score" (number (decimal false 30 2)) fields))
  from_dict other = none

-- `MLMetadata.to_dict`
unfoldable pub to_dict : MlMetadata → Json
to_dict m = object (
    dict (
      ("model_version", m.model_version)
      ∷ ("min_score", number m.min_score)
      ∷ ("max_score", number m.max_score)
      ∷ ("feature_names", m.feature_names)
      ∷ ("country_risk_tiers", m.country_risk_tiers)
      ∷ ("merchant_category_map", m.merchant_category_map)
      ∷ []))

pub record Features : Type 0 where
  pub amount : Decimal
  pub hour_of_day : ℕ
  pub country_risk : Json
  pub category_risk : Json
  pub user_rolling_count : ℕ

-- a model's methods, each none where the object does not have it
pub record Model : Type 0 where
  pub decision_function : Option (Features → Option Decimal)
  pub score_samples : Option (Features → Option Decimal)

pub record Scorer : Type 0 where
  pub model : Model
  pub metadata : MlMetadata

infixl 5 ◌>>=◌
abbrev pub ◌>>=◌ : {A B : Type 0} → Option A → (A → Option B) → Option B
none >>= f = none
some a >>= f = f a

-- `risks.get(key, 0.3)`; a value that is no dict has no `get`
unfoldable pub risk_of : String → Json → Option Json
unfolding get_with_default
risk_of key (object risks) = some (get_with_default key (number (decimal false 3 1)) risks)
risk_of key other = none

abbrev pub rolling_count : Option VelocityContext → ℕ
rolling_count none = 0
rolling_count (some velocity) = velocity.transaction_count

-- the hour of a time in microseconds
abbrev pub hour_of : ℕ → ℕ
hour_of t = t / 3600000000 % 24

module _ (ops : TextOps) where
  unfoldable pub extract_features :
      MlMetadata → TransactionContext → Option VelocityContext → Option Features
  unfolding risk_of
  extract_features metadata t velocity = do
    country_risk ← risk_of (ops.upper (ops.strip t.country)) metadata.country_risk_tiers
    category_risk ←
        risk_of (ops.lower (ops.strip t.merchant_category)) metadata.merchant_category_map
    some (record {
      amount = t.amount;
      hour_of_day = hour_of t.created_at;
      country_risk = country_risk;
      category_risk = category_risk;
      user_rolling_count = rolling_count velocity;
    })

-- the positive part of `a - b`, over the product of the two powers of ten
unfoldable pub excess : Decimal → Decimal → ℕ
excess a b =
    let x = a.coefficient * 10 ^ b.scale in
    let y = b.coefficient * 10 ^ a.scale in
    if a.negative then (if b.negative then y - x else 0) else if b.negative then x + y else x - y

-- `q + r / d` to the nearest whole number, and of two to the even one
unfoldable pub rounded : ℕ → ℕ → ℕ → ℕ
rounded q r d =
    if ltb (2 * r) d then q else if ltb d (2 * r) then q + 1 else if q % 2 == 0 then q else q + 1

-- `Decimal(f"{n / d:.4f}")`, in ten-thousandths
unfoldable pub round_even : ℕ → ℕ → ℕ
unfolding rounded
round_even n d = rounded (n * one / d) (n * one % d) d

-- the min-max normalisation of a raw score, clamped to [0, 1]; 0.5 without a range
unfoldable pub normalize : Decimal → Decimal → Decimal → ℕ
unfolding excess round_even more_than
normalize min_s max_s raw_score =
    let n = excess raw_score min_s * 10 ^ max_s.scale in
    let d = excess max_s min_s * 10 ^ raw_score.scale in
    if more_than max_s min_s then round_even (min n d) d else 5000

abbrev pub negated : Decimal → Decimal
negated d = record d { negative = not d.negative }

-- the method that the model has, `decision_function` before `score_samples`
unfoldable pub raw_decision : Model → Features → Option Decimal
raw_decision model features = elim model.decision_function [
  | some decide ↦ decide features
  | none ↦ elim model.score_samples [ some sample ↦ sample features | none ↦ none ]
]

unfoldable pub score : TextOps → Scorer → TransactionContext → Option VelocityContext → Option ℕ
unfolding normalize extract_features raw_decision
score ops scorer t velocity = do
  features ← extract_features ops scorer.metadata t velocity
  decision ← raw_decision scorer.model features
  some (normalize scorer.metadata.min_score scorer.metadata.max_score (negated decision))

-- the files of a model, each none where it does not exist; what pickle and JSON read of them is
-- none where they raise
pub record Files : Type 0 where
  pub model_file : Option (Option Model)
  pub metadata_file : Option (Option Json)

abbrev pub has_method : {A : Type 0} → Option A → Bool
has_method none = false
has_method (some f) = true

-- `__init__`; none is an MLModelLoadError
unfoldable pub new_scorer : Model → MlMetadata → Option Scorer
new_scorer model metadata =
    if has_method model.decision_function || has_method model.score_samples
    then some (record { model = model; metadata = metadata })
    else none

-- `load`; every failure is an MLModelLoadError, which is none
unfoldable pub load : TextOps → Files → Option Scorer
unfolding new_scorer from_dict
load ops files = do
  model_content ← files.model_file
  metadata_content ← files.metadata_file
  model ← model_content
  raw_meta ← metadata_content
  metadata ← from_dict ops raw_meta
  new_scorer model metadata
