-- ===== src/Detection/MlModel/Loading.antt =====
-- The loading of a model, its metadata, and its score in a decision.
use rt_financial_anomaly_det.Prelude.{
  ℕ, ◌≤◌, ◌≡◌, refl, sym, ◌∙◌, ap, subst, ◌↔◌, arith, Bool, true, false, ◌||◌, Option, none, some,
  List, if◌then◌else◌,
}
use rt_financial_anomaly_det.Shared.Json.{Json, object, get}
use rt_financial_anomaly_det.Detection.Schemas.{
  TransactionContext, VelocityContext, RiskProfileSnapshot, RuleMatch, ScoringWeights,
  IsValidWeights,
}
use rt_financial_anomaly_det.Detection.Values.{TextOps, truthy, is_none}
use rt_financial_anomaly_det.Detection.Scoring.{one, compute_detection_decision}
use rt_financial_anomaly_det.Detection.Scoring.Decision.{
  InRange, score_of, compute_detection_decision-InRange,
}
use rt_financial_anomaly_det.Detection.MlModel.{
  MlMetadata, default_feature_names, default_country_tiers, default_category_map, unless_none,
  names_or_default, from_dict, to_dict, Scorer, ◌>>=◌, negated, extract_features, raw_decision,
  score, Files, has_method, new_scorer, load,
}
use rt_financial_anomaly_det.Detection.MlModel.Normalization.{normalize-le-one}

unless_none_kept : (v default : Json) → is_none (some v) ≡ false → unless_none (some v) default ≡ v
unfolding is_none
unless_none_kept v default h = ground arith

-- Metadata that are written and read again are the same, if the feature names are a value that counts
-- as true and the two maps are not null.
pub from_dict-to_dict :
    (ops : TextOps) (m : MlMetadata)
    → truthy (some m.feature_names) ≡ true
    → is_none (some m.country_risk_tiers) ≡ false
    → is_none (some m.merchant_category_map) ≡ false
    → from_dict ops (to_dict m) ≡ some m
unfolding from_dict to_dict get names_or_default
from_dict-to_dict ops m names tiers categories =
    let p : names_or_default (some m.feature_names) ≡ m.feature_names =
      ap (λ b. if b then m.feature_names else default_feature_names) names in
    let q = unless_none_kept m.country_risk_tiers (object default_country_tiers) tiers in
    let r = unless_none_kept m.merchant_category_map (object default_category_map) categories in
    λ i.
      some (record m { feature_names = p i; country_risk_tiers = q i; merchant_category_map = r i })

bind_lem :
    {A B : Type 0} (o : Option A) (f : A → Option B) (b : B)
    → (o >>= f) ≡ some b
    → (a : A) × (o ≡ some a) × (f a ≡ some b)
bind_lem none f b h = cc
bind_lem (some a) f b h = (a, refl, h)

abbrev some_or : {A : Type 0} → A → Option A → A
some_or default none = default
some_or default (some a) = a

-- Whatever the model answers, its score is at most one.
score-le-one :
    (ops : TextOps) (scorer : Scorer) (t : TransactionContext) (velocity : Option VelocityContext)
    (n : ℕ)
    → score ops scorer t velocity ≡ some n
    → n ≤ one
unfolding score
score-le-one ops scorer t velocity n h =
    let (features, extracted, h') =
      bind_lem (extract_features ops scorer.metadata t velocity) _ n h in
    let (decision, decided, h'') = bind_lem (raw_decision scorer.model features) _ n h' in
    omega (
      arith,
      ap (some_or 0) h'',
      normalize-le-one scorer.metadata.min_score scorer.metadata.max_score (negated decision),
    )

-- A decision made with a score of the model has its four scores in range, whatever the model answers
-- and whatever range its metadata give, with valid weights and a user's score of at most one.
pub scored_decision-InRange :
    (ops : TextOps) (scorer : Scorer) (t : TransactionContext) (velocity : Option VelocityContext)
    (n : ℕ) (rule_matches : List RuleMatch) (risk_profile : Option RiskProfileSnapshot)
    (w : ScoringWeights)
    → score ops scorer t velocity ≡ some n
    → IsValidWeights w
    → score_of risk_profile ≤ one
    → InRange (compute_detection_decision t rule_matches n risk_profile w)
scored_decision-InRange ops scorer t velocity n rule_matches risk_profile w scored valid user =
    compute_detection_decision-InRange t rule_matches n risk_profile w valid
      (score-le-one ops scorer t velocity n scored) user

-- what makes up a scorer: both files with content that is read, and a method to score with
abbrev pub IsLoaded : TextOps → Files → Scorer → Type 0
IsLoaded ops files scorer =
    (raw_meta : Json) × (files.model_file ≡ some (some scorer.model))
    × (files.metadata_file ≡ some (some raw_meta))
    × (from_dict ops raw_meta ≡ some scorer.metadata)
    × ((has_method scorer.model.decision_function || has_method scorer.model.score_samples) ≡ true)

if_lem :
    (b : Bool) (made scorer : Scorer)
    → (if b then some made else none) ≡ some scorer
    → (scorer ≡ made) × (b ≡ true)
if_lem true made scorer h = (sym (ap (some_or made) h), refl)
if_lem false made scorer h = cc

-- The service starts closed: `load` gives a scorer exactly if both files exist and can be read, the
-- metadata are valid, and the model has a method to score with; in every other case it raises.
pub load_iff :
    (ops : TextOps) (files : Files) (scorer : Scorer)
    → (load ops files ≡ some scorer) ↔ IsLoaded ops files scorer
unfolding load new_scorer
load_iff ops files scorer = (
  (λ h.
      let (model_content, a, h1) = bind_lem files.model_file _ scorer h in
      let (metadata_content, b, h2) = bind_lem files.metadata_file _ scorer h1 in
      let (model, c, h3) = bind_lem model_content _ scorer h2 in
      let (raw_meta, d, h4) = bind_lem metadata_content _ scorer h3 in
      let (metadata, e, h5) = bind_lem (from_dict ops raw_meta) _ scorer h4 in
      let (made, method) =
        if_lem (has_method model.decision_function || has_method model.score_samples)
          (record { model = model; metadata = metadata }) scorer h5 in
      subst (IsLoaded ops files) (sym made) (raw_meta, a ∙ ap some c, b ∙ ap some d, e, method)),
  (λ (raw_meta, a, b, e, method). rw (a, b, e, method) refl),
)
