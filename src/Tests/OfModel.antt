-- ===== src/Tests/OfModel.antt =====
-- The theorems on the scores of the model.
use rt_financial_anomaly_det.Prelude.{
  ℕ, ◌*◌, ◌≡◌, ◌↔◌, ◌*◌, ◌^◌, refl, true, false, none, some, [], ◌∷◌, arith, Option,
}
use rt_financial_anomaly_det.Shared.Json.{Decimal, object, text}
use rt_financial_anomaly_det.Detection.Values.{at_least}
use rt_financial_anomaly_det.Detection.Scoring.{compute_detection_decision}
use rt_financial_anomaly_det.Detection.Scoring.Decision.{InRange}
use rt_financial_anomaly_det.Detection.MlModel.{
  decimal, MlMetadata, default_country_tiers, default_category_map, default_feature_names, to_dict,
  Features, Model, Scorer, normalize, score, Files, load,
}
use rt_financial_anomaly_det.Detection.MlModel.Normalization.{
  IsDistance, IsRounded, normalize_effect,
}
use rt_financial_anomaly_det.Detection.MlModel.Loading.{IsLoaded, load_iff, scored_decision-InRange}
use rt_financial_anomaly_det.Tests.Data.{ops}
use rt_financial_anomaly_det.Tests.OfDetection.{transaction, weights, amount_match}

abbrev lowest : Decimal
lowest = decimal true 30 2

abbrev highest : Decimal
highest = decimal false 30 2

abbrev inside : Decimal
inside = decimal false 15 2

normalize_effect_example :
    (at_least lowest inside ≡ true → normalize lowest highest inside ≡ 0)
    × (at_least inside highest ≡ true → normalize lowest highest inside ≡ 10000)
    × (at_least lowest inside ≡ false
        → at_least inside highest ≡ false
        → (n d : ℕ) × IsDistance inside lowest n
          × IsDistance highest lowest d
          × IsRounded (n * 10 ^ 2) (d * 10 ^ 2) (normalize lowest highest inside))
unfolding rt_financial_anomaly_det.Detection.Values.more_than
normalize_effect_example = normalize_effect lowest highest inside refl

abbrev metadata : MlMetadata
metadata = record {
  model_version = text "1.0.0";
  min_score = lowest;
  max_score = highest;
  feature_names = default_feature_names;
  country_risk_tiers = object default_country_tiers;
  merchant_category_map = object default_category_map;
}

abbrev decide : Features → Option Decimal
decide features = some (decimal true 12 2)

abbrev model : Model
model = record { decision_function = some decide; score_samples = none }

abbrev scorer : Scorer
scorer = record { model = model; metadata = metadata }

scored_decision-InRange_example :
    InRange (compute_detection_decision transaction (amount_match ∷ []) 7000 none weights)
unfolding score
scored_decision-InRange_example =
    scored_decision-InRange ops scorer transaction none 7000 (amount_match ∷ []) none weights refl
      (record {
        positive = omega arith;
        rule_le = omega arith;
        ml_le = omega arith;
        profile_le = omega arith;
        threshold_le = omega arith;
      })
      (omega arith)

abbrev files : Files
files = record { model_file = some (some model); metadata_file = some (some (to_dict metadata)) }

load_iff_example : (load ops files ≡ some scorer) ↔ IsLoaded ops files scorer
load_iff_example = load_iff ops files scorer
