-- ===== src/Telemetry/Histogram.antt =====
-- `Histogram` and its timer of shared/telemetry/metrics.py.
use Prim.Native.String.{◌++◌ as str_append}
use rt_financial_anomaly_det.Prelude.{
  ℕ, suc, String, Bool, List, [], ◌∷◌, ◌++◌, map, any, str_eq, if◌then◌else◌,
}
use rt_financial_anomaly_det.Shared.Json.{Json}
use rt_financial_anomaly_det.Telemetry.Series.{
  Numbers, Labels, key_of, key_leb, value, alter, sorted, format_labels, header_lines, value_line,
}

pub record Histogram (N : Type 0) : Type 0 where
  pub name : String
  pub description : String
  pub label_names : List String
  pub buckets : List N
  pub counts : List (Labels × ℕ)
  pub sums : List (Labels × N)
  pub bucket_counts : List (Labels × List (N × ℕ))

-- `{b: 0 for b in self.buckets}`
abbrev pub zero_counts : {N : Type 0} → List N → List (N × ℕ)
zero_counts buckets = map (λ b. (b, 0)) buckets

-- `d[k] = v` on the items of a dict of texts
unfoldable pub set_label : String → String → Labels → Labels
set_label k v [] = (k, v) ∷ []
set_label k v (p ∷ rest) =
    let later = p ∷ set_label k v rest in if str_eq p.0 k then (k, v) ∷ rest else later

module _ {N : Type 0} (num : Numbers N) where
  abbrev pub has_bound : N → List N → Bool
  has_bound b bounds = any (λ c. num.equal c b) bounds

  -- `set(buckets)`
  unfoldable pub without_repeats : List N → List N
  without_repeats [] = []
  without_repeats (b ∷ rest) =
      let others = without_repeats rest in if has_bound b others then others else b ∷ others

  -- the bounds in ascending order, with infinity
  unfoldable pub bounds_of : List N → List N
  unfolding without_repeats sorted
  bounds_of buckets =
      let raw_buckets = sorted num.at_most (without_repeats buckets) in
      if has_bound num.infinity raw_buckets then raw_buckets else raw_buckets ++ num.infinity ∷ []

  -- `__init__`
  unfoldable pub new_histogram : String → String → List String → List N → Histogram N
  unfolding bounds_of
  new_histogram name description label_names buckets = record {
    name = name;
    description = description;
    label_names = label_names;
    buckets = bounds_of buckets;
    counts = [];
    sums = [];
    bucket_counts = [];
  }

  -- `if amount <= b: bucket_map[b] += 1` for every bound, which are the keys of the dict
  unfoldable pub count_amount : N → List (N × ℕ) → List (N × ℕ)
  count_amount amount [] = []
  count_amount amount ((b, n) ∷ rest) =
      (b, if num.at_most amount b then suc n else n) ∷ count_amount amount rest

  module _ (str : Json → String) where
    unfoldable pub observe : N → List (String × Json) → Histogram N → Histogram N
    unfolding alter key_of count_amount
    observe amount labels h =
        let key = key_of str h.label_names labels in
        record h {
          counts = alter 0 suc key h.counts;
          sums = alter num.float_zero (λ v. num.add v amount) key h.sums;
          bucket_counts = alter (zero_counts h.buckets) (count_amount amount) key h.bucket_counts;
        }

    -- `_HistogramTimer.__exit__`, where the clock read `start` on entry
    unfoldable pub exit_timer : N → N → List (String × Json) → Histogram N → Histogram N
    unfolding observe
    exit_timer start now labels h = observe (num.subtract now start) labels h

    -- what the histogram holds under a set of labels
    unfoldable pub count_of : List (String × Json) → Histogram N → ℕ
    unfolding value key_of
    count_of labels h = value 0 (key_of str h.label_names labels) h.counts

    unfoldable pub sum_of : List (String × Json) → Histogram N → N
    unfolding value key_of
    sum_of labels h = value num.float_zero (key_of str h.label_names labels) h.sums

    unfoldable pub buckets_of : List (String × Json) → Histogram N → List (N × ℕ)
    unfolding value key_of
    buckets_of labels h =
        value (zero_counts h.buckets) (key_of str h.label_names labels) h.bucket_counts

  -- `collect`: for each key its buckets, its count and its sum; `show_count` is the text of a count
  module _ (show_count : ℕ → String) where
    abbrev bound_text : N → String
    bound_text b = if num.is_infinite b then "+Inf" else num.show b

    abbrev bucket_line : String → Labels → N × ℕ → String
    unfolding format_labels set_label
    bucket_line name key (b, n) =
        value_line (str_append name "_bucket") (format_labels (set_label "le" (bound_text b) key))
          (show_count n)

    unfoldable pub key_lines : Histogram N → Labels → List String
    unfolding format_labels set_label value
    key_lines h key =
        map (bucket_line h.name key) (value (zero_counts h.buckets) key h.bucket_counts)
        ++ value_line (str_append h.name "_count") (format_labels key)
            (show_count (value 0 key h.counts))
          ∷ value_line (str_append h.name "_sum") (format_labels key)
              (num.show (value num.float_zero key h.sums))
          ∷ []

    unfoldable pub all_lines : Histogram N → List Labels → List String
    unfolding key_lines
    all_lines h [] = []
    all_lines h (key ∷ rest) = key_lines h key ++ all_lines h rest

    unfoldable pub collect : Histogram N → List String
    unfolding all_lines sorted
    collect h =
        header_lines h.name h.description "histogram"
        ++ all_lines h (sorted key_leb (map (λ (e : Labels × ℕ). e.0) h.counts))
