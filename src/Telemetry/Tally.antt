-- ===== src/Telemetry/Tally.antt =====
-- A histogram against the list of what it observed.
use rt_financial_anomaly_det.Prelude.{
  ℕ, suc, ◌+◌, ◌≡◌, refl, sym, ◌↔◌, ◌∙◌, ap, fun_ext, arith, String, Bool, true, false, List, [],
  ◌∷◌, map, length, select, if◌then◌else◌,
}
use rt_financial_anomaly_det.Shared.Json.{Json}
use rt_financial_anomaly_det.Telemetry.Series.{Numbers, Labels, key_of, key_eq, value, value-alter}
use rt_financial_anomaly_det.Telemetry.LabelSets.{SameLabels, key_of_iff}
use rt_financial_anomaly_det.Telemetry.Histogram.{
  Histogram, zero_counts, count_amount, observe, count_of, sum_of, buckets_of, new_histogram,
}

zero_plus : (n : ℕ) → 0 + n ≡ n
zero_plus n = omega arith

abbrev pub Observation : Type 0 → Type 0
Observation N = N × List (String × Json)

module _ {N : Type 0} (num : Numbers N) where
  -- how many of the amounts are at most `b`
  abbrev pub tally : List N → N → ℕ
  tally observed b = length (select (λ a. num.at_most a b) observed)

  -- their sum from the left, as floats are added
  abbrev pub total : N → List N → N
  total sum [] = sum
  total sum (a ∷ rest) = total (num.add sum a) rest

module _ {N : Type 0} (num : Numbers N) (str : Json → String) where
  unfoldable pub run_histogram : List (Observation N) → Histogram N → Histogram N
  run_histogram [] h = h
  run_histogram ((amount, labels) ∷ rest) h = run_histogram rest (observe num str amount labels h)

  -- the amounts observed under the labels that a test tells
  unfoldable pub amounts : (List (String × Json) → Bool) → List (Observation N) → List N
  amounts hit [] = []
  amounts hit ((amount, labels) ∷ rest) =
      let others = amounts hit rest in if hit labels then amount ∷ others else others

  abbrev hits : List String → Labels → List (String × Json) → Bool
  hits label_names key labels = key_eq (key_of str label_names labels) key

  abbrev count_all : List N → List (N × ℕ) → List (N × ℕ)
  count_all [] m = m
  count_all (a ∷ rest) m = count_all rest (count_amount num a m)

  count_amount-map :
      (a : N) (f : N → ℕ) (bs : List N)
      → count_amount num a (map (λ b. (b, f b)) bs)
        ≡ map (λ b. (b, if num.at_most a b then suc (f b) else f b)) bs
  unfolding count_amount
  count_amount-map a f [] = refl
  count_amount-map a f (b ∷ bs) =
      ap (λ m. (b, if num.at_most a b then suc (f b) else f b) ∷ m) (count_amount-map a f bs)

  one_more :
      (a : N) (observed : List N) (b : N) (n : ℕ)
      → (if num.at_most a b then suc n else n) + tally num observed b
        ≡ n + tally num (a ∷ observed) b
  unfolding select
  one_more a observed b n = ground arith

  count_all-map :
      (observed : List N) (f : N → ℕ) (bs : List N)
      → count_all observed (map (λ b. (b, f b)) bs) ≡ map (λ b. (b, f b + tally num observed b)) bs
  unfolding select
  count_all-map [] f bs = ap (λ (g : N → ℕ). map (λ b. (b, g b)) bs) (fun_ext λ b. omega arith)
  count_all-map (a ∷ rest) f bs =
      ap (count_all rest) (count_amount-map a f bs)
      ∙ count_all-map rest (λ b. if num.at_most a b then suc (f b) else f b) bs
      ∙ ap (λ (g : N → ℕ). map (λ b. (b, g b)) bs) (fun_ext λ b. one_more a rest b (f b))

  run_names :
      (obs : List (Observation N)) (h : Histogram N)
      → (run_histogram obs h).label_names ≡ h.label_names
  unfolding run_histogram observe
  run_names [] h = refl
  run_names ((amount, labels) ∷ rest) h = run_names rest (observe num str amount labels h)

  pub run_buckets :
      (obs : List (Observation N)) (h : Histogram N) → (run_histogram obs h).buckets ≡ h.buckets
  unfolding run_histogram observe
  run_buckets [] h = refl
  run_buckets ((amount, labels) ∷ rest) h = run_buckets rest (observe num str amount labels h)

  run_counts :
      (obs : List (Observation N)) (h : Histogram N) (key : Labels)
      → value 0 key (run_histogram obs h).counts
        ≡ value 0 key h.counts + length (amounts (hits h.label_names key) obs)
  unfolding run_histogram observe amounts
  run_counts [] h key = omega arith
  run_counts ((amount, labels) ∷ rest) h key = ground (
    arith,
    run_counts rest (observe num str amount labels h) key,
    value-alter 0 suc (key_of str h.label_names labels) key h.counts,
  )

  total-if :
      (b : Bool) (sum a : N) (rest : List N)
      → total num (if b then num.add sum a else sum) rest
        ≡ total num sum (if b then a ∷ rest else rest)
  total-if true sum a rest = refl
  total-if false sum a rest = refl

  run_sums :
      (obs : List (Observation N)) (h : Histogram N) (key : Labels)
      → value num.float_zero key (run_histogram obs h).sums
        ≡ total num (value num.float_zero key h.sums) (amounts (hits h.label_names key) obs)
  unfolding run_histogram observe amounts
  run_sums [] h key = refl
  run_sums ((amount, labels) ∷ rest) h key =
      let hit = key_eq (key_of str h.label_names labels) key in
      run_sums rest (observe num str amount labels h) key
      ∙ ap (λ s. total num s (amounts (hits h.label_names key) rest))
          (value-alter num.float_zero (λ v. num.add v amount) (key_of str h.label_names labels) key
            h.sums)
      ∙ total-if hit (value num.float_zero key h.sums) amount
          (amounts (hits h.label_names key) rest)

  count_all-if :
      (b : Bool) (m : List (N × ℕ)) (a : N) (rest : List N)
      → count_all rest (if b then count_amount num a m else m)
        ≡ count_all (if b then a ∷ rest else rest) m
  count_all-if true m a rest = refl
  count_all-if false m a rest = refl

  run_bucket_counts :
      (obs : List (Observation N)) (h : Histogram N) (key : Labels)
      → value (zero_counts h.buckets) key (run_histogram obs h).bucket_counts
        ≡ count_all
            (amounts (hits h.label_names key) obs)
            (value (zero_counts h.buckets) key h.bucket_counts)
  unfolding run_histogram observe amounts
  run_bucket_counts [] h key = refl
  run_bucket_counts ((amount, labels) ∷ rest) h key =
      let hit = key_eq (key_of str h.label_names labels) key in
      let m = value (zero_counts h.buckets) key h.bucket_counts in
      run_bucket_counts rest (observe num str amount labels h) key
      ∙ ap (count_all (amounts (hits h.label_names key) rest)) (
          value-alter (zero_counts h.buckets) (count_amount num amount)
            (key_of str h.label_names labels) key h.bucket_counts)
      ∙ count_all-if hit m amount (amounts (hits h.label_names key) rest)

  -- A new histogram is a function from sets of labels to the lists of what was observed under them,
  -- whatever the arithmetic of its numbers: after any observations it holds, for every set of
  -- labels, the number of the observations under the same set, their sum in their order, and for
  -- every bound how many of them are at most the bound. A set of labels is the texts of the arguments,
  -- in whatever order, and "unknown" for each label that no argument names.
  pub run_histogram_refines :
      (name description : String) (label_names : List String) (buckets : List N)
      (obs : List (Observation N)) (labels : List (String × Json))
      → let h = new_histogram num name description label_names buckets in
        (same : List (String × Json) → Bool) × ((given : List (String × Json))
          → (same given ≡ true) ↔ SameLabels str label_names labels given)
        × (count_of num str labels (run_histogram obs h) ≡ length (amounts same obs))
        × (sum_of num str labels (run_histogram obs h)
            ≡ total num num.float_zero (amounts same obs))
        × (buckets_of num str labels (run_histogram obs h)
            ≡ map (λ b. (b, tally num (amounts same obs) b)) h.buckets)
  unfolding count_of sum_of buckets_of new_histogram
  run_histogram_refines name description label_names buckets obs labels =
      let h = new_histogram num name description label_names buckets in
      let key = key_of str label_names labels in
      (
        hits label_names key,
        (λ given.
            let (to, from) = key_of_iff str label_names given labels in
            ((λ e name g. sym (to e name g)), (λ same. from (λ name g. sym (same name g))))),
        ap (λ names. value 0 (key_of str names labels) (run_histogram obs h).counts)
              (run_names obs h)
            ∙ run_counts obs h key
            ∙ zero_plus (length (amounts (hits label_names key) obs)),
        ap (λ names. value num.float_zero (key_of str names labels) (run_histogram obs h).sums)
              (run_names obs h)
            ∙ run_sums obs h key,
        ap
              (λ names.
                value (zero_counts (run_histogram obs h).buckets) (key_of str names labels)
                  (run_histogram obs h).bucket_counts)
              (run_names obs h)
            ∙ ap (λ bs. value (zero_counts bs) key (run_histogram obs h).bucket_counts)
                (run_buckets obs h)
            ∙ run_bucket_counts obs h key
            ∙ count_all-map (amounts (hits label_names key) obs) (λ b. 0) h.buckets
            ∙ ap (λ (g : N → ℕ). map (λ b. (b, g b)) h.buckets)
                (fun_ext λ b. zero_plus (tally num (amounts (hits label_names key) obs) b)),
      )
