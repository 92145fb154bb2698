-- ===== src/Telemetry/Cumulative.antt =====
-- The buckets of a histogram are cumulative, as Prometheus reads them.
use rt_financial_anomaly_det.Prelude.{
  ℕ, ◌≤◌, ◌≡◌, refl, sym, ◌∙◌, ap, subst, arith, String, true, false, List, [], ◌∷◌, ◌++◌, map,
  length, select, All, Some, Some-append_right, Bool-cases, inl, inr,
}
use rt_financial_anomaly_det.Prelude.Keys.{All-if_lists}
use rt_financial_anomaly_det.Shared.Json.{Json}
use rt_financial_anomaly_det.Telemetry.Series.{Numbers, insert_sorted, sorted}
use rt_financial_anomaly_det.Telemetry.Histogram.{
  count_of, buckets_of, new_histogram, has_bound, bounds_of, without_repeats,
}
use rt_financial_anomaly_det.Telemetry.Tally.{
  Observation, run_histogram, tally, run_histogram_refines,
}

-- The order of the floats that are numbers.
pub record IsOrder {N : Type 0} (num : Numbers N) : Type 0 where
  pub transitive :
      (a b c : N) → num.at_most a b ≡ true → num.at_most b c ≡ true → num.at_most a c ≡ true
  pub total : (a b : N) → num.at_most a b ≡ false → num.at_most b a ≡ true
  pub top : (a : N) → num.at_most a num.infinity ≡ true
  pub equal_lem : (a b : N) → num.equal a b ≡ true → a ≡ b

-- No bucket counts less than an earlier one.
abbrev pub IsRising : {N : Type 0} → List (N × ℕ) → Type 0
IsRising [] = Unit
IsRising (m ∷ rest) = All (λ k. m.1 ≤ k.1) rest × IsRising rest

module _ {N : Type 0} (num : Numbers N) (order : IsOrder num) where
  abbrev IsAscending : List N → Type 0
  IsAscending [] = Unit
  IsAscending (b ∷ rest) = All (λ c. num.at_most b c ≡ true) rest × IsAscending rest

  above_trans :
      (a b : N) (xs : List N)
      → num.at_most a b ≡ true
      → All (λ c. num.at_most b c ≡ true) xs
      → All (λ c. num.at_most a c ≡ true) xs
  above_trans a b [] h hs = tt
  above_trans a b (x ∷ xs) h hs = (order.transitive a b x h hs.0, above_trans a b xs h hs.1)

  above-insert :
      (a x : N) (ys : List N)
      → num.at_most a x ≡ true
      → All (λ c. num.at_most a c ≡ true) ys
      → All (λ c. num.at_most a c ≡ true) (insert_sorted num.at_most x ys)
  unfolding insert_sorted
  above-insert a x [] h hs = (h, tt)
  above-insert a x (y ∷ ys) h hs =
      All-if_lists (λ c. num.at_most a c ≡ true) (num.at_most x y) (x ∷ y ∷ ys)
        (y ∷ insert_sorted num.at_most x ys) (h, hs) (hs.0, above-insert a x ys h hs.1)

  insert_sorted-IsAscending :
      (x : N) (ys : List N) → IsAscending ys → IsAscending (insert_sorted num.at_most x ys)
  unfolding insert_sorted
  insert_sorted-IsAscending x [] h = (tt, tt)
  insert_sorted-IsAscending x (y ∷ ys) h = elim (Bool-cases (num.at_most x y)) [
    | inl first ↦ rw first ((first, above_trans x y ys first h.0), h)
    | inr later ↦
        rw later
          (above-insert y x ys (order.total x y later) h.0, insert_sorted-IsAscending x ys h.1)
  ]

  sorted-IsAscending : (xs : List N) → IsAscending (sorted num.at_most xs)
  unfolding sorted
  sorted-IsAscending [] = tt
  sorted-IsAscending (x ∷ xs) = insert_sorted-IsAscending x _ (sorted-IsAscending xs)

  below_infinity :
      (b : N) (xs : List N)
      → All (λ c. num.at_most b c ≡ true) xs
      → All (λ c. num.at_most b c ≡ true) (xs ++ num.infinity ∷ [])
  below_infinity b [] h = (order.top b, tt)
  below_infinity b (x ∷ xs) h = (h.0, below_infinity b xs h.1)

  append_infinity : (xs : List N) → IsAscending xs → IsAscending (xs ++ num.infinity ∷ [])
  append_infinity [] h = (tt, tt)
  append_infinity (x ∷ xs) h = (below_infinity x xs h.0, append_infinity xs h.1)

  has_bound_lem :
      (xs : List N) → has_bound num num.infinity xs ≡ true → Some (λ b. b ≡ num.infinity) xs
  has_bound_lem [] h = cc
  has_bound_lem (x ∷ xs) h = elim (Bool-cases (num.equal x num.infinity)) [
    | inl hit ↦ inl (order.equal_lem x num.infinity hit)
    | inr miss ↦ inr (has_bound_lem xs (ground (arith, miss)))
  ]

  bounds_of-IsAscending :
      (buckets : List N)
      → IsAscending (bounds_of num buckets) × Some (λ b. b ≡ num.infinity) (bounds_of num buckets)
  unfolding bounds_of
  bounds_of-IsAscending buckets =
      let raw = sorted num.at_most (without_repeats num buckets) in
      elim (Bool-cases (has_bound num num.infinity raw)) [
        | inl there ↦
            rw there (sorted-IsAscending (without_repeats num buckets), has_bound_lem raw there)
        | inr missing ↦ rw missing (
          append_infinity raw (sorted-IsAscending (without_repeats num buckets)),
          Some-append_right _ raw (num.infinity ∷ []) (inl refl),
        )
      ]

  tally_mono :
      (observed : List N) (b c : N)
      → num.at_most b c ≡ true
      → tally num observed b ≤ tally num observed c
  unfolding select
  tally_mono [] b c h = omega arith
  tally_mono (a ∷ rest) b c h = ground (arith, tally_mono rest b c h, order.transitive a b c)

  tallies_above :
      (observed : List N) (b : N) (bs : List N)
      → All (λ c. num.at_most b c ≡ true) bs
      → All (λ (k : N × ℕ). tally num observed b ≤ k.1) (map (λ c. (c, tally num observed c)) bs)
  tallies_above observed b [] h = tt
  tallies_above observed b (c ∷ bs) h =
      (tally_mono observed b c h.0, tallies_above observed b bs h.1)

  tallies-IsRising :
      (observed : List N) (bs : List N)
      → IsAscending bs
      → IsRising (map (λ b. (b, tally num observed b)) bs)
  tallies-IsRising observed [] h = tt
  tallies-IsRising observed (b ∷ bs) h =
      (tallies_above observed b bs h.0, tallies-IsRising observed bs h.1)

  tally_infinity : (observed : List N) → tally num observed num.infinity ≡ length observed
  unfolding select
  tally_infinity [] = refl
  tally_infinity (a ∷ rest) = ground (arith, tally_infinity rest, order.top a)

  tallies_infinity :
      (observed bs : List N) (n : ℕ)
      → n ≡ length observed
      → Some (λ b. b ≡ num.infinity) bs
      → Some
          (λ (k : N × ℕ). (k.0 ≡ num.infinity) × (k.1 ≡ n))
          (map (λ b. (b, tally num observed b)) bs)
  tallies_infinity observed [] n e s = elim s [ ]
  tallies_infinity observed (b ∷ bs) n e (inl h) =
      inl (h, ap (tally num observed) h ∙ tally_infinity observed ∙ sym e)
  tallies_infinity observed (b ∷ bs) n e (inr s) = inr (tallies_infinity observed bs n e s)

  -- With an order on the numbers, of which infinity is the greatest, and whatever bounds a histogram
  -- is made with: after any observations, and for every set of labels, the counts of the buckets
  -- rise with their bounds, and the bucket of infinity counts all the observations.
  pub run_histogram-IsRising :
      (str : Json → String) (name description : String) (label_names : List String)
      (buckets : List N) (obs : List (Observation N)) (labels : List (String × Json))
      → let h =
          run_histogram num str obs (new_histogram num name description label_names buckets) in
        IsRising (buckets_of num str labels h)
        × Some
            (λ (k : N × ℕ). (k.0 ≡ num.infinity) × (k.1 ≡ count_of num str labels h))
            (buckets_of num str labels h)
  unfolding new_histogram
  run_histogram-IsRising str name description label_names buckets obs labels =
      let (same, sets, counted, summed, filled) =
        run_histogram_refines num str name description label_names buckets obs labels in
      let (ascending, infinite) = bounds_of-IsAscending buckets in
      (
        subst IsRising (sym filled) (tallies-IsRising _ (bounds_of num buckets) ascending),
        subst (Some _) (sym filled) (tallies_infinity _ (bounds_of num buckets) _ counted infinite),
      )
