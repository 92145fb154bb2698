-- ===== src/Detection/Rules/Monotone.antt =====
-- The order on decimals, and that a rule which fires keeps firing when what it watches grows.
use native.Mathlib.Nat.{le_of_mul-le-mul_right, mul-le-mul_right, one-le-pow}
use rt_financial_anomaly_det.Prelude.{
  inl, inr, ◌≢◌, ℕ, ◌*◌, ◌^◌, ◌≤◌, ◌<◌, ◌≡◌, refl, true, false, Option, some, List, [], ◌∷◌, ◌++◌,
  arith, Option-cases,
}
use rt_financial_anomaly_det.Shared.Json.{Decimal, Json, get}
use rt_financial_anomaly_det.Detection.Schemas.{
  amount_exceeds, VelocityReason, TransactionContext, RuleDefinition, RuleMatch, VelocityContext,
}
use rt_financial_anomaly_det.Detection.Values.{
  or_else, int_of, TextOps, at_least, more_than, decimal_of,
}
use rt_financial_anomaly_det.Detection.Rules.{
  match_of, count_reason, amount_reason, velocity_reasons, match_reasons, eval_velocity,
  raw_threshold, eval_amount_threshold,
}

pow_pos : (n : ℕ) → 0 < 10 ^ n
pow_pos n = one-le-pow n 10 (omega arith)

cross : (a ua b ub c uc : ℕ) → 0 < ub → b * ua ≤ a * ub → c * ub ≤ b * uc → c * ua ≤ a * uc
cross a ua b ub c uc pos h k =
    le_of_mul-le-mul_right {m = c * ua} {n = a * uc} {k = ub}
      (omega (arith, mul-le-mul_right ua k, mul-le-mul_right uc h)) pos

zero_factor : (a u : ℕ) → 0 < u → a * u ≡ 0 → a ≡ 0
zero_factor a u p h = grind arith

zero_product : (a u : ℕ) → a ≡ 0 → a * u ≡ 0
zero_product a u h = rw h (omega arith)

-- `>=` on decimals is transitive, whatever the signs and the scales.
pub at_least_trans :
    (a b c : Decimal) → at_least a b ≡ true → at_least b c ≡ true → at_least a c ≡ true
unfolding at_least
at_least_trans a b c h k =
    let ua = 10 ^ a.scale in
    let ub = 10 ^ b.scale in
    let uc = 10 ^ c.scale in
    let x = a.coefficient in
    let y = b.coefficient in
    let z = c.coefficient in
    ground (
      arith,
      pow_pos a.scale,
      pow_pos b.scale,
      pow_pos c.scale,
      cross x ua y ub z uc,
      cross z uc y ub x ua,
      zero_factor x ub,
      zero_factor y ua,
      zero_factor y uc,
      zero_factor z ub,
      zero_product x uc,
      zero_product z ua,
    )

-- An AMOUNT_THRESHOLD rule that matches a transaction matches it at every larger amount too.
pub eval_amount_threshold_mono :
    (ops : TextOps) (rule : RuleDefinition) (t : TransactionContext) (amount : Decimal) (now : ℕ)
    (m : RuleMatch)
    → eval_amount_threshold ops rule t now ≡ some m
    → at_least amount t.amount ≡ true
    → (m' : RuleMatch) × (eval_amount_threshold ops rule (record t { amount = amount }) now
        ≡ some m')
unfolding eval_amount_threshold more_than
eval_amount_threshold_mono ops rule t amount now m h larger =
    elim (Option-cases (decimal_of ops (raw_threshold rule.parameters))) [
      | inl unread ↦ absurd (ground arith)
      | inr (threshold, read) ↦ (
        match_of rule (amount_exceeds amount t.currency threshold) now,
        ground (
          arith,
          at_least_trans amount t.amount threshold,
          at_least_trans threshold amount t.amount,
        ),
      )
    ]

abbrev count_decimal : ℕ → Decimal
count_decimal n = record { negative = false; coefficient = n; scale = 0 }

count_decimal_mono : (m n : ℕ) → m ≤ n → at_least (count_decimal n) (count_decimal m) ≡ true
unfolding at_least
count_decimal_mono m n h = ground arith

module _ (ops : TextOps) (v v' : VelocityContext)
    (more : v.transaction_count ≤ v'.transaction_count)
    (larger : at_least v'.total_amount v.total_amount ≡ true) where
  count_reason_mono :
      (limit : Option Json) → count_reason ops limit v ≢ [] → count_reason ops limit v' ≢ []
  unfolding count_reason
  count_reason_mono limit h = elim (Option-cases (int_of ops limit)) [
    | inl unread ↦ ground arith
    | inr (d, read) ↦ ground (
      arith,
      count_decimal_mono v.transaction_count v'.transaction_count more,
      at_least_trans (count_decimal v'.transaction_count) (count_decimal v.transaction_count) d,
    )
  ]

  amount_reason_mono :
      (limit : Option Json) → amount_reason ops limit v ≢ [] → amount_reason ops limit v' ≢ []
  unfolding amount_reason
  amount_reason_mono limit h = elim (Option-cases (decimal_of ops limit)) [
    | inl unread ↦ ground arith
    | inr (d, read) ↦ ground (arith, at_least_trans v'.total_amount v.total_amount d)
  ]

  reasons_mono :
      (xs ys xs' ys' : List VelocityReason)
      → (xs ≢ [] → xs' ≢ [])
      → (ys ≢ [] → ys' ≢ [])
      → xs ++ ys ≢ []
      → xs' ++ ys' ≢ []
  reasons_mono [] [] xs' ys' p q h = absurd (h refl)
  reasons_mono (x ∷ xs) ys [] ys' p q h = absurd (p (λ e. cc) refl)
  reasons_mono (x ∷ xs) ys (x' ∷ xs') ys' p q h = λ e. cc
  reasons_mono [] (y ∷ ys) (x' ∷ xs') ys' p q h = λ e. cc
  reasons_mono [] (y ∷ ys) [] ys' p q h = q (λ e. cc)

  match_some :
      (rs : List VelocityReason) (rule : RuleDefinition) (u : VelocityContext) (now : ℕ)
      → rs ≢ []
      → (m : RuleMatch) × (match_reasons ops rs rule u now ≡ some m)
  unfolding match_reasons
  match_some [] rule u now h = absurd (h refl)
  match_some (r ∷ rest) rule u now h = (_, refl)

  match_needs :
      (rs : List VelocityReason) (rule : RuleDefinition) (u : VelocityContext) (now : ℕ)
      (m : RuleMatch)
      → match_reasons ops rs rule u now ≡ some m
      → rs ≢ []
  unfolding match_reasons
  match_needs [] rule u now m h = cc
  match_needs (r ∷ rest) rule u now m h = λ e. cc

  -- A VELOCITY rule that matches a user's window matches every window with at least as many
  -- transactions and at least as large a total.
  pub eval_velocity_mono :
      (rule : RuleDefinition) (now : ℕ) (m : RuleMatch)
      → eval_velocity ops rule (some v) now ≡ some m
      → (m' : RuleMatch) × (eval_velocity ops rule (some v') now ≡ some m')
  unfolding eval_velocity
  eval_velocity_mono rule now m h =
      let params = rule.parameters in
      let max_count = or_else (get "max_count" params) (get "count_threshold" params) in
      let max_amount = or_else (get "max_amount" params) (get "amount_threshold" params) in
      match_some (velocity_reasons ops params v') rule v' now (
        reasons_mono (count_reason ops max_count v) (amount_reason ops max_amount v)
          (count_reason ops max_count v') (amount_reason ops max_amount v')
          (count_reason_mono max_count) (amount_reason_mono max_amount)
          (match_needs (velocity_reasons ops params v) rule v now m h))
