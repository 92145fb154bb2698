-- ===== src/Detection/MlModel/Normalization.antt =====
-- The normalised score as a number: its range, its ends, and how it follows the raw score.
use native.Mathlib.Nat.{
  div-add-mod, mul-pos, mul-sub, eq_of_mul-eq-mul_right, mul-le-mul_right, one-le-pow,
  le_of_mul-le-mul_left, le_of_mul-le-mul_right, mul-div_right, mul-mod_right, zero-div, zero-mod,
}
use rt_financial_anomaly_det.Prelude.{
  ℕ, ◌+◌, ◌-◌, ◌*◌, ◌/◌, ◌%◌, ◌^◌, ◌≤◌, ◌<◌, ◌≡◌, ap, sym, subst, ◌∙◌, ◌⊎◌, inl, inr, min, true,
  false, arith, Bool, not, if◌then◌else◌, Bool-cases, leb, leb→le, ltb, ◌==◌,
}
use rt_financial_anomaly_det.Shared.Json.{Decimal}
use rt_financial_anomaly_det.Detection.Values.{at_least, more_than}
use rt_financial_anomaly_det.Detection.Scoring.{one}
use rt_financial_anomaly_det.Detection.Scoring.Bounds.{div_mono}
use rt_financial_anomaly_det.Detection.MlModel.{excess, rounded, round_even, normalize}

le-cases : (a b : ℕ) → (a ≤ b) ⊎ (b < a)
le-cases a b = elim (Bool-cases (leb a b)) [
  | inl below ↦ inl (leb→le a b below)
  | inr above ↦ inr (ground arith)
]

rounded-le-one : (q r d : ℕ) → 0 < d → d * q + r ≤ d * one → rounded q r d ≤ one
unfolding rounded
rounded-le-one q r d p h =
    let below : q ≤ one = le_of_mul-le-mul_left {m = q} {n = one} {k = d} (omega arith) p in
    elim (le-cases one q) [
      | inl full ↦
          let same : q ≡ one = omega arith in
          let exact : r ≡ 0 = omega (arith, ap (λ (k : ℕ). d * k) same) in ground arith
      | inr under ↦ ground arith
    ]

rounded_mono :
    (q r q' r' d : ℕ) → (q < q') ⊎ ((q ≡ q') × (r ≤ r')) → rounded q r d ≤ rounded q' r' d
unfolding rounded
rounded_mono q r q' r' d (inl h) = ground arith
rounded_mono q r q' r' d (inr (e, h)) = ground arith

round_even-le-one : (n d : ℕ) → 0 < d → n ≤ d → round_even n d ≤ one
unfolding round_even
round_even-le-one n d p h =
    rounded-le-one (n * one / d) (n * one % d) d p (omega (arith, div-add-mod (n * one) d))

quotients : (m n d : ℕ) → 0 < d → m ≤ n → (m / d < n / d) ⊎ ((m / d ≡ n / d) × (m % d ≤ n % d))
quotients m n d p h = elim (le-cases (n / d) (m / d)) [
  | inr less ↦ inl less
  | inl more ↦
      let same : m / d ≡ n / d = omega (arith, div_mono m n d p h) in
      inr (same, omega (arith, div-add-mod m d, div-add-mod n d, ap (λ (q : ℕ). d * q) same))
]

round_even_mono : (m n d : ℕ) → 0 < d → m ≤ n → round_even m d ≤ round_even n d
unfolding round_even
round_even_mono m n d p h =
    rounded_mono (m * one / d) (m * one % d) (n * one / d) (n * one % d) d
      (quotients (m * one) (n * one) d p (omega arith))

round_even_full : (d : ℕ) → 0 < d → round_even d d ≡ one
unfolding round_even rounded
round_even_full d p = rw (mul-div_right one {m = d} p, mul-mod_right d one) (ground arith)

round_even_zero : (d : ℕ) → 0 < d → round_even 0 d ≡ 0
unfolding round_even rounded
round_even_zero d p = rw (zero-div d, zero-mod d) (ground arith)

power_pos : (n : ℕ) → 0 < 10 ^ n
power_pos n = omega (arith, one-le-pow n 10 (omega arith))

excess_pos : (a b : Decimal) → more_than a b ≡ true → 0 < excess a b
unfolding more_than at_least excess
excess_pos a b h = ground arith

excess_zero : (a b : Decimal) → at_least b a ≡ true → excess a b ≡ 0
unfolding at_least excess
excess_zero a b h = ground arith

sub-mul : (a b c : ℕ) → (a - b) * c ≡ a * c - b * c
sub-mul a b c = omega (arith, mul-sub c a b)

-- the products that a larger raw score makes larger
module _ (rc xc mc r x m : ℕ) where
  both_above : xc * r ≤ rc * x → (xc * m - mc * x) * r ≤ (rc * m - mc * r) * x
  both_above h =
      omega (arith, mul-le-mul_right m h, sub-mul (xc * m) (mc * x) r, sub-mul (rc * m) (mc * r) x)

  above_negative : xc * r ≤ rc * x → (xc * m + mc * x) * r ≤ (rc * m + mc * r) * x
  above_negative h = omega (arith, mul-le-mul_right m h)

  across : (mc * x - xc * m) * r ≤ (rc * m + mc * r) * x
  across = omega (arith, sub-mul (mc * x) (xc * m) r)

  both_below : rc * x ≤ xc * r → (mc * x - xc * m) * r ≤ (mc * r - rc * m) * x
  both_below h =
      omega (arith, mul-le-mul_right m h, sub-mul (mc * x) (xc * m) r, sub-mul (mc * r) (rc * m) x)

  -- a negative zero at or above a zero
  zeros_below : rc * x ≡ 0 → xc * r ≡ 0 → 0 < x → (xc * m + mc * x) * r ≤ (mc * r - rc * m) * x
  zeros_below e f p =
      let none_left : rc ≡ 0 = eq_of_mul-eq-mul_right x p rc 0 (omega (arith, e)) in
      omega (
        arith,
        sub-mul (mc * r) (rc * m) x,
        ap (λ (c : ℕ). c * m * x) none_left,
        ap (λ (c : ℕ). c * m) f,
      )

  zeros_above : xc * r ≡ 0 → (xc * m - mc * x) * r ≤ 0 * x
  zeros_above f = omega (arith, sub-mul (xc * m) (mc * x) r, ap (λ (c : ℕ). c * m) f)

excess_mono :
    (min_s max_s raw : Decimal)
    → more_than max_s min_s ≡ true
    → at_least raw max_s ≡ true
    → excess max_s min_s * 10 ^ raw.scale ≤ excess raw min_s * 10 ^ max_s.scale
unfolding more_than at_least excess
excess_mono min_s max_s raw range above =
    let rc = raw.coefficient in
    let xc = max_s.coefficient in
    let mc = min_s.coefficient in
    let r = 10 ^ raw.scale in
    let x = 10 ^ max_s.scale in
    let m = 10 ^ min_s.scale in
    ground (
      arith,
      both_above rc xc mc r x m,
      above_negative rc xc mc r x m,
      across rc xc mc r x m,
      both_below rc xc mc r x m,
      zeros_below rc xc mc r x m,
      zeros_above rc xc mc r x m,
      power_pos raw.scale,
      power_pos max_s.scale,
    )

more_than_lem : (a b : Decimal) → at_least b a ≡ false → more_than a b ≡ true
unfolding more_than
more_than_lem a b h = ap not h

at_least_total : (a b : Decimal) → at_least a b ≡ false → at_least b a ≡ true
unfolding at_least
at_least_total a b h = ground arith

-- the positive and the negative part of the coefficient of a decimal
abbrev pub positive_part : Decimal → ℕ
positive_part a = if a.negative then 0 else a.coefficient

abbrev pub negative_part : Decimal → ℕ
negative_part a = if a.negative then a.coefficient else 0

-- `n`, over the product of the two powers of ten, is what `a` is above `b`
abbrev pub IsDistance : Decimal → Decimal → ℕ → Type 0
IsDistance a b n =
    positive_part a * 10 ^ b.scale + negative_part b * 10 ^ a.scale
    ≡ n + (negative_part a * 10 ^ b.scale + positive_part b * 10 ^ a.scale)

-- `s` ten-thousandths are nearest to `n / d`; of two as near it is the even one
abbrev pub IsRounded : ℕ → ℕ → ℕ → Type 0
IsRounded n d s =
    (2 * (d * s) ≤ 2 * (n * 10000) + d)
    × (2 * (n * 10000) ≤ 2 * (d * s) + d)
    × ((2 * (d * s) ≡ 2 * (n * 10000) + d) ⊎ (2 * (n * 10000) ≡ 2 * (d * s) + d) → s % 2 ≡ 0)

excess-IsDistance : (a b : Decimal) → at_least a b ≡ true → IsDistance a b (excess a b)
unfolding at_least excess
excess-IsDistance a b h = ground arith

more_than-at_least : (a b : Decimal) → more_than a b ≡ true → at_least a b ≡ true
unfolding more_than at_least
more_than-at_least a b h = ground arith

times_next : (d q : ℕ) → d * (q + 1) ≡ d * q + d
times_next d q = omega arith

rounded-IsRounded : (n q r d : ℕ) → d * q + r ≡ n * 10000 → r < d → IsRounded n d (rounded q r d)
unfolding rounded
rounded-IsRounded n q r d whole rest = elim (Bool-cases (ltb (2 * r) d)) [
  | inl down ↦ rw down (ground (arith, down))
  | inr not_down ↦ elim (Bool-cases (ltb d (2 * r))) [
    | inl up ↦ rw (not_down, up) (ground (arith, up, times_next d q))
    | inr tie ↦ elim (Bool-cases (q % 2 == 0)) [
      | inl even ↦ rw (not_down, tie, even) (ground (arith, not_down, tie, even))
      | inr odd ↦ rw (not_down, tie, odd) (ground (arith, not_down, tie, odd, times_next d q))
    ]
  ]
]

round_even-IsRounded : (n d : ℕ) → 0 < d → IsRounded n d (round_even n d)
unfolding round_even
round_even-IsRounded n d p =
    rounded-IsRounded n (n * one / d) (n * one % d) d (omega (arith, div-add-mod (n * one) d))
      (omega arith)

module _ (min_s max_s raw : Decimal) (range : more_than max_s min_s ≡ true) where
  range_pos : 0 < excess max_s min_s * 10 ^ raw.scale
  range_pos = mul-pos (excess_pos max_s min_s range) (power_pos raw.scale)

  normalize_low : at_least min_s raw ≡ true → normalize min_s max_s raw ≡ 0
  unfolding normalize
  normalize_low below =
      let d = excess max_s min_s * 10 ^ raw.scale in
      let n = excess raw min_s * 10 ^ max_s.scale in
      let nothing : n ≡ 0 =
        omega (arith, ap (λ (k : ℕ). k * 10 ^ max_s.scale) (excess_zero raw min_s below)) in
      let least : min n d ≡ 0 = omega arith in
      rw range (ap (λ (k : ℕ). round_even k d) least ∙ round_even_zero d range_pos)

  normalize_high : at_least raw max_s ≡ true → normalize min_s max_s raw ≡ one
  unfolding normalize
  normalize_high above =
      let d = excess max_s min_s * 10 ^ raw.scale in
      let n = excess raw min_s * 10 ^ max_s.scale in
      let full : d ≤ n = excess_mono min_s max_s raw range above in
      let most : min n d ≡ d = omega arith in
      rw range (ap (λ (k : ℕ). round_even k d) most ∙ round_even_full d range_pos)

  normalize_between :
      at_least min_s raw ≡ false
      → at_least raw max_s ≡ false
      → normalize min_s max_s raw
        ≡ round_even (excess raw min_s * 10 ^ max_s.scale) (excess max_s min_s * 10 ^ raw.scale)
  unfolding normalize
  normalize_between above below =
      let d = excess max_s min_s * 10 ^ raw.scale in
      let n = excess raw min_s * 10 ^ max_s.scale in
      let part : n ≤ d =
        excess_mono min_s raw max_s (more_than_lem raw min_s above)
          (at_least_total raw max_s below) in
      let rest : min n d ≡ n = omega arith in rw range (ap (λ (k : ℕ). round_even k d) rest)

  -- With a maximum above the minimum: a raw score at or below the minimum is normalised to 0, one at
  -- or above the maximum to 1, and any other to the quotient of its distance from the minimum and the
  -- whole range, rounded to the nearest ten-thousandth, and of two to the even one.
  pub normalize_effect :
      (at_least min_s raw ≡ true → normalize min_s max_s raw ≡ 0)
      × (at_least raw max_s ≡ true → normalize min_s max_s raw ≡ 10000)
      × (at_least min_s raw ≡ false
          → at_least raw max_s ≡ false
          → (n d : ℕ) × IsDistance raw min_s n
            × IsDistance max_s min_s d
            × IsRounded (n * 10 ^ max_s.scale) (d * 10 ^ raw.scale) (normalize min_s max_s raw))
  normalize_effect = (
    normalize_low,
    normalize_high,
    (λ above below. (
      excess raw min_s,
      excess max_s min_s,
      excess-IsDistance raw min_s (at_least_total min_s raw above),
      excess-IsDistance max_s min_s (more_than-at_least max_s min_s range),
      subst (IsRounded (excess raw min_s * 10 ^ max_s.scale) (excess max_s min_s * 10 ^ raw.scale))
          (sym (normalize_between above below)) (round_even-IsRounded _ _ range_pos),
    )),
  )

-- The normalised score is at most one, whatever the model answers and the range of its scores.
pub normalize-le-one : (min_s max_s raw : Decimal) → normalize min_s max_s raw ≤ one
unfolding normalize
normalize-le-one min_s max_s raw = elim (Bool-cases (more_than max_s min_s)) [
  | inl range ↦ rw range (round_even-le-one _ _ (range_pos min_s max_s raw range) (omega arith))
  | inr flat ↦ rw flat (omega arith)
]

cancel : (a b p : ℕ) → 0 < p → a * p ≤ b * p → a ≤ b
cancel a b p h le = le_of_mul-le-mul_right {m = a} {n = b} {k = p} le h

times_mono : (a b m : ℕ) → a ≤ b → a * m ≤ b * m
times_mono a b m h = mul-le-mul_right m h

zero_of : (a p : ℕ) → 0 < p → a * p ≡ 0 → a ≡ 0
zero_of a p h e = eq_of_mul-eq-mul_right p h a 0 (omega (arith, e))

excess_le :
    (a min_s : Decimal) (negative : Bool) (coefficient : ℕ)
    → let b = record a { negative = negative; coefficient = coefficient } in
      at_least b a ≡ true → excess a min_s ≤ excess b min_s
unfolding at_least excess
excess_le a min_s negative coefficient h =
    let p = 10 ^ a.scale in
    let m = 10 ^ min_s.scale in
    ground (
      arith,
      cancel a.coefficient coefficient p (power_pos a.scale),
      cancel coefficient a.coefficient p (power_pos a.scale),
      zero_of a.coefficient p (power_pos a.scale),
      zero_of coefficient p (power_pos a.scale),
      times_mono a.coefficient coefficient m,
      times_mono coefficient a.coefficient m,
    )

-- Of two raw scores with equally many digits the larger one is normalised to at least as much.
pub normalize_mono :
    (min_s max_s raw : Decimal) (negative : Bool) (coefficient : ℕ)
    → let raw' = record raw { negative = negative; coefficient = coefficient } in
      at_least raw' raw ≡ true → normalize min_s max_s raw ≤ normalize min_s max_s raw'
unfolding normalize
normalize_mono min_s max_s raw negative coefficient h =
    let raw' = record raw { negative = negative; coefficient = coefficient } in
    let d = excess max_s min_s * 10 ^ raw.scale in
    let less =
      times_mono (excess raw min_s) (excess raw' min_s) (10 ^ max_s.scale)
        (excess_le raw min_s negative coefficient h) in
    elim (Bool-cases (more_than max_s min_s)) [
      | inl range ↦ rw range (
          round_even_mono (min (excess raw min_s * 10 ^ max_s.scale) d)
            (min (excess raw' min_s * 10 ^ max_s.scale) d) d (range_pos min_s max_s raw range)
            (omega (arith, less)))
      | inr flat ↦ rw flat (omega arith)
    ]
