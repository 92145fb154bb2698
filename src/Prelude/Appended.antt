-- ===== src/Prelude/Appended.antt =====
-- A row that is added at the end of a table.
use Prim.Native.Nat.{ℕ, ◌+◌}
use mathlib.Core.Path.{◌≡◌, refl}
use mathlib.Core.Logic.{inl, inr}
use mathlib.Core.Bool.{Bool, true, false}
use mathlib.Core.List.{List, [], ◌∷◌, ◌++◌}
use native.Mathlib.Omega.{arith}
use rt_financial_anomaly_det.Prelude.Tests.{if◌then◌else◌, Bool-cases}
use rt_financial_anomaly_det.Prelude.Lists.{length, any}
use rt_financial_anomaly_det.Prelude.Rows.{select}
use rt_financial_anomaly_det.Prelude.Keys.{sum}

module _ {A : Type 0} where
  pub sum-append_one :
      (weight : A → ℕ) (xs : List A) (x : A) → sum weight (xs ++ x ∷ []) ≡ sum weight xs + weight x
  sum-append_one weight [] x = omega arith
  sum-append_one weight (y ∷ xs) x = omega (arith, sum-append_one weight xs x)

  pub length-append_one : (xs : List A) (x : A) → length (xs ++ x ∷ []) ≡ length xs + 1
  length-append_one [] x = omega arith
  length-append_one (y ∷ xs) x = omega (arith, length-append_one xs x)

module _ {A : Type 0} (w : A → Bool) where
  pub unmatched : (xs : List A) → any w xs ≡ false → select w xs ≡ []
  unfolding select
  unmatched [] h = refl
  unmatched (x ∷ xs) h = ground (arith, unmatched xs)

  pub unselected : (xs : List A) → select w xs ≡ [] → any w xs ≡ false
  unfolding select
  unselected [] h = refl
  unselected (x ∷ xs) h = ground (arith, unselected xs)

  pub selected :
      (xs : List A) (x : A) (rest : List A)
      → select w xs ≡ x ∷ rest
      → (any w xs ≡ true) × (w x ≡ true)
  unfolding select
  selected [] x rest h = cc
  selected (y ∷ xs) x rest h = elim (Bool-cases (w y)) [
    | inl hit ↦ ((ground (arith, hit)), (ground (arith, hit, h)))
    | inr miss ↦
        let (found, passes) = selected xs x rest (ground (arith, miss, h)) in
        ((ground (arith, found)), passes)
  ]

  pub length-select_append :
      (xs : List A) (x : A)
      → length (select w (xs ++ x ∷ []))
        ≡ (if w x then length (select w xs) + 1 else length (select w xs))
  unfolding select
  length-select_append [] x = ground arith
  length-select_append (y ∷ xs) x = ground (arith, length-select_append xs x)
