-- ===== src/Prelude/Keys.antt =====
-- Tables with a primary key: rows whose keys are distinct, and what SELECT, ORDER BY, LIMIT and
-- UPDATE do with them.
use Prim.Native.Nat.{ℕ, zero, suc, ◌+◌}
use mathlib.Core.Path.{◌≡◌, refl, sym, ap, ◌∙◌, subst}
use mathlib.Core.Logic.{◌≢◌, ◌⊎◌, inl, inr}
use mathlib.Core.Bool.{Bool, true, false}
use mathlib.Core.List.{List, [], ◌∷◌}
use native.Mathlib.Omega.{arith}
use rt_financial_anomaly_det.Prelude.Tests.{◌==◌, ==_iff, leb, if◌then◌else◌, Bool-cases}
use rt_financial_anomaly_det.Prelude.Lists.{length, take, All}
use rt_financial_anomaly_det.Prelude.Rows.{select, update, insert_by, order_by, update_unmatched}

module _ {ℓ κ} {A : Type ℓ} (P : A → Type κ) where
  All-if : (b : Bool) (x : A) (xs : List A) → P x → All P xs → All P (if b then x ∷ xs else xs)
  All-if true x xs p h = (p, h)
  All-if false x xs p h = h

  pub All-select : (w : A → Bool) (xs : List A) → All P xs → All P (select w xs)
  unfolding select
  All-select w [] h = tt
  All-select w (x ∷ xs) h = All-if (w x) x (select w xs) h.0 (All-select w xs h.1)

  pub All-if_lists :
      (b : Bool) (xs ys : List A) → All P xs → All P ys → All P (if b then xs else ys)
  All-if_lists true xs ys p h = p
  All-if_lists false xs ys p h = h

  pub All-insert_by :
      (key : A → ℕ) (x : A) (ys : List A) → P x → All P ys → All P (insert_by key x ys)
  unfolding insert_by
  All-insert_by key x [] p h = (p, tt)
  All-insert_by key x (y ∷ ys) p h =
      All-if_lists (leb (key x) (key y)) (x ∷ y ∷ ys) (y ∷ insert_by key x ys) (p, h)
        (h.0, All-insert_by key x ys p h.1)

  pub All-order_by : (key : A → ℕ) (xs : List A) → All P xs → All P (order_by key xs)
  unfolding order_by
  All-order_by key [] h = tt
  All-order_by key (x ∷ xs) h = All-insert_by key x (order_by key xs) h.0 (All-order_by key xs h.1)

  pub All-take : (n : ℕ) (xs : List A) → All P xs → All P (take n xs)
  All-take zero xs h = tt
  All-take (suc n) [] h = tt
  All-take (suc n) (x ∷ xs) h = (h.0, All-take n xs h.1)

-- The rows that pass a test, with what the test says.
pub All-selected {ℓ} :
    {A : Type ℓ} (w : A → Bool) (xs : List A) → All (λ x. w x ≡ true) (select w xs)
unfolding select
All-selected w [] = tt
All-selected w (x ∷ xs) = elim (Bool-cases (w x)) [
  | inl passes ↦ rw passes (passes, All-selected w xs)
  | inr fails ↦ rw fails (All-selected w xs)
]

module _ {ℓ} {A : Type ℓ} (key : A → ℕ) where
  abbrev pub Distinct : List A → Type 0
  Distinct [] = Unit
  Distinct (x ∷ xs) = All (λ y. key x ≢ key y) xs × Distinct xs

  Distinct-if :
      (b : Bool) (x : A) (xs : List A)
      → All (λ y. key x ≢ key y) xs
      → Distinct xs
      → Distinct (if b then x ∷ xs else xs)
  Distinct-if true x xs p h = (p, h)
  Distinct-if false x xs p h = h

  pub Distinct-select : (w : A → Bool) (xs : List A) → Distinct xs → Distinct (select w xs)
  unfolding select
  Distinct-select w [] h = tt
  Distinct-select w (x ∷ xs) h =
      Distinct-if (w x) x (select w xs) (All-select _ w xs h.0) (Distinct-select w xs h.1)

  Distinct-insert_by :
      (by : A → ℕ) (x : A) (ys : List A)
      → All (λ y. key x ≢ key y) ys
      → Distinct ys
      → Distinct (insert_by by x ys)
  unfolding insert_by
  Distinct-insert_by by x [] p h = (tt, tt)
  Distinct-insert_by by x (y ∷ ys) p h = elim (Bool-cases (leb (by x) (by y))) [
    | inl first ↦ rw first (p, h)
    | inr later ↦ rw later (
      All-insert_by (λ z. key y ≢ key z) by x ys (λ e. p.0 (sym e)) h.0,
      Distinct-insert_by by x ys p.1 h.1,
    )
  ]

  pub Distinct-order_by : (by : A → ℕ) (xs : List A) → Distinct xs → Distinct (order_by by xs)
  unfolding order_by
  Distinct-order_by by [] h = tt
  Distinct-order_by by (x ∷ xs) h =
      Distinct-insert_by by x (order_by by xs) (All-order_by _ by xs h.0)
        (Distinct-order_by by xs h.1)

  pub Distinct-take : (n : ℕ) (xs : List A) → Distinct xs → Distinct (take n xs)
  Distinct-take zero xs h = tt
  Distinct-take (suc n) [] h = tt
  Distinct-take (suc n) (x ∷ xs) h = (All-take _ n xs h.0, Distinct-take n xs h.1)

  -- `WHERE key = k` on rows that have other keys
  select_other : (k : ℕ) (xs : List A) → All (λ y. k ≢ key y) xs → select (λ y. key y == k) xs ≡ []
  unfolding select
  select_other k [] h = refl
  select_other k (x ∷ xs) h = ground (arith, select_other k xs h.1)

  -- A key has no row or one.
  pub select_key-cases :
      (k : ℕ) (xs : List A)
      → Distinct xs
      → (select (λ y. key y == k) xs ≡ []) ⊎ ((x : A) × (select (λ y. key y == k) xs ≡ x ∷ []))
  unfolding select
  select_key-cases k [] h = inl refl
  select_key-cases k (x ∷ xs) h = elim (Bool-cases (key x == k)) [
    | inl hit ↦
        let same : key x ≡ k = (==_iff (key x) k).0 hit in
        let others = select_other k xs (subst (λ i. All (λ y. i ≢ key y) xs) same h.0) in
        inr (x, rw hit (ap (λ ys. x ∷ ys) others))
    | inr miss ↦ rw miss (select_key-cases k xs h.1)
  ]

  abbrev pub IsOnly : List A → A → Type ℓ
  IsOnly xs x = select (λ y. key y == key x) xs ≡ x ∷ []

  IsOnly-cons : (x : A) (xs : List A) (y : A) → key x ≢ key y → IsOnly xs y → IsOnly (x ∷ xs) y
  unfolding select
  IsOnly-cons x xs y ne h = ground arith

  IsOnly-head : (x : A) (xs : List A) → All (λ y. key x ≢ key y) xs → IsOnly (x ∷ xs) x
  unfolding select
  IsOnly-head x xs h = ground (arith, select_other (key x) xs h)

  IsOnly-tail :
      (x : A) (xs ys : List A)
      → All (λ y. key x ≢ key y) ys
      → All (IsOnly xs) ys
      → All (IsOnly (x ∷ xs)) ys
  IsOnly-tail x xs [] ne h = tt
  IsOnly-tail x xs (y ∷ ys) ne h = (IsOnly-cons x xs y ne.0 h.0, IsOnly-tail x xs ys ne.1 h.1)

  -- Each row of a table with distinct keys is the only one with its key.
  pub Distinct-IsOnly : (xs : List A) → Distinct xs → All (IsOnly xs) xs
  Distinct-IsOnly [] h = tt
  Distinct-IsOnly (x ∷ xs) h =
      (IsOnly-head x xs h.0, IsOnly-tail x xs xs h.0 (Distinct-IsOnly xs h.1))

-- The sum of a weight over the rows.
abbrev pub sum {ℓ} : {A : Type ℓ} → (A → ℕ) → List A → ℕ
sum weight [] = 0
sum weight (x ∷ xs) = weight x + sum weight xs

-- An UPDATE that hits one row moves the sum by that row's weight.
pub sum-update_one {ℓ} :
    {A : Type ℓ} (weight : A → ℕ) (w : A → Bool) (f : A → A) (xs : List A) (x : A)
    → select w xs ≡ x ∷ []
    → sum weight (update w f xs) + weight x ≡ sum weight xs + weight (f x)
unfolding select update
sum-update_one weight w f [] x h = cc
sum-update_one weight w f (y ∷ ys) x h = elim (Bool-cases (w y)) [
  | inl hit ↦ ground (arith, update_unmatched w f ys)
  | inr miss ↦ ground (arith, sum-update_one weight w f ys x)
]

module _ {ℓ} {A : Type ℓ} (key : A → ℕ) (w : A → Bool) (f : A → A)
    (keeps : (x : A) → key (f x) ≡ key x) where
  key-if : (b : Bool) (x : A) → key (if b then f x else x) ≡ key x
  key-if true x = keeps x
  key-if false x = refl

  ne-update : (k : ℕ) (xs : List A) → All (λ y. k ≢ key y) xs → All (λ y. k ≢ key y) (update w f xs)
  unfolding update
  ne-update k [] h = tt
  ne-update k (x ∷ xs) h = ((λ e. h.0 (e ∙ key-if (w x) x)), ne-update k xs h.1)

  -- An UPDATE that keeps the keys keeps them distinct.
  pub Distinct-update : (xs : List A) → Distinct key xs → Distinct key (update w f xs)
  unfolding update
  Distinct-update [] h = tt
  Distinct-update (x ∷ xs) h = (
    subst (λ k. All (λ y. k ≢ key y) (update w f xs)) (sym (key-if (w x) x))
        (ne-update (key x) xs h.0),
    Distinct-update xs h.1,
  )

module _ {ℓ} {A : Type ℓ} where
  insert_by-ne-nil : (by : A → ℕ) (x : A) (ys : List A) → insert_by by x ys ≢ []
  unfolding insert_by
  insert_by-ne-nil by x [] e = cc
  insert_by-ne-nil by x (y ∷ ys) e = ground arith

  -- Where a LIMIT of at least one leaves nothing, nothing was selected.
  pub limit_empty :
      (n : ℕ) (by : A → ℕ) (xs : List A) → length (take (suc n) (order_by by xs)) ≡ 0 → xs ≡ []
  limit_empty n by [] h = refl
  limit_empty n by (x ∷ xs) h = absurd (
      insert_by-ne-nil by x (order_by by xs)
        (taken_all (insert_by by x (order_by by xs)) (unfold order_by in h)))
    where
      taken_all : (ys : List A) → length (take (suc n) ys) ≡ 0 → ys ≡ []
      taken_all [] e = refl
      taken_all (y ∷ ys) e = absurd (omega arith)

  pub take-nil : (n : ℕ) → take {A = A} n [] ≡ []
  take-nil zero = refl
  take-nil (suc n) = refl
