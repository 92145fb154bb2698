-- ===== src/Prelude/Rows.antt =====
-- Tables as lists of rows: `SELECT ... WHERE`, `UPDATE ... WHERE` and `ORDER BY` (ascending,
-- stable). A `WHERE` clause is a Boolean test on the row.
use Prim.Native.Nat.{ℕ}
use mathlib.Core.Path.{◌≡◌, refl}
use mathlib.Core.Bool.{Bool, true, false, ◌&&◌}
use mathlib.Core.List.{List, [], ◌∷◌, map}
use native.Mathlib.Omega.{arith}
use rt_financial_anomaly_det.Prelude.Tests.{leb, if◌then◌else◌}
use rt_financial_anomaly_det.Prelude.Lists.{length, All}

module _ {ℓ} {A : Type ℓ} where
  unfoldable pub select : (A → Bool) → List A → List A
  select where_ [] = []
  select where_ (x ∷ xs) = let rest = select where_ xs in if where_ x then x ∷ rest else rest

  unfoldable pub update : (A → Bool) → (A → A) → List A → List A
  update where_ set_ [] = []
  update where_ set_ (x ∷ xs) = (if where_ x then set_ x else x) ∷ update where_ set_ xs

  unfoldable pub insert_by : (A → ℕ) → A → List A → List A
  insert_by key x [] = x ∷ []
  insert_by key x (y ∷ ys) =
      let later = y ∷ insert_by key x ys in if leb (key x) (key y) then x ∷ y ∷ ys else later

  unfoldable pub order_by : (A → ℕ) → List A → List A
  unfolding insert_by
  order_by key [] = []
  order_by key (x ∷ xs) = insert_by key x (order_by key xs)

  unfoldable pub matches : (A → Bool) → List A → ℕ
  unfolding select
  matches where_ xs = length (select where_ xs)

  pub length-update : (w : A → Bool) (f : A → A) (xs : List A) → length (update w f xs) ≡ length xs
  unfolding update
  length-update w f [] = refl
  length-update w f (x ∷ xs) = omega (arith, length-update w f xs)

  pub select-and :
      (p q : A → Bool) (xs : List A) → select (λ x. p x && q x) xs ≡ select q (select p xs)
  unfolding select
  select-and p q [] = refl
  select-and p q (x ∷ xs) = ground (arith, select-and p q xs)

  -- An UPDATE that keeps a test changes the rows that pass it in place.
  pub select-update :
      (p w : A → Bool) (f : A → A)
      → ((x : A) → p (f x) ≡ p x)
      → (xs : List A) → select p (update w f xs) ≡ map (λ x. if w x then f x else x) (select p xs)
  unfolding select update
  select-update p w f keeps [] = refl
  select-update p w f keeps (x ∷ xs) = ground (arith, keeps x, select-update p w f keeps xs)

  -- Where no row passes the test, an UPDATE changes nothing.
  pub update_unmatched :
      (w : A → Bool) (f : A → A) (xs : List A) → select w xs ≡ [] → update w f xs ≡ xs
  unfolding select update
  update_unmatched w f [] h = refl
  update_unmatched w f (x ∷ xs) h = ground (arith, update_unmatched w f xs)

  pub select_sound :
      (p : A → Bool) (xs : List A) (a : A) (ys : List A) → select p xs ≡ a ∷ ys → p a ≡ true
  unfolding select
  select_sound p [] a ys h = cc
  select_sound p (x ∷ xs) a ys h = ground (arith, select_sound p xs a ys)

All-update_row {ℓ κ μ} :
    {A : Type ℓ} (P : A → Type κ) (Q : A → Type μ) (b : Bool) (f : A → A) (x : A)
    → (P x → Q x)
    → (b ≡ true → P x → Q (f x))
    → P x
    → Q (if b then f x else x)
All-update_row P Q true f x keep change p = change refl p
All-update_row P Q false f x keep change p = keep p

-- What an UPDATE makes of a property of all rows.
pub All-update {ℓ κ μ} :
    {A : Type ℓ} {P : A → Type κ} {Q : A → Type μ} (w : A → Bool) (f : A → A)
    → ((x : A) → P x → Q x)
    → ((x : A) → w x ≡ true → P x → Q (f x))
    → (xs : List A) → All P xs
    → All Q (update w f xs)
unfolding update
All-update w f keep change [] h = tt
All-update {P} {Q} w f keep change (x ∷ xs) h =
    (All-update_row P Q (w x) f x (keep x) (change x) h.0, All-update w f keep change xs h.1)
