-- ===== src/Telemetry/Ascending.antt =====
-- Sorted lists of labels: a list has the labels that were sorted, and two ascending lists of the same
-- labels are equal.
use rt_financial_anomaly_det.Prelude.{
  ℕ, ◌+◌, ◌<◌, ◌≡◌, refl, sym, ap, subst, ◌∙◌, inl, inr, String, Bool, true, ◌&&◌, [], ◌∷◌, All,
  length, select, arith, eq_iff, str_eq, if◌then◌else◌, Bool-cases,
}
use rt_financial_anomaly_det.Prelude.Keys.{All-if_lists}
use rt_financial_anomaly_det.Telemetry.Series.{Labels, pair_leb, insert_sorted, sorted}
use rt_financial_anomaly_det.Telemetry.Order.{pair_total, pair_antisym, pair_trans}

abbrev pub is_pair : String → String → String × String → Bool
is_pair name given p = str_eq p.0 name && str_eq p.1 given

abbrev pub count : String → String → Labels → ℕ
count name given ls = length (select (is_pair name given) ls)

module _ (name given : String) where
  count-cons :
      (p : String × String) (ls : Labels)
      → count name given (p ∷ ls)
        ≡ (if is_pair name given p then count name given ls + 1 else count name given ls)
  unfolding select
  count-cons p ls = elim (Bool-cases (is_pair name given p)) [
    | inl hit ↦ rw hit (omega arith)
    | inr miss ↦ rw miss refl
  ]

  count-insert :
      (p : String × String) (ls : Labels)
      → count name given (insert_sorted pair_leb p ls) ≡ count name given (p ∷ ls)
  unfolding insert_sorted select
  count-insert p [] = refl
  count-insert p (q ∷ ls) = elim (Bool-cases (pair_leb p q)) [
    | inl first ↦ rw first refl
    | inr later ↦ rw later (
        ground (
          arith,
          count-insert p ls,
          count-cons q (insert_sorted pair_leb p ls),
          count-cons p (q ∷ ls),
          count-cons q ls,
          count-cons p ls,
        ))
  ]

  pub count-sorted : (ls : Labels) → count name given (sorted pair_leb ls) ≡ count name given ls
  unfolding sorted select
  count-sorted [] = refl
  count-sorted (p ∷ ls) =
      count-insert p (sorted pair_leb ls)
      ∙ ground (arith, count-cons p (sorted pair_leb ls), count-cons p ls, count-sorted ls)

-- Each pair is at most every one behind it.
abbrev pub Ascends : Labels → Type 0
Ascends [] = Unit
Ascends (p ∷ ls) = All (λ q. pair_leb p q ≡ true) ls × Ascends ls

All-trans :
    (p q : String × String) (ls : Labels)
    → pair_leb p q ≡ true
    → All (λ r. pair_leb q r ≡ true) ls
    → All (λ r. pair_leb p r ≡ true) ls
All-trans p q [] h all = tt
All-trans p q (r ∷ ls) h all = (pair_trans p q r h all.0, All-trans p q ls h all.1)

All-insert :
    (p q : String × String) (ls : Labels)
    → pair_leb q p ≡ true
    → All (λ r. pair_leb q r ≡ true) ls
    → All (λ r. pair_leb q r ≡ true) (insert_sorted pair_leb p ls)
unfolding insert_sorted
All-insert p q [] h all = (h, tt)
All-insert p q (r ∷ ls) h all =
    All-if_lists (λ r. pair_leb q r ≡ true) (pair_leb p r) (p ∷ r ∷ ls)
      (r ∷ insert_sorted pair_leb p ls) (h, all) (all.0, All-insert p q ls h all.1)

insert-Ascends :
    (p : String × String) (ls : Labels) → Ascends ls → Ascends (insert_sorted pair_leb p ls)
unfolding insert_sorted
insert-Ascends p [] h = (tt, tt)
insert-Ascends p (q ∷ ls) h = elim (Bool-cases (pair_leb p q)) [
  | inl first ↦ rw first ((first, All-trans p q ls first h.0), h)
  | inr later ↦ rw later (All-insert p q ls (pair_total p q later) h.0, insert-Ascends p ls h.1)
]

pub sorted-Ascends : (ls : Labels) → Ascends (sorted pair_leb ls)
unfolding sorted
sorted-Ascends [] = tt
sorted-Ascends (p ∷ ls) = insert-Ascends p (sorted pair_leb ls) (sorted-Ascends ls)

pair_refl : (p : String × String) → pair_leb p p ≡ true
pair_refl p = elim (Bool-cases (pair_leb p p)) [ inl h ↦ h | inr h ↦ pair_total p p h ]

is_pair_lem : (p q : String × String) → is_pair p.0 p.1 q ≡ true → q ≡ p
is_pair_lem p q h =
    let a = (eq_iff q.0 p.0).0 (ground (arith, h)) in
    let b = (eq_iff q.1 p.1).0 (ground (arith, h)) in λ i. (a i, b i)

is_pair_refl : (p : String × String) → is_pair p.0 p.1 p ≡ true
is_pair_refl p = rw ((eq_iff p.0 p.0).1 refl, (eq_iff p.1 p.1).1 refl) refl

-- What holds of all pairs holds of one that is there.
All-counted :
    (P : String × String → Type 0) (p : String × String) (ls : Labels)
    → All P ls
    → 0 < count p.0 p.1 ls
    → P p
unfolding select
All-counted P p [] all h = absurd (omega (arith, h))
All-counted P p (q ∷ ls) all h = elim (Bool-cases (is_pair p.0 p.1 q)) [
  | inl hit ↦ subst P (is_pair_lem p q hit) all.0
  | inr miss ↦ All-counted P p ls all.1 (ground (arith, count-cons p.0 p.1 q ls, h, miss))
]

head_counted : (p : String × String) (ls : Labels) → 0 < count p.0 p.1 (p ∷ ls)
head_counted p ls = ground (arith, count-cons p.0 p.1 p ls, is_pair_refl p)

cons-path : {x y : String × String} {xs ys : Labels} → x ≡ y → xs ≡ ys → x ∷ xs ≡ y ∷ ys
cons-path p q = λ i. p i ∷ q i

-- Two ascending lists of the same pairs are equal.
pub ascending_unique :
    (xs ys : Labels)
    → Ascends xs
    → Ascends ys
    → ((name given : String) → count name given xs ≡ count name given ys)
    → xs ≡ ys
unfolding select
ascending_unique [] [] hx hy same = refl
ascending_unique [] (q ∷ ys) hx hy same = absurd (omega (arith, same q.0 q.1, head_counted q ys))
ascending_unique (p ∷ xs) [] hx hy same = absurd (omega (arith, same p.0 p.1, head_counted p xs))
ascending_unique (p ∷ xs) (q ∷ ys) hx hy same =
    let q_first : pair_leb q p ≡ true =
      All-counted (λ r. pair_leb q r ≡ true) p (q ∷ ys) (pair_refl q, hy.0)
        (subst (λ n. 0 < n) (same p.0 p.1) (head_counted p xs)) in
    let p_first : pair_leb p q ≡ true =
      All-counted (λ r. pair_leb p r ≡ true) q (p ∷ xs) (pair_refl p, hx.0)
        (subst (λ n. 0 < n) (sym (same q.0 q.1)) (head_counted q ys)) in
    let one = pair_antisym p q p_first q_first in
    cons-path one (
      ascending_unique xs ys hx.1 hy.1 (λ name given.
        let here : is_pair name given p ≡ is_pair name given q = ap (is_pair name given) one in
        ground
          (arith, same name given, here, count-cons name given p xs, count-cons name given q ys)))
