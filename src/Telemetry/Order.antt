-- ===== src/Telemetry/Order.antt =====
-- The order of texts, and of pairs of texts, by which the labels are sorted.
use Prim.Native.Nat.{Ordering, compare as compare_ℕ}
use Prim.Native.Char.{code}
use Prim.Native.String.{compare, then}
use Prim.Native.String.compare
use text.Mathlib.TextEquality.{path_by_compare}
use rt_financial_anomaly_det.Prelude.{ℕ, ◌≡◌, refl, sym, ap, ◌∙◌, String, Bool, true, false, arith}
use rt_financial_anomaly_det.Telemetry.Series.{pair_leb}

abbrev flip : Ordering → Ordering
flip Ordering.lt = Ordering.gt
flip Ordering.eq = Ordering.eq
flip Ordering.gt = Ordering.lt

numbers_flip : (m n : ℕ) → compare_ℕ n m ≡ flip (compare_ℕ m n)
numbers_flip m n = ground arith

then-flip : (o p : Ordering) → then (flip o) (flip p) ≡ flip (then o p)
then-flip Ordering.lt p = refl
then-flip Ordering.eq p = refl
then-flip Ordering.gt p = refl

compare-flip : (s t : String) → compare t s ≡ flip (compare s t)
compare-flip String.[] String.[] = refl
compare-flip String.[] (String.◌∷◌ d t) =
    compare.cons-nil d t ∙ ap flip (sym (compare.nil-cons d t))
compare-flip (String.◌∷◌ c s) String.[] =
    compare.nil-cons c s ∙ ap flip (sym (compare.cons-nil c s))
compare-flip (String.◌∷◌ c s) (String.◌∷◌ d t) =
    compare.cons-cons d c t s
    ∙ ap (λ o. then o (compare t s)) (numbers_flip (code c) (code d))
    ∙ ap (then (flip (compare_ℕ (code c) (code d)))) (compare-flip s t)
    ∙ then-flip (compare_ℕ (code c) (code d)) (compare s t)
    ∙ ap flip (sym (compare.cons-cons c d s t))

abbrev not_gt : Ordering → Bool
not_gt Ordering.gt = false
not_gt _ = true

heads_trans :
    (c d e : ℕ) (o p q : Ordering)
    → (not_gt o ≡ true → not_gt p ≡ true → not_gt q ≡ true)
    → not_gt (then (compare_ℕ c d) o) ≡ true
    → not_gt (then (compare_ℕ d e) p) ≡ true
    → not_gt (then (compare_ℕ c e) q) ≡ true
heads_trans c d e o p q tails h k = ground (arith, tails)

text_trans :
    (s t u : String)
    → not_gt (compare s t) ≡ true
    → not_gt (compare t u) ≡ true
    → not_gt (compare s u) ≡ true
text_trans String.[] t String.[] h k = refl
text_trans String.[] t (String.◌∷◌ e u) h k = ap not_gt (compare.nil-cons e u)
text_trans (String.◌∷◌ c s) String.[] u h k =
    absurd (ground (arith, h, ap not_gt (compare.cons-nil c s)))
text_trans (String.◌∷◌ c s) (String.◌∷◌ d t) String.[] h k =
    absurd (ground (arith, k, ap not_gt (compare.cons-nil d t)))
text_trans (String.◌∷◌ c s) (String.◌∷◌ d t) (String.◌∷◌ e u) h k =
    ap not_gt (compare.cons-cons c e s u)
    ∙ heads_trans (code c) (code d) (code e) (compare s t) (compare t u) (compare s u)
        (text_trans s t u) (sym (ap not_gt (compare.cons-cons c d s t)) ∙ h)
        (sym (ap not_gt (compare.cons-cons d e t u)) ∙ k)

-- the three answers of comparing three texts, in order
abbrev Consistent : Ordering → Ordering → Ordering → Type 0
Consistent o p q =
    (o ≡ Ordering.eq → q ≡ p)
    × (p ≡ Ordering.eq → q ≡ o)
    × (o ≡ Ordering.lt → p ≡ Ordering.lt → q ≡ Ordering.lt)

text_lt_trans :
    (s t u : String)
    → compare s t ≡ Ordering.lt
    → compare t u ≡ Ordering.lt
    → (o : Ordering) → compare s u ≡ o
    → o ≡ Ordering.lt
text_lt_trans s t u h k Ordering.lt e = refl
text_lt_trans s t u h k Ordering.eq e =
    let same = path_by_compare s u e in
    let back : compare t u ≡ Ordering.gt =
      ap (compare t) (sym same) ∙ compare-flip s t ∙ ap flip h in
    absurd (ground (arith, k, back))
text_lt_trans s t u h k Ordering.gt e =
    absurd (ground (arith, text_trans s t u (ap not_gt h) (ap not_gt k), ap not_gt e))

text-Consistent : (s t u : String) → Consistent (compare s t) (compare t u) (compare s u)
text-Consistent s t u = (
  (λ e. ap (λ x. compare x u) (path_by_compare s t e)),
  (λ e. sym (ap (compare s) (path_by_compare t u e))),
  (λ h k. text_lt_trans s t u h k (compare s u) refl),
)

abbrev pair_order : String × String → String × String → Ordering
pair_order p q = then (compare p.0 q.0) (compare p.1 q.1)

pair_leb_lem : (p q : String × String) → pair_leb p q ≡ not_gt (pair_order p q)
pair_leb_lem p q = go (compare p.0 q.0) (compare p.1 q.1)
  where
    go :
        (o r : Ordering)
        → (elim o as (λ x. Bool) [
          | Ordering.lt ↦ true
          | Ordering.eq ↦ elim r as (λ x. Bool) [ Ordering.gt ↦ false | _ ↦ true ]
          | Ordering.gt ↦ false
        ])
          ≡ not_gt (then o r)
    go Ordering.lt r = refl
    go Ordering.eq Ordering.lt = refl
    go Ordering.eq Ordering.eq = refl
    go Ordering.eq Ordering.gt = refl
    go Ordering.gt r = refl

pub pair_total : (p q : String × String) → pair_leb p q ≡ false → pair_leb q p ≡ true
pair_total p q h =
    ground (arith, pair_leb_lem p q, pair_leb_lem q p, compare-flip p.0 q.0, compare-flip p.1 q.1)

pub pair_antisym : (p q : String × String) → pair_leb p q ≡ true → pair_leb q p ≡ true → p ≡ q
pair_antisym p q h k =
    let firsts : compare p.0 q.0 ≡ Ordering.eq =
      ground (arith, pair_leb_lem p q, pair_leb_lem q p, compare-flip p.0 q.0) in
    let seconds : compare p.1 q.1 ≡ Ordering.eq = ground (
      arith,
      firsts,
      pair_leb_lem p q,
      pair_leb_lem q p,
      compare-flip p.0 q.0,
      compare-flip p.1 q.1,
    ) in
    let a = path_by_compare p.0 q.0 firsts in
    let b = path_by_compare p.1 q.1 seconds in λ i. (a i, b i)

pub pair_trans :
    (p q r : String × String) → pair_leb p q ≡ true → pair_leb q r ≡ true → pair_leb p r ≡ true
pair_trans p q r h k = ground (
  arith,
  pair_leb_lem p q,
  pair_leb_lem q r,
  pair_leb_lem p r,
  text-Consistent p.0 q.0 r.0,
  text-Consistent p.1 q.1 r.1,
)
