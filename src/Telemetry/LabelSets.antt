-- ===== src/Telemetry/LabelSets.antt =====
-- The keys of the dicts of values against sets of labels: two lists of keyword arguments have one key
-- exactly if they are one set of labels, in whatever order they were given.
use rt_financial_anomaly_det.Prelude.{
  ℕ, ◌+◌, ◌≡◌, refl, sym, ap, subst, ◌∙◌, ◌↔◌, inl, inr, String, Bool, true, not, ◌&&◌, ◌||◌, List,
  [], ◌∷◌, ◌++◌, map, any, length, select, arith, eq_iff, str_eq, if◌then◌else◌, Bool-cases,
}
use rt_financial_anomaly_det.Shared.Json.{Json}
use rt_financial_anomaly_det.Prelude.Appended.{length-select_append}
use rt_financial_anomaly_det.Telemetry.Series.{
  Labels, has_label, add_missing, validate_labels, key_of, key_eq, key_eq_refl, key_eq_lem,
}
use rt_financial_anomaly_det.Telemetry.Ascending.{
  is_pair, count, count-sorted, sorted-Ascends, ascending_unique,
}

-- how often a set of labels gives a label a text: as its argument, or as "unknown", where the metric
-- has a label that no argument names
abbrev pub times_given : (Json → String) → List String → List (String × Json) → String → String → ℕ
times_given str label_names labels name given =
    length (select (λ (p : String × Json). str_eq p.0 name && str_eq (str p.1) given) labels)
    + (if any (λ l. str_eq l name) label_names
          && not (any (λ (p : String × Json). str_eq p.0 name) labels)
          && str_eq "unknown" given
        then 1
        else 0)

-- Two lists of arguments are one set of labels.
abbrev pub SameLabels :
    (Json → String) → List String → List (String × Json) → List (String × Json) → Type 0
SameLabels str label_names a b =
    (name given : String)
    → times_given str label_names a name given ≡ times_given str label_names b name given

module _ (name given : String) where
  count-normalized :
      (str : Json → String) (labels : List (String × Json))
      → count name given (map (λ (p : String × Json). (p.0, str p.1)) labels)
        ≡ length (select (λ (p : String × Json). str_eq p.0 name && str_eq (str p.1) given) labels)
  unfolding select
  count-normalized str [] = refl
  count-normalized str (p ∷ rest) = ground (arith, count-normalized str rest)

  has-normalized :
      (str : Json → String) (labels : List (String × Json))
      → has_label name (map (λ (p : String × Json). (p.0, str p.1)) labels)
        ≡ any (λ (p : String × Json). str_eq p.0 name) labels
  has-normalized str [] = refl
  has-normalized str (p ∷ rest) = ap (λ b. str_eq p.0 name || b) (has-normalized str rest)

  has-append :
      (k : String) (ls : Labels)
      → has_label name (ls ++ (k, "unknown") ∷ []) ≡ (has_label name ls || str_eq k name)
  has-append k [] = ground arith
  has-append k (p ∷ rest) = ground (arith, has-append k rest)

  count-append :
      (k : String) (ls : Labels)
      → count name given (ls ++ (k, "unknown") ∷ []) ≡ (
          if str_eq k name && str_eq "unknown" given
          then count name given ls + 1
          else count name given ls)
  count-append k ls = length-select_append (is_pair name given) ls (k, "unknown")

  same_has : (k : String) (ls : Labels) → str_eq k name ≡ true → has_label k ls ≡ has_label name ls
  same_has k ls h = ap (λ j. has_label j ls) ((eq_iff k name).0 h)

  count-add_missing :
      (names : List String) (ls : Labels)
      → count name given (add_missing names ls)
        ≡ count name given ls
          + (if any (λ l. str_eq l name) names && not (has_label name ls) && str_eq "unknown" given
              then 1
              else 0)
  unfolding add_missing
  count-add_missing [] ls = omega arith
  count-add_missing (k ∷ rest) ls = elim (Bool-cases (has_label k ls)) [
    | inl known ↦ rw known (ground (arith, count-add_missing rest ls, same_has k ls, known))
    | inr new ↦ rw new (
        ground (
          arith,
          count-add_missing rest (ls ++ (k, "unknown") ∷ []),
          has-append k ls,
          count-append k ls,
          same_has k ls,
          new,
        ))
  ]

  count-key_of :
      (str : Json → String) (label_names : List String) (labels : List (String × Json))
      → count name given (key_of str label_names labels)
        ≡ times_given str label_names labels name given
  unfolding key_of validate_labels
  count-key_of str label_names labels =
      let ls = map (λ (p : String × Json). (p.0, str p.1)) labels in
      count-sorted name given (add_missing label_names ls)
      ∙ count-add_missing label_names ls
      ∙ ap
          (λ (n : ℕ).
            n
            + (if any (λ l. str_eq l name) label_names
                  && not (has_label name ls)
                  && str_eq "unknown" given
                then 1
                else 0))
          (count-normalized str labels)
      ∙ ap
          (λ (known : Bool).
            length
              (select (λ (p : String × Json). str_eq p.0 name && str_eq (str p.1) given) labels)
            + (if any (λ l. str_eq l name) label_names && not known && str_eq "unknown" given
                then 1
                else 0))
          (has-normalized str labels)

key_of_unique :
    (str : Json → String) (label_names : List String) (a b : List (String × Json))
    → SameLabels str label_names a b
    → key_of str label_names a ≡ key_of str label_names b
unfolding key_of
key_of_unique str label_names a b same =
    ascending_unique (key_of str label_names a) (key_of str label_names b)
      (sorted-Ascends (validate_labels str label_names a))
      (sorted-Ascends (validate_labels str label_names b))
      (λ name given.
        count-key_of name given str label_names a
        ∙ same name given
        ∙ sym (count-key_of name given str label_names b))

-- Two lists of arguments have one key exactly if they are one set of labels.
pub key_of_iff :
    (str : Json → String) (label_names : List String) (a b : List (String × Json))
    → (key_eq (key_of str label_names a) (key_of str label_names b) ≡ true)
      ↔ SameLabels str label_names a b
key_of_iff str label_names a b = (
  (λ e name given.
      sym (count-key_of name given str label_names a)
      ∙ ap (count name given) (key_eq_lem (key_of str label_names a) (key_of str label_names b) e)
      ∙ count-key_of name given str label_names b),
  (λ same.
      subst (λ k. key_eq (key_of str label_names a) k ≡ true)
        (key_of_unique str label_names a b same) (key_eq_refl (key_of str label_names a))),
)
