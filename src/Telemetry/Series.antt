-- ===== src/Telemetry/Series.antt =====
-- `BaseMetric` and the dicts of values by labels. Python's floats are a parameter: a type with the
-- operations that the module uses, `Numbers`. Locks are left out: each operation is one step.
use Prim.Native.String.{compare, ◌++◌ as str_append}
use Prim.Native.Nat.{Ordering}
use rt_financial_anomaly_det.Prelude.{
  ℕ, ◌≡◌, refl, sym, ap, subst, inl, inr, String, Bool, true, false, ◌&&◌, List, [], ◌∷◌, ◌++◌, map,
  any, arith, eq_iff, str_eq, if◌then◌else◌, Bool-cases,
}
use rt_financial_anomaly_det.Shared.Json.{Json}

-- the floats: 0.0, `a + b`, `a - b`, `a < b`, `a <= b`, `math.inf`, `math.isinf(a)`,
-- `a == b`, `f"{a}"` and `float(n)`
pub record Numbers (N : Type 0) : Type 0 where
  pub float_zero : N
  pub add : N → N → N
  pub subtract : N → N → N
  pub less : N → N → Bool
  pub at_most : N → N → Bool
  pub infinity : N
  pub is_infinite : N → Bool
  pub equal : N → N → Bool
  pub show : N → String
  pub of_count : ℕ → N

-- the items of a dict of labels
abbrev pub Labels : Type 0
Labels = List (String × String)

abbrev pub has_label : String → Labels → Bool
has_label k labels = any (λ (p : String × String). str_eq p.0 k) labels

-- the loop over `self.label_names`
unfoldable pub add_missing : List String → Labels → Labels
add_missing [] labels = labels
add_missing (k ∷ rest) labels =
    let with_k = labels ++ (k, "unknown") ∷ [] in
    add_missing rest (if has_label k labels then labels else with_k)

abbrev pub normalized : (Json → String) → List (String × Json) → Labels
normalized str labels = map (λ (p : String × Json). (p.0, str p.1)) labels

-- `_validate_labels`
unfoldable pub validate_labels : (Json → String) → List String → List (String × Json) → Labels
unfolding add_missing
validate_labels str label_names labels = add_missing label_names (normalized str labels)

-- `a <= b` on texts, and on pairs of texts
abbrev pub str_leb : String → String → Bool
str_leb a b = elim (compare a b) [ Ordering.gt ↦ false | _ ↦ true ]

abbrev pub pair_leb : String × String → String × String → Bool
pair_leb p q = elim (compare p.0 q.0) [
  | Ordering.lt ↦ true
  | Ordering.eq ↦ str_leb p.1 q.1
  | Ordering.gt ↦ false
]

-- `sorted`, which keeps the order of equal members
module _ {A : Type 0} (leb : A → A → Bool) where
  unfoldable pub insert_sorted : A → List A → List A
  insert_sorted x [] = x ∷ []
  insert_sorted x (y ∷ rest) =
      let later = y ∷ insert_sorted x rest in if leb x y then x ∷ y ∷ rest else later

  unfoldable pub sorted : List A → List A
  unfolding insert_sorted
  sorted [] = []
  sorted (x ∷ rest) = insert_sorted x (sorted rest)

-- `tuple(sorted(norm_labels.items()))`
unfoldable pub key_of : (Json → String) → List String → List (String × Json) → Labels
unfolding validate_labels sorted
key_of str label_names labels = sorted pair_leb (validate_labels str label_names labels)

-- `a <= b` on keys, as tuples compare
abbrev pub key_leb : Labels → Labels → Bool
key_leb [] ks = true
key_leb (p ∷ ps) [] = false
key_leb (p ∷ ps) (q ∷ qs) = if str_eq p.0 q.0 && str_eq p.1 q.1 then key_leb ps qs else pair_leb p q

-- `a == b` on keys
unfoldable pub key_eq : Labels → Labels → Bool
key_eq [] [] = true
key_eq [] (q ∷ qs) = false
key_eq (p ∷ ps) [] = false
key_eq (p ∷ ps) (q ∷ qs) = str_eq p.0 q.0 && str_eq p.1 q.1 && key_eq ps qs

pub key_eq_refl : (k : Labels) → key_eq k k ≡ true
unfolding key_eq
key_eq_refl [] = refl
key_eq_refl (p ∷ ps) = rw ((eq_iff p.0 p.0).1 refl, (eq_iff p.1 p.1).1 refl, key_eq_refl ps) refl

cons-path : {A : Type 0} {x y : A} {xs ys : List A} → x ≡ y → xs ≡ ys → x ∷ xs ≡ y ∷ ys
cons-path p q = λ i. p i ∷ q i

pub key_eq_lem : (j k : Labels) → key_eq j k ≡ true → j ≡ k
unfolding key_eq
key_eq_lem [] [] h = refl
key_eq_lem [] (q ∷ qs) h = cc
key_eq_lem (p ∷ ps) [] h = cc
key_eq_lem (p ∷ ps) (q ∷ qs) h =
    let a : p.0 ≡ q.0 = ground (arith, eq_iff p.0 q.0) in
    let b : p.1 ≡ q.1 = ground (arith, eq_iff p.1 q.1) in
    cons-path (λ i. (a i, b i)) (key_eq_lem ps qs (ground arith))

-- `sep.join(texts)`
unfoldable pub join : String → List String → String
join sep [] = ""
join sep (x ∷ []) = x
join sep (x ∷ y ∷ rest) = str_append x (str_append sep (join sep (y ∷ rest)))

-- f'{k}="{v}"'
abbrev pub label_pair : String × String → String
label_pair p = str_append p.0 (str_append "=\"" (str_append p.1 "\""))

-- `_format_labels`
unfoldable pub format_labels : Labels → String
unfolding sorted join
format_labels [] = ""
format_labels (p ∷ rest) =
    str_append "{" (str_append (join "," (map label_pair (sorted pair_leb (p ∷ rest)))) "}")

-- the two lines that every `collect` begins with
abbrev pub header_lines : String → String → String → List String
header_lines name description kind =
    str_append "# HELP " (str_append name (str_append " " description))
    ∷ str_append "# TYPE " (str_append name (str_append " " kind))
    ∷ []

-- f"{name}{labels} {value}"
abbrev pub value_line : String → String → String → String
value_line name labels shown = str_append name (str_append labels (str_append " " shown))

-- A dict of values by key, oldest entry first.
module _ {V : Type 0} where
  -- `d.get(key, default)`
  unfoldable pub value : V → Labels → List (Labels × V) → V
  value default k [] = default
  value default k ((j, x) ∷ rest) = if key_eq j k then x else value default k rest

  -- `d[key] = f(d[key])` on a defaultdict
  unfoldable pub alter : V → (V → V) → Labels → List (Labels × V) → List (Labels × V)
  alter default f k [] = (k, f default) ∷ []
  alter default f k ((j, x) ∷ rest) =
      let later = (j, x) ∷ alter default f k rest in if key_eq j k then (j, f x) ∷ rest else later

  value-alter_same :
      (default : V) (f : V → V) (k : Labels) (d : List (Labels × V))
      → value default k (alter default f k d) ≡ f (value default k d)
  unfolding value alter
  value-alter_same default f k [] = rw (key_eq_refl k) refl
  value-alter_same default f k ((j, x) ∷ rest) = ground (arith, value-alter_same default f k rest)

  value-alter_other :
      (default : V) (f : V → V) (j k : Labels) (d : List (Labels × V))
      → key_eq j k ≡ false
      → value default k (alter default f j d) ≡ value default k d
  unfolding value alter
  value-alter_other default f j k [] h = rw h refl
  value-alter_other default f j k ((i, x) ∷ rest) h = elim (Bool-cases (key_eq i j)) [
    | inl hit ↦ rw (hit, ap (λ i. key_eq i k) (key_eq_lem i j hit), h) refl
    | inr miss ↦ ground (arith, value-alter_other default f j k rest h)
  ]

  -- What an update of one key makes of every value.
  pub value-alter :
      (default : V) (f : V → V) (j k : Labels) (d : List (Labels × V))
      → value default k (alter default f j d)
        ≡ (if key_eq j k then f (value default k d) else value default k d)
  value-alter default f j k d = elim (Bool-cases (key_eq j k)) [
    | inl same ↦ rw same (
        subst (λ i. value default k (alter default f i d) ≡ f (value default k d))
          (sym (key_eq_lem j k same)) (value-alter_same default f k d))
    | inr other ↦ rw other (value-alter_other default f j k d other)
  ]

module _ {N : Type 0} (num : Numbers N) where
  -- the lines of the values of a counter or a gauge; without labels and values, a zero
  unfoldable pub value_lines : String → List String → List (Labels × N) → List String
  unfolding sorted format_labels
  value_lines name [] [] = str_append name " 0.0" ∷ []
  value_lines name label_names values =
      map (λ (v : Labels × N). value_line name (format_labels v.0) (num.show v.1))
        (sorted (λ (a b : Labels × N). key_leb a.0 b.0) values)
