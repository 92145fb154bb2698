-- ===== src/Alerts/Queries/Selected.antt =====
-- Which alerts the list holds, and in which order.
use mathlib.Core.List.{Perm}
use mathlib.Core.List.Perm
use rt_financial_anomaly_det.Prelude.{
  ℕ, ◌≤◌, ◌≡◌, refl, ap, arith, leb, List, [], ◌∷◌, All, Bool, true, false, Bool-cases, inl, inr,
  ◌↔◌, ◌&&◌, ◌==◌, Option, none, some,
}
use rt_financial_anomaly_det.Prelude.Keys.{All-if_lists}
use rt_financial_anomaly_det.Shared.Enums.{
  AlertStatus, AlertSeverity, alert_rank, same_status, same_status_lem, severity_rank,
}
use rt_financial_anomaly_det.Shared.Models.{Alert}
use rt_financial_anomaly_det.Alerts.Queries.{
  AlertFilter, AlertSummaryItem, passes, given, insert_newest, newest_first,
}

-- None is newer than one before it.
abbrev pub NewestFirst : List Alert → Type 0
NewestFirst [] = Unit
NewestFirst (a ∷ rest) = All (λ (b : Alert). b.created_at ≤ a.created_at) rest × NewestFirst rest

-- what the list tells of an alert
abbrev pub told : Alert → AlertSummaryItem
told a = record {
  id = a.id;
  transaction_id = a.transaction_id;
  user_id = a.user_id;
  status = a.status;
  severity = a.severity;
  composite_risk_score = a.composite_risk_score;
  is_demo = a.is_demo;
  created_at = a.created_at;
}

-- A condition of a parameter, where it is given.
abbrev pub WhereGiven : {A : Type 0} → Option A → (A → Type 0) → Type 0
WhereGiven none P = Unit
WhereGiven (some a) P = P a

abbrev pub Matches : AlertFilter → Alert → Type 0
Matches f a =
    WhereGiven f.status (λ status. a.status ≡ status)
    × WhereGiven f.severity (λ severity. a.severity ≡ severity)
    × WhereGiven f.from_time (λ t. t ≤ a.created_at)
    × WhereGiven f.to_time (λ t. a.created_at ≤ t)

insert_newest-Perm : (a : Alert) (xs : List Alert) → Perm (insert_newest a xs) (a ∷ xs)
unfolding insert_newest
insert_newest-Perm a [] = Perm.refl _
insert_newest-Perm a (b ∷ rest) = elim (Bool-cases (leb b.created_at a.created_at)) [
  | inl newer ↦ rw newer (Perm.refl _)
  | inr older ↦ rw older (Perm.trans (Perm.cons b (insert_newest-Perm a rest)) (Perm.swap a b rest))
]

pub newest_first-Perm : (xs : List Alert) → Perm (newest_first xs) xs
unfolding newest_first
newest_first-Perm [] = Perm.refl _
newest_first-Perm (a ∷ rest) =
    Perm.trans (insert_newest-Perm a (newest_first rest)) (Perm.cons a (newest_first-Perm rest))

All-older :
    (a b : Alert) (xs : List Alert)
    → b.created_at ≤ a.created_at
    → All (λ (c : Alert). c.created_at ≤ b.created_at) xs
    → All (λ (c : Alert). c.created_at ≤ a.created_at) xs
All-older a b [] h all = tt
All-older a b (c ∷ xs) h all = (omega (arith, all.0), All-older a b xs h all.1)

All-insert_newest :
    (a b : Alert) (xs : List Alert)
    → a.created_at ≤ b.created_at
    → All (λ (c : Alert). c.created_at ≤ b.created_at) xs
    → All (λ (c : Alert). c.created_at ≤ b.created_at) (insert_newest a xs)
unfolding insert_newest
All-insert_newest a b [] h all = (h, tt)
All-insert_newest a b (c ∷ xs) h all =
    All-if_lists (λ (c : Alert). c.created_at ≤ b.created_at) (leb c.created_at a.created_at)
      (a ∷ c ∷ xs) (c ∷ insert_newest a xs) (h, all) (all.0, All-insert_newest a b xs h all.1)

insert_newest-NewestFirst :
    (a : Alert) (xs : List Alert) → NewestFirst xs → NewestFirst (insert_newest a xs)
unfolding insert_newest
insert_newest-NewestFirst a [] h = (tt, tt)
insert_newest-NewestFirst a (b ∷ rest) h = elim (Bool-cases (leb b.created_at a.created_at)) [
  | inl newer ↦
      let below : b.created_at ≤ a.created_at = ground (arith, newer) in
      rw newer ((below, All-older a b rest below h.0), h)
  | inr older ↦
      let above : a.created_at ≤ b.created_at = ground (arith, older) in
      rw older (All-insert_newest a b rest above h.0, insert_newest-NewestFirst a rest h.1)
]

pub newest_first-NewestFirst : (xs : List Alert) → NewestFirst (newest_first xs)
unfolding newest_first
newest_first-NewestFirst [] = tt
newest_first-NewestFirst (a ∷ rest) =
    insert_newest-NewestFirst a (newest_first rest) (newest_first-NewestFirst rest)

and_iff :
    {P Q : Type 0} (a b : Bool) → (a ≡ true) ↔ P → (b ≡ true) ↔ Q → ((a && b) ≡ true) ↔ (P × Q)
and_iff true b p q = ((λ h. (p.0 refl, q.0 h)), (λ h. q.1 h.1))
and_iff false b p q = ((λ h. absurd (ground (arith, h))), (λ h. absurd (ground (arith, p.1 h.0))))

given_iff :
    {A : Type 0} {P : A → Type 0} (o : Option A) (test : A → Bool)
    → ((a : A) → (test a ≡ true) ↔ P a)
    → (given o test ≡ true) ↔ WhereGiven o P
given_iff none test h = ((λ e. tt), (λ u. refl))
given_iff (some a) test h = h a

same_status_iff : (a b : AlertStatus) → (same_status a b ≡ true) ↔ (a ≡ b)
same_status_iff a b = (same_status_lem a b, (λ e. ground (arith, ap alert_rank e)))

severity_iff : (a b : AlertSeverity) → ((severity_rank a == severity_rank b) ≡ true) ↔ (a ≡ b)
severity_iff a b = ((λ h. ground arith), (λ e. ground (arith, ap severity_rank e)))

leb_iff : (a b : ℕ) → (leb a b ≡ true) ↔ (a ≤ b)
leb_iff a b = ((λ h. ground arith), (λ h. ground arith))

pub passes_iff : (f : AlertFilter) (a : Alert) → (passes f a ≡ true) ↔ Matches f a
unfolding passes
passes_iff f a =
    let both =
      and_iff _ _
        (and_iff _ _
          (and_iff _ _ (given_iff f.status (λ x. same_status a.status x) (same_status_iff a.status))
            (given_iff f.severity (λ x. severity_rank a.severity == severity_rank x)
              (severity_iff a.severity)))
          (given_iff f.from_time (λ t. leb t a.created_at) (λ t. leb_iff t a.created_at)))
        (given_iff f.to_time (λ t. leb a.created_at t) (λ t. leb_iff a.created_at t)) in
    (
      (λ h. let (((x, y), z), w) = both.0 h in (x, y, z, w)),
      (λ h. let (x, y, z, w) = h in both.1 (((x, y), z), w)),
    )
