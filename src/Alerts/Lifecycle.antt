-- ===== src/Alerts/Lifecycle.antt =====
-- The state machine of an alert as a relation, and what it means that one state of the alerts
-- table evolves into another: rows keep their place and their identity, move along the state
-- machine, and are frozen once their status is terminal; new rows come last.
use rt_financial_anomaly_det.Prelude.{
  ◌≡◌, refl, ◌∙◌, ap, Bool, true, false, List, [], ◌∷◌, ◌++◌, if◌then◌else◌, update,
}
use rt_financial_anomaly_det.Shared.Enums.{
  AlertStatus, escalated_email, escalated_slack, is_terminal,
}
use rt_financial_anomaly_det.Shared.Models.{Alert}

-- The edges of the documented state machine.
pub data Transition : AlertStatus → AlertStatus → Type 0 where
  to_email : Transition AlertStatus.pending escalated_email
  to_slack : Transition escalated_email escalated_slack
  to_resolved : {s t : AlertStatus} → is_terminal s ≡ false → is_terminal t ≡ true → Transition s t

pub data Lifecycle : AlertStatus → AlertStatus → Type 0 where
  stay : {s : AlertStatus} → Lifecycle s s
  step : {s t u : AlertStatus} → Transition s t → Lifecycle t u → Lifecycle s u

pub Lifecycle-trans : {s t u : AlertStatus} → Lifecycle s t → Lifecycle t u → Lifecycle s u
Lifecycle-trans stay q = q
Lifecycle-trans (step e p) q = step e (Lifecycle-trans p q)

pub Lifecycle-of_eq : {s t : AlertStatus} → t ≡ s → Lifecycle s t
Lifecycle-of_eq e = rw e stay

pub record RowEvolves (a b : Alert) : Type 0 where
  pub same_id : b.id ≡ a.id
  pub same_transaction : b.transaction_id ≡ a.transaction_id
  pub same_user : b.user_id ≡ a.user_id
  pub same_severity : b.severity ≡ a.severity
  pub same_score : b.composite_risk_score ≡ a.composite_risk_score
  pub same_created : b.created_at ≡ a.created_at
  pub lifecycle : Lifecycle a.status b.status
  pub frozen : is_terminal a.status ≡ true → b ≡ a

pub RowEvolves-refl : (a : Alert) → RowEvolves a a
RowEvolves-refl a = record {
  same_id = refl;
  same_transaction = refl;
  same_user = refl;
  same_severity = refl;
  same_score = refl;
  same_created = refl;
  lifecycle = stay;
  frozen = λ _. refl;
}

pub RowEvolves-trans : {a b c : Alert} → RowEvolves a b → RowEvolves b c → RowEvolves a c
RowEvolves-trans {a} {b} {c} p q = record {
  same_id = q.same_id ∙ p.same_id;
  same_transaction = q.same_transaction ∙ p.same_transaction;
  same_user = q.same_user ∙ p.same_user;
  same_severity = q.same_severity ∙ p.same_severity;
  same_score = q.same_score ∙ p.same_score;
  same_created = q.same_created ∙ p.same_created;
  lifecycle = Lifecycle-trans p.lifecycle q.lifecycle;
  frozen = λ t. q.frozen (ap (λ (x : Alert). is_terminal x.status) (p.frozen t) ∙ t) ∙ p.frozen t;
}

abbrev pub Evolves : List Alert → List Alert → Type 0
Evolves [] ys = Unit
Evolves (x ∷ xs) [] = ⊥
Evolves (x ∷ xs) (y ∷ ys) = RowEvolves x y × Evolves xs ys

pub Evolves-refl : (xs : List Alert) → Evolves xs xs
Evolves-refl [] = tt
Evolves-refl (x ∷ xs) = (RowEvolves-refl x, Evolves-refl xs)

pub Evolves-trans : (xs ys zs : List Alert) → Evolves xs ys → Evolves ys zs → Evolves xs zs
Evolves-trans [] ys zs p q = tt
Evolves-trans (x ∷ xs) [] zs p q = elim p [ ]
Evolves-trans (x ∷ xs) (y ∷ ys) [] p q = elim q [ ]
Evolves-trans (x ∷ xs) (y ∷ ys) (z ∷ zs) p q =
    (RowEvolves-trans p.0 q.0, Evolves-trans xs ys zs p.1 q.1)

pub Evolves-append : (xs new : List Alert) → Evolves xs (xs ++ new)
Evolves-append [] new = tt
Evolves-append (x ∷ xs) new = (RowEvolves-refl x, Evolves-append xs new)

RowEvolves-if :
    (b : Bool) (x y : Alert) → (b ≡ true → RowEvolves x y) → RowEvolves x (if b then y else x)
RowEvolves-if true x y h = h refl
RowEvolves-if false x y h = RowEvolves-refl x

-- An UPDATE evolves the table where each row that it selects evolves.
pub Evolves-update :
    (w : Alert → Bool) (f : Alert → Alert)
    → ((a : Alert) → w a ≡ true → RowEvolves a (f a))
    → (xs : List Alert) → Evolves xs (update w f xs)
unfolding update
Evolves-update w f h [] = tt
Evolves-update w f h (x ∷ xs) = (RowEvolves-if (w x) x (f x) (h x), Evolves-update w f h xs)
