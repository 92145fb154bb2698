-- ===== src/Admin/FraudRules.antt =====
-- `FraudRuleAdmin` of services/admin/fraud_rules/admin.py on the tables of fraud rules and of their
-- audit entries. A request is one step that runs to its end: Django wraps a save and a single
-- deletion in a transaction, but not the deletion of many, whose failure in between is left out. Forms
-- and permissions are Django's.
use rt_financial_anomaly_det.Prelude.{
  ℕ, String, Bool, not, Option, none, some, List, [], ◌∷◌, ◌++◌, any, head?, select, update, ◌==◌,
  if◌then◌else◌,
}
use rt_financial_anomaly_det.Shared.Json.{uuid, text, flag, object, Fields, dict}
use rt_financial_anomaly_det.Shared.Models.{FraudRule}

-- an entry about a rule; the other columns have their defaults
pub record RuleAudit : Type 0 where
  pub actor : String
  pub action : String
  pub entity_type : String
  pub entity_id : ℕ
  pub before : Option Fields
  pub after : Option Fields

pub record RuleTables : Type 0 where
  pub rules : List FraudRule
  pub audit : List RuleAudit

abbrev pub has_pk : ℕ → FraudRule → Bool
has_pk id rule = rule.id == id

unfoldable pub get_rule_snapshot : FraudRule → Fields
get_rule_snapshot rule = dict (
    ("id", uuid rule.id)
    ∷ ("name", text rule.name)
    ∷ ("rule_type", text rule.rule_type)
    ∷ ("parameters", object rule.parameters)
    ∷ ("severity", text rule.severity)
    ∷ ("enabled", flag rule.enabled)
    ∷ [])

-- the user's name, or none for a request without a user
abbrev pub actor_of : Option String → String
actor_of none = "django_admin"
actor_of (some username) = username

abbrev pub snapshot_of : Option FraudRule → Option Fields
unfolding get_rule_snapshot
snapshot_of none = none
snapshot_of (some rule) = some (get_rule_snapshot rule)

-- the snapshot of `FraudRule.objects.get(pk=id)`, none where there is no such rule
unfoldable pub stored_snapshot : ℕ → List FraudRule → Option Fields
unfolding snapshot_of
stored_snapshot id rules = snapshot_of (head? (select (has_pk id) rules))

-- `obj.save()`: the row of the key is replaced, or one is added
unfoldable pub save_row : FraudRule → List FraudRule → List FraudRule
save_row obj rules =
    if any (has_pk obj.id) rules
    then update (has_pk obj.id) (λ row. obj) rules
    else rules ++ obj ∷ []

unfoldable pub save_model : Option String → FraudRule → Bool → RuleTables → RuleTables
unfolding stored_snapshot save_row get_rule_snapshot
save_model user obj change s =
    let entry : RuleAudit = record {
      actor = actor_of user;
      action = if change then "RULE_UPDATE" else "RULE_CREATE";
      entity_type = "FraudRule";
      entity_id = obj.id;
      before = if change then stored_snapshot obj.id s.rules else none;
      after = some (get_rule_snapshot obj);
    } in
    record { rules = save_row obj s.rules; audit = s.audit ++ entry ∷ [] }

unfoldable pub delete_entry : Option String → FraudRule → RuleAudit
unfolding get_rule_snapshot
delete_entry user obj = record {
  actor = actor_of user;
  action = "RULE_DELETE";
  entity_type = "FraudRule";
  entity_id = obj.id;
  before = some (get_rule_snapshot obj);
  after = none;
}

unfoldable pub delete_row : FraudRule → List FraudRule → List FraudRule
delete_row obj rules = select (λ row. not (has_pk obj.id row)) rules

unfoldable pub delete_model : Option String → FraudRule → RuleTables → RuleTables
unfolding delete_entry delete_row
delete_model user obj s = record {
  rules = delete_row obj s.rules;
  audit = s.audit ++ delete_entry user obj ∷ [];
}

-- the loop over the queryset, which writes the entries
unfoldable pub delete_entries : Option String → List FraudRule → List RuleAudit → List RuleAudit
unfolding delete_entry
delete_entries user [] audit = audit
delete_entries user (obj ∷ rest) audit =
    delete_entries user rest (audit ++ delete_entry user obj ∷ [])

-- `queryset.delete()`
unfoldable pub delete_rows : List FraudRule → List FraudRule → List FraudRule
unfolding delete_row
delete_rows [] rules = rules
delete_rows (obj ∷ rest) rules = delete_rows rest (delete_row obj rules)

unfoldable pub delete_queryset : Option String → List FraudRule → RuleTables → RuleTables
unfolding delete_entries delete_rows
delete_queryset user queryset s = record {
  rules = delete_rows queryset s.rules;
  audit = delete_entries user queryset s.audit;
}
