-- ===== src/Admin/Replay.antt =====
-- The audit log against the rules: who reads the log knows the table.
use rt_financial_anomaly_det.Prelude.{
  ℕ, ◌≡◌, refl, sym, ◌∙◌, ap, arith, String, Bool, true, false, Option, none, some, List, [], ◌∷◌,
  ◌++◌, any, select, update, ◌==◌, if◌then◌else◌, Bool-cases, inl, inr,
}
use rt_financial_anomaly_det.Shared.Json.{Fields}
use rt_financial_anomaly_det.Shared.Models.{FraudRule}
use rt_financial_anomaly_det.Admin.FraudRules.{
  RuleAudit, RuleTables, has_pk, get_rule_snapshot, stored_snapshot, save_row, save_model,
  delete_entry, delete_row, delete_model, delete_entries, delete_rows, delete_queryset,
}

-- a request of the admin site
pub data AdminRequest : Type 0 where
  save : Option String → FraudRule → Bool → AdminRequest
  delete : Option String → FraudRule → AdminRequest
  delete_many : Option String → List FraudRule → AdminRequest

unfoldable pub run_request : AdminRequest → RuleTables → RuleTables
run_request (save user obj change) s = save_model user obj change s
run_request (delete user obj) s = delete_model user obj s
run_request (delete_many user queryset) s = delete_queryset user queryset s

unfoldable pub run_requests : List AdminRequest → RuleTables → RuleTables
run_requests [] s = s
run_requests (r ∷ rest) s = run_requests rest (run_request r s)

-- what the entries say of a rule: the last one on it
abbrev pub replay : ℕ → List RuleAudit → Option Fields → Option Fields
replay id [] state = state
replay id (entry ∷ rest) state =
    replay id rest (if entry.entity_id == id then entry.after else state)

-- The audit log tells every rule of the table, and that there are no others.
abbrev pub Tells : RuleTables → Type 0
Tells s = (id : ℕ) → stored_snapshot id s.rules ≡ replay id s.audit none

replay-append :
    (id : ℕ) (xs : List RuleAudit) (entry : RuleAudit) (state : Option Fields)
    → replay id (xs ++ entry ∷ []) state
      ≡ (if entry.entity_id == id then entry.after else replay id xs state)
replay-append id [] entry state = refl
replay-append id (x ∷ xs) entry state =
    replay-append id xs entry (if x.entity_id == id then x.after else state)

module _ (obj : FraudRule) (id : ℕ) where
  snapshot-update_other :
      (rules : List FraudRule)
      → (obj.id == id) ≡ false
      → stored_snapshot id (update (has_pk obj.id) (λ row. obj) rules) ≡ stored_snapshot id rules
  unfolding stored_snapshot select update
  snapshot-update_other [] h = refl
  snapshot-update_other (x ∷ rest) h = ground (arith, snapshot-update_other rest h)

  snapshot-update_same :
      (rules : List FraudRule)
      → (obj.id == id) ≡ true
      → any (has_pk obj.id) rules ≡ true
      → stored_snapshot id (update (has_pk obj.id) (λ row. obj) rules)
        ≡ some (get_rule_snapshot obj)
  unfolding stored_snapshot select update
  snapshot-update_same [] same h = cc
  snapshot-update_same (x ∷ rest) same h = ground (arith, snapshot-update_same rest same)

  snapshot-update :
      (rules : List FraudRule)
      → any (has_pk obj.id) rules ≡ true
      → stored_snapshot id (update (has_pk obj.id) (λ row. obj) rules)
        ≡ (if obj.id == id then some (get_rule_snapshot obj) else stored_snapshot id rules)
  snapshot-update rules h = elim (Bool-cases (obj.id == id)) [
    | inl same ↦ rw same (snapshot-update_same rules same h)
    | inr other ↦ rw other (snapshot-update_other rules other)
  ]

  snapshot-append :
      (rules : List FraudRule)
      → any (has_pk obj.id) rules ≡ false
      → stored_snapshot id (rules ++ obj ∷ [])
        ≡ (if obj.id == id then some (get_rule_snapshot obj) else stored_snapshot id rules)
  unfolding stored_snapshot select
  snapshot-append [] h = ground arith
  snapshot-append (x ∷ rest) h = ground (arith, snapshot-append rest)

  snapshot-save_row :
      (rules : List FraudRule)
      → stored_snapshot id (save_row obj rules)
        ≡ (if obj.id == id then some (get_rule_snapshot obj) else stored_snapshot id rules)
  unfolding save_row
  snapshot-save_row rules = elim (Bool-cases (any (has_pk obj.id) rules)) [
    | inl known ↦ rw known (snapshot-update rules known)
    | inr new ↦ rw new (snapshot-append rules new)
  ]

  snapshot-delete_row :
      (rules : List FraudRule)
      → stored_snapshot id (delete_row obj rules)
        ≡ (if obj.id == id then none else stored_snapshot id rules)
  unfolding stored_snapshot delete_row select
  snapshot-delete_row [] = ground arith
  snapshot-delete_row (x ∷ rest) = ground (arith, snapshot-delete_row rest)

save-Tells :
    (user : Option String) (obj : FraudRule) (change : Bool) (s : RuleTables)
    → Tells s
    → Tells (save_model user obj change s)
unfolding save_model
save-Tells user obj change s h id =
    snapshot-save_row obj id s.rules
    ∙ ap (λ o. if obj.id == id then some (get_rule_snapshot obj) else o) (h id)
    ∙ sym (replay-append id s.audit _ none)

delete-Tells :
    (user : Option String) (obj : FraudRule) (s : RuleTables)
    → Tells s
    → Tells (delete_model user obj s)
unfolding delete_model delete_entry
delete-Tells user obj s h id =
    snapshot-delete_row obj id s.rules
    ∙ ap (λ o. if obj.id == id then none else o) (h id)
    ∙ sym (replay-append id s.audit (delete_entry user obj) none)

delete_queryset-Tells :
    (user : Option String) (queryset : List FraudRule) (s : RuleTables)
    → Tells s
    → Tells (delete_queryset user queryset s)
unfolding delete_queryset delete_rows delete_entries delete_model
delete_queryset-Tells user [] s h = h
delete_queryset-Tells user (obj ∷ rest) s h =
    delete_queryset-Tells user rest (delete_model user obj s) (delete-Tells user obj s h)

run_request-Tells : (r : AdminRequest) (s : RuleTables) → Tells s → Tells (run_request r s)
unfolding run_request
run_request-Tells (save user obj change) s h = save-Tells user obj change s h
run_request-Tells (delete user obj) s h = delete-Tells user obj s h
run_request-Tells (delete_many user queryset) s h = delete_queryset-Tells user queryset s h

-- Whatever is saved and deleted on the admin site, one rule or many, by whomever, in requests that run
-- to their end: if the audit log
-- tells the rules before, the last entry on each id tells its rule afterwards, or that there is none.
pub run_requests-Tells :
    (requests : List AdminRequest) (s : RuleTables) → Tells s → Tells (run_requests requests s)
unfolding run_requests
run_requests-Tells [] s h = h
run_requests-Tells (r ∷ rest) s h =
    run_requests-Tells rest (run_request r s) (run_request-Tells r s h)
