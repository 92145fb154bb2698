-- ===== src/Gateway/Api/Answers.antt =====
-- The status of the response to a request on an alert.
use rt_financial_anomaly_det.Prelude.{
  ℕ, ◌≡◌, ◌≢◌, refl, sym, ◌∙◌, ap, String, true, Option, none, some, List, [], ◌∷◌, ◌↔◌, arith,
  Option-cases, ◌⊎◌, false, eq_iff, select, if◌then◌else◌, Bool-cases, inl, inr,
}
use rt_financial_anomaly_det.Prelude.Keys.{Distinct, select_key-cases}
use rt_financial_anomaly_det.Shared.Enums.{
  AlertStatus, approved, blocked, false_positive, is_terminal,
}
use rt_financial_anomaly_det.Shared.Errors.{value_error}
use rt_financial_anomaly_det.Shared.Json.{Fields}
use rt_financial_anomaly_det.Shared.Models.{Alert, Database}
use rt_financial_anomaly_det.Shared.Session.{Env, Result, err, in_session}
use rt_financial_anomaly_det.Detection.Values.{TextOps}
use rt_financial_anomaly_det.Alerts.Actions.{
  AlertResolutionResponse, is_resolution, has_id, resolve_alert, finish_resolution, not_resolvable,
  resolution_event,
}
use rt_financial_anomaly_det.Alerts.Actions.Races.{
  resolve_alert_missing, resolve_alert_closed, resolve_alert_open,
}
use rt_financial_anomaly_det.Gateway.Ingestion.{
  TransactionCreateRequest, TransactionAcceptedResponse, submit_transaction, finish_submission,
}
use rt_financial_anomaly_det.Gateway.Api.{
  ActionRequest, resolution_of, approve_alert, block_alert, mark_alert_false_positive,
  create_transaction, error_response, response_status, request_id, incoming_id, set_correlation_id,
  is_empty,
}

-- 404 without the alert, 409 if it is resolved already, 200 if it is open
abbrev pub status_of_rows : List Alert → ℕ
status_of_rows [] = 404
status_of_rows (a ∷ rest) = if is_terminal a.status then 409 else 200

abbrev pub expected_status : ℕ → Database → ℕ
expected_status alert_id db = status_of_rows (select (has_id alert_id) db.alerts)

module _ (parse_uuid : String → Option ℕ) (env : Env) (correlation_id : String) (q : ActionRequest)
    (db : Database) where
  abbrev answer : AlertStatus → Result AlertResolutionResponse
  answer target =
      (in_session (resolve_alert env (resolution_of parse_uuid env correlation_id target q)) db).0

  answers :
      (target : AlertStatus) (corr : ℕ)
      → is_resolution target ≡ true
      → parse_uuid correlation_id ≡ some corr
      → env.accepted ≡ true
      → Distinct (λ (a : Alert). a.id) db.alerts
      → response_status 200 (answer target) ≡ expected_status q.alert_id db
  unfolding resolution_of response_status error_response
  answers target corr resolves parsed accepted distinct =
      let r = resolution_of parse_uuid env correlation_id target q in
      elim (select_key-cases (λ (a : Alert). a.id) q.alert_id db.alerts distinct) [
        | inl missing ↦
            ap (λ (o : Result AlertResolutionResponse × Database). response_status 200 o.0)
              (resolve_alert_missing env r db (resolves, (corr, parsed)) missing)
            ∙ sym (ap status_of_rows missing)
        | inr (a, found) ↦ elim (Bool-cases (is_terminal a.status)) [
          | inl closed ↦
              ap (λ (o : Result AlertResolutionResponse × Database). response_status 200 o.0)
                (resolve_alert_closed env r db (resolves, (corr, parsed)) a found closed)
              ∙ sym (ap status_of_rows found ∙ ap (λ b. if b then 409 else 200) closed)
          | inr open_ ↦
              let (resp, done, status, at) =
                resolve_alert_open env r db (resolves, (corr, parsed)) a found open_ accepted in
              ap (response_status 200) done
              ∙ sym (ap status_of_rows found ∙ ap (λ b. if b then 409 else 200) open_)
        ]
      ]

  -- Where alerts have distinct ids, the correlation id is a UUID and the commit is accepted, each of
  -- the three endpoints answers 404 without the alert, 409 if it is resolved already, and 200 if it
  -- is open.
  pub endpoint_answers :
      (corr : ℕ)
      → parse_uuid correlation_id ≡ some corr
      → env.accepted ≡ true
      → Distinct (λ (a : Alert). a.id) db.alerts
      → let expected = expected_status q.alert_id db in
        (response_status 200 (in_session (approve_alert parse_uuid env correlation_id q) db).0
          ≡ expected)
        × (response_status 200 (in_session (block_alert parse_uuid env correlation_id q) db).0
            ≡ expected)
        × (response_status 200
              (in_session (mark_alert_false_positive parse_uuid env correlation_id q) db).0
            ≡ expected)
  unfolding approve_alert block_alert mark_alert_false_positive is_resolution
  endpoint_answers corr parsed accepted distinct = (
    answers approved corr refl parsed accepted distinct,
    answers blocked corr refl parsed accepted distinct,
    answers false_positive corr refl parsed accepted distinct,
  )

module _ (parse_uuid : String → Option ℕ) (env : Env) (correlation_id : String) (q : ActionRequest)
    (db : Database) where
  abbrev outcome : AlertStatus → Result AlertResolutionResponse × Database
  outcome target =
      in_session (resolve_alert env (resolution_of parse_uuid env correlation_id target q)) db

  resolve_bad :
      (target : AlertStatus)
      → is_resolution target ≡ true
      → parse_uuid correlation_id ≡ none
      → outcome target ≡ (err value_error, db)
  unfolding resolve_alert resolution_of
  resolve_bad target resolves bad = simp (resolves, bad)

  resolve_known :
      (target : AlertStatus) (event : String) (corr : ℕ)
      → is_resolution target ≡ true
      → resolution_event target ≡ some event
      → parse_uuid correlation_id ≡ some corr
      → response_status 200 (outcome target).0 ≢ 500
  unfolding resolve_alert resolution_of finish_resolution not_resolvable response_status
      error_response
  resolve_known target event corr resolves emits known e = ground arith

module _ (parse_uuid : String → Option ℕ) (env : Env) (correlation_id : String)
    (db : Database) where
  submit_known :
      (uuid_text : ℕ → String) (carrier : Fields) (payload : TransactionCreateRequest) (corr : ℕ)
      → parse_uuid correlation_id ≡ some corr
      → response_status 202
          (in_session
            (create_transaction parse_uuid env correlation_id uuid_text carrier payload)
            db).0
        ≢ 500
  unfolding create_transaction submit_transaction finish_submission response_status error_response
  submit_known uuid_text carrier payload corr known e = ground arith

  submit_bad :
      (uuid_text : ℕ → String) (carrier : Fields) (payload : TransactionCreateRequest)
      → parse_uuid correlation_id ≡ none
      → in_session (create_transaction parse_uuid env correlation_id uuid_text carrier payload) db
        ≡ (err value_error, db)
  unfolding create_transaction submit_transaction
  submit_bad uuid_text carrier payload bad = simp bad

empty-cases : (s : String) → ((s ≡ "") × (is_empty s ≡ true)) ⊎ ((s ≢ "") × (is_empty s ≡ false))
empty-cases s = elim (Bool-cases (is_empty s)) [
  | inl e ↦ inl ((eq_iff s "").0 e, e)
  | inr ne ↦ inr ((λ same. absurd (ground (arith, (eq_iff s "").1 same, ne))), ne)
]

-- A header that the client sent, that is not blank, and that is no UUID.
abbrev pub IsRefused : (String → Option ℕ) → TextOps → Option String → Type 0
IsRefused parse_uuid ops none = ⊥
IsRefused parse_uuid ops (some h) =
    (h ≢ "")
    × (ops.strip h ≢ "")
    × (ops.strip (ops.strip h) ≢ "")
    × (parse_uuid (ops.strip (ops.strip h)) ≡ none)

-- An answer is 500 exactly for a refused header, and nothing is written then.
abbrev pub Is500For : {A : Type 0} → Type 0 → ℕ → Database → Result A × Database → Type 0
Is500For refused success db o = (response_status success o.0 ≡ 500 ↔ refused) × (refused → o.1 ≡ db)

module _ (parse_uuid : String → Option ℕ) (ops : TextOps) (fresh other : String) (a b : ℕ)
    (stripped : ops.strip fresh ≡ fresh) (parses_fresh : parse_uuid fresh ≡ some a)
    (parses_other : parse_uuid other ≡ some b) where
  set_refused :
      (s : String)
      → (parse_uuid (set_correlation_id ops other s) ≡ none)
        ↔ ((s ≢ "") × (ops.strip s ≢ "") × (parse_uuid (ops.strip s) ≡ none))
  unfolding set_correlation_id
  set_refused s = elim (empty-cases s) [
    | inl (blank, e) ↦
        rw e ((λ n. absurd (ground (arith, parses_other, n))), (λ r. absurd (r.0 blank)))
    | inr (full, e) ↦ elim (empty-cases (ops.strip s)) [
      | inl (blank', e') ↦
          rw (e, e')
            ((λ n. absurd (ground (arith, parses_other, n))), (λ (x, y, z). absurd (y blank')))
      | inr (full', e') ↦ rw (e, e') ((λ n. (full, full', n)), (λ (x, y, z). z))
    ]
  ]

  fresh_known : parse_uuid (set_correlation_id ops other fresh) ≢ none
  fresh_known n =
      let (full, full', bad) = (set_refused fresh).0 n in
      absurd (ground (arith, parses_fresh, ap parse_uuid stripped, bad))

  id-IsRefused :
      (header : Option String)
      → (parse_uuid (request_id ops fresh other header) ≡ none) ↔ IsRefused parse_uuid ops header
  unfolding request_id incoming_id
  id-IsRefused none = ((λ n. absurd (fresh_known n)), (λ r. absurd r))
  id-IsRefused (some h) = elim (empty-cases h) [
    | inl (blank, e) ↦ rw e ((λ n. absurd (fresh_known n)), (λ r. absurd (r.0 blank)))
    | inr (full, e) ↦ rw e (
      (λ n. let (x, y, z) = (set_refused (ops.strip h)).0 n in (full, x, y, z)),
      (λ (w, x, y, z). (set_refused (ops.strip h)).1 (x, y, z)),
    )
  ]

  module _ (env : Env) (header : Option String) (db : Database) where
    abbrev id : String
    id = request_id ops fresh other header

    abbrev Refused : Type 0
    Refused = IsRefused parse_uuid ops header

    resolve-Is500For :
        (target : AlertStatus) (event : String) (q : ActionRequest)
        → is_resolution target ≡ true
        → resolution_event target ≡ some event
        → Is500For Refused 200 db (outcome parse_uuid env id q db target)
    unfolding response_status error_response
    resolve-Is500For target event q resolves emits = elim (Option-cases (parse_uuid id)) [
      | inl bad ↦
          let same = resolve_bad parse_uuid env id q db target resolves bad in
          (
            (
              (λ e. (id-IsRefused header).0 bad),
              (λ r.
                  ap (λ (o : Result AlertResolutionResponse × Database). response_status 200 o.0)
                    same),
            ),
            (λ r. ap (λ o. o.1) same),
          )
      | inr (corr, known) ↦ (
        (
          (λ e.
              absurd
                (resolve_known parse_uuid env id q db target event corr resolves emits known e)),
          (λ r. absurd (ground (arith, known, (id-IsRefused header).1 r))),
        ),
        (λ r. absurd (ground (arith, known, (id-IsRefused header).1 r))),
      )
    ]

    submit-Is500For :
        (uuid_text : ℕ → String) (carrier : Fields) (payload : TransactionCreateRequest)
        → Is500For Refused 202 db
            (in_session (create_transaction parse_uuid env id uuid_text carrier payload) db)
    unfolding response_status error_response
    submit-Is500For uuid_text carrier payload = elim (Option-cases (parse_uuid id)) [
      | inl bad ↦
          let same = submit_bad parse_uuid env id db uuid_text carrier payload bad in
          (
            (
              (λ e. (id-IsRefused header).0 bad),
              (λ r.
                  ap
                    (λ (o : Result TransactionAcceptedResponse × Database). response_status 202 o.0)
                    same),
            ),
            (λ r. ap (λ o. o.1) same),
          )
      | inr (corr, known) ↦ (
        (
          (λ e. absurd (submit_known parse_uuid env id db uuid_text carrier payload corr known e)),
          (λ r. absurd (ground (arith, known, (id-IsRefused header).1 r))),
        ),
        (λ r. absurd (ground (arith, known, (id-IsRefused header).1 r))),
      )
    ]

    -- Where the ids that the service makes itself are UUIDs, and the first has no white space around
    -- it: each of the four endpoints that write answers 500 exactly if the client sent a header with a
    -- correlation id that is not blank and no UUID, and writes nothing then; in every other request
    -- the answer is another one, whatever the tables hold and whether the commit is accepted.
    pub endpoint_bad_correlation :
        (q : ActionRequest) (uuid_text : ℕ → String) (carrier : Fields)
        (payload : TransactionCreateRequest)
        → Is500For Refused 200 db (in_session (approve_alert parse_uuid env id q) db)
          × Is500For Refused 200 db (in_session (block_alert parse_uuid env id q) db)
          × Is500For Refused 200 db (in_session (mark_alert_false_positive parse_uuid env id q) db)
          × Is500For Refused 202 db
              (in_session (create_transaction parse_uuid env id uuid_text carrier payload) db)
    unfolding approve_alert block_alert mark_alert_false_positive is_resolution resolution_event
    endpoint_bad_correlation q uuid_text carrier payload = (
      resolve-Is500For approved _ q refl refl,
      resolve-Is500For blocked _ q refl refl,
      resolve-Is500For false_positive _ q refl refl,
      submit-Is500For uuid_text carrier payload,
    )
