-- ===== src/Gateway/Ingestion/Submission.antt =====
-- The idempotency of `submit_transaction`.
use rt_financial_anomaly_det.Prelude.{
  ℕ, String, ◌≡◌, ◌≢◌, refl, ap, ◌∙◌, Bool, true, Option, some, List, [], ◌∷◌, ◌++◌, arith, select,
  eq_iff,
}
use rt_financial_anomaly_det.Shared.Enums.{submitted}
use rt_financial_anomaly_det.Shared.Errors.{Error}
use rt_financial_anomaly_det.Shared.Json.{Fields}
use rt_financial_anomaly_det.Shared.Models.{Transaction, Database}
use rt_financial_anomaly_det.Shared.Session.{Env, ok, err, in_session}
use rt_financial_anomaly_det.Gateway.Ingestion.{
  TransactionCreateRequest, key_of, has_key_of, transaction_of, transaction_outbox, fits_column,
  submit_transaction,
}

module _ (uuid_text : ℕ → String) (env : Env) (carrier : Fields)
    (payload : TransactionCreateRequest) (correlation_id : Option ℕ) (db : Database) where
  -- A submission that raises leaves the database as it was.
  pub submit_transaction_atomic :
      (e : Error)
      → (in_session (submit_transaction uuid_text env carrier payload correlation_id) db).0 ≡ err e
      → (in_session (submit_transaction uuid_text env carrier payload correlation_id) db).1 ≡ db
  unfolding submit_transaction
  submit_transaction_atomic e h = ground arith

-- A submission under a key that no transaction has, with a UUID as correlation id, a category that
-- fits its column and an accepted commit, answers SUBMITTED and commits exactly the transaction and
-- its event.
pub submit_transaction_new :
    (uuid_text : ℕ → String) (env : Env) (carrier : Fields) (payload : TransactionCreateRequest)
    (corr : ℕ) (db : Database)
    → let key = key_of uuid_text env payload.idempotency_key in
      select (has_key_of key) db.transactions ≡ []
      → fits_column payload ≡ true
      → env.accepted ≡ true
      → in_session (submit_transaction uuid_text env carrier payload (some corr)) db ≡ (
        ok (record { transaction_id = env.uuid4 1; status = submitted; correlation_id = corr }),
        record db {
          transactions = db.transactions ++ transaction_of env payload key corr ∷ [];
          outbox_events = db.outbox_events ++ transaction_outbox env carrier payload corr ∷ [];
        },
      )
unfolding submit_transaction
submit_transaction_new uuid_text env carrier payload corr db fresh fits accepted =
    simp (fresh, fits, accepted)

select-append_new :
    {A : Type 0} (w : A → Bool) (xs : List A) (x : A)
    → select w xs ≡ []
    → w x ≡ true
    → select w (xs ++ x ∷ []) ≡ x ∷ []
unfolding select
select-append_new w [] x h p = ground arith
select-append_new w (y ∷ xs) x h p = ground (arith, select-append_new w xs x)

key_own :
    (uuid_text : ℕ → String) (env : Env) (key : String) {o : Option String}
    → key ≢ ""
    → o ≡ some key
    → key_of uuid_text env o ≡ key
unfolding key_of
key_own uuid_text env key own h = ground (arith, (eq_iff key "").0)

-- A submission under a key that one transaction has is answered with that transaction, and nothing
-- is written.
pub submit_transaction_known :
    (uuid_text : ℕ → String) (env : Env) (carrier : Fields) (payload : TransactionCreateRequest)
    (corr : ℕ) (t : Transaction) (db : Database)
    → select (has_key_of (key_of uuid_text env payload.idempotency_key)) db.transactions ≡ t ∷ []
    → in_session (submit_transaction uuid_text env carrier payload (some corr)) db ≡ (
      ok (record { transaction_id = t.id; status = t.status; correlation_id = t.correlation_id }),
      db,
    )
unfolding submit_transaction
submit_transaction_known uuid_text env carrier payload corr t db known = simp known

-- A client that repeats an accepted submission under its own key, whatever else the second request
-- says, is answered with the transaction of the first one, and nothing is written.
pub submit_transaction_twice :
    (uuid_text : ℕ → String) (env env' : Env) (carrier carrier' : Fields)
    (payload payload' : TransactionCreateRequest) (corr corr' : ℕ) (key : String) (db : Database)
    → key ≢ ""
    → payload.idempotency_key ≡ some key
    → payload'.idempotency_key ≡ some key
    → select (has_key_of key) db.transactions ≡ []
    → fits_column payload ≡ true
    → env.accepted ≡ true
    → let db' = (in_session (submit_transaction uuid_text env carrier payload (some corr)) db).1 in
      in_session (submit_transaction uuid_text env' carrier' payload' (some corr')) db' ≡ (
        ok (record { transaction_id = env.uuid4 1; status = submitted; correlation_id = corr }),
        db',
      )
unfolding transaction_of
submit_transaction_twice uuid_text env env' carrier carrier' payload payload' corr corr' key db own
      first second fresh fits accepted =
    let k = key_own uuid_text env key own first in
    let k' = key_own uuid_text env' key own second in
    let db' = (in_session (submit_transaction uuid_text env carrier payload (some corr)) db).1 in
    let new =
      submit_transaction_new uuid_text env carrier payload corr db (rw k fresh) fits accepted in
    let row = transaction_of env payload (key_of uuid_text env payload.idempotency_key) corr in
    let one : select (has_key_of (key_of uuid_text env' payload'.idempotency_key)) db'.transactions
        ≡ row ∷ [] =
      ap
        (λ o. select (has_key_of (key_of uuid_text env' payload'.idempotency_key)) o.1.transactions)
        new
      ∙ select-append_new _ db.transactions row (rw k' fresh)
          (rw (k, k') ((eq_iff key key).1 refl)) in
    submit_transaction_known uuid_text env' carrier' payload' corr' row db' one
