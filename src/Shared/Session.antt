-- ===== src/Shared/Session.antt =====
-- An `AsyncSession` of SQLAlchemy as the code uses it: statements work on the session's own view
-- of the database, `commit` makes that view the database, and what is not committed when the
-- session closes or an exception leaves it is lost. Whether the server accepts a commit is an
-- argument of `commit`.
use rt_financial_anomaly_det.Prelude.{
  ◌≡◌, refl, ◌⊎◌, inl, inr, ℕ, Bool, true, false, Option, none, some, List, [], ◌∷◌,
}
use rt_financial_anomaly_det.Shared.Errors.{Error, database_error, multiple_results_found}
use rt_financial_anomaly_det.Shared.Models.{Database}
pub mod Reads

pub data Result {ℓ} (A : Type ℓ) : Type ℓ where
  ok : A → Result A
  err : Error → Result A

-- What a handler takes from its surroundings: the clock (read once), `uuid.uuid4()` by the place
-- of its call, and whether the server accepts the commit.
pub record Env : Type 0 where
  pub now : ℕ
  pub uuid4 : ℕ → ℕ
  pub accepted : Bool

pub record Session : Type 0 where
  pub committed : Database
  pub working : Database

abbrev pub Exec : Type 0 → Type 0
Exec A = Session → Result A × Session

abbrev pub continue : {A B : Type 0} → Result A → (A → Exec B) → Exec B
continue (ok a) f s = f a s
continue (err e) f s = (err e, s)

infixl 5 ◌>>=◌ ◌>>◌
abbrev pub ◌>>=◌ : {A B : Type 0} → Exec A → (A → Exec B) → Exec B
◌>>=◌ m f s = let (r, s') = m s in continue r f s'

abbrev pub ◌>>◌ : {A B : Type 0} → Exec A → Exec B → Exec B
m >> n = m >>= λ _. n

abbrev pub pure : {A : Type 0} → A → Exec A
pure a s = (ok a, s)

abbrev pub raise : {A : Type 0} → Error → Exec A
raise e s = (err e, s)

-- `if not test: raise e`
abbrev pub require : Bool → Error → Exec (Unit {0})
require true e = pure tt
require false e = raise e

-- a lookup that raises `e` where nothing is found
abbrev pub or_raise : {A : Type 0} → Option A → Error → Exec A
or_raise none e = raise e
or_raise (some a) e = pure a

-- a query
abbrev pub query : {A : Type 0} → (Database → A) → Exec A
query f s = (ok (f s.working), s)

-- an INSERT or UPDATE, or `session.add`
abbrev pub execute : (Database → Database) → Exec (Unit {0})
execute f s = (ok tt, record s { working = f s.working })

-- `session.commit()`: a refused commit rolls back and raises
abbrev pub commit : Bool → Exec (Unit {0})
commit true s = (ok tt, record s { committed = s.working })
commit false s = (err database_error, record s { working = s.committed })

-- `session.rollback()`
abbrev pub rollback : Exec (Unit {0})
rollback s = (ok tt, record s { working = s.committed })

-- `result.scalar_one_or_none()`
abbrev pub scalar_one_or_none : {A : Type 0} → List A → Exec (Option A)
scalar_one_or_none [] = pure none
scalar_one_or_none (x ∷ []) = pure (some x)
scalar_one_or_none (x ∷ y ∷ rest) = raise multiple_results_found

-- `async with session_factory() as session`: what is left in the database afterwards
abbrev pub in_session : {A : Type 0} → Exec A → Database → Result A × Database
in_session m db = let (r, s) = m (record { committed = db; working = db }) in (r, s.committed)

pub Result-cases :
    {A : Type 0} (r : Result A) → ((a : A) × (r ≡ ok a)) ⊎ ((e : Error) × (r ≡ err e))
Result-cases (ok a) = inl (a, refl)
Result-cases (err e) = inr (e, refl)
