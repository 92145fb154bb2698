-- ===== src/Shared/Session/Reads.antt =====
-- Parts of a handler that only read: they leave the session as it was, whether they return or
-- raise.
use rt_financial_anomaly_det.Prelude.{
  ◌≡◌, refl, Bool, true, false, Option, none, some, List, [], ◌∷◌,
}
use rt_financial_anomaly_det.Shared.Errors.{Error}
use rt_financial_anomaly_det.Shared.Session.{
  Result, Session, Exec, require, or_raise, scalar_one_or_none,
}

abbrev pub Reads : {A : Type 0} → Exec A → Type 0
Reads m = (s : Session) → (m s).1 ≡ s

-- A part that only reads does to the session what its result does.
pub Reads-result :
    {A : Type 0} (m : Exec A) (s : Session) {r : Result A} → Reads m → (m s).0 ≡ r → m s ≡ (r, s)
Reads-result m s reads h = cc (reads s)

pub Reads-require : (b : Bool) (e : Error) → Reads (require b e)
Reads-require true e s = refl
Reads-require false e s = refl

pub Reads-or_raise : {A : Type 0} (o : Option A) (e : Error) → Reads (or_raise o e)
Reads-or_raise none e s = refl
Reads-or_raise (some a) e s = refl

pub Reads-scalar : {A : Type 0} (xs : List A) → Reads (scalar_one_or_none xs)
Reads-scalar [] s = refl
Reads-scalar (x ∷ []) s = refl
Reads-scalar (x ∷ y ∷ rest) s = refl
