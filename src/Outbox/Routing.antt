-- ===== src/Outbox/Routing.antt =====
-- `get_stream_for_event_type`: which Redis stream an event type goes to.
use Prim.Native.Char.{Char, code}
use Prim.Native.String.{◌++◌ as str_append}
use text.Mathlib.Text.{starts_with}
use text.Mathlib.TextPositions.{starts_with-append}
use text.Mathlib.TextLemmas.{cons-append}
use text.Mathlib.TextEquality.{starts_with_iff}
use rt_financial_anomaly_det.Prelude.{
  ℕ, arith, String, ◌≡◌, ◌≢◌, refl, sym, ap, ◌∙◌, inl, inr, Bool-cases, Bool, false, ◌==◌, ◌||◌,
  if◌then◌else◌,
}
use rt_financial_anomaly_det.Shared.Events.{
  stream_transactions, stream_alerts, stream_escalations, stream_compensation,
}

abbrev is_dot : Char → Bool
is_dot c = code c == b'.'

-- `"." in s`
unfoldable pub has_dot : String → Bool
has_dot String.[] = false
has_dot (String.◌∷◌ c s) = is_dot c || has_dot s

-- `s.split(".")[0]`
unfoldable pub before_dot : String → String
before_dot String.[] = ""
before_dot (String.◌∷◌ c s) =
    let rest = String.◌∷◌ c (before_dot s) in if is_dot c then "" else rest

unfoldable pub get_stream_for_event_type : String → String
unfolding has_dot before_dot
get_stream_for_event_type event_type =
    if starts_with event_type "transaction."
    then stream_transactions
    else if starts_with event_type "alert."
    then stream_alerts
    else if starts_with event_type "escalation."
    then stream_escalations
    else if starts_with event_type "risk_profile."
    then stream_compensation
    else str_append "stream:" (if has_dot event_type then before_dot event_type else event_type)

abbrev head_code : String → ℕ
head_code String.[] = 0
head_code (String.◌∷◌ c s) = code c

-- A text does not start with a family's prefix if their first characters differ.
other_family :
    (c d : Char) (pre s p : String)
    → code c ≢ code d
    → starts_with (str_append (String.◌∷◌ c pre) s) (String.◌∷◌ d p) ≡ false
other_family c d pre s p ne =
    let test = starts_with (str_append (String.◌∷◌ c pre) s) (String.◌∷◌ d p) in
    elim (Bool-cases test) [
      | inl h ↦
          let (u, e) = (starts_with_iff (str_append (String.◌∷◌ c pre) s) (String.◌∷◌ d p)).0 h in
          absurd (ne (ap head_code (sym (cons-append c pre s) ∙ sym e ∙ cons-append d p u)))
      | inr h ↦ h
    ]

-- An event type goes to the stream of its family, whatever follows the family's prefix.
route_transactions :
    (s : String) → get_stream_for_event_type (str_append "transaction." s) ≡ stream_transactions
unfolding get_stream_for_event_type
route_transactions s = rw (starts_with-append "transaction." s) refl

route_alerts : (s : String) → get_stream_for_event_type (str_append "alert." s) ≡ stream_alerts
unfolding get_stream_for_event_type
route_alerts s = ground (
  arith,
  other_family "a" "t" "lert." s "ransaction." (omega arith),
  starts_with-append "alert." s,
)

route_escalations :
    (s : String) → get_stream_for_event_type (str_append "escalation." s) ≡ stream_escalations
unfolding get_stream_for_event_type
route_escalations s = ground (
  arith,
  other_family "e" "t" "scalation." s "ransaction." (omega arith),
  other_family "e" "a" "scalation." s "lert." (omega arith),
  starts_with-append "escalation." s,
)

route_risk_profiles :
    (s : String) → get_stream_for_event_type (str_append "risk_profile." s) ≡ stream_compensation
unfolding get_stream_for_event_type
route_risk_profiles s = ground (
  arith,
  other_family "r" "t" "isk_profile." s "ransaction." (omega arith),
  other_family "r" "a" "isk_profile." s "lert." (omega arith),
  other_family "r" "e" "isk_profile." s "scalation." (omega arith),
  starts_with-append "risk_profile." s,
)

-- An event type of one of the four families goes to the stream that the family's consumer reads,
-- whatever follows the prefix.
pub get_stream_for_event_type_families :
    (s : String)
    → (get_stream_for_event_type (str_append "transaction." s) ≡ stream_transactions)
      × (get_stream_for_event_type (str_append "alert." s) ≡ stream_alerts)
      × (get_stream_for_event_type (str_append "escalation." s) ≡ stream_escalations)
      × (get_stream_for_event_type (str_append "risk_profile." s) ≡ stream_compensation)
get_stream_for_event_type_families s =
    (route_transactions s, route_alerts s, route_escalations s, route_risk_profiles s)
