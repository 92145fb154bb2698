-- ===== src/Shared/Json.antt =====
-- JSON values as Python holds them after `json.loads`, and dicts with text keys. A UUID, a time
-- and a Decimal that the code turns into text keep what the text stands for.
use rt_financial_anomaly_det.Prelude.{
  ℕ, String, Bool, false, ◌||◌, Option, none, some, List, [], ◌∷◌, str_eq, if◌then◌else◌,
}

-- A decimal number: `coefficient / 10 ^ scale`, with its sign.
pub record Decimal : Type 0 where
  pub negative : Bool
  pub coefficient : ℕ
  pub scale : ℕ

mutual
  pub data Json : Type 0 where
    null : Json
    flag : Bool → Json
    number : Decimal → Json
    text : String → Json
    uuid : ℕ → Json
    time : ℕ → Json
    array : Items → Json
    object : Fields → Json

  pub data Items : Type 0 where
    nil : Items
    cons : Json → Items → Items

  pub data Fields : Type 0 where
    end : Fields
    field : String → Json → Fields → Fields

-- a dict display `{k: v, ...}`
abbrev pub dict : List (String × Json) → Fields
dict [] = end
dict ((k, v) ∷ rest) = field k v (dict rest)

-- `d.get(k)`; none is Python's None for a missing key
unfoldable pub get : String → Fields → Option Json
get k end = none
get k (field j v rest) = if str_eq j k then some v else get k rest

-- `k in d`
unfoldable pub has_key : String → Fields → Bool
has_key k end = false
has_key k (field j v rest) = str_eq j k || has_key k rest

-- `d[k] = v`
unfoldable pub set_key : String → Json → Fields → Fields
set_key k v end = field k v end
set_key k v (field j w rest) =
    let later = field j w (set_key k v rest) in if str_eq j k then field j v rest else later
