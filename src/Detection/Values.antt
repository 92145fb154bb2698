-- ===== src/Detection/Values.antt =====
-- What services/processor/domain/rules.py does with values of JSON: truth, defaults by `or`, and
-- their reading as numbers. What Python's text methods and number constructors do with a text is
-- a parameter, `TextOps`.
use rt_financial_anomaly_det.Prelude.{
  ◌*◌, ◌/◌, ◌^◌, String, Bool, true, false, not, ◌&&◌, Option, none, some, leb, ◌==◌, str_eq,
  if◌then◌else◌,
}
use rt_financial_anomaly_det.Shared.Json.{
  Decimal, Json, null, flag, number, text, array, object, nil, end,
}

-- `str.upper`, `str.lower`, `str.strip`, `str(value)`, and the numbers that `Decimal(text)` and
-- `int(text)` read; none is an exception.
pub record TextOps : Type 0 where
  pub upper : String → String
  pub lower : String → String
  pub strip : String → String
  pub str : Json → String
  pub decimal : String → Option Decimal
  pub int : String → Option Decimal

-- `value >= other` on decimals of any sign
unfoldable pub at_least : Decimal → Decimal → Bool
at_least a b =
    let x = a.coefficient * 10 ^ b.scale in
    let y = b.coefficient * 10 ^ a.scale in
    if a.negative
    then (if b.negative then leb x y else (x == 0 && y == 0))
    else (if b.negative then true else leb y x)

-- `value > other`
unfoldable pub more_than : Decimal → Decimal → Bool
unfolding at_least
more_than a b = not (at_least b a)

-- `bool(value)` of what `params.get` gave
unfoldable pub truthy : Option Json → Bool
truthy none = false
truthy (some null) = false
truthy (some (flag b)) = b
truthy (some (number d)) = not (d.coefficient == 0)
truthy (some (text s)) = not (str_eq s "")
truthy (some (array nil)) = false
truthy (some (object end)) = false
truthy (some other) = true

-- `a or b`
unfoldable pub or_else : Option Json → Option Json → Option Json
unfolding truthy
or_else a b = if truthy a then a else b

-- `value is None`, for a missing key and for JSON's null
unfoldable pub is_none : Option Json → Bool
is_none none = true
is_none (some null) = true
is_none (some other) = false

module _ (ops : TextOps) where
  -- `Decimal(str(value))`
  unfoldable pub decimal_of : Option Json → Option Decimal
  decimal_of (some (number d)) = some d
  decimal_of (some other) = ops.decimal (ops.str other)
  decimal_of none = none

  -- `int(value)`; a number is cut off towards zero
  unfoldable pub int_of : Option Json → Option Decimal
  int_of (some (number d)) =
      some (record { negative = d.negative; coefficient = d.coefficient / 10 ^ d.scale; scale = 0 })
  int_of (some (flag true)) = some (record { negative = false; coefficient = 1; scale = 0 })
  int_of (some (flag false)) = some (record { negative = false; coefficient = 0; scale = 0 })
  int_of (some (text s)) = ops.int s
  int_of other = none
