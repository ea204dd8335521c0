-- ===== src/Base/Json.antt =====
-- The values that `json.loads` gives, and how Python reads them.
use Prim.Native.String.{String}
use mathlib.Core.Bool.{Bool, true, false}
use mathlib.Core.Option.{Option, none, some}
use text.Mathlib.Text.{◌==◌}
use kasb_o_kar_hoshmand.Base.Tests.{if◌then◌else◌}
use kasb_o_kar_hoshmand.Base.Int.{ℤ, pos, ltb_ℤ}

-- A float is given by its truncation, which NaN and the infinities do not have, and by the failure of
-- the test `v <= 0`: zero, what is below it and minus infinity pass the test, and NaN does not.
mutual
  pub data Json : Type 0 where
    null : Json
    bool : Bool → Json
    int : ℤ → Json
    float : Option ℤ → Bool → Json
    str : String → Json
    arr : Items → Json
    obj : Fields → Json

  pub data Items : Type 0 where
    nil : Items
    cons : Json → Items → Items

  pub data Fields : Type 0 where
    end : Fields
    field : String → Json → Fields → Fields

abbrev pub find_field : String → Fields → Option Json
find_field name end = none
find_field name (field key v rest) =
    let later = find_field name rest in if key == name then some v else later

-- `data.get(name)` of a dict
abbrev pub get_field : String → Fields → Json
get_field name fields = elim (find_field name fields) [ none ↦ null | some v ↦ v ]

-- `isinstance(v, (int, float))`: with the value that `int(v)` has and the failure of `v <= 0`; a
-- Boolean is a number too
abbrev pub as_number : Json → Option (Option ℤ × Bool)
as_number (bool true) = some (some (pos 1), true)
as_number (bool false) = some (some (pos 0), false)
as_number (int n) = some (some n, ltb_ℤ (pos 0) n)
as_number (float whole above) = some (whole, above)
as_number _ = none
