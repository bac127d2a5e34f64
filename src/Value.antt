-- ===== src/Value.antt =====
-- The values of the dictionaries that events, recipes and gateways exchange (`Dict[str, Any]`).
-- A number stands for a Python int or float and counts millionths: 0.25 is `num (pos 250000)`.
use asoe.Prelude.{String, Bool, true, false, Option, none, some, str_eq, not, leb, if◌then◌else◌}
use asoe.Prelude.Int.{ℤ, abs_ℤ}
use asoe.Prelude.Dict.{Dict, lookup}

mutual
  -- the pairs of a dict, in insertion order
  pub data Fields : Type 0 where
    field : String → Value → Fields → Fields
    end : Fields

  pub data Value : Type 0 where
    obj : Fields → Value
    arr : Items → Value
    str : String → Value
    num : ℤ → Value
    bool : Bool → Value
    null : Value

  -- the elements of a list
  pub data Items : Type 0 where
    item : Value → Items → Items
    no_items : Items

-- `o.get(k)` of a nested dictionary
abbrev pub get : String → Fields → Option Value
get k end = none
get k (field j v fs) = if str_eq j k then some v else get k fs

-- `d.get(k)`, where an absent key reads as None
abbrev pub value_of : Option Value → Value
value_of none = null
value_of (some v) = v

abbrev pub get_value : String → Dict Value → Value
get_value k d = value_of (lookup k d)

-- `v is None`
abbrev pub is_null : Value → Bool
is_null null = true
is_null _ = false

-- Python's truth of a value
abbrev pub truthy : Value → Bool
truthy null = false
truthy (bool b) = b
truthy (num z) = not (leb (abs_ℤ z) 0)
truthy (str s) = not (str_eq s "")
truthy (arr no_items) = false
truthy (arr (item v vs)) = true
truthy (obj end) = false
truthy (obj (field k v fs)) = true

-- `isinstance(v, str)`, as a reading
abbrev pub text_of : Value → Option String
text_of (str s) = some s
text_of _ = none
