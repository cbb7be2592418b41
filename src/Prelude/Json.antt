-- ===== src/Prelude/Json.antt =====
-- What `json.loads` gives. A number with a fraction or an exponent is kept as its text.
use Prim.Native.String.{String}
use mathlib.Core.Bool.{Bool, true, false}
use mathlib.Core.Option.{Option, none, some}
use text.Mathlib.Text.{◌==◌ as str_eq}
use pz_server.Prelude.Tests.{if◌then◌else◌}
use pz_server.Prelude.Integers.{ℤ}

mutual
  pub data Json : Type 0 where
    null : Json
    boolean : Bool → Json
    integer : ℤ → Json
    float string : String → Json
    array : Items → Json
    object : Fields → Json

  pub data Items : Type 0 where
    no_item : Items
    item : Json → Items → Items

  pub data Fields : Type 0 where
    no_field : Fields
    field : String → Json → Fields → Fields

-- `d.get(name)`, where a missing key and JSON's null are both `None`.
abbrev pub get : String → Fields → Json
get name no_field = null
get name (field key value rest) =
    let later = get name rest in if str_eq key name then value else later

-- `value == "text"`
abbrev pub is_text : String → Json → Bool
is_text text (string s) = str_eq s text
is_text text null = false
is_text text (boolean _) = false
is_text text (integer _) = false
is_text text (float _) = false
is_text text (array _) = false
is_text text (object _) = false

-- `value is True`
abbrev pub is_true : Json → Bool
is_true (boolean b) = b
is_true null = false
is_true (string _) = false
is_true (integer _) = false
is_true (float _) = false
is_true (array _) = false
is_true (object _) = false

-- `value is False`
abbrev pub is_false : Json → Bool
is_false (boolean b) = if b then false else true
is_false null = false
is_false (string _) = false
is_false (integer _) = false
is_false (float _) = false
is_false (array _) = false
is_false (object _) = false

-- The value, where `isinstance(value, dict)`.
abbrev pub as_object : Json → Option Fields
as_object (object fields) = some fields
as_object null = none
as_object (boolean _) = none
as_object (string _) = none
as_object (integer _) = none
as_object (float _) = none
as_object (array _) = none

-- The value, where `type(value) is int`.
abbrev pub as_integer : Json → Option ℤ
as_integer (integer i) = some i
as_integer null = none
as_integer (boolean _) = none
as_integer (string _) = none
as_integer (float _) = none
as_integer (array _) = none
as_integer (object _) = none
