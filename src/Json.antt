-- ===== src/Json.antt =====
-- The JSON values that tools take and return. A number keeps what JavaScript tells apart: a finite
-- number by its shortest decimal text, negative zero, and the values that are not finite.
use zxql_ai.Prelude.{
  String, Bool, Option, none, some, List, String-discrete, if◌then◌else◌, ◌==◌, string_eq,
}

pub data Number : Type 0 where
  finite : String → Number
  negative_zero : Number
  nan : Number
  infinity : Number
  negative_infinity : Number

mutual
  pub data Json : Type 0 where
    null : Json
    undefined : Json
    boolean : Bool → Json
    number : Number → Json
    text : String → Json
    array : Items → Json
    object : Fields → Json

  pub data Items : Type 0 where
    end : Items
    item : Json → Items → Items

  pub data Fields : Type 0 where
    no_fields : Fields
    field : String → Json → Fields → Fields

Number-discrete : Discrete Number
Number-discrete = hlevel String-discrete

pub Json-discrete : Discrete Json
Json-discrete = hlevel (String-discrete, Number-discrete)

-- The arguments of a tool.
abbrev pub Args : Type 0
Args = List (String × Json)

pub find_field : String → Fields → Option Json
find_field key no_fields = none
find_field key (field k v rest) = if k == key then some v else find_field key rest

-- `value?.key`, where `none` is `undefined`.
pub property : String → Option Json → Option Json
unfolding find_field
property key none = none
property key (some null) = none
property key (some undefined) = none
property key (some (boolean _)) = none
property key (some (number _)) = none
property key (some (text _)) = none
property key (some (array _)) = none
property key (some (object fields)) = find_field key fields
