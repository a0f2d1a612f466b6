-- ===== src/Model/RuntimeValues.antt =====
-- crates/containerproxy/src/model/runtime_value.rs: the metadata that a proxy carries.
use shinyproxy_rust.Base.{
  concat, ℕ, zero, suc, ◌/◌, ◌%◌, String, str_eq, str_eq_iff, ◌≡◌, Bool, true, false, not, ◌||◌,
  Option, none, some, List, [], ◌∷◌, arith, ltb, ◌==◌, if◌then◌else◌, is_some, unwrap_or,
}
use shinyproxy_rust.Base.Dict.{Dict, lookup, insert, contains_key, values, lookup-insert}
use shinyproxy_rust.Base.Int.{ℤ, pos, negsuc}

pub data ValueKind : Type 0 where
  str integer bool json backend_container_name : ValueKind

pub record RuntimeValueKey : Type 0 where
  pub label : String
  pub env_var : String
  pub include_as_label : Bool
  pub include_as_annotation : Bool
  pub include_as_env : Bool
  pub include_in_api : Bool
  pub required : Bool
  pub container_specific : Bool
  pub kind : ValueKind

-- `serde_json::Value`, with its numbers as their text.
mutual
  pub data Json : Type 0 where
    null : Json
    bool : Bool → Json
    number : String → Json
    string : String → Json
    array : JsonItems → Json
    object : JsonFields → Json

  pub data JsonItems : Type 0 where
    no_items : JsonItems
    item : Json → JsonItems → JsonItems

  pub data JsonFields : Type 0 where
    no_fields : JsonFields
    field : String → Json → JsonFields → JsonFields

-- `value.get(name)` on an object; any other document has no fields.
unfoldable pub get_field : String → JsonFields → Option Json
get_field name no_fields = none
get_field name (field key v rest) = if str_eq key name then some v else get_field name rest

unfoldable pub get_json : Json → String → Option Json
unfolding get_field
get_json (object fields) name = get_field name fields
get_json _ name = none

unfoldable pub as_str_json : Option Json → Option String
as_str_json (some (string s)) = some s
as_str_json _ = none

pub data RuntimeValueData : Type 0 where
  str : String → RuntimeValueData
  int : ℤ → RuntimeValueData
  bool : Bool → RuntimeValueData
  json : Json → RuntimeValueData

abbrev pub as_str : RuntimeValueData → Option String
as_str (RuntimeValueData.str value) = some value
as_str _ = none

abbrev pub as_int : RuntimeValueData → Option ℤ
as_int (int value) = some value
as_int _ = none

abbrev pub as_bool : RuntimeValueData → Option Bool
as_bool (RuntimeValueData.bool value) = some value
as_bool _ = none

pub record RuntimeValue : Type 0 where
  pub key : RuntimeValueKey
  pub data_of : RuntimeValueData

abbrev pub string_value : RuntimeValueKey → String → RuntimeValue
string_value key value = record { key = key; data_of = RuntimeValueData.str value }

abbrev pub integer_value : RuntimeValueKey → ℤ → RuntimeValue
integer_value key value = record { key = key; data_of = int value }

abbrev pub boolean_value : RuntimeValueKey → Bool → RuntimeValue
boolean_value key value = record { key = key; data_of = RuntimeValueData.bool value }

-- The decimal print of a number, by its digits from the last; `fuel` bounds their count.
unfoldable pub digit : ℕ → String
digit n =
    if n == 0
    then "0"
    else if n == 1
    then "1"
    else if n == 2
    then "2"
    else if n == 3
    then "3"
    else if n == 4
    then "4"
    else if n == 5
    then "5"
    else if n == 6
    then "6"
    else if n == 7
    then "7"
    else if n == 8
    then "8"
    else "9"

unfoldable pub digits_of : ℕ → ℕ → String → String
unfolding digit
digits_of zero n rest = rest
digits_of (suc fuel) n rest =
    let more = digits_of fuel (n / 10) (concat (digit (n % 10)) rest) in
    if ltb n 10 then concat (digit n) rest else more

-- `i64::to_string`: twenty digits are enough for 64 bits.
unfoldable pub print_int : ℤ → String
unfolding digits_of
print_int (pos n) = digits_of 20 n ""
print_int (negsuc n) = concat "-" (digits_of 20 (suc n) "")

-- The text of a value. `print_json` is `serde_json::to_string`.
unfoldable pub text_of : (Json → String) → RuntimeValueData → ValueKind → String
unfolding get_json as_str_json
text_of print_json (RuntimeValueData.str value) kind = value
text_of print_json (int value) kind = print_int value
text_of print_json (RuntimeValueData.bool value) kind = if value then "true" else "false"
text_of print_json (RuntimeValueData.json value) backend_container_name =
    unwrap_or (as_str_json (get_json value "value")) ""
text_of print_json (RuntimeValueData.json value) kind = print_json value

unfoldable pub to_value_string : (Json → String) → RuntimeValue → String
unfolding text_of
to_value_string print_json v = text_of print_json v.data_of v.key.kind

-- Values by the name of their environment variable.
pub record RuntimeValues : Type 0 where
  pub values_of : Dict RuntimeValue

abbrev pub new_values : RuntimeValues
new_values = record { values_of = [] }

unfoldable pub add : RuntimeValues → RuntimeValue → Bool → RuntimeValues
add rs value override_existing =
    if override_existing || not (contains_key value.key.env_var rs.values_of)
    then record { values_of = insert value.key.env_var value rs.values_of }
    else rs

-- `iter().for_each(add(value.clone(), override))`
unfoldable pub add_each : RuntimeValues → List RuntimeValue → Bool → RuntimeValues
add_each rs [] override_existing = rs
add_each rs (v ∷ vs) override_existing = add_each (add rs v override_existing) vs override_existing

unfoldable pub add_all : RuntimeValues → List RuntimeValue → RuntimeValues
unfolding add_each
add_all rs vs = add_each rs vs false

unfoldable pub get : RuntimeValues → RuntimeValueKey → Option RuntimeValue
get rs key = lookup key.env_var rs.values_of

unfoldable pub get_by_env_var : RuntimeValues → String → Option RuntimeValue
get_by_env_var rs env_var = lookup env_var rs.values_of

unfoldable pub value_string : (Json → String) → RuntimeValues → RuntimeValueKey → Option String
unfolding get
value_string print_json rs key = elim (get rs key) [
  | none ↦ none
  | some v ↦ some (to_value_string print_json v)
]

-- `iter()`
abbrev pub iter : RuntimeValues → List RuntimeValue
iter rs = values rs.values_of

-- What is read back after a write: under the same environment variable the new value if it may
-- replace, the old one otherwise if there is one; under another variable what was there.
pub get-add :
    (rs : RuntimeValues) (v : RuntimeValue) (override_existing : Bool) (key : RuntimeValueKey)
    → get (add rs v override_existing) key ≡ (
        if str_eq v.key.env_var key.env_var
        then (if override_existing
            then some v
            else (if is_some (get rs key) then get rs key else some v))
        else get rs key)
unfolding get add
get-add rs v override_existing key = ground (
  arith,
  lookup-insert v.key.env_var key.env_var v rs.values_of,
  str_eq_iff v.key.env_var key.env_var,
)

pub value_string-add :
    (print_json : Json → String) (rs : RuntimeValues) (v : RuntimeValue)
    → value_string print_json (add rs v true) v.key ≡ some (to_value_string print_json v)
unfolding value_string
value_string-add print_json rs v =
    ground (arith, get-add rs v true v.key, str_eq_iff v.key.env_var v.key.env_var)
