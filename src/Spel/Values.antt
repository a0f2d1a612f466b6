-- ===== src/Spel/Values.antt =====
-- crates/spel/src/value.rs: `Value` and its conversions. An `f64` is its bits and an object of the
-- context the address of its `Arc`, both numbers; what the processor, the formatting of floating
-- point numbers, the tables of Unicode, the regular expressions (crate regex) and the objects of
-- the caller answer is `Platform`.
pub mod Equality
use shinyproxy_rust.Base.{
  concat, ℕ, ◌<◌, String, Bool, true, false, ◌&&◌, Option, List, [], ◌∷◌, map, ◌==◌, if◌then◌else◌,
}
use shinyproxy_rust.Base.Dict.{keys}
use shinyproxy_rust.Base.Int.{ℤ}
use shinyproxy_rust.Base.Result.{Result}
use Prim.Native.Char.{Char, code, char}
use Prim.Native.Nat.{Ordering}
use Prim.Native.String.{compare as compare_text}
use text.Mathlib.Text.{is_lt}
use text.Mathlib.TextBridge.{of_list}
use shinyproxy_rust.Spel.Lexer.{Characters, characters, parse_digits}
use shinyproxy_rust.Model.RuntimeValues.{print_int}

-- `Values` is `Vec<Value>`; `Fields` is `BTreeMap<String, Value>` in the order of the keys.
mutual
  pub data Value : Type 0 where
    null : Value
    bool : Bool → Value
    int : ℤ → Value
    float : ℕ → Value
    str : String → Value
    list : Values → Value
    map_ : Fields → Value
    object : ℕ → Value

  pub data Values : Type 0 where
    no_values : Values
    value_then : Value → Values → Values

  pub data Fields : Type 0 where
    no_fields : Fields
    field_then : String → Value → Fields → Fields

-- The errors of an evaluation; the messages are data.
pub data EvalError : Type 0 where
  too_deep division_by_zero incomparable : EvalError
  unknown_root unknown_variable unknown_bean only_in_selection : String → EvalError
  null_property null_call : String → EvalError
  no_property cannot_read : Value → String → EvalError
  no_method cannot_call : Value → String → EvalError
  negative_index : ℤ → EvalError
  cannot_index cannot_negate expected_boolean expected_number : Value → EvalError
  invalid_regex : String → EvalError
  unknown_function : String → ℕ → EvalError
  unsupported_call : String → String → EvalError
  object_error : String → EvalError

pub record Platform : Type 0 where
  pub float_literal : String → ℕ
  pub parse_f64 : String → Option ℕ
  pub float_of_int : ℤ → ℕ
  pub int_of_float : ℕ → ℤ
  pub float_negate : ℕ → ℕ
  pub float_add : ℕ → ℕ → ℕ
  pub float_subtract : ℕ → ℕ → ℕ
  pub float_multiply : ℕ → ℕ → ℕ
  pub float_divide : ℕ → ℕ → ℕ
  pub float_modulo : ℕ → ℕ → ℕ
  pub float_eq : ℕ → ℕ → Bool
  pub float_compare : ℕ → ℕ → Option Ordering
  pub float_is_short : ℕ → Bool
  pub format_one_digit : ℕ → String
  pub format_float : ℕ → String
  pub to_lowercase : String → String
  pub to_uppercase : String → String
  pub regex_is_valid : String → Bool
  pub regex_is_match : String → String → Bool
  pub regex_split : String → String → List String
  pub regex_replace_all : String → String → String → String
  pub object_type_name : ℕ → String
  pub object_property : ℕ → String → Option Value
  pub object_call : ℕ → String → Values → Option (Result Value EvalError)
  pub object_display : ℕ → String

abbrev pub is_null : Value → Bool
is_null null = true
is_null _ = false

unfoldable pub type_name : Platform → Value → String
type_name p null = "null"
type_name p (bool _) = "boolean"
type_name p (int _) = "integer"
type_name p (float _) = "number"
type_name p (str _) = "string"
type_name p (list _) = "list"
type_name p (map_ _) = "map"
type_name p (object o) = p.object_type_name o

-- `formatted.replace('e', "E")`
upper_e : Characters → String
upper_e [] = ""
upper_e (c ∷ cs) = concat (if code c == b'e' then "E" else of_list (c ∷ [])) (upper_e cs)

-- `float_is_short` is `value.fract() == 0.0 && value.abs() < 1e7`. Without an `e` the replacement
-- changes nothing.
unfoldable pub format_double : Platform → ℕ → String
unfolding upper_e characters
format_double p bits =
    if p.float_is_short bits
    then p.format_one_digit bits
    else upper_e (characters (p.format_float bits))

unfoldable mutual
  unfolding format_double print_int

  pub to_display_string : Platform → Value → String
  to_display_string p null = "null"
  to_display_string p (bool b) = if b then "true" else "false"
  to_display_string p (int z) = print_int z
  to_display_string p (float bits) = format_double p bits
  to_display_string p (str s) = s
  to_display_string p (list vs) = concat "[" (concat (display_values p vs) "]")
  to_display_string p (map_ fs) = concat "{" (concat (display_fields p fs) "}")
  to_display_string p (object o) = p.object_display o

  pub display_values : Platform → Values → String
  display_values p no_values = ""
  display_values p (value_then v no_values) = to_display_string p v
  display_values p (value_then v (value_then w vs)) =
      concat (to_display_string p v) (concat ", " (display_values p (value_then w vs)))

  pub display_fields : Platform → Fields → String
  display_fields p no_fields = ""
  display_fields p (field_then k v no_fields) = concat k (concat "=" (to_display_string p v))
  display_fields p (field_then k v (field_then l w fs)) = concat k (
      concat "="
        (concat (to_display_string p v) (concat ", " (display_fields p (field_then l w fs)))))
