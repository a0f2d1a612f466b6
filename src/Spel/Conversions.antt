-- ===== src/Spel/Conversions.antt =====
-- crates/spel/src/value.rs: the conversions of `Value`, and the functions on text of the standard
-- library that they use.
use shinyproxy_rust.Base.{
  ℕ, ◌+◌, ◌^◌, String, str_eq, Bool, true, false, not, ◌&&◌, ◌||◌, Option, none, some, [], ◌∷◌, ltb,
  leb, ◌==◌, if◌then◌else◌,
}
use shinyproxy_rust.Base.Int.{eq_ℤ, ℤ, pos, ◌-ℤ◌}
use Prim.Native.Char.{code}
use shinyproxy_rust.Base.Result.{Result, ok, err}
use shinyproxy_rust.Spel.Lexer.{Characters, characters, parse_digits}
use shinyproxy_rust.Spel.Values.{
  expected_boolean, expected_number, Value, Values, Platform, EvalError, null, bool, int, float,
  str, list, map_, object, no_values, value_then, no_fields, field_then,
}
use text.Mathlib.TextBridge.{of_list}

abbrev pub between : ℕ → ℕ → ℕ → Bool
between low high n = leb low n && leb n high

-- `char::is_whitespace`
unfoldable pub is_white_space : ℕ → Bool
is_white_space n =
    between 9 13 n
    || n == 0x20
    || n == 0x85
    || n == 0xA0
    || n == 0x1680
    || between 0x2000 0x200A n
    || n == 0x2028
    || n == 0x2029
    || n == 0x202F
    || n == 0x205F
    || n == 0x3000

unfoldable pub trim_start : Characters → Characters
unfolding is_white_space
trim_start [] = []
trim_start (c ∷ cs) = if is_white_space (code c) then trim_start cs else c ∷ cs

unfoldable pub trim_end : Characters → Characters
unfolding is_white_space
trim_end [] = []
trim_end (c ∷ cs) = elim (trim_end cs) [
  | [] ↦ if is_white_space (code c) then [] else c ∷ []
  | d ∷ ds ↦ c ∷ d ∷ ds
]

-- `str::trim`
unfoldable pub trim : String → String
unfolding trim_start trim_end characters
trim s = of_list (trim_end (trim_start (characters s)))

unfoldable pub ascii_lowercase : ℕ → ℕ
ascii_lowercase n = if between b'A' b'Z' n then n + 32 else n

unfoldable pub same_ignoring_case : Characters → Characters → Bool
unfolding ascii_lowercase
same_ignoring_case [] [] = true
same_ignoring_case (c ∷ cs) (d ∷ ds) =
    (ascii_lowercase (code c) == ascii_lowercase (code d)) && same_ignoring_case cs ds
same_ignoring_case _ _ = false

unfoldable pub eq_ignore_ascii_case : String → String → Bool
unfolding same_ignoring_case characters
eq_ignore_ascii_case s t = same_ignoring_case (characters s) (characters t)

-- `str::parse::<i64>` on a text with an optional sign.
unfoldable pub parse_unsigned : Characters → Option ℕ
unfolding parse_digits
parse_unsigned [] = none
parse_unsigned (c ∷ cs) = parse_digits 0 (c ∷ cs)

unfoldable pub parse_int : Characters → Option ℤ
unfolding parse_unsigned
parse_int [] = none
parse_int (c ∷ cs) =
    let negative = elim (parse_unsigned cs) as (λ _. Option ℤ) [
      | none ↦ none
      | some n ↦ if leb n (2 ^ 63) then some (pos 0 -ℤ pos n) else none
    ] in
    let positive = λ (digits : Characters). elim (parse_unsigned digits) as (λ _. Option ℤ) [
      | none ↦ none
      | some n ↦ if ltb n (2 ^ 63) then some (pos n) else none
    ] in
    if code c == b'-' then negative else if code c == b'+' then positive cs else positive (c ∷ cs)

unfoldable pub as_bool : Value → Result Bool EvalError
unfolding eq_ignore_ascii_case
as_bool (bool b) = ok b
as_bool (str s) =
    if eq_ignore_ascii_case s "true"
    then ok true
    else if eq_ignore_ascii_case s "false"
    then ok false
    else err (expected_boolean (str s))
as_bool null = ok false
as_bool v = err (expected_boolean v)

unfoldable pub int_of_text : Platform → String → Result ℤ EvalError
unfolding parse_int trim characters
int_of_text p s = elim (parse_int (characters (trim s))) [
  | some z ↦ ok z
  | none ↦ elim (p.parse_f64 (trim s)) [
    | some bits ↦ ok (p.int_of_float bits)
    | none ↦ err (expected_number (str s))
  ]
]

unfoldable pub as_int : Platform → Value → Result ℤ EvalError
unfolding int_of_text
as_int p (int z) = ok z
as_int p (float bits) = ok (p.int_of_float bits)
as_int p (bool b) = ok (if b then pos 1 else pos 0)
as_int p (str s) = int_of_text p s
as_int p v = err (expected_number v)

unfoldable pub as_list : Value → Values
as_list (list items) = items
as_list null = no_values
as_list v = value_then v no_values

-- `zero` is the bits of 0.0; `value != 0.0` is false at -0.0 and true at a NaN.
unfoldable pub is_truthy : Platform → Value → Bool
is_truthy p null = false
is_truthy p (bool b) = b
is_truthy p (str s) = not (str_eq s "")
is_truthy p (int z) = not (eq_ℤ z (pos 0))
is_truthy p (float bits) = not (p.float_eq bits (p.float_literal "0.0"))
is_truthy p (list no_values) = false
is_truthy p (list (value_then _ _)) = true
is_truthy p (map_ no_fields) = false
is_truthy p (map_ (field_then _ _ _)) = true
is_truthy p (object _) = true
