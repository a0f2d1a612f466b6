-- ===== src/Spel/Helpers.antt =====
-- crates/spel/src/eval.rs: the functions of the root object, and the allowed static methods of Java
-- types.
use shinyproxy_rust.Base.{
  concat, ℕ, String, str_eq, Bool, true, false, ◌&&◌, Option, none, some, List, [], ◌∷◌, ◌++◌, ltb,
  leb, if◌then◌else◌,
}
use shinyproxy_rust.Base.Dict.{Dict, lookup}
use shinyproxy_rust.Base.Int.{wrap_i64, is_negative, pos, ◌-ℤ◌, ltb_ℤ}
use shinyproxy_rust.Base.Result.{and_then, Result, ok, err}
use shinyproxy_rust.Spel.Conversions.{as_int, trim, eq_ignore_ascii_case}
use shinyproxy_rust.Spel.Lexer.{Characters, characters}
use shinyproxy_rust.Spel.Text.{split_text}
use text.Mathlib.TextBridge.{of_list}
use shinyproxy_rust.Spel.Values.{
  int, unsupported_call, str, Value, Values, Platform, EvalError, null, bool, list, no_values,
  value_then, unknown_function, to_display_string,
}
use shinyproxy_rust.Spel.Methods.{count_values, get_value, any_value, texts, argument, find_method}

abbrev map_texts : (String → String) → List String → List String
map_texts f [] = []
map_texts f (s ∷ ss) = f s ∷ map_texts f ss

unfoldable pub parts_of : List Characters → List String
parts_of [] = []
parts_of (cs ∷ rest) = of_list cs ∷ parts_of rest

unfoldable pub display_each : Platform → Values → List String
unfolding to_display_string
display_each p no_values = []
display_each p (value_then v vs) = to_display_string p v ∷ display_each p vs

unfoldable pub clean : Platform → Bool → String → String
unfolding trim
clean p lowercase s = if lowercase then p.to_lowercase (trim s) else trim s

-- A regular expression where the separator is one, and else the separator itself.
unfoldable pub split_parts : Platform → String → String → List String
unfolding parts_of split_text characters
split_parts p separator text =
    if p.regex_is_valid separator
    then p.regex_split separator text
    else parts_of (split_text 0 (characters separator) [] (characters text))

unfoldable pub split_to_list : Platform → Value → String → Bool → Value
unfolding texts display_each clean split_parts to_display_string
split_to_list p null separator lowercase = list no_values
split_to_list p (list items) separator lowercase =
    list (texts (map_texts (clean p lowercase) (display_each p items)))
split_to_list p v separator lowercase =
    list (texts (map_texts (clean p lowercase) (split_parts p separator (to_display_string p v))))

unfoldable pub matches_attribute : Platform → Bool → String → Value → Bool
unfolding trim eq_ignore_ascii_case to_display_string
matches_attribute p ignore_case attribute allowed =
    let text = trim (to_display_string p allowed) in
    if ignore_case then eq_ignore_ascii_case text attribute else str_eq text attribute

unfoldable pub is_one_of : Platform → Values → Bool → Bool
unfolding any_value matches_attribute trim to_display_string
is_one_of p no_values ignore_case = false
is_one_of p (value_then null allowed) ignore_case = false
is_one_of p (value_then attribute allowed) ignore_case =
    any_value (matches_attribute p ignore_case (trim (to_display_string p attribute))) allowed

pub data Helper : Type 0 where
  to_list to_lower_case_list to_list_by to_lower_case_list_by : Helper

abbrev pub helpers : List (String × ℕ × Helper)
helpers =
    ("toList", 1, to_list)
    ∷ ("toList", 2, to_list_by)
    ∷ ("toLowerCaseList", 1, to_lower_case_list)
    ∷ ("toLowerCaseList", 2, to_lower_case_list_by)
    ∷ []

unfoldable pub run_helper : Platform → Helper → Value → Value → Value
unfolding split_to_list to_display_string
run_helper p to_list a b = split_to_list p a "," false
run_helper p to_list_by a b = split_to_list p a (to_display_string p b) false
run_helper p to_lower_case_list a b = split_to_list p a "," true
run_helper p to_lower_case_list_by a b = split_to_list p a (to_display_string p b) true

unfoldable pub call_helper : Platform → String → Values → Result Value EvalError
unfolding find_method count_values get_value run_helper is_one_of
call_helper p name arguments = elim (find_method name (count_values arguments) helpers) [
  | some helper ↦ ok (run_helper p helper (argument 0 arguments) (argument 1 arguments))
  | none ↦
      if str_eq name "isOneOf" && ltb 0 (count_values arguments)
      then ok (bool (is_one_of p arguments false))
      else if str_eq name "isOneOfIgnoreCase" && ltb 0 (count_values arguments)
      then ok (bool (is_one_of p arguments true))
      else err (unknown_function name (count_values arguments))
]

abbrev rest_of : Values → Values
rest_of no_values = no_values
rest_of (value_then v vs) = vs

-- The parts of `String.join`: the items of a list argument one by one.
unfoldable pub join_parts : Platform → Values → List String
unfolding display_each to_display_string
join_parts p no_values = []
join_parts p (value_then (list items) vs) = display_each p items ++ join_parts p vs
join_parts p (value_then v vs) = to_display_string p v ∷ join_parts p vs

unfoldable pub join : String → List String → String
join separator [] = ""
join separator (s ∷ []) = s
join separator (s ∷ t ∷ ss) = concat s (concat separator (join separator (t ∷ ss)))

pub data TypeMethod : Type 0 where
  getenv get_property value_of maximum minimum absolute parse_number parse_boolean : TypeMethod

-- The methods of each allowed type; `String.join` stands apart, since it takes two arguments or more.
unfoldable pub type_methods : String → List (String × ℕ × TypeMethod)
type_methods type_name =
    if str_eq type_name "java.lang.System"
    then ("getenv", 1, getenv) ∷ ("getProperty", 1, get_property) ∷ []
    else if str_eq type_name "java.lang.String"
    then ("valueOf", 1, value_of) ∷ []
    else if str_eq type_name "java.lang.Math"
    then ("max", 2, maximum) ∷ ("min", 2, minimum) ∷ ("abs", 1, absolute) ∷ []
    else if str_eq type_name "java.lang.Integer"
    then ("parseInt", 1, parse_number) ∷ []
    else if str_eq type_name "java.lang.Long"
    then ("parseLong", 1, parse_number) ∷ []
    else if str_eq type_name "java.lang.Boolean"
    then ("parseBoolean", 1, parse_boolean) ∷ []
    else []

abbrev value_or_null : Option String → Value
value_or_null none = null
value_or_null (some s) = str s

-- `abs` of the smallest integer is taken as in a release build, where it wraps.
unfoldable pub type_method :
    Platform → Dict String → TypeMethod → Value → Value → Result Value EvalError
unfolding to_display_string as_int and_then eq_ignore_ascii_case lookup wrap_i64
type_method p environment getenv a b =
    ok (value_or_null (lookup (to_display_string p a) environment))
type_method p environment get_property a b = ok null
type_method p environment value_of a b = ok (str (to_display_string p a))
type_method p environment maximum a b =
    and_then (as_int p a) (λ x. and_then (as_int p b) (λ y. ok (int (if ltb_ℤ x y then y else x))))
type_method p environment minimum a b =
    and_then (as_int p a) (λ x. and_then (as_int p b) (λ y. ok (int (if ltb_ℤ y x then y else x))))
type_method p environment absolute a b =
    and_then (as_int p a) (λ x. ok (int (if is_negative x then wrap_i64 (pos 0 -ℤ x) else x)))
type_method p environment parse_number a b = and_then (as_int p a) (λ x. ok (int x))
type_method p environment parse_boolean a b =
    ok (bool (eq_ignore_ascii_case (to_display_string p a) "true"))

unfoldable pub call_type :
    Platform → Dict String → String → String → Values → Result Value EvalError
unfolding find_method type_methods type_method count_values get_value join join_parts
    to_display_string
call_type p environment type_name method arguments =
    elim (find_method method (count_values arguments) (type_methods type_name)) [
      | some m ↦ type_method p environment m (argument 0 arguments) (argument 1 arguments)
      | none ↦
          if str_eq type_name "java.lang.String"
            && str_eq method "join"
            && leb 2 (count_values arguments)
          then ok (
              str (
                join (to_display_string p (argument 0 arguments))
                  (join_parts p (rest_of arguments))))
          else err (unsupported_call type_name method)
    ]
