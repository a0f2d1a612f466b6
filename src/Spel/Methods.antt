-- ===== src/Spel/Methods.antt =====
-- crates/spel/src/eval.rs: the methods of values, the helpers of the root object and the allowed
-- methods of Java types. A `match` on a name and a number of arguments is a table.
use shinyproxy_rust.Base.{
  concat, ℕ, zero, suc, ◌-◌, String, str_eq, Bool, true, false, ◌&&◌, ◌||◌, Option, none, some,
  List, [], ◌∷◌, ◌==◌, if◌then◌else◌, is_some, unwrap_or, length,
}
use shinyproxy_rust.Base.Int.{eq_ℤ, ℤ, pos, negsuc, pos_part}
use text.Mathlib.TextBridge.{of_list}
use shinyproxy_rust.Base.Result.{Result, ok, err, and_then}
use shinyproxy_rust.Spel.Lexer.{characters}
use shinyproxy_rust.Spel.Text.{
  strip_prefix, find_text, ends_with, replace, skip_characters, take_characters, java_string_hash,
}
use shinyproxy_rust.Spel.Conversions.{parse_int, trim, eq_ignore_ascii_case, as_int}
use shinyproxy_rust.Spel.Values.{
  Value, Values, Platform, EvalError, null, bool, int, str, list, no_values, value_then, no_method,
  invalid_regex, to_display_string,
}
use shinyproxy_rust.Spel.Values.Equality.{eq_value}

unfoldable pub read_int : String → Option ℤ
unfolding parse_int trim characters
read_int s = parse_int (characters (trim s))

abbrev is_int : Option ℤ → ℤ → Bool
is_int none z = false
is_int (some w) z = eq_ℤ w z

-- `equals`: a text next to an integer is read as an integer.
unfoldable pub equals : Platform → Value → Value → Bool
unfolding read_int eq_value
equals p (str s) (int z) = is_int (read_int s) z
equals p (int z) (str s) = is_int (read_int s) z
equals p left right = eq_value p left right

unfoldable pub count_values : Values → ℕ
count_values no_values = 0
count_values (value_then v vs) = suc (count_values vs)

unfoldable pub get_value : ℕ → Values → Option Value
get_value n no_values = none
get_value zero (value_then v vs) = some v
get_value (suc n) (value_then v vs) = get_value n vs

-- An argument that the table has counted.
abbrev pub argument : ℕ → Values → Value
argument n vs = unwrap_or (get_value n vs) null

unfoldable pub append_values : Values → Values → Values
append_values no_values ws = ws
append_values (value_then v vs) ws = value_then v (append_values vs ws)

unfoldable pub texts : List String → Values
texts [] = no_values
texts (s ∷ ss) = value_then (str s) (texts ss)

unfoldable pub any_value : (Value → Bool) → Values → Bool
any_value test no_values = false
any_value test (value_then v vs) = test v || any_value test vs

unfoldable pub all_values : (Value → Bool) → Values → Bool
all_values test no_values = true
all_values test (value_then v vs) = test v && all_values test vs

unfoldable pub position : (Value → Bool) → Values → Option ℕ
position test no_values = none
position test (value_then v vs) =
    if test v then some 0 else elim (position test vs) [ none ↦ none | some n ↦ some (suc n) ]

abbrev pub index_or_missing : Option ℕ → Value
index_or_missing none = int (negsuc 0)
index_or_missing (some n) = int (pos n)

-- The row of a table with this name and this number of arguments.
unfoldable pub find_method : {M : Type 0} → String → ℕ → List (String × ℕ × M) → Option M
find_method name arity [] = none
find_method name arity ((n, a, method) ∷ rows) =
    if str_eq n name && a == arity then some method else find_method name arity rows

pub data StringMethod : Type 0 where
  to_string to_lower_case to_upper_case trimmed length_of is_empty is_blank : StringMethod
  hash_code contains_text starts_with_text ends_with_text equals_text : StringMethod
  equals_ignore_case concat_text index_of replace_ replace_all matches split : StringMethod
  substring_from substring : StringMethod

abbrev pub string_methods : List (String × ℕ × StringMethod)
string_methods =
    ("toString", 0, to_string)
    ∷ ("toLowerCase", 0, to_lower_case)
    ∷ ("toUpperCase", 0, to_upper_case)
    ∷ ("trim", 0, trimmed)
    ∷ ("strip", 0, trimmed)
    ∷ ("length", 0, length_of)
    ∷ ("isEmpty", 0, is_empty)
    ∷ ("isBlank", 0, is_blank)
    ∷ ("hashCode", 0, hash_code)
    ∷ ("contains", 1, contains_text)
    ∷ ("startsWith", 1, starts_with_text)
    ∷ ("endsWith", 1, ends_with_text)
    ∷ ("equals", 1, equals_text)
    ∷ ("equalsIgnoreCase", 1, equals_ignore_case)
    ∷ ("concat", 1, concat_text)
    ∷ ("indexOf", 1, index_of)
    ∷ ("replace", 2, replace_)
    ∷ ("replaceAll", 2, replace_all)
    ∷ ("matches", 1, matches)
    ∷ ("split", 1, split)
    ∷ ("substring", 1, substring_from)
    ∷ ("substring", 2, substring)
    ∷ []

-- Java's `matches` wants the whole text.
abbrev pub anchored : String → String
anchored pattern = concat "^(?:" (concat pattern ")$")

module _ (p : Platform) where
  abbrev when_valid : String → Value → Result Value EvalError
  when_valid pattern v = if p.regex_is_valid pattern then ok v else err (invalid_regex pattern)

  -- A method of the text `s` with its first two arguments, and their texts.
  unfoldable pub string_method : StringMethod → String → Value → Value → Result Value EvalError
  unfolding to_display_string trim characters java_string_hash find_text strip_prefix ends_with
      eq_ignore_ascii_case replace and_then as_int skip_characters take_characters texts
  string_method to_string s a b = ok (str s)
  string_method to_lower_case s a b = ok (str (p.to_lowercase s))
  string_method to_upper_case s a b = ok (str (p.to_uppercase s))
  string_method trimmed s a b = ok (str (trim s))
  string_method length_of s a b = ok (int (pos (length (characters s))))
  string_method is_empty s a b = ok (bool (str_eq s ""))
  string_method is_blank s a b = ok (bool (str_eq (trim s) ""))
  string_method hash_code s a b = ok (int (java_string_hash (characters s)))
  string_method contains_text s a b =
      ok (bool (is_some (find_text (characters (to_display_string p a)) (characters s))))
  string_method starts_with_text s a b =
      ok (bool (is_some (strip_prefix (characters (to_display_string p a)) (characters s))))
  string_method ends_with_text s a b =
      ok (bool (ends_with (characters (to_display_string p a)) (characters s)))
  string_method equals_text s a b = ok (bool (str_eq s (to_display_string p a)))
  string_method equals_ignore_case s a b =
      ok (bool (eq_ignore_ascii_case s (to_display_string p a)))
  string_method concat_text s a b = ok (str (concat s (to_display_string p a)))
  string_method index_of s a b =
      ok (index_or_missing (find_text (characters (to_display_string p a)) (characters s)))
  string_method replace_ s a b = ok (
      str (
        of_list (
          replace (characters (to_display_string p a)) (characters (to_display_string p b))
            (characters s))))
  string_method replace_all s a b =
      when_valid (to_display_string p a)
        (str (p.regex_replace_all (to_display_string p a) s (to_display_string p b)))
  string_method matches s a b =
      when_valid (anchored (to_display_string p a))
        (bool (p.regex_is_match (anchored (to_display_string p a)) s))
  string_method split s a b =
      when_valid (to_display_string p a) (list (texts (p.regex_split (to_display_string p a) s)))
  string_method substring_from s a b =
      and_then (as_int p a)
        (λ start. ok (str (of_list (skip_characters (pos_part start) (characters s)))))
  string_method substring s a b = and_then (as_int p a) (λ start. and_then (as_int p b) (λ end. ok (
      str (
        of_list (
          take_characters (pos_part end - pos_part start)
            (skip_characters (pos_part start) (characters s)))))))

  unfoldable pub call_string_method : String → String → Values → Result Value EvalError
  unfolding find_method count_values get_value string_method
  call_string_method s name arguments =
      elim (find_method name (count_values arguments) string_methods) [
        | none ↦ err (no_method (str s) name)
        | some method ↦ string_method method s (argument 0 arguments) (argument 1 arguments)
      ]
