-- ===== src/Spel/Operators.antt =====
-- crates/spel/src/eval.rs: the operators on values, properties, indexes and method calls.
use shinyproxy_rust.Base.{
  concat, ℕ, String, str_eq, Bool, true, false, not, ◌&&◌, ◌||◌, none, some, [], ◌∷◌, ◌==◌,
  if◌then◌else◌, unwrap_or, length,
}
use shinyproxy_rust.Base.Int.{
  wrap_i64, div_ℤ, rem_ℤ, is_negative, eq_ℤ, ℤ, pos, pos_part, ◌+ℤ◌, ◌-ℤ◌, ◌*ℤ◌,
}
use Prim.Native.Nat.{Ordering}
use Prim.Native.String.{compare as compare_text}
use text.Mathlib.TextBridge.{of_list}
use shinyproxy_rust.Base.Result.{Result, ok, err, and_then}
use shinyproxy_rust.Spel.Ast.{UnaryOperator, BinaryOperator}
use shinyproxy_rust.Spel.Conversions.{as_int, as_bool}
use shinyproxy_rust.Spel.Lexer.{characters}
use shinyproxy_rust.Spel.Text.{nth_character}
use shinyproxy_rust.Spel.Values.{
  Value, Values, Platform, EvalError, null, bool, int, float, str, list, map_, object, no_method,
  invalid_regex, cannot_call, to_display_string, division_by_zero, incomparable, no_property,
  cannot_read, negative_index, cannot_index, cannot_negate,
}
use shinyproxy_rust.Spel.Methods.{equals, count_values, get_value, call_string_method, anchored}
use shinyproxy_rust.Spel.Collections.{get_field, call_list_method, call_map_method, no_items}

abbrev is_less : Ordering → Bool
is_less Ordering.lt = true
is_less _ = false

abbrev is_less_or_equal : Ordering → Bool
is_less_or_equal Ordering.gt = false
is_less_or_equal _ = true

abbrev pub is_float : Value → Bool
is_float (float _) = true
is_float _ = false

abbrev pub is_str : Value → Bool
is_str (str _) = true
is_str _ = false

module _ (p : Platform) where
  unfoldable pub as_float : Value → Result ℕ EvalError
  unfolding as_int and_then
  as_float (float bits) = ok bits
  as_float (int z) = ok (p.float_of_int z)
  as_float v = and_then (as_int p v) (λ z. ok (p.float_of_int z))

  -- Texts by their characters, all else as floating point numbers.
  unfoldable pub compare_values : Value → Value → Result Ordering EvalError
  unfolding as_float and_then
  compare_values (str s) (str t) = ok (compare_text s t)
  compare_values left right = and_then (as_float left) (λ a.
      and_then (as_float right)
        (λ b. elim (p.float_compare a b) [ none ↦ err incomparable | some o ↦ ok o ]))

  abbrev compared : (Ordering → Bool) → Value → Value → Result Value EvalError
  compared test left right = and_then (compare_values left right) (λ o. ok (bool (test o)))

  abbrev on_floats : (ℕ → ℕ → ℕ) → Value → Value → Result Value EvalError
  on_floats f left right =
      and_then (as_float left) (λ a. and_then (as_float right) (λ b. ok (float (f a b))))

  -- What an operator does with two integers, wrapping as Java does.
  abbrev on_ints : (ℤ → ℤ → Result ℤ EvalError) → Value → Value → Result Value EvalError
  on_ints f left right =
      and_then (as_int p left)
        (λ a. and_then (as_int p right) (λ b. and_then (f a b) (λ c. ok (int (wrap_i64 c)))))

  abbrev unless_zero : (ℤ → ℤ → ℤ) → ℤ → ℤ → Result ℤ EvalError
  unless_zero f a b = if eq_ℤ b (pos 0) then err division_by_zero else ok (f a b)

  abbrev arithmetic :
      (ℕ → ℕ → ℕ) → (ℤ → ℤ → Result ℤ EvalError) → Value → Value → Result Value EvalError
  arithmetic f g left right =
      if is_float left || is_float right then on_floats f left right else on_ints g left right

  unfoldable pub matches_values : Value → Value → Result Value EvalError
  unfolding to_display_string
  matches_values left right =
      let value = to_display_string p left in
      let pattern = to_display_string p right in
      if p.regex_is_valid pattern
      then ok (
          bool (
            p.regex_is_match
              (if p.regex_is_valid (anchored pattern) then anchored pattern else pattern) value))
      else err (invalid_regex pattern)

  unfoldable pub add_values : Value → Value → Result Value EvalError
  unfolding to_display_string as_float as_int and_then wrap_i64
  add_values left right =
      if is_str left || is_str right
      then ok (str (concat (to_display_string p left) (to_display_string p right)))
      else arithmetic p.float_add (λ a b. ok (a +ℤ b)) left right

  -- `binary` behind the short circuits of `and` and `or`, which are unreachable here.
  unfoldable pub apply_binary : BinaryOperator → Value → Value → Result Value EvalError
  unfolding equals matches_values add_values compare_values as_float as_int and_then wrap_i64 div_ℤ
      rem_ℤ as_bool
  apply_binary BinaryOperator.equal left right = ok (bool (equals p left right))
  apply_binary BinaryOperator.not_equal left right = ok (bool (not (equals p left right)))
  apply_binary BinaryOperator.matches left right = matches_values left right
  apply_binary BinaryOperator.add left right = add_values left right
  apply_binary BinaryOperator.subtract left right =
      arithmetic p.float_subtract (λ a b. ok (a -ℤ b)) left right
  apply_binary BinaryOperator.multiply left right =
      arithmetic p.float_multiply (λ a b. ok (a *ℤ b)) left right
  apply_binary BinaryOperator.divide left right =
      arithmetic p.float_divide (unless_zero div_ℤ) left right
  apply_binary BinaryOperator.modulo left right =
      arithmetic p.float_modulo (unless_zero rem_ℤ) left right
  apply_binary BinaryOperator.less left right = compared is_less left right
  apply_binary BinaryOperator.less_or_equal left right = compared is_less_or_equal left right
  apply_binary BinaryOperator.greater left right =
      compared (λ o. not (is_less_or_equal o)) left right
  apply_binary BinaryOperator.greater_or_equal left right =
      compared (λ o. not (is_less o)) left right
  apply_binary BinaryOperator.and_ left right = ok left
  apply_binary BinaryOperator.or_ left right = ok left

  unfoldable pub apply_unary : UnaryOperator → Value → Result Value EvalError
  unfolding as_bool and_then wrap_i64
  apply_unary UnaryOperator.not_ v = and_then (as_bool v) (λ b. ok (bool (not b)))
  apply_unary UnaryOperator.negate (int z) = ok (int (wrap_i64 (pos 0 -ℤ z)))
  apply_unary UnaryOperator.negate (float bits) = ok (float (p.float_negate bits))
  apply_unary UnaryOperator.negate v = err (cannot_negate v)

  unfoldable pub property_of : Value → String → Result Value EvalError
  unfolding get_field count_values characters
  property_of (map_ entries) name = ok (unwrap_or (get_field name entries) null)
  property_of (object o) name = elim (p.object_property o name) [
    | some v ↦ ok v
    | none ↦ err (no_property (object o) name)
  ]
  property_of (str s) name =
      if str_eq name "length"
      then ok (int (pos (length (characters s))))
      else if str_eq name "empty"
      then ok (bool (str_eq s ""))
      else err (no_property (str s) name)
  property_of (list items) name =
      if str_eq name "length" || str_eq name "size"
      then ok (int (pos (count_values items)))
      else if str_eq name "empty"
      then ok (bool (no_items items))
      else err (no_property (list items) name)
  property_of v name = err (cannot_read v name)

  unfoldable pub index_of_value : Value → Value → Result Value EvalError
  unfolding get_field get_value as_int and_then to_display_string nth_character characters
  index_of_value (map_ entries) index =
      ok (unwrap_or (get_field (to_display_string p index) entries) null)
  index_of_value (list items) index = and_then (as_int p index) (λ position.
      if is_negative position
      then err (negative_index position)
      else ok (unwrap_or (get_value (pos_part position) items) null))
  index_of_value (str s) index = and_then (as_int p index) (λ position.
      elim (nth_character (pos_part position) (characters s)) [
        | some c ↦ ok (str (of_list (c ∷ [])))
        | none ↦ ok null
      ])
  index_of_value (object o) index =
      ok (unwrap_or (p.object_property o (to_display_string p index)) null)
  index_of_value null index = ok null
  index_of_value v index = err (cannot_index v)

  -- A call that the object does not know may read a property.
  unfoldable pub call_object : ℕ → String → Values → Result Value EvalError
  unfolding count_values
  call_object o name arguments = elim (p.object_call o name arguments) [
    | some result ↦ result
    | none ↦ elim (if count_values arguments == 0 then p.object_property o name else none) [
      | some v ↦ ok v
      | none ↦ err (no_method (object o) name)
    ]
  ]

  -- The methods of numbers and Booleans.
  unfoldable pub call_plain : Value → String → Values → Result Value EvalError
  unfolding to_display_string equals count_values get_value
  call_plain v name arguments =
      if str_eq name "toString"
      then ok (str (to_display_string p v))
      else if str_eq name "equals" && count_values arguments == 1
      then ok (bool (equals p v (unwrap_or (get_value 0 arguments) null)))
      else err (no_method v name)

  unfoldable pub call_method : Value → String → Values → Result Value EvalError
  unfolding call_object call_string_method call_list_method call_map_method call_plain
  call_method (object o) name arguments = call_object o name arguments
  call_method (str s) name arguments = call_string_method p s name arguments
  call_method (list items) name arguments = call_list_method p items name arguments
  call_method (map_ entries) name arguments = call_map_method p entries name arguments
  call_method null name arguments = err (cannot_call null name)
  call_method v name arguments = call_plain v name arguments
