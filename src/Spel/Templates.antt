-- ===== src/Spel/Templates.antt =====
-- crates/spel/src/lib.rs: `Expression` and the evaluation of templates.
pub mod Quoted
use shinyproxy_rust.Base.{concat, String, Bool, none, List, [], ◌∷◌, if◌then◌else◌}
use shinyproxy_rust.Base.Int.{ℤ}
use Prim.Native.Char.{Char, code}
use text.Mathlib.TextBridge.{of_list}
use shinyproxy_rust.Base.Result.{Result, ok, err, and_then}
use shinyproxy_rust.Spel.Template.{
  Text, Part, expression, TemplateError, contains_expression, split,
}
use shinyproxy_rust.Spel.Lexer.{characters}
use shinyproxy_rust.Spel.Parse.{parse, ParseError}
use shinyproxy_rust.Spel.Values.{Value, Values, Platform, EvalError, to_display_string}
use shinyproxy_rust.Spel.Conversions.{as_int, as_bool, as_list}
use shinyproxy_rust.Spel.Helpers.{display_each}
use shinyproxy_rust.Spel.Eval.{Context, evaluate}

pub data Fault : Type 0 where
  template : TemplateError → Fault
  syntax : ParseError → Fault
  evaluation : EvalError → Fault

-- An error of one part of the work, as an error of the whole.
unfoldable pub map_err : {A E : Type 0} → (E → Fault) → Result A E → Result A Fault
map_err f (ok a) = ok a
map_err f (err e) = err (f e)

abbrev pub Evaluation : Type 0 → Type 0
Evaluation A = Result A Fault

-- `Expression::parse` and `Expression::evaluate`.
unfoldable pub evaluate_part : Platform → Context → String → Evaluation Value
unfolding map_err and_then parse evaluate
evaluate_part p c inside =
    and_then (map_err syntax (parse inside)) (λ node. map_err evaluation (evaluate p c none 0 node))

-- The loop of `evaluate_template`.
unfoldable pub evaluate_parts : Platform → Context → List Part → Evaluation String
unfolding and_then to_display_string
evaluate_parts p c [] = ok ""
evaluate_parts p c (Part.text value ∷ ps) =
    and_then (evaluate_parts p c ps) (λ rest. ok (concat (of_list value) rest))
evaluate_parts p c (expression inside ∷ ps) =
    and_then (evaluate_part p c (of_list inside))
      (λ v. and_then (evaluate_parts p c ps) (λ rest. ok (concat (to_display_string p v) rest)))

unfoldable pub evaluate_template : Platform → Context → String → Evaluation String
unfolding contains_expression split characters map_err and_then evaluate_parts
evaluate_template p c value =
    if contains_expression (characters value)
    then and_then (map_err template (split (characters value))) (λ ps. evaluate_parts p c ps)
    else ok value

-- A template that is one expression has the value of the expression.
unfoldable pub value_of_parts : Platform → Context → String → List Part → Evaluation Value
unfolding evaluate_part evaluate_template and_then
value_of_parts p c value (expression inside ∷ []) = evaluate_part p c (of_list inside)
value_of_parts p c value _ = and_then (evaluate_template p c value) (λ s. ok (Value.str s))

unfoldable pub evaluate_template_to_value : Platform → Context → String → Evaluation Value
unfolding contains_expression split characters map_err and_then value_of_parts
evaluate_template_to_value p c value =
    if contains_expression (characters value)
    then and_then (map_err template (split (characters value))) (λ ps. value_of_parts p c value ps)
    else ok (Value.str value)

unfoldable pub evaluate_to_string : Platform → Context → String → Evaluation String
unfolding evaluate_template
evaluate_to_string p c value = evaluate_template p c value

unfoldable pub evaluate_to_integer : Platform → Context → String → Evaluation ℤ
unfolding evaluate_template_to_value as_int and_then map_err
evaluate_to_integer p c value =
    and_then (evaluate_template_to_value p c value) (λ v. map_err evaluation (as_int p v))

unfoldable pub evaluate_to_boolean : Platform → Context → String → Evaluation Bool
unfolding evaluate_template_to_value as_bool and_then map_err
evaluate_to_boolean p c value =
    and_then (evaluate_template_to_value p c value) (λ v. map_err evaluation (as_bool v))

unfoldable pub evaluate_to_list : Platform → Context → String → Evaluation (List String)
unfolding evaluate_template_to_value as_list display_each and_then
evaluate_to_list p c value =
    and_then (evaluate_template_to_value p c value) (λ v. ok (display_each p (as_list v)))
