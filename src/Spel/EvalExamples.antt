-- ===== src/Spel/EvalExamples.antt =====
-- Concrete expressions and templates, and the theorems about their evaluation at them.
use shinyproxy_rust.Base.{
  concat, ℕ, ◌+◌, ◌-◌, ◌*◌, ◌/◌, ◌%◌, ◌^◌, ◌≤◌, ◌<◌, str_eq, ◌≡◌, refl, ◌≢◌, ◌⊎◌, true, false, none,
  some, List, [], ◌∷◌, ◌++◌, arith, ◌==◌,
}
use shinyproxy_rust.Base.Dict.{lookup}
use shinyproxy_rust.Base.Int.{pos, negsuc, pos_part}
use Prim.Native.Nat.{compare as compare_ℕ}
use shinyproxy_rust.Spel.Text.{java_string_hash}
use shinyproxy_rust.Spel.Eval.{binary, short_circuit}
use shinyproxy_rust.Spel.Methods.{call_string_method}
use shinyproxy_rust.Spel.Eval.Depth.{height}
use shinyproxy_rust.Spel.Eval.Confined.{type_calls}
use shinyproxy_rust.Spel.Template.{find_start}
use text.Mathlib.TextBridge.{of_list}
use shinyproxy_rust.Base.Result.{ok, err}
use shinyproxy_rust.Spel.Ast.{Node, BinaryOperator}
use shinyproxy_rust.Spel.Values.{Value, Platform, value_then, no_values, too_deep}
use shinyproxy_rust.Spel.Eval.{Context, evaluate, max_depth}
use shinyproxy_rust.Spel.Eval.Meaning.{meaning}
use shinyproxy_rust.Spel.Eval.Depth.{evaluate-meaning}
use shinyproxy_rust.Spel.Eval.Sums.{evaluate-sum, plus_ones}
use shinyproxy_rust.Spel.Eval.Confined.{evaluate_confined}
use shinyproxy_rust.Spel.Eval.Kinds.{evaluate-has_kind, has_kind, kind_of, boolean}
use shinyproxy_rust.Spel.Expressions.{parse_tokens}
use shinyproxy_rust.Spel.Expressions.Nesting.{one}
use shinyproxy_rust.Spel.Operators.{apply_binary}
use shinyproxy_rust.Spel.Template.{Part, expression, split, unterminated}
use shinyproxy_rust.Spel.Template.Scanning.{AreCut, print, hash, open_brace, close_brace}
use shinyproxy_rust.Spel.Template.Split.{split_lem, AreParts, AreCut-AreParts, IsUnterminated}
use shinyproxy_rust.Spel.Templates.{evaluate_template, evaluate_parts}
use shinyproxy_rust.Spel.Templates.Quoted.{evaluate_template-literal, evaluate_template-print}
use shinyproxy_rust.Spel.Lexer.Literals.{Quote, literal}
use shinyproxy_rust.Spel.Lexer.{characters, utf8}

-- Floating point numbers are whole here, and nothing else answers.
abbrev whole_numbers : Platform
whole_numbers = record {
  float_literal = λ _. 0;
  parse_f64 = λ _. none;
  float_of_int = pos_part;
  int_of_float = λ n. pos n;
  float_negate = λ n. n;
  float_add = λ a b. a + b;
  float_subtract = λ a b. a - b;
  float_multiply = λ a b. a * b;
  float_divide = λ a b. a / b;
  float_modulo = λ a b. a % b;
  float_eq = λ a b. a == b;
  float_compare = λ a b. some (compare_ℕ a b);
  float_is_short = λ _. false;
  format_one_digit = λ _. "0.0";
  format_float = λ _. "0";
  to_lowercase = λ s. s;
  to_uppercase = λ s. s;
  regex_is_valid = λ _. true;
  regex_is_match = λ pattern s. str_eq pattern s;
  regex_split = λ _ s. s ∷ [];
  regex_replace_all = λ _ s _. s;
  object_type_name = λ _. "object";
  object_property = λ _ _. none;
  object_call = λ _ _ _. none;
  object_display = λ _. "object";
}

abbrev some_context : Context
some_context = record {
  root = ("userId", Value.str "jack") ∷ [];
  variables = [];
  beans = [];
  environment = ("HOME", "/home/jack") ∷ [];
}

-- `userId == 'jack' and 7 % 3 < 2`
abbrev check_user : Node
check_user =
    Node.binary BinaryOperator.and_
      (Node.binary BinaryOperator.equal (Node.root "userId") (Node.str "jack"))
      (Node.binary BinaryOperator.less
        (Node.binary BinaryOperator.modulo (Node.int (pos 7)) (Node.int (pos 3)))
        (Node.int (pos 2)))

check_user_runs : evaluate whole_numbers some_context none 0 check_user ≡ ok (Value.bool true)
unfolding evaluate binary lookup short_circuit apply_binary
check_user_runs = refl

-- `-9223372036854775808 / -1`, as Java wraps it
smallest_by_minus_one :
    apply_binary whole_numbers BinaryOperator.divide
      (Value.int (negsuc (2 ^ 63 - 1)))
      (Value.int (negsuc 0))
    ≡ ok (Value.int (negsuc (2 ^ 63 - 1)))
unfolding apply_binary
smallest_by_minus_one = refl

hash_of_abc : java_string_hash (characters "abc") ≡ pos 96354
unfolding java_string_hash characters
hash_of_abc = refl

-- `indexOf` counts bytes, where `length` and `substring` count characters.
index_in_bytes :
    call_string_method whole_numbers "é=" "indexOf" (value_then (Value.str "=") no_values)
    ≡ ok (Value.int (pos 2))
unfolding call_string_method utf8
index_in_bytes = refl

evaluate-meaning_example :
    evaluate whole_numbers some_context none 3 check_user
    ≡ meaning whole_numbers some_context none check_user
unfolding height
evaluate-meaning_example =
    evaluate-meaning whole_numbers some_context none 3 check_user (omega arith)

evaluate-sum_example :
    (node : Node) × (parse_tokens 300 (one ∷ plus_ones 70) ≡ ok node)
    × (70 ≤ max_depth
        → evaluate whole_numbers some_context none 0 node ≡ ok (Value.int (pos (70 + 1))))
    × (max_depth < 70 → evaluate whole_numbers some_context none 0 node ≡ err too_deep)
evaluate-sum_example = evaluate-sum whole_numbers some_context 300 70

evaluate_confined_example :
    evaluate whole_numbers some_context none 0 check_user
    ≡ evaluate whole_numbers (record some_context { environment = [] }) none 0 check_user
unfolding type_calls
evaluate_confined_example = evaluate_confined whole_numbers some_context [] none 0 check_user refl

evaluate-has_kind_example : has_kind boolean (Value.bool true) ≡ true
unfolding kind_of
evaluate-has_kind_example =
    evaluate-has_kind whole_numbers some_context none 0 check_user boolean (Value.bool true) refl
      check_user_runs

split_lem_example :
    ((ps : List Part) × (split (characters "a-#{x") ≡ ok ps)
      × (print ps ≡ characters "a-#{x")
      × AreParts ps)
    ⊎ ((p : ℕ) × (split (characters "a-#{x") ≡ err (unterminated p))
        × IsUnterminated (characters "a-#{x") p
        × ((ps : List Part) → AreParts ps → print ps ≢ characters "a-#{x"))
split_lem_example = split_lem (characters "a-#{x")

abbrev some_parts : List Part
some_parts = Part.text (characters "app-") ∷ expression (characters "userId") ∷ []

evaluate_template-print_example :
    evaluate_template whole_numbers some_context (of_list (print some_parts))
    ≡ evaluate_parts whole_numbers some_context some_parts
unfolding AreCut characters find_start
evaluate_template-print_example =
    evaluate_template-print whole_numbers some_context some_parts
      (AreCut-AreParts some_parts (refl, refl, refl, (refl, tt)))

evaluate_template-literal_example :
    evaluate_template whole_numbers some_context (
      of_list (
        characters "app-"
        ++ hash ∷ open_brace ∷ (characters (literal Quote.single "it's }") ++ close_brace ∷ [])))
    ≡ ok (concat (of_list (characters "app-")) "it's }")
unfolding characters find_start
evaluate_template-literal_example =
    evaluate_template-literal whole_numbers some_context (characters "app-") Quote.single "it's }"
      refl
