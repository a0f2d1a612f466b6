-- ===== src/Spel/Eval/Sums.antt =====
-- Long sums against the limit on the depth.
use shinyproxy_rust.Base.{
  ℕ, zero, suc, ◌+◌, ◌^◌, ◌≤◌, ◌<◌, ◌≡◌, refl, ap, ◌∙◌, Option, none, [], ◌∷◌, arith, length,
}
use shinyproxy_rust.Base.Dict.{lookup}
use shinyproxy_rust.Base.Int.{wrap_i64, pos, ◌+ℤ◌}
use shinyproxy_rust.Spel.Parser.{Tokens}
use shinyproxy_rust.Spel.Ast.{Token}
use shinyproxy_rust.Spel.Expressions.{
  parse_tokens, parsers, parse_operators, parse_expression, parse_unary, parse_unary_operand,
  parse_postfix,
}
use shinyproxy_rust.Spel.Expressions.Nesting.{at_start, one}
use shinyproxy_rust.Base.Result.{ok, err, and_then}
use shinyproxy_rust.Spel.Ast.{Node, BinaryOperator}
use shinyproxy_rust.Spel.Values.{Value, Platform, too_deep}
use shinyproxy_rust.Spel.Operators.{apply_binary, add_values}
use shinyproxy_rust.Spel.Conversions.{as_int}
use shinyproxy_rust.Spel.Eval.{max_depth, Context, evaluate, binary}

-- `1 + 1 + ... + 1` with `n` plus signs, as the parser groups it: to the left.
abbrev pub sum_of_ones : ℕ → Node
sum_of_ones zero = Node.int (pos 1)
sum_of_ones (suc n) = Node.binary BinaryOperator.add (sum_of_ones n) (Node.int (pos 1))

add_one :
    (p : Platform) (n : ℕ)
    → suc n < 2 ^ 63
    → apply_binary p BinaryOperator.add (Value.int (pos n)) (Value.int (pos 1))
      ≡ ok (Value.int (pos (suc n)))
unfolding apply_binary add_values as_int and_then ◌+ℤ◌ wrap_i64
add_one p n h = ground arith

evaluate-sum_of_ones_within :
    (p : Platform) (c : Context) (this : Option Value) (d n : ℕ)
    → n + d ≤ max_depth
    → evaluate p c this d (sum_of_ones n) ≡ ok (Value.int (pos (suc n)))
unfolding evaluate binary and_then
evaluate-sum_of_ones_within p c this d zero h = ground arith
evaluate-sum_of_ones_within p c this d (suc n) h =
    ground (arith, evaluate-sum_of_ones_within p c this (suc d) n, add_one p (suc n))

evaluate-sum_of_ones_beyond :
    (p : Platform) (c : Context) (this : Option Value) (d n : ℕ)
    → max_depth < n + d
    → evaluate p c this d (sum_of_ones n) ≡ err too_deep
unfolding evaluate binary and_then
evaluate-sum_of_ones_beyond p c this d zero h = ground arith
evaluate-sum_of_ones_beyond p c this d (suc n) h =
    ground (arith, evaluate-sum_of_ones_beyond p c this (suc d) n)

-- The tokens of `+ 1 + ... + 1`.
abbrev pub plus_ones : ℕ → Tokens
plus_ones zero = []
plus_ones (suc n) = at_start (Token.symbol "+") ∷ one ∷ plus_ones n

abbrev pub add_ones : ℕ → Node → Node
add_ones zero left = left
add_ones (suc n) left = add_ones n (Node.binary BinaryOperator.add left (Node.int (pos 1)))

right_operand :
    (size fuel n : ℕ)
    → (parsers size (suc fuel)).expression 0 6 (one ∷ plus_ones n)
      ≡ ok (Node.int (pos 1), plus_ones n)
unfolding parsers parse_expression parse_unary parse_unary_operand parse_postfix parse_operators
    lookup
right_operand size fuel zero = refl
right_operand size fuel (suc n) = refl

operators_lem :
    (size fuel n rounds : ℕ) (left : Node)
    → n < rounds
    → parse_operators rounds (parsers size (suc fuel)) 0 0 left (plus_ones n)
      ≡ ok (add_ones n left, [])
unfolding parse_operators lookup
operators_lem size fuel n zero left h = absurd (omega arith)
operators_lem size fuel zero (suc rounds) left h = refl
operators_lem size fuel (suc n) (suc rounds) left h =
    rw (right_operand size fuel n, parse_operators)
      (operators_lem size fuel n rounds (Node.binary BinaryOperator.add left (Node.int (pos 1)))
        (omega arith))

add_ones-sum_of_ones : (n m : ℕ) → add_ones n (sum_of_ones m) ≡ sum_of_ones (n + m)
add_ones-sum_of_ones zero m = ap sum_of_ones (omega arith)
add_ones-sum_of_ones (suc n) m = add_ones-sum_of_ones n (suc m) ∙ ap sum_of_ones (omega arith)

length-plus_ones : (n : ℕ) → n ≤ length (plus_ones n)
length-plus_ones zero = omega arith
length-plus_ones (suc n) = omega (arith, length-plus_ones n)

left_operand :
    (size fuel n : ℕ)
    → parse_unary (parsers size fuel) 0 (one ∷ plus_ones n) ≡ ok (Node.int (pos 1), plus_ones n)
unfolding parse_unary parse_unary_operand parse_postfix
left_operand size fuel zero = refl
left_operand size fuel (suc n) = refl

expression_lem :
    (size fuel n : ℕ)
    → parse_expression (parsers size (suc fuel)) 0 0 (one ∷ plus_ones n) ≡ ok (sum_of_ones n, [])
unfolding parse_expression and_then
expression_lem size fuel n =
    rw (left_operand size (suc fuel) n, parse_expression)
      (operators_lem size fuel n (suc (length (plus_ones n))) (Node.int (pos 1))
          (omega (arith, length-plus_ones n))
        ∙ ap (λ t. ok (t, [])) (add_ones-sum_of_ones n zero ∙ ap sum_of_ones (omega arith)))

parse_tokens-ones : (size n : ℕ) → parse_tokens size (one ∷ plus_ones n) ≡ ok (sum_of_ones n)
unfolding parse_tokens parsers
parse_tokens-ones size n = rw (parse_tokens, expression_lem size (length (plus_ones n)) n) refl

-- A sum of ones parses whatever its length, but evaluates only with 64 plus signs at most, to the
-- number of ones; with more the evaluation fails as nested too deeply.
pub evaluate-sum :
    (p : Platform) (c : Context) (size n : ℕ)
    → (node : Node) × (parse_tokens size (one ∷ plus_ones n) ≡ ok node)
      × (n ≤ max_depth → evaluate p c none 0 node ≡ ok (Value.int (pos (n + 1))))
      × (max_depth < n → evaluate p c none 0 node ≡ err too_deep)
evaluate-sum p c size n = (
  sum_of_ones n,
  parse_tokens-ones size n,
  λ h.
      evaluate-sum_of_ones_within p c none 0 n (omega arith)
      ∙ ap (λ k. ok (Value.int (pos k))) (omega arith),
  λ h. evaluate-sum_of_ones_beyond p c none 0 n (omega arith),
)
