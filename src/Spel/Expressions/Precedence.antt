-- ===== src/Spel/Expressions/Precedence.antt =====
-- How three operands group.
use shinyproxy_rust.Base.{
  ℕ, zero, suc, ◌+◌, ◌<◌, max, ◌≡◌, refl, ◌∙◌, inl, inr, true, false, none, some, [], ◌∷◌, arith,
  ltb, leb, if◌then◌else◌, Bool-cases, length,
}
use shinyproxy_rust.Base.Dict.{lookup}
use shinyproxy_rust.Base.Int.{ℤ}
use shinyproxy_rust.Base.Result.{ok, and_then}
use shinyproxy_rust.Spel.Ast.{Node, BinaryOperator, precedence, Token, SpannedToken}
use shinyproxy_rust.Spel.Parser.{
  Recursion, is_symbol, eat_symbol, Tokens, max_nesting, binary_operator, peek_binary_operator,
}
use shinyproxy_rust.Spel.Expressions.{
  parse_postfixes, parse_one_postfix, parse_unary_operand, parse_postfix, parsers, parse_tokens,
  parse_unary, parse_expression, parse_binary, parse_operators, parse_one_operator,
}
use shinyproxy_rust.Spel.Expressions.Nesting.{at_start}

-- A spelling of the operator.
abbrev pub spelling : BinaryOperator → Token
spelling BinaryOperator.add = Token.symbol "+"
spelling BinaryOperator.subtract = Token.symbol "-"
spelling BinaryOperator.multiply = Token.symbol "*"
spelling BinaryOperator.divide = Token.symbol "/"
spelling BinaryOperator.modulo = Token.symbol "%"
spelling BinaryOperator.equal = Token.symbol "=="
spelling BinaryOperator.not_equal = Token.symbol "!="
spelling BinaryOperator.less = Token.symbol "<"
spelling BinaryOperator.less_or_equal = Token.symbol "<="
spelling BinaryOperator.greater = Token.symbol ">"
spelling BinaryOperator.greater_or_equal = Token.symbol ">="
spelling BinaryOperator.and_ = Token.symbol "&&"
spelling BinaryOperator.or_ = Token.symbol "||"
spelling BinaryOperator.matches = Token.identifier "matches"

abbrev number : ℤ → SpannedToken
number n = at_start (Token.int n)

abbrev pub three_operands : ℤ → BinaryOperator → ℤ → BinaryOperator → ℤ → Tokens
three_operands a first b second c =
    number a ∷ at_start (spelling first) ∷ number b ∷ at_start (spelling second) ∷ number c ∷ []

-- The spelling is read back as its operator, and as no other symbol.
record Read (op : BinaryOperator) : Type 0 where
  as_operator : binary_operator (spelling op) ≡ some op
  no_projection : is_symbol ".![" (spelling op) ≡ false
  no_selection : is_symbol ".?[" (spelling op) ≡ false
  no_safe_dot : is_symbol "?." (spelling op) ≡ false
  no_dot : is_symbol "." (spelling op) ≡ false
  no_index : is_symbol "[" (spelling op) ≡ false
  no_elvis : is_symbol "?:" (spelling op) ≡ false
  no_ternary : is_symbol "?" (spelling op) ≡ false

spelling-Read : (op : BinaryOperator) → Read op
unfolding binary_operator is_symbol lookup
spelling-Read BinaryOperator.add = record {
  as_operator = refl;
  no_projection = refl;
  no_selection = refl;
  no_safe_dot = refl;
  no_dot = refl;
  no_index = refl;
  no_elvis = refl;
  no_ternary = refl;
}
spelling-Read BinaryOperator.subtract = record {
  as_operator = refl;
  no_projection = refl;
  no_selection = refl;
  no_safe_dot = refl;
  no_dot = refl;
  no_index = refl;
  no_elvis = refl;
  no_ternary = refl;
}
spelling-Read BinaryOperator.multiply = record {
  as_operator = refl;
  no_projection = refl;
  no_selection = refl;
  no_safe_dot = refl;
  no_dot = refl;
  no_index = refl;
  no_elvis = refl;
  no_ternary = refl;
}
spelling-Read BinaryOperator.divide = record {
  as_operator = refl;
  no_projection = refl;
  no_selection = refl;
  no_safe_dot = refl;
  no_dot = refl;
  no_index = refl;
  no_elvis = refl;
  no_ternary = refl;
}
spelling-Read BinaryOperator.modulo = record {
  as_operator = refl;
  no_projection = refl;
  no_selection = refl;
  no_safe_dot = refl;
  no_dot = refl;
  no_index = refl;
  no_elvis = refl;
  no_ternary = refl;
}
spelling-Read BinaryOperator.equal = record {
  as_operator = refl;
  no_projection = refl;
  no_selection = refl;
  no_safe_dot = refl;
  no_dot = refl;
  no_index = refl;
  no_elvis = refl;
  no_ternary = refl;
}
spelling-Read BinaryOperator.not_equal = record {
  as_operator = refl;
  no_projection = refl;
  no_selection = refl;
  no_safe_dot = refl;
  no_dot = refl;
  no_index = refl;
  no_elvis = refl;
  no_ternary = refl;
}
spelling-Read BinaryOperator.less = record {
  as_operator = refl;
  no_projection = refl;
  no_selection = refl;
  no_safe_dot = refl;
  no_dot = refl;
  no_index = refl;
  no_elvis = refl;
  no_ternary = refl;
}
spelling-Read BinaryOperator.less_or_equal = record {
  as_operator = refl;
  no_projection = refl;
  no_selection = refl;
  no_safe_dot = refl;
  no_dot = refl;
  no_index = refl;
  no_elvis = refl;
  no_ternary = refl;
}
spelling-Read BinaryOperator.greater = record {
  as_operator = refl;
  no_projection = refl;
  no_selection = refl;
  no_safe_dot = refl;
  no_dot = refl;
  no_index = refl;
  no_elvis = refl;
  no_ternary = refl;
}
spelling-Read BinaryOperator.greater_or_equal = record {
  as_operator = refl;
  no_projection = refl;
  no_selection = refl;
  no_safe_dot = refl;
  no_dot = refl;
  no_index = refl;
  no_elvis = refl;
  no_ternary = refl;
}
spelling-Read BinaryOperator.and_ = record {
  as_operator = refl;
  no_projection = refl;
  no_selection = refl;
  no_safe_dot = refl;
  no_dot = refl;
  no_index = refl;
  no_elvis = refl;
  no_ternary = refl;
}
spelling-Read BinaryOperator.or_ = record {
  as_operator = refl;
  no_projection = refl;
  no_selection = refl;
  no_safe_dot = refl;
  no_dot = refl;
  no_index = refl;
  no_elvis = refl;
  no_ternary = refl;
}
spelling-Read BinaryOperator.matches = record {
  as_operator = refl;
  no_projection = refl;
  no_selection = refl;
  no_safe_dot = refl;
  no_dot = refl;
  no_index = refl;
  no_elvis = refl;
  no_ternary = refl;
}

not_postfix :
    (p : Recursion) (depth : ℕ) (node : Node) (op : BinaryOperator) (rest : Tokens)
    → parse_one_postfix p depth node (at_start (spelling op) ∷ rest) ≡ none
unfolding parse_one_postfix eat_symbol
not_postfix p depth node op rest =
    let r = spelling-Read op in
    rw (parse_one_postfix, r.no_projection, r.no_selection, r.no_safe_dot, r.no_dot, r.no_index)
      refl

no_postfixes :
    (fuel : ℕ) (p : Recursion) (depth : ℕ) (node : Node) (op : BinaryOperator) (rest : Tokens)
    → parse_postfixes (suc fuel) p depth node (at_start (spelling op) ∷ rest)
      ≡ ok (node, at_start (spelling op) ∷ rest)
unfolding parse_postfixes
no_postfixes fuel p depth node op rest = rw (parse_postfixes, not_postfix p depth node op rest) refl

-- An operand before an operator.
operand :
    (p : Recursion) (depth : ℕ) (a : ℤ) (op : BinaryOperator) (rest : Tokens)
    → depth < max_nesting
    → parse_unary p depth (number a ∷ at_start (spelling op) ∷ rest)
      ≡ ok (Node.int a, at_start (spelling op) ∷ rest)
unfolding parse_unary parse_unary_operand parse_postfix
operand p depth a op rest h =
    let fits : leb max_nesting depth ≡ false = ground (arith, h) in
    rw fits
      (no_postfixes (length (at_start (spelling op) ∷ rest)) p (depth + 1) (Node.int a) op rest)

operator_round :
    (p : Recursion) (depth m : ℕ) (left : Node) (op : BinaryOperator) (rest : Tokens)
    → parse_one_operator p depth m left (at_start (spelling op) ∷ rest) ≡ (
        if ltb (precedence op) (max m 1)
        then none
        else some (
            and_then
              (p.expression depth (precedence op + 1) rest)
              (λ right. ok (Node.binary op left right.0, right.1))))
unfolding parse_one_operator parse_binary peek_binary_operator eat_symbol
operator_round p depth zero left op rest =
    let r = spelling-Read op in
    rw
      (
        parse_one_operator, r.no_elvis, r.no_ternary, parse_binary, peek_binary_operator,
        r.as_operator,
      )
      refl
operator_round p depth (suc m) left op rest =
    rw (parse_one_operator, parse_binary, peek_binary_operator, (spelling-Read op).as_operator) refl

last_operand :
    (p : Recursion) (m : ℕ) (c : ℤ) → parse_expression p 0 m (number c ∷ []) ≡ ok (Node.int c, [])
unfolding parse_expression parse_unary parse_unary_operand parse_postfix parse_operators
last_operand p zero c = refl
last_operand p (suc m) c = refl

no_operators :
    (fuel : ℕ) (p : Recursion) (m : ℕ) (left : Node)
    → parse_operators (suc fuel) p 0 m left [] ≡ ok (left, [])
unfolding parse_operators
no_operators fuel p zero left = refl
no_operators fuel p (suc m) left = refl

takes_operator :
    (fuel : ℕ) (p : Recursion) (m : ℕ) (left right : Node) (op : BinaryOperator)
    (rest after : Tokens)
    → ltb (precedence op) (max m 1) ≡ false
    → p.expression 0 (precedence op + 1) rest ≡ ok (right, after)
    → parse_operators (suc fuel) p 0 m left (at_start (spelling op) ∷ rest)
      ≡ parse_operators fuel p 0 m (Node.binary op left right) after
unfolding parse_operators
takes_operator fuel p m left right op rest after tight e =
    rw (parse_operators, operator_round p 0 m left op rest, tight, e) refl

leaves_operator :
    (fuel : ℕ) (p : Recursion) (m : ℕ) (left : Node) (op : BinaryOperator) (rest : Tokens)
    → ltb (precedence op) (max m 1) ≡ true
    → parse_operators (suc fuel) p 0 m left (at_start (spelling op) ∷ rest)
      ≡ ok (left, at_start (spelling op) ∷ rest)
unfolding parse_operators
leaves_operator fuel p m left op rest loose =
    rw (parse_operators, operator_round p 0 m left op rest, loose) refl

binds : (op : BinaryOperator) → ltb (precedence op) 1 ≡ false
unfolding precedence
binds BinaryOperator.add = refl
binds BinaryOperator.subtract = refl
binds BinaryOperator.multiply = refl
binds BinaryOperator.divide = refl
binds BinaryOperator.modulo = refl
binds BinaryOperator.equal = refl
binds BinaryOperator.not_equal = refl
binds BinaryOperator.less = refl
binds BinaryOperator.less_or_equal = refl
binds BinaryOperator.greater = refl
binds BinaryOperator.greater_or_equal = refl
binds BinaryOperator.and_ = refl
binds BinaryOperator.or_ = refl
binds BinaryOperator.matches = refl

-- An operand, and the loop after it.
first_operand :
    (p : Recursion) (m : ℕ) (a : ℤ) (op : BinaryOperator) (rest : Tokens)
    → parse_expression p 0 m (number a ∷ at_start (spelling op) ∷ rest)
      ≡ parse_operators (suc (suc (length rest))) p 0 m (Node.int a) (at_start (spelling op) ∷ rest)
unfolding parse_expression
first_operand p m a op rest = rw (operand p 0 a op rest (omega arith)) refl

-- The right operand of `first`: all of `b second c` when `second` binds tighter, else `b`.
right_operand :
    (p : Recursion) (b c : ℤ) (first second : BinaryOperator)
    → let right = number b ∷ at_start (spelling second) ∷ number c ∷ [] in
      p.expression 0 (precedence second + 1) (number c ∷ []) ≡ ok (Node.int c, [])
      → parse_expression p 0 (precedence first + 1) right
        ≡ ok (
            if ltb (precedence first) (precedence second)
            then (Node.binary second (Node.int b) (Node.int c), [])
            else (Node.int b, at_start (spelling second) ∷ number c ∷ []))
right_operand p b c first second e =
    elim (Bool-cases (ltb (precedence first) (precedence second))) [
      | inl tighter ↦ rw tighter (
          first_operand p (precedence first + 1) b second (number c ∷ [])
          ∙ takes_operator 2 p (precedence first + 1) (Node.int b) (Node.int c) second
              (number c ∷ []) [] (ground (arith, tighter)) e
          ∙ no_operators 1 p (precedence first + 1) _)
      | inr looser ↦ rw looser (
          first_operand p (precedence first + 1) b second (number c ∷ [])
          ∙ leaves_operator 2 p (precedence first + 1) (Node.int b) second (number c ∷ [])
              (ground (arith, looser)))
    ]

grouped :
    (size : ℕ) (a b c : ℤ) (first second : BinaryOperator)
    → parse_expression (parsers size 5) 0 0 (three_operands a first b second c)
      ≡ ok (
        if ltb (precedence first) (precedence second)
            then Node.binary first (Node.int a) (Node.binary second (Node.int b) (Node.int c))
            else Node.binary second (Node.binary first (Node.int a) (Node.int b)) (Node.int c),
        [],
      )
unfolding parsers
grouped size a b c first second =
    let p = parsers size 5 in
    let right =
      right_operand (parsers size 4) b c first second (last_operand (parsers size 3) _ c) in
    let left = first_operand p 0 a first (number b ∷ at_start (spelling second) ∷ number c ∷ []) in
    elim (Bool-cases (ltb (precedence first) (precedence second))) [
      | inl tighter ↦ rw tighter (
          left
          ∙ takes_operator 4 p 0 (Node.int a) _ first _ [] (binds first) (right ∙ rw tighter refl)
          ∙ no_operators 3 p 0 _)
      | inr looser ↦ rw looser (
          left
          ∙ takes_operator 4 p 0 (Node.int a) (Node.int b) first _
              (at_start (spelling second) ∷ number c ∷ []) (binds first) (right ∙ rw looser refl)
          ∙ takes_operator 3 p 0 _ (Node.int c) second _ [] (binds second)
              (last_operand (parsers size 4) (precedence second + 1) c)
          ∙ no_operators 2 p 0 _)
    ]

parsed_whole :
    (size : ℕ) (ts : Tokens) (node : Node)
    → parse_expression (parsers size (length ts)) 0 0 ts ≡ ok (node, [])
    → parse_tokens size ts ≡ ok node
unfolding parse_tokens parsers
parsed_whole size ts node e = rw (parse_tokens, e) refl

-- `a first b second c` parses to a tree that groups to the right exactly when the second operator
-- binds tighter; with equal precedence it groups to the left.
pub parse_tokens-three_operands :
    (size : ℕ) (a b c : ℤ) (first second : BinaryOperator)
    → parse_tokens size (three_operands a first b second c)
      ≡ ok (
          if ltb (precedence first) (precedence second)
          then Node.binary first (Node.int a) (Node.binary second (Node.int b) (Node.int c))
          else Node.binary second (Node.binary first (Node.int a) (Node.int b)) (Node.int c))
parse_tokens-three_operands size a b c first second =
    parsed_whole size _ _ (grouped size a b c first second)
