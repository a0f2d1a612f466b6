-- ===== src/Spel/Expressions.antt =====
-- crates/spel/src/parser.rs, the functions from `parse_primary` to `parse`.
pub mod Ends
pub mod Primaries
pub mod Operands
pub mod Total
pub mod Nesting
pub mod Precedence
use shinyproxy_rust.Base.{
  ℕ, zero, suc, ◌+◌, ◌-◌, max, String, str_eq, Bool, true, false, not, Option, none, some, [], ◌∷◌,
  map, ltb, leb, if◌then◌else◌, length,
}
use shinyproxy_rust.Base.Result.{Result, ok, err, and_then}
use shinyproxy_rust.Spel.Ast.{
  Node, Nodes, Entries, no_nodes, UnaryOperator, BinaryOperator, precedence, Token, SpannedToken,
}
use shinyproxy_rust.Spel.Parser.{
  identifier_of, SpelError, syntax, unsupported, out_of_fuel, Tokens, Parsed, Recursion,
  max_nesting, peek_position, peek, eat_symbol, expect_symbol, is_symbol, peek_binary_operator,
  enclosed, parse_items, parse_arguments, parse_type_name, map_key_and_colon, parse_entries,
  trailing_input, expected_name, expected_value, unterminated_collection, too_deep,
  constructor_call,
}

unfoldable pub close_collection : ℕ → Tokens → Result Tokens SpelError
unfolding eat_symbol
close_collection position ts = elim (eat_symbol "}" ts) [
  | none ↦ err (syntax position unterminated_collection)
  | some rest ↦ ok rest
]

-- `{}`, `{1, 2}` (list) and `{key: value}` (map), after the brace.
unfoldable pub parse_inline_collection : Recursion → ℕ → ℕ → Tokens → Parsed Node
unfolding eat_symbol map_key_and_colon parse_entries parse_items close_collection and_then
parse_inline_collection p depth position ts = elim (eat_symbol "}" ts) [
  | some rest ↦ ok (Node.list_literal no_nodes, rest)
  | none ↦ elim (map_key_and_colon ts) [
    | some key ↦
        and_then (parse_entries (suc (length key.1)) p depth key.0 key.1)
          (λ r. ok (Node.map_literal r.0, r.1))
    | none ↦
        and_then (parse_items (suc (length ts)) p depth (close_collection position) ts)
          (λ r. ok (Node.list_literal r.0, r.1))
  ]
]

-- A call of a helper function of the root, or a property of the root.
unfoldable pub parse_root : Recursion → ℕ → String → Tokens → Parsed Node
unfolding eat_symbol parse_arguments and_then
parse_root p depth name ts = elim (eat_symbol "(" ts) [
  | none ↦ ok (Node.root name, ts)
  | some rest ↦ and_then (parse_arguments p depth rest) (λ r. ok (Node.call_root name r.0, r.1))
]

-- `T(...)`, when a parenthesis follows.
unfoldable pub parse_type : Recursion → ℕ → ℕ → Tokens → Parsed Node
unfolding eat_symbol parse_type_name expect_symbol and_then parse_root
parse_type p depth position ts = elim (eat_symbol "(" ts) [
  | none ↦ parse_root p depth "T" ts
  | some rest ↦
      and_then (parse_type_name (suc (length rest)) position rest)
        (λ r. and_then (expect_symbol p.size ")" r.1) (λ left. ok (Node.type_ r.0, left)))
]

unfoldable pub parse_word : Recursion → ℕ → ℕ → String → Tokens → Parsed Node
unfolding parse_root parse_type
parse_word p depth position name ts =
    if str_eq name "true"
    then ok (Node.bool true, ts)
    else if str_eq name "false"
    then ok (Node.bool false, ts)
    else if str_eq name "null"
    then ok (Node.null, ts)
    else if str_eq name "new"
    then err (unsupported position constructor_call)
    else if str_eq name "T"
    then parse_type p depth position ts
    else parse_root p depth name ts

unfoldable pub primary_of : Recursion → ℕ → ℕ → Token → Tokens → Parsed Node
unfolding parse_word parse_inline_collection enclosed
primary_of p depth position (Token.int value) ts = ok (Node.int value, ts)
primary_of p depth position (Token.float value) ts = ok (Node.float value, ts)
primary_of p depth position (Token.string value) ts = ok (Node.str value, ts)
primary_of p depth position (Token.variable name) ts = ok (Node.variable name, ts)
primary_of p depth position (Token.bean name) ts = ok (Node.bean name, ts)
primary_of p depth position (Token.identifier name) ts = parse_word p depth position name ts
primary_of p depth position (Token.symbol s) ts =
    if str_eq s "("
    then enclosed p depth ")" (λ node. node) ts
    else if str_eq s "{"
    then parse_inline_collection p depth position ts
    else err (syntax position (expected_value (some (Token.symbol s))))

unfoldable pub parse_primary : Recursion → ℕ → Tokens → Parsed Node
unfolding primary_of
parse_primary p depth [] = err (syntax p.size (expected_value none))
parse_primary p depth (t ∷ ts) = primary_of p depth t.position t.token ts

-- The name after a dot, and the arguments when it is a call.
unfoldable pub parse_member : Recursion → ℕ → Bool → Node → Tokens → Parsed Node
unfolding eat_symbol parse_arguments and_then identifier_of
parse_member p depth safe node [] = err (syntax p.size (expected_name none))
parse_member p depth safe node (t ∷ ts) = elim (identifier_of t.token) [
  | none ↦ err (syntax t.position (expected_name (some t.token)))
  | some name ↦ elim (eat_symbol "(" ts) [
    | none ↦ ok (Node.property node name safe, ts)
    | some rest ↦
        and_then (parse_arguments p depth rest) (λ r. ok (Node.call node name r.0 safe, r.1))
  ]
]

-- One postfix, or `none` when there is no further one.
unfoldable pub parse_one_postfix : Recursion → ℕ → Node → Tokens → Option (Parsed Node)
unfolding eat_symbol enclosed parse_member
parse_one_postfix p depth node ts = elim (eat_symbol ".![" ts) [
  | some rest ↦ some (enclosed p depth "]" (Node.projection node) rest)
  | none ↦ elim (eat_symbol ".?[" ts) [
    | some rest ↦ some (enclosed p depth "]" (Node.selection node) rest)
    | none ↦ elim (eat_symbol "?." ts) [
      | some rest ↦ some (parse_member p depth true node rest)
      | none ↦ elim (eat_symbol "." ts) [
        | some rest ↦ some (parse_member p depth false node rest)
        | none ↦ elim (eat_symbol "[" ts) [
          | some rest ↦ some (enclosed p depth "]" (Node.index node) rest)
          | none ↦ none
        ]
      ]
    ]
  ]
]

-- The loop of `parse_postfix`.
unfoldable pub parse_postfixes : ℕ → Recursion → ℕ → Node → Tokens → Parsed Node
unfolding parse_one_postfix and_then
parse_postfixes zero p depth node ts = err out_of_fuel
parse_postfixes (suc fuel) p depth node ts = elim (parse_one_postfix p depth node ts) [
  | none ↦ ok (node, ts)
  | some parsed ↦ and_then parsed (λ r. parse_postfixes fuel p depth r.0 r.1)
]

unfoldable pub parse_postfix : Recursion → ℕ → Tokens → Parsed Node
unfolding parse_primary parse_postfixes and_then
parse_postfix p depth ts =
    and_then (parse_primary p depth ts) (λ r. parse_postfixes (suc (length r.1)) p depth r.0 r.1)

unfoldable pub unary_operator : Token → Option UnaryOperator
unary_operator (Token.symbol s) =
    if str_eq s "!"
    then some UnaryOperator.not_
    else if str_eq s "-"
    then some UnaryOperator.negate
    else none
unary_operator (Token.identifier name) = if str_eq name "not" then some UnaryOperator.not_ else none
unary_operator _ = none

unfoldable pub parse_unary_operand : Recursion → ℕ → Tokens → Parsed Node
unfolding unary_operator parse_postfix and_then
parse_unary_operand p depth [] = parse_postfix p depth []
parse_unary_operand p depth (t ∷ ts) = elim (unary_operator t.token) [
  | none ↦ parse_postfix p depth (t ∷ ts)
  | some operator ↦ and_then (p.unary depth ts) (λ r. ok (Node.unary operator r.0, r.1))
]

unfoldable pub parse_unary : Recursion → ℕ → Tokens → Parsed Node
unfolding parse_unary_operand peek_position
parse_unary p depth ts =
    if leb max_nesting depth
    then err (syntax (peek_position p.size ts) too_deep)
    else parse_unary_operand p (depth + 1) ts

-- The rest of a ternary, after the question mark.
unfoldable pub parse_ternary : Recursion → ℕ → Node → Tokens → Parsed Node
unfolding expect_symbol and_then
parse_ternary p depth condition ts = and_then (p.expression depth 0 ts) (λ then_.
    and_then (expect_symbol p.size ":" then_.1) (λ rest.
      and_then (p.expression depth 0 rest)
        (λ otherwise. ok (Node.ternary condition then_.0 otherwise.0, otherwise.1))))

-- The next binary operator that binds tightly enough, and its right operand.
unfoldable pub parse_binary : Recursion → ℕ → ℕ → Node → Tokens → Option (Parsed Node)
unfolding peek_binary_operator precedence and_then
parse_binary p depth minimum_precedence left ts = elim (peek_binary_operator ts) [
  | none ↦ none
  | some found ↦
      if ltb (precedence found.0) (max minimum_precedence 1)
      then none
      else some (
          and_then (p.expression depth (precedence found.0 + 1) found.1)
            (λ right. ok (Node.binary found.0 left right.0, right.1)))
]

-- One round of the loop of `parse_expression`: ternary and elvis bind loosest.
unfoldable pub parse_one_operator : Recursion → ℕ → ℕ → Node → Tokens → Option (Parsed Node)
unfolding eat_symbol parse_ternary parse_binary and_then
parse_one_operator p depth zero left ts = elim (eat_symbol "?:" ts) [
  | some rest ↦ some (
      and_then (p.expression depth 0 rest)
        (λ fallback. ok (Node.elvis left fallback.0, fallback.1)))
  | none ↦ elim (eat_symbol "?" ts) [
    | some rest ↦ some (parse_ternary p depth left rest)
    | none ↦ parse_binary p depth 0 left ts
  ]
]
parse_one_operator p depth (suc n) left ts = parse_binary p depth (suc n) left ts

-- The loop of `parse_expression`.
unfoldable pub parse_operators : ℕ → Recursion → ℕ → ℕ → Node → Tokens → Parsed Node
unfolding parse_one_operator and_then
parse_operators zero p depth minimum_precedence left ts = err out_of_fuel
parse_operators (suc fuel) p depth minimum_precedence left ts =
    elim (parse_one_operator p depth minimum_precedence left ts) [
      | none ↦ ok (left, ts)
      | some parsed ↦ and_then parsed (λ r. parse_operators fuel p depth minimum_precedence r.0 r.1)
    ]

unfoldable pub parse_expression : Recursion → ℕ → ℕ → Tokens → Parsed Node
unfolding parse_unary parse_operators and_then
parse_expression p depth minimum_precedence ts =
    and_then (parse_unary p depth ts)
      (λ r. parse_operators (suc (length r.1)) p depth minimum_precedence r.0 r.1)

-- The parser that may call itself `fuel` times within itself.
unfoldable pub parsers : ℕ → ℕ → Recursion
unfolding parse_unary parse_expression
parsers size zero = record {
  size = size;
  unary = λ _ _. err out_of_fuel;
  expression = λ _ _ _. err out_of_fuel;
}
parsers size (suc fuel) = record {
  size = size;
  unary = parse_unary (parsers size fuel);
  expression = parse_expression (parsers size fuel);
}

-- `parse`, on the tokens of an expression of `size` bytes.
unfoldable pub parse_tokens : ℕ → Tokens → Result Node SpelError
unfolding parsers
parse_tokens size ts = elim ((parsers size (suc (length ts))).expression 0 0 ts) [
  | err e ↦ err e
  | ok r ↦ elim r.1 [ [] ↦ ok r.0 | t ∷ _ ↦ err (syntax t.position (trailing_input t.token)) ]
]
