-- ===== src/Spel/Examples.antt =====
-- Concrete expressions, and the theorems about the parser at them.
use shinyproxy_rust.Base.{◌≤◌, ◌<◌, ◌≡◌, [], ◌∷◌}
use shinyproxy_rust.Base.Int.{pos}
use shinyproxy_rust.Base.Result.{ok, err}
use shinyproxy_rust.Spel.Ast.{Node, Token, BinaryOperator, precedence}
use shinyproxy_rust.Spel.Parser.{syntax, Tokens, max_nesting, too_deep}
use shinyproxy_rust.Spel.Expressions.{parse_tokens}
use shinyproxy_rust.Spel.Expressions.Nesting.{
  at_start, minuses, negated, elvis_chain, fallbacks, parse_tokens-minuses,
  parse_tokens-elvis_chain,
}
use shinyproxy_rust.Spel.Expressions.Precedence.{three_operands, parse_tokens-three_operands}

-- `proxy.id == (1)`
abbrev comparison : Tokens
comparison =
    at_start (Token.identifier "proxy")
    ∷ at_start (Token.symbol ".")
    ∷ at_start (Token.identifier "id")
    ∷ at_start (Token.symbol "==")
    ∷ at_start (Token.symbol "(")
    ∷ at_start (Token.int (pos 1))
    ∷ at_start (Token.symbol ")")
    ∷ []

parse_tokens-minuses_example :
    (70 < max_nesting → parse_tokens 71 (minuses 70) ≡ ok (negated 70))
    × (max_nesting ≤ 70 → parse_tokens 71 (minuses 70) ≡ err (syntax 0 too_deep))
parse_tokens-minuses_example = parse_tokens-minuses 71 70

parse_tokens-elvis_chain_example : parse_tokens 9 (elvis_chain 2) ≡ ok (fallbacks 2)
parse_tokens-elvis_chain_example = parse_tokens-elvis_chain 9 2

parse_tokens-three_operands_example :
    parse_tokens 5
      (three_operands (pos 1) BinaryOperator.add (pos 2) BinaryOperator.multiply (pos 3))
    ≡ ok (
        Node.binary BinaryOperator.add
          (Node.int (pos 1))
          (Node.binary BinaryOperator.multiply (Node.int (pos 2)) (Node.int (pos 3))))
unfolding precedence
parse_tokens-three_operands_example =
    parse_tokens-three_operands 5 (pos 1) (pos 2) (pos 3) BinaryOperator.add BinaryOperator.multiply
