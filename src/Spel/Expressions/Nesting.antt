-- ===== src/Spel/Expressions/Nesting.antt =====
-- Which nesting the limit of 64 levels stops.
use shinyproxy_rust.Base.{
  ℕ, zero, suc, ◌+◌, ◌≤◌, ◌<◌, ◌≡◌, refl, inl, inr, true, false, [], ◌∷◌, arith, leb, Bool-cases,
  length,
}
use shinyproxy_rust.Base.Int.{pos}
use shinyproxy_rust.Base.Result.{ok, err}
use shinyproxy_rust.Spel.Ast.{Node, UnaryOperator, Token, SpannedToken}
use shinyproxy_rust.Spel.Parser.{syntax, too_deep, Tokens, max_nesting}
use shinyproxy_rust.Spel.Expressions.{
  parsers, parse_tokens, parse_unary, parse_expression, parse_unary_operand, parse_postfix,
  parse_operators,
}

abbrev pub at_start : Token → SpannedToken
at_start token = record { token = token; position = 0 }

abbrev pub one : SpannedToken
one = at_start (Token.int (pos 1))

-- The tokens of `--…-1`, and its tree.
abbrev pub minuses : ℕ → Tokens
minuses zero = one ∷ []
minuses (suc n) = at_start (Token.symbol "-") ∷ minuses n

abbrev pub negated : ℕ → Node
negated zero = Node.int (pos 1)
negated (suc n) = Node.unary UnaryOperator.negate (negated n)

shallow : (depth n : ℕ) → depth + n < max_nesting → leb max_nesting depth ≡ false
shallow depth n h = ground (arith, h)

minuses_fit :
    (size fuel depth n : ℕ)
    → n ≤ fuel
    → depth + n < max_nesting
    → parse_unary (parsers size fuel) depth (minuses n) ≡ ok (negated n, [])
unfolding parse_unary parsers parse_unary_operand parse_postfix
minuses_fit size fuel depth zero h k = rw (shallow depth 0 k) refl
minuses_fit size zero depth (suc n) h k = absurd (omega (arith, h))
minuses_fit size (suc fuel) depth (suc n) h k =
    rw
      (
        shallow depth (suc n) k,
        minuses_fit size fuel (depth + 1) n (omega (arith, h)) (omega (arith, k)),
      )
      refl

minuses_too_deep :
    (size fuel depth n : ℕ)
    → n ≤ fuel
    → depth ≤ max_nesting
    → max_nesting ≤ depth + n
    → parse_unary (parsers size fuel) depth (minuses n) ≡ err (syntax 0 too_deep)
unfolding parse_unary parsers parse_unary_operand
minuses_too_deep size fuel depth zero h j k =
    let deep : leb max_nesting depth ≡ true = ground (arith, k) in rw deep refl
minuses_too_deep size zero depth (suc n) h j k = absurd (omega (arith, h))
minuses_too_deep size (suc fuel) depth (suc n) h j k = elim (Bool-cases (leb max_nesting depth)) [
  | inl deep ↦ rw deep refl
  | inr e ↦
      rw
        (
          e,
          minuses_too_deep size fuel (depth + 1) n (omega (arith, h)) (ground (arith, e, j))
              (omega (arith, k)),
        )
        refl
]

length-minuses : (n : ℕ) → length (minuses n) ≡ suc n
length-minuses zero = refl
length-minuses (suc n) = omega (arith, length-minuses n)

-- Up to 63 minus signs before a number parse to as many negations, and more are refused as too
-- deep.
pub parse_tokens-minuses :
    (size n : ℕ)
    → (n < max_nesting → parse_tokens size (minuses n) ≡ ok (negated n))
      × (max_nesting ≤ n → parse_tokens size (minuses n) ≡ err (syntax 0 too_deep))
unfolding parse_tokens parsers parse_expression
parse_tokens-minuses size n =
    let fuel = length (minuses n) in
    let enough : n ≤ fuel = omega (arith, length-minuses n) in
    (
      λ h. rw (parse_tokens, minuses_fit size fuel 0 n enough (omega (arith, h))) refl,
      λ h.
          rw (parse_tokens, minuses_too_deep size fuel 0 n enough (omega arith) (omega (arith, h)))
            refl,
    )

-- The tokens of `1 ?: … ?: 1`, and its tree.
abbrev pub elvis_chain : ℕ → Tokens
elvis_chain zero = one ∷ []
elvis_chain (suc n) = one ∷ at_start (Token.symbol "?:") ∷ elvis_chain n

abbrev pub fallbacks : ℕ → Node
fallbacks zero = Node.int (pos 1)
fallbacks (suc n) = Node.elvis (Node.int (pos 1)) (fallbacks n)

elvis_chain_lem :
    (size fuel n : ℕ)
    → n ≤ fuel
    → parse_expression (parsers size fuel) 0 0 (elvis_chain n) ≡ ok (fallbacks n, [])
unfolding parse_expression parse_unary parsers parse_unary_operand parse_postfix parse_operators
elvis_chain_lem size fuel zero h = refl
elvis_chain_lem size zero (suc n) h = absurd (omega (arith, h))
elvis_chain_lem size (suc fuel) (suc n) h = rw (elvis_chain_lem size fuel n (omega (arith, h))) refl

length-elvis_chain : (n : ℕ) → n ≤ length (elvis_chain n)
length-elvis_chain zero = omega arith
length-elvis_chain (suc n) = omega (arith, length-elvis_chain n)

-- A chain of elvis operators parses whatever its length, to a tree that is as deep as the chain:
-- the limit on nesting does not count the fallbacks.
pub parse_tokens-elvis_chain : (size n : ℕ) → parse_tokens size (elvis_chain n) ≡ ok (fallbacks n)
unfolding parse_tokens parsers
parse_tokens-elvis_chain size n =
    rw (parse_tokens, elvis_chain_lem size (length (elvis_chain n)) n (length-elvis_chain n)) refl
