-- ===== src/Spel/Expressions/Total.antt =====
-- The parser ends on every list of tokens.
use shinyproxy_rust.Base.{
  ℕ, zero, suc, ◌+◌, ◌≤◌, ◌<◌, max, ◌≡◌, refl, subst, ◌⊎◌, inl, inr, false, some, [], ◌∷◌, arith,
  ltb, Bool-cases, Option-cases, length,
}
use shinyproxy_rust.Base.Result.{ok, err}
use shinyproxy_rust.Spel.Ast.{Node, BinaryOperator, precedence}
use shinyproxy_rust.Spel.Parser.{
  trailing_input, SpelError, Tokens, Parsed, Recursion, eat_symbol, binary_operator,
  peek_binary_operator,
}
use shinyproxy_rust.Spel.Expressions.{
  syntax, parse_ternary, parse_binary, parse_one_operator, parse_operators, parse_expression,
  parsers, parse_tokens,
}
use shinyproxy_rust.Spel.Expressions.Ends.{
  is_out_of_fuel, Ends, EndsBelow, Ends-le, and_then-Ends, and_then-LeavesFewer,
  expect_symbol-LeavesFewer,
}
use shinyproxy_rust.Spel.Expressions.Operands.{RoundEnds, after_symbol, parse_unary-Ends}

peek_binary_operator-less :
    (ts rest : Tokens) (operator : BinaryOperator)
    → peek_binary_operator ts ≡ some (operator, rest)
    → length rest < length ts
unfolding peek_binary_operator
peek_binary_operator-less [] rest operator e = absurd (ground (arith, e))
peek_binary_operator-less (t ∷ ts) rest operator e = elim (Option-cases (binary_operator t.token)) [
  | inl none_there ↦ absurd (ground (arith, e, none_there))
  | inr (found, there) ↦
      let same : ts ≡ rest = ground (arith, e, there) in
      subst (λ x. length x < suc (length ts)) same (omega arith)
]

module _ (n : ℕ) (p : Recursion) (total : EndsBelow n p) where
  parse_ternary-Ends :
      (depth : ℕ) (node : Node) (ts : Tokens)
      → length ts < n
      → Ends (length ts) (parse_ternary p depth node ts)
  unfolding parse_ternary
  parse_ternary-Ends depth node ts h =
      and_then-Ends (length ts) (length ts) _ _ (total.1 depth 0 ts h) (λ then_ rest k.
        and_then-LeavesFewer (length rest) (length ts) _ _
          (expect_symbol-LeavesFewer p.size ":" rest)
          (λ left j.
            and_then-Ends (length left) (length ts) _ _
              (total.1 depth 0 left (omega (arith, h, j, k))) (λ a last i. omega (arith, i, j, k))))

  parse_binary-RoundEnds :
      (depth m : ℕ) (left : Node) (ts : Tokens)
      → length ts ≤ n
      → RoundEnds (length ts) (parse_binary p depth m left ts)
  unfolding parse_binary
  parse_binary-RoundEnds depth m left ts h = elim (Option-cases (peek_binary_operator ts)) [
    | inl e ↦ rw (e, parse_binary) tt
    | inr (found, e) ↦
        let less = peek_binary_operator-less ts found.1 found.0 e in
        elim (Bool-cases (ltb (precedence found.0) (max m 1))) [
          | inl loose ↦ rw (e, parse_binary, loose) tt
          | inr tight ↦
              rw (e, parse_binary, tight)
                (and_then-Ends (length found.1) (length ts) _ _
                  (total.1 depth (precedence found.0 + 1) found.1 (omega (arith, h, less)))
                  (λ a rest k. omega (arith, k, less)))
        ]
  ]

  parse_one_operator-RoundEnds :
      (depth m : ℕ) (left : Node) (ts : Tokens)
      → length ts ≤ n
      → RoundEnds (length ts) (parse_one_operator p depth m left ts)
  unfolding parse_one_operator
  parse_one_operator-RoundEnds depth (suc m) left ts h =
      parse_binary-RoundEnds depth (suc m) left ts h
  parse_one_operator-RoundEnds depth zero left ts h = elim (Option-cases (eat_symbol "?:" ts)) [
    | inr (rest, e) ↦
        rw (e, parse_one_operator)
          (after_symbol n p total "?:" ts rest _ h e (λ k.
            and_then-Ends (length rest) (length rest) _ _ (total.1 depth 0 rest k) (λ a last j. j)))
    | inl e ↦ elim (Option-cases (eat_symbol "?" ts)) [
      | inr (rest, f) ↦
          rw (e, parse_one_operator, f)
            (after_symbol n p total "?" ts rest _ h f (parse_ternary-Ends depth left rest))
      | inl f ↦ rw (e, parse_one_operator, f) (parse_binary-RoundEnds depth 0 left ts h)
    ]
  ]

  parse_operators-Ends :
      (fuel depth m : ℕ) (left : Node) (ts : Tokens)
      → length ts < fuel
      → length ts ≤ n
      → Ends (suc (length ts)) (parse_operators fuel p depth m left ts)
  unfolding parse_operators
  parse_operators-Ends zero depth m left ts h k = absurd (omega (arith, h))
  parse_operators-Ends (suc fuel) depth m left ts h k =
      let round = parse_one_operator-RoundEnds depth m left ts k in
      elim (Option-cases (parse_one_operator p depth m left ts)) [
        | inl e ↦ rw (e, parse_operators) (omega arith)
        | inr (parsed, e) ↦
            rw (e, parse_operators)
              (and_then-Ends (length ts) (suc (length ts)) parsed _
                (subst (RoundEnds (length ts)) e round)
                (λ a rest j. Ends-le (suc (length rest)) (suc (length ts)) _ (omega (arith, j)) (
                  parse_operators-Ends fuel depth m a rest (omega (arith, h, j))
                    (omega (arith, k, j)))))
      ]

  pub parse_expression-Ends :
      (depth m : ℕ) (ts : Tokens) → length ts ≤ n → Ends (length ts) (parse_expression p depth m ts)
  unfolding parse_expression
  parse_expression-Ends depth m ts h =
      and_then-Ends (length ts) (length ts) _ _ (parse_unary-Ends n p total depth ts h) (λ a rest k.
        Ends-le (suc (length rest)) (length ts) _ (omega (arith, k)) (
          parse_operators-Ends (suc (length rest)) depth m a rest (omega arith)
            (omega (arith, h, k))))

-- The fuel that a list of tokens needs is its length and one more.
pub parsers-EndsBelow : (size fuel : ℕ) → EndsBelow fuel (parsers size fuel)
unfolding parsers
parsers-EndsBelow size zero =
    (λ depth ts h. absurd (omega (arith, h)), λ depth m ts h. absurd (omega (arith, h)))
parsers-EndsBelow size (suc fuel) =
    let below = parsers-EndsBelow size fuel in
    (
      λ depth ts h. parse_unary-Ends fuel (parsers size fuel) below depth ts (omega (arith, h)),
      λ depth m ts h.
          parse_expression-Ends fuel (parsers size fuel) below depth m ts (omega (arith, h)),
    )

-- `parse` ends on every list of tokens: with fuel for each token it never runs out of it, so it
-- answers with a tree or with an error that names a fault of the expression.
pub parse_tokens_total :
    (size : ℕ) (ts : Tokens)
    → ((node : Node) × (parse_tokens size ts ≡ ok node))
      ⊎ ((e : SpelError) × (parse_tokens size ts ≡ err e) × (is_out_of_fuel e ≡ false))
unfolding parse_tokens is_out_of_fuel
parse_tokens_total size ts =
    go ((parsers size (suc (length ts))).expression 0 0 ts) refl
      ((parsers-EndsBelow size (suc (length ts))).1 0 0 ts (omega arith))
  where
    go :
        (r : Parsed Node)
        → (parsers size (suc (length ts))).expression 0 0 ts ≡ r
        → Ends (length ts) r
        → ((node : Node) × (parse_tokens size ts ≡ ok node))
          ⊎ ((e : SpelError) × (parse_tokens size ts ≡ err e) × (is_out_of_fuel e ≡ false))
    go (err e) same ends = inr (e, rw (same, parse_tokens) refl, ends)
    go (ok (node, [])) same ends = inl (node, rw (same, parse_tokens) refl)
    go (ok (node, t ∷ rest)) same ends =
        inr (syntax t.position (trailing_input t.token), rw (same, parse_tokens) refl, refl)
