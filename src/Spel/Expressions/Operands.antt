-- ===== src/Spel/Expressions/Operands.antt =====
-- `parse_unary` and `parse_postfix` end.
use shinyproxy_rust.Base.{
  ℕ, zero, suc, ◌+◌, ◌≤◌, ◌<◌, String, ◌≡◌, refl, subst, inl, inr, Bool, true, false, Option, none,
  some, [], ◌∷◌, arith, leb, Bool-cases, Option-cases, length,
}
use shinyproxy_rust.Spel.Ast.{Node}
use shinyproxy_rust.Spel.Parser.{Tokens, Parsed, Recursion, max_nesting, eat_symbol, identifier_of}
use shinyproxy_rust.Spel.Expressions.{
  parse_member, parse_one_postfix, parse_postfixes, parse_postfix, unary_operator,
  parse_unary_operand, parse_unary,
}
use shinyproxy_rust.Spel.Expressions.Ends.{
  is_out_of_fuel, Ends, EndsBelow, Ends-le, and_then-Ends, length-eat_symbol, enclosed-Ends,
  parse_arguments-Ends,
}
use shinyproxy_rust.Spel.Expressions.Primaries.{parse_primary-Ends}

-- A round of a loop that goes on leaves fewer tokens.
abbrev pub RoundEnds : ℕ → Option (Parsed Node) → Type 0
RoundEnds n none = Unit {0}
RoundEnds n (some r) = Ends n r

module _ (n : ℕ) (p : Recursion) (total : EndsBelow n p) where
  parse_member-Ends :
      (depth : ℕ) (safe : Bool) (node : Node) (ts : Tokens)
      → length ts < n
      → Ends (length ts) (parse_member p depth safe node ts)
  unfolding parse_member is_out_of_fuel
  parse_member-Ends depth safe node [] h = refl
  parse_member-Ends depth safe node (t ∷ ts) h = elim (Option-cases (identifier_of t.token)) [
    | inl e ↦ rw (e, parse_member) refl
    | inr (name, e) ↦ elim (Option-cases (eat_symbol "(" ts)) [
      | inl e' ↦ rw (e, parse_member, e') (omega arith)
      | inr (rest, e') ↦
          let less = length-eat_symbol "(" ts rest e' in
          rw (e, parse_member, e')
            (and_then-Ends (length rest) (suc (length ts)) _ _
              (parse_arguments-Ends n p total depth rest (omega (arith, h, less)))
              (λ a left k. omega (arith, k, less)))
    ]
  ]

  -- A postfix that starts with a symbol, when what follows the symbol ends.
  pub after_symbol :
      (s : String) (ts rest : Tokens) (r : Parsed Node)
      → length ts ≤ n
      → eat_symbol s ts ≡ some rest
      → (length rest < n → Ends (length rest) r)
      → Ends (length ts) r
  after_symbol s ts rest r h e ends =
      let less = length-eat_symbol s ts rest e in
      Ends-le (length rest) (length ts) r (omega (arith, less)) (ends (omega (arith, h, less)))

  parse_one_postfix-RoundEnds :
      (depth : ℕ) (node : Node) (ts : Tokens)
      → length ts ≤ n
      → RoundEnds (length ts) (parse_one_postfix p depth node ts)
  unfolding parse_one_postfix
  parse_one_postfix-RoundEnds depth node ts h = elim (Option-cases (eat_symbol ".![" ts)) [
    | inr (rest, e) ↦
        rw (e, parse_one_postfix)
          (after_symbol ".![" ts rest _ h e
            (enclosed-Ends n p total depth "]" (Node.projection node) rest))
    | inl e ↦ elim (Option-cases (eat_symbol ".?[" ts)) [
      | inr (rest, f) ↦
          rw (e, parse_one_postfix, f)
            (after_symbol ".?[" ts rest _ h f
              (enclosed-Ends n p total depth "]" (Node.selection node) rest))
      | inl f ↦ elim (Option-cases (eat_symbol "?." ts)) [
        | inr (rest, g) ↦
            rw (e, parse_one_postfix, f, g)
              (after_symbol "?." ts rest _ h g (parse_member-Ends depth true node rest))
        | inl g ↦ elim (Option-cases (eat_symbol "." ts)) [
          | inr (rest, i) ↦
              rw (e, parse_one_postfix, f, g, i)
                (after_symbol "." ts rest _ h i (parse_member-Ends depth false node rest))
          | inl i ↦ elim (Option-cases (eat_symbol "[" ts)) [
            | inr (rest, j) ↦
                rw (e, parse_one_postfix, f, g, i, j)
                  (after_symbol "[" ts rest _ h j
                    (enclosed-Ends n p total depth "]" (Node.index node) rest))
            | inl j ↦ rw (e, parse_one_postfix, f, g, i, j) tt
          ]
        ]
      ]
    ]
  ]

  parse_postfixes-Ends :
      (fuel depth : ℕ) (node : Node) (ts : Tokens)
      → length ts < fuel
      → length ts ≤ n
      → Ends (suc (length ts)) (parse_postfixes fuel p depth node ts)
  unfolding parse_postfixes
  parse_postfixes-Ends zero depth node ts h k = absurd (omega (arith, h))
  parse_postfixes-Ends (suc fuel) depth node ts h k =
      let round = parse_one_postfix-RoundEnds depth node ts k in
      elim (Option-cases (parse_one_postfix p depth node ts)) [
        | inl e ↦ rw (e, parse_postfixes) (omega arith)
        | inr (parsed, e) ↦
            rw (e, parse_postfixes)
              (and_then-Ends (length ts) (suc (length ts)) parsed _
                (subst (RoundEnds (length ts)) e round)
                (λ a rest j. Ends-le (suc (length rest)) (suc (length ts)) _ (omega (arith, j)) (
                  parse_postfixes-Ends fuel depth a rest (omega (arith, h, j))
                    (omega (arith, k, j)))))
      ]

  parse_postfix-Ends :
      (depth : ℕ) (ts : Tokens) → length ts ≤ n → Ends (length ts) (parse_postfix p depth ts)
  unfolding parse_postfix
  parse_postfix-Ends depth ts h =
      and_then-Ends (length ts) (length ts) _ _ (parse_primary-Ends n p total depth ts h)
        (λ a rest k. Ends-le (suc (length rest)) (length ts) _ (omega (arith, k)) (
          parse_postfixes-Ends (suc (length rest)) depth a rest (omega arith)
            (omega (arith, h, k))))

  parse_unary_operand-Ends :
      (depth : ℕ) (ts : Tokens) → length ts ≤ n → Ends (length ts) (parse_unary_operand p depth ts)
  unfolding parse_unary_operand
  parse_unary_operand-Ends depth [] h = parse_postfix-Ends depth [] h
  parse_unary_operand-Ends depth (t ∷ ts) h = elim (Option-cases (unary_operator t.token)) [
    | inl e ↦ rw (e, parse_unary_operand) (parse_postfix-Ends depth (t ∷ ts) h)
    | inr (operator, e) ↦
        rw (e, parse_unary_operand)
          (and_then-Ends (length ts) (suc (length ts)) _ _ (total.0 depth ts (omega (arith, h)))
            (λ a rest k. omega (arith, k)))
  ]

  pub parse_unary-Ends :
      (depth : ℕ) (ts : Tokens) → length ts ≤ n → Ends (length ts) (parse_unary p depth ts)
  unfolding parse_unary is_out_of_fuel
  parse_unary-Ends depth ts h = elim (Bool-cases (leb max_nesting depth)) [
    | inl e ↦ rw e refl
    | inr e ↦ rw e (parse_unary_operand-Ends (depth + 1) ts h)
  ]
