-- ===== src/Spel/Expressions/Primaries.antt =====
-- `parse_primary` and what it calls end.
use shinyproxy_rust.Base.{
  ℕ, suc, ◌≤◌, ◌<◌, String, str_eq, refl, subst, inl, inr, [], ◌∷◌, arith, Bool-cases, Option-cases,
  length,
}
use shinyproxy_rust.Spel.Ast.{Token}
use shinyproxy_rust.Spel.Parser.{
  Tokens, Parsed, Recursion, eat_symbol, parse_map_key, map_key_and_colon,
}
use shinyproxy_rust.Spel.Expressions.{
  close_collection, parse_inline_collection, parse_root, parse_type, parse_word, primary_of,
  parse_primary,
}
use shinyproxy_rust.Spel.Expressions.Ends.{
  is_out_of_fuel, Ends, LeftBy, EndsBelow, Ends-le, and_then-Ends, and_then-LeavesFewer,
  length-eat_symbol, expect_symbol-LeavesFewer, close_collection-LeavesFewer, parse_map_key-LeftBy,
  parse_type_name-Ends, enclosed-Ends, parse_items-Ends, parse_arguments-Ends, parse_entries-Ends,
}

-- The tokens that are left are no more than `n`.
abbrev pub EndsBy : {A : Type 0} → ℕ → Parsed A → Type 0
EndsBy n r = Ends (suc n) r

map_key_and_colon-LeftBy : (ts : Tokens) → LeftBy (length ts) (map_key_and_colon ts)
unfolding map_key_and_colon
map_key_and_colon-LeftBy ts = elim (Option-cases (parse_map_key ts)) [
  | inl e ↦ rw (e, map_key_and_colon) tt
  | inr (key, e) ↦
      let fewer = subst (LeftBy (length ts)) e (parse_map_key-LeftBy ts) in
      elim (Option-cases (eat_symbol ":" key.1)) [
        | inl e' ↦ rw (e, map_key_and_colon, e') tt
        | inr (rest, e') ↦
            rw (e, map_key_and_colon, e')
              (omega (arith, fewer, length-eat_symbol ":" key.1 rest e'))
      ]
]

module _ (n : ℕ) (p : Recursion) (total : EndsBelow n p) where
  parse_inline_collection-Ends :
      (depth position : ℕ) (ts : Tokens)
      → length ts < n
      → Ends (length ts) (parse_inline_collection p depth position ts)
  unfolding parse_inline_collection
  parse_inline_collection-Ends depth position ts h = elim (Option-cases (eat_symbol "}" ts)) [
    | inr (rest, e) ↦ rw (e, parse_inline_collection) (length-eat_symbol "}" ts rest e)
    | inl e ↦ elim (Option-cases (map_key_and_colon ts)) [
      | inl e' ↦
          rw (e, parse_inline_collection, e')
            (and_then-Ends (length ts) (length ts) _ _
              (parse_items-Ends n p total (suc (length ts)) depth (close_collection position) ts
                (close_collection-LeavesFewer position) (omega arith) h)
              (λ a rest k. k))
      | inr (key, e') ↦
          let fewer = subst (LeftBy (length ts)) e' (map_key_and_colon-LeftBy ts) in
          rw (e, parse_inline_collection, e')
            (and_then-Ends (length key.1) (length ts) _ _
              (parse_entries-Ends n p total (suc (length key.1)) depth key.0 key.1 (omega arith)
                (omega (arith, h, fewer)))
              (λ a rest k. omega (arith, k, fewer)))
    ]
  ]

  parse_root-EndsBy :
      (depth : ℕ) (name : String) (ts : Tokens)
      → length ts < n
      → EndsBy (length ts) (parse_root p depth name ts)
  unfolding parse_root
  parse_root-EndsBy depth name ts h = elim (Option-cases (eat_symbol "(" ts)) [
    | inl e ↦ rw (e, parse_root) (omega arith)
    | inr (rest, e) ↦
        let less = length-eat_symbol "(" ts rest e in
        rw (e, parse_root)
          (and_then-Ends (length rest) (suc (length ts)) _ _
            (parse_arguments-Ends n p total depth rest (omega (arith, h, less)))
            (λ a left k. omega (arith, k, less)))
  ]

  parse_type-EndsBy :
      (depth position : ℕ) (ts : Tokens)
      → length ts < n
      → EndsBy (length ts) (parse_type p depth position ts)
  unfolding parse_type
  parse_type-EndsBy depth position ts h = elim (Option-cases (eat_symbol "(" ts)) [
    | inl e ↦ rw (e, parse_type) (parse_root-EndsBy depth "T" ts h)
    | inr (rest, e) ↦
        let less = length-eat_symbol "(" ts rest e in
        rw (e, parse_type)
          (and_then-Ends (length rest) (suc (length ts)) _ _
            (parse_type_name-Ends (suc (length rest)) position rest (omega arith))
            (λ name left k.
              and_then-LeavesFewer (length left) (suc (length ts)) _ _
                (expect_symbol-LeavesFewer p.size ")" left) (λ last j. omega (arith, j, k, less))))
  ]

  parse_word-EndsBy :
      (depth position : ℕ) (name : String) (ts : Tokens)
      → length ts < n
      → EndsBy (length ts) (parse_word p depth position name ts)
  unfolding parse_word is_out_of_fuel
  parse_word-EndsBy depth position name ts h = elim (Bool-cases (str_eq name "true")) [
    | inl e ↦ rw e (omega arith)
    | inr e ↦ elim (Bool-cases (str_eq name "false")) [
      | inl f ↦ rw (e, f) (omega arith)
      | inr f ↦ elim (Bool-cases (str_eq name "null")) [
        | inl g ↦ rw (e, f, g) (omega arith)
        | inr g ↦ elim (Bool-cases (str_eq name "new")) [
          | inl i ↦ rw (e, f, g, i) refl
          | inr i ↦ elim (Bool-cases (str_eq name "T")) [
            | inl j ↦ rw (e, f, g, i, j) (parse_type-EndsBy depth position ts h)
            | inr j ↦ rw (e, f, g, i, j) (parse_root-EndsBy depth name ts h)
          ]
        ]
      ]
    ]
  ]

  primary_of-EndsBy :
      (depth position : ℕ) (token : Token) (ts : Tokens)
      → length ts < n
      → EndsBy (length ts) (primary_of p depth position token ts)
  unfolding primary_of is_out_of_fuel
  primary_of-EndsBy depth position (Token.int value) ts h = omega arith
  primary_of-EndsBy depth position (Token.float value) ts h = omega arith
  primary_of-EndsBy depth position (Token.string value) ts h = omega arith
  primary_of-EndsBy depth position (Token.variable name) ts h = omega arith
  primary_of-EndsBy depth position (Token.bean name) ts h = omega arith
  primary_of-EndsBy depth position (Token.identifier name) ts h =
      parse_word-EndsBy depth position name ts h
  primary_of-EndsBy depth position (Token.symbol s) ts h = elim (Bool-cases (str_eq s "(")) [
    | inl e ↦ rw e (
        Ends-le (length ts) (suc (length ts)) _ (omega arith)
          (enclosed-Ends n p total depth ")" (λ node. node) ts h))
    | inr e ↦ elim (Bool-cases (str_eq s "{")) [
      | inl f ↦
          rw (e, f)
            (Ends-le (length ts) (suc (length ts)) _ (omega arith)
              (parse_inline_collection-Ends depth position ts h))
      | inr f ↦ rw (e, f) refl
    ]
  ]

  pub parse_primary-Ends :
      (depth : ℕ) (ts : Tokens) → length ts ≤ n → Ends (length ts) (parse_primary p depth ts)
  unfolding parse_primary is_out_of_fuel
  parse_primary-Ends depth [] h = refl
  parse_primary-Ends depth (t ∷ ts) h =
      primary_of-EndsBy depth t.position t.token ts (omega (arith, h))
