-- ===== src/Spel/Expressions/Ends.antt =====
-- Every function of the parser ends: it fails, or it leaves fewer tokens.
use shinyproxy_rust.Base.{
  ℕ, zero, suc, ◌≤◌, ◌<◌, String, ◌≡◌, refl, subst, inl, inr, Bool, true, false, Option, none, some,
  [], ◌∷◌, arith, Bool-cases, Option-cases, length,
}
use shinyproxy_rust.Base.Result.{Result, ok, err, and_then}
use shinyproxy_rust.Spel.Ast.{Node}
use shinyproxy_rust.Spel.Parser.{
  map_key_of, identifier_of, SpelError, out_of_fuel, Tokens, Parsed, Recursion, eat_symbol,
  expect_symbol, is_symbol, enclosed, parse_items, parse_arguments, parse_type_name, parse_map_key,
  parse_entries,
}
use shinyproxy_rust.Spel.Expressions.{close_collection}

unfoldable pub is_out_of_fuel : SpelError → Bool
is_out_of_fuel out_of_fuel = true
is_out_of_fuel _ = false

-- Fewer than `n` tokens are left, or the parse failed for a reason of its own.
abbrev pub Ends : {A : Type 0} → ℕ → Parsed A → Type 0
Ends n (ok r) = length r.1 < n
Ends n (err e) = is_out_of_fuel e ≡ false

abbrev pub LeavesFewer : ℕ → Result Tokens SpelError → Type 0
LeavesFewer n (ok rest) = length rest < n
LeavesFewer n (err e) = is_out_of_fuel e ≡ false

abbrev pub LeftBy : {A : Type 0} → ℕ → Option (A × Tokens) → Type 0
LeftBy n none = Unit {0}
LeftBy n (some r) = length r.1 < n

-- The recursive calls end on lists of fewer than `n` tokens.
abbrev pub EndsBelow : ℕ → Recursion → Type 0
EndsBelow n p =
    ((depth : ℕ) (ts : Tokens) → length ts < n → Ends (length ts) (p.unary depth ts))
    × ((depth m : ℕ) (ts : Tokens) → length ts < n → Ends (length ts) (p.expression depth m ts))

pub Ends-le : {A : Type 0} (m n : ℕ) (r : Parsed A) → m ≤ n → Ends m r → Ends n r
Ends-le m n (ok r) h e = omega (arith, h, e)
Ends-le m n (err _) h e = e

pub and_then-Ends :
    {A B : Type 0} (m n : ℕ) (r : Parsed A) (f : A × Tokens → Parsed B)
    → Ends m r
    → ((a : A) (rest : Tokens) → length rest < m → Ends n (f (a, rest)))
    → Ends n (and_then r f)
unfolding and_then
and_then-Ends m n (ok r) f e next = next r.0 r.1 e
and_then-Ends m n (err _) f e next = e

pub and_then-LeavesFewer :
    {B : Type 0} (m n : ℕ) (r : Result Tokens SpelError) (f : Tokens → Parsed B)
    → LeavesFewer m r
    → ((rest : Tokens) → length rest < m → Ends n (f rest))
    → Ends n (and_then r f)
unfolding and_then
and_then-LeavesFewer m n (ok rest) f e next = next rest e
and_then-LeavesFewer m n (err _) f e next = e

pub length-eat_symbol :
    (expected : String) (ts rest : Tokens)
    → eat_symbol expected ts ≡ some rest
    → length rest < length ts
unfolding eat_symbol
length-eat_symbol expected [] rest e = absurd (ground (arith, e))
length-eat_symbol expected (t ∷ ts) rest e = elim (Bool-cases (is_symbol expected t.token)) [
  | inl is ↦
      let same : ts ≡ rest = ground (arith, e, is) in
      subst (λ x. length x < suc (length ts)) same (omega arith)
  | inr other ↦ absurd (ground (arith, e, other))
]

pub expect_symbol-LeavesFewer :
    (size : ℕ) (expected : String) (ts : Tokens)
    → LeavesFewer (length ts) (expect_symbol size expected ts)
unfolding expect_symbol is_out_of_fuel
expect_symbol-LeavesFewer size expected ts = elim (Option-cases (eat_symbol expected ts)) [
  | inl e ↦ rw (e, expect_symbol) refl
  | inr (rest, e) ↦ rw (e, expect_symbol) (length-eat_symbol expected ts rest e)
]

pub close_collection-LeavesFewer :
    (position : ℕ) (ts : Tokens) → LeavesFewer (length ts) (close_collection position ts)
unfolding close_collection is_out_of_fuel
close_collection-LeavesFewer position ts = elim (Option-cases (eat_symbol "}" ts)) [
  | inl e ↦ rw (e, close_collection) refl
  | inr (rest, e) ↦ rw (e, close_collection) (length-eat_symbol "}" ts rest e)
]

pub parse_map_key-LeftBy : (ts : Tokens) → LeftBy (length ts) (parse_map_key ts)
unfolding parse_map_key
parse_map_key-LeftBy [] = tt
parse_map_key-LeftBy (t ∷ ts) = elim (Option-cases (map_key_of t.token)) [
  | inl e ↦ rw (e, parse_map_key) tt
  | inr (key, e) ↦ rw (e, parse_map_key) (omega arith)
]

pub parse_type_name-Ends :
    (fuel position : ℕ) (ts : Tokens)
    → length ts < fuel
    → Ends (length ts) (parse_type_name fuel position ts)
unfolding parse_type_name is_out_of_fuel
parse_type_name-Ends zero position ts h = absurd (omega (arith, h))
parse_type_name-Ends (suc fuel) position [] h = refl
parse_type_name-Ends (suc fuel) position (t ∷ ts) h = elim (Option-cases (identifier_of t.token)) [
  | inl e ↦ rw (e, parse_type_name) refl
  | inr (part, e) ↦ elim (Option-cases (eat_symbol "." ts)) [
    | inl e' ↦ rw (e, parse_type_name, e') (omega arith)
    | inr (rest, e') ↦
        let less = length-eat_symbol "." ts rest e' in
        rw (e, parse_type_name, e')
          (and_then-Ends (length rest) (suc (length ts)) (parse_type_name fuel position rest) _
            (parse_type_name-Ends fuel position rest (omega (arith, h, less)))
            (λ a left k. omega (arith, k, less)))
  ]
]

module _ (n : ℕ) (p : Recursion) (total : EndsBelow n p) where
  pub enclosed-Ends :
      (depth : ℕ) (close : String) (build : Node → Node) (ts : Tokens)
      → length ts < n
      → Ends (length ts) (enclosed p depth close build ts)
  unfolding enclosed
  enclosed-Ends depth close build ts h =
      and_then-Ends (length ts) (length ts) (p.expression depth 0 ts) _ (total.1 depth 0 ts h)
        (λ node rest k.
          and_then-LeavesFewer (length rest) (length ts) (expect_symbol p.size close rest) _
            (expect_symbol-LeavesFewer p.size close rest) (λ left j. omega (arith, j, k)))

  pub parse_items-Ends :
      (fuel depth : ℕ) (close : Tokens → Result Tokens SpelError) (ts : Tokens)
      → ((us : Tokens) → LeavesFewer (length us) (close us))
      → length ts < fuel
      → length ts < n
      → Ends (length ts) (parse_items fuel p depth close ts)
  unfolding parse_items
  parse_items-Ends zero depth close ts closes h k = absurd (omega (arith, h))
  parse_items-Ends (suc fuel) depth close ts closes h k =
      and_then-Ends (length ts) (length ts) (p.expression depth 0 ts) _ (total.1 depth 0 ts k)
        (λ node rest j. elim (Option-cases (eat_symbol "," rest)) [
          | inl e ↦ rw e (
              and_then-LeavesFewer (length rest) (length ts) (close rest) _ (closes rest)
                (λ left i. omega (arith, i, j)))
          | inr (more, e) ↦
              let less = length-eat_symbol "," rest more e in
              rw e (
                and_then-Ends (length more) (length ts) (parse_items fuel p depth close more) _
                  (parse_items-Ends fuel depth close more closes (omega (arith, h, j, less))
                    (omega (arith, k, j, less)))
                  (λ items left i. omega (arith, i, j, less)))
        ])

  pub parse_arguments-Ends :
      (depth : ℕ) (ts : Tokens) → length ts < n → Ends (length ts) (parse_arguments p depth ts)
  unfolding parse_arguments
  parse_arguments-Ends depth ts h = elim (Option-cases (eat_symbol ")" ts)) [
    | inr (rest, e) ↦ rw (e, parse_arguments) (length-eat_symbol ")" ts rest e)
    | inl e ↦
        rw (e, parse_arguments)
          (parse_items-Ends (suc (length ts)) depth (expect_symbol p.size ")") ts
            (expect_symbol-LeavesFewer p.size ")") (omega arith) h)
  ]

  pub parse_entries-Ends :
      (fuel depth : ℕ) (key : String) (ts : Tokens)
      → length ts < fuel
      → length ts < n
      → Ends (length ts) (parse_entries fuel p depth key ts)
  unfolding parse_entries is_out_of_fuel
  parse_entries-Ends zero depth key ts h k = absurd (omega (arith, h))
  parse_entries-Ends (suc fuel) depth key ts h k =
      and_then-Ends (length ts) (length ts) (p.expression depth 0 ts) _ (total.1 depth 0 ts k)
        (λ node rest j. elim (Option-cases (eat_symbol "," rest)) [
          | inl e ↦ rw e (
              and_then-LeavesFewer (length rest) (length ts) (expect_symbol p.size "}" rest) _
                (expect_symbol-LeavesFewer p.size "}" rest) (λ left i. omega (arith, i, j)))
          | inr (more, e) ↦
              let less = length-eat_symbol "," rest more e in
              rw e (elim (Option-cases (parse_map_key more)) [
                | inl e' ↦ rw e' refl
                | inr (next, e') ↦
                    let fewer = subst (LeftBy (length more)) e' (parse_map_key-LeftBy more) in
                    rw e' (
                      and_then-LeavesFewer (length next.1) (length ts)
                        (expect_symbol p.size ":" next.1) _
                        (expect_symbol-LeavesFewer p.size ":" next.1)
                        (λ left i.
                          and_then-Ends (length left) (length ts)
                            (parse_entries fuel p depth next.0 left) _
                            (parse_entries-Ends fuel depth next.0 left
                              (omega (arith, h, i, j, less, fewer))
                              (omega (arith, k, i, j, less, fewer)))
                            (λ entries last g. omega (arith, g, i, j, less, fewer))))
              ])
        ])
