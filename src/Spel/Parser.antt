-- ===== src/Spel/Parser.antt =====
-- crates/spel/src/parser.rs: `Parser`. The state is the list of the tokens that are left, and the
-- depth is an argument, since `parse_unary` restores it. The functions call each other through
-- `Recursion`, whose knot `parsers` ties on fuel; the messages of the errors are data.
use shinyproxy_rust.Base.{
  concat, ℕ, zero, suc, String, str_eq, Bool, false, Option, none, some, List, [], ◌∷◌,
  if◌then◌else◌, length,
}
use shinyproxy_rust.Base.Dict.{Dict, lookup}
use shinyproxy_rust.Base.Result.{Result, ok, err, and_then}
use shinyproxy_rust.Spel.Ast.{
  Node, Nodes, Entries, no_nodes, node_then, no_entries, entry_then, BinaryOperator, Token,
  SpannedToken,
}

pub data Message : Type 0 where
  trailing_input : Token → Message
  expected_symbol : String → Option Token → Message
  expected_name expected_value expected_type_name : Option Token → Message
  expected_map_key unterminated_collection too_deep constructor_call : Message

pub data SpelError : Type 0 where
  syntax : ℕ → Message → SpelError
  unsupported : ℕ → Message → SpelError
  out_of_fuel : SpelError

abbrev pub Tokens : Type 0
Tokens = List SpannedToken

abbrev pub Parsed : Type 0 → Type 0
Parsed A = Result (A × Tokens) SpelError

-- The length of the expression, and the recursive calls: `parse_unary` and `parse_expression`.
pub record Recursion : Type 0 where
  pub size : ℕ
  pub unary : ℕ → Tokens → Parsed Node
  pub expression : ℕ → ℕ → Tokens → Parsed Node

abbrev pub max_nesting : ℕ
max_nesting = 64

unfoldable pub peek : Tokens → Option Token
peek [] = none
peek (t ∷ _) = some t.token

unfoldable pub peek_position : ℕ → Tokens → ℕ
peek_position size [] = size
peek_position size (t ∷ _) = t.position

unfoldable pub is_symbol : String → Token → Bool
is_symbol expected (Token.symbol found) = str_eq found expected
is_symbol expected _ = false

-- What is left when the next token is the symbol.
unfoldable pub eat_symbol : String → Tokens → Option Tokens
unfolding is_symbol
eat_symbol expected [] = none
eat_symbol expected (t ∷ rest) = if is_symbol expected t.token then some rest else none

unfoldable pub expect_symbol : ℕ → String → Tokens → Result Tokens SpelError
unfolding eat_symbol peek peek_position
expect_symbol size expected ts = elim (eat_symbol expected ts) [
  | none ↦ err (syntax (peek_position size ts) (expected_symbol expected (peek ts)))
  | some rest ↦ ok rest
]

abbrev pub symbol_operators : Dict BinaryOperator
symbol_operators =
    ("+", BinaryOperator.add)
    ∷ ("-", BinaryOperator.subtract)
    ∷ ("*", BinaryOperator.multiply)
    ∷ ("/", BinaryOperator.divide)
    ∷ ("%", BinaryOperator.modulo)
    ∷ ("==", BinaryOperator.equal)
    ∷ ("!=", BinaryOperator.not_equal)
    ∷ ("<", BinaryOperator.less)
    ∷ ("<=", BinaryOperator.less_or_equal)
    ∷ (">", BinaryOperator.greater)
    ∷ (">=", BinaryOperator.greater_or_equal)
    ∷ ("&&", BinaryOperator.and_)
    ∷ ("||", BinaryOperator.or_)
    ∷ []

abbrev pub word_operators : Dict BinaryOperator
word_operators =
    ("and", BinaryOperator.and_)
    ∷ ("or", BinaryOperator.or_)
    ∷ ("eq", BinaryOperator.equal)
    ∷ ("ne", BinaryOperator.not_equal)
    ∷ ("lt", BinaryOperator.less)
    ∷ ("le", BinaryOperator.less_or_equal)
    ∷ ("gt", BinaryOperator.greater)
    ∷ ("ge", BinaryOperator.greater_or_equal)
    ∷ ("matches", BinaryOperator.matches)
    ∷ []

unfoldable pub binary_operator : Token → Option BinaryOperator
binary_operator (Token.symbol s) = lookup s symbol_operators
binary_operator (Token.identifier name) = lookup name word_operators
binary_operator _ = none

-- The operator and the tokens after it.
unfoldable pub peek_binary_operator : Tokens → Option (BinaryOperator × Tokens)
unfolding binary_operator
peek_binary_operator [] = none
peek_binary_operator (t ∷ rest) = elim (binary_operator t.token) [
  | none ↦ none
  | some operator ↦ some (operator, rest)
]

-- An expression and the symbol that closes it.
unfoldable pub enclosed : Recursion → ℕ → String → (Node → Node) → Tokens → Parsed Node
unfolding expect_symbol and_then
enclosed p depth close build ts =
    and_then (p.expression depth 0 ts)
      (λ r. and_then (expect_symbol p.size close r.1) (λ rest. ok (build r.0, rest)))

-- The loop of `parse_arguments`, and the one for the items of a list literal: `close` is what
-- follows the last item.
unfoldable pub parse_items :
    ℕ → Recursion → ℕ → (Tokens → Result Tokens SpelError) → Tokens → Parsed Nodes
unfolding and_then eat_symbol
parse_items zero p depth close ts = err out_of_fuel
parse_items (suc fuel) p depth close ts = and_then (p.expression depth 0 ts) (λ r.
    elim (eat_symbol "," r.1) [
      | some rest ↦
          and_then (parse_items fuel p depth close rest)
            (λ items. ok (node_then r.0 items.0, items.1))
      | none ↦ and_then (close r.1) (λ rest. ok (node_then r.0 no_nodes, rest))
    ])

unfoldable pub parse_arguments : Recursion → ℕ → Tokens → Parsed Nodes
unfolding parse_items eat_symbol
parse_arguments p depth ts = elim (eat_symbol ")" ts) [
  | some rest ↦ ok (no_nodes, rest)
  | none ↦ parse_items (suc (length ts)) p depth (expect_symbol p.size ")") ts
]

unfoldable pub identifier_of : Token → Option String
identifier_of (Token.identifier name) = some name
identifier_of _ = none

unfoldable pub map_key_of : Token → Option String
map_key_of (Token.identifier name) = some name
map_key_of (Token.string value) = some value
map_key_of _ = none

unfoldable pub parse_type_name : ℕ → ℕ → Tokens → Parsed String
unfolding eat_symbol and_then identifier_of
parse_type_name zero position ts = err out_of_fuel
parse_type_name (suc fuel) position [] = err (syntax position (expected_type_name none))
parse_type_name (suc fuel) position (t ∷ ts) = elim (identifier_of t.token) [
  | none ↦ err (syntax position (expected_type_name (some t.token)))
  | some part ↦ elim (eat_symbol "." ts) [
    | none ↦ ok (part, ts)
    | some rest ↦
        and_then (parse_type_name fuel position rest) (λ r. ok (concat part (concat "." r.0), r.1))
  ]
]

unfoldable pub parse_map_key : Tokens → Option (String × Tokens)
unfolding map_key_of
parse_map_key [] = none
parse_map_key (t ∷ rest) = elim (map_key_of t.token) [ none ↦ none | some key ↦ some (key, rest) ]

-- The key and the colon, when both are there.
unfoldable pub map_key_and_colon : Tokens → Option (String × Tokens)
unfolding parse_map_key eat_symbol
map_key_and_colon ts = elim (parse_map_key ts) [
  | none ↦ none
  | some key ↦ elim (eat_symbol ":" key.1) [ none ↦ none | some rest ↦ some (key.0, rest) ]
]

-- The entries of a map literal, from the value of `key` on.
unfoldable pub parse_entries : ℕ → Recursion → ℕ → String → Tokens → Parsed Entries
unfolding parse_map_key eat_symbol expect_symbol and_then peek_position
parse_entries zero p depth key ts = err out_of_fuel
parse_entries (suc fuel) p depth key ts = and_then (p.expression depth 0 ts) (λ r.
    elim (eat_symbol "," r.1) [
      | none ↦
          and_then (expect_symbol p.size "}" r.1) (λ rest. ok (entry_then key r.0 no_entries, rest))
      | some more ↦ elim (parse_map_key more) [
        | none ↦ err (syntax (peek_position p.size more) expected_map_key)
        | some next ↦ and_then (expect_symbol p.size ":" next.1) (λ rest.
            and_then (parse_entries fuel p depth next.0 rest)
              (λ entries. ok (entry_then key r.0 entries.0, entries.1)))
      ]
    ])
