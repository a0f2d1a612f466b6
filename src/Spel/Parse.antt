-- ===== src/Spel/Parse.antt =====
-- crates/spel/src/parser.rs: `parse`, the lexer and the parser one after the other.
use shinyproxy_rust.Base.{String, ◌≡◌, refl, ◌⊎◌, inl, inr, true, false}
use shinyproxy_rust.Base.Result.{err, Result, ok}
use shinyproxy_rust.Spel.Lexer.{LexError, tokenize, byte_length, characters}
use shinyproxy_rust.Spel.Lexer.Total.{tokenize_total, is_fault, is_ascii}
use shinyproxy_rust.Spel.Lexer.Literals.{Quote, literal, tokenize-literal}
use shinyproxy_rust.Spel.Ast.{Node}
use shinyproxy_rust.Spel.Parser.{SpelError}
use shinyproxy_rust.Spel.Expressions.{parse_tokens}
use shinyproxy_rust.Spel.Expressions.Total.{parse_tokens_total}
use shinyproxy_rust.Spel.Expressions.Ends.{is_out_of_fuel}

pub data ParseError : Type 0 where
  lexer : LexError → ParseError
  parser : SpelError → ParseError

unfoldable pub parse : String → Result Node ParseError
unfolding tokenize parse_tokens byte_length characters
parse expression = elim (tokenize expression) [
  | err e ↦ err (lexer e)
  | ok tokens ↦ elim (parse_tokens (byte_length (characters expression)) tokens) [
    | err e ↦ err (parser e)
    | ok node ↦ ok node
  ]
]

-- An error that names a fault of the expression.
abbrev pub IsFault : String → ParseError → Type 0
IsFault expression (lexer e) = is_fault (is_ascii (characters expression)) e ≡ true
IsFault expression (parser e) = is_out_of_fuel e ≡ false

-- `parse` ends on every text: it answers with a tree, or with an error that names a fault of the
-- expression; it panics only on a text with a character outside ASCII, and neither the lexer nor
-- the parser runs out of fuel.
pub parse_total :
    (expression : String)
    → ((node : Node) × (parse expression ≡ ok node))
      ⊎ ((e : ParseError) × (parse expression ≡ err e) × IsFault expression e)
unfolding parse
parse_total expression = elim (tokenize_total expression) [
  | inr (e, t, f) ↦ inr (lexer e, rw (t, parse) refl, f)
  | inl (tokens, t) ↦ elim (parse_tokens_total (byte_length (characters expression)) tokens) [
    | inl (node, p) ↦ inl (node, rw (t, parse) (rw p refl))
    | inr (e, p, f) ↦ inr (parser e, rw (t, parse) (rw p refl), f)
  ]
]

-- pl
pub parse-literal : (q : Quote) (s : String) → parse (literal q s) ≡ ok (Node.str s)
unfolding parse
parse-literal q s = rw (tokenize-literal q s, parse) refl
