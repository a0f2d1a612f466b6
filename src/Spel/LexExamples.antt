-- ===== src/Spel/LexExamples.antt =====
-- Concrete texts, and the theorems about the lexer at them.
use shinyproxy_rust.Base.{◌≡◌, refl, ◌⊎◌, [], ◌∷◌, ◌++◌}
use shinyproxy_rust.Base.Int.{pos}
use Prim.Native.Char.{char}
use text.Mathlib.TextBridge.{of_list}
use shinyproxy_rust.Spel.Parse.{parse, ParseError, IsFault, parse_total}
use shinyproxy_rust.Spel.Lexer.Panics.{tokenize-panics, begins_name, all_whole}
use shinyproxy_rust.Spel.Ast.{Node, Token}
use shinyproxy_rust.Base.Result.{ok, err}
use shinyproxy_rust.Spel.Lexer.{characters, utf8, word_of, panic, tokenize}

tokenize_navigation :
    tokenize "a?.b == 'it''s' + 10L"
    ≡ ok (
        record { token = Token.identifier "a"; position = 0 }
        ∷ record { token = Token.symbol "?."; position = 1 }
        ∷ record { token = Token.identifier "b"; position = 3 }
        ∷ record { token = Token.symbol "=="; position = 5 }
        ∷ record { token = Token.string "it's"; position = 8 }
        ∷ record { token = Token.symbol "+"; position = 16 }
        ∷ record { token = Token.int (pos 10); position = 18 }
        ∷ [])
unfolding tokenize
tokenize_navigation = refl

tokenize_accent : tokenize "é" ≡ err panic
unfolding tokenize
tokenize_accent = refl

tokenize_circumflex :
    tokenize "1.5 < ê"
    ≡ ok (
        record { token = Token.float "1.5"; position = 0 }
        ∷ record { token = Token.symbol "<"; position = 4 }
        ∷ record { token = Token.identifier "ê"; position = 6 }
        ∷ [])
unfolding tokenize
tokenize_circumflex = refl

-- `café > 1`, where the two bytes of the last letter are read as two characters
tokenize-panics_example :
    tokenize (of_list (characters "caf" ++ char 0xE9 tt ∷ characters " > 1")) ≡ err panic
unfolding begins_name all_whole word_of utf8 characters
tokenize-panics_example =
    tokenize-panics (characters "caf") (char 0xE9 tt) (characters " > 1") refl refl refl

parse_total_example :
    ((node : Node) × (parse "a.b + 'c" ≡ ok node))
    ⊎ ((e : ParseError) × (parse "a.b + 'c" ≡ err e) × IsFault "a.b + 'c" e)
parse_total_example = parse_total "a.b + 'c"

parse_quoted : parse "'it''s'" ≡ ok (Node.str "it's")
unfolding parse
parse_quoted = refl
