-- ===== src/Spel/Lexer/Literals.antt =====
-- String literals: any text survives being quoted.
use shinyproxy_rust.Base.{
  ℕ, suc, ◌-◌, String, ◌≡◌, refl, ap, ◌∙◌, inl, inr, true, false, some, [], ◌∷◌, ◌++◌, arith, ◌==◌,
  if◌then◌else◌, Bool-cases, length,
}
use shinyproxy_rust.Spel.Ast.{Token}
use Prim.Native.Char.{Char, code, char}
use text.Mathlib.TextBridge.{of_list}
use shinyproxy_rust.Spel.Lexer.{
  byte_length, ok, characters, Characters, read_string, prepend, tokenize, read_token,
  tokenize_rest, read_literal, first_byte, is_whitespace,
}

pub data Quote : Type 0 where
  single double : Quote

abbrev pub quote_character : Quote → Char
quote_character single = char b'\'' tt
quote_character double = char b'"' tt

abbrev pub quote_code : Quote → ℕ
quote_code q = code (quote_character q)

-- Each quote in the text is doubled.
unfoldable pub doubled : ℕ → Characters → Characters
doubled quote [] = []
doubled quote (c ∷ cs) = if code c == quote then c ∷ c ∷ doubled quote cs else c ∷ doubled quote cs

-- The literal for a text.
unfoldable pub literal : Quote → String → String
unfolding doubled characters
literal q s =
    of_list (quote_character q ∷ (doubled (quote_code q) (characters s) ++ quote_character q ∷ []))

read_string-other :
    (quote : ℕ) (c : Char) (cs : Characters)
    → (code c == quote) ≡ false
    → read_string quote (c ∷ cs) ≡ prepend c (read_string quote cs)
unfolding read_string
read_string-other quote c [] h = ground arith
read_string-other quote c (d ∷ cs) h = ground arith

read_string-pair :
    (quote : ℕ) (c : Char) (cs : Characters)
    → (code c == quote) ≡ true
    → read_string quote (c ∷ c ∷ cs) ≡ prepend c (read_string quote cs)
unfolding read_string
read_string-pair quote c cs h = ground arith

read_string-doubled :
    (q : Quote) (value : Characters)
    → read_string (quote_code q) (doubled (quote_code q) value ++ quote_character q ∷ [])
      ≡ some (value, [])
unfolding read_string doubled
read_string-doubled single [] = refl
read_string-doubled double [] = refl
read_string-doubled q (c ∷ cs) = elim (Bool-cases (code c == quote_code q)) [
  | inl e ↦
      rw (e, doubled)
        (read_string-pair (quote_code q) c _ e ∙ ap (prepend c) (read_string-doubled q cs))
  | inr e ↦
      rw (e, doubled)
        (read_string-other (quote_code q) c _ e ∙ ap (prepend c) (read_string-doubled q cs))
]

pub characters-of_list : (cs : Characters) → characters (of_list cs) ≡ cs
unfolding characters
characters-of_list [] = refl
characters-of_list (c ∷ cs) = ap (λ t. c ∷ t) (characters-of_list cs)

pub of_list-characters : (s : String) → of_list (characters s) ≡ s
unfolding characters
of_list-characters String.[] = refl
of_list-characters (String.◌∷◌ c s) = ap (λ t. String.◌∷◌ c t) (of_list-characters s)

read_token-literal :
    (q : Quote) (position : ℕ) (cs value : Characters)
    → read_string (quote_code q) cs ≡ some (value, [])
    → read_token position (quote_character q) cs ≡ ok (Token.string (of_list value), [])
unfolding read_token read_literal
read_token-literal single position cs value h = ground arith
read_token-literal double position cs value h = ground arith

quote-is_whitespace : (q : Quote) → is_whitespace (first_byte (quote_character q)) ≡ false
unfolding is_whitespace first_byte
quote-is_whitespace single = refl
quote-is_whitespace double = refl

tokenize_rest-literal :
    (q : Quote) (fuel size : ℕ) (cs value : Characters)
    → read_string (quote_code q) cs ≡ some (value, [])
    → tokenize_rest (suc (suc fuel)) size (quote_character q ∷ cs)
      ≡ ok (
          record {
            token = Token.string (of_list value);
            position = size - byte_length (quote_character q ∷ cs);
          }
          ∷ [])
unfolding tokenize_rest
tokenize_rest-literal q fuel size cs value h = ground (
  arith,
  quote-is_whitespace q,
  read_token-literal q (size - byte_length (quote_character q ∷ cs)) cs value h,
)

literal-characters :
    (q : Quote) (s : String)
    → characters (literal q s)
      ≡ quote_character q ∷ (doubled (quote_code q) (characters s) ++ quote_character q ∷ [])
unfolding literal
literal-characters q s = characters-of_list _

pub tokenize-literal :
    (q : Quote) (s : String)
    → tokenize (literal q s) ≡ ok (record { token = Token.string s; position = 0 } ∷ [])
unfolding tokenize
tokenize-literal q s =
    let cs = doubled (quote_code q) (characters s) ++ quote_character q ∷ [] in
    let all = quote_character q ∷ cs in
    ap (λ (t : Characters). tokenize_rest (suc (length t)) (byte_length t) t)
      (literal-characters q s)
    ∙ tokenize_rest-literal q (length cs) (byte_length all) cs (characters s)
        (read_string-doubled q (characters s))
    ∙ ground (arith, of_list-characters s)
