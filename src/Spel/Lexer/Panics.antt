-- ===== src/Spel/Lexer/Panics.antt =====
-- Where the lexer slices the text within a character.
use shinyproxy_rust.Base.{
  ℕ, suc, ◌-◌, ◌≡◌, refl, ap, ◌∙◌, Bool, true, false, ◌||◌, none, [], ◌∷◌, ◌++◌, arith, ◌==◌,
  length,
}
use Prim.Native.Char.{Char, code}
use text.Mathlib.TextBridge.{of_list}
use shinyproxy_rust.Spel.Lexer.Literals.{characters-of_list}
use shinyproxy_rust.Spel.Lexer.{
  err, Characters, Word, word_of, utf8, read_identifier, read_name, read_token, tokenize_rest,
  tokenize, first_byte, starts_identifier, is_whitespace, prepend, panic, is_ascii_digit,
  byte_length,
}

-- The characters of a name that the loop of `read_identifier` passes.
unfoldable pub all_whole : Characters → Bool
unfolding word_of utf8
all_whole [] = true
all_whole (c ∷ cs) = elim (word_of (utf8 (code c))) [ Word.whole ↦ all_whole cs | _ ↦ false ]

all_whole-cons :
    (c : Char) (cs : Characters)
    → all_whole (c ∷ cs) ≡ true
    → (word_of (utf8 (code c)) ≡ Word.whole) × (all_whole cs ≡ true)
unfolding all_whole
all_whole-cons c cs h = ground arith

-- The text starts like a name.
unfoldable pub begins_name : Characters → Bool
unfolding starts_identifier first_byte
begins_name [] = false
begins_name (c ∷ cs) = starts_identifier (first_byte c)

read_identifier-panics :
    (name : Characters) (c : Char) (rest : Characters)
    → all_whole name ≡ true
    → word_of (utf8 (code c)) ≡ Word.within
    → read_identifier (name ++ c ∷ rest) ≡ none
unfolding read_identifier
read_identifier-panics [] c rest a w = rw (w, read_identifier) refl
read_identifier-panics (n ∷ name) c rest a w =
    let (e, more) = all_whole-cons n name a in
    rw (e, read_identifier) (ap (prepend n) (read_identifier-panics name c rest more w))

starts_lem :
    (b : ℕ)
    → starts_identifier b ≡ true
    → (is_whitespace b ≡ false)
      × ((b == b'\'' || b == b'"') ≡ false)
      × (is_ascii_digit b ≡ false)
      × ((b == b'#') ≡ false)
      × ((b == b'@') ≡ false)
unfolding starts_identifier is_whitespace is_ascii_digit
starts_lem b h = (ground arith, ground arith, ground arith, ground arith, ground arith)

read_token-panics :
    (position : ℕ) (c : Char) (cs : Characters)
    → starts_identifier (first_byte c) ≡ true
    → read_identifier (c ∷ cs) ≡ none
    → read_token position c cs ≡ err panic
unfolding read_token read_name
read_token-panics position c cs s h = ground (arith, starts_lem (first_byte c) s)

tokenize_rest-panics :
    (fuel size : ℕ) (cs : Characters)
    → begins_name cs ≡ true
    → read_identifier cs ≡ none
    → tokenize_rest (suc fuel) size cs ≡ err panic
unfolding tokenize_rest begins_name
tokenize_rest-panics fuel size [] b h = cc
tokenize_rest-panics fuel size (c ∷ cs) b h =
    ground
      (arith, starts_lem (first_byte c) b, read_token-panics (size - byte_length (c ∷ cs)) c cs b h)

-- The lexer panics on every text that starts with a name (of characters whose bytes all are
-- letters, digits, `_` or `$` in Latin-1) that runs into a character whose first byte is such a
-- letter and whose other bytes are not all.
pub tokenize-panics :
    (name : Characters) (c : Char) (rest : Characters)
    → begins_name (name ++ c ∷ rest) ≡ true
    → all_whole name ≡ true
    → word_of (utf8 (code c)) ≡ Word.within
    → tokenize (of_list (name ++ c ∷ rest)) ≡ err panic
unfolding tokenize
tokenize-panics name c rest b a w =
    let cs = name ++ c ∷ rest in
    ap (λ (t : Characters). tokenize_rest (suc (length t)) (byte_length t) t)
      (characters-of_list cs)
    ∙ tokenize_rest-panics (length cs) (byte_length cs) cs b
        (read_identifier-panics name c rest a w)
