-- ===== src/Spel/Lexer/Total.antt =====
-- `tokenize` ends, and what it answers.
use shinyproxy_rust.Base.{
  if_ind, ℕ, zero, suc, ◌-◌, ◌≤◌, ◌<◌, String, ◌≡◌, refl, sym, ap, subst, ◌∙◌, ◌≢◌, ◌⊎◌, inl, inr,
  Bool, true, false, not, ◌&&◌, ◌||◌, Option, none, some, List, [], ◌∷◌, arith, ltb, ◌==◌,
  Bool-cases, Option-cases, length,
}
use Prim.Native.Char.{Char, code}
use shinyproxy_rust.Base.Result.{Result-cases, Result, ok, err}
use shinyproxy_rust.Spel.Ast.{SpannedToken, Token}
use shinyproxy_rust.Spel.Lexer.{
  characters, byte_length, tokenize, invalid_number, unexpected_character, unterminated_string,
  is_whitespace, tokenize_rest, read_token, parse_i64, Number, push_character, number_token,
  is_alphanumeric, is_word, starts_identifier, is_ascii_digit, symbols, read_symbol, first_byte,
  read_literal, read_name, read_number, read_reference, prepend, Word, LexError, panic, out_of_fuel,
  Characters, utf8, read_identifier, word_of, read_string, scan_number, strip_symbol, find_symbol,
}

unfoldable pub is_ascii : Characters → Bool
is_ascii [] = true
is_ascii (c ∷ cs) = ltb (code c) 128 && is_ascii cs

-- An error that the text is to blame for: one with a position, or a panic, which needs a character
-- outside ASCII.
unfoldable pub is_fault : Bool → LexError → Bool
is_fault ascii panic = not ascii
is_fault ascii out_of_fuel = false
is_fault ascii _ = true

abbrev Keeps : Characters → Characters → Type 0
Keeps cs after = (length after ≤ length cs) × (is_ascii cs ≡ true → is_ascii after ≡ true)

-- What a reader makes of a text that starts with `c`: what is left is shorter, and in ASCII if the
-- text was; an error is a fault of the text.
abbrev Takes : Char → Characters → Result (Token × Characters) LexError → Type 0
Takes c cs (ok (token, after)) =
    (length after ≤ length cs) × (is_ascii (c ∷ cs) ≡ true → is_ascii after ≡ true)
Takes c cs (err e) = is_fault (is_ascii (c ∷ cs)) e ≡ true

word_of-utf8 : (n : ℕ) → ltb n 128 ≡ true → word_of (utf8 n) ≢ Word.within
unfolding word_of utf8
word_of-utf8 n h = ground arith

ascii_tail : (c : Char) (cs : Characters) → is_ascii (c ∷ cs) ≡ true → is_ascii cs ≡ true
unfolding is_ascii
ascii_tail c cs h = ground arith

not_ascii_tail : (c : Char) (cs : Characters) → is_ascii cs ≡ false → is_ascii (c ∷ cs) ≡ false
unfolding is_ascii
not_ascii_tail c cs h = ground arith

abbrev IdentifierRead : Characters → Type 0
IdentifierRead cs =
    ((read_identifier cs ≡ none) × (is_ascii cs ≡ false))
    ⊎ ((name : Characters) × (after : Characters) × (read_identifier cs ≡ some (name, after))
        × Keeps cs after)

read_identifier_lem : (cs : Characters) → IdentifierRead cs
unfolding read_identifier is_ascii
read_identifier_lem [] = inr ([], [], refl, (omega arith, λ h. h))
read_identifier_lem (c ∷ cs) = step (word_of (utf8 (code c))) refl (read_identifier_lem cs)
  where
    step : (w : Word) → word_of (utf8 (code c)) ≡ w → IdentifierRead cs → IdentifierRead (c ∷ cs)
    step Word.whole e (inl (n, a)) = inl (ground arith, ground arith)
    step Word.whole e (inr (name, after, r, (l, a))) =
        inr (c ∷ name, after, ground arith, (omega arith, λ h. a (ascii_tail c cs h)))
    step Word.before e ih = inr ([], c ∷ cs, ground arith, (omega arith, λ h. h))
    step Word.within e ih = inl (ground arith, ground (arith, word_of-utf8 (code c)))

prepend-eq-some :
    (c : Char) (o : Option (Characters × Characters)) (value after : Characters)
    → prepend c o ≡ some (value, after)
    → (rest : Characters) × (o ≡ some (rest, after))
prepend-eq-some c none value after h = cc
prepend-eq-some c (some (rest, later)) value after h = (rest, cc)

read_string_lem :
    (quote : ℕ) (cs value after : Characters)
    → read_string quote cs ≡ some (value, after)
    → Keeps cs after
unfolding read_string is_ascii
read_string_lem quote [] value after h = cc
read_string_lem quote (c ∷ []) value after h = ground arith
read_string_lem quote (c ∷ d ∷ cs) value after h = elim (Bool-cases (code c == quote)) [
  | inr e ↦
      let (rest, r) = prepend-eq-some c (read_string quote (d ∷ cs)) value after (ground arith) in
      let ih = read_string_lem quote (d ∷ cs) rest after r in
      (omega arith, λ a. ih.1 (ground arith))
  | inl e ↦ elim (Bool-cases (code d == quote)) [
    | inl f ↦
        let (rest, r) = prepend-eq-some c (read_string quote cs) value after (ground arith) in
        let ih = read_string_lem quote cs rest after r in (omega arith, λ a. ih.1 (ground arith))
    | inr f ↦
        let g : d ∷ cs ≡ after = ground arith in
        subst (λ t. Keeps (c ∷ d ∷ cs) t) g (omega arith, λ a. ground arith)
  ]
]

scan_number_lem : (is_float : Bool) (cs : Characters) → Keeps cs (scan_number is_float cs).rest
unfolding scan_number is_ascii
scan_number_lem is_float [] = (omega arith, λ h. h)
scan_number_lem is_float (c ∷ cs) =
    ground (arith, scan_number_lem is_float cs, scan_number_lem true cs)

strip_symbol_lem :
    (s : String) (cs after : Characters) → strip_symbol s cs ≡ some after → Keeps cs after
unfolding strip_symbol is_ascii
strip_symbol_lem String.[] cs after h = ground arith
strip_symbol_lem (String.◌∷◌ s ss) [] after h = cc
strip_symbol_lem (String.◌∷◌ s ss) (c ∷ cs) after h = ground (arith, strip_symbol_lem ss cs after)

-- A symbol is not empty.
abbrev AreSymbols : List String → Type 0
AreSymbols [] = Unit {0}
AreSymbols (String.[] ∷ ss) = ⊥
AreSymbols (String.◌∷◌ s rest ∷ ss) = AreSymbols ss

find_symbol_lem :
    (ss : List String) (c : Char) (cs : Characters) (s : String) (after : Characters)
    → AreSymbols ss
    → find_symbol ss (c ∷ cs) ≡ some (s, after)
    → (length after ≤ length cs) × (is_ascii (c ∷ cs) ≡ true → is_ascii after ≡ true)
unfolding find_symbol strip_symbol is_ascii
find_symbol_lem [] c cs s after a h = cc
find_symbol_lem (String.[] ∷ ss) c cs s after a h = absurd a
find_symbol_lem (String.◌∷◌ x rest ∷ ss) c cs s after a h =
    ground (arith, strip_symbol_lem rest cs after, find_symbol_lem ss c cs s after a)

read_literal_lem : (p quote : ℕ) (c : Char) (cs : Characters) → Takes c cs (read_literal p quote cs)
unfolding read_literal is_fault
read_literal_lem p quote c cs = elim (Option-cases (read_string quote cs)) [
  | inl e ↦ rw (e, read_literal) refl
  | inr ((value, after), e) ↦
      let ih = read_string_lem quote cs value after e in
      rw (e, read_literal) (ih.0, λ a. ih.1 (ascii_tail c cs a))
]

read_symbol_lem : (p : ℕ) (c : Char) (cs : Characters) → Takes c cs (read_symbol p (c ∷ cs))
unfolding read_symbol is_fault
read_symbol_lem p c cs = elim (Option-cases (find_symbol symbols (c ∷ cs))) [
  | inl e ↦ rw (e, read_symbol) refl
  | inr ((s, after), e) ↦ rw (e, read_symbol) (find_symbol_lem symbols c cs s after tt e)
]

number_token_lem :
    (p : ℕ) (n : Number) (c : Char) (cs : Characters)
    → (length n.rest ≤ length cs) × (is_ascii (c ∷ cs) ≡ true → is_ascii n.rest ≡ true)
    → Takes c cs (number_token p n)
unfolding number_token is_fault
number_token_lem p n c cs k = elim (Bool-cases (n.is_float && not n.long)) [
  | inl e ↦ rw (e, number_token) k
  | inr e ↦ elim (Option-cases (parse_i64 n.text)) [
    | inl f ↦ rw (e, number_token) (rw f refl)
    | inr (v, f) ↦ rw (e, number_token) (rw f k)
  ]
]

scan_number_digit :
    (c : Char) (cs : Characters)
    → is_ascii_digit (code c) ≡ true
    → scan_number false (c ∷ cs) ≡ push_character c (scan_number false cs)
unfolding scan_number
scan_number_digit c cs d = ground arith

read_number_lem :
    (p : ℕ) (c : Char) (cs : Characters)
    → is_ascii_digit (code c) ≡ true
    → Takes c cs (read_number p (c ∷ cs))
unfolding read_number
read_number_lem p c cs d =
    let k = scan_number_lem false cs in
    subst (λ n. Takes c cs (number_token p n)) (sym (scan_number_digit c cs d))
      (number_token_lem p (push_character c (scan_number false cs)) c cs
        (k.0, λ a. k.1 (ascii_tail c cs a)))

read_reference_lem :
    (build : String → Token) (p : ℕ) (c : Char) (cs : Characters)
    → Takes c cs (read_reference build p cs)
unfolding read_reference is_fault
read_reference_lem build p c cs = elim (read_identifier_lem cs) [
  | inl (e, a) ↦ rw (e, read_reference) (ap not (not_ascii_tail c cs a))
  | inr ([], after, e, (l, a)) ↦ rw (e, read_reference) refl
  | inr (n ∷ name, after, e, (l, a)) ↦ rw (e, read_reference) (l, λ h. a (ascii_tail c cs h))
]

word_of-starts :
    (c : Char) → starts_identifier (first_byte c) ≡ true → word_of (utf8 (code c)) ≢ Word.before
unfolding word_of utf8 first_byte starts_identifier is_word is_alphanumeric
word_of-starts c h = ground arith

identifier_whole :
    (c : Char) (cs : Characters)
    → word_of (utf8 (code c)) ≡ Word.whole
    → read_identifier (c ∷ cs) ≡ prepend c (read_identifier cs)
unfolding read_identifier
identifier_whole c cs e = rw (e, read_identifier) refl

identifier_within :
    (c : Char) (cs : Characters)
    → word_of (utf8 (code c)) ≡ Word.within
    → read_identifier (c ∷ cs) ≡ none
unfolding read_identifier
identifier_within c cs e = rw (e, read_identifier) refl

read_name_lem :
    (c : Char) (cs : Characters)
    → starts_identifier (first_byte c) ≡ true
    → Takes c cs (read_name (c ∷ cs))
unfolding read_name is_fault
read_name_lem c cs h = step (read_identifier_lem cs) (word_of (utf8 (code c))) refl
  where
    step :
        IdentifierRead cs
        → (w : Word) → word_of (utf8 (code c)) ≡ w
        → Takes c cs (read_name (c ∷ cs))
    step ih Word.before e = absurd (word_of-starts c h e)
    step ih Word.within e =
        rw (identifier_within c cs e, read_name)
          (unfold is_fault is_ascii in ground (arith, word_of-utf8 (code c)))
    step (inl (n, a)) Word.whole e =
        rw (identifier_whole c cs e ∙ ap (prepend c) n, read_name) (ap not (not_ascii_tail c cs a))
    step (inr (name, after, r, k)) Word.whole e =
        rw (identifier_whole c cs e ∙ ap (prepend c) r, read_name)
          (k.0, λ a. k.1 (ascii_tail c cs a))

digit_code : (c : Char) → is_ascii_digit (first_byte c) ≡ true → is_ascii_digit (code c) ≡ true
unfolding first_byte is_ascii_digit utf8
digit_code c h = ground arith

read_token_lem : (p : ℕ) (c : Char) (cs : Characters) → Takes c cs (read_token p c cs)
unfolding read_token
read_token_lem p c cs =
    let b = first_byte c in
    if_ind (Takes c cs) (b == b'\'' || b == b'"') (λ _. read_literal_lem p b c cs)
      (λ _.
        if_ind (Takes c cs) (is_ascii_digit b) (λ d. read_number_lem p c cs (digit_code c d))
          (λ _.
            if_ind (Takes c cs) (b == b'#') (λ _. read_reference_lem Token.variable p c cs)
              (λ _.
                if_ind (Takes c cs) (b == b'@') (λ _. read_reference_lem Token.bean p c cs)
                  (λ _.
                    if_ind (Takes c cs) (starts_identifier b) (λ s. read_name_lem c cs s)
                      (λ _. read_symbol_lem p c cs)))))

-- A fault of what is left is a fault of the text.
is_fault_after :
    (c : Char) (cs after : Characters) (e : LexError)
    → (is_ascii (c ∷ cs) ≡ true → is_ascii after ≡ true)
    → is_fault (is_ascii after) e ≡ true
    → is_fault (is_ascii (c ∷ cs)) e ≡ true
unfolding is_fault
is_fault_after c cs after panic k h = ground arith
is_fault_after c cs after out_of_fuel k h = cc
is_fault_after c cs after (LexError.expected_name p) k h = refl
is_fault_after c cs after (invalid_number p) k h = refl
is_fault_after c cs after (unexpected_character p) k h = refl
is_fault_after c cs after (unterminated_string p) k h = refl

tokenize_rest_lem :
    (fuel size : ℕ) (cs : Characters)
    → length cs < fuel
    → ((tokens : List SpannedToken) × (tokenize_rest fuel size cs ≡ ok tokens))
      ⊎ ((e : LexError) × (tokenize_rest fuel size cs ≡ err e) × (is_fault (is_ascii cs) e ≡ true))
unfolding tokenize_rest
tokenize_rest_lem zero size cs h = absurd (omega arith)
tokenize_rest_lem (suc fuel) size [] h = inl ([], refl)
tokenize_rest_lem (suc fuel) size (c ∷ cs) h = elim (Bool-cases (is_whitespace (first_byte c))) [
  | inl w ↦ elim (tokenize_rest_lem fuel size cs (omega arith)) [
    | inl (ts, e) ↦ inl (ts, rw (w, tokenize_rest) e)
    | inr (e, p, f) ↦ inr (e, rw (w, tokenize_rest) p, is_fault_after c cs cs e (ascii_tail c cs) f)
  ]
  | inr w ↦
      let position = size - byte_length (c ∷ cs) in
      elim (Result-cases (read_token position c cs)) [
        | inl ((token, after), r) ↦
            let k : Takes c cs (ok (token, after)) =
              subst (λ x. Takes c cs x) r (read_token_lem position c cs) in
            elim (tokenize_rest_lem fuel size after (omega arith)) [
              | inl (ts, e) ↦ inl (
                record { token = token; position = position } ∷ ts,
                rw (w, tokenize_rest) (rw r (rw e refl)),
              )
              | inr (e, p, f) ↦
                  inr
                    (e, rw (w, tokenize_rest) (rw r (rw p refl)), is_fault_after c cs after e k.1 f)
            ]
        | inr (e, r) ↦
            let k : Takes c cs (err e) =
              subst (λ x. Takes c cs x) r (read_token_lem position c cs) in
            inr (e, rw (w, tokenize_rest) (rw r refl), k)
      ]
]

-- tok
pub tokenize_total :
    (expression : String)
    → ((tokens : List SpannedToken) × (tokenize expression ≡ ok tokens))
      ⊎ ((e : LexError) × (tokenize expression ≡ err e)
          × (is_fault (is_ascii (characters expression)) e ≡ true))
unfolding tokenize
tokenize_total expression =
    let cs = characters expression in
    tokenize_rest_lem (suc (length cs)) (byte_length cs) cs (omega arith)
