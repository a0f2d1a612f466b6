-- ===== src/Spel/Lexer.antt =====
-- crates/spel/src/lexer.rs: `tokenize`. The code walks the bytes of the text and reads each as a
-- Latin-1 character; every round starts at the first byte of a character, so the model walks the
-- characters and looks at their bytes where the code does. A position counts bytes.
pub mod Literals
pub mod Total
pub mod Panics
use shinyproxy_rust.Base.{
  ℕ, zero, suc, ◌+◌, ◌-◌, ◌*◌, ◌/◌, ◌%◌, ◌^◌, ◌<◌, String, Bool, true, false, not, ◌&&◌, ◌||◌,
  Option, none, some, List, [], ◌∷◌, ltb, leb, ◌==◌, if◌then◌else◌, length,
}
use shinyproxy_rust.Base.Int.{ℤ, pos}
use Prim.Native.Char.{Char, code}
use text.Mathlib.TextBridge.{of_list}
use shinyproxy_rust.Spel.Ast.{Token, SpannedToken}
use shinyproxy_rust.Base.Result.{Result, ok, err, and_then}

abbrev pub Characters : Type 0
Characters = List Char

-- `chars()`
unfoldable pub characters : String → Characters
characters String.[] = []
characters (String.◌∷◌ c s) = c ∷ characters s

pub data LexError : Type 0 where
  unterminated_string expected_name invalid_number unexpected_character : ℕ → LexError
  panic out_of_fuel : LexError

-- The bytes of a character in UTF-8.
unfoldable pub utf8 : ℕ → List ℕ
utf8 n =
    if ltb n 128
    then n ∷ []
    else if ltb n 2048
    then (192 + n / 64) ∷ (128 + n % 64) ∷ []
    else if ltb n 65536
    then (224 + n / 4096) ∷ (128 + n / 64 % 64) ∷ (128 + n % 64) ∷ []
    else (240 + n / 262144) ∷ (128 + n / 4096 % 64) ∷ (128 + n / 64 % 64) ∷ (128 + n % 64) ∷ []

unfoldable pub byte_length : Characters → ℕ
unfolding utf8
byte_length [] = 0
byte_length (c ∷ cs) = length (utf8 (code c)) + byte_length cs

-- `bytes[position] as char`
unfoldable pub first_byte : Char → ℕ
unfolding utf8
first_byte c = elim (utf8 (code c)) [ [] ↦ 0 | b ∷ _ ↦ b ]

abbrev between : ℕ → ℕ → ℕ → Bool
between low high b = leb low b && leb b high

-- `char::is_whitespace` up to U+00FF.
unfoldable pub is_whitespace : ℕ → Bool
is_whitespace b = between 9 13 b || b == 32 || b == 0x85 || b == 0xA0

unfoldable pub is_ascii_digit : ℕ → Bool
is_ascii_digit b = between b'0' b'9' b

-- `char::is_alphabetic` up to U+00FF.
unfoldable pub is_alphabetic : ℕ → Bool
is_alphabetic b =
    between b'A' b'Z' b
    || between b'a' b'z' b
    || b == 0xAA
    || b == 0xB5
    || b == 0xBA
    || between 0xC0 0xD6 b
    || between 0xD8 0xF6 b
    || between 0xF8 0xFF b

-- `char::is_alphanumeric` up to U+00FF: letters, digits, superscripts and fractions.
unfoldable pub is_alphanumeric : ℕ → Bool
unfolding is_alphabetic is_ascii_digit
is_alphanumeric b =
    is_alphabetic b
    || is_ascii_digit b
    || b == 0xB2
    || b == 0xB3
    || b == 0xB9
    || between 0xBC 0xBE b

unfoldable pub is_word : ℕ → Bool
unfolding is_alphanumeric
is_word b = is_alphanumeric b || b == b'_' || b == b'$'

unfoldable pub starts_identifier : ℕ → Bool
unfolding is_alphabetic
starts_identifier b = is_alphabetic b || b == b'_' || b == b'$'

-- Where the loop of `read_identifier` stands after the bytes of a character.
pub data Word : Type 0 where
  whole before within : Word

unfoldable pub all_words : List ℕ → Bool
unfolding is_word
all_words [] = true
all_words (b ∷ bs) = is_word b && all_words bs

unfoldable pub word_of : List ℕ → Word
unfolding is_word all_words
word_of [] = whole
word_of (b ∷ bs) = if is_word b then (if all_words bs then whole else within) else before

abbrev pub prepend : Char → Option (Characters × Characters) → Option (Characters × Characters)
prepend c none = none
prepend c (some (value, after)) = some (c ∷ value, after)

-- The name and what follows it; `none` where the code slices within a character, which panics.
unfoldable pub read_identifier : Characters → Option (Characters × Characters)
unfolding word_of utf8
read_identifier [] = some ([], [])
read_identifier (c ∷ rest) =
    let more = read_identifier rest in
    elim (word_of (utf8 (code c))) [
      | whole ↦ prepend c more
      | before ↦ some ([], c ∷ rest)
      | within ↦ none
    ]

-- The text of a string literal behind its first quote, and what follows the last one.
unfoldable pub read_string : ℕ → Characters → Option (Characters × Characters)
read_string quote [] = none
read_string quote (c ∷ []) = if code c == quote then some ([], []) else none
read_string quote (c ∷ d ∷ rest) = elim (code c == quote) [
  | false ↦ prepend c (read_string quote (d ∷ rest))
  | true ↦ elim (code d == quote) [
    | true ↦ prepend c (read_string quote rest)
    | false ↦ some ([], d ∷ rest)
  ]
]

-- `str::parse::<i64>` on decimal digits, the last first in `value`; `none` is an error.
unfoldable pub parse_digits : ℕ → Characters → Option ℕ
unfolding is_ascii_digit
parse_digits value [] = some value
parse_digits value (c ∷ cs) =
    if is_ascii_digit (code c) then parse_digits (value * 10 + (code c - b'0')) cs else none

unfoldable pub parse_i64 : Characters → Option ℤ
unfolding parse_digits
parse_i64 [] = none
parse_i64 (c ∷ cs) = elim (parse_digits 0 (c ∷ cs)) [
  | none ↦ none
  | some n ↦ if ltb n (2 ^ 63) then some (pos n) else none
]

-- Where the loop of `read_number` stops.
pub record Number : Type 0 where
  pub text : Characters
  pub is_float : Bool
  pub long : Bool
  pub rest : Characters

unfoldable pub starts_with_digit : Characters → Bool
unfolding is_ascii_digit
starts_with_digit [] = false
starts_with_digit (c ∷ cs) = is_ascii_digit (code c)

abbrev pub push_character : Char → Number → Number
push_character c n = record n { text = c ∷ n.text }

unfoldable pub scan_number : Bool → Characters → Number
unfolding is_ascii_digit starts_with_digit
scan_number is_float [] = record { text = []; is_float = is_float; long = false; rest = [] }
scan_number is_float (c ∷ cs) =
    let more = scan_number is_float cs in
    let fraction = scan_number true cs in
    if is_ascii_digit (code c)
    then push_character c more
    else if code c == b'.' && not is_float && starts_with_digit cs
    then push_character c fraction
    else if code c == b'L' || code c == b'l'
    then record { text = []; is_float = is_float; long = true; rest = cs }
    else record { text = []; is_float = is_float; long = false; rest = c ∷ cs }

-- A floating point number keeps its text: digits, a point and digits, which always parses.
unfoldable pub number_token : ℕ → Number → Result (Token × Characters) LexError
unfolding parse_i64
number_token start n =
    if n.is_float && not n.long
    then ok (Token.float (of_list n.text), n.rest)
    else elim (parse_i64 n.text) [
      | none ↦ err (invalid_number start)
      | some value ↦ ok (Token.int value, n.rest)
    ]

unfoldable pub read_number : ℕ → Characters → Result (Token × Characters) LexError
unfolding scan_number number_token
read_number start cs = number_token start (scan_number false cs)

-- Operators and punctuation, longest first so that `<=` wins over `<`.
abbrev pub symbols : List String
symbols =
    "?." ∷ "?:" ∷ ".![" ∷ ".?[" ∷ "==" ∷ "!=" ∷ "<=" ∷ ">=" ∷ "&&" ∷ "||" ∷ "+" ∷ "-" ∷ "*" ∷ "/"
    ∷ "%" ∷ "(" ∷ ")" ∷ "[" ∷ "]" ∷ "{" ∷ "}" ∷ "," ∷ ":" ∷ "." ∷ "?" ∷ "!" ∷ "<" ∷ ">" ∷ []

-- `rest.starts_with(symbol)`, and what follows the symbol.
unfoldable pub strip_symbol : String → Characters → Option Characters
strip_symbol String.[] cs = some cs
strip_symbol (String.◌∷◌ s symbol) [] = none
strip_symbol (String.◌∷◌ s symbol) (c ∷ cs) =
    if code c == code s then strip_symbol symbol cs else none

unfoldable pub find_symbol : List String → Characters → Option (String × Characters)
unfolding strip_symbol
find_symbol [] cs = none
find_symbol (s ∷ ss) cs = elim (strip_symbol s cs) [
  | some rest ↦ some (s, rest)
  | none ↦ find_symbol ss cs
]

-- A name behind `#` or `@`; the code refuses an empty one.
unfoldable pub read_reference :
    (String → Token) → ℕ → Characters → Result (Token × Characters) LexError
unfolding read_identifier
read_reference build position cs = elim (read_identifier cs) [
  | none ↦ err panic
  | some ([], _) ↦ err (expected_name position)
  | some (n ∷ name, rest) ↦ ok (build (of_list (n ∷ name)), rest)
]

unfoldable pub read_name : Characters → Result (Token × Characters) LexError
unfolding read_identifier
read_name cs = elim (read_identifier cs) [
  | none ↦ err panic
  | some (name, rest) ↦ ok (Token.identifier (of_list name), rest)
]

unfoldable pub read_literal : ℕ → ℕ → Characters → Result (Token × Characters) LexError
unfolding read_string
read_literal position quote cs = elim (read_string quote cs) [
  | none ↦ err (unterminated_string position)
  | some (value, rest) ↦ ok (Token.string (of_list value), rest)
]

unfoldable pub read_symbol : ℕ → Characters → Result (Token × Characters) LexError
unfolding find_symbol
read_symbol position cs = elim (find_symbol symbols cs) [
  | none ↦ err (unexpected_character position)
  | some (symbol, rest) ↦ ok (Token.symbol symbol, rest)
]

-- A round of `tokenize` at a character that is no white space: the token and what follows it.
unfoldable pub read_token : ℕ → Char → Characters → Result (Token × Characters) LexError
unfolding read_literal read_number read_reference read_name read_symbol first_byte starts_identifier
    is_ascii_digit
read_token position c rest =
    let b = first_byte c in
    if b == b'\'' || b == b'"'
    then read_literal position b rest
    else if is_ascii_digit b
    then read_number position (c ∷ rest)
    else if b == b'#'
    then read_reference Token.variable position rest
    else if b == b'@'
    then read_reference Token.bean position rest
    else if starts_identifier b
    then read_name (c ∷ rest)
    else read_symbol position (c ∷ rest)

-- The loop; `size` is the number of bytes of the whole expression.
unfoldable pub tokenize_rest : ℕ → ℕ → Characters → Result (List SpannedToken) LexError
unfolding and_then
tokenize_rest zero size cs = err out_of_fuel
tokenize_rest (suc fuel) size [] = ok []
tokenize_rest (suc fuel) size (c ∷ cs) = elim (is_whitespace (first_byte c)) [
  | true ↦ tokenize_rest fuel size cs
  | false ↦
      let position = size - byte_length (c ∷ cs) in
      and_then (read_token position c cs) (λ r.
        and_then (tokenize_rest fuel size r.1)
          (λ tokens. ok (record { token = r.0; position = position } ∷ tokens)))
]

-- Each round takes a character at least.
unfoldable pub tokenize : String → Result (List SpannedToken) LexError
unfolding tokenize_rest read_token is_whitespace first_byte byte_length characters
tokenize expression =
    let cs = characters expression in tokenize_rest (suc (length cs)) (byte_length cs) cs
