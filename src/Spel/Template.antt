-- ===== src/Spel/Template.antt =====
-- crates/spel/src/template.rs: templates, text with expressions in `#{` and `}`. A text is the list
-- of its characters. Where the code keeps an offset and slices the text there, the model hands out
-- the two slices.
pub mod Scanning
pub mod Balanced
pub mod Split
use shinyproxy_rust.Base.{
  ℕ, zero, suc, ◌+◌, ◌-◌, Bool, false, not, ◌&&◌, ◌||◌, Option, none, some, List, [], ◌∷◌, ◌==◌,
  if◌then◌else◌, is_some, length,
}
use shinyproxy_rust.Spel.Lexer.{byte_length}
use Prim.Native.Char.{Char, code}
use shinyproxy_rust.Base.Result.{Result, ok, err, and_then}

abbrev pub Text : Type 0
Text = List Char

pub data Part : Type 0 where
  text expression : Text → Part

pub data TemplateError : Type 0 where
  unterminated : ℕ → TemplateError
  out_of_fuel : TemplateError

-- `rest.strip_prefix('{')`
unfoldable pub after_brace : Text → Option Text
after_brace [] = none
after_brace (c ∷ rest) = if code c == b'{' then some rest else none

-- `rest.find("#{")`: what stands before the first `#{`, and after it.
unfoldable pub find_start : Text → Option (Text × Text)
unfolding after_brace
find_start [] = none
find_start (c ∷ rest) =
    let found = if code c == b'#' then after_brace rest else none in
    let later = find_start rest in
    elim found [
      | some after ↦ some ([], after)
      | none ↦ elim later [ none ↦ none | some (before, after) ↦ some (c ∷ before, after) ]
    ]

unfoldable pub contains_expression : Text → Bool
unfolding find_start
contains_expression value = is_some (find_start value)

-- The loop of `find_closing_brace`: the nesting of braces, and the quote that is open.
pub record Scan : Type 0 where
  pub depth : ℕ
  pub quote : Option ℕ

-- What a character that does not end the expression makes of the nesting and the quote.
unfoldable pub scan_character : Option ℕ → ℕ → ℕ → Scan
scan_character (some active) depth c = record {
  depth = depth;
  quote = if c == active then none else some active;
}
scan_character none depth c =
    if c == b'\'' || c == b'"'
    then record { depth = depth; quote = some c }
    else if c == b'{'
    then record { depth = depth + 1; quote = none }
    else if c == b'}'
    then record { depth = depth - 1; quote = none }
    else record { depth = depth; quote = none }

unfoldable pub closes : Option ℕ → ℕ → ℕ → Bool
closes (some active) depth c = false
closes none depth c = c == b'}' && depth == 0

-- The text before the closing brace, and the text after it.
unfoldable pub find_closing_brace : Option ℕ → ℕ → Text → Option (Text × Text)
unfolding scan_character closes
find_closing_brace quote depth [] = none
find_closing_brace quote depth (c ∷ rest) =
    let next = scan_character quote depth (code c) in
    let later = find_closing_brace next.quote next.depth rest in
    if closes quote depth (code c)
    then some ([], rest)
    else elim later [ none ↦ none | some (inside, after) ↦ some (c ∷ inside, after) ]

unfoldable pub push_text : Text → List Part → List Part
push_text [] parts = parts
push_text (c ∷ cs) parts = text (c ∷ cs) ∷ parts

-- The loop of `split`; `size` is the number of bytes of the whole template.
unfoldable pub split_rest : ℕ → ℕ → Text → Result (List Part) TemplateError
unfolding find_start find_closing_brace push_text and_then
split_rest zero size rest = err out_of_fuel
split_rest (suc fuel) size rest = elim (find_start rest) [
  | none ↦ ok (push_text rest [])
  | some (before, after) ↦ elim (find_closing_brace none 0 after) [
    | none ↦ err (unterminated (size - byte_length after))
    | some (inside, next) ↦
        and_then (split_rest fuel size next)
          (λ parts. ok (push_text before (expression inside ∷ parts)))
  ]
]

-- Each round takes the two characters of `#{` at least.
unfoldable pub split : Text → Result (List Part) TemplateError
unfolding split_rest byte_length
split template = split_rest (suc (length template)) (byte_length template) template
