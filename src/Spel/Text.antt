-- ===== src/Spel/Text.antt =====
-- The functions on text of the standard library that crates/spel/src/eval.rs calls, and its
-- `java_string_hash`. A text is the list of its characters.
use shinyproxy_rust.Base.{
  ℕ, zero, suc, ◌+◌, ◌-◌, ◌*◌, ◌/◌, ◌%◌, ◌^◌, Bool, true, false, ◌&&◌, ◌||◌, Option, none, some,
  List, [], ◌∷◌, ◌++◌, ltb, ◌==◌, if◌then◌else◌, is_some, length,
}
use shinyproxy_rust.Base.Int.{ℤ, pos, negsuc}
use Prim.Native.Char.{Char, code}
use mathlib.Core.List.{reverse}
use shinyproxy_rust.Spel.Lexer.{Characters, utf8}

-- `value.strip_prefix(pattern)`
unfoldable pub strip_prefix : Characters → Characters → Option Characters
strip_prefix [] cs = some cs
strip_prefix (p ∷ ps) [] = none
strip_prefix (p ∷ ps) (c ∷ cs) = if code p == code c then strip_prefix ps cs else none

-- `value.find(pattern)`: an offset in bytes.
unfoldable pub find_text : Characters → Characters → Option ℕ
unfolding strip_prefix
find_text pattern [] = if is_some (strip_prefix pattern []) then some 0 else none
find_text pattern (c ∷ cs) =
    let later = elim (find_text pattern cs) as (λ _. Option ℕ) [
      | none ↦ none
      | some offset ↦ some (length (utf8 (code c)) + offset)
    ] in
    if is_some (strip_prefix pattern (c ∷ cs)) then some 0 else later

unfoldable pub same_text : Characters → Characters → Bool
same_text [] [] = true
same_text (c ∷ cs) (d ∷ ds) = (code c == code d) && same_text cs ds
same_text _ _ = false

-- `value.ends_with(pattern)`
unfoldable pub ends_with : Characters → Characters → Bool
unfolding same_text
ends_with pattern [] = same_text pattern []
ends_with pattern (c ∷ cs) = same_text pattern (c ∷ cs) || ends_with pattern cs

-- `value.replace(pattern, to)`: matches from the left that do not overlap; `skip` counts the
-- characters of the last match that are left.
unfoldable pub replace_text : ℕ → Characters → Characters → Characters → Characters
unfolding strip_prefix
replace_text skip pattern to [] = []
replace_text (suc skip) pattern to (c ∷ cs) = replace_text skip pattern to cs
replace_text zero pattern to (c ∷ cs) =
    let found = is_some (strip_prefix pattern (c ∷ cs)) in
    let rest = replace_text (if found then length pattern - 1 else 0) pattern to cs in
    if found then to ++ rest else c ∷ rest

-- An empty pattern matches before each character and at the end.
unfoldable pub replace_nothing : Characters → Characters → Characters
replace_nothing to [] = to
replace_nothing to (c ∷ cs) = to ++ c ∷ replace_nothing to cs

unfoldable pub replace : Characters → Characters → Characters → Characters
unfolding replace_text replace_nothing
replace [] to cs = replace_nothing to cs
replace (p ∷ ps) to cs = replace_text 0 (p ∷ ps) to cs

-- `text.split(separator)` for a separator that is not empty; `part` is read backwards.
unfoldable pub split_text : ℕ → Characters → Characters → Characters → List Characters
unfolding strip_prefix
split_text skip separator part [] = reverse part ∷ []
split_text (suc skip) separator part (c ∷ cs) = split_text skip separator part cs
split_text zero separator part (c ∷ cs) =
    let found = is_some (strip_prefix separator (c ∷ cs)) in
    let rest =
      split_text (if found then length separator - 1 else 0) separator
        (if found then [] else c ∷ part) cs in
    if found then reverse part ∷ rest else rest

-- `chars().skip(count)` and `take(count)`
unfoldable pub skip_characters : ℕ → Characters → Characters
skip_characters zero cs = cs
skip_characters (suc n) [] = []
skip_characters (suc n) (c ∷ cs) = skip_characters n cs

unfoldable pub take_characters : ℕ → Characters → Characters
take_characters zero cs = []
take_characters (suc n) [] = []
take_characters (suc n) (c ∷ cs) = c ∷ take_characters n cs

-- `chars().nth(index)`
unfoldable pub nth_character : ℕ → Characters → Option Char
unfolding skip_characters
nth_character n cs = elim (skip_characters n cs) [ [] ↦ none | c ∷ _ ↦ some c ]

-- `encode_utf16`
unfoldable pub utf16 : Characters → List ℕ
utf16 [] = []
utf16 (c ∷ cs) =
    let n = code c in
    let rest = utf16 cs in
    if ltb n 65536
    then n ∷ rest
    else (0xD800 + (n - 65536) / 1024) ∷ (0xDC00 + (n - 65536) % 1024) ∷ rest

-- The loop of `java_string_hash` on the bit pattern of the `i32`.
unfoldable pub hash_units : ℕ → List ℕ → ℕ
hash_units hash [] = hash
hash_units hash (unit ∷ units) = hash_units ((hash * 31 + unit) % 2 ^ 32) units

-- The `i32` of a bit pattern.
abbrev pub signed_i32 : ℕ → ℤ
signed_i32 n = if ltb n (2 ^ 31) then pos n else negsuc (2 ^ 32 - n - 1)

unfoldable pub java_string_hash : Characters → ℤ
unfolding hash_units utf16
java_string_hash cs = signed_i32 (hash_units 0 (utf16 cs))
