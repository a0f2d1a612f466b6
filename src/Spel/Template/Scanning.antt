-- ===== src/Spel/Template/Scanning.antt =====
-- The rounds of `split`, and the text that is written from parts.
use shinyproxy_rust.Base.{
  ℕ, zero, suc, ◌+◌, ◌-◌, ◌≤◌, ◌<◌, ◌≡◌, refl, sym, ap, subst, ◌∙◌, ◌⊎◌, inl, inr, Bool, true,
  false, not, ◌&&◌, Option, none, some, List, [], ◌∷◌, ◌++◌, arith, ◌==◌, ==_iff, Option-cases,
  is_none, length, length-append,
}
use shinyproxy_rust.Spel.Lexer.{byte_length}
use Prim.Native.Char.{Char, char, code}
use text.Mathlib.TextEquality.{Char-path}
use mathlib.Core.List.{append-nil}
use shinyproxy_rust.Base.Result.{err, Result-cases, and_then}
use shinyproxy_rust.Spel.Template.{
  unterminated, ok, split_rest, push_text, Text, Part, expression, after_brace, find_start,
  scan_character, closes, find_closing_brace,
}

abbrev pub hash : Char
hash = char b'#' tt

abbrev pub open_brace : Char
open_brace = char b'{' tt

abbrev pub close_brace : Char
close_brace = char b'}' tt

-- A character is known by its number.
pub char-eq : (c d : Char) → (code c == code d) ≡ true → c ≡ d
char-eq c d h = Char-path c d ((==_iff (code c) (code d)).0 h)

-- A part as it stands in a template.
unfoldable pub print_part : Part → Text
print_part (Part.text value) = value
print_part (expression inside) = hash ∷ open_brace ∷ inside ++ close_brace ∷ []

unfoldable pub print : List Part → Text
unfolding print_part
print [] = []
print (p ∷ ps) = print_part p ++ print ps

-- No brace of the text ends an expression before the text's end, where all braces and quotes are
-- closed.
unfoldable pub is_balanced : Option ℕ → ℕ → Text → Bool
unfolding closes scan_character
is_balanced quote depth [] = is_none quote && depth == 0
is_balanced quote depth (c ∷ rest) =
    not (closes quote depth (code c))
    && is_balanced (scan_character quote depth (code c)).quote
        (scan_character quote depth (code c)).depth rest

unfoldable pub is_empty : Text → Bool
is_empty [] = true
is_empty (c ∷ cs) = false

unfoldable pub starts_with_text : List Part → Bool
starts_with_text (Part.text _ ∷ ps) = true
starts_with_text _ = false

-- The parts as `split` cuts them off.
unfoldable pub AreCut : List Part → Type 0
unfolding is_empty starts_with_text find_start is_balanced
AreCut [] = Unit {0}
AreCut (Part.text value ∷ ps) =
    (is_empty value ≡ false) × (find_start value ≡ none) × (starts_with_text ps ≡ false) × AreCut ps
AreCut (expression inside ∷ ps) = (is_balanced none 0 inside ≡ true) × AreCut ps

after_brace-some : (t after : Text) → after_brace t ≡ some after → t ≡ open_brace ∷ after
unfolding after_brace
after_brace-some [] after h = cc
after_brace-some (c ∷ t) after h = ground (arith, char-eq c open_brace)

pub find_start-some :
    (t before after : Text)
    → find_start t ≡ some (before, after)
    → (t ≡ before ++ hash ∷ open_brace ∷ after) × (find_start before ≡ none)
unfolding find_start
find_start-some [] b a h = cc
find_start-some (c ∷ rest) [] a h = ground (arith, after_brace-some rest a, char-eq c hash)
find_start-some (c ∷ rest) (b ∷ bs) a h = step bs (find_start-some rest bs a) h
  where
    step :
        (bs : Text)
        → (find_start rest ≡ some (bs, a)
            → (rest ≡ bs ++ hash ∷ open_brace ∷ a) × (find_start bs ≡ none))
        → find_start (c ∷ rest) ≡ some (b ∷ bs, a)
        → (c ∷ rest ≡ b ∷ bs ++ hash ∷ open_brace ∷ a) × (find_start (b ∷ bs) ≡ none)
    step [] ih h = ground (arith, ih, char-eq c hash)
    step (x ∷ xs) ih h = ground (arith, ih)

pub find_start-none :
    (t : Text) (after : Text)
    → find_start t ≡ none
    → find_start (t ++ hash ∷ open_brace ∷ after) ≡ some (t, after)
unfolding find_start after_brace
find_start-none [] a h = refl
find_start-none (c ∷ []) a h = ground arith
find_start-none (c ∷ d ∷ rest) a h = ground (arith, find_start-none (d ∷ rest) a)

pub find_closing_brace-some :
    (q : Option ℕ) (d : ℕ) (t inside after : Text)
    → find_closing_brace q d t ≡ some (inside, after)
    → (t ≡ inside ++ close_brace ∷ after) × (is_balanced q d inside ≡ true)
unfolding find_closing_brace closes is_balanced
find_closing_brace-some q d [] inside after h = cc
find_closing_brace-some none d (c ∷ rest) [] after h = ground (arith, char-eq c close_brace)
find_closing_brace-some (some a) d (c ∷ rest) [] after h = ground arith
find_closing_brace-some q d (c ∷ rest) (i ∷ inside) after h = ground (
  arith,
  find_closing_brace-some (scan_character q d (code c)).quote (scan_character q d (code c)).depth
      rest inside after,
)

pub is_balanced-find_closing_brace :
    (q : Option ℕ) (d : ℕ) (inside after : Text)
    → is_balanced q d inside ≡ true
    → find_closing_brace q d (inside ++ close_brace ∷ after) ≡ some (inside, after)
unfolding find_closing_brace is_balanced
is_balanced-find_closing_brace none d [] after h = unfold closes in ground arith
is_balanced-find_closing_brace (some a) d [] after h = cc
is_balanced-find_closing_brace q d (c ∷ inside) after h = ground (
  arith,
  is_balanced-find_closing_brace (scan_character q d (code c)).quote
      (scan_character q d (code c)).depth inside after,
)

pub print-push_text : (t : Text) (ps : List Part) → print (push_text t ps) ≡ t ++ print ps
unfolding print push_text
print-push_text [] ps = refl
print-push_text (c ∷ t) ps = refl

pub push_text-AreCut :
    (t : Text) (ps : List Part)
    → find_start t ≡ none
    → starts_with_text ps ≡ false
    → AreCut ps
    → AreCut (push_text t ps)
unfolding AreCut push_text
push_text-AreCut [] ps h s a = a
push_text-AreCut (c ∷ t) ps h s a = (refl, h, s, a)

print-expression :
    (inside : Text) (ps : List Part)
    → (inside ++ close_brace ∷ []) ++ print ps ≡ inside ++ close_brace ∷ print ps
print-expression [] ps = refl
print-expression (c ∷ inside) ps = ap (λ t. c ∷ t) (print-expression inside ps)

-- The text after the pieces that a round cuts off.
pub cut :
    (rest before after inside next : Text)
    → find_start rest ≡ some (before, after)
    → find_closing_brace none 0 after ≡ some (inside, next)
    → rest ≡ before ++ hash ∷ open_brace ∷ (inside ++ close_brace ∷ next)
cut rest before after inside next s c =
    let e = (find_start-some rest before after s).0 in
    let f = (find_closing_brace-some none 0 after inside next c).0 in rw (e, f) refl

pub print-round :
    (before inside next : Text) (ps : List Part)
    → print ps ≡ next
    → print (push_text before (expression inside ∷ ps))
      ≡ before ++ hash ∷ open_brace ∷ (inside ++ close_brace ∷ next)
unfolding print print_part
print-round before inside next ps h =
    print-push_text before (expression inside ∷ ps)
    ∙ ap (λ t. before ++ hash ∷ open_brace ∷ t)
        (print-expression inside ps ∙ ap (λ t. inside ++ close_brace ∷ t) h)

split_rest-round :
    (fuel size : ℕ) (rest before after inside next : Text) (parts : List Part)
    → find_start rest ≡ some (before, after)
    → find_closing_brace none 0 after ≡ some (inside, next)
    → split_rest (suc fuel) size rest ≡ ok parts
    → (ps : List Part) × (split_rest fuel size next ≡ ok ps)
      × (parts ≡ push_text before (expression inside ∷ ps))
unfolding split_rest and_then
split_rest-round fuel size rest before after inside next parts s c h =
    elim (Result-cases (split_rest fuel size next)) [
      | inl (ps, e) ↦ (ps, e, ground arith)
      | inr (_, e) ↦ ground arith
    ]

-- What a finished split is.
pub split_rest-ok :
    (fuel size : ℕ) (rest : Text) (parts : List Part)
    → split_rest fuel size rest ≡ ok parts
    → (print parts ≡ rest) × AreCut parts
unfolding split_rest print starts_with_text AreCut
split_rest-ok zero size rest parts h = cc
split_rest-ok (suc fuel) size rest parts h = elim (Option-cases (find_start rest)) [
  | inl s ↦
      subst (λ ps. (print ps ≡ rest) × AreCut ps) (ground arith)
        (print-push_text rest [] ∙ append-nil rest, push_text-AreCut rest [] s refl tt)
  | inr ((before, after), s) ↦ elim (Option-cases (find_closing_brace none 0 after)) [
    | inl c ↦ ground arith
    | inr ((inside, next), c) ↦
        let (parts', e, g) = split_rest-round fuel size rest before after inside next parts s c h in
        let ih = split_rest-ok fuel size next parts' e in
        subst (λ ps. (print ps ≡ rest) × AreCut ps) (sym g)
          (
            print-round before inside next parts' ih.0
                ∙ sym (cut rest before after inside next s c),
            push_text-AreCut before (expression inside ∷ parts')
                (find_start-some rest before after s).1 refl
                ((find_closing_brace-some none 0 after inside next c).1, ih.1),
          )
  ]
]

-- A round on a template that starts with these pieces.
split_rest-step :
    (fuel size : ℕ) (before inside next : Text)
    → find_start before ≡ none
    → is_balanced none 0 inside ≡ true
    → split_rest (suc fuel) size (before ++ hash ∷ open_brace ∷ (inside ++ close_brace ∷ next))
      ≡ and_then (split_rest fuel size next) (λ ps. ok (push_text before (expression inside ∷ ps)))
unfolding split_rest
split_rest-step fuel size before inside next s b = ground (
  arith,
  find_start-none before (inside ++ close_brace ∷ next) s,
  is_balanced-find_closing_brace none 0 inside next b,
)

push_text-text :
    (value : Text) (ps : List Part)
    → is_empty value ≡ false
    → push_text value ps ≡ Part.text value ∷ ps
unfolding push_text is_empty
push_text-text [] ps h = cc
push_text-text (c ∷ cs) ps h = refl

pub length-round :
    (before inside next : Text)
    → length next + 3 ≤ length (before ++ hash ∷ open_brace ∷ (inside ++ close_brace ∷ next))
length-round before inside next = omega (
  arith,
  length-append before (hash ∷ open_brace ∷ (inside ++ close_brace ∷ next)),
  length-append inside (close_brace ∷ next),
)

-- The round that reads back a text, which may be empty, and the expression after it.
split_rest-print_round :
    (fuel size : ℕ) (before inside : Text) (ps : List Part)
    → find_start before ≡ none
    → is_balanced none 0 inside ≡ true
    → (length (print ps) < fuel → split_rest fuel size (print ps) ≡ ok ps)
    → length (print (push_text before (expression inside ∷ ps))) < suc fuel
    → split_rest (suc fuel) size (print (push_text before (expression inside ∷ ps)))
      ≡ ok (push_text before (expression inside ∷ ps))
unfolding and_then
split_rest-print_round fuel size before inside ps s b ih h =
    let e = print-round before inside (print ps) ps refl in
    let short : length (print ps) < fuel =
      omega (arith, ap (λ (t : Text). length t) e, length-round before inside (print ps)) in
    ap (λ t. split_rest (suc fuel) size t) e
    ∙ split_rest-step fuel size before inside (print ps) s b
    ∙ rw (ih short) refl

pub split_rest-print :
    (fuel size : ℕ) (ps : List Part)
    → AreCut ps
    → length (print ps) < fuel
    → split_rest fuel size (print ps) ≡ ok ps
unfolding split_rest print print_part AreCut starts_with_text
split_rest-print zero size ps a h = absurd (omega arith)
split_rest-print (suc fuel) size [] a h = refl
split_rest-print (suc fuel) size (Part.text value ∷ []) a h =
    ground (arith, append-nil value, push_text-text value [])
split_rest-print (suc fuel) size (Part.text value ∷ Part.text other ∷ ps) a h = cc (a.2)
split_rest-print (suc fuel) size (Part.text value ∷ expression inside ∷ ps) a h =
    let e = push_text-text value (expression inside ∷ ps) a.0 in
    subst (λ (qs : List Part). split_rest (suc fuel) size (print qs) ≡ ok qs) e
      (split_rest-print_round fuel size value inside ps a.1 a.3.0
        (split_rest-print fuel size ps a.3.1)
        (subst (λ (qs : List Part). length (print qs) < suc fuel) (sym e) h))
split_rest-print (suc fuel) size (expression inside ∷ ps) a h =
    split_rest-print_round fuel size [] inside ps refl a.0 (split_rest-print fuel size ps a.1) h

-- Enough fuel: a split ends with parts, or with a `#{` that nothing closes.
pub split_rest-total :
    (fuel size : ℕ) (rest : Text)
    → length rest < fuel
    → ((parts : List Part) × (split_rest fuel size rest ≡ ok parts))
      ⊎ ((p : ℕ) × (split_rest fuel size rest ≡ err (unterminated p)))
unfolding split_rest and_then
split_rest-total zero size rest h = absurd (omega arith)
split_rest-total (suc fuel) size rest h = elim (Option-cases (find_start rest)) [
  | inl s ↦ inl (push_text rest [], ground arith)
  | inr ((before, after), s) ↦ elim (Option-cases (find_closing_brace none 0 after)) [
    | inl c ↦ inr (size - byte_length after, ground arith)
    | inr ((inside, next), c) ↦
        let e = ap (λ (t : Text). length t) (cut rest before after inside next s c) in
        let short : length next < fuel = omega (arith, e, length-round before inside next) in
        elim (split_rest-total fuel size next short) [
          | inl (ps, e) ↦ inl (push_text before (expression inside ∷ ps), ground arith)
          | inr (p, e) ↦ inr (p, ground arith)
        ]
  ]
]
