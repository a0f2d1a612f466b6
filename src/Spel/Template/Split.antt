-- ===== src/Spel/Template/Split.antt =====
-- `split` as the inverse of writing the parts one after the other, and where it fails.
use shinyproxy_rust.Base.{
  ℕ, zero, suc, ◌+◌, ◌-◌, ◌≡◌, refl, sym, ap, subst, ◌∙◌, ◌≢◌, ◌⊎◌, inl, inr, false, none, some,
  List, [], ◌∷◌, ◌++◌, arith, Option-cases, length,
}
use shinyproxy_rust.Spel.Lexer.{byte_length, utf8}
use shinyproxy_rust.Base.Result.{ok, err, Result-cases, and_then}
use shinyproxy_rust.Spel.Template.{
  Text, Part, expression, TemplateError, unterminated, find_start, find_closing_brace, push_text,
  split_rest, split,
}
use mathlib.Core.List.{append-nil, append_assoc}
use shinyproxy_rust.Spel.Template.Scanning.{
  hash, open_brace, close_brace, print, is_empty, starts_with_text, AreCut, find_start-some,
  find_closing_brace-some, is_balanced-find_closing_brace, print-push_text, push_text-AreCut,
  print-round, cut, split_rest-ok, split_rest-print, split_rest-total,
}
use shinyproxy_rust.Spel.Template.Balanced.{
  Balanced, HoldsNoStart, find_start-HoldsNoStart, HoldsNoStart-find_start, Balanced-is_balanced,
  is_balanced-Balanced,
}

-- Texts are not empty, hold no `#{` and do not follow each other; expressions are balanced.
abbrev pub AreParts : List Part → Type 0
AreParts [] = Unit {0}
AreParts (Part.text value ∷ ps) =
    (value ≢ []) × HoldsNoStart value × (starts_with_text ps ≡ false) × AreParts ps
AreParts (expression inside ∷ ps) = Balanced 0 inside × AreParts ps

pub AreParts-AreCut : (ps : List Part) → AreParts ps → AreCut ps
unfolding AreCut is_empty
AreParts-AreCut [] a = tt
AreParts-AreCut (Part.text [] ∷ ps) a = absurd (a.0 refl)
AreParts-AreCut (Part.text (c ∷ cs) ∷ ps) (some_, no_start, alone, a) =
    (refl, HoldsNoStart-find_start (c ∷ cs) no_start, alone, AreParts-AreCut ps a)
AreParts-AreCut (expression inside ∷ ps) (b, a) = (Balanced-is_balanced b, AreParts-AreCut ps a)

pub AreCut-AreParts : (ps : List Part) → AreCut ps → AreParts ps
unfolding AreCut is_empty
AreCut-AreParts [] a = tt
AreCut-AreParts (Part.text value ∷ ps) (some_, no_start, alone, a) = (
  (λ e. ground (arith, ap is_empty e)),
  find_start-HoldsNoStart value no_start,
  alone,
  AreCut-AreParts ps a,
)
AreCut-AreParts (expression inside ∷ ps) (b, a) =
    (is_balanced-Balanced inside b, AreCut-AreParts ps a)

-- No closing brace follows for the expression that starts here.
abbrev pub IsUnclosed : Text → Type 0
IsUnclosed t = (inside after : Text) → Balanced 0 inside → t ≢ inside ++ close_brace ∷ after

unclosed : (after : Text) → find_closing_brace none 0 after ≡ none → IsUnclosed after
unclosed after h inside rest b e =
    let closed = is_balanced-find_closing_brace none 0 inside rest (Balanced-is_balanced b) in
    let none_here = subst (λ t. find_closing_brace none 0 t ≡ none) e h in cc

byte_length-append : (s t : Text) → byte_length (s ++ t) ≡ byte_length s + byte_length t
unfolding byte_length
byte_length-append [] t = omega arith
byte_length-append (c ∷ s) t = omega (arith, byte_length-append s t)

-- What stands before the `#{` where a split fails.
Stopped : ℕ → Text → ℕ → Type 0
Stopped size rest p =
    (ps : List Part) × (after : Text) × AreCut ps
    × (rest ≡ print ps ++ hash ∷ open_brace ∷ after)
    × (p ≡ size - byte_length after)
    × IsUnclosed after

split_rest-later :
    (fuel size : ℕ) (rest before after inside next : Text) {e : TemplateError}
    → find_start rest ≡ some (before, after)
    → find_closing_brace none 0 after ≡ some (inside, next)
    → split_rest (suc fuel) size rest ≡ err e
    → split_rest fuel size next ≡ err e
unfolding split_rest and_then
split_rest-later fuel size rest before after inside next s c h =
    elim (Result-cases (split_rest fuel size next)) [
      | inl (ps, e) ↦ absurd (ground arith)
      | inr (e', e) ↦ ground arith
    ]

-- One round more, before what the later rounds read.
joined :
    (before inside next : Text) (ps : List Part) (later : Text)
    → next ≡ print ps ++ later
    → before ++ hash ∷ open_brace ∷ (inside ++ close_brace ∷ next)
      ≡ print (push_text before (expression inside ∷ ps)) ++ later
joined before inside next ps later e =
    let round = print-round before inside (print ps) ps refl in
    let front =
      ap (λ t. t ++ later) round
      ∙ append_assoc before (hash ∷ open_brace ∷ (inside ++ close_brace ∷ print ps)) later in
    let back = append_assoc inside (close_brace ∷ print ps) later in
    ap (λ t. before ++ hash ∷ open_brace ∷ (inside ++ close_brace ∷ t)) e
    ∙ ap (λ t. before ++ hash ∷ open_brace ∷ t) (sym back)
    ∙ sym front

split_rest-err :
    (fuel size : ℕ) (rest : Text) (p : ℕ)
    → split_rest fuel size rest ≡ err (unterminated p)
    → Stopped size rest p
unfolding split_rest and_then Stopped print starts_with_text AreCut
split_rest-err zero size rest p h = absurd cc
split_rest-err (suc fuel) size rest p h = elim (Option-cases (find_start rest)) [
  | inl s ↦ absurd (ground arith)
  | inr ((before, after), s) ↦
      let (whole, no_start) = find_start-some rest before after s in
      elim (Option-cases (find_closing_brace none 0 after)) [
        | inl c ↦
            let text = print-push_text before [] in
            (
              push_text before [],
              after,
              push_text-AreCut before [] no_start refl tt,
              whole ∙ ap (λ t. t ++ hash ∷ open_brace ∷ after) (sym (text ∙ append-nil before)),
              ground arith,
              unclosed after c,
            )
        | inr ((inside, next), c) ↦
            let (ps, after', are, split_at, position, un) =
              split_rest-err fuel size next p
                (split_rest-later fuel size rest before after inside next s c h) in
            (
              push_text before (expression inside ∷ ps),
              after',
              push_text-AreCut before (expression inside ∷ ps) no_start refl
                  ((find_closing_brace-some none 0 after inside next c).1, are),
              cut rest before after inside next s c ∙ joined before inside next ps _ split_at,
              position,
              un,
            )
      ]
]

-- A template written from its parts is split into these parts again, if the texts are not empty,
-- hold no `#{` and do not follow each other, and the expressions are balanced.
pub split-print : (ps : List Part) → AreParts ps → split (print ps) ≡ ok ps
unfolding split
split-print ps a =
    split_rest-print (suc (length (print ps))) (byte_length (print ps)) ps (AreParts-AreCut ps a)
      (omega arith)

-- Parts and then a `#{` that nothing closes; the position is the byte after that `#{`.
abbrev pub IsUnterminated : Text → ℕ → Type 0
IsUnterminated template p =
    (ps : List Part) × (after : Text) × AreParts ps
    × (template ≡ print ps ++ hash ∷ open_brace ∷ after)
    × (p ≡ byte_length (print ps) + 2)
    × IsUnclosed after

Stopped-IsUnterminated :
    (template : Text) (p : ℕ)
    → Stopped (byte_length template) template p
    → IsUnterminated template p
unfolding Stopped
Stopped-IsUnterminated template p (ps, after, are, split_at, position, un) =
    let start : byte_length (hash ∷ open_brace ∷ after) ≡ 2 + byte_length after =
      unfold byte_length utf8 in omega arith in
    let size =
      ap byte_length split_at ∙ byte_length-append (print ps) (hash ∷ open_brace ∷ after) in
    (ps, after, AreCut-AreParts ps are, split_at, omega arith, un)

-- `split` answers with parts that make up the template (texts that are not empty, hold no `#{` and
-- do not follow each other, and expressions whose braces are balanced outside of quotes), or it
-- fails with the position in bytes just after a `#{` that no brace closes and before which such
-- parts stand; then no such parts make up the template.
pub split_lem :
    (template : Text)
    → ((ps : List Part) × (split template ≡ ok ps) × (print ps ≡ template) × AreParts ps)
      ⊎ ((p : ℕ) × (split template ≡ err (unterminated p))
          × IsUnterminated template p
          × ((ps : List Part) → AreParts ps → print ps ≢ template))
unfolding split
split_lem template =
    let fuel = suc (length template) in
    elim (split_rest-total fuel (byte_length template) template (omega arith)) [
      | inl (ps, e) ↦
          let facts = split_rest-ok fuel (byte_length template) template ps e in
          inl (ps, e, facts.0, AreCut-AreParts ps facts.1)
      | inr (p, e) ↦ inr (
        p,
        e,
        Stopped-IsUnterminated template p (split_rest-err fuel (byte_length template) template p e),
        λ ps a w.
            let r : split template ≡ ok ps = subst (λ t. split t ≡ ok ps) w (split-print ps a) in
            cc,
      )
    ]
