-- ===== src/Spel/Templates/Quoted.antt =====
-- Templates written from their parts, and quoted text within a template.
use shinyproxy_rust.Base.{
  concat, String, ◌≡◌, refl, sym, ap, ◌∙◌, true, none, some, List, [], ◌∷◌, ◌++◌, arith,
}
use text.Mathlib.TextBridge.{of_list}
use text.Mathlib.TextLemmas.{append-nil as text_append-nil, nil-append as text_nil-append}
use mathlib.Core.List.{append-nil}
use shinyproxy_rust.Base.Result.{ok, and_then}
use shinyproxy_rust.Spel.Template.{
  push_text, Text, Part, expression, contains_expression, find_start, closes, scan_character,
}
use shinyproxy_rust.Spel.Template.Scanning.{
  AreCut, print_part, starts_with_text, push_text-AreCut, print, print-round, find_start-none,
  is_balanced, hash, open_brace, close_brace,
}
use shinyproxy_rust.Spel.Template.Balanced.{HoldsNoStart-find_start}
use shinyproxy_rust.Spel.Template.Split.{AreParts, AreCut-AreParts, split-print}
use shinyproxy_rust.Spel.Lexer.{characters, Characters}
use shinyproxy_rust.Spel.Lexer.Literals.{
  Quote, literal, doubled, quote_character, quote_code, characters-of_list, of_list-characters,
}
use shinyproxy_rust.Spel.Parse.{parse-literal}
use shinyproxy_rust.Spel.Values.{Value, Platform, to_display_string}
use shinyproxy_rust.Spel.Eval.{Context, evaluate}
use shinyproxy_rust.Spel.Templates.{evaluate_part, evaluate_parts, evaluate_template, map_err}

-- In a quoted text the doubled quotes close and open again, so no brace counts.
is_balanced-doubled :
    (q : Quote) (v : Characters)
    → is_balanced (some (quote_code q)) 0 (doubled (quote_code q) v ++ quote_character q ∷ [])
      ≡ true
unfolding is_balanced doubled closes scan_character
is_balanced-doubled Quote.single [] = refl
is_balanced-doubled Quote.double [] = refl
is_balanced-doubled Quote.single (c ∷ cs) = ground (arith, is_balanced-doubled Quote.single cs)
is_balanced-doubled Quote.double (c ∷ cs) = ground (arith, is_balanced-doubled Quote.double cs)

is_balanced-literal :
    (q : Quote) (s : String) → is_balanced none 0 (characters (literal q s)) ≡ true
unfolding is_balanced literal closes scan_character
is_balanced-literal Quote.single s =
    rw (characters-of_list (doubled b'\'' (characters s) ++ quote_character Quote.single ∷ []))
      (is_balanced-doubled Quote.single (characters s))
is_balanced-literal Quote.double s =
    rw (characters-of_list (doubled b'"' (characters s) ++ quote_character Quote.double ∷ []))
      (is_balanced-doubled Quote.double (characters s))

evaluate_template-print_some :
    (p : Platform) (c : Context) (ps : List Part)
    → AreParts ps
    → contains_expression (print ps) ≡ true
    → evaluate_template p c (of_list (print ps)) ≡ evaluate_parts p c ps
unfolding evaluate_template map_err and_then
evaluate_template-print_some p c ps a h =
    rw (characters-of_list (print ps)) (rw h (rw (split-print ps a) refl))

-- A template without an expression is answered as it is.
evaluate_template_plain :
    (p : Platform) (c : Context) (v : Text)
    → find_start v ≡ none
    → evaluate_template p c (of_list v) ≡ ok (of_list v)
unfolding evaluate_template contains_expression
evaluate_template_plain p c v h = rw (characters-of_list v) (rw h refl)

-- Evaluating a template that is written from its parts is evaluating the parts in order and
-- joining what they give; the answer without a split for a template that holds no expression is
-- the same.
pub evaluate_template-print :
    (p : Platform) (c : Context) (ps : List Part)
    → AreParts ps
    → evaluate_template p c (of_list (print ps)) ≡ evaluate_parts p c ps
unfolding print evaluate_parts and_then starts_with_text contains_expression print_part
evaluate_template-print p c [] a = unfold evaluate_template find_start in refl
evaluate_template-print p c (Part.text v ∷ []) a =
    ap (λ t. evaluate_template p c (of_list t)) (append-nil v)
    ∙ evaluate_template_plain p c v (HoldsNoStart-find_start v a.1)
    ∙ ap ok (sym (text_append-nil (of_list v)))
evaluate_template-print p c (Part.text v ∷ Part.text w ∷ ps) a = cc (a.2)
evaluate_template-print p c (Part.text v ∷ expression inside ∷ ps) a =
    evaluate_template-print_some p c (Part.text v ∷ expression inside ∷ ps) a (
      rw
        (find_start-none v ((inside ++ close_brace ∷ []) ++ print ps)
          (HoldsNoStart-find_start v a.1))
        refl)
evaluate_template-print p c (expression inside ∷ ps) a =
    evaluate_template-print_some p c (expression inside ∷ ps) a (unfold find_start in refl)

evaluate_part-literal :
    (p : Platform) (c : Context) (q : Quote) (s : String)
    → evaluate_part p c (of_list (characters (literal q s))) ≡ ok (Value.str s)
unfolding evaluate_part map_err and_then evaluate
evaluate_part-literal p c q s = rw (of_list-characters (literal q s)) (rw (parse-literal q s) refl)

evaluate_parts-literal :
    (p : Platform) (c : Context) (before : Text) (q : Quote) (s : String)
    → evaluate_parts p c (push_text before (expression (characters (literal q s)) ∷ []))
      ≡ ok (concat (of_list before) s)
unfolding evaluate_parts push_text and_then to_display_string
evaluate_parts-literal p c [] q s =
    rw (evaluate_part-literal p c q s) (ap ok (text_append-nil s ∙ sym (text_nil-append s)))
evaluate_parts-literal p c (b ∷ before) q s =
    rw (evaluate_part-literal p c q s)
      (ap (λ t. ok (concat (of_list (b ∷ before)) t)) (text_append-nil s))

-- A template that ends with an expression, a quoted text, evaluates to what stands before it and
-- that text, whatever the text holds, braces and quotes included; the quotes in it are doubled,
-- and what stands before holds no `#{`.
pub evaluate_template-literal :
    (p : Platform) (c : Context) (before : Text) (q : Quote) (s : String)
    → find_start before ≡ none
    → evaluate_template p c
        (of_list (before ++ hash ∷ open_brace ∷ (characters (literal q s) ++ close_brace ∷ [])))
      ≡ ok (concat (of_list before) s)
unfolding AreCut starts_with_text print
evaluate_template-literal p c before q s h =
    let inside = characters (literal q s) in
    let ps = push_text before (expression inside ∷ []) in
    let a =
      AreCut-AreParts ps
        (push_text-AreCut before (expression inside ∷ []) h refl (is_balanced-literal q s, tt)) in
    ap (λ t. evaluate_template p c (of_list t)) (sym (print-round before inside [] [] refl))
    ∙ evaluate_template-print p c ps a
    ∙ evaluate_parts-literal p c before q s
