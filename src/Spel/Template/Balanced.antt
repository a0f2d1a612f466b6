-- ===== src/Spel/Template/Balanced.antt =====
-- The texts that `find_closing_brace` takes for an expression, and those that hold no `#{`, described
-- without it.
use shinyproxy_rust.Base.{
  ℕ, zero, suc, ◌-◌, ◌≡◌, refl, sym, ap, subst, ◌≢◌, ◌⊎◌, inl, inr, true, ◌||◌, Option, none, some,
  [], ◌∷◌, ◌++◌, arith, ◌==◌, Bool-cases, Option-cases, is_some,
}
use shinyproxy_rust.Spel.Template.{Text, find_start, after_brace, scan_character, closes}
use shinyproxy_rust.Spel.Template.Scanning.{
  hash, open_brace, close_brace, char-eq, is_balanced, find_start-some,
}
use Prim.Native.Char.{Char, code}

abbrev pub IsQuote : ℕ → Type 0
IsQuote n = (n ≡ b'\'') ⊎ (n ≡ b'"')

abbrev pub IsPlain : ℕ → Type 0
IsPlain n = (n ≢ b'\'') × (n ≢ b'"') × (n ≢ b'{') × (n ≢ b'}')

abbrev pub Lacks : ℕ → Text → Type 0
Lacks q [] = Unit {0}
Lacks q (c ∷ s) = (code c ≢ q) × Lacks q s

-- A text that stands inside `depth` braces and closes them all, and every brace that it opens.
-- Braces between two equal quotes do not count.
pub data Balanced : ℕ → Text → Type 0 where
  ends : Balanced 0 []
  plain :
      {depth : ℕ} {c : Char} {t : Text}
      → IsPlain (code c)
      → Balanced depth t
      → Balanced depth (c ∷ t)
  opens : {depth : ℕ} {t : Text} → Balanced (suc depth) t → Balanced depth (open_brace ∷ t)
  shuts : {depth : ℕ} {t : Text} → Balanced depth t → Balanced (suc depth) (close_brace ∷ t)
  quoted :
      {depth : ℕ} {q : Char} (s t : Text)
      → IsQuote (code q)
      → Lacks (code q) s
      → Balanced depth t
      → Balanced depth (q ∷ s ++ q ∷ t)

is_balanced-quoted :
    (q : Char) (depth : ℕ) (s t : Text)
    → Lacks (code q) s
    → is_balanced (some (code q)) depth (s ++ q ∷ t) ≡ is_balanced none depth t
unfolding is_balanced closes scan_character
is_balanced-quoted q depth [] t l = ground arith
is_balanced-quoted q depth (c ∷ s) t l = ground (arith, is_balanced-quoted q depth s t l.1)

pub Balanced-is_balanced :
    {depth : ℕ} {t : Text} → Balanced depth t → is_balanced none depth t ≡ true
unfolding is_balanced closes scan_character
Balanced-is_balanced ends = refl
Balanced-is_balanced (plain h b) = ground (arith, Balanced-is_balanced b)
Balanced-is_balanced (opens b) = ground (arith, Balanced-is_balanced b)
Balanced-is_balanced (shuts b) = ground (arith, Balanced-is_balanced b)
Balanced-is_balanced (quoted {depth} {q} s t h l b) =
    ground (arith, is_balanced-quoted q depth s t l, Balanced-is_balanced b)

-- What is left of a balanced text inside a quote.
abbrev Rest : Option ℕ → ℕ → Text → Type 0
Rest none depth t = Balanced depth t
Rest (some q) depth t =
    (s : Text) × (c : Char) × (after : Text) × (t ≡ s ++ c ∷ after)
    × (code c ≡ q)
    × Lacks q s
    × Balanced depth after

is_balanced-Rest :
    (quote : Option ℕ) (depth : ℕ) (t : Text)
    → is_balanced quote depth t ≡ true
    → Rest quote depth t
unfolding is_balanced closes scan_character
is_balanced-Rest none zero [] h = ends
is_balanced-Rest none (suc depth) [] h = absurd (ground arith)
is_balanced-Rest (some q) depth [] h = absurd (ground arith)
is_balanced-Rest (some q) depth (c ∷ t) h = elim (Bool-cases (code c == q)) [
  | inl e ↦ ([], c, t, refl, ground arith, tt, is_balanced-Rest none depth t (ground arith))
  | inr e ↦
      let (s, d, after, split, same, lacks, b) = is_balanced-Rest (some q) depth t (ground arith) in
      (c ∷ s, d, after, ap (λ x. c ∷ x) split, same, (ground arith, lacks), b)
]
is_balanced-Rest none depth (c ∷ t) h = elim (Bool-cases (code c == b'\'' || code c == b'"')) [
  | inl e ↦
      let (s, d, after, split, same, lacks, b) =
        is_balanced-Rest (some (code c)) depth t (ground arith) in
      let closing = char-eq d c (ground arith) in
      let split' : t ≡ s ++ c ∷ after = subst (λ x. t ≡ s ++ x ∷ after) closing split in
      subst (λ x. Balanced depth (c ∷ x)) (sym split') (quoted s after (ground arith) lacks b)
  | inr unquoted ↦ elim (Bool-cases (code c == b'{')) [
    | inl e ↦
        rw (char-eq c open_brace e) (opens (is_balanced-Rest none (suc depth) t (ground arith)))
    | inr unopened ↦ elim (Bool-cases (code c == b'}')) [
      | inl e ↦
          let positive : suc (depth - 1) ≡ depth = ground arith in
          let shut = shuts (is_balanced-Rest none (depth - 1) t (ground arith)) in
          rw (char-eq c close_brace e) (subst (λ k. Balanced k (close_brace ∷ t)) positive shut)
      | inr unshut ↦
          plain (ground arith, ground arith, ground arith, ground arith)
            (is_balanced-Rest none depth t (ground arith))
    ]
  ]
]

pub is_balanced-Balanced : (t : Text) → is_balanced none 0 t ≡ true → Balanced 0 t
is_balanced-Balanced t h = is_balanced-Rest none 0 t h

-- No `#{` stands in the text.
abbrev pub HoldsNoStart : Text → Type 0
HoldsNoStart t = (before after : Text) → t ≢ before ++ hash ∷ open_brace ∷ after

find_start-start :
    (before after : Text) → is_some (find_start (before ++ hash ∷ open_brace ∷ after)) ≡ true
unfolding find_start after_brace
find_start-start [] after = refl
find_start-start (c ∷ before) after = ground (arith, find_start-start before after)

pub find_start-HoldsNoStart : (t : Text) → find_start t ≡ none → HoldsNoStart t
find_start-HoldsNoStart t h before after e =
    let found = rw (sym e, h) at (find_start-start before after) in cc

pub HoldsNoStart-find_start : (t : Text) → HoldsNoStart t → find_start t ≡ none
HoldsNoStart-find_start t h = elim (Option-cases (find_start t)) [
  | inl e ↦ e
  | inr ((before, after), e) ↦ absurd (h before after (find_start-some t before after e).0)
]
