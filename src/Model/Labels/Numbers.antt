-- ===== src/Model/Labels/Numbers.antt =====
-- crates/containerproxy/src/model/runtime_value.rs: the decimal print of an integer reads back.
use shinyproxy_rust.Base.{
  is_empty, concat, ℕ, zero, suc, ◌+◌, ◌*◌, ◌/◌, ◌%◌, ◌^◌, ◌≤◌, ◌<◌, String, ◌≡◌, refl, sym, ap,
  ◌∙◌, inl, inr, Bool, true, false, not, ◌&&◌, some, [], ◌∷◌, ◌++◌, arith, ltb, ltb→lt, Bool-cases,
}
use shinyproxy_rust.Base.Int.{InI64, ℤ, pos, negsuc, ◌-ℤ◌}
use shinyproxy_rust.Spel.Conversions.{
  parse_unsigned, parse_int, trim, is_white_space, trim_start, trim_end,
}
use shinyproxy_rust.Model.RuntimeValues.{print_int, digit, digits_of}
use shinyproxy_rust.Spel.Lexer.{Characters, characters, is_ascii_digit, parse_digits}
use shinyproxy_rust.Spel.Lexer.Literals.{of_list-characters, characters-of_list}
use text.Mathlib.TextBridge.{of_list-++}
use Prim.Native.Char.{Char, code}

pub characters-concat : (s t : String) → characters (concat s t) ≡ characters s ++ characters t
characters-concat s t =
    let joined =
      rw (of_list-characters s, of_list-characters t) at
        (of_list-++ (characters s) (characters t)) in
    ap characters (sym joined) ∙ characters-of_list (characters s ++ characters t)

-- One character for each digit.
digit-character :
    (d : ℕ) → d < 10 → (c : Char) × (characters (digit d) ≡ c ∷ []) × (code c ≡ b'0' + d)
unfolding digit characters
digit-character zero h = (_, refl, refl)
digit-character (suc zero) h = (_, refl, refl)
digit-character (suc (suc zero)) h = (_, refl, refl)
digit-character (suc (suc (suc zero))) h = (_, refl, refl)
digit-character (suc (suc (suc (suc zero)))) h = (_, refl, refl)
digit-character (suc (suc (suc (suc (suc zero))))) h = (_, refl, refl)
digit-character (suc (suc (suc (suc (suc (suc zero)))))) h = (_, refl, refl)
digit-character (suc (suc (suc (suc (suc (suc (suc zero))))))) h = (_, refl, refl)
digit-character (suc (suc (suc (suc (suc (suc (suc (suc zero)))))))) h = (_, refl, refl)
digit-character (suc (suc (suc (suc (suc (suc (suc (suc (suc zero))))))))) h = (_, refl, refl)
digit-character (suc (suc (suc (suc (suc (suc (suc (suc (suc (suc n)))))))))) h =
    absurd (omega arith)

-- 10 ^ fuel
abbrev bound : ℕ → ℕ
bound zero = 1
bound (suc fuel) = bound fuel * 10

module _ (v : ℕ) where
  -- The value of the digits read so far.
  parse_digits-digit :
      (d : ℕ) (rest : String)
      → d < 10
      → parse_digits v (characters (concat (digit d) rest))
        ≡ parse_digits (v * 10 + d) (characters rest)
  unfolding parse_digits is_ascii_digit
  parse_digits-digit d rest h =
      let (c, e, e') = digit-character d h in
      let joined = characters-concat (digit d) rest in rw (joined, e) (ground (arith, e'))

parse_digits-digits_of :
    (fuel n : ℕ) (rest : String)
    → n < bound fuel
    → parse_digits 0 (characters (digits_of fuel n rest)) ≡ parse_digits n (characters rest)
unfolding digits_of
parse_digits-digits_of zero n rest h = let nothing : n ≡ 0 = omega arith in rw nothing refl
parse_digits-digits_of (suc fuel) n rest h = elim (Bool-cases (ltb n 10)) [
  | inl e ↦
      let first : 0 * 10 + n ≡ n = omega arith in
      rw e (
        parse_digits-digit 0 n rest (ltb→lt n 10 e)
        ∙ ap (λ m. parse_digits m (characters rest)) first)
  | inr e ↦
      let later =
        parse_digits-digits_of fuel (n / 10) (concat (digit (n % 10)) rest) (omega arith) in
      let whole : n / 10 * 10 + n % 10 ≡ n = omega arith in
      rw e (
        later
        ∙ parse_digits-digit (n / 10) (n % 10) rest (omega arith)
        ∙ ap (λ m. parse_digits m (characters rest)) whole)
]

-- Digits only.
abbrev all_digits : Characters → Bool
all_digits [] = true
all_digits (c ∷ cs) = is_ascii_digit (code c) && all_digits cs

-- No white space.
abbrev all_dark : Characters → Bool
all_dark [] = true
all_dark (c ∷ cs) = not (is_white_space (code c)) && all_dark cs

digit-dark : (n : ℕ) → is_ascii_digit n ≡ true → is_white_space n ≡ false
unfolding is_ascii_digit is_white_space
digit-dark n h = ground arith

digits-dark : (cs : Characters) → all_digits cs ≡ true → all_dark cs ≡ true
digits-dark [] h = refl
digits-dark (c ∷ cs) h = ground (arith, digit-dark (code c), digits-dark cs)

trim_start_dark : (cs : Characters) → all_dark cs ≡ true → trim_start cs ≡ cs
unfolding trim_start
trim_start_dark [] h = refl
trim_start_dark (c ∷ cs) h = ground arith

trim_end_dark : (cs : Characters) → all_dark cs ≡ true → trim_end cs ≡ cs
unfolding trim_end
trim_end_dark [] h = refl
trim_end_dark (c ∷ []) h = ground arith
trim_end_dark (c ∷ d ∷ cs) h =
    let rest = trim_end_dark (d ∷ cs) (ground arith) in rw (trim_end, rest) refl

pub trim_dark : (s : String) → all_dark (characters s) ≡ true → trim s ≡ s
unfolding trim
trim_dark s h =
    rw (trim_start_dark (characters s) h, trim_end_dark (characters s) h) (of_list-characters s)

all_digits-digit :
    (d : ℕ) (rest : String)
    → d < 10
    → all_digits (characters rest) ≡ true
    → (all_digits (characters (concat (digit d) rest)) ≡ true)
      × (is_empty (characters (concat (digit d) rest)) ≡ false)
unfolding is_ascii_digit
all_digits-digit d rest h all =
    let (c, e, e') = digit-character d h in
    rw (characters-concat (digit d) rest, e) (ground (arith, e'), refl)

all_digits-digits_of :
    (fuel n : ℕ) (rest : String)
    → all_digits (characters rest) ≡ true
    → is_empty (characters rest) ≡ false
    → (all_digits (characters (digits_of fuel n rest)) ≡ true)
      × (is_empty (characters (digits_of fuel n rest)) ≡ false)
unfolding digits_of
all_digits-digits_of zero n rest all some_ = (all, some_)
all_digits-digits_of (suc fuel) n rest all some_ =
    let here = λ (h : n < 10). all_digits-digit n rest h all in
    let last = all_digits-digit (n % 10) rest (omega arith) all in
    let later = all_digits-digits_of fuel (n / 10) (concat (digit (n % 10)) rest) last.0 last.1 in
    elim (Bool-cases (ltb n 10)) [ inl e ↦ rw e (here (ltb→lt n 10 e)) | inr e ↦ rw e later ]

-- The digits of a number, which are at most twenty.
print-digits :
    (n : ℕ)
    → (all_digits (characters (digits_of 20 n "")) ≡ true)
      × (is_empty (characters (digits_of 20 n "")) ≡ false)
unfolding digits_of characters
print-digits n =
    let last = all_digits-digit (n % 10) "" (omega arith) refl in
    elim (Bool-cases (ltb n 10)) [
      | inl e ↦ rw e (all_digits-digit n "" (ltb→lt n 10 e) refl)
      | inr e ↦ rw e (all_digits-digits_of 19 (n / 10) (concat (digit (n % 10)) "") last.0 last.1)
    ]

parse_unsigned-print :
    (n : ℕ) → n ≤ 2 ^ 63 → parse_unsigned (characters (digits_of 20 n "")) ≡ some n
unfolding parse_unsigned characters
parse_unsigned-print n h =
    nonempty (characters (digits_of 20 n "")) (print-digits n).1
    ∙ parse_digits-digits_of 20 n "" (omega arith)
  where
    nonempty : (cs : Characters) → is_empty cs ≡ false → parse_unsigned cs ≡ parse_digits 0 cs
    nonempty [] e = cc
    nonempty (c ∷ cs) e = refl

parse_int-positive :
    (cs : Characters) (n : ℕ)
    → all_digits cs ≡ true
    → parse_unsigned cs ≡ some n
    → n < 2 ^ 63
    → parse_int cs ≡ some (pos n)
unfolding parse_int is_ascii_digit
parse_int-positive [] n all e h = unfold parse_unsigned in absurd cc
parse_int-positive (c ∷ cs) n all e h = ground arith

parse_int-negative :
    (cs : Characters) (c : Char) (n : ℕ)
    → code c ≡ b'-'
    → parse_unsigned cs ≡ some (suc n)
    → suc n ≤ 2 ^ 63
    → parse_int (c ∷ cs) ≡ some (negsuc n)
unfolding parse_int ◌-ℤ◌
parse_int-negative cs c n minus e h = ground arith

pub parse_int-print_int : (z : ℤ) → InI64 z → parse_int (characters (trim (print_int z))) ≡ some z
unfolding print_int characters is_white_space
parse_int-print_int (pos n) (low, high) =
    let all = (print-digits n).0 in
    ap (λ s. parse_int (characters s)) (trim_dark (print_int (pos n)) (digits-dark _ all))
    ∙ parse_int-positive _ n all (parse_unsigned-print n (omega arith)) low
parse_int-print_int (negsuc n) (low, high) =
    let digits = digits_of 20 (suc n) "" in
    let dark = digits-dark (characters digits) (print-digits (suc n)).0 in
    let joined = characters-concat "-" digits in
    let dark' : all_dark (characters (print_int (negsuc n))) ≡ true = rw joined dark in
    ap (λ s. parse_int (characters s)) (trim_dark (print_int (negsuc n)) dark')
    ∙ ap parse_int joined
    ∙ parse_int-negative (characters digits) _ n refl (parse_unsigned-print (suc n) high) high
