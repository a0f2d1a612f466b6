-- ===== src/Base/Lists.antt =====
-- Lists measured by native numbers, and lists of texts used as queues and sets.
use Prim.Native.Nat.{ℕ, zero, suc, ◌+◌, ◌≤◌}
use Prim.Native.String.{String}
use text.Mathlib.Text.{◌==◌ as str_eq}
use text.Mathlib.TextEquality.{eq_iff as str_eq_iff}
use mathlib.Core.Logic.{◌⊎◌, inl, inr}
use mathlib.Core.Path.{◌≡◌, refl}
use mathlib.Core.Bool.{Bool, true, false, ◌||◌}
use mathlib.Core.Option.{Option, none, some}
use mathlib.Core.List.{List, [], ◌∷◌, ◌++◌}
use native.Mathlib.Omega.{arith}
use shinyproxy_rust.Base.Tests.{if◌then◌else◌}

pub List-cases {ℓ} :
    {A : Type ℓ} (xs : List A) → (xs ≡ []) ⊎ ((y : A) × (ys : List A) × (xs ≡ y ∷ ys))
List-cases [] = inl refl
List-cases (y ∷ ys) = inr (y, ys, refl)

module _ {ℓ} {A : Type ℓ} where
  abbrev pub length : List A → ℕ
  length [] = 0
  length (x ∷ xs) = suc (length xs)

  abbrev pub is_empty : List A → Bool
  is_empty [] = true
  is_empty (x ∷ xs) = false

  -- `get(index)`
  unfoldable pub get_elem? : List A → ℕ → Option A
  get_elem? [] n = none
  get_elem? (x ∷ xs) zero = some x
  get_elem? (x ∷ xs) (suc n) = get_elem? xs n

  pub get_elem?-append :
      (xs ys : List A) (n : ℕ) {a : A} → get_elem? xs n ≡ some a → get_elem? (xs ++ ys) n ≡ some a
  unfolding get_elem?
  get_elem?-append [] ys n h = cc
  get_elem?-append (x ∷ xs) ys zero h = h
  get_elem?-append (x ∷ xs) ys (suc n) h = get_elem?-append xs ys n h

  pub get_elem?-snoc : (xs : List A) (x : A) → get_elem? (xs ++ x ∷ []) (length xs) ≡ some x
  unfolding get_elem?
  get_elem?-snoc [] x = refl
  get_elem?-snoc (y ∷ xs) x = get_elem?-snoc xs x

  pub length-append : (xs ys : List A) → length (xs ++ ys) ≡ length xs + length ys
  length-append [] ys = omega arith
  length-append (x ∷ xs) ys = omega (arith, length-append xs ys)

  -- `filter` (and `retain`) by a Boolean test.
  unfoldable pub keep_if : (A → Bool) → List A → List A
  keep_if p [] = []
  keep_if p (x ∷ xs) = if p x then x ∷ keep_if p xs else keep_if p xs

  pub length-keep_if-le : (p : A → Bool) (xs : List A) → length (keep_if p xs) ≤ length xs
  unfolding keep_if
  length-keep_if-le p [] = omega arith
  length-keep_if-le p (x ∷ xs) = ground (arith, length-keep_if-le p xs)

-- `iter().any(|id| id == wanted)`
unfoldable pub contains : List String → String → Bool
contains [] a = false
contains (x ∷ xs) a = str_eq x a || contains xs a

-- `retain(|id| id != unwanted)`
unfoldable pub without : String → List String → List String
without a [] = []
without a (x ∷ xs) = if str_eq x a then without a xs else x ∷ without a xs

-- No text stands twice in the list.
abbrev pub AllDistinct : List String → Type 0
AllDistinct [] = Unit {0}
AllDistinct (x ∷ xs) = (contains xs x ≡ false) × AllDistinct xs

pub contains-append :
    (xs ys : List String) (a : String) → contains (xs ++ ys) a ≡ (contains xs a || contains ys a)
unfolding contains
contains-append [] ys a = refl
contains-append (x ∷ xs) ys a = ground (arith, contains-append xs ys a)

-- An entry appended at the end.
pub contains-snoc :
    (xs : List String) (b a : String) → contains (xs ++ b ∷ []) a ≡ (str_eq b a || contains xs a)
unfolding contains
contains-snoc [] b a = refl
contains-snoc (x ∷ xs) b a = ground (arith, contains-snoc xs b a)

pub contains-without :
    (b : String) (xs : List String) (a : String)
    → contains (without b xs) a ≡ (if str_eq b a then false else contains xs a)
unfolding contains without
contains-without b [] a = ground arith
contains-without b (x ∷ xs) a =
    ground (arith, contains-without b xs a, str_eq_iff x b, str_eq_iff x a, str_eq_iff b a)

pub snoc-AllDistinct :
    (xs : List String) (b : String)
    → contains xs b ≡ false
    → AllDistinct xs
    → AllDistinct (xs ++ b ∷ [])
unfolding contains
snoc-AllDistinct [] b h d = (refl, tt)
snoc-AllDistinct (x ∷ xs) b h d =
    ground (arith, snoc-AllDistinct xs b, contains-snoc xs b x, str_eq_iff x b, str_eq_iff b x)

pub without-AllDistinct :
    (b : String) (xs : List String) → AllDistinct xs → AllDistinct (without b xs)
unfolding without
without-AllDistinct b [] d = tt
without-AllDistinct b (x ∷ xs) d = ground (arith, without-AllDistinct b xs, contains-without b xs x)

pub length-without-le : (b : String) (xs : List String) → length (without b xs) ≤ length xs
unfolding without
length-without-le b [] = omega arith
length-without-le b (x ∷ xs) = ground (arith, length-without-le b xs)

-- A text that is not in the list is not taken out of it.
pub without_absent : (b : String) (xs : List String) → contains xs b ≡ false → without b xs ≡ xs
unfolding contains without
without_absent b [] h = refl
without_absent b (x ∷ xs) h = ground (arith, without_absent b xs)

-- Taking out one of several distinct texts shortens the list by one.
pub length-without_member :
    (b : String) (xs : List String)
    → AllDistinct xs
    → contains xs b ≡ true
    → length xs ≡ suc (length (without b xs))
unfolding contains without
length-without_member b [] d h = cc
length-without_member b (x ∷ xs) d h =
    ground (arith, length-without_member b xs, str_eq_iff x b, without_absent b xs)

-- Taking a text out of a list of distinct texts shortens it by one at most.
pub length-le-without :
    (b : String) (xs : List String) → AllDistinct xs → length xs ≤ suc (length (without b xs))
unfolding without
length-le-without b [] d = omega arith
length-le-without b (x ∷ xs) d =
    ground (arith, length-le-without b xs, str_eq_iff x b, without_absent b xs)
