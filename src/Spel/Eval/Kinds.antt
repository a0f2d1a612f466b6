-- ===== src/Spel/Eval/Kinds.antt =====
-- The kinds of value that expressions have whatever the context holds.
use shinyproxy_rust.Base.{
  if_ind, ℕ, suc, ◌≡◌, refl, sym, subst, inl, inr, Bool, true, false, not, ◌||◌, Option, none, some,
  arith, ltb, if◌then◌else◌, Bool-cases,
}
use shinyproxy_rust.Base.Result.{Result, ok, err, and_then}
use shinyproxy_rust.Spel.Ast.{Node, UnaryOperator, BinaryOperator}
use shinyproxy_rust.Spel.Values.{
  no_fields, Value, Platform, EvalError, str, is_null, to_display_string,
}
use shinyproxy_rust.Spel.Conversions.{as_bool, as_list}
use shinyproxy_rust.Spel.Operators.{
  is_str, apply_binary, apply_unary, matches_values, add_values, compare_values,
}
use shinyproxy_rust.Spel.Eval.{
  max_depth, Context, Evaluated, limited, project, select, binary, choose, short_circuit, evaluate,
  evaluate_all, evaluate_entries,
}

pub data Kind : Type 0 where
  boolean integer number text sequence table : Kind

unfoldable pub has_kind : Kind → Value → Bool
has_kind boolean (Value.bool _) = true
has_kind integer (Value.int _) = true
has_kind number (Value.float _) = true
has_kind text (Value.str _) = true
has_kind sequence (Value.list _) = true
has_kind table (Value.map_ _) = true
has_kind _ _ = false

same_kind : Kind → Kind → Bool
same_kind boolean boolean = true
same_kind integer integer = true
same_kind number number = true
same_kind text text = true
same_kind sequence sequence = true
same_kind table table = true
same_kind _ _ = false

-- The kind that both branches have.
join_kinds : Option Kind → Option Kind → Option Kind
unfolding same_kind
join_kinds (some k) (some l) = if same_kind k l then some k else none
join_kinds _ _ = none

is_text : Option Kind → Bool
is_text (some text) = true
is_text _ = false

binary_kind : BinaryOperator → Option Kind → Option Kind → Option Kind
unfolding is_text
binary_kind BinaryOperator.add left right =
    if is_text left || is_text right then some text else none
binary_kind BinaryOperator.subtract left right = none
binary_kind BinaryOperator.multiply left right = none
binary_kind BinaryOperator.divide left right = none
binary_kind BinaryOperator.modulo left right = none
binary_kind _ left right = some boolean

unfoldable pub kind_of : Node → Option Kind
unfolding join_kinds binary_kind
kind_of (Node.bool _) = some boolean
kind_of (Node.int _) = some integer
kind_of (Node.float _) = some number
kind_of (Node.str _) = some text
kind_of (Node.type_ _) = some text
kind_of (Node.projection _ _) = some sequence
kind_of (Node.selection _ _) = some sequence
kind_of (Node.list_literal _) = some sequence
kind_of (Node.map_literal _) = some table
kind_of (Node.unary UnaryOperator.not_ _) = some boolean
kind_of (Node.unary UnaryOperator.negate _) = none
kind_of (Node.binary operator left right) = binary_kind operator (kind_of left) (kind_of right)
kind_of (Node.ternary condition then_ otherwise) = join_kinds (kind_of then_) (kind_of otherwise)
kind_of (Node.elvis value fallback) = join_kinds (kind_of value) (kind_of fallback)
kind_of _ = none

-- A result that has the kind, if it is a value.
abbrev Has : Option Kind → Evaluated → Type 0
Has none r = Unit {0}
Has (some k) (err e) = Unit {0}
Has (some k) (ok v) = has_kind k v ≡ true

limited-Has : (d : ℕ) (o : Option Kind) (r : Evaluated) → Has o r → Has o (limited d r)
limited-Has d none r h = tt
limited-Has d (some k) r h = if_ind (Has (some k)) (ltb max_depth d) (λ _. tt) (λ _. h)

and_then-Has :
    {A : Type 0} (o : Option Kind) (m : Result A EvalError) (f : A → Evaluated)
    → ((a : A) → m ≡ ok a → Has o (f a))
    → Has o (and_then m f)
unfolding and_then
and_then-Has none m f h = tt
and_then-Has (some k) (ok a) f h = h a refl
and_then-Has (some k) (err e) f h = tt

short_circuit-Has :
    (decides : Bool) (left right : Evaluated)
    → Has (some boolean) (short_circuit decides left right)
unfolding short_circuit has_kind
short_circuit-Has decides left right = and_then-Has (some boolean) left _ (λ v _.
    and_then-Has (some boolean) (as_bool v) _
      (λ b _. decided (if decides then b else not b) right decides))
  where
    decided :
        (t : Bool) (right : Evaluated) (decides : Bool)
        → Has (some boolean) (elim t [
          | true ↦ ok (Value.bool decides)
          | false ↦ and_then right (λ w. and_then (as_bool w) (λ r. ok (Value.bool r)))
        ])
    decided true right decides = refl
    decided false right decides =
        and_then-Has (some boolean) right _
          (λ w _. and_then-Has (some boolean) (as_bool w) _ (λ r _. refl))

choose-Has :
    (k : Kind) (condition then_ otherwise : Evaluated)
    → Has (some k) then_
    → Has (some k) otherwise
    → Has (some k) (choose condition then_ otherwise)
unfolding choose
choose-Has k condition then_ otherwise h g =
    and_then-Has (some k) condition _
      (λ v _. and_then-Has (some k) (as_bool v) _ (elim [ true ↦ λ _. h | false ↦ λ _. g ]))

same_kind-eq : (k l : Kind) → same_kind k l ≡ true → k ≡ l
unfolding same_kind
same_kind-eq boolean boolean h = refl
same_kind-eq integer integer h = refl
same_kind-eq number number h = refl
same_kind-eq text text h = refl
same_kind-eq sequence sequence h = refl
same_kind-eq table table h = refl
same_kind-eq _ _ h = cc

-- What holds of both branches holds of the choice, at the kind that they share.
join_kinds-Has :
    (k l : Option Kind) (r s t : Evaluated)
    → ((m : Kind) → Has (some m) r → Has (some m) s → Has (some m) t)
    → Has k r
    → Has l s
    → Has (join_kinds k l) t
unfolding join_kinds
join_kinds-Has none none r s t f g h = tt
join_kinds-Has none (some l) r s t f g h = tt
join_kinds-Has (some k) none r s t f g h = tt
join_kinds-Has (some k) (some l) r s t f g h = elim (Bool-cases (same_kind k l)) [
  | inl e ↦ rw e (f k g (subst (λ m. Has (some m) s) (sym (same_kind-eq k l e)) h))
  | inr e ↦ rw e tt
]

text_value : (k : Option Kind) (v : Value) → Has k (ok v) → is_text k ≡ true → is_str v ≡ true
unfolding is_text has_kind
text_value none v h e = cc
text_value (some text) (str s) h e = refl
text_value (some text) _ h e = cc
text_value (some _) _ h e = cc

module _ (p : Platform) where
  add_values-Has :
      (k l : Option Kind) (v w : Value)
      → Has k (ok v)
      → Has l (ok w)
      → Has (binary_kind BinaryOperator.add k l) (add_values p v w)
  unfolding binary_kind add_values is_text has_kind
  add_values-Has k l v w h g = elim (Bool-cases (is_text k || is_text l)) [
    | inr e ↦ rw e tt
    | inl e ↦
        rw e
          (if_ind (Has (some text)) (is_str v || is_str w) (λ _. refl) (λ f. absurd (no_text e f)))
  ]
    where
      no_text : (is_text k || is_text l) ≡ true → (is_str v || is_str w) ≡ false → ⊥
      no_text e f = ground (arith, text_value k v h, text_value l w g)

  two_values :
      (o : Option Kind) (k l : Option Kind) (left right : Evaluated) (f : Value → Value → Evaluated)
      → Has k left
      → Has l right
      → ((v w : Value) → Has k (ok v) → Has l (ok w) → Has o (f v w))
      → Has o (and_then left (λ v. and_then right (λ w. f v w)))
  two_values o k l left right f h g step = and_then-Has o left _ (λ v e.
      and_then-Has o right _
        (λ w q. step v w (subst (λ r. Has k r) e h) (subst (λ r. Has l r) q g)))

  matches_values-Has : (v w : Value) → Has (some boolean) (matches_values p v w)
  unfolding matches_values has_kind
  matches_values-Has v w =
      if_ind (Has (some boolean)) (p.regex_is_valid (to_display_string p w)) (λ _. refl) (λ _. tt)

  binary-Has :
      (operator : BinaryOperator) (k l : Option Kind) (left right : Evaluated)
      → Has k left
      → Has l right
      → Has (binary_kind operator k l) (binary p operator left right)
  unfolding binary_kind binary apply_binary has_kind
  binary-Has BinaryOperator.equal k l left right h g =
      two_values (some boolean) k l left right _ h g (λ v w _ _. refl)
  binary-Has BinaryOperator.not_equal k l left right h g =
      two_values (some boolean) k l left right _ h g (λ v w _ _. refl)
  binary-Has BinaryOperator.matches k l left right h g =
      two_values (some boolean) k l left right _ h g (λ v w _ _. matches_values-Has v w)
  binary-Has BinaryOperator.less k l left right h g =
      two_values (some boolean) k l left right _ h g
        (λ v w _ _. and_then-Has (some boolean) (compare_values p v w) _ (λ _ _. refl))
  binary-Has BinaryOperator.less_or_equal k l left right h g =
      two_values (some boolean) k l left right _ h g
        (λ v w _ _. and_then-Has (some boolean) (compare_values p v w) _ (λ _ _. refl))
  binary-Has BinaryOperator.greater k l left right h g =
      two_values (some boolean) k l left right _ h g
        (λ v w _ _. and_then-Has (some boolean) (compare_values p v w) _ (λ _ _. refl))
  binary-Has BinaryOperator.greater_or_equal k l left right h g =
      two_values (some boolean) k l left right _ h g
        (λ v w _ _. and_then-Has (some boolean) (compare_values p v w) _ (λ _ _. refl))
  binary-Has BinaryOperator.and_ k l left right h g = short_circuit-Has false left right
  binary-Has BinaryOperator.or_ k l left right h g = short_circuit-Has true left right
  binary-Has BinaryOperator.add k l left right h g =
      two_values (binary_kind BinaryOperator.add k l) k l left right _ h g
        (λ v w i j. add_values-Has k l v w i j)
  binary-Has BinaryOperator.subtract k l left right h g = tt
  binary-Has BinaryOperator.multiply k l left right h g = tt
  binary-Has BinaryOperator.divide k l left right h g = tt
  binary-Has BinaryOperator.modulo k l left right h g = tt

module _ (p : Platform) (c : Context) where
  evaluate-Has : (this : Option Value) (d : ℕ) (n : Node) → Has (kind_of n) (evaluate p c this d n)
  unfolding evaluate kind_of has_kind apply_unary
  evaluate-Has this d (Node.bool b) = limited-Has d (some boolean) _ refl
  evaluate-Has this d (Node.int b) = limited-Has d (some integer) _ refl
  evaluate-Has this d (Node.float b) = limited-Has d (some number) _ refl
  evaluate-Has this d (Node.str b) = limited-Has d (some text) _ refl
  evaluate-Has this d (Node.type_ b) = limited-Has d (some text) _ refl
  evaluate-Has this d (Node.projection target body) = limited-Has d (some sequence) _ (
      and_then-Has (some sequence) (evaluate p c this (suc d) target) _
        (λ v _. and_then-Has (some sequence) (project _ (as_list v)) _ (λ _ _. refl)))
  evaluate-Has this d (Node.selection target body) = limited-Has d (some sequence) _ (
      and_then-Has (some sequence) (evaluate p c this (suc d) target) _
        (λ v _. and_then-Has (some sequence) (select p _ (as_list v)) _ (λ _ _. refl)))
  evaluate-Has this d (Node.list_literal items) =
      limited-Has d (some sequence) _
        (and_then-Has (some sequence) (evaluate_all p c this (suc d) items) _ (λ _ _. refl))
  evaluate-Has this d (Node.map_literal entries) = limited-Has d (some table) _ (
      and_then-Has (some table) (evaluate_entries p c this (suc d) entries no_fields) _
        (λ _ _. refl))
  evaluate-Has this d (Node.unary UnaryOperator.not_ operand) = limited-Has d (some boolean) _ (
      and_then-Has (some boolean) (evaluate p c this (suc d) operand) _
        (λ v _. and_then-Has (some boolean) (as_bool v) _ (λ _ _. refl)))
  evaluate-Has this d (Node.unary UnaryOperator.negate operand) = tt
  evaluate-Has this d (Node.binary operator left right) =
      limited-Has d (kind_of (Node.binary operator left right)) _ (
        binary-Has p operator (kind_of left) (kind_of right) _ _ (evaluate-Has this (suc d) left)
          (evaluate-Has this (suc d) right))
  evaluate-Has this d (Node.ternary condition then_ otherwise) =
      limited-Has d (kind_of (Node.ternary condition then_ otherwise)) _ (
        join_kinds-Has (kind_of then_) (kind_of otherwise) _ _ _
          (λ k h g. choose-Has k (evaluate p c this (suc d) condition) _ _ h g)
          (evaluate-Has this (suc d) then_) (evaluate-Has this (suc d) otherwise))
  evaluate-Has this d (Node.elvis value fallback) =
      limited-Has d (kind_of (Node.elvis value fallback)) _ (
        join_kinds-Has (kind_of value) (kind_of fallback) _ _ _
          (λ k h g. and_then-Has (some k) (evaluate p c this (suc d) value) _ (λ v e.
            if_ind (Has (some k)) (is_null v) (λ _. g) (λ _. subst (λ r. Has (some k) r) e h)))
          (evaluate-Has this (suc d) value) (evaluate-Has this (suc d) fallback))
  evaluate-Has this d _ = tt

-- An expression whose form fixes the kind of its value (a literal, a comparison, `and`, `or`, `!`,
-- a sum with a text, a list, a map, a projection or selection, or a choice between two of one
-- kind) has a value of that kind whenever it has one.
pub evaluate-has_kind :
    (p : Platform) (c : Context) (this : Option Value) (d : ℕ) (n : Node) (k : Kind) (v : Value)
    → kind_of n ≡ some k
    → evaluate p c this d n ≡ ok v
    → has_kind k v ≡ true
evaluate-has_kind p c this d n k v h e =
    let g : Has (kind_of n) (ok v) = subst (λ r. Has (kind_of n) r) e (evaluate-Has p c this d n) in
    subst (λ o. Has o (ok v)) h g
