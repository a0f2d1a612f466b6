-- ===== src/Spel/Eval/Confined.antt =====
-- What an expression may read of the server: its environment only through `T(...)`.
use shinyproxy_rust.Base.{ℕ, suc, ◌+◌, String, ◌≡◌, refl, Option, none, some, arith, if◌then◌else◌}
use shinyproxy_rust.Base.Dict.{Dict}
use shinyproxy_rust.Base.Result.{ok, and_then}
use shinyproxy_rust.Spel.Ast.{Node, Nodes, Entries, no_nodes, node_then, no_entries, entry_then}
use shinyproxy_rust.Spel.Values.{
  Value, Fields, Platform, list, map_, value_then, no_fields, null_property, null_call, is_null,
}
use shinyproxy_rust.Spel.Conversions.{as_list}
use shinyproxy_rust.Spel.Collections.{insert_field}
use shinyproxy_rust.Spel.Helpers.{call_type, call_helper}
use shinyproxy_rust.Spel.Operators.{apply_unary, property_of, index_of_value, call_method}
use shinyproxy_rust.Spel.Eval.{
  variable_of, Context, Evaluated, limited, unless_null, type_of_target, project, select, binary,
  choose, evaluate, evaluate_all, evaluate_entries,
}

type_count : Node → ℕ
type_count (Node.type_ name) = 1
type_count _ = 0

-- The static methods that an expression calls.
unfoldable mutual
  unfolding type_count

  pub type_calls : Node → ℕ
  type_calls (Node.property target name safe) = type_calls target
  type_calls (Node.index target position) = type_calls target + type_calls position
  type_calls (Node.call target name arguments safe) =
      type_count target + type_calls target + type_calls_all arguments
  type_calls (Node.call_root name arguments) = type_calls_all arguments
  type_calls (Node.projection target body) = type_calls target + type_calls body
  type_calls (Node.selection target body) = type_calls target + type_calls body
  type_calls (Node.unary operator operand) = type_calls operand
  type_calls (Node.binary operator left right) = type_calls left + type_calls right
  type_calls (Node.ternary condition then_ otherwise) =
      type_calls condition + type_calls then_ + type_calls otherwise
  type_calls (Node.elvis value fallback) = type_calls value + type_calls fallback
  type_calls (Node.list_literal items) = type_calls_all items
  type_calls (Node.map_literal entries) = type_calls_entries entries
  type_calls _ = 0

  pub type_calls_all : Nodes → ℕ
  type_calls_all no_nodes = 0
  type_calls_all (node_then n ns) = type_calls n + type_calls_all ns

  pub type_calls_entries : Entries → ℕ
  type_calls_entries no_entries = 0
  type_calls_entries (entry_then key n ns) = type_calls n + type_calls_entries ns

not_type : (n : Node) → type_count n ≡ 0 → type_of_target n ≡ none
unfolding type_count
not_type (Node.type_ name) h = absurd (omega arith)
not_type (Node.null) h = refl
not_type _ h = refl

target_path :
    (o : Option String) (f g : String → Evaluated) {r s : Evaluated}
    → o ≡ none
    → r ≡ s
    → ◌≡◌ {A = Evaluated} (elim o [ some t ↦ f t | none ↦ r ]) (elim o [ some t ↦ g t | none ↦ s ])
target_path none f g h q = q
target_path (some t) f g h q = cc

module _ (p : Platform) (c : Context) (environment : Dict String) where
  mutual
    unfolding evaluate type_calls variable_of

    evaluate_lem :
        (this : Option Value) (d : ℕ) (n : Node)
        → type_calls n ≡ 0
        → evaluate p c this d n ≡ evaluate p (record c { environment = environment }) this d n
    evaluate_lem this d Node.null h = refl
    evaluate_lem this d (Node.bool b) h = refl
    evaluate_lem this d (Node.int z) h = refl
    evaluate_lem this d (Node.float t) h = refl
    evaluate_lem this d (Node.str s) h = refl
    evaluate_lem this d (Node.root n) h = refl
    evaluate_lem this d (Node.variable n) h = refl
    evaluate_lem this d (Node.bean n) h = refl
    evaluate_lem this d (Node.type_ n) h = refl
    evaluate_lem this d (Node.property target name safe) h =
        let q = evaluate_lem this (suc d) target (omega arith) in
        λ i.
          limited d
            (and_then (q i) (λ v. unless_null safe (null_property name) v (property_of p v name)))
    evaluate_lem this d (Node.index target position) h =
        let q = evaluate_lem this (suc d) target (omega arith) in
        let r = evaluate_lem this (suc d) position (omega arith) in
        λ i. limited d (and_then (q i) (λ v. and_then (r i) (λ w. index_of_value p v w)))
    evaluate_lem this d (Node.call_root name arguments) h =
        let q = evaluate_all_lem this (suc d) arguments (omega arith) in
        λ i. limited d (and_then (q i) (λ vs. call_helper p name vs))
    evaluate_lem this d (Node.call target name arguments safe) h =
        let q = evaluate_all_lem this (suc d) arguments (omega arith) in
        let r = evaluate_lem this (suc d) target (omega arith) in
        λ i. limited d (
          and_then (q i) (λ vs.
            target_path (type_of_target target) (λ t. call_type p c.environment t name vs)
              (λ t. call_type p environment t name vs) (not_type target (omega arith))
              (λ j.
                and_then (r j) (λ v. unless_null safe (null_call name) v (call_method p v name vs)))
              i))
    evaluate_lem this d (Node.projection target body) h =
        let q = evaluate_lem this (suc d) target (omega arith) in
        let r = λ (item : Value). evaluate_lem (some item) (suc d) body (omega arith) in
        λ i. limited d (
          and_then (q i)
            (λ v. and_then (project (λ item. r item i) (as_list v)) (λ vs. ok (list vs))))
    evaluate_lem this d (Node.selection target body) h =
        let q = evaluate_lem this (suc d) target (omega arith) in
        let r = λ (item : Value). evaluate_lem (some item) (suc d) body (omega arith) in
        λ i. limited d (
          and_then (q i)
            (λ v. and_then (select p (λ item. r item i) (as_list v)) (λ vs. ok (list vs))))
    evaluate_lem this d (Node.unary operator operand) h =
        let q = evaluate_lem this (suc d) operand (omega arith) in
        λ i. limited d (and_then (q i) (λ v. apply_unary p operator v))
    evaluate_lem this d (Node.binary operator left right) h =
        let q = evaluate_lem this (suc d) left (omega arith) in
        let r = evaluate_lem this (suc d) right (omega arith) in
        λ i. limited d (binary p operator (q i) (r i))
    evaluate_lem this d (Node.ternary condition then_ otherwise) h =
        let q = evaluate_lem this (suc d) condition (omega arith) in
        let r = evaluate_lem this (suc d) then_ (omega arith) in
        let s = evaluate_lem this (suc d) otherwise (omega arith) in
        λ i. limited d (choose (q i) (r i) (s i))
    evaluate_lem this d (Node.elvis value fallback) h =
        let q = evaluate_lem this (suc d) value (omega arith) in
        let r = evaluate_lem this (suc d) fallback (omega arith) in
        λ i. limited d (and_then (q i) (λ v. if is_null v then r i else ok v))
    evaluate_lem this d (Node.list_literal items) h =
        let q = evaluate_all_lem this (suc d) items (omega arith) in
        λ i. limited d (and_then (q i) (λ vs. ok (list vs)))
    evaluate_lem this d (Node.map_literal entries) h =
        let q = evaluate_entries_lem this (suc d) entries no_fields (omega arith) in
        λ i. limited d (and_then (q i) (λ fs. ok (map_ fs)))

    evaluate_all_lem :
        (this : Option Value) (d : ℕ) (ns : Nodes)
        → type_calls_all ns ≡ 0
        → evaluate_all p c this d ns
          ≡ evaluate_all p (record c { environment = environment }) this d ns
    evaluate_all_lem this d no_nodes h = refl
    evaluate_all_lem this d (node_then n ns) h =
        let q = evaluate_lem this d n (omega arith) in
        let r = evaluate_all_lem this d ns (omega arith) in
        λ i. and_then (q i) (λ v. and_then (r i) (λ vs. ok (value_then v vs)))

    evaluate_entries_lem :
        (this : Option Value) (d : ℕ) (ns : Entries) (fs : Fields)
        → type_calls_entries ns ≡ 0
        → evaluate_entries p c this d ns fs
          ≡ evaluate_entries p (record c { environment = environment }) this d ns fs
    evaluate_entries_lem this d no_entries fs h = refl
    evaluate_entries_lem this d (entry_then key n ns) fs h =
        let q = evaluate_lem this d n (omega arith) in
        let r = λ (gs : Fields). evaluate_entries_lem this d ns gs (omega arith) in
        λ i. and_then (q i) (λ v. r (insert_field key v fs) i)

-- An expression that calls no static method has the same result whatever the environment of the
-- server holds.
pub evaluate_confined :
    (p : Platform) (c : Context) (environment : Dict String) (this : Option Value) (d : ℕ)
    (n : Node)
    → type_calls n ≡ 0
    → evaluate p c this d n ≡ evaluate p (record c { environment = environment }) this d n
evaluate_confined p c environment this d n h = evaluate_lem p c environment this d n h
