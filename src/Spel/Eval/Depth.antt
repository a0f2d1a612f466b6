-- ===== src/Spel/Eval/Depth.antt =====
-- The limit on the depth of an evaluation.
use shinyproxy_rust.Base.{
  ℕ, suc, ◌+◌, ◌≤◌, max, ◌≡◌, refl, Option, none, some, arith, if◌then◌else◌,
}
use shinyproxy_rust.Base.Result.{ok, and_then}
use shinyproxy_rust.Spel.Ast.{Node, Nodes, Entries, no_nodes, node_then, no_entries, entry_then}
use shinyproxy_rust.Spel.Values.{
  Value, Fields, Platform, list, map_, value_then, no_fields, null_property, null_call, is_null,
}
use shinyproxy_rust.Spel.Conversions.{as_list}
use shinyproxy_rust.Spel.Collections.{insert_field}
use shinyproxy_rust.Spel.Helpers.{call_helper, call_type}
use shinyproxy_rust.Spel.Operators.{apply_unary, property_of, index_of_value, call_method}
use shinyproxy_rust.Spel.Eval.Meaning.{meaning, meaning_all, meaning_entries}
use shinyproxy_rust.Spel.Eval.{
  max_depth, Context, Evaluated, limited, unless_null, type_of_target, project, select, binary,
  choose, evaluate, evaluate_all, evaluate_entries,
}

-- The number of levels below a node.
unfoldable mutual
  pub height : Node → ℕ
  height (Node.property target name safe) = suc (height target)
  height (Node.index target position) = suc (max (height target) (height position))
  height (Node.call target name arguments safe) = suc (max (height target) (height_all arguments))
  height (Node.call_root name arguments) = suc (height_all arguments)
  height (Node.projection target body) = suc (max (height target) (height body))
  height (Node.selection target body) = suc (max (height target) (height body))
  height (Node.unary operator operand) = suc (height operand)
  height (Node.binary operator left right) = suc (max (height left) (height right))
  height (Node.ternary condition then_ otherwise) =
      suc (max (height condition) (max (height then_) (height otherwise)))
  height (Node.elvis value fallback) = suc (max (height value) (height fallback))
  height (Node.list_literal items) = suc (height_all items)
  height (Node.map_literal entries) = suc (height_entries entries)
  height _ = 0

  pub height_all : Nodes → ℕ
  height_all no_nodes = 0
  height_all (node_then n ns) = max (height n) (height_all ns)

  pub height_entries : Entries → ℕ
  height_entries no_entries = 0
  height_entries (entry_then key n ns) = max (height n) (height_entries ns)

limited_above : (d : ℕ) {r s : Evaluated} → d ≤ max_depth → r ≡ s → limited d r ≡ s
limited_above d h q = ground (arith, q)

module _ (p : Platform) (c : Context) where
  mutual
    unfolding evaluate meaning height

    evaluate_lem :
        (this : Option Value) (d : ℕ) (n : Node)
        → height n + d ≤ max_depth
        → evaluate p c this d n ≡ meaning p c this n
    evaluate_lem this d Node.null h = limited_above d (omega arith) refl
    evaluate_lem this d (Node.bool b) h = limited_above d (omega arith) refl
    evaluate_lem this d (Node.int z) h = limited_above d (omega arith) refl
    evaluate_lem this d (Node.float t) h = limited_above d (omega arith) refl
    evaluate_lem this d (Node.str s) h = limited_above d (omega arith) refl
    evaluate_lem this d (Node.root n) h = limited_above d (omega arith) refl
    evaluate_lem this d (Node.variable n) h = limited_above d (omega arith) refl
    evaluate_lem this d (Node.bean n) h = limited_above d (omega arith) refl
    evaluate_lem this d (Node.type_ n) h = limited_above d (omega arith) refl
    evaluate_lem this d (Node.property target name safe) h =
        let q = evaluate_lem this (suc d) target (omega arith) in
        limited_above d (omega arith) (λ i.
          and_then (q i) (λ v. unless_null safe (null_property name) v (property_of p v name)))
    evaluate_lem this d (Node.index target position) h =
        let q = evaluate_lem this (suc d) target (omega arith) in
        let r = evaluate_lem this (suc d) position (omega arith) in
        limited_above d (omega arith)
          (λ i. and_then (q i) (λ v. and_then (r i) (λ w. index_of_value p v w)))
    evaluate_lem this d (Node.call_root name arguments) h =
        let q = evaluate_all_lem this (suc d) arguments (omega arith) in
        limited_above d (omega arith) (λ i. and_then (q i) (λ vs. call_helper p name vs))
    evaluate_lem this d (Node.call target name arguments safe) h =
        let q = evaluate_all_lem this (suc d) arguments (omega arith) in
        let r = evaluate_lem this (suc d) target (omega arith) in
        limited_above d (omega arith) (λ i. and_then (q i) (λ vs. elim (type_of_target target) [
          | some type_name ↦ call_type p c.environment type_name name vs
          | none ↦
              and_then (r i) (λ v. unless_null safe (null_call name) v (call_method p v name vs))
        ]))
    evaluate_lem this d (Node.projection target body) h =
        let q = evaluate_lem this (suc d) target (omega arith) in
        let r = λ (item : Value). evaluate_lem (some item) (suc d) body (omega arith) in
        limited_above d (omega arith) (λ i.
          and_then (q i)
            (λ v. and_then (project (λ item. r item i) (as_list v)) (λ vs. ok (list vs))))
    evaluate_lem this d (Node.selection target body) h =
        let q = evaluate_lem this (suc d) target (omega arith) in
        let r = λ (item : Value). evaluate_lem (some item) (suc d) body (omega arith) in
        limited_above d (omega arith) (λ i.
          and_then (q i)
            (λ v. and_then (select p (λ item. r item i) (as_list v)) (λ vs. ok (list vs))))
    evaluate_lem this d (Node.unary operator operand) h =
        let q = evaluate_lem this (suc d) operand (omega arith) in
        limited_above d (omega arith) (λ i. and_then (q i) (λ v. apply_unary p operator v))
    evaluate_lem this d (Node.binary operator left right) h =
        let q = evaluate_lem this (suc d) left (omega arith) in
        let r = evaluate_lem this (suc d) right (omega arith) in
        limited_above d (omega arith) (λ i. binary p operator (q i) (r i))
    evaluate_lem this d (Node.ternary condition then_ otherwise) h =
        let q = evaluate_lem this (suc d) condition (omega arith) in
        let r = evaluate_lem this (suc d) then_ (omega arith) in
        let s = evaluate_lem this (suc d) otherwise (omega arith) in
        limited_above d (omega arith) (λ i. choose (q i) (r i) (s i))
    evaluate_lem this d (Node.elvis value fallback) h =
        let q = evaluate_lem this (suc d) value (omega arith) in
        let r = evaluate_lem this (suc d) fallback (omega arith) in
        limited_above d (omega arith) (λ i. and_then (q i) (λ v. if is_null v then r i else ok v))
    evaluate_lem this d (Node.list_literal items) h =
        let q = evaluate_all_lem this (suc d) items (omega arith) in
        limited_above d (omega arith) (λ i. and_then (q i) (λ vs. ok (list vs)))
    evaluate_lem this d (Node.map_literal entries) h =
        let q = evaluate_entries_lem this (suc d) entries no_fields (omega arith) in
        limited_above d (omega arith) (λ i. and_then (q i) (λ fs. ok (map_ fs)))

    evaluate_all_lem :
        (this : Option Value) (d : ℕ) (ns : Nodes)
        → height_all ns + d ≤ max_depth
        → evaluate_all p c this d ns ≡ meaning_all p c this ns
    evaluate_all_lem this d no_nodes h = refl
    evaluate_all_lem this d (node_then n ns) h =
        let q = evaluate_lem this d n (omega arith) in
        let r = evaluate_all_lem this d ns (omega arith) in
        λ i. and_then (q i) (λ v. and_then (r i) (λ vs. ok (value_then v vs)))

    evaluate_entries_lem :
        (this : Option Value) (d : ℕ) (ns : Entries) (fs : Fields)
        → height_entries ns + d ≤ max_depth
        → evaluate_entries p c this d ns fs ≡ meaning_entries p c this ns fs
    evaluate_entries_lem this d no_entries fs h = refl
    evaluate_entries_lem this d (entry_then key n ns) fs h =
        let q = evaluate_lem this d n (omega arith) in
        let r = λ (gs : Fields). evaluate_entries_lem this d ns gs (omega arith) in
        λ i. and_then (q i) (λ v. r (insert_field key v fs) i)

-- Where the depth and the levels below the tree are 64 at most together, `evaluate` agrees with
-- the meaning of the tree, which is defined by recursion on the tree without a limit.
pub evaluate-meaning :
    (p : Platform) (c : Context) (this : Option Value) (d : ℕ) (n : Node)
    → height n + d ≤ max_depth
    → evaluate p c this d n ≡ meaning p c this n
evaluate-meaning p c this d n h = evaluate_lem p c this d n h
