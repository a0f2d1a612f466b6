-- ===== src/Spel/Eval/Meaning.antt =====
-- What an expression means, by recursion on the tree alone: `evaluate` with no limit on its depth.
use shinyproxy_rust.Base.{concat, Option, none, some, if◌then◌else◌}
use shinyproxy_rust.Base.Dict.{lookup}
use shinyproxy_rust.Base.Result.{Result, ok, and_then}
use shinyproxy_rust.Spel.Ast.{Node, Nodes, Entries, no_nodes, node_then, no_entries, entry_then}
use shinyproxy_rust.Spel.Values.{
  str, null, unknown_bean, unknown_root, Values, EvalError, no_values, Value, Fields, Platform,
  list, map_, value_then, no_fields, null_property, null_call, is_null,
}
use shinyproxy_rust.Spel.Conversions.{as_list}
use shinyproxy_rust.Spel.Collections.{insert_field}
use shinyproxy_rust.Spel.Helpers.{call_helper, call_type}
use shinyproxy_rust.Spel.Operators.{apply_unary, property_of, index_of_value, call_method}
use shinyproxy_rust.Spel.Eval.{
  Context, Evaluated, found_or, variable_of, unless_null, type_of_target, project, select, binary,
  choose,
}

module _ (p : Platform) (c : Context) where
  unfoldable mutual
    unfolding and_then

    pub meaning : Option Value → Node → Evaluated
    meaning this Node.null = ok null
    meaning this (Node.bool b) = ok (Value.bool b)
    meaning this (Node.int z) = ok (Value.int z)
    meaning this (Node.float text) = ok (Value.float (p.float_literal text))
    meaning this (Node.str s) = ok (str s)
    meaning this (Node.root name) = found_or (unknown_root name) (lookup name c.root)
    meaning this (Node.variable name) = variable_of c this name
    meaning this (Node.bean name) = found_or (unknown_bean name) (lookup name c.beans)
    meaning this (Node.type_ name) = ok (str (concat "T(" (concat name ")")))
    meaning this (Node.property target name safe) =
        and_then (meaning this target)
          (λ v. unless_null safe (null_property name) v (property_of p v name))
    meaning this (Node.index target position) =
        and_then (meaning this target)
          (λ v. and_then (meaning this position) (λ i. index_of_value p v i))
    meaning this (Node.call_root name arguments) =
        and_then (meaning_all this arguments) (λ vs. call_helper p name vs)
    meaning this (Node.call target name arguments safe) =
        and_then (meaning_all this arguments) (λ vs. elim (type_of_target target) [
          | some type_name ↦ call_type p c.environment type_name name vs
          | none ↦
              and_then (meaning this target)
                (λ v. unless_null safe (null_call name) v (call_method p v name vs))
        ])
    meaning this (Node.projection target body) = and_then (meaning this target) (λ v.
        and_then (project (λ item. meaning (some item) body) (as_list v)) (λ vs. ok (list vs)))
    meaning this (Node.selection target body) = and_then (meaning this target) (λ v.
        and_then (select p (λ item. meaning (some item) body) (as_list v)) (λ vs. ok (list vs)))
    meaning this (Node.unary operator operand) =
        and_then (meaning this operand) (λ v. apply_unary p operator v)
    meaning this (Node.binary operator left right) =
        binary p operator (meaning this left) (meaning this right)
    meaning this (Node.ternary condition then_ otherwise) =
        choose (meaning this condition) (meaning this then_) (meaning this otherwise)
    meaning this (Node.elvis value fallback) =
        and_then (meaning this value) (λ v. if is_null v then meaning this fallback else ok v)
    meaning this (Node.list_literal items) = and_then (meaning_all this items) (λ vs. ok (list vs))
    meaning this (Node.map_literal entries) =
        and_then (meaning_entries this entries no_fields) (λ fs. ok (map_ fs))

    pub meaning_all : Option Value → Nodes → Result Values EvalError
    meaning_all this no_nodes = ok no_values
    meaning_all this (node_then n ns) =
        and_then (meaning this n) (λ v. and_then (meaning_all this ns) (λ vs. ok (value_then v vs)))

    -- The entries in order, added to those before.
    pub meaning_entries : Option Value → Entries → Fields → Result Fields EvalError
    meaning_entries this no_entries fs = ok fs
    meaning_entries this (entry_then key n ns) fs =
        and_then (meaning this n) (λ v. meaning_entries this ns (insert_field key v fs))
