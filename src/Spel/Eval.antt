-- ===== src/Spel/Eval.antt =====
-- crates/spel/src/eval.rs: `evaluate` on the syntax tree. The item of a selection or projection is
-- an argument, as is the depth; the maps of the context are only looked up.
pub mod Meaning
pub mod Depth
pub mod Sums
pub mod Confined
pub mod Kinds
use shinyproxy_rust.Base.{
  concat, ℕ, suc, String, str_eq, Bool, true, false, not, ◌||◌, Option, none, some, ltb,
  if◌then◌else◌,
}
use shinyproxy_rust.Base.Dict.{Dict, lookup}
use shinyproxy_rust.Base.Result.{Result, ok, err, and_then}
use shinyproxy_rust.Spel.Ast.{
  Node, Nodes, Entries, no_nodes, node_then, no_entries, entry_then, BinaryOperator,
}
use shinyproxy_rust.Spel.Values.{
  Value, Values, Fields, Platform, EvalError, null, bool, list, map_, str, no_values, value_then,
  no_fields, too_deep, unknown_root, unknown_variable, unknown_bean, only_in_selection,
  null_property, null_call, is_null,
}
use shinyproxy_rust.Spel.Conversions.{as_bool, as_list, is_truthy}
use shinyproxy_rust.Spel.Collections.{insert_field}
use shinyproxy_rust.Spel.Helpers.{call_helper, call_type}
use shinyproxy_rust.Spel.Operators.{
  apply_binary, apply_unary, property_of, index_of_value, call_method,
}

abbrev pub max_depth : ℕ
max_depth = 64

pub record Context : Type 0 where
  pub root : Dict Value
  pub variables : Dict Value
  pub beans : Dict Value
  pub environment : Dict String

abbrev pub Evaluated : Type 0
Evaluated = Result Value EvalError

-- Nothing is evaluated below the deepest level.
abbrev pub limited : ℕ → Evaluated → Evaluated
limited depth result = if ltb max_depth depth then err too_deep else result

abbrev pub found_or : EvalError → Option Value → Evaluated
found_or e none = err e
found_or e (some v) = ok v

abbrev pub or_else : Option Value → Option Value → Option Value
or_else none other = other
or_else (some v) other = some v

unfoldable pub variable_of : Context → Option Value → String → Evaluated
unfolding lookup
variable_of c this name =
    if str_eq name "this" || str_eq name "root"
    then found_or (only_in_selection name) (or_else this (lookup name c.variables))
    else found_or (unknown_variable name) (lookup name c.variables)

-- `and` and `or`: the right side is evaluated only where the left one does not decide.
unfoldable pub short_circuit : Bool → Evaluated → Evaluated → Evaluated
unfolding as_bool and_then
short_circuit decides left right = and_then left (λ v. and_then (as_bool v) (λ b.
    elim (if decides then b else not b) [
      | true ↦ ok (bool decides)
      | false ↦ and_then right (λ w. and_then (as_bool w) (λ r. ok (bool r)))
    ]))

-- `binary`, on the results of its two sides.
unfoldable pub binary : Platform → BinaryOperator → Evaluated → Evaluated → Evaluated
unfolding short_circuit and_then apply_binary
binary p BinaryOperator.and_ left right = short_circuit false left right
binary p BinaryOperator.or_ left right = short_circuit true left right
binary p operator left right =
    and_then left (λ v. and_then right (λ w. apply_binary p operator v w))

unfoldable pub choose : Evaluated → Evaluated → Evaluated → Evaluated
unfolding as_bool and_then
choose condition then_ otherwise =
    and_then condition
      (λ v. and_then (as_bool v) (λ b. elim b [ true ↦ then_ | false ↦ otherwise ]))

-- `T(type).method(...)` does not evaluate its target.
abbrev pub type_of_target : Node → Option String
type_of_target (Node.type_ name) = some name
type_of_target _ = none

-- The loops over the items of a list, with `#this` bound to each.
unfoldable pub project : (Value → Evaluated) → Values → Result Values EvalError
unfolding and_then
project body no_values = ok no_values
project body (value_then v vs) =
    and_then (body v) (λ w. and_then (project body vs) (λ ws. ok (value_then w ws)))

unfoldable pub select : Platform → (Value → Evaluated) → Values → Result Values EvalError
unfolding and_then is_truthy
select p body no_values = ok no_values
select p body (value_then v vs) =
    and_then (body v)
      (λ w. and_then (select p body vs) (λ ws. ok (if is_truthy p w then value_then v ws else ws)))

-- A property or a call on `null` is an error, unless it is a safe one.
abbrev pub unless_null : Bool → EvalError → Value → Evaluated → Evaluated
unless_null safe e null result = if safe then ok null else err e
unless_null safe e _ result = result

module _ (p : Platform) (c : Context) where
  unfoldable mutual
    unfolding and_then

    pub evaluate : Option Value → ℕ → Node → Evaluated
    evaluate this d Node.null = limited d (ok null)
    evaluate this d (Node.bool b) = limited d (ok (Value.bool b))
    evaluate this d (Node.int z) = limited d (ok (Value.int z))
    evaluate this d (Node.float text) = limited d (ok (Value.float (p.float_literal text)))
    evaluate this d (Node.str s) = limited d (ok (str s))
    evaluate this d (Node.root name) = limited d (found_or (unknown_root name) (lookup name c.root))
    evaluate this d (Node.variable name) = limited d (variable_of c this name)
    evaluate this d (Node.bean name) =
        limited d (found_or (unknown_bean name) (lookup name c.beans))
    evaluate this d (Node.type_ name) = limited d (ok (str (concat "T(" (concat name ")"))))
    evaluate this d (Node.property target name safe) = limited d (
        and_then (evaluate this (suc d) target)
          (λ v. unless_null safe (null_property name) v (property_of p v name)))
    evaluate this d (Node.index target position) = limited d (
        and_then (evaluate this (suc d) target)
          (λ v. and_then (evaluate this (suc d) position) (λ i. index_of_value p v i)))
    evaluate this d (Node.call_root name arguments) =
        limited d (and_then (evaluate_all this (suc d) arguments) (λ vs. call_helper p name vs))
    evaluate this d (Node.call target name arguments safe) = limited d (
        and_then (evaluate_all this (suc d) arguments) (λ vs. elim (type_of_target target) [
          | some type_name ↦ call_type p c.environment type_name name vs
          | none ↦
              and_then (evaluate this (suc d) target)
                (λ v. unless_null safe (null_call name) v (call_method p v name vs))
        ]))
    evaluate this d (Node.projection target body) = limited d (
        and_then (evaluate this (suc d) target) (λ v.
          and_then (project (λ item. evaluate (some item) (suc d) body) (as_list v))
            (λ vs. ok (list vs))))
    evaluate this d (Node.selection target body) = limited d (
        and_then (evaluate this (suc d) target) (λ v.
          and_then (select p (λ item. evaluate (some item) (suc d) body) (as_list v))
            (λ vs. ok (list vs))))
    evaluate this d (Node.unary operator operand) =
        limited d (and_then (evaluate this (suc d) operand) (λ v. apply_unary p operator v))
    evaluate this d (Node.binary operator left right) =
        limited d (binary p operator (evaluate this (suc d) left) (evaluate this (suc d) right))
    evaluate this d (Node.ternary condition then_ otherwise) = limited d (
        choose (evaluate this (suc d) condition) (evaluate this (suc d) then_)
          (evaluate this (suc d) otherwise))
    evaluate this d (Node.elvis value fallback) = limited d (
        and_then (evaluate this (suc d) value)
          (λ v. if is_null v then evaluate this (suc d) fallback else ok v))
    evaluate this d (Node.list_literal items) =
        limited d (and_then (evaluate_all this (suc d) items) (λ vs. ok (list vs)))
    evaluate this d (Node.map_literal entries) =
        limited d (and_then (evaluate_entries this (suc d) entries no_fields) (λ fs. ok (map_ fs)))

    pub evaluate_all : Option Value → ℕ → Nodes → Result Values EvalError
    evaluate_all this d no_nodes = ok no_values
    evaluate_all this d (node_then n ns) =
        and_then (evaluate this d n)
          (λ v. and_then (evaluate_all this d ns) (λ vs. ok (value_then v vs)))

    -- The entries in order, added to those before.
    pub evaluate_entries : Option Value → ℕ → Entries → Fields → Result Fields EvalError
    evaluate_entries this d no_entries fs = ok fs
    evaluate_entries this d (entry_then key n ns) fs =
        and_then (evaluate this d n) (λ v. evaluate_entries this d ns (insert_field key v fs))
