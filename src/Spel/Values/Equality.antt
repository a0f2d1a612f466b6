-- ===== src/Spel/Values/Equality.antt =====
-- `PartialEq` of values, and `equals` of crates/spel/src/eval.rs, which reads a text that stands
-- next to a number as a number.
use shinyproxy_rust.Base.{
  ℕ, String, str_eq, str_eq_iff, ◌≡◌, refl, Bool, true, false, not, ◌&&◌, arith, ◌==◌,
  if◌then◌else◌,
}
use shinyproxy_rust.Base.Int.{eq_ℤ}
use shinyproxy_rust.Spel.Values.{
  Value, Values, Fields, Platform, null, bool, int, float, str, list, map_, object, no_values,
  value_then, no_fields, field_then,
}
use shinyproxy_rust.Spel.Values.{Value, Platform}

str_eq_sym : (s t : String) → str_eq s t ≡ str_eq t s
str_eq_sym s t = ground (arith, str_eq_iff s t, str_eq_iff t s)

unfoldable mutual
  pub eq_value : Platform → Value → Value → Bool
  eq_value p null null = true
  eq_value p (bool a) (bool b) = if a then b else not b
  eq_value p (int a) (int b) = eq_ℤ a b
  eq_value p (float a) (float b) = p.float_eq a b
  eq_value p (int a) (float b) = p.float_eq (p.float_of_int a) b
  eq_value p (float a) (int b) = p.float_eq (p.float_of_int b) a
  eq_value p (str a) (str b) = str_eq a b
  eq_value p (list a) (list b) = eq_values p a b
  eq_value p (map_ a) (map_ b) = eq_fields p a b
  eq_value p (object a) (object b) = a == b
  eq_value p _ _ = false

  pub eq_values : Platform → Values → Values → Bool
  eq_values p no_values no_values = true
  eq_values p (value_then a as_) (value_then b bs) = eq_value p a b && eq_values p as_ bs
  eq_values p _ _ = false

  pub eq_fields : Platform → Fields → Fields → Bool
  eq_fields p no_fields no_fields = true
  eq_fields p (field_then k a as_) (field_then l b bs) =
      str_eq k l && (eq_value p a b && eq_fields p as_ bs)
  eq_fields p _ _ = false

-- The order of the two sides does not matter, if it does not for floating point numbers.
module _ (p : Platform) (float_eq_comm : (a b : ℕ) → p.float_eq a b ≡ p.float_eq b a) where
  mutual
    unfolding eq_value

    eq_value_sym : (a b : Value) → eq_value p a b ≡ eq_value p b a
    eq_value_sym null null = refl
    eq_value_sym (bool a) (bool b) = ground arith
    eq_value_sym (int a) (int b) = ground arith
    eq_value_sym (float a) (float b) = float_eq_comm a b
    eq_value_sym (str a) (str b) = str_eq_sym a b
    eq_value_sym (list a) (list b) = eq_values_sym a b
    eq_value_sym (map_ a) (map_ b) = eq_fields_sym a b
    eq_value_sym (object a) (object b) = ground arith
    eq_value_sym _ _ = refl

    eq_values_sym : (a b : Values) → eq_values p a b ≡ eq_values p b a
    eq_values_sym (value_then a vs) (value_then b ws) =
        λ i. eq_value_sym a b i && eq_values_sym vs ws i
    eq_values_sym no_values no_values = refl
    eq_values_sym _ _ = refl

    eq_fields_sym : (a b : Fields) → eq_fields p a b ≡ eq_fields p b a
    eq_fields_sym (field_then k a fs) (field_then l b gs) =
        λ i. str_eq_sym k l i && (eq_value_sym a b i && eq_fields_sym fs gs i)
    eq_fields_sym no_fields no_fields = refl
    eq_fields_sym _ _ = refl

  pub eq_value_comm : (a b : Value) → eq_value p a b ≡ eq_value p b a
  eq_value_comm a b = eq_value_sym a b
