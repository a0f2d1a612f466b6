-- ===== src/Spel/Equals.antt =====
-- `==` of expressions.
use shinyproxy_rust.Base.{ℕ, ◌≡◌, refl}
use shinyproxy_rust.Spel.Values.{Platform, Value, bool, float, int, list, map_, null, object, str}
use shinyproxy_rust.Spel.Values.Equality.{eq_value_comm}
use shinyproxy_rust.Spel.Methods.{equals}

-- `==` does not depend on the order of its sides, texts next to numbers included, if the equality
-- of floating point numbers does not.
pub equals_comm :
    (p : Platform) (a b : Value)
    → ((x y : ℕ) → p.float_eq x y ≡ p.float_eq y x)
    → equals p a b ≡ equals p b a
unfolding equals
equals_comm p (str s) (int z) h = refl
equals_comm p (int z) (str s) h = refl
equals_comm p null null h = eq_value_comm p h null null
equals_comm p (bool x) null h = eq_value_comm p h (bool x) null
equals_comm p (float x) null h = eq_value_comm p h (float x) null
equals_comm p (list x) null h = eq_value_comm p h (list x) null
equals_comm p (map_ x) null h = eq_value_comm p h (map_ x) null
equals_comm p (object x) null h = eq_value_comm p h (object x) null
equals_comm p a b h = eq_value_comm p h a b
