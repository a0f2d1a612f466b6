-- ===== src/Base/Dict.antt =====
-- The maps of the program (DashMap, BTreeMap) as association lists with one entry for each key.
-- The order of the entries means nothing: it is the order of insertion.
use Prim.Native.Nat.{suc, ◌≤◌}
use Prim.Native.String.{String}
use text.Mathlib.Text.{◌==◌ as str_eq}
use text.Mathlib.TextEquality.{eq_iff as str_eq_iff}
use mathlib.Core.Path.{◌≡◌, refl}
use mathlib.Core.Bool.{Bool, true, false}
use mathlib.Core.List.{List, [], ◌∷◌, ◌++◌}
use mathlib.Core.Option.{Option, none, some}
use native.Mathlib.Omega.{arith}
use shinyproxy_rust.Base.Tests.{if◌then◌else◌, is_some}
use shinyproxy_rust.Base.Lists.{length, contains, AllDistinct}

abbrev pub Dict {ℓ} : Type ℓ → Type ℓ
Dict V = List (String × V)

module _ {ℓ} {V : Type ℓ} where
  unfoldable pub lookup : String → Dict V → Option V
  lookup k [] = none
  lookup k ((j, v) ∷ m) = if str_eq j k then some v else lookup k m

  unfoldable pub insert : String → V → Dict V → Dict V
  insert k v [] = (k, v) ∷ []
  insert k v ((j, w) ∷ m) = if str_eq j k then (k, v) ∷ m else (j, w) ∷ insert k v m

  unfoldable pub remove : String → Dict V → Dict V
  remove k [] = []
  remove k ((j, v) ∷ m) = if str_eq j k then remove k m else (j, v) ∷ remove k m

  abbrev pub contains_key : String → Dict V → Bool
  contains_key k m = is_some (lookup k m)

  unfoldable pub keys : Dict V → List String
  keys [] = []
  keys ((k, v) ∷ m) = k ∷ keys m

  unfoldable pub values : Dict V → List V
  values [] = []
  values ((k, v) ∷ m) = v ∷ values m

  pub lookup-insert :
      (k j : String) (v : V) (m : Dict V)
      → lookup j (insert k v m) ≡ (if str_eq k j then some v else lookup j m)
  unfolding lookup insert
  lookup-insert k j v [] = refl
  lookup-insert k j v ((i, w) ∷ m) =
      ground (arith, str_eq_iff k j, str_eq_iff i k, str_eq_iff i j, lookup-insert k j v m)

  pub lookup-insert_eq :
      (k j : String) (v : V) (m : Dict V) → k ≡ j → lookup j (insert k v m) ≡ some v
  lookup-insert_eq k j v m h = ground (arith, lookup-insert k j v m, str_eq_iff k j)

  pub lookup-remove :
      (k j : String) (m : Dict V)
      → lookup j (remove k m) ≡ (if str_eq k j then none else lookup j m)
  unfolding lookup remove
  lookup-remove k j [] = ground arith
  lookup-remove k j ((i, w) ∷ m) =
      ground (arith, str_eq_iff k j, str_eq_iff i k, str_eq_iff i j, lookup-remove k j m)

  pub lookup-remove_self : (k : String) (m : Dict V) → lookup k (remove k m) ≡ none
  lookup-remove_self k m = ground (arith, lookup-remove k k m, str_eq_iff k k)

  -- A key is in the list of the keys exactly when it is bound.
  pub contains-keys : (k : String) (m : Dict V) → contains (keys m) k ≡ contains_key k m
  unfolding lookup keys contains
  contains-keys k [] = refl
  contains-keys k ((j, v) ∷ m) = ground (arith, contains-keys k m)

  pub length-insert :
      (k : String) (v : V) (m : Dict V)
      → length (insert k v m) ≡ (if contains_key k m then length m else suc (length m))
  unfolding lookup insert
  length-insert k v [] = refl
  length-insert k v ((j, w) ∷ m) = ground (arith, length-insert k v m)

  pub remove_absent : (k : String) (m : Dict V) → lookup k m ≡ none → remove k m ≡ m
  unfolding lookup remove
  remove_absent k [] h = refl
  remove_absent k ((j, w) ∷ m) h = ground (arith, remove_absent k m)

  pub length-remove-le : (k : String) (m : Dict V) → length (remove k m) ≤ length m
  unfolding remove
  length-remove-le k [] = omega arith
  length-remove-le k ((j, w) ∷ m) = ground (arith, length-remove-le k m)

  pub length-remove_bound :
      (k : String) (m : Dict V) → contains_key k m ≡ true → suc (length (remove k m)) ≤ length m
  unfolding lookup remove
  length-remove_bound k [] h = cc
  length-remove_bound k ((j, w) ∷ m) h =
      ground (arith, length-remove_bound k m, length-remove-le k m)

  -- Distinct keys that are all bound are no more than the entries.
  pub length-le_of_bound :
      (ks : List String) (m : Dict V)
      → AllDistinct ks
      → ((k : String) → contains ks k ≡ true → contains_key k m ≡ true)
      → length ks ≤ length m
  length-le_of_bound [] m d h = omega arith
  length-le_of_bound (k ∷ ks) m d h =
      omega (arith, length-remove_bound k m (h k here), length-le_of_bound ks (remove k m) d.1 rest)
    where
      here : contains (k ∷ ks) k ≡ true
      here = unfold contains in ground (arith, str_eq_iff k k)

      rest : (j : String) → contains ks j ≡ true → contains_key j (remove k m) ≡ true
      rest j e = unfold contains in ground (arith, h j, lookup-remove k j m, str_eq_iff k j, d.0)

  -- An entry for a key that is not bound goes to the end.
  pub insert_absent :
      (k : String) (v : V) (m : Dict V) → lookup k m ≡ none → insert k v m ≡ m ++ (k, v) ∷ []
  unfolding lookup insert
  insert_absent k v [] h = refl
  insert_absent k v ((j, w) ∷ m) h = ground (arith, insert_absent k v m)

  pub lookup-snoc :
      (k j : String) (v : V) (m : Dict V)
      → lookup k m ≡ none
      → str_eq j k ≡ false
      → lookup k (m ++ (j, v) ∷ []) ≡ none
  unfolding lookup
  lookup-snoc k j v [] h e = ground arith
  lookup-snoc k j v ((i, w) ∷ m) h e = ground (arith, lookup-snoc k j v m)

  -- None of the keys is bound.
  abbrev pub AllAbsent : Dict V → List String → Type ℓ
  AllAbsent m [] = Unit {ℓ}
  AllAbsent m (k ∷ ks) = (lookup k m ≡ none) × AllAbsent m ks

  pub AllAbsent-snoc :
      (m : Dict V) (j : String) (v : V) (ks : List String)
      → AllAbsent m ks
      → contains ks j ≡ false
      → AllAbsent (m ++ (j, v) ∷ []) ks
  unfolding contains
  AllAbsent-snoc m j v [] absent h = tt
  AllAbsent-snoc m j v (k ∷ ks) absent h = (
    lookup-snoc k j v m absent.0 (ground (arith, str_eq_iff j k, str_eq_iff k j)),
    AllAbsent-snoc m j v ks absent.1 (ground arith),
  )

pub AllAbsent-nil {ℓ} : (V : Type ℓ) (ks : List String) → AllAbsent {V = V} [] ks
unfolding lookup
AllAbsent-nil V [] = tt
AllAbsent-nil V (k ∷ ks) = (refl, AllAbsent-nil V ks)
