-- ===== src/Service/Parameters/Accepted.antt =====
-- crates/containerproxy/src/service/parameters.rs: which requests `parse_and_validate_request`
-- accepts, and with which values.
use shinyproxy_rust.Base.{
  String, str_eq_iff, ◌≡◌, refl, sym, ap, subst, ◌∙◌, ◌⊎◌, inl, inr, true, false, none, some, List,
  [], ◌∷◌, arith, Option-cases, contains, AllDistinct,
}
use shinyproxy_rust.Base.Dict.{lookup-insert_eq, Dict, lookup, insert, values, lookup-insert}
use shinyproxy_rust.Model.Parameters.{
  ParameterDefinition, ParameterValueSet, definition_ids, name_of_value, value_of_name, values_of,
}
use shinyproxy_rust.Service.Parameters.{ParameterValues, backend_value, convert_values}
use mathlib.Core.List.{Memᴰ}
use mathlib.Core.List.Memᴰ.{head, tail}

-- What the user provides is the name of the value, or the value itself where it neither has a name
-- nor is one.
abbrev pub MeansValue : ParameterDefinition → String → String → Type 0
MeansValue d given value =
    (value_of_name d given ≡ some value)
    ⊎ ((value_of_name d given ≡ none) × (name_of_value d given ≡ none) × (given ≡ value))

-- The value set has the value that the user means.
abbrev pub Allows : ParameterValueSet → Dict String → ParameterDefinition → String → Type 0
Allows s provided d value =
    (given : String) × (lookup d.id provided ≡ some given)
    × MeansValue d given value
    × (contains (values_of s d.id) value ≡ true)

abbrev pub AllowsAll : List ParameterDefinition → ParameterValueSet → Dict String → Type 0
AllowsAll ds s provided =
    (d : ParameterDefinition) → Memᴰ d ds → (value : String) × Allows s provided d value

-- The values that the backend gets come from the value set, one for each parameter.
abbrev pub TakenFrom :
    List ParameterDefinition → ParameterValueSet → Dict String → ParameterValues → Type 0
TakenFrom ds s provided values =
    (values.value_set_name ≡ s.name)
    × ((d : ParameterDefinition)
        → Memᴰ d ds
        → (value : String) × (lookup d.id values.backend_values ≡ some value)
          × Allows s provided d value)

backend_value-some :
    (d : ParameterDefinition) (given : String) {value : String}
    → backend_value d given ≡ some value
    → MeansValue d given value
unfolding backend_value
backend_value-some d given h = elim (Option-cases (value_of_name d given)) [
  | inl e ↦ inr (e, ground arith, ground arith)
  | inr (v, e) ↦ inl (ground arith)
]

pub backend_value-means :
    (d : ParameterDefinition) (given : String) {value : String}
    → MeansValue d given value
    → backend_value d given ≡ some value
unfolding backend_value
backend_value-means d given h = ground arith

pub contains-definition_ids :
    (ds : List ParameterDefinition) {d : ParameterDefinition}
    → Memᴰ d ds
    → contains (definition_ids ds) d.id ≡ true
unfolding contains
contains-definition_ids [] m = elim m [ ]
contains-definition_ids (e ∷ ds) (head h) = ground (arith, str_eq_iff e.id e.id, ap (λ x. x.id) h)
contains-definition_ids (e ∷ ds) (tail m) = ground (arith, contains-definition_ids ds m)

module _ (s : ParameterValueSet) (provided : Dict String) where
  -- One round of the loop, read backwards.
  convert_values-cons :
      (d : ParameterDefinition) (ds : List ParameterDefinition) (done : Dict String)
      {r : Dict String}
      → convert_values (d ∷ ds) s provided done ≡ some r
      → (value : String) × Allows s provided d value
        × (convert_values ds s provided (insert d.id value done) ≡ some r)
  unfolding convert_values
  convert_values-cons d ds done h = elim (Option-cases (lookup d.id provided)) [
    | inl e ↦ absurd (cc)
    | inr (given, e) ↦ elim (Option-cases (backend_value d given)) [
      | inl e' ↦ absurd (cc)
      | inr (value, e') ↦
          (value, (given, e, backend_value-some d given e', ground arith), ground arith)
    ]
  ]

  convert_values-other :
      (ds : List ParameterDefinition) (done : Dict String) (k : String) {r : Dict String}
      → convert_values ds s provided done ≡ some r
      → contains (definition_ids ds) k ≡ false
      → lookup k r ≡ lookup k done
  unfolding contains convert_values
  convert_values-other [] done k h absent = ground arith
  convert_values-other (d ∷ ds) done k h absent =
      let step = convert_values-cons d ds done h in
      ground (
        arith,
        convert_values-other ds (insert d.id step.0 done) k step.2,
        lookup-insert d.id k step.0 done,
      )

  pub convert_values-each :
      (ds : List ParameterDefinition) (done : Dict String) {r : Dict String}
      → AllDistinct (definition_ids ds)
      → convert_values ds s provided done ≡ some r
      → (d : ParameterDefinition) → Memᴰ d ds
      → (value : String) × (lookup d.id r ≡ some value) × Allows s provided d value
  convert_values-each [] done distinct h d m = elim m [ ]
  convert_values-each (e ∷ ds) done {r} distinct h d (head q) =
      let step = convert_values-cons e ds done h in
      subst (λ x. (value : String) × (lookup x.id r ≡ some value) × Allows s provided x value)
        (sym q)
        (
          step.0,
          convert_values-other ds (insert e.id step.0 done) e.id step.2 distinct.0
              ∙ lookup-insert_eq e.id e.id step.0 done refl,
          step.1,
        )
  convert_values-each (e ∷ ds) done distinct h d (tail m) =
      let step = convert_values-cons e ds done h in
      convert_values-each ds (insert e.id step.0 done) distinct.1 step.2 d m

  pub convert_values-allowed :
      (ds : List ParameterDefinition) (done : Dict String)
      → AllowsAll ds s provided
      → (r : Dict String) × (convert_values ds s provided done ≡ some r)
  unfolding convert_values
  convert_values-allowed [] done allows = (done, refl)
  convert_values-allowed (d ∷ ds) done allows =
      let (value, (given, found, means, inside)) = allows d (head refl) in
      let rest = convert_values-allowed ds (insert d.id value done) (λ e m. allows e (tail m)) in
      (rest.0, ground (arith, backend_value-means d given means, inside, found, rest.1))
