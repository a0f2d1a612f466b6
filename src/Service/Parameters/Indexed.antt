-- ===== src/Service/Parameters/Indexed.antt =====
-- crates/containerproxy/src/service/parameters.rs: the indexes of values and the names at them.
use shinyproxy_rust.Base.{
  get_elem?, get_elem?-append, get_elem?-snoc, if_ind, ℕ, ◌+◌, ◌-◌, ◌≤◌, String, str_eq, str_eq_iff,
  ◌≡◌, refl, sym, ap, ◌∙◌, inl, inr, some, List, [], ◌∷◌, ◌++◌, arith, Bool-cases, Option-cases,
  length, AllDistinct,
}
use shinyproxy_rust.Base.Dict.{lookup-insert_eq, Dict, lookup, insert, contains_key, lookup-insert}
use shinyproxy_rust.Model.Parameters.{
  ParameterDefinition, ParameterValueSet, definition_ids, values_of,
}
use shinyproxy_rust.Service.Parameters.Accepted.{contains-definition_ids}
use shinyproxy_rust.Service.Parameters.Form.{
  Choices, shown, index_values, indexes_of, names_of, index_definition, index_definitions,
  index_value_sets, index_of, no_choices,
}
use mathlib.Core.List.{Memᴰ}
use mathlib.Core.List.Memᴰ.{head, tail}

-- The name at the index of a value is the one that is shown for it. Indexes start at 1.
abbrev pub Shows : ParameterDefinition → Dict ℕ → List String → Type 0
Shows d indexes names =
    (value : String) (index : ℕ)
    → lookup value indexes ≡ some index
    → (1 ≤ index) × (get_elem? names (index - 1) ≡ some (shown d value))

Shows-insert :
    (d : ParameterDefinition) (indexes : Dict ℕ) (names : List String) (v : String)
    → Shows d indexes names
    → Shows d (insert v (length names + 1) indexes) (names ++ shown d v ∷ [])
Shows-insert d indexes names v shows value index h = elim (Bool-cases (str_eq v value)) [
  | inl same ↦
      let last : index ≡ length names + 1 =
        ground (arith, lookup-insert v value (length names + 1) indexes) in
      let before : length names ≡ index - 1 = omega arith in
      let at = rw before at (get_elem?-snoc names (shown d v)) in
      (omega arith, rw (sym ((str_eq_iff v value).0 same)) at)
  | inr differ ↦
      let (positive, at) =
        shows value index (ground (arith, lookup-insert v value (length names + 1) indexes)) in
      (positive, get_elem?-append names (shown d v ∷ []) (index - 1) at)
]

index_values-Shows :
    (d : ParameterDefinition) (indexes : Dict ℕ) (names values : List String)
    → Shows d indexes names
    → let added = index_values d indexes names values in Shows d added.0 added.1
unfolding index_values
index_values-Shows d indexes names [] shows = shows
index_values-Shows d indexes names (v ∷ vs) shows =
    if_ind (λ (added : Dict ℕ × List String). Shows d added.0 added.1) (contains_key v indexes)
      (λ _. index_values-Shows d indexes names vs shows)
      (λ _.
        index_values-Shows d (insert v (length names + 1) indexes) (names ++ shown d v ∷ []) vs
          (Shows-insert d indexes names v shows))

-- The choices show each parameter.
abbrev pub ShowsAll : List ParameterDefinition → Choices → Type 0
ShowsAll ds c =
    (d : ParameterDefinition) → Memᴰ d ds → Shows d (indexes_of c d.id) (names_of c d.id)

-- Definitions with distinct ids are determined by their ids.
pub same_id-same :
    (ds : List ParameterDefinition) {d e : ParameterDefinition}
    → AllDistinct (definition_ids ds)
    → Memᴰ d ds
    → Memᴰ e ds
    → d.id ≡ e.id
    → d ≡ e
same_id-same [] distinct m n h = elim m [ ]
same_id-same (x ∷ ds) distinct (head q) (head r) h = q ∙ sym r
same_id-same (x ∷ ds) distinct (tail m) (tail n) h = same_id-same ds distinct.1 m n h
same_id-same (x ∷ ds) {d} {e} distinct (head q) (tail n) h =
    absurd (ground (arith, contains-definition_ids ds n, ap (λ y. y.id) q))
same_id-same (x ∷ ds) {d} {e} distinct (tail m) (head q) h =
    absurd (ground (arith, contains-definition_ids ds m, ap (λ y. y.id) q))

module _ (all : List ParameterDefinition) (distinct : AllDistinct (definition_ids all)) where
  index_definition-Shows :
      (s : ParameterValueSet) (c : Choices) (d : ParameterDefinition)
      → Memᴰ d all
      → ShowsAll all c
      → ShowsAll all (index_definition s c d)
  unfolding index_definition
  index_definition-Shows s c d m shows e n =
      let added = index_values d (indexes_of c d.id) (names_of c d.id) (values_of s d.id) in
      let here =
        index_values-Shows d (indexes_of c d.id) (names_of c d.id) (values_of s d.id) (shows d m) in
      elim (Bool-cases (str_eq d.id e.id)) [
        | inl same ↦ rw (sym (same_id-same all distinct m n ((str_eq_iff d.id e.id).0 same))) (
            rw
              (
                lookup-insert_eq d.id d.id added.0 c.indexes refl,
                lookup-insert_eq d.id d.id added.1 c.names refl,
              )
              here)
        | inr differ ↦
            rw
              (
                lookup-insert d.id e.id added.0 c.indexes,
                lookup-insert d.id e.id added.1 c.names,
                differ,
              )
              (shows e n)
      ]

  index_definitions-Shows :
      (s : ParameterValueSet) (c : Choices) (ds : List ParameterDefinition)
      → ((d : ParameterDefinition) → Memᴰ d ds → Memᴰ d all)
      → ShowsAll all c
      → ShowsAll all (index_definitions s c ds)
  unfolding index_definitions
  index_definitions-Shows s c [] inside shows = shows
  index_definitions-Shows s c (d ∷ ds) inside shows =
      index_definitions-Shows s (index_definition s c d) ds (λ e m. inside e (tail m))
        (index_definition-Shows s c d (inside d (head refl)) shows)

  index_value_sets-Shows :
      (c : Choices) (sets : List ParameterValueSet)
      → ShowsAll all c
      → ShowsAll all (index_value_sets all c sets)
  unfolding index_value_sets
  index_value_sets-Shows c [] shows = shows
  index_value_sets-Shows c (s ∷ sets) shows =
      index_value_sets-Shows (index_definitions s c all) sets
        (index_definitions-Shows s c all (λ d m. m) shows)

  -- The form shows each value under its index.
  pub index_of-shown :
      (sets : List ParameterValueSet) (d : ParameterDefinition)
      → Memᴰ d all
      → (value : String) (index : ℕ)
      → let c = index_value_sets all no_choices sets in
        index_of c.indexes d.id value ≡ some index
        → (1 ≤ index) × (get_elem? (names_of c d.id) (index - 1) ≡ some (shown d value))
  unfolding index_of lookup
  index_of-shown sets d m value index h =
      let c = index_value_sets all no_choices sets in
      index_value_sets-Shows no_choices sets (λ e n value index h. absurd cc) d m value index
        (elim (Option-cases (lookup d.id c.indexes)) [
          | inl e ↦ absurd cc
          | inr (indexes, e) ↦ ground arith
        ])
