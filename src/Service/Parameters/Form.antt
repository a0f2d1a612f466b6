-- ===== src/Service/Parameters/Form.antt =====
-- crates/containerproxy/src/service/parameters.rs: `allowed_parameters_for_user`, what the form
-- offers to a user.
use shinyproxy_rust.Base.{
  ℕ, ◌+◌, String, Bool, true, false, ◌&&◌, ◌||◌, Option, none, some, List, [], ◌∷◌, ◌++◌, ◌==◌,
  if◌then◌else◌, unwrap_or, length, keep_if,
}
use shinyproxy_rust.Base.Dict.{Dict, lookup, insert, contains_key}
use shinyproxy_rust.Model.Parameters.{
  ParameterDefinition, ParameterValueSet, Parameters, ids, name_of_value, values_of,
}
use shinyproxy_rust.Service.Parameters.{ParameterValues, Access}

-- The index of each value, by the parameter.
abbrev pub Indexes : Type 0
Indexes = Dict (Dict ℕ)

-- The indexes, and the names that the user sees in the order of the indexes.
pub record Choices : Type 0 where
  pub indexes : Indexes
  pub names : Dict (List String)

pub record AllowedParametersForUser : Type 0 where
  pub values : Dict (List String)
  pub allowed_combinations : List (List ℕ)
  pub default_value : List ℕ

-- `filter(|value_set| has_access(...))`
unfoldable pub accessible : Access → List ParameterValueSet → List ParameterValueSet
unfolding keep_if
accessible has_access sets = keep_if (λ s. has_access s.access_control) sets

abbrev pub shown : ParameterDefinition → String → String
shown d value = unwrap_or (name_of_value d value) value

unfoldable pub index_values :
    ParameterDefinition → Dict ℕ → List String → List String → Dict ℕ × List String
unfolding lookup insert
index_values d indexes names [] = (indexes, names)
index_values d indexes names (v ∷ vs) =
    if contains_key v indexes
    then index_values d indexes names vs
    else index_values d (insert v (length names + 1) indexes) (names ++ shown d v ∷ []) vs

abbrev pub indexes_of : Choices → String → Dict ℕ
indexes_of c i = unwrap_or (lookup i c.indexes) []

abbrev pub names_of : Choices → String → List String
names_of c i = unwrap_or (lookup i c.names) []

unfoldable pub index_definition : ParameterValueSet → Choices → ParameterDefinition → Choices
unfolding lookup insert index_values values_of
index_definition s c d =
    let added = index_values d (indexes_of c d.id) (names_of c d.id) (values_of s d.id) in
    record { indexes = insert d.id added.0 c.indexes; names = insert d.id added.1 c.names }

unfoldable pub index_definitions : ParameterValueSet → Choices → List ParameterDefinition → Choices
unfolding index_definition
index_definitions s c [] = c
index_definitions s c (d ∷ ds) = index_definitions s (index_definition s c d) ds

unfoldable pub index_value_sets :
    List ParameterDefinition → Choices → List ParameterValueSet → Choices
unfolding index_definitions
index_value_sets ds c [] = c
index_value_sets ds c (s ∷ sets) = index_value_sets ds (index_definitions s c ds) sets

unfoldable pub index_of : Indexes → String → String → Option ℕ
unfolding lookup
index_of indexes i value = elim (lookup i indexes) [ none ↦ none | some m ↦ lookup value m ]

-- The combinations so far, each with one more index.
abbrev pub extend : ℕ → List (List ℕ) → List (List ℕ)
extend index [] = []
extend index (c ∷ cs) = (c ++ index ∷ []) ∷ extend index cs

unfoldable pub extend_all : Indexes → String → List (List ℕ) → List String → List (List ℕ)
unfolding index_of
extend_all indexes i previous [] = []
extend_all indexes i previous (v ∷ vs) =
    let rest = extend_all indexes i previous vs in
    elim (index_of indexes i v) [ none ↦ rest | some index ↦ extend index previous ++ rest ]

unfoldable pub combine : Indexes → ParameterValueSet → List (List ℕ) → List String → List (List ℕ)
unfolding extend_all values_of
combine indexes s result [] = result
combine indexes s result (i ∷ is) =
    combine indexes s (extend_all indexes i result (values_of s i)) is

unfoldable pub combinations_of_value_set : List String → ParameterValueSet → Indexes → List (List ℕ)
unfolding combine
combinations_of_value_set is s indexes = combine indexes s ([] ∷ []) is

abbrev pub same_indexes : List ℕ → List ℕ → Bool
same_indexes [] [] = true
same_indexes (a ∷ xs) (b ∷ ys) = (a == b) && same_indexes xs ys
same_indexes _ _ = false

unfoldable pub has_combination : List (List ℕ) → List ℕ → Bool
has_combination [] c = false
has_combination (d ∷ ds) c = same_indexes d c || has_combination ds c

-- Each combination that is not there yet is pushed.
unfoldable pub push_new : List (List ℕ) → List (List ℕ) → List (List ℕ)
unfolding has_combination
push_new allowed [] = allowed
push_new allowed (c ∷ cs) =
    if has_combination allowed c then push_new allowed cs else push_new (allowed ++ c ∷ []) cs

unfoldable pub combinations_of :
    List String → Indexes → List (List ℕ) → List ParameterValueSet → List (List ℕ)
unfolding push_new combinations_of_value_set
combinations_of is indexes allowed [] = allowed
combinations_of is indexes allowed (s ∷ sets) =
    combinations_of is indexes (push_new allowed (combinations_of_value_set is s indexes)) sets

abbrev pub zeros : List ParameterDefinition → List ℕ
zeros [] = []
zeros (d ∷ ds) = 0 ∷ zeros ds

unfoldable pub previous_indexes :
    Indexes → ParameterValues → List ParameterDefinition → Option (List ℕ)
unfolding lookup index_of
previous_indexes indexes previous [] = some []
previous_indexes indexes previous (d ∷ ds) =
    elim (lookup d.id previous.backend_values) as (λ _. Option (List ℕ)) [
      | none ↦ none
      | some value ↦ elim (index_of indexes d.id value) [
        | none ↦ none
        | some index ↦ elim (previous_indexes indexes previous ds) [
          | none ↦ none
          | some rest ↦ some (index ∷ rest)
        ]
      ]
    ]

-- The values of the app the user ran before, when they are still allowed.
unfoldable pub previously_used :
    List ParameterDefinition → List (List ℕ) → Indexes → Option ParameterValues → Option (List ℕ)
unfolding previous_indexes has_combination
previously_used ds allowed indexes none = none
previously_used ds allowed indexes (some previous) = elim (previous_indexes indexes previous ds) [
  | none ↦ none
  | some result ↦ if has_combination allowed result then some result else none
]

unfoldable pub default_indexes : Indexes → List ParameterDefinition → Option (List ℕ)
unfolding index_of
default_indexes indexes [] = some []
default_indexes indexes (d ∷ ds) =
    elim (index_of indexes d.id (unwrap_or d.default_value "")) as (λ _. Option (List ℕ)) [
      | none ↦ none
      | some index ↦ elim (default_indexes indexes ds) [
        | none ↦ none
        | some rest ↦ some (index ∷ rest)
      ]
    ]

abbrev pub first_default : List ParameterDefinition → Option String
first_default [] = none
first_default (d ∷ ds) = d.default_value

unfoldable pub default_selection :
    List ParameterDefinition → List (List ℕ) → Indexes → Option ParameterValues → List ℕ
unfolding previously_used default_indexes has_combination
default_selection ds allowed indexes previous = elim (previously_used ds allowed indexes previous) [
  | some result ↦ result
  | none ↦ elim (first_default ds) [
    | none ↦ zeros ds
    | some _ ↦ elim (default_indexes indexes ds) [
      | none ↦ zeros ds
      | some result ↦ if has_combination allowed result then result else zeros ds
    ]
  ]
]

abbrev pub no_choices : Choices
no_choices = record { indexes = []; names = [] }

unfoldable pub allowed_parameters_for_user :
    Option Parameters → Option ParameterValues → Access → AllowedParametersForUser
unfolding accessible index_value_sets combinations_of default_selection
allowed_parameters_for_user none previous has_access = record {
  values = [];
  allowed_combinations = [];
  default_value = [];
}
allowed_parameters_for_user (some q) previous has_access =
    let sets = accessible has_access q.value_sets in
    let choices = index_value_sets q.definitions no_choices sets in
    let allowed = combinations_of (ids q) choices.indexes [] sets in
    record {
      values = choices.names;
      allowed_combinations = allowed;
      default_value = default_selection q.definitions allowed choices.indexes previous;
    }
