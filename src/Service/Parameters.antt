-- ===== src/Service/Parameters.antt =====
-- crates/containerproxy/src/service/parameters.rs: the request of a user for parameter values.
-- `has_access` decides whether the user may use a value set.
pub mod Validation
pub mod Form
pub mod Accepted
pub mod Requests
pub mod Valid
pub mod Indexed
pub mod Combined
pub mod Offered
pub mod Selected
use shinyproxy_rust.Base.{
  String, Bool, not, Option, none, some, List, [], ◌∷◌, ◌==◌, if◌then◌else◌, is_some, length,
  contains, without,
}
use shinyproxy_rust.Base.Dict.{Dict, lookup, insert, contains_key, values}
use shinyproxy_rust.Base.Result.{err, ok, Result}
use shinyproxy_rust.Model.Parameters.{
  AccessControl, ParameterDefinition, ParameterValueSet, Parameters, ids, display_name_or_id,
  name_of_value, value_of_name, values_of,
}

pub record ParameterValues : Type 0 where
  pub backend_values : Dict String
  pub value_set_name : Option String

pub record ParameterName : Type 0 where
  pub display_name : String
  pub description : Option String
  pub value : Option String

pub data InvalidParameters : Type 0 where
  not_provided : InvalidParameters
  wrong_number : InvalidParameters
  missing_value : String → InvalidParameters
  not_allowed : InvalidParameters

abbrev pub Access : Type 0
Access = Option AccessControl → Bool

abbrev pub Accepted : Type 0
Accepted = List ParameterName × ParameterValues

-- The value of the backend for what the user provides: a name, or a value that has no name.
unfoldable pub backend_value : ParameterDefinition → String → Option String
backend_value d provided = elim (value_of_name d provided) [
  | some value ↦ some value
  | none ↦ if is_some (name_of_value d provided) then none else some provided
]

-- The loop of `convert_if_allowed`.
unfoldable pub convert_values :
    List ParameterDefinition → ParameterValueSet → Dict String → Dict String → Option (Dict String)
unfolding lookup contains insert values_of backend_value
convert_values [] s provided done = some done
convert_values (d ∷ ds) s provided done = elim (lookup d.id provided) [
  | none ↦ none
  | some given ↦ elim (backend_value d given) [
    | none ↦ none
    | some value ↦
        let rest = convert_values ds s provided (insert d.id value done) in
        if contains (values_of s d.id) value then rest else none
  ]
]

abbrev pub names_of : List ParameterDefinition → Dict String → List ParameterName
names_of [] provided = []
names_of (d ∷ ds) provided =
    (record {
      display_name = display_name_or_id d;
      description = d.description;
      value = lookup d.id provided;
    })
    ∷ names_of ds provided

unfoldable pub convert_if_allowed :
    List ParameterDefinition → ParameterValueSet → Dict String → Option Accepted
unfolding convert_values
convert_if_allowed ds s provided = elim (convert_values ds s provided []) [
  | none ↦ none
  | some values ↦
      some (names_of ds provided, record { backend_values = values; value_set_name = s.name })
]

-- The value sets in their order: the first that allows the values decides.
unfoldable pub first_allowed :
    Access → List ParameterDefinition → List ParameterValueSet → Dict String → Option Accepted
unfolding convert_if_allowed
first_allowed has_access ds [] provided = none
first_allowed has_access ds (s ∷ sets) provided =
    let rest = first_allowed has_access ds sets provided in
    if has_access s.access_control
    then elim (convert_if_allowed ds s provided) [ some r ↦ some r | none ↦ rest ]
    else rest

-- The first parameter without a value.
unfoldable pub missing : List String → Dict String → Option String
unfolding lookup
missing [] provided = none
missing (i ∷ is) provided = if contains_key i provided then missing is provided else some i

unfoldable pub parse_and_validate_request :
    Option Parameters → Option (Dict String) → Access → Result (Option Accepted) InvalidParameters
unfolding missing first_allowed
parse_and_validate_request none provided has_access = ok none
parse_and_validate_request (some q) none has_access = err not_provided
parse_and_validate_request (some q) (some provided) has_access =
    if not (length provided == length (ids q))
    then err wrong_number
    else elim (missing (ids q) provided) [
      | some i ↦ err (missing_value i)
      | none ↦ elim (first_allowed has_access q.definitions q.value_sets provided) [
        | some r ↦ ok (some r)
        | none ↦ err not_allowed
      ]
    ]
