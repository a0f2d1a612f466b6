-- ===== src/Model/Parameters.antt =====
-- crates/containerproxy/src/model/spec.rs: access control and the parameters of an app definition.
use shinyproxy_rust.Base.{
  is_empty, String, str_eq, Bool, false, not, ◌&&◌, Option, none, some, List, [], ◌∷◌,
  if◌then◌else◌, unwrap_or,
}
use shinyproxy_rust.Base.Dict.{Dict, lookup, contains_key}
use shinyproxy_rust.Spel.Conversions.{trim}

-- A list that is written as one text holds that text.
pub record AccessControl : Type 0 where
  pub groups : List String
  pub users : List String
  pub expression : Option String
  pub strict_expression : Option String

unfoldable pub is_blank : String → Bool
is_blank s = str_eq (trim s) ""

unfoldable pub has_group_access : AccessControl → Bool
has_group_access a = not (is_empty a.groups)

unfoldable pub has_user_access : AccessControl → Bool
has_user_access a = not (is_empty a.users)

unfoldable pub has_expression_access : AccessControl → Bool
has_expression_access a = elim a.expression [ none ↦ false | some value ↦ not (is_blank value) ]

unfoldable pub has_strict_expression_access : AccessControl → Bool
has_strict_expression_access a = elim a.strict_expression [
  | none ↦ false
  | some value ↦ not (is_blank value)
]

-- Whether everyone has access.
unfoldable pub is_open : AccessControl → Bool
unfolding has_group_access has_user_access has_expression_access
is_open a = not (has_group_access a) && not (has_user_access a) && not (has_expression_access a)

-- The name that the user sees of a value that the backend gets.
pub record ParameterValueName : Type 0 where
  pub value : Option String
  pub name : Option String

pub record ParameterDefinition : Type 0 where
  pub id : String
  pub display_name : Option String
  pub description : Option String
  pub default_value : Option String
  pub value_names : List ParameterValueName

abbrev pub display_name_or_id : ParameterDefinition → String
display_name_or_id d = unwrap_or d.display_name d.id

abbrev pub is_text : String → Option String → Bool
is_text wanted none = false
is_text wanted (some s) = str_eq s wanted

unfoldable pub name_of_value_in : List ParameterValueName → String → Option String
name_of_value_in [] value = none
name_of_value_in (m ∷ ms) value =
    if is_text value m.value then m.name else name_of_value_in ms value

unfoldable pub value_of_name_in : List ParameterValueName → String → Option String
value_of_name_in [] name = none
value_of_name_in (m ∷ ms) name = if is_text name m.name then m.value else value_of_name_in ms name

-- The first mapping with the value decides, even if it has no name.
unfoldable pub name_of_value : ParameterDefinition → String → Option String
unfolding name_of_value_in
name_of_value d value = name_of_value_in d.value_names value

unfoldable pub value_of_name : ParameterDefinition → String → Option String
unfolding value_of_name_in
value_of_name d name = value_of_name_in d.value_names name

pub record ParameterValueSet : Type 0 where
  pub name : Option String
  pub access_control : Option AccessControl
  pub values : Dict (List String)

unfoldable pub contains_parameter : ParameterValueSet → String → Bool
unfolding lookup
contains_parameter s parameter_id = contains_key parameter_id s.values

unfoldable pub values_of : ParameterValueSet → String → List String
unfolding lookup
values_of s parameter_id = unwrap_or (lookup parameter_id s.values) []

pub record Parameters : Type 0 where
  pub definitions : List ParameterDefinition
  pub value_sets : List ParameterValueSet
  pub template : Option String

abbrev pub definition_ids : List ParameterDefinition → List String
definition_ids [] = []
definition_ids (d ∷ ds) = d.id ∷ definition_ids ds

-- Ids of the parameters, in definition order.
abbrev pub ids : Parameters → List String
ids q = definition_ids q.definitions
