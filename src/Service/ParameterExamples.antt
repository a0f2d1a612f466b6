-- ===== src/Service/ParameterExamples.antt =====
-- An app with an environment and an amount of memory to choose, as in the tests of
-- crates/containerproxy/src/service/parameters.rs.
use shinyproxy_rust.Base.{
  String, str_eq_iff, ◌≡◌, refl, ◌⊎◌, true, none, some, [], ◌∷◌, arith, keep_if, contains,
  AllDistinct,
}
use shinyproxy_rust.Base.Dict.{Dict, lookup, insert}
use shinyproxy_rust.Spel.Conversions.{trim}
use shinyproxy_rust.Spel.Lexer.{characters}
use shinyproxy_rust.Base.Result.{and_then, ok}
use shinyproxy_rust.Model.Parameters.{
  AccessControl, ParameterDefinition, ParameterValueSet, Parameters, ids, is_open, has_group_access,
  is_blank, name_of_value, name_of_value_in, value_of_name, value_of_name_in, values_of,
  contains_parameter,
}
use shinyproxy_rust.Service.Parameters.{Access, parse_and_validate_request}
use shinyproxy_rust.Service.Parameters.Requests.{Judged, parse_and_validate_request_lem}
use shinyproxy_rust.Service.Parameters.Validation.{
  offers, validate_defaults, validate_spec, validate_parameters, validate_definitions,
  validate_value_sets, validate_values, validate_template, with_default, unique,
  is_valid_parameter_id, all_valid, is_valid_character,
}
use shinyproxy_rust.Service.Parameters.Valid.{IsValid, validate_spec-ok}
use shinyproxy_rust.Service.Parameters.Form.{
  allowed_parameters_for_user, accessible, index_value_sets, index_definitions, index_definition,
  index_values, index_of, combinations_of, combinations_of_value_set, combine, extend_all, push_new,
  has_combination, zeros,
}
use shinyproxy_rust.Service.Parameters.Offered.{Unambiguous, IsAccepted, offered-IsAccepted}
use shinyproxy_rust.Service.Parameters.Selected.{default_value-IsAccepted}
use mathlib.Core.List.{Memᴰ}
use mathlib.Core.List.Memᴰ.{head, tail}

abbrev environment : ParameterDefinition
environment = record {
  id = "environment";
  display_name = some "Environment";
  description = none;
  default_value = some "base_r";
  value_names =
      (record { value = some "base_r"; name = some "Base R" })
      ∷ (record { value = some "breeding_r"; name = some "Breeding R" })
      ∷ [];
}

abbrev memory : ParameterDefinition
memory = record {
  id = "memory";
  display_name = none;
  description = none;
  default_value = some "4G";
  value_names = [];
}

abbrev first_set : ParameterValueSet
first_set = record {
  name = some "the-first-value-set";
  access_control = none;
  values = ("environment", "base_r" ∷ []) ∷ ("memory", "2G" ∷ "4G" ∷ []) ∷ [];
}

abbrev breeders : AccessControl
breeders = record {
  groups = "breeding" ∷ [];
  users = [];
  expression = none;
  strict_expression = none;
}

abbrev breeding_set : ParameterValueSet
breeding_set = record {
  name = none;
  access_control = some breeders;
  values = ("environment", "breeding_r" ∷ []) ∷ ("memory", "8G" ∷ []) ∷ [];
}

abbrev parameters : Parameters
parameters = record {
  definitions = environment ∷ memory ∷ [];
  value_sets = first_set ∷ breeding_set ∷ [];
  template = none;
}

abbrev only_open : Access
only_open = λ access. elim access [ none ↦ true | some a ↦ is_open a ]

valid : validate_spec (some parameters) ≡ ok tt
unfolding validate_spec validate_parameters validate_definitions validate_value_sets validate_values
    validate_template with_default unique is_valid_parameter_id all_valid is_valid_character
    is_blank contains_parameter values_of contains lookup keep_if and_then characters trim
    validate_defaults offers
valid = refl

validate_spec-ok_example : IsValid parameters
validate_spec-ok_example = validate_spec-ok parameters valid

distinct : AllDistinct (ids parameters)
unfolding contains
distinct = (refl, (refl, tt))

abbrev provided : Dict String
provided = ("environment", "Base R") ∷ ("memory", "4G") ∷ []

parse_and_validate_request_lem_example :
    Judged parameters provided only_open
      (parse_and_validate_request (some parameters) (some provided) only_open)
parse_and_validate_request_lem_example =
    parse_and_validate_request_lem parameters provided only_open distinct

one_of : (a b value : String) → contains (a ∷ b ∷ []) value ≡ true → (value ≡ a) ⊎ (value ≡ b)
unfolding contains
one_of a b value h = ground (arith, str_eq_iff a value, str_eq_iff b value)

the_one : (a value : String) → contains (a ∷ []) value ≡ true → value ≡ a
unfolding contains
the_one a value h = ground (arith, str_eq_iff a value)

clear : Unambiguous parameters
unfolding value_of_name value_of_name_in name_of_value name_of_value_in values_of lookup contains
clear s (head p) d (head q) = rw (p, q) (λ value h. rw (the_one "base_r" value h) refl)
clear s (head p) d (tail (head q)) = rw (p, q) (λ value h. refl)
clear s (tail (head p)) d (head q) = rw (p, q) (λ value h. rw (the_one "breeding_r" value h) refl)
clear s (tail (head p)) d (tail (head q)) = rw (p, q) (λ value h. refl)
clear s (tail (tail m)) d n = elim m [ ]
clear s (head p) d (tail (tail n)) = elim n [ ]
clear s (tail (head p)) d (tail (tail n)) = elim n [ ]

offered :
    let form = allowed_parameters_for_user (some parameters) none only_open in
    Memᴰ (1 ∷ 2 ∷ []) form.allowed_combinations
unfolding allowed_parameters_for_user accessible index_value_sets index_definitions index_definition
    index_values index_of combinations_of combinations_of_value_set combine extend_all push_new
    has_combination values_of lookup insert keep_if is_open has_group_access
offered = tail (head refl)

offered-IsAccepted_example :
    let form = allowed_parameters_for_user (some parameters) none only_open in
    IsAccepted parameters only_open form (1 ∷ 2 ∷ [])
offered-IsAccepted_example =
    offered-IsAccepted parameters none only_open valid clear (1 ∷ 2 ∷ []) offered

default_value-IsAccepted_example :
    let form = allowed_parameters_for_user (some parameters) none only_open in
    (form.default_value ≡ zeros parameters.definitions)
    ⊎ IsAccepted parameters only_open form form.default_value
default_value-IsAccepted_example = default_value-IsAccepted parameters none only_open valid clear
