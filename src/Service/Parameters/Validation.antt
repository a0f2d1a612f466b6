-- ===== src/Service/Parameters/Validation.antt =====
-- crates/containerproxy/src/service/parameters.rs: `validate_spec`, the check of an app definition
-- when the server starts.
use shinyproxy_rust.Base.{
  is_empty, ℕ, ◌+◌, String, str_eq, Bool, true, false, not, ◌&&◌, ◌||◌, Option, none, some, List,
  [], ◌∷◌, ◌++◌, ◌==◌, if◌then◌else◌, is_some, unwrap_or, length, keep_if, contains,
}
use shinyproxy_rust.Base.Result.{err, and_then, ok, Result}
use shinyproxy_rust.Model.Parameters.{
  ParameterDefinition, ParameterValueSet, Parameters, ids, is_blank, contains_parameter, values_of,
}
use shinyproxy_rust.Spel.Conversions.{between}
use shinyproxy_rust.Spel.Lexer.{Characters, characters}
use shinyproxy_rust.Spel.Text.{find_text}
use Prim.Native.Char.{code}

pub data SpecError : Type 0 where
  no_definitions : SpecError
  no_value_sets : SpecError
  empty_id : SpecError
  duplicate_id : String → SpecError
  invalid_id : String → SpecError
  blank_display_name : String → SpecError
  blank_description : String → SpecError
  missing_defaults : SpecError
  missing_values : ℕ → String → SpecError
  duplicate_values : ℕ → String → SpecError
  more_values : ℕ → SpecError
  unknown_default : String → SpecError
  thymeleaf_template : List String → SpecError

abbrev pub Checked : Type 0
Checked = Result (Unit {0}) SpecError

unfoldable pub is_valid_character : ℕ → Bool
is_valid_character n =
    between b'0' b'9' n || between b'A' b'Z' n || between b'a' b'z' n || n == b'-' || n == b'_'

unfoldable pub all_valid : Characters → Bool
unfolding is_valid_character
all_valid [] = true
all_valid (c ∷ cs) = is_valid_character (code c) && all_valid cs

-- Latin letters, numbers, dash and underscore.
unfoldable pub is_valid_parameter_id : String → Bool
unfolding all_valid characters
is_valid_parameter_id id = all_valid (characters id)

abbrev pub blank_option : Option String → Bool
blank_option none = false
blank_option (some s) = is_blank s

-- The loop over the definitions; `seen` are the ids so far.
unfoldable pub validate_definitions : List String → List ParameterDefinition → Checked
unfolding contains is_valid_parameter_id is_blank
validate_definitions seen [] = ok tt
validate_definitions seen (d ∷ ds) =
    let rest = validate_definitions (d.id ∷ seen) ds in
    if str_eq d.id ""
    then err empty_id
    else if contains seen d.id
    then err (duplicate_id d.id)
    else if not (is_valid_parameter_id d.id)
    then err (invalid_id d.id)
    else if blank_option d.display_name
    then err (blank_display_name d.id)
    else if blank_option d.description
    then err (blank_description d.id)
    else rest

-- `collect::<BTreeSet<_>>()`
unfoldable pub unique : List String → List String
unfolding contains
unique [] = []
unique (x ∷ xs) = let rest = unique xs in if contains rest x then rest else x ∷ rest

-- The values of one value set, for each parameter.
unfoldable pub validate_values : ℕ → ParameterValueSet → List String → Checked
unfolding contains_parameter values_of unique
validate_values index s [] = ok tt
validate_values index s (i ∷ is) =
    let rest = validate_values index s is in
    if not (contains_parameter s i)
    then err (missing_values index i)
    else if not (length (values_of s i) == length (unique (values_of s i)))
    then err (duplicate_values index i)
    else rest

unfoldable pub validate_value_sets : ℕ → List String → List ParameterValueSet → Checked
unfolding validate_values and_then
validate_value_sets index is [] = ok tt
validate_value_sets index is (s ∷ sets) =
    let rest = validate_value_sets (index + 1) is sets in
    and_then (validate_values index s is)
      (λ _. if length s.values == length is then rest else err (more_values index))

unfoldable pub offers : List ParameterValueSet → String → String → Bool
unfolding contains values_of
offers [] i value = false
offers (s ∷ sets) i value = contains (values_of s i) value || offers sets i value

unfoldable pub validate_defaults : List ParameterValueSet → List ParameterDefinition → Checked
unfolding offers
validate_defaults sets [] = ok tt
validate_defaults sets (d ∷ ds) =
    let rest = validate_defaults sets ds in
    if offers sets d.id (unwrap_or d.default_value "") then rest else err (unknown_default d.id)

abbrev pub thymeleaf_constructs : List String
thymeleaf_constructs =
    "th:each" ∷ "th:text" ∷ "th:utext" ∷ "th:if" ∷ "th:unless" ∷ "th:with" ∷ "th:attr" ∷ "th:href"
    ∷ "th:src" ∷ "th:block" ∷ "th:object" ∷ "th:field" ∷ "th:classappend" ∷ "th:remove"
    ∷ "th:inline" ∷ []

unfoldable pub has_text : String → String → Bool
unfolding find_text characters
has_text template pattern = is_some (find_text (characters pattern) (characters template))

unfoldable pub validate_template : Option String → Checked
unfolding has_text keep_if
validate_template none = ok tt
validate_template (some template) =
    let found =
      keep_if (has_text template) thymeleaf_constructs
      ++ (if has_text template "${" then "${...}" ∷ [] else [])
      ++ (if has_text template "*{" then "*{...}" ∷ [] else []) in
    if is_empty found then ok tt else err (thymeleaf_template found)

abbrev pub has_default : List ParameterDefinition → Bool
has_default [] = false
has_default (d ∷ ds) = is_some d.default_value

unfoldable pub with_default : List ParameterDefinition → ℕ
unfolding keep_if
with_default ds = length (keep_if (λ d. is_some d.default_value) ds)

unfoldable pub validate_parameters : Parameters → Checked
unfolding and_then validate_definitions validate_value_sets validate_defaults validate_template
    with_default
validate_parameters q =
    if is_empty q.definitions
    then err no_definitions
    else if is_empty q.value_sets
    then err no_value_sets
    else and_then (validate_definitions [] q.definitions) (λ _.
      if not (with_default q.definitions == 0)
        && not (with_default q.definitions == length q.definitions)
      then err missing_defaults
      else and_then (validate_value_sets 0 (ids q) q.value_sets) (λ _.
        and_then
          (if has_default q.definitions
            then validate_defaults q.value_sets q.definitions
            else ok tt)
          (λ _. validate_template q.template)))

unfoldable pub validate_spec : Option Parameters → Checked
unfolding validate_parameters
validate_spec none = ok tt
validate_spec (some q) = validate_parameters q
