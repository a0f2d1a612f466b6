-- ===== src/Model/Labels.antt =====
-- crates/containerproxy/src/model/runtime_value.rs: runtime values as labels and environment variables
-- of containers, and the registry that reads labels back. `print_json` and `read_json` are
-- `serde_json::to_string` and `from_str`.
pub mod Numbers
pub mod Texts
pub mod RoundTrip
use shinyproxy_rust.Base.{
  concat, ◌/◌, String, str_eq, Bool, true, not, ◌&&◌, ◌||◌, Option, none, some, List, [], ◌∷◌, map,
  ◌==◌, if◌then◌else◌, is_none,
}
use shinyproxy_rust.Base.Dict.{Dict, lookup, insert, keys, values}
use shinyproxy_rust.Base.Result.{Result, ok, err}
use shinyproxy_rust.Model.RuntimeValues.{
  ValueKind, RuntimeValueKey, Json, string, number, object, field, no_fields, RuntimeValueData,
  RuntimeValue, RuntimeValues, new_values, add, get, print_int, to_value_string, iter,
}
use shinyproxy_rust.Spel.Lexer.{Characters, characters}
use shinyproxy_rust.Spel.Conversions.{trim, parse_int, eq_ignore_ascii_case}
use text.Mathlib.TextBridge.{of_list}
use Prim.Native.Char.{code}

pub record BackendContainerName : Type 0 where
  pub value : String
  pub name : String
  pub namespace : String

-- `split_once('/')`
unfoldable pub split_once : Characters → Option (Characters × Characters)
split_once [] = none
split_once (c ∷ cs) =
    let later = elim (split_once cs) as (λ _. Option (Characters × Characters)) [
      | none ↦ none
      | some (before, after) ↦ some (c ∷ before, after)
    ] in
    if code c == b'/' then some ([], cs) else later

unfoldable pub new_name : String → BackendContainerName
unfolding split_once characters
new_name value = elim (split_once (characters value)) [
  | some (namespace, name) ↦ record {
    value = value;
    name = of_list name;
    namespace = of_list namespace;
  }
  | none ↦ record { value = value; name = value; namespace = "default" }
]

unfoldable pub namespaced : String → String → BackendContainerName
namespaced namespace name = record {
  value = concat namespace (concat "/" name);
  name = name;
  namespace = namespace;
}

-- `serde_json::to_value`
abbrev pub name_json : BackendContainerName → Json
name_json n = object (
    field "name" (string n.name)
      (field "namespace" (string n.namespace) (field "value" (string n.value) no_fields)))

pub data RuntimeValueError : Type 0 where
  invalid_value : String → String → RuntimeValueError

unfoldable pub parse :
    (String → Option Json) → RuntimeValueKey → String → Result RuntimeValueData RuntimeValueError
unfolding parse_int trim characters eq_ignore_ascii_case new_name
parse read_json key raw = elim key.kind [
  | ValueKind.str ↦ ok (RuntimeValueData.str raw)
  | ValueKind.integer ↦ elim (parse_int (characters (trim raw))) [
    | none ↦ err (invalid_value key.env_var raw)
    | some z ↦ ok (RuntimeValueData.int z)
  ]
  | ValueKind.bool ↦ ok (RuntimeValueData.bool (eq_ignore_ascii_case (trim raw) "true"))
  | ValueKind.json ↦ elim (read_json raw) [
    | none ↦ err (invalid_value key.env_var raw)
    | some document ↦ ok (RuntimeValueData.json document)
  ]
  | ValueKind.backend_container_name ↦ ok (RuntimeValueData.json (name_json (new_name raw)))
]

abbrev pub to_json : RuntimeValueData → Json
to_json (RuntimeValueData.str value) = string value
to_json (RuntimeValueData.int value) = number (print_int value)
to_json (RuntimeValueData.bool value) = Json.bool value
to_json (RuntimeValueData.json value) = value

abbrev pub as_label : RuntimeValueKey → Bool
as_label key = key.include_as_label || key.include_as_annotation

-- The values that pass a test, as a map.
unfoldable pub collect {ℓ} :
    {A : Type ℓ}
    → (RuntimeValueKey → Bool)
    → (RuntimeValue → String)
    → (RuntimeValue → A)
    → Dict A
    → List RuntimeValue
    → Dict A
unfolding insert
collect wanted name text done [] = done
collect wanted name text done (v ∷ vs) =
    collect wanted name text (if wanted v.key then insert (name v) (text v) done else done) vs

unfoldable pub labels : (Json → String) → RuntimeValues → Dict String
unfolding collect to_value_string
labels print_json rs = collect as_label (λ v. v.key.label) (to_value_string print_json) [] (iter rs)

unfoldable pub environment : (Json → String) → RuntimeValues → Dict String
unfolding collect to_value_string
environment print_json rs =
    collect (λ key. key.include_as_env) (λ v. v.key.env_var) (to_value_string print_json) []
      (iter rs)

unfoldable pub internal_json : (Json → String) → RuntimeValues → Dict String
unfolding collect to_value_string
internal_json print_json rs =
    collect (λ key. true) (λ v. v.key.env_var) (to_value_string print_json) [] (iter rs)

unfoldable pub api_json : RuntimeValues → Dict Json
unfolding collect
api_json rs =
    collect (λ key. key.include_in_api) (λ v. v.key.env_var) (λ v. to_json v.data_of) [] (iter rs)

-- The keys of a registry, in their order.
abbrev pub RuntimeValueRegistry : Type 0
RuntimeValueRegistry = List RuntimeValueKey

unfoldable pub by_env_var : RuntimeValueRegistry → String → Option RuntimeValueKey
by_env_var [] env_var = none
by_env_var (k ∷ ks) env_var = if str_eq k.env_var env_var then some k else by_env_var ks env_var

unfoldable pub by_label : RuntimeValueRegistry → String → Option RuntimeValueKey
by_label [] label = none
by_label (k ∷ ks) label = if str_eq k.label label then some k else by_label ks label

-- The loop over the labels; `none` is a label that cannot be read.
unfoldable pub parse_each :
    (String → Option Json)
    → RuntimeValueRegistry
    → RuntimeValues
    → Dict String
    → Option RuntimeValues
unfolding by_label parse
parse_each read_json ks rs [] = some rs
parse_each read_json ks rs ((label, raw) ∷ rest) = elim (by_label ks label) [
  | none ↦ parse_each read_json ks rs rest
  | some key ↦ elim (parse read_json key raw) [
    | err e ↦ none
    | ok value ↦ parse_each read_json ks (add rs (record { key = key; data_of = value }) true) rest
  ]
]

unfoldable pub has_required : RuntimeValueRegistry → RuntimeValues → Bool
unfolding get
has_required [] rs = true
has_required (k ∷ ks) rs =
    not (as_label k && k.required && is_none (get rs k)) && has_required ks rs

unfoldable pub parse_labels :
    (String → Option Json) → RuntimeValueRegistry → Dict String → Option RuntimeValues
unfolding parse_each has_required
parse_labels read_json ks labels = elim (parse_each read_json ks new_values labels) [
  | none ↦ none
  | some rs ↦ if has_required ks rs then some rs else none
]

-- Where a key is stored: among the labels, or among the annotations.
unfoldable pub raw_of : RuntimeValueKey → Dict String → Dict String → Option String
unfolding lookup
raw_of key labels annotations =
    if key.include_as_label
    then lookup key.label labels
    else if key.include_as_annotation
    then lookup key.label annotations
    else none

unfoldable pub parse_keys :
    (String → Option Json)
    → RuntimeValueRegistry
    → RuntimeValues
    → Dict String
    → Dict String
    → Option RuntimeValues
unfolding raw_of parse
parse_keys read_json [] rs labels annotations = some rs
parse_keys read_json (k ∷ ks) rs labels annotations = elim (raw_of k labels annotations) [
  | some raw ↦ elim (parse read_json k raw) [
    | err e ↦ none
    | ok value ↦
        parse_keys read_json ks (add rs (record { key = k; data_of = value }) true) labels
          annotations
  ]
  | none ↦
      let rest = parse_keys read_json ks rs labels annotations in
      if k.required && as_label k then none else rest
]

-- The labels and annotations of a pod, collected into maps.
unfoldable pub parse_labels_and_annotations :
    (String → Option Json) → RuntimeValueRegistry → Dict String → Dict String → Option RuntimeValues
unfolding parse_keys
parse_labels_and_annotations read_json ks labels annotations =
    parse_keys read_json ks new_values labels annotations
