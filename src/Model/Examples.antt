-- ===== src/Model/Examples.antt =====
-- The values of a container that are written as labels and read back.
use shinyproxy_rust.Base.{String, ◌≡◌, refl, true, Option, some, [], ◌∷◌, arith, contains}
use shinyproxy_rust.Base.Dict.{lookup, keys}
use shinyproxy_rust.Base.Int.{negsuc}
use shinyproxy_rust.Model.RuntimeValues.{
  Json, null, RuntimeValueData, RuntimeValues, string_value, integer_value, boolean_value, get,
}
use shinyproxy_rust.Model.Keys.{
  proxy_id, max_lifetime, delegate_proxy, http_headers, backend_container_name,
}
use shinyproxy_rust.Model.Labels.{
  RuntimeValueRegistry, labels, new_name, name_json, parse_labels, by_label, has_required,
}
use shinyproxy_rust.Model.Labels.Texts.{a_str, an_integer, a_bool, a_json, a_name}
use shinyproxy_rust.Model.Labels.RoundTrip.{IsStored, labelled, parse_labels-labels}

abbrev registry : RuntimeValueRegistry
registry = proxy_id ∷ max_lifetime ∷ delegate_proxy ∷ http_headers ∷ backend_container_name ∷ []

abbrev print_json : Json → String
print_json = λ document. "null"

abbrev read_json : String → Option Json
read_json = λ text. some null

abbrev container_values : RuntimeValues
container_values = record {
  values_of =
      ("SHINYPROXY_PROXY_ID", string_value proxy_id "p-1")
      ∷ ("SHINYPROXY_MAX_LIFETIME", integer_value max_lifetime (negsuc 0))
      ∷ ("SHINYPROXY_DELEGATE_PROXY", boolean_value delegate_proxy true)
      ∷ (
        "SHINYPROXY_HTTP_HEADERS",
        record { key = http_headers; data_of = RuntimeValueData.json null },
      )
      ∷ (
        "SHINYPROXY_BACKEND_CONTAINER_NAME",
        record {
          key = backend_container_name;
          data_of = RuntimeValueData.json (name_json (new_name "apps/r"));
        },
      )
      ∷ [];
}

stored : IsStored print_json read_json registry container_values.values_of
unfolding contains keys by_label
stored = (
  refl,
  refl,
  a_str "p-1",
  refl,
  (
    refl,
    refl,
    an_integer (negsuc 0) (omega arith, omega arith),
    refl,
    (
      refl,
      refl,
      a_bool true,
      refl,
      (refl, refl, a_json null refl, refl, (refl, refl, a_name "apps/r", refl, tt)),
    ),
  ),
)

complete : has_required registry (record { values_of = labelled container_values.values_of }) ≡ true
unfolding has_required labelled get lookup
complete = refl

parse_labels-labels_example :
    parse_labels read_json registry (labels print_json container_values)
    ≡ some (record { values_of = labelled container_values.values_of })
parse_labels-labels_example =
    parse_labels-labels print_json read_json registry container_values stored complete
