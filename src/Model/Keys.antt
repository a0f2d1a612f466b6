-- ===== src/Model/Keys.antt =====
-- crates/containerproxy/src/model/runtime_value.rs: the runtime value keys of the engine.
use shinyproxy_rust.Base.{true, false, List, [], ◌∷◌}
use shinyproxy_rust.Model.RuntimeValues.{RuntimeValueKey, ValueKind}

abbrev pub proxy_id : RuntimeValueKey
proxy_id = record {
  label = "openanalytics.eu/sp-proxy-id";
  env_var = "SHINYPROXY_PROXY_ID";
  include_as_label = false;
  include_as_annotation = true;
  include_as_env = false;
  include_in_api = false;
  required = true;
  container_specific = false;
  kind = ValueKind.str;
}

abbrev pub proxy_spec_id : RuntimeValueKey
proxy_spec_id = record {
  label = "openanalytics.eu/sp-spec-id";
  env_var = "SHINYPROXY_SPEC_ID";
  include_as_label = false;
  include_as_annotation = true;
  include_as_env = false;
  include_in_api = false;
  required = true;
  container_specific = false;
  kind = ValueKind.str;
}

abbrev pub instance_id : RuntimeValueKey
instance_id = record {
  label = "openanalytics.eu/sp-instance";
  env_var = "SHINYPROXY_INSTANCE";
  include_as_label = true;
  include_as_annotation = false;
  include_as_env = false;
  include_in_api = true;
  required = true;
  container_specific = false;
  kind = ValueKind.str;
}

abbrev pub realm_id : RuntimeValueKey
realm_id = record {
  label = "openanalytics.eu/sp-realm-id";
  env_var = "SHINYPROXY_REALM_ID";
  include_as_label = false;
  include_as_annotation = true;
  include_as_env = true;
  include_in_api = false;
  required = false;
  container_specific = false;
  kind = ValueKind.str;
}

abbrev pub user_id : RuntimeValueKey
user_id = record {
  label = "openanalytics.eu/sp-user-id";
  env_var = "SHINYPROXY_USERNAME";
  include_as_label = false;
  include_as_annotation = true;
  include_as_env = true;
  include_in_api = false;
  required = true;
  container_specific = false;
  kind = ValueKind.str;
}

abbrev pub user_groups : RuntimeValueKey
user_groups = record {
  label = "openanalytics.eu/sp-user-groups";
  env_var = "SHINYPROXY_USERGROUPS";
  include_as_label = false;
  include_as_annotation = true;
  include_as_env = true;
  include_in_api = false;
  required = true;
  container_specific = false;
  kind = ValueKind.str;
}

abbrev pub display_name : RuntimeValueKey
display_name = record {
  label = "openanalytics.eu/sp-display-name";
  env_var = "SHINYPROXY_DISPLAY_NAME";
  include_as_label = false;
  include_as_annotation = true;
  include_as_env = false;
  include_in_api = true;
  required = true;
  container_specific = false;
  kind = ValueKind.str;
}

abbrev pub created_timestamp : RuntimeValueKey
created_timestamp = record {
  label = "openanalytics.eu/sp-proxy-created-timestamp";
  env_var = "SHINYPROXY_CREATED_TIMESTAMP";
  include_as_label = false;
  include_as_annotation = true;
  include_as_env = false;
  include_in_api = true;
  required = true;
  container_specific = false;
  kind = ValueKind.str;
}

abbrev pub proxied_app : RuntimeValueKey
proxied_app = record {
  label = "openanalytics.eu/sp-proxied-app";
  env_var = "SHINYPROXY_PROXIED_APP";
  include_as_label = true;
  include_as_annotation = false;
  include_as_env = false;
  include_in_api = false;
  required = true;
  container_specific = false;
  kind = ValueKind.str;
}

abbrev pub public_path : RuntimeValueKey
public_path = record {
  label = "openanalytics.eu/sp-public-path";
  env_var = "SHINYPROXY_PUBLIC_PATH";
  include_as_label = false;
  include_as_annotation = true;
  include_as_env = true;
  include_in_api = true;
  required = true;
  container_specific = false;
  kind = ValueKind.str;
}

abbrev pub target_id : RuntimeValueKey
target_id = record {
  label = "openanalytics.eu/sp-target-id";
  env_var = "SHINYPROXY_TARGET_ID";
  include_as_label = false;
  include_as_annotation = true;
  include_as_env = false;
  include_in_api = false;
  required = true;
  container_specific = false;
  kind = ValueKind.str;
}

abbrev pub heartbeat_timeout : RuntimeValueKey
heartbeat_timeout = record {
  label = "openanalytics.eu/sp-heartbeat-timeout";
  env_var = "SHINYPROXY_HEARTBEAT_TIMEOUT";
  include_as_label = false;
  include_as_annotation = true;
  include_as_env = false;
  include_in_api = true;
  required = true;
  container_specific = false;
  kind = ValueKind.integer;
}

abbrev pub max_lifetime : RuntimeValueKey
max_lifetime = record {
  label = "openanalytics.eu/sp-max-lifetime";
  env_var = "SHINYPROXY_MAX_LIFETIME";
  include_as_label = false;
  include_as_annotation = true;
  include_as_env = false;
  include_in_api = true;
  required = true;
  container_specific = false;
  kind = ValueKind.integer;
}

abbrev pub cache_headers_mode : RuntimeValueKey
cache_headers_mode = record {
  label = "openanalytics.eu/sp-cache-headers-mode";
  env_var = "SHINYPROXY_CACHE_HEADERS_MODE";
  include_as_label = false;
  include_as_annotation = true;
  include_as_env = false;
  include_in_api = false;
  required = true;
  container_specific = false;
  kind = ValueKind.str;
}

abbrev pub http_headers : RuntimeValueKey
http_headers = record {
  label = "openanalytics.eu/sp-http-headers";
  env_var = "SHINYPROXY_HTTP_HEADERS";
  include_as_label = false;
  include_as_annotation = true;
  include_as_env = false;
  include_in_api = false;
  required = false;
  container_specific = false;
  kind = ValueKind.json;
}

abbrev pub parameter_names : RuntimeValueKey
parameter_names = record {
  label = "openanalytics.eu/sp-parameters-names";
  env_var = "SHINYPROXY_PARAMETER_NAMES";
  include_as_label = false;
  include_as_annotation = true;
  include_as_env = false;
  include_in_api = true;
  required = false;
  container_specific = false;
  kind = ValueKind.json;
}

abbrev pub parameter_values : RuntimeValueKey
parameter_values = record {
  label = "openanalytics.eu/sp-parameters";
  env_var = "SHINYPROXY_PARAMETERS";
  include_as_label = false;
  include_as_annotation = true;
  include_as_env = false;
  include_in_api = false;
  required = false;
  container_specific = false;
  kind = ValueKind.json;
}

abbrev pub container_index : RuntimeValueKey
container_index = record {
  label = "openanalytics.eu/sp-container-index";
  env_var = "SHINYPROXY_CONTAINER_INDEX";
  include_as_label = false;
  include_as_annotation = true;
  include_as_env = false;
  include_in_api = true;
  required = true;
  container_specific = true;
  kind = ValueKind.integer;
}

abbrev pub container_image : RuntimeValueKey
container_image = record {
  label = "openanalytics.eu/sp-container-image";
  env_var = "SHINYPROXY_CONTAINER_IMAGE";
  include_as_label = false;
  include_as_annotation = false;
  include_as_env = false;
  include_in_api = false;
  required = false;
  container_specific = true;
  kind = ValueKind.str;
}

abbrev pub port_mappings : RuntimeValueKey
port_mappings = record {
  label = "openanalytics.eu/sp-port-mappings";
  env_var = "SHINYPROXY_PORT_MAPPINGS";
  include_as_label = false;
  include_as_annotation = true;
  include_as_env = false;
  include_in_api = false;
  required = true;
  container_specific = true;
  kind = ValueKind.json;
}

abbrev pub backend_container_name : RuntimeValueKey
backend_container_name = record {
  label = "openanalytics.eu/sp-backend-container-name";
  env_var = "SHINYPROXY_BACKEND_CONTAINER_NAME";
  include_as_label = false;
  include_as_annotation = false;
  include_as_env = false;
  include_in_api = false;
  required = false;
  container_specific = true;
  kind = ValueKind.backend_container_name;
}

abbrev pub seat_id : RuntimeValueKey
seat_id = record {
  label = "openanalytics.eu/sp-seat-id";
  env_var = "SHINYPROXY_SEAT_ID";
  include_as_label = false;
  include_as_annotation = true;
  include_as_env = false;
  include_in_api = false;
  required = false;
  container_specific = false;
  kind = ValueKind.str;
}

abbrev pub delegate_proxy : RuntimeValueKey
delegate_proxy = record {
  label = "openanalytics.eu/sp-delegate-proxy";
  env_var = "SHINYPROXY_DELEGATE_PROXY";
  include_as_label = true;
  include_as_annotation = false;
  include_as_env = false;
  include_in_api = false;
  required = false;
  container_specific = false;
  kind = ValueKind.bool;
}

abbrev pub engine_keys : List RuntimeValueKey
engine_keys =
    proxy_id ∷ proxy_spec_id ∷ instance_id ∷ realm_id ∷ user_id ∷ user_groups ∷ display_name
    ∷ created_timestamp ∷ proxied_app ∷ public_path ∷ target_id ∷ heartbeat_timeout ∷ max_lifetime
    ∷ cache_headers_mode ∷ http_headers ∷ parameter_names ∷ parameter_values ∷ container_index
    ∷ container_image ∷ port_mappings ∷ backend_container_name ∷ seat_id ∷ delegate_proxy ∷ []
