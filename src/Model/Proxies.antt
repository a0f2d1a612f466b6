-- ===== src/Model/Proxies.antt =====
-- crates/containerproxy/src/model/proxy.rs: running proxies and their containers.
use shinyproxy_rust.Base.{
  String, ◌≡◌, refl, Bool, true, false, Option, none, some, List, [], ◌∷◌, arith, if◌then◌else◌,
  is_some, unwrap_or,
}
use shinyproxy_rust.Base.Dict.{Dict, lookup}
use shinyproxy_rust.Base.Int.{eq_ℤ, eq_ℤ_iff, ℤ, pos}
use shinyproxy_rust.Model.RuntimeValues
use shinyproxy_rust.Model.RuntimeValues.{
  RuntimeValues, RuntimeValue, RuntimeValueKey, Json, new_values, integer_value,
}
use shinyproxy_rust.Model.Keys.{container_index}

pub data ProxyStatus : Type 0 where
  new up stopping pausing paused resuming stopped : ProxyStatus

-- `==` on statuses.
abbrev pub status_eq : ProxyStatus → ProxyStatus → Bool
status_eq new new = true
status_eq up up = true
status_eq stopping stopping = true
status_eq pausing pausing = true
status_eq paused paused = true
status_eq resuming resuming = true
status_eq stopped stopped = true
status_eq _ _ = false

pub is_unavailable : ProxyStatus → Bool
is_unavailable stopping = true
is_unavailable stopped = true
is_unavailable pausing = true
is_unavailable paused = true
is_unavailable _ = false

pub as_str : ProxyStatus → String
as_str new = "New"
as_str up = "Up"
as_str stopping = "Stopping"
as_str pausing = "Pausing"
as_str paused = "Paused"
as_str resuming = "Resuming"
as_str stopped = "Stopped"

pub data ProxyStopReason : Type 0 where
  unknown by_user inactivity exceeded_max_lifetime crashed logout shutdown : ProxyStopReason

pub record Container : Type 0 where
  pub index : ℤ
  pub id : Option String
  pub runtime_values : RuntimeValues

abbrev pub new_container : ℤ → Container
new_container index = record { index = index; id = none; runtime_values = new_values }

unfoldable pub add_container_value : Container → RuntimeValue → Bool → Container
add_container_value c value override_existing = record c {
  runtime_values = RuntimeValues.add c.runtime_values value override_existing;
}

pub record Proxy : Type 0 where
  pub id : String
  pub status : ProxyStatus
  pub startup_timestamp : ℤ
  pub created_timestamp : ℤ
  pub user_id : Option String
  pub spec_id : Option String
  pub display_name : Option String
  pub containers : List Container
  pub target_id : Option String
  pub targets : Dict String
  pub runtime_values : RuntimeValues

abbrev pub new_proxy : String → ProxyStatus → Proxy
new_proxy id status = record {
  id = id;
  status = status;
  startup_timestamp = pos 0;
  created_timestamp = pos 0;
  user_id = none;
  spec_id = none;
  display_name = none;
  containers = [];
  target_id = some id;
  targets = [];
  runtime_values = new_values;
}

abbrev pub with_status : Proxy → ProxyStatus → Proxy
with_status p status = record p { status = status }

unfoldable pub target_id_of : Proxy → String
target_id_of p = unwrap_or p.target_id p.id

find_container : ℤ → List Container → Option Container
find_container index [] = none
find_container index (c ∷ cs) = if eq_ℤ c.index index then some c else find_container index cs

pub container : Proxy → ℤ → Option Container
unfolding find_container
container p index = find_container index p.containers

-- The container that `container_mut` pushes for a missing index.
unfoldable pub indexed_container : ℤ → Container
unfolding add_container_value
indexed_container index =
    add_container_value (new_container index) (integer_value container_index index) false

-- `container_mut(index)` and the writes through the reference that it returns: `change` is
-- applied to the container with the index, which is appended first when it is missing.
update_containers : ℤ → (Container → Container) → List Container → List Container
update_containers index change [] = change (indexed_container index) ∷ []
update_containers index change (c ∷ cs) =
    if eq_ℤ c.index index then change c ∷ cs else c ∷ update_containers index change cs

unfoldable pub container_mut : Proxy → ℤ → (Container → Container) → Proxy
unfolding update_containers
container_mut p index change = record p { containers = update_containers index change p.containers }

unfoldable pub add_runtime_value : Proxy → RuntimeValue → Bool → Proxy
add_runtime_value p value override_existing = record p {
  runtime_values = RuntimeValues.add p.runtime_values value override_existing;
}

first_value : (Json → String) → RuntimeValueKey → List Container → Option String
first_value print_json key [] = none
first_value print_json key (c ∷ cs) = RuntimeValues.value_string print_json c.runtime_values key

pub runtime_value : (Json → String) → Proxy → RuntimeValueKey → Option String
unfolding first_value
runtime_value print_json p key =
    if key.container_specific
    then first_value print_json key p.containers
    else RuntimeValues.value_string print_json p.runtime_values key

pub default_target : Proxy → Option String
default_target p = lookup "" p.targets

-- The container that was just updated is found under its index, if the update keeps indexes.
pub container-container_mut :
    (p : Proxy) (index : ℤ) (change : Container → Container)
    → ((c : Container) → c.index ≡ index → (change c).index ≡ index)
    → is_some (container (container_mut p index change) index) ≡ true
unfolding container container_mut find_container indexed_container
container-container_mut p index change keep = go p.containers
  where
    go :
        (cs : List Container)
        → is_some (find_container index (update_containers index change cs)) ≡ true
    go [] = ground (
      arith,
      keep (indexed_container index) refl,
      eq_ℤ_iff (change (indexed_container index)).index index,
    )
    go (c ∷ cs) =
        ground (arith, keep c, eq_ℤ_iff c.index index, eq_ℤ_iff (change c).index index, go cs)
