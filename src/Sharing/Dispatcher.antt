-- ===== src/Sharing/Dispatcher.antt =====
-- crates/containerproxy/src/service/sharing/mod.rs: `ProxySharingDispatcher`. While a user waits,
-- the rest of the server runs: `tick n` turns the state before the n-th sleep into the state
-- after it.
pub mod Waiting
pub mod Leases
use shinyproxy_rust.Base.{
  ℕ, zero, suc, ◌+◌, ◌-◌, ◌/◌, max, String, true, Option, none, some, List, [], ◌∷◌, ◌++◌,
  if◌then◌else◌, is_some, length, contains, without,
}
use shinyproxy_rust.Base.Dict.{Dict, insert}
use shinyproxy_rust.Base.Int.{ℤ, pos, pos_part, ltb_ℤ}
use shinyproxy_rust.Base.Result.{Result, ok, err}
use shinyproxy_rust.Model.RuntimeValues.{
  RuntimeValueKey, RuntimeValues, RuntimeValue, Json, get, value_string, string_value,
}
use shinyproxy_rust.Model.Proxies.{
  Proxy, Container, add_runtime_value, container_mut, add_container_value,
}
use shinyproxy_rust.Model.Keys
use shinyproxy_rust.Sharing.Seats.{Seat, DelegateProxy}
use shinyproxy_rust.Sharing.SeatStore.{MemorySeatStore, claim_seat, release_seat, seat}
use shinyproxy_rust.Sharing.Delegates.{MemoryDelegateProxyStore, delegate_proxy}

-- Times are in milliseconds.
pub record Dispatcher : Type 0 where
  pub spec_id : String
  pub seats : MemorySeatStore
  pub delegates : MemoryDelegateProxyStore
  pub seat_wait_time : ℕ
  pub pending : List String

abbrev pub new_dispatcher : String → MemorySeatStore → MemoryDelegateProxyStore → ℕ → Dispatcher
new_dispatcher spec_id seats delegates seat_wait_time = record {
  spec_id = spec_id;
  seats = seats;
  delegates = delegates;
  seat_wait_time = seat_wait_time;
  pending = [];
}

abbrev pub default_seat_wait_time : ℕ
default_seat_wait_time = 300_000

abbrev pub seat_wait_step : ℕ
seat_wait_step = 3_000

unfoldable pub pending_count : Dispatcher → ℕ
pending_count d = length d.pending

unfoldable pub add_pending : Dispatcher → String → Dispatcher
add_pending d proxy_id =
    if contains d.pending proxy_id then d else record d { pending = d.pending ++ (proxy_id ∷ []) }

unfoldable pub remove_pending : Dispatcher → String → Dispatcher
remove_pending d proxy_id = record d { pending = without proxy_id d.pending }

-- `div_ceil`, and one attempt at least.
unfoldable pub iterations : ℕ → ℕ
iterations wait_time = max ((wait_time + seat_wait_step - 1) / seat_wait_step) 1

-- A claim of the dispatcher's store.
abbrev pub claim : Dispatcher → String → Dispatcher × Option Seat
claim d proxy_id =
    let (seats, claimed) = claim_seat d.seats proxy_id in (record d { seats = seats }, claimed)

-- The loop of `start_proxy`: sleep, then claim.
unfoldable pub wait_for_seat :
    (ℕ → Dispatcher → Dispatcher) → String → ℕ → ℕ → Dispatcher → Dispatcher × Option Seat
wait_for_seat tick proxy_id zero attempt d = (d, none)
wait_for_seat tick proxy_id (suc n) attempt d =
    let tried = claim (tick attempt d) proxy_id in
    let rest = wait_for_seat tick proxy_id n (suc attempt) tried.0 in
    if is_some tried.1 then tried else rest

-- The seat of a user, claimed at once or after waiting.
unfoldable pub obtain_seat :
    (ℕ → Dispatcher → Dispatcher) → Dispatcher → String → Dispatcher × Option Seat
unfolding wait_for_seat iterations add_pending
obtain_seat tick d proxy_id =
    let tried = claim d proxy_id in
    if is_some tried.1
    then tried
    else wait_for_seat tick proxy_id (iterations d.seat_wait_time) 0 (add_pending tried.0 proxy_id)

pub data StartError : Type 0 where
  no_seat : StartError
  delegate_disappeared : String → String → StartError

pub insert_all {ℓ} : {A : Type ℓ} → Dict A → Dict A → Dict A
insert_all [] targets = targets
insert_all (entry ∷ rest) targets = insert_all rest (insert entry.0 entry.1 targets)

unfoldable pub copy_value : RuntimeValues → RuntimeValueKey → Proxy → Proxy
copy_value source key p = elim (get source key) [
  | none ↦ p
  | some value ↦ add_runtime_value p value true
]

name_container : RuntimeValues → String → Container → Container
name_container source uuid c = elim (get source Keys.backend_container_name) [
  | none ↦ record c { id = some uuid }
  | some name ↦ add_container_value (record c { id = some uuid }) name true
]

unfoldable pub copy_container : List Container → String → Proxy → Proxy
unfolding name_container
copy_container [] uuid p = p
copy_container (c ∷ _) uuid p = container_mut p c.index (name_container c.runtime_values uuid)

-- The app of the user is the delegate proxy: same targets, same public path.
unfoldable pub point_at : DelegateProxy → Seat → String → Proxy → Proxy
unfolding copy_value copy_container insert_all
point_at delegate s uuid p =
    let targeted = record p {
      target_id = some delegate.proxy.id;
      targets = insert_all delegate.proxy.targets p.targets;
    } in
    let pathed = copy_value delegate.proxy.runtime_values Keys.public_path targeted in
    let named = add_runtime_value pathed (string_value Keys.target_id delegate.proxy.id) true in
    let seated = add_runtime_value named (string_value Keys.seat_id s.id) true in
    copy_container delegate.proxy.containers uuid seated

unfoldable pub start_proxy :
    (ℕ → Dispatcher → Dispatcher)
    → String
    → Dispatcher
    → Proxy
    → Dispatcher × Result Proxy StartError
unfolding obtain_seat remove_pending point_at
start_proxy tick uuid d proxy =
    let obtained = obtain_seat tick d proxy.id in
    let left = remove_pending obtained.0 proxy.id in
    elim obtained.1 [
      | none ↦ (left, err no_seat)
      | some s ↦ elim (delegate_proxy left.delegates s.delegate_proxy_id) [
        | none ↦ (
          record left { seats = release_seat left.seats s.id },
          err (delegate_disappeared s.delegate_proxy_id s.id),
        )
        | some delegate ↦ (left, ok (point_at delegate s uuid proxy))
      ]
    ]

-- The seat that was released, for the scaler.
unfoldable pub stop_proxy : (Json → String) → Dispatcher → Proxy → Dispatcher × Option Seat
unfolding remove_pending
stop_proxy print_json d proxy =
    let left = remove_pending d proxy.id in
    elim (value_string print_json proxy.runtime_values Keys.seat_id) [
      | none ↦ (left, none)
      | some seat_id ↦
          let seats = release_seat left.seats seat_id in
          (record left { seats = seats }, seat seats seat_id)
    ]

pub data WaitTimeError : Type 0 where
  too_short : WaitTimeError

unfoldable pub seat_wait_time_of : Option ℤ → Result ℕ WaitTimeError
seat_wait_time_of none = ok default_seat_wait_time
seat_wait_time_of (some value) =
    if ltb_ℤ value (pos 3000) then err too_short else ok (pos_part value)
