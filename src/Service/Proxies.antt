-- ===== src/Service/Proxies.antt =====
-- crates/containerproxy/src/service/proxy_service.rs: `ProxyService`, over the memory stores. What the
-- backend and the clock answer are arguments; `stops` lists the proxies that the backend was asked
-- to stop and `events` the published events, both the latest first.
pub mod Lifecycle
pub mod Capacity
pub mod Pausing
use shinyproxy_rust.Base.{
  ℕ, String, str_eq, Bool, true, false, not, ◌&&◌, Option, none, some, List, [], ◌∷◌, if◌then◌else◌,
  length, keep_if, without,
}
use shinyproxy_rust.Base.Dict.{Dict, lookup, insert}
use shinyproxy_rust.Base.Int.{ℤ, pos, negsuc, ◌-ℤ◌, ltb_ℤ}
use shinyproxy_rust.Base.Result.{Result, ok, err}
use shinyproxy_rust.Model.RuntimeValues.{RuntimeValue, Json, string_value}
use shinyproxy_rust.Model.Keys
use shinyproxy_rust.Model.Proxies.{
  Proxy, ProxyStatus, ProxyStopReason, new_proxy, with_status, add_runtime_value, new, up,
  status_eq,
}
use shinyproxy_rust.Model.Proxies
use shinyproxy_rust.Sharing.Seats.{Seat}
use shinyproxy_rust.Sharing.Dispatcher.{Dispatcher}
use shinyproxy_rust.Sharing.Dispatcher
use shinyproxy_rust.Service.Stores.{
  MemoryProxyStore, MemoryHeartbeatStore, add_proxy, update_proxy, remove_proxy, proxy, all_proxies,
  user_proxies, update_heartbeat, remove_heartbeat,
}

pub data Event : Type 0 where
  proxy_started proxy_paused proxy_resumed proxy_start_failed : Proxy → Event
  proxy_stopped : Proxy → ProxyStopReason → Event
  seat_released : String → String → String → Bool → Event

pub data StartError : Type 0 where
  no_capacity pause_unsupported timeout backend_error not_resolved not_found : StartError

pub record ProxyService : Type 0 where
  pub max_total_instances : ℤ
  pub stop_proxies_on_shutdown : Bool
  pub store : MemoryProxyStore
  pub heartbeats : MemoryHeartbeatStore
  pub actions_in_progress : List String
  pub last_stop : Option ℤ
  pub sharing : Dict Dispatcher
  pub shutting_down : Bool
  pub stops : List String
  pub events : List Event

unfoldable pub register_sharing : ProxyService → String → Dispatcher → ProxyService
register_sharing s spec_id dispatcher = record s { sharing = insert spec_id dispatcher s.sharing }

unfoldable pub sharing_dispatcher : ProxyService → String → Option Dispatcher
sharing_dispatcher s spec_id = lookup spec_id s.sharing

unfoldable pub all_up_proxies : ProxyService → List Proxy
all_up_proxies s = keep_if (λ p. status_eq p.status up) (all_proxies s.store)

abbrev pub has_spec : String → Proxy → Bool
has_spec id p = elim p.spec_id [ none ↦ false | some found ↦ str_eq found id ]

unfoldable pub user_proxies_by_spec : ProxyService → String → String → List Proxy
user_proxies_by_spec s user_id spec_id = keep_if (has_spec spec_id) (user_proxies s.store user_id)

unfoldable pub is_busy : ProxyService → ℤ → Bool
is_busy s now = elim s.actions_in_progress [
  | _ ∷ _ ↦ true
  | [] ↦ elim s.last_stop [ none ↦ false | some at ↦ not (ltb_ℤ (pos 60_000) (now -ℤ at)) ]
]

-- An action of a proxy begins, and ends.
abbrev begin_action : ProxyService → String → ProxyService
begin_action s id = record s { actions_in_progress = id ∷ without id s.actions_in_progress }

unfoldable pub finish_action : ProxyService → String → ℤ → ProxyService
finish_action s proxy_id now = record s {
  actions_in_progress = without proxy_id s.actions_in_progress;
  last_stop = some now;
}

-- The number of proxies, and of those of an app definition.
abbrev pub count : ProxyService → ℕ
count s = length (all_proxies s.store)

abbrev pub count_by_spec : ProxyService → String → ℕ
count_by_spec s spec_id = length (keep_if (has_spec spec_id) (all_proxies s.store))

unfoldable pub full : ℤ → ℕ → Bool
full maximum used = ltb_ℤ (negsuc 0) maximum && not (ltb_ℤ (pos used) maximum)

-- The capacity of the server, and of the app definition.
unfoldable pub validate_capacity : ProxyService → String → ℤ → Bool
unfolding full
validate_capacity s spec_id spec_maximum =
    if full s.max_total_instances (count s)
    then false
    else not (full spec_maximum (count_by_spec s spec_id))

add_given : Proxy → List RuntimeValue → Proxy
add_given p [] = p
add_given p (v ∷ vs) = add_given (add_runtime_value p v false) vs

-- The proxy that `create_proxy` registers.
unfoldable pub created : String → String → String → String → List RuntimeValue → ℤ → Proxy
unfolding add_given
created proxy_id user_id spec_id display_name values_given now =
    add_given
      (add_runtime_value
        (record (new_proxy proxy_id new) {
          user_id = some user_id;
          spec_id = some spec_id;
          created_timestamp = now;
          display_name = some display_name;
        })
        (string_value Keys.target_id proxy_id) false)
      values_given

unfoldable pub create_proxy :
    ProxyService
    → String
    → String
    → String
    → String
    → ℤ
    → List RuntimeValue
    → ℤ
    → ProxyService × Result Proxy StartError
unfolding validate_capacity created
create_proxy s proxy_id user_id spec_id display_name spec_maximum values_given now =
    if not (validate_capacity s spec_id spec_maximum)
    then (s, err no_capacity)
    else let p = created proxy_id user_id spec_id display_name values_given now in
      let begun = begin_action s p.id in (record begun { store = add_proxy begun.store p }, ok p)

abbrev is_crash : ProxyStopReason → Bool
is_crash ProxyStopReason.crashed = true
is_crash _ = false

-- A shared app gives its seat back; the backend stops any other one, and its error is only logged.
unfoldable pub let_go : (Json → String) → ProxyService → Proxy → ProxyStopReason → ProxyService
unfolding sharing_dispatcher
let_go print_json s stopping reason =
    let asked = record s { stops = stopping.id ∷ s.stops } in
    elim stopping.spec_id [
      | none ↦ asked
      | some id ↦ elim (sharing_dispatcher s id) [
        | none ↦ asked
        | some dispatcher ↦
            let given_back = Dispatcher.stop_proxy print_json dispatcher stopping in
            let kept = record s { sharing = insert id given_back.0 s.sharing } in
            elim given_back.1 [
              | none ↦ kept
              | some seat ↦ record kept {
                events = seat_released id seat.id stopping.id (is_crash reason) ∷ kept.events;
              }
            ]
      ]
    ]

unfoldable pub stop_proxy :
    (Json → String) → ℤ → ProxyService → Proxy → ProxyStopReason → ProxyService
unfolding let_go finish_action
stop_proxy print_json now s p reason =
    let begun = begin_action s p.id in
    let stopping = with_status p ProxyStatus.stopping in
    let gone =
      let_go print_json (record begun { store = update_proxy begun.store stopping }) stopping
        reason in
    let stopped = with_status stopping ProxyStatus.stopped in
    finish_action
      (record gone {
        store = remove_proxy gone.store stopped;
        heartbeats = remove_heartbeat gone.heartbeats stopped.id;
        events = proxy_stopped stopped reason ∷ gone.events;
      })
      p.id now

-- `went_well` is the answer of the backend.
unfoldable pub pause_proxy :
    Bool → Bool → ℤ → ProxyService → Proxy → ProxyService × Result Proxy StartError
unfolding finish_action
pause_proxy supports_pause went_well now s p =
    let begun = begin_action s p.id in
    let pausing = with_status p ProxyStatus.pausing in
    let paused = with_status pausing ProxyStatus.paused in
    let tried = record begun { store = update_proxy begun.store pausing } in
    if not supports_pause
    then (s, err pause_unsupported)
    else if went_well
    then (
      finish_action
          (record tried {
            store = update_proxy tried.store paused;
            events = proxy_paused paused ∷ tried.events;
          })
          p.id now,
      ok paused,
    )
    else (finish_action tried p.id now, err backend_error)

-- `targets` are those that the backend answers, `none` for an error.
unfoldable pub resume_proxy :
    Bool
    → Option (Dict String)
    → Bool
    → ℤ
    → ProxyService
    → Proxy
    → ProxyService × Result Proxy StartError
unfolding finish_action
resume_proxy supports_pause answer reachable now s p =
    let begun = begin_action s p.id in
    let resuming = with_status p ProxyStatus.resuming in
    let tried = record begun { store = update_proxy begun.store resuming } in
    if not supports_pause then (s, err pause_unsupported) else elim answer [
      | none ↦ (finish_action tried p.id now, err backend_error)
      | some targets ↦
          let moved = record resuming { targets = replace targets resuming.targets } in
          let running = with_status moved up in
          if not reachable
          then (
            finish_action (record tried { store = update_proxy tried.store moved }) p.id now,
            err timeout,
          )
          else (
            finish_action
                (record tried {
                  store = update_proxy tried.store running;
                  heartbeats = update_heartbeat tried.heartbeats p.id now;
                  events = proxy_resumed running ∷ tried.events;
                })
                p.id now,
            ok running,
          )
    ]
  where
    replace : Dict String → Dict String → Dict String
    replace [] old = old
    replace (t ∷ ts) old = Dispatcher.insert_all (t ∷ ts) []

unfoldable pub stop_each : (Json → String) → ℤ → ProxyService → List Proxy → ProxyService
stop_each print_json now s [] = s
stop_each print_json now s (p ∷ ps) =
    stop_each print_json now (stop_proxy print_json now s p ProxyStopReason.shutdown) ps

unfoldable pub shutdown : (Json → String) → ℤ → ProxyService → ProxyService
unfolding stop_each
shutdown print_json now s =
    let leaving = record s { shutting_down = true } in
    if not s.stop_proxies_on_shutdown
    then leaving
    else stop_each print_json now leaving (all_proxies s.store)
