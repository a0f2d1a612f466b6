-- ===== src/Service/Starting.antt =====
-- crates/containerproxy/src/service/proxy_service.rs: `start_proxy`. `prepared` is what
-- `prepare_for_start` makes of the proxy, `none` when an expression cannot be resolved. While a start
-- waits, the rest of the server turns the service into `meanwhile s`.
pub mod Outcome
use shinyproxy_rust.Base.{
  ℕ, String, inl, inr, Bool, true, false, not, ◌||◌, Option, none, some, List, ◌∷◌, if◌then◌else◌,
}
use shinyproxy_rust.Base.Dict.{insert}
use shinyproxy_rust.Base.Int.{ℤ}
use shinyproxy_rust.Base.Result.{Result, ok, err}
use shinyproxy_rust.Model.Proxies.{Proxy, ProxyStatus, up, status_eq}
use shinyproxy_rust.Sharing.Dispatcher.{Dispatcher}
use shinyproxy_rust.Sharing.Dispatcher
use shinyproxy_rust.Sharing.Scaler.Create.{ContainerStart, start_containers}
use shinyproxy_rust.Service.Stores.{
  update_proxy, remove_proxy, proxy, update_heartbeat, remove_heartbeat,
}
use shinyproxy_rust.Service.Proxies.{
  ProxyService, StartError, backend_error, timeout, not_resolved, not_found, proxy_started,
  proxy_start_failed, sharing_dispatcher, finish_action,
}

-- What a start meets: the sleeps of the dispatcher, the uuid of a shared container, the
-- containers of the resolved app definition with the answers of the backend, whether the app
-- answers in time, and the clock.
pub record Start : Type 0 where
  pub tick : ℕ → Dispatcher → Dispatcher
  pub uuid : String
  pub containers : List ContainerStart
  pub reachable : Bool
  pub meanwhile : ProxyService → ProxyService
  pub now : ℤ

unfoldable pub fail_start_without_backend : ProxyService → Proxy → ProxyService
fail_start_without_backend s p = record s {
  store = remove_proxy s.store p;
  heartbeats = remove_heartbeat s.heartbeats p.id;
  events = proxy_start_failed p ∷ s.events;
}

unfoldable pub fail_start : ProxyService → Proxy → ProxyService
unfolding fail_start_without_backend
fail_start s p = fail_start_without_backend (record s { stops = p.id ∷ s.stops }) p

unfoldable pub was_stopped : Option Proxy → Bool
was_stopped none = true
was_stopped (some p) =
    status_eq p.status ProxyStatus.stopped || status_eq p.status ProxyStatus.stopping

unfoldable pub cleanup_if_stopped : ProxyService → Proxy → ProxyService × Bool
unfolding was_stopped
cleanup_if_stopped s starting =
    if was_stopped (proxy s.store starting.id)
    then (record s { stops = starting.id ∷ s.stops }, true)
    else (s, false)

-- The end of a start: the app is up, unless it was stopped in the meantime.
unfoldable pub activate : ProxyService → Proxy → ℤ → ProxyService × Result Proxy StartError
unfolding cleanup_if_stopped
activate s p now =
    let cleaned = cleanup_if_stopped s p in
    let running = record p { status = up; startup_timestamp = now } in
    if cleaned.1 then (cleaned.0, err not_found) else (
      record s {
        store = update_proxy s.store running;
        heartbeats = update_heartbeat s.heartbeats running.id now;
        events = proxy_started running ∷ s.events;
      },
      ok running,
    )

unfoldable pub start_shared :
    Start → ProxyService → String → Dispatcher → Proxy → ProxyService × Result Proxy StartError
unfolding activate fail_start_without_backend
start_shared start s spec_id dispatcher p =
    let claimed = Dispatcher.start_proxy start.tick start.uuid dispatcher p in
    let waited = start.meanwhile s in
    let t = record waited { sharing = insert spec_id claimed.0 waited.sharing } in
    elim claimed.1 [
      | err e ↦ (fail_start_without_backend t p, err backend_error)
      | ok seated ↦ activate t seated start.now
    ]

unfoldable pub start_own : Start → ProxyService → Proxy → ProxyService × Result Proxy StartError
unfolding activate fail_start
start_own start s p =
    let waited = start.meanwhile s in
    elim (start_containers p start.containers) [
      | inr failed ↦ (fail_start waited failed, err backend_error)
      | inl started ↦
          if not start.reachable
          then (fail_start waited started, err timeout)
          else activate waited started start.now
    ]

unfoldable pub start_prepared :
    Start → ProxyService → String → Proxy → ProxyService × Result Proxy StartError
unfolding start_shared start_own sharing_dispatcher
start_prepared start s spec_id p =
    let stored = record s { store = update_proxy s.store p } in
    elim (sharing_dispatcher stored spec_id) [
      | some dispatcher ↦ start_shared start stored spec_id dispatcher p
      | none ↦ start_own start stored p
    ]

unfoldable pub start_inner :
    Start → ProxyService → String → Option Proxy → ProxyService × Result Proxy StartError
unfolding start_prepared
start_inner start s spec_id none = (s, err not_resolved)
start_inner start s spec_id (some ready) = start_prepared start s spec_id ready

unfoldable pub start_proxy :
    Start → ProxyService → String → Proxy → Option Proxy → ProxyService × Result Proxy StartError
unfolding start_inner finish_action
start_proxy start s spec_id p prepared =
    let tried = start_inner start s spec_id prepared in
    (finish_action tried.0 p.id start.now, tried.1)
