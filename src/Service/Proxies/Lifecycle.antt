-- ===== src/Service/Proxies/Lifecycle.antt =====
-- What stopping does to the store, and the rounds of the release service on the proxy service.
use shinyproxy_rust.Base.{
  String, str_eq, str_eq_iff, ◌≡◌, refl, ap, ◌∙◌, inl, inr, Bool, true, false, ◌&&◌, Option, none,
  some, List, [], ◌∷◌, arith, if◌then◌else◌, Bool-cases, Option-cases, is_some,
}
use shinyproxy_rust.Base.Dict.{Dict, lookup, insert, values, lookup-insert, lookup-remove}
use shinyproxy_rust.Base.Int.{ℤ}
use shinyproxy_rust.Model.RuntimeValues.{Json}
use shinyproxy_rust.Model.Proxies.{with_status, Proxy, ProxyStatus, ProxyStopReason}
use shinyproxy_rust.Service.Stores.{
  MemoryProxyStore, update_proxy, remove_proxy, proxy, all_proxies, user_proxies, heartbeat,
}
use shinyproxy_rust.Service.Release.{
  ProxyOperations, stop, silence_of, must_be_released_for_age, release_inactive_proxies,
  release_expired_proxies,
}
use shinyproxy_rust.Service.Release.Rounds.{StopLaws, chosen, rounds_lem}
use shinyproxy_rust.Service.Proxies.{
  ProxyService, let_go, sharing_dispatcher, stop_proxy, finish_action, stop_each, shutdown,
}
use shinyproxy_rust.Sharing.Dispatcher

let_go-store :
    (print_json : Json → String) (s : ProxyService) (p : Proxy) (reason : ProxyStopReason)
    → (let_go print_json s p reason).store ≡ s.store
unfolding let_go
let_go-store print_json s p reason = elim (Option-cases p.spec_id) [
  | inl e ↦ rw (e, let_go) refl
  | inr (id, e) ↦ elim (Option-cases (sharing_dispatcher s id)) [
    | inl e' ↦ rw (e, let_go, e') refl
    | inr (dispatcher, e') ↦ elim (Option-cases (Dispatcher.stop_proxy print_json dispatcher p).1) [
      | inl f ↦ rw (e, let_go, e', f) refl
      | inr (seat, f) ↦ rw (e, let_go, e', f) refl
    ]
  ]
]

-- A stop takes the app out of the store, whatever the backend answers, and leaves the others.
stop_proxy-find :
    (print_json : Json → String) (now : ℤ) (s : ProxyService) (p : Proxy) (reason : ProxyStopReason)
    (id : String)
    → proxy (stop_proxy print_json now s p reason).store id
      ≡ (if str_eq p.id id then none else proxy s.store id)
unfolding stop_proxy finish_action proxy update_proxy remove_proxy
stop_proxy-find print_json now s p reason id =
    let stopping = with_status p ProxyStatus.stopping in
    rw (let_go-store print_json _ stopping reason) (
      ground (
        arith,
        lookup-remove p.id id (insert p.id stopping s.store.proxies),
        lookup-insert p.id id stopping s.store.proxies,
      ))

-- The proxy service as the release service calls it. Stopping always answers that it went well;
-- a pause answers what `pausing` says.
abbrev pub service_operations :
    (Json → String)
    → ℤ
    → (ProxyService → Proxy → ProxyService × Bool)
    → ProxyOperations ProxyService
service_operations print_json now pausing = record {
  all_proxies = λ s. all_proxies s.store;
  user_proxies = λ s user_id. user_proxies s.store user_id;
  stop_proxy = λ s p reason. (stop_proxy print_json now s p reason, true);
  pause_proxy = pausing;
}

service-StopLaws :
    (print_json : Json → String) (now : ℤ) (pausing : ProxyService → Proxy → ProxyService × Bool)
    → StopLaws (service_operations print_json now pausing) (λ s id. proxy s.store id)
service-StopLaws print_json now pausing = record {
  stop_find = λ s p reason id. stop_proxy-find print_json now s p reason id ∙ ground arith;
}

-- On the proxy service a round for silence and a round for age, on the leader, stop exactly the
-- apps that are silent for too long or too old, and leave every other app in the store, whatever
-- the backend answers; on another server they leave every app.
pub service_rounds_lem :
    (print_json : Json → String) (stopped_at : ℤ)
    (pausing : ProxyService → Proxy → ProxyService × Bool) (heartbeat : String → Option ℤ)
    (is_leader : Bool) (now : ℤ) (s : ProxyService) (id : String)
    → let ops = service_operations print_json stopped_at pausing in
      let apps = all_proxies s.store in
      let silent = chosen (λ p. is_some (silence_of heartbeat p now)) id apps in
      let expired = chosen (λ p. must_be_released_for_age p now) id apps in
      (proxy (release_inactive_proxies ops stop is_leader heartbeat now s).store id
        ≡ (if is_leader && silent then none else proxy s.store id))
      × (proxy (release_expired_proxies ops stop is_leader now s).store id
          ≡ (if is_leader && expired then none else proxy s.store id))
service_rounds_lem print_json stopped_at pausing heartbeat is_leader now s id =
    rounds_lem (service_operations print_json stopped_at pausing) (λ t key. proxy t.store key)
      (service-StopLaws print_json stopped_at pausing) heartbeat is_leader now s id
      (λ t p reason. refl)

stop_each-find :
    (print_json : Json → String) (now : ℤ) (s : ProxyService) (ps : List Proxy) (id : String)
    → proxy (stop_each print_json now s ps).store id
      ≡ (if chosen (λ p. true) id ps then none else proxy s.store id)
unfolding stop_each chosen
stop_each-find print_json now s [] id = refl
stop_each-find print_json now s (p ∷ ps) id =
    let t = stop_proxy print_json now s p ProxyStopReason.shutdown in
    stop_each-find print_json now t ps id
    ∙ ground (arith, stop_proxy-find print_json now s p ProxyStopReason.shutdown id)

-- Every app is stored under its id.
abbrev pub StoredById : MemoryProxyStore → Type 0
StoredById s = (id : String) (p : Proxy) → lookup id s.proxies ≡ some p → p.id ≡ id

found-chosen :
    (d : Dict Proxy) (id : String) (p : Proxy)
    → lookup id d ≡ some p
    → p.id ≡ id
    → chosen (λ q. true) id (values d) ≡ true
unfolding lookup values chosen
found-chosen [] id p e same = absurd (ground (arith, e))
found-chosen ((key, q) ∷ rest) id p e same =
    ground (arith, e, same, found-chosen rest id p, str_eq_iff q.id id, str_eq_iff key id)

every_app :
    (s : MemoryProxyStore) (id : String)
    → StoredById s
    → (if chosen (λ p. true) id (all_proxies s) then none else proxy s id) ≡ none
unfolding proxy all_proxies
every_app s id stored = elim (Option-cases (lookup id s.proxies)) [
  | inl absent ↦ ground (arith, absent)
  | inr (p, found) ↦ rw (found-chosen s.proxies id p found (stored id p found)) refl
]

shutdown-on :
    (print_json : Json → String) (now : ℤ) (s : ProxyService)
    → s.stop_proxies_on_shutdown ≡ true
    → shutdown print_json now s
      ≡ stop_each print_json now (record s { shutting_down = true }) (all_proxies s.store)
unfolding shutdown
shutdown-on print_json now s on = ground (arith, on)

shutdown-off :
    (print_json : Json → String) (now : ℤ) (s : ProxyService)
    → s.stop_proxies_on_shutdown ≡ false
    → shutdown print_json now s ≡ record s { shutting_down = true }
unfolding shutdown
shutdown-off print_json now s off = ground (arith, off)

-- When every app is stored under its id, a shutdown empties the store if it has to stop the apps,
-- and leaves every app otherwise.
pub shutdown_lem :
    (print_json : Json → String) (now : ℤ) (s : ProxyService) (id : String)
    → StoredById s.store
    → proxy (shutdown print_json now s).store id
      ≡ (if s.stop_proxies_on_shutdown then none else proxy s.store id)
shutdown_lem print_json now s id stored = elim (Bool-cases s.stop_proxies_on_shutdown) [
  | inr off ↦ ap (λ t. proxy t.store id) (shutdown-off print_json now s off) ∙ ground (arith, off)
  | inl on ↦
      ap (λ t. proxy t.store id) (shutdown-on print_json now s on)
      ∙ stop_each-find print_json now _ (all_proxies s.store) id
      ∙ every_app s.store id stored
      ∙ ground (arith, on)
]
