-- ===== src/Service/ProxyExamples.antt =====
-- A proxy service with one app.
use shinyproxy_rust.Base.{
  String, str_eq_iff, ◌≡◌, refl, ◌⊎◌, Bool, true, false, ◌&&◌, none, some, [], ◌∷◌, arith,
  if◌then◌else◌, is_some, keep_if,
}
use shinyproxy_rust.Base.Dict.{lookup, insert, values}
use shinyproxy_rust.Base.Int.{◌<ℤ◌, pos, negsuc, ◌≤ℤ◌}
use shinyproxy_rust.Base.Result.{ok, err}
use shinyproxy_rust.Model.RuntimeValues.{Json}
use shinyproxy_rust.Model.Proxies.{Proxy, up, paused, pausing, with_status}
use shinyproxy_rust.Service.Stores.{proxy, all_proxies, heartbeat, new_heartbeat_store, add_proxy}
use shinyproxy_rust.Service.Release.{
  stop, silence_of, must_be_released_for_age, release_inactive_proxies, release_expired_proxies,
}
use shinyproxy_rust.Service.Release.Rounds.{chosen}
use shinyproxy_rust.Service.Proxies.{
  ProxyService, pause_unsupported, backend_error, pause_proxy, resume_proxy, proxy_paused,
  proxy_resumed, create_proxy, created, count, count_by_spec, validate_capacity, full,
}
use shinyproxy_rust.Service.Proxies.Lifecycle.{service_operations, service_rounds_lem, StoredById}
use shinyproxy_rust.Service.Proxies.Capacity.{create_proxy-capacity}
use shinyproxy_rust.Service.Proxies.Pausing.{Has, IsIdle, pause_proxy_lem, resume-pause}
use shinyproxy_rust.Service.Examples.{silent_app, apps, silent}

abbrev pub service : ProxyService
service = record {
  max_total_instances = pos 2;
  stop_proxies_on_shutdown = true;
  store = apps;
  heartbeats = new_heartbeat_store;
  actions_in_progress = [];
  last_stop = none;
  sharing = [];
  shutting_down = false;
  stops = [];
  events = [];
}

abbrev pub print_nothing : Json → String
print_nothing _ = ""

abbrev never_pauses : ProxyService → Proxy → ProxyService × Bool
never_pauses s p = (s, false)

service_rounds_lem_example :
    let ops = service_operations print_nothing (pos 60_001) never_pauses in
    let quiet = chosen (λ p. is_some (silence_of silent p (pos 60_000))) "p" (all_proxies apps) in
    let old = chosen (λ p. must_be_released_for_age p (pos 60_000)) "p" (all_proxies apps) in
    (proxy (release_inactive_proxies ops stop true silent (pos 60_000) service).store "p"
      ≡ (if true && quiet then none else proxy apps "p"))
    × (proxy (release_expired_proxies ops stop true (pos 60_000) service).store "p"
        ≡ (if true && old then none else proxy apps "p"))
service_rounds_lem_example =
    service_rounds_lem print_nothing (pos 60_001) never_pauses silent true (pos 60_000) service "p"

apps-StoredById : StoredById apps
unfolding add_proxy lookup insert
apps-StoredById id p e = ground (arith, e, str_eq_iff "p" id)

abbrev second_app : Proxy
second_app = created "q" "bob" "app" "App" [] (pos 5)

made : (create_proxy service "q" "bob" "app" "App" (pos 1) [] (pos 5)).1 ≡ ok second_app
unfolding create_proxy validate_capacity full add_proxy all_proxies insert values keep_if
made = refl

create_proxy-capacity_example :
    let answer = create_proxy service "q" "bob" "app" "App" (pos 1) [] (pos 5) in
    (negsuc 0 <ℤ pos 2 → pos (count answer.0) ≤ℤ pos 2)
    × (negsuc 0 <ℤ pos 1 → pos (count_by_spec answer.0 "app") ≤ℤ pos 1)
    × (proxy answer.0.store second_app.id ≡ some second_app)
create_proxy-capacity_example =
    create_proxy-capacity service "q" "bob" "app" "App" (pos 1) [] (pos 5) second_app made

pause_proxy_lem_example :
    let answer = pause_proxy true false (pos 1) service silent_app in
    ((true ≡ false) × (answer ≡ (service, err pause_unsupported)))
    ⊎ (((true ≡ true)
          × (false ≡ true)
          × (answer.1 ≡ ok (with_status silent_app paused))
          × Has answer.0 silent_app paused)
        ⊎ ((true ≡ true)
            × (false ≡ false)
            × (answer.1 ≡ err backend_error)
            × Has answer.0 silent_app pausing))
pause_proxy_lem_example = pause_proxy_lem true false (pos 1) service silent_app

resume-pause_example :
    let paused_at = pause_proxy true true (pos 1) service silent_app in
    (q : Proxy) × (paused_at.1 ≡ ok q)
    × (proxy paused_at.0.store "p" ≡ some q)
    × (q.status ≡ paused)
    × (paused_at.0.events ≡ proxy_paused q ∷ [])
    × (paused_at.0.last_stop ≡ some (pos 1))
    × IsIdle paused_at.0 silent_app
    × ((resume_proxy true (some []) true (pos 2) paused_at.0 q).1 ≡ ok (with_status silent_app up))
    × Has (resume_proxy true (some []) true (pos 2) paused_at.0 q).0 silent_app up
    × (heartbeat (resume_proxy true (some []) true (pos 2) paused_at.0 q).0.heartbeats "p"
        ≡ some (pos 2))
    × ((resume_proxy true (some []) true (pos 2) paused_at.0 q).0.events
        ≡ proxy_resumed (with_status silent_app up) ∷ proxy_paused q ∷ [])
    × IsIdle (resume_proxy true (some []) true (pos 2) paused_at.0 q).0 silent_app
resume-pause_example = resume-pause (pos 1) (pos 2) service silent_app
