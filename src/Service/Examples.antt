-- ===== src/Service/Examples.antt =====
-- A Redis that keeps one key, and a realm of two servers on it.
use shinyproxy_rust.Base.{
  ℕ, String, str_eq, str_eq_iff, ◌≡◌, refl, ap, ◌≢◌, ◌↔◌, Bool, true, false, Option, none, some, [],
  ◌∷◌, arith, if◌then◌else◌, unwrap_or, keep_if,
}
use shinyproxy_rust.Base.Dict.{lookup-remove}
use shinyproxy_rust.Base.Int.{ℤ, pos, ◌-ℤ◌, ltb_ℤ}
use shinyproxy_rust.Model.RuntimeValues.{add, new_values, integer_value}
use shinyproxy_rust.Model.Keys
use shinyproxy_rust.Model.Proxies.{Proxy, new_proxy, up, status_eq}
use shinyproxy_rust.Service.Stores.{
  MemoryProxyStore, new_proxy_store, add_proxy, remove_proxy, proxy, all_proxies, user_proxies,
}
use shinyproxy_rust.Service.Release.{ProxyOperations, int_value, silence_of, on_logout}
use shinyproxy_rust.Service.Release.Rounds.{StopLaws, chosen, ids_of, on_logout_lem, silence_of_lem}
use shinyproxy_rust.Service.Leader.{new_service, Redis, elect, acquire, resign, release_lock}
use shinyproxy_rust.Service.Leader.Election.{
  RedisLaws, Elections, starts, then_, elects, resigns, LeaderEvent, Realm, leader_step, one_leader,
}

abbrev owned_by : Option String → String → Bool
owned_by none owner = false
owned_by (some holder) owner = str_eq holder owner

abbrev set_if_free : Option String → String → Option String × Bool
set_if_free none owner = (some owner, true)
set_if_free (some holder) owner = (some holder, false)

abbrev one_key : Redis (Option String)
one_key = record {
  connection = λ s. true;
  set_nx_ex = λ s key owner ttl. set_if_free s owner;
  renew_if_owner = λ s key owner ttl. (s, owned_by s owner);
  delete_if_owner = λ s key owner. if owned_by s owner then none else s;
  get = λ s key. s;
}

one_key-RedisLaws : RedisLaws one_key "leader"
one_key-RedisLaws = record {
  set_true = set_true_lem;
  set_held = set_held_lem;
  renew_true = renew_true_lem;
  renew_keeps = λ s owner ttl. refl;
  delete_other = delete_other_lem;
}
  where
    set_true_lem :
        (s : Option String) (owner : String) (ttl : ℕ)
        → (set_if_free s owner).1 ≡ true
        → (s ≡ none) × ((set_if_free s owner).0 ≡ some owner)
    set_true_lem none owner ttl e = (refl, refl)
    set_true_lem (some holder) owner ttl e = absurd (ground (arith, e))

    set_held_lem :
        (s : Option String) (owner other : String) (ttl : ℕ)
        → s ≡ some other
        → (set_if_free s owner).0 ≡ some other
    set_held_lem none owner other ttl e = absurd (ground (arith, e))
    set_held_lem (some holder) owner other ttl e = e

    renew_true_lem :
        (s : Option String) (owner : String) (ttl : ℕ) → owned_by s owner ≡ true → s ≡ some owner
    renew_true_lem none owner ttl e = absurd (ground (arith, e))
    renew_true_lem (some holder) owner ttl e = ap some ((str_eq_iff holder owner).0 e)

    delete_other_lem :
        (s : Option String) (owner other : String)
        → owner ≢ other
        → s ≡ some other
        → (if owned_by s owner then none else s) ≡ some other
    delete_other_lem none owner other ne e = absurd (ground (arith, e))
    delete_other_lem (some holder) owner other ne e = ground (arith, e, str_eq_iff holder owner, ne)

abbrev before : Realm one_key "leader" one_key-RedisLaws
before = record { redis = none; services = λ _. new_service }

abbrev then_event :
    LeaderEvent one_key "leader" one_key-RedisLaws
    → Realm one_key "leader" one_key-RedisLaws
    → Realm one_key "leader" one_key-RedisLaws
then_event event realm = leader_step one_key "leader" one_key-RedisLaws realm event

-- Server `a` is elected and resigns, then server `b` is elected.
abbrev handed_over : Realm one_key "leader" one_key-RedisLaws
handed_over = then_event (elects "b") (then_event (resigns "a") (then_event (elects "a") before))

handing_over :
    Elections one_key "leader" one_key-RedisLaws handed_over
      (elects "b" ∷ resigns "a" ∷ elects "a" ∷ [])
handing_over = then_ (elects "b") (then_ (resigns "a") (then_ (elects "a") (starts none) tt) tt) tt

b_leads : (handed_over.services "b").leader ≡ true
unfolding leader_step elect acquire resign release_lock
b_leads = refl

abbrev winner : String
winner = "b"

one_leader_example : winner ≡ winner
one_leader_example =
    one_leader one_key "leader" one_key-RedisLaws "b" "b" handing_over b_leads b_leads

-- A store with one app that has been silent for a minute.
abbrev pub silent_app : Proxy
silent_app = record (new_proxy "p" up) {
  user_id = some "alice";
  runtime_values = add new_values (integer_value Keys.heartbeat_timeout (pos 30_000)) true;
}

abbrev pub apps : MemoryProxyStore
apps = add_proxy (new_proxy_store false) silent_app

-- A stop that always goes well and takes the app out of the store.
abbrev stopping : ProxyOperations MemoryProxyStore
stopping = record {
  all_proxies = all_proxies;
  user_proxies = user_proxies;
  stop_proxy = λ s p reason. (remove_proxy s p, true);
  pause_proxy = λ s p. (s, true);
}

stopping-StopLaws : StopLaws stopping proxy
unfolding proxy remove_proxy
stopping-StopLaws = record {
  stop_find = λ s p reason id. ground (arith, lookup-remove p.id id s.proxies);
}

abbrev pub silent : String → Option ℤ
silent id = none

on_logout_lem_example :
    let answer = on_logout stopping "alice" (λ p. true) apps in
    (proxy answer.0 "p"
      ≡ (if chosen (λ p. true) "p" (user_proxies apps "alice") then none else proxy apps "p"))
    × (answer.1 ≡ ids_of (keep_if (λ p. true) (user_proxies apps "alice")))
on_logout_lem_example =
    on_logout_lem stopping proxy stopping-StopLaws "alice" (λ p. true) apps "p" (λ t p. refl)

silence_of_lem_example :
    let timeout = unwrap_or (int_value silent_app Keys.heartbeat_timeout) (pos 0) in
    (silence_of silent silent_app (pos 60_000) ≡ some (pos 60_000)) ↔ (
      (status_eq up up ≡ true)
      × (ltb_ℤ (pos 0) timeout ≡ true)
      × (ltb_ℤ timeout (pos 60_000) ≡ true)
      × (pos 60_000 -ℤ pos 0 ≡ pos 60_000))
silence_of_lem_example = silence_of_lem silent silent_app (pos 60_000) (pos 60_000)
