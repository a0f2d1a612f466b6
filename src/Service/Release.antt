-- ===== src/Service/Release.antt =====
-- crates/containerproxy/src/service/release.rs: `ReleaseService`. A round runs from its start to its
-- end; the proxy service and the heartbeats are interfaces, the time is an argument.
pub mod Rounds
use shinyproxy_rust.Base.{
  String, Bool, false, not, Option, none, some, List, [], ◌∷◌, if◌then◌else◌, is_some, unwrap_or,
}
use shinyproxy_rust.Base.Int.{ℤ, pos, negsuc, ◌-ℤ◌, ◌*ℤ◌, ltb_ℤ}
use shinyproxy_rust.Model.RuntimeValues.{RuntimeValue, RuntimeValueKey, RuntimeValues, get, as_int}
use shinyproxy_rust.Model.Keys
use shinyproxy_rust.Model.Proxies.{Proxy, ProxyStopReason, status_eq, up}

pub data ReleaseStrategy : Type 0 where
  stop pause : ReleaseStrategy

-- What the rounds call of the proxy service; the Boolean of an answer says that it went well.
pub record ProxyOperations (S : Type 0) : Type 0 where
  pub all_proxies : S → List Proxy
  pub user_proxies : S → String → List Proxy
  pub stop_proxy : S → Proxy → ProxyStopReason → S × Bool
  pub pause_proxy : S → Proxy → S × Bool

unfoldable pub int_value : Proxy → RuntimeValueKey → Option ℤ
int_value p key = elim (get p.runtime_values key) [ none ↦ none | some v ↦ as_int v.data_of ]

-- How long an app has been silent, when it must be released for it. `heartbeat` looks up the last
-- heartbeat of an app; one that never sent a heartbeat is measured from its startup.
unfoldable pub silence_of : (String → Option ℤ) → Proxy → ℤ → Option ℤ
unfolding int_value
silence_of heartbeat p now =
    let timeout = unwrap_or (int_value p Keys.heartbeat_timeout) (pos 0) in
    let silence = now -ℤ unwrap_or (heartbeat p.id) p.startup_timestamp in
    if not (status_eq p.status up)
    then none
    else if not (ltb_ℤ (pos 0) timeout)
    then none
    else if ltb_ℤ timeout silence
    then some silence
    else none

unfoldable pub must_be_released_for_age : Proxy → ℤ → Bool
unfolding int_value
must_be_released_for_age p now =
    let max_lifetime_minutes = unwrap_or (int_value p Keys.max_lifetime) (negsuc 0) in
    if not (status_eq p.status up)
    then false
    else if not (ltb_ℤ (pos 0) max_lifetime_minutes)
    then false
    else ltb_ℤ p.startup_timestamp (now -ℤ max_lifetime_minutes *ℤ pos 60_000)

-- Errors are only logged.
unfoldable pub release :
    {S : Type 0} → ProxyOperations S → ReleaseStrategy → ProxyStopReason → S → Proxy → S
release ops stop reason s p = (ops.stop_proxy s p reason).0
release ops pause reason s p = (ops.pause_proxy s p).0

-- The loop of a round, over the proxies that were read at its start.
unfoldable pub release_each :
    {S : Type 0}
    → ProxyOperations S
    → ReleaseStrategy
    → ProxyStopReason
    → (Proxy → Bool)
    → S
    → List Proxy
    → S
unfolding release
release_each ops strategy reason must s [] = s
release_each ops strategy reason must s (p ∷ ps) =
    release_each ops strategy reason must (if must p then release ops strategy reason s p else s) ps

unfoldable pub release_inactive_proxies :
    {S : Type 0} → ProxyOperations S → ReleaseStrategy → Bool → (String → Option ℤ) → ℤ → S → S
unfolding release_each silence_of
release_inactive_proxies ops strategy is_leader heartbeat now s =
    if not is_leader
    then s
    else release_each ops strategy ProxyStopReason.inactivity
        (λ p. is_some (silence_of heartbeat p now)) s (ops.all_proxies s)

unfoldable pub release_expired_proxies :
    {S : Type 0} → ProxyOperations S → ReleaseStrategy → Bool → ℤ → S → S
unfolding release_each must_be_released_for_age
release_expired_proxies ops strategy is_leader now s =
    if not is_leader
    then s
    else release_each ops strategy ProxyStopReason.exceeded_max_lifetime
        (λ p. must_be_released_for_age p now) s (ops.all_proxies s)

-- The loop of `on_logout`: the ids of the apps that were stopped, in order.
unfoldable pub logout_each :
    {S : Type 0} → ProxyOperations S → (Proxy → Bool) → S → List Proxy → S × List String
logout_each ops stop_on_logout s [] = (s, [])
logout_each ops stop_on_logout s (p ∷ ps) =
    let tried = ops.stop_proxy s p ProxyStopReason.logout in
    let skip = logout_each ops stop_on_logout s ps in
    let rest = logout_each ops stop_on_logout tried.0 ps in
    if not (stop_on_logout p) then skip else if tried.1 then (rest.0, p.id ∷ rest.1) else rest

unfoldable pub on_logout :
    {S : Type 0} → ProxyOperations S → String → (Proxy → Bool) → S → S × List String
unfolding logout_each
on_logout ops user_id stop_on_logout s =
    logout_each ops stop_on_logout s (ops.user_proxies s user_id)
