-- ===== src/Service/Release/Rounds.antt =====
-- Which apps a round releases.
use shinyproxy_rust.Base.{
  String, str_eq, ◌≡◌, refl, sym, ap, subst, ◌∙◌, ◌↔◌, inl, inr, Bool, true, false, not, ◌&&◌, ◌||◌,
  Option, none, some, List, [], ◌∷◌, arith, if◌then◌else◌, Bool-cases, is_some, unwrap_or, keep_if,
}
use shinyproxy_rust.Base.Int.{ℤ, pos, ◌-ℤ◌, ltb_ℤ}
use shinyproxy_rust.Model.Keys
use shinyproxy_rust.Model.Proxies.{Proxy, ProxyStopReason, status_eq, up}
use shinyproxy_rust.Service.Release.{
  ProxyOperations, stop, int_value, silence_of, must_be_released_for_age, release_each,
  release_inactive_proxies, release_expired_proxies, logout_each, on_logout, release,
}

some-injective : {A : Type 0} (a b : A) → Path (Option A) (some a) (some b) → a ≡ b
some-injective a b e = cc

-- The three tests of `silence_of`, on any numbers.
tests_pass :
    (running : Bool) (timeout silence answer : ℤ)
    → ((if not running
          then none
          else if not (ltb_ℤ (pos 0) timeout)
          then none
          else if ltb_ℤ timeout silence
          then some silence
          else none)
        ≡ some answer)
      ↔ ((running ≡ true)
          × (ltb_ℤ (pos 0) timeout ≡ true)
          × (ltb_ℤ timeout answer ≡ true)
          × (silence ≡ answer))
tests_pass false timeout silence answer =
    (λ e. absurd (ground (arith, e)), λ h. absurd (ground (arith, h.0)))
tests_pass true timeout silence answer = elim (Bool-cases (ltb_ℤ (pos 0) timeout)) [
  | inr off ↦ rw off (λ e. absurd (ground (arith, e)), λ h. absurd (ground (arith, h.1)))
  | inl on ↦ elim (Bool-cases (ltb_ℤ timeout silence)) [
    | inr short ↦
        rw (on, short)
          (
            λ e. absurd (ground (arith, e)),
            λ h. absurd (ground (arith, short, subst (λ x. ltb_ℤ timeout x ≡ true) (sym h.3) h.2)),
          )
    | inl long ↦
        rw (on, long)
          (
            λ e.
                let same = some-injective silence answer e in
                (refl, refl, subst (λ x. ltb_ℤ timeout x ≡ true) same long, same),
            λ h. ap some h.3,
          )
  ]
]

-- An app is released for silence exactly if it is up, its heartbeats are enabled, and the time
-- since its last heartbeat, or since its startup, exceeds its timeout; that time is the answer.
pub silence_of_lem :
    (heartbeat : String → Option ℤ) (p : Proxy) (now silence : ℤ)
    → let timeout = unwrap_or (int_value p Keys.heartbeat_timeout) (pos 0) in
      (silence_of heartbeat p now ≡ some silence) ↔ (
        (status_eq p.status up ≡ true)
        × (ltb_ℤ (pos 0) timeout ≡ true)
        × (ltb_ℤ timeout silence ≡ true)
        × (now -ℤ unwrap_or (heartbeat p.id) p.startup_timestamp ≡ silence))
unfolding silence_of
silence_of_lem heartbeat p now silence =
    tests_pass (status_eq p.status up) (unwrap_or (int_value p Keys.heartbeat_timeout) (pos 0))
      (now -ℤ unwrap_or (heartbeat p.id) p.startup_timestamp) silence

-- What a stop does to the apps that can be found: it takes away the app if it goes well, and
-- leaves the others.
pub record StopLaws {S : Type 0} (ops : ProxyOperations S) (find : S → String → Option Proxy)
    : Type 0 where
  pub stop_find :
      (s : S) (p : Proxy) (reason : ProxyStopReason) (id : String)
      → find (ops.stop_proxy s p reason).0 id
        ≡ (if str_eq p.id id && (ops.stop_proxy s p reason).1 then none else find s id)

unfoldable pub ids_of : List Proxy → List String
ids_of [] = []
ids_of (p ∷ ps) = p.id ∷ ids_of ps

-- An app with the id is among those that must go.
unfoldable pub chosen : (Proxy → Bool) → String → List Proxy → Bool
chosen must id [] = false
chosen must id (p ∷ ps) = (must p && str_eq p.id id) || chosen must id ps

module _ {S : Type 0} (ops : ProxyOperations S) (find : S → String → Option Proxy)
    (laws : StopLaws ops find) where
  release_each-find :
      (reason : ProxyStopReason) (must : Proxy → Bool) (s : S) (ps : List Proxy) (id : String)
      → ((t : S) (p : Proxy) → (ops.stop_proxy t p reason).1 ≡ true)
      → find (release_each ops stop reason must s ps) id
        ≡ (if chosen must id ps then none else find s id)
  unfolding release_each chosen release
  release_each-find reason must s [] id works = refl
  release_each-find reason must s (p ∷ ps) id works = elim (Bool-cases (must p)) [
    | inr stays ↦ rw stays (release_each-find reason must s ps id works)
    | inl goes ↦
        let t = (ops.stop_proxy s p reason).0 in
        let now_gone : find t id ≡ (if str_eq p.id id then none else find s id) =
          laws.stop_find s p reason id ∙ rw (works s p) (ground arith) in
        rw goes (release_each-find reason must t ps id works ∙ ground (arith, now_gone))
  ]

  -- When stops go well, a round for silence and a round for age on the leader stop exactly the
  -- apps that are silent for too long or too old, and leave every other app; on another server
  -- they change nothing that can be found.
  pub rounds_lem :
      (heartbeat : String → Option ℤ) (is_leader : Bool) (now : ℤ) (s : S) (id : String)
      → ((t : S) (p : Proxy) (reason : ProxyStopReason) → (ops.stop_proxy t p reason).1 ≡ true)
      → let silent = chosen (λ p. is_some (silence_of heartbeat p now)) id (ops.all_proxies s) in
        let expired = chosen (λ p. must_be_released_for_age p now) id (ops.all_proxies s) in
        (find (release_inactive_proxies ops stop is_leader heartbeat now s) id
          ≡ (if is_leader && silent then none else find s id))
        × (find (release_expired_proxies ops stop is_leader now s) id
            ≡ (if is_leader && expired then none else find s id))
  unfolding release_inactive_proxies release_expired_proxies
  rounds_lem heartbeat false now s id works = (refl, refl)
  rounds_lem heartbeat true now s id works = (
    release_each-find ProxyStopReason.inactivity _ s (ops.all_proxies s) id
        (λ t p. works t p ProxyStopReason.inactivity),
    release_each-find ProxyStopReason.exceeded_max_lifetime _ s (ops.all_proxies s) id
        (λ t p. works t p ProxyStopReason.exceeded_max_lifetime),
  )

  logout_each-find :
      (stop_on_logout : Proxy → Bool) (s : S) (ps : List Proxy) (id : String)
      → ((t : S) (p : Proxy) → (ops.stop_proxy t p ProxyStopReason.logout).1 ≡ true)
      → let answer = logout_each ops stop_on_logout s ps in
        (find answer.0 id ≡ (if chosen stop_on_logout id ps then none else find s id))
        × (answer.1 ≡ ids_of (keep_if stop_on_logout ps))
  unfolding logout_each chosen keep_if ids_of
  logout_each-find stop_on_logout s [] id works = (refl, refl)
  logout_each-find stop_on_logout s (p ∷ ps) id works = elim (Bool-cases (stop_on_logout p)) [
    | inr stays ↦ rw stays (logout_each-find stop_on_logout s ps id works)
    | inl goes ↦
        let t = (ops.stop_proxy s p ProxyStopReason.logout).0 in
        let now_gone : find t id ≡ (if str_eq p.id id then none else find s id) =
          laws.stop_find s p ProxyStopReason.logout id ∙ rw (works s p) (ground arith) in
        let rest = logout_each-find stop_on_logout t ps id works in
        rw (goes, works s p) (rest.0 ∙ ground (arith, now_gone), ap (λ ids. p.id ∷ ids) rest.1)
  ]

  -- When stops go well, a logout stops exactly the apps of the user that must stop on a logout,
  -- answers their ids in order, and leaves every other app.
  pub on_logout_lem :
      (user_id : String) (stop_on_logout : Proxy → Bool) (s : S) (id : String)
      → ((t : S) (p : Proxy) → (ops.stop_proxy t p ProxyStopReason.logout).1 ≡ true)
      → let answer = on_logout ops user_id stop_on_logout s in
        (find answer.0 id
          ≡ (if chosen stop_on_logout id (ops.user_proxies s user_id) then none else find s id))
        × (answer.1 ≡ ids_of (keep_if stop_on_logout (ops.user_proxies s user_id)))
  unfolding on_logout
  on_logout_lem user_id stop_on_logout s id works =
      logout_each-find stop_on_logout s (ops.user_proxies s user_id) id works
