-- ===== src/Service/Proxies/Pausing.antt =====
-- Pausing an app and resuming it.
use shinyproxy_rust.Base.{
  String, str_eq_iff, ◌≡◌, refl, ◌⊎◌, inl, inr, Bool, true, false, some, List, [], ◌∷◌, arith,
  contains, without, contains-without,
}
use shinyproxy_rust.Base.Dict.{lookup-insert_eq}
use shinyproxy_rust.Base.Int.{ℤ}
use shinyproxy_rust.Base.Result.{ok, err}
use shinyproxy_rust.Model.Proxies.{Proxy, ProxyStatus, up, paused, pausing, with_status}
use shinyproxy_rust.Service.Stores.{proxy, update_proxy, heartbeat, update_heartbeat}
use shinyproxy_rust.Service.Proxies.{
  ProxyService, pause_unsupported, backend_error, pause_proxy, resume_proxy, finish_action,
  proxy_paused, proxy_resumed,
}

-- The app is stored with the status, and everything else of it as it was.
abbrev pub Has : ProxyService → Proxy → ProxyStatus → Type 0
Has s p status = proxy s.store p.id ≡ some (with_status p status)

-- A pause without support changes nothing and fails; one that the backend carries out answers and
-- stores the app as paused; one that the backend refuses fails and leaves the app as pausing.
pub pause_proxy_lem :
    (supports went_well : Bool) (now : ℤ) (s : ProxyService) (p : Proxy)
    → let answer = pause_proxy supports went_well now s p in
      ((supports ≡ false) × (answer ≡ (s, err pause_unsupported)))
      ⊎ (((supports ≡ true)
            × (went_well ≡ true)
            × (answer.1 ≡ ok (with_status p paused))
            × Has answer.0 p paused)
          ⊎ ((supports ≡ true)
              × (went_well ≡ false)
              × (answer.1 ≡ err backend_error)
              × Has answer.0 p pausing))
unfolding pause_proxy finish_action proxy update_proxy
pause_proxy_lem false went_well now s p = inl (refl, refl)
pause_proxy_lem true true now s p =
    inr (inl (refl, refl, refl, lookup-insert_eq p.id p.id _ _ refl))
pause_proxy_lem true false now s p =
    inr (inr (refl, refl, refl, lookup-insert_eq p.id p.id _ _ refl))

-- No action on the app is in progress.
abbrev pub IsIdle : ProxyService → Proxy → Type 0
IsIdle s p = contains s.actions_in_progress p.id ≡ false

-- An app that is paused, where the backend supports it and carries it out, is answered and stored
-- as paused. Resuming what the pause answered, where the backend carries that out too, names no
-- new targets and the app answers, answers and stores the app as it was but up, with a heartbeat
-- at the time of the resumption. Both are published, the pause is noted as the last stop, and no
-- action on the app is in progress after either.
pub resume-pause :
    (now later : ℤ) (s : ProxyService) (p : Proxy)
    → let paused_at = pause_proxy true true now s p in
      (q : Proxy) × (paused_at.1 ≡ ok q)
      × (proxy paused_at.0.store p.id ≡ some q)
      × (q.status ≡ paused)
      × (paused_at.0.events ≡ proxy_paused q ∷ s.events)
      × (paused_at.0.last_stop ≡ some now)
      × IsIdle paused_at.0 p
      × ((resume_proxy true (some []) true later paused_at.0 q).1 ≡ ok (with_status p up))
      × Has (resume_proxy true (some []) true later paused_at.0 q).0 p up
      × (heartbeat (resume_proxy true (some []) true later paused_at.0 q).0.heartbeats p.id
          ≡ some later)
      × ((resume_proxy true (some []) true later paused_at.0 q).0.events
          ≡ proxy_resumed (with_status p up) ∷ proxy_paused q ∷ s.events)
      × IsIdle (resume_proxy true (some []) true later paused_at.0 q).0 p
unfolding pause_proxy resume_proxy finish_action proxy update_proxy heartbeat update_heartbeat
resume-pause now later s p = (
  with_status p paused,
  refl,
  lookup-insert_eq p.id p.id _ _ refl,
  refl,
  refl,
  refl,
  gone_from _,
  refl,
  lookup-insert_eq p.id p.id _ _ refl,
  lookup-insert_eq p.id p.id _ _ refl,
  refl,
  gone_from _,
)
  where
    gone_from : (ids : List String) → contains (without p.id ids) p.id ≡ false
    gone_from ids = ground (arith, contains-without p.id ids p.id, str_eq_iff p.id p.id)
