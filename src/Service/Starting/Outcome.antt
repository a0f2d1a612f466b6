-- ===== src/Service/Starting/Outcome.antt =====
-- How a start ends.
use shinyproxy_rust.Base.{ℕ, String, ◌≡◌, refl, ◌⊎◌, inl, inr, true, false, some, ◌∷◌, Bool-cases}
use shinyproxy_rust.Base.Dict.{lookup-insert_eq, lookup}
use shinyproxy_rust.Base.Int.{ℤ}
use shinyproxy_rust.Base.Result.{ok, err}
use shinyproxy_rust.Model.Proxies.{Proxy, up}
use shinyproxy_rust.Service.Stores.{proxy, update_proxy, heartbeat, update_heartbeat}
use shinyproxy_rust.Service.Proxies.{sharing_dispatcher, ProxyService, not_found}
use shinyproxy_rust.Model.RuntimeValues.{Json}
use shinyproxy_rust.Sharing.Seats.{Seat}
use shinyproxy_rust.Sharing.SeatStore.Invariant.{Inv}
use shinyproxy_rust.Sharing.SeatStore.Claims.{holder}
use shinyproxy_rust.Sharing.Dispatcher.{Dispatcher}
use shinyproxy_rust.Sharing.Dispatcher
use shinyproxy_rust.Sharing.Dispatcher.Leases.{start_proxy_lem}
use shinyproxy_rust.Service.Starting.{
  Start, start_shared, activate, cleanup_if_stopped, was_stopped,
}

-- At the end of a start the app is up, answered and stored with a heartbeat, and the backend is
-- asked for nothing; or, when the store no longer has it or has it as stopping or stopped, the
-- start fails, the backend is asked to stop it, and the store and the dispatchers stay as they
-- are.
pub activate_lem :
    (s : ProxyService) (p : Proxy) (now : ℤ)
    → let running : Proxy = record p { status = up; startup_timestamp = now } in
      let after = activate s p now in
      ((was_stopped (proxy s.store p.id) ≡ false)
        × (after.1 ≡ ok running)
        × (proxy after.0.store p.id ≡ some running)
        × (heartbeat after.0.heartbeats p.id ≡ some now)
        × (after.0.stops ≡ s.stops))
      ⊎ ((was_stopped (proxy s.store p.id) ≡ true)
          × (after.1 ≡ err not_found)
          × (after.0.store ≡ s.store)
          × (after.0.sharing ≡ s.sharing)
          × (after.0.stops ≡ p.id ∷ s.stops))
unfolding activate cleanup_if_stopped proxy update_proxy heartbeat update_heartbeat
activate_lem s p now = elim (Bool-cases (was_stopped (lookup p.id s.store.proxies))) [
  | inl gone ↦ inr (gone, rw gone refl, rw gone refl, rw gone refl, rw gone refl)
  | inr here ↦ inl (
    here,
    rw here refl,
    rw here (lookup-insert_eq p.id p.id _ _ refl),
    rw here (lookup-insert_eq p.id p.id _ _ refl),
    rw here refl,
  )
]

-- A start of a shared app that claims a seat, when the app has been stopped by the end of the
-- wait, fails and leaves the seat claimed by the app; the seats satisfy their invariant at the
-- start, and what runs during the sleeps keeps it.
pub start_shared-holder :
    (print_json : Json → String) (start : Start) (s : ProxyService) (spec_id : String)
    (d : Dispatcher) (p seated : Proxy)
    → ((n : ℕ) (e : Dispatcher) → Inv e.seats → Inv (start.tick n e).seats)
    → Inv d.seats
    → (Dispatcher.start_proxy start.tick start.uuid d p).1 ≡ ok seated
    → was_stopped (proxy (start.meanwhile s).store seated.id) ≡ true
    → let after = start_shared start s spec_id d p in
      (after.1 ≡ err not_found)
      × (left : Dispatcher) × (seat : Seat) × (sharing_dispatcher after.0 spec_id ≡ some left)
      × (holder left.seats seat.id ≡ some p.id)
unfolding start_shared sharing_dispatcher activate cleanup_if_stopped
start_shared-holder print_json start s spec_id d p seated keep v got gone =
    let (seat, _, _, held, _, _, _) =
      start_proxy_lem start.tick keep print_json start.uuid d p seated v got in
    let left = (Dispatcher.start_proxy start.tick start.uuid d p).0 in
    rw (got, start_shared, gone)
      (
        refl,
        left,
        seat,
        lookup-insert_eq spec_id spec_id left (start.meanwhile s).sharing refl,
        held,
      )
