-- ===== src/Sharing/Dispatcher/Leases.antt =====
-- The seat of a user from the start of the app to its end.
use shinyproxy_rust.Base.{
  ℕ, zero, suc, String, str_eq_iff, ◌≡◌, refl, ◌∙◌, ◌≢◌, inl, inr, Option, none, some, List, [],
  ◌∷◌, arith, Bool-cases, Option-cases, is_some, contains,
}
use shinyproxy_rust.Base.Dict.{lookup, insert, lookup-insert}
use shinyproxy_rust.Base.Result.{ok, err}
use shinyproxy_rust.Model.Proxies.{Proxy, Container, container_mut, add_runtime_value}
use shinyproxy_rust.Model.RuntimeValues.{
  get, RuntimeValueKey, string_value, RuntimeValues, value_string-add, to_value_string, Json,
  value_string,
}
use shinyproxy_rust.Model.Keys
use shinyproxy_rust.Sharing.Seats.{Seat, DelegateProxy}
use shinyproxy_rust.Sharing.SeatStore.{MemorySeatStore, release_seat, seat, claim_seat}
use shinyproxy_rust.Sharing.SeatStore.Invariant.{Inv, claim_seat-Inv}
use shinyproxy_rust.Sharing.SeatStore.Claims.{release_seat-holder, holder, claim_seat_sound}
use shinyproxy_rust.Sharing.Delegates.{delegate_proxy}
use shinyproxy_rust.Sharing.Dispatcher.{
  delegate_disappeared, no_seat, copy_container, copy_value, Dispatcher, wait_for_seat, obtain_seat,
  iterations, add_pending, start_proxy, stop_proxy, point_at, remove_pending,
}

add_pending-Inv :
    (d : Dispatcher) (proxy_id : String) → Inv d.seats → Inv (add_pending d proxy_id).seats
unfolding add_pending
add_pending-Inv d proxy_id v = elim (Bool-cases (contains d.pending proxy_id)) [
  | inl e ↦ rw e v
  | inr e ↦ rw e v
]

copy_container-values :
    (cs : List Container) (uuid : String) (p : Proxy)
    → ((copy_container cs uuid p).runtime_values ≡ p.runtime_values)
      × ((copy_container cs uuid p).target_id ≡ p.target_id)
unfolding copy_container container_mut
copy_container-values [] uuid p = (refl, refl)
copy_container-values (c ∷ cs) uuid p = (refl, refl)

copy_value-target_id :
    (source : RuntimeValues) (key : RuntimeValueKey) (p : Proxy)
    → (copy_value source key p).target_id ≡ p.target_id
unfolding copy_value add_runtime_value
copy_value-target_id source key p = elim (Option-cases (get source key)) [
  | inl e ↦ rw (e, copy_value) refl
  | inr (value, e) ↦ rw (e, copy_value) refl
]

-- The app remembers its seat under the key `seat_id`, and points at the delegate proxy.
point_at_lem :
    (print_json : Json → String) (delegate : DelegateProxy) (s : Seat) (uuid : String) (p : Proxy)
    → (value_string print_json (point_at delegate s uuid p).runtime_values Keys.seat_id ≡ some s.id)
      × ((point_at delegate s uuid p).target_id ≡ some delegate.proxy.id)
unfolding point_at add_runtime_value to_value_string
point_at_lem print_json delegate s uuid p =
    let copied = copy_container-values delegate.proxy.containers uuid _ in
    (
      rw copied.0 (value_string-add print_json _ (string_value Keys.seat_id s.id)),
      copied.1 ∙ copy_value-target_id delegate.proxy.runtime_values Keys.public_path _,
    )

release_seat-free :
    (s : MemorySeatStore) (seat_id : String)
    → (holder (release_seat s seat_id) seat_id ≡ none)
      × (is_some (seat (release_seat s seat_id) seat_id) ≡ is_some (seat s seat_id))
unfolding release_seat seat
release_seat-free s seat_id = elim (Option-cases (lookup seat_id s.seats)) [
  | inl e ↦ rw (e, release_seat, e) (refl, refl)
  | inr (entry, e) ↦
      let free : Seat = record entry { delegating_proxy_id = none } in
      let found : lookup seat_id (insert seat_id free s.seats) ≡ some free =
        ground (arith, lookup-insert seat_id seat_id free s.seats, str_eq_iff seat_id seat_id) in
      rw (e, release_seat, found) (refl, refl)
]

module _ (tick : ℕ → Dispatcher → Dispatcher)
    (tick-Inv : (n : ℕ) (d : Dispatcher) → Inv d.seats → Inv (tick n d).seats) where
  -- The seat that the wait produced is the one that the store has under its id, and the user holds it.
  abbrev pub Obtained : String → Dispatcher × Option Seat → Type 0
  Obtained proxy_id r =
      Inv r.0.seats
      × ((s : Seat)
          → r.1 ≡ some s
          → (holder r.0.seats s.id ≡ some proxy_id) × (seat r.0.seats s.id ≡ some s))

  claim-Obtained :
      (d : Dispatcher) (proxy_id : String)
      → Inv d.seats
      → let r = claim_seat d.seats proxy_id in Obtained proxy_id (record d { seats = r.0 }, r.1)
  unfolding seat
  claim-Obtained d proxy_id v = (
    claim_seat-Inv d.seats proxy_id v,
    λ s e. let sound = claim_seat_sound d.seats proxy_id s v e in (sound.2, sound.4),
  )

  wait_for_seat-Obtained :
      (proxy_id : String) (n attempt : ℕ) (d : Dispatcher)
      → Inv d.seats
      → Obtained proxy_id (wait_for_seat tick proxy_id n attempt d)
  unfolding wait_for_seat
  wait_for_seat-Obtained proxy_id zero attempt d v = (v, λ s e. absurd (ground (arith, e)))
  wait_for_seat-Obtained proxy_id (suc n) attempt d v =
      let slept = tick attempt d in
      let tried = claim-Obtained slept proxy_id (tick-Inv attempt d v) in
      elim (Bool-cases (is_some (claim_seat slept.seats proxy_id).1)) [
        | inl e ↦ rw e tried
        | inr e ↦ rw e (wait_for_seat-Obtained proxy_id n (suc attempt) _ tried.0)
      ]

  pub obtain_seat-Obtained :
      (d : Dispatcher) (proxy_id : String)
      → Inv d.seats
      → Obtained proxy_id (obtain_seat tick d proxy_id)
  unfolding obtain_seat
  obtain_seat-Obtained d proxy_id v =
      let tried = claim-Obtained d proxy_id v in
      elim (Bool-cases (is_some (claim_seat d.seats proxy_id).1)) [
        | inl e ↦ rw e tried
        | inr e ↦ rw e (
            wait_for_seat-Obtained proxy_id (iterations d.seat_wait_time) 0 _
              (add_pending-Inv _ proxy_id tried.0))
      ]

  -- A start that succeeds gives the app a seat of the store: the app holds it, remembers its id,
  -- and has as its target the delegate proxy that the seat in the store belongs to; the store
  -- satisfies its invariant at the start, and what runs during the sleeps keeps it.
  pub start_proxy_lem :
      (print_json : Json → String) (uuid : String) (d : Dispatcher) (proxy started : Proxy)
      → Inv d.seats
      → (start_proxy tick uuid d proxy).1 ≡ ok started
      → let left = (start_proxy tick uuid d proxy).0 in
        (s : Seat) × (delegate : DelegateProxy) × (value_string print_json started.runtime_values
            Keys.seat_id
          ≡ some s.id)
        × (holder left.seats s.id ≡ some proxy.id)
        × (seat left.seats s.id ≡ some s)
        × (delegate_proxy left.delegates s.delegate_proxy_id ≡ some delegate)
        × (started.target_id ≡ some delegate.proxy.id)
  unfolding start_proxy remove_pending
  start_proxy_lem print_json uuid d proxy started v e =
      let obtained = obtain_seat tick d proxy.id in
      let held = obtain_seat-Obtained d proxy.id v in
      elim (Option-cases obtained.1) [
        | inl none_got ↦
            let failed : (start_proxy tick uuid d proxy).1 ≡ err no_seat =
              rw (none_got, start_proxy) refl in
            absurd (ground (arith, e, failed))
        | inr (s, got) ↦
            elim (Option-cases (delegate_proxy obtained.0.delegates s.delegate_proxy_id)) [
              | inl gone ↦
                  let failed : (start_proxy tick uuid d proxy).1
                      ≡ err (delegate_disappeared s.delegate_proxy_id s.id) =
                    rw (got, start_proxy, gone) refl in
                  absurd (ground (arith, e, failed))
              | inr (delegate, found) ↦
                  let left = remove_pending obtained.0 proxy.id in
                  let worked : start_proxy tick uuid d proxy
                      ≡ (left, ok (point_at delegate s uuid proxy)) =
                    rw (got, start_proxy, found) refl in
                  let same : started ≡ point_at delegate s uuid proxy = cc in
                  let points = point_at_lem print_json delegate s uuid proxy in
                  rw (worked, same)
                    (s, delegate, points.0, (held.1 s got).0, (held.1 s got).1, found, points.1)
            ]
      ]

-- Stopping an app that remembers a seat frees that seat, hands back what the store then has of it,
-- which is a seat exactly if the store had one before, and leaves the holder of every other seat
-- as it was.
pub stop_proxy_lem :
    (print_json : Json → String) (d : Dispatcher) (proxy : Proxy) (seat_id : String)
    → value_string print_json proxy.runtime_values Keys.seat_id ≡ some seat_id
    → let stopped = stop_proxy print_json d proxy in
      (holder stopped.0.seats seat_id ≡ none)
      × (stopped.1 ≡ seat stopped.0.seats seat_id)
      × (is_some stopped.1 ≡ is_some (seat d.seats seat_id))
      × ((id : String) → seat_id ≢ id → holder stopped.0.seats id ≡ holder d.seats id)
unfolding stop_proxy seat remove_pending
stop_proxy_lem print_json d proxy seat_id e =
    let freed = release_seat-free d.seats seat_id in
    rw (e, stop_proxy) (freed.0, refl, freed.1, λ id ne. release_seat-holder d.seats seat_id id ne)
