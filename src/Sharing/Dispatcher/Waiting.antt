-- ===== src/Sharing/Dispatcher/Waiting.antt =====
-- How long a user waits, and who is in the waiting list.
use shinyproxy_rust.Base.{
  ℕ, zero, suc, ◌+◌, ◌-◌, ◌*◌, ◌≤◌, ◌<◌, String, str_eq_iff, ◌≡◌, refl, sym, ap, subst, ◌∙◌, ◌⊎◌,
  inl, inr, false, Option, none, some, arith, Bool-cases, Option-cases, contains, without,
  contains-without,
}
use shinyproxy_rust.Base.Int.{ℤ, pos, ltb_ℤ}
use shinyproxy_rust.Model.Proxies.{Proxy}
use shinyproxy_rust.Base.Result.{Result, ok, err}
use shinyproxy_rust.Sharing.SeatStore.{release_seat}
use shinyproxy_rust.Sharing.Seats.{Seat, DelegateProxy}
use shinyproxy_rust.Sharing.Dispatcher.{
  delegate_proxy, obtain_seat, StartError, claim, add_pending, point_at, delegate_disappeared,
  no_seat, wait_for_seat, Dispatcher, iterations, seat_wait_step, seat_wait_time_of, start_proxy,
  remove_pending,
}
use native.Mathlib.Nat.{div-add-mod, mod-lt}

at_least_a_step :
    (configured : Option ℤ) (wait_time : ℕ)
    → seat_wait_time_of configured ≡ ok wait_time
    → seat_wait_step ≤ wait_time
unfolding seat_wait_time_of
at_least_a_step none wait_time e = ground arith
at_least_a_step (some value) wait_time e = elim (Bool-cases (ltb_ℤ value (pos 3000))) [
  | inl low ↦ absurd (ground (arith, e, low))
  | inr high ↦ ground (arith, e, high)
]

iterations_lem :
    (configured : Option ℤ) (wait_time : ℕ)
    → seat_wait_time_of configured ≡ ok wait_time
    → (wait_time ≤ iterations wait_time * seat_wait_step)
      × (iterations wait_time * seat_wait_step < wait_time + seat_wait_step)
unfolding seat_wait_time_of iterations
iterations_lem configured wait_time e =
    let n = wait_time + seat_wait_step - 1 in
    let split = div-add-mod n seat_wait_step in
    let some_step : 0 < seat_wait_step = omega arith in
    let small = mod-lt n some_step in omega (arith, at_least_a_step configured wait_time e)

module _ (tick : ℕ → Dispatcher → Dispatcher) (proxy_id : String) (d : Dispatcher) where
  -- The user has claimed in vain at once, and after each of the sleeps that are counted; between
  -- the claims the server ran as `tick` says.
  pub data Waited : ℕ → Dispatcher → Type 0 where
    not_at_once : (claim d proxy_id).1 ≡ none → Waited 0 (add_pending (claim d proxy_id).0 proxy_id)
    not_after :
        {n : ℕ} {e : Dispatcher}
        → Waited n e
        → (claim (tick n e) proxy_id).1 ≡ none
        → Waited (suc n) (claim (tick n e) proxy_id).0

  -- How a wait ends that has `limit` sleeps.
  abbrev Ended : ℕ → Dispatcher × Option Seat → Type 0
  Ended limit r =
      ((e : Dispatcher) × Waited limit e × (r ≡ (e, none)))
      ⊎ ((n : ℕ) × (e : Dispatcher) × (s : Seat) × Waited n e
          × (n < limit)
          × (r ≡ ((claim (tick n e) proxy_id).0, some s))
          × ((claim (tick n e) proxy_id).1 ≡ some s))

  wait_for_seat-Ended :
      (left n : ℕ) (e : Dispatcher)
      → Waited n e
      → Ended (left + n) (wait_for_seat tick proxy_id left n e)
  unfolding wait_for_seat
  wait_for_seat-Ended zero n e w =
      let count : n ≡ 0 + n = omega arith in inl (e, subst (λ k. Waited k e) count w, refl)
  wait_for_seat-Ended (suc left) n e w = elim (Option-cases (claim (tick n e) proxy_id).1) [
    | inl none_got ↦
        let later = wait_for_seat-Ended left (suc n) _ (not_after w none_got) in
        let same : wait_for_seat tick proxy_id (suc left) n e
            ≡ wait_for_seat tick proxy_id left (suc n) (claim (tick n e) proxy_id).0 =
          rw none_got refl in
        let count : left + suc n ≡ suc left + n = omega arith in
        subst (Ended (suc left + n)) (sym same) (
          subst
            (λ k. Ended k (wait_for_seat tick proxy_id left (suc n) (claim (tick n e) proxy_id).0))
            count later)
    | inr (s, got) ↦ inr (n, e, s, w, omega arith, rw got refl, got)
  ]

  -- A start goes on with a seat: the app points at the delegate proxy of the seat,
  -- or that one is gone and the seat is released.
  abbrev Served : String → Proxy → Dispatcher → Seat → Type 0
  Served uuid proxy e s =
      ((delegate : DelegateProxy) × (delegate_proxy e.delegates s.delegate_proxy_id ≡ some delegate)
        × (start_proxy tick uuid d proxy
            ≡ (remove_pending e proxy_id, ok (point_at delegate s uuid proxy))))
      ⊎ ((delegate_proxy e.delegates s.delegate_proxy_id ≡ none)
          × (start_proxy tick uuid d proxy ≡ (
            record (remove_pending e proxy_id) { seats = release_seat e.seats s.id },
            err (delegate_disappeared s.delegate_proxy_id s.id),
          )))

-- What a start makes of the end of the wait.
concluded : String → Proxy → Dispatcher × Option Seat → Dispatcher × Result Proxy StartError
concluded uuid proxy obtained =
    let left = remove_pending obtained.0 proxy.id in
    elim obtained.1 [
      | none ↦ (left, err no_seat)
      | some s ↦ elim (delegate_proxy left.delegates s.delegate_proxy_id) [
        | none ↦ (
          record left { seats = release_seat left.seats s.id },
          err (delegate_disappeared s.delegate_proxy_id s.id),
        )
        | some delegate ↦ (left, ok (point_at delegate s uuid proxy))
      ]
    ]

start_proxy-concluded :
    (tick : ℕ → Dispatcher → Dispatcher) (uuid : String) (d : Dispatcher) (proxy : Proxy)
    → start_proxy tick uuid d proxy ≡ concluded uuid proxy (obtain_seat tick d proxy.id)
unfolding start_proxy concluded
start_proxy-concluded tick uuid d proxy = refl

obtained-Served :
    (tick : ℕ → Dispatcher → Dispatcher) (uuid : String) (d : Dispatcher) (proxy : Proxy)
    (e : Dispatcher) (s : Seat)
    → obtain_seat tick d proxy.id ≡ (e, some s)
    → Served tick proxy.id d uuid proxy e s
unfolding concluded remove_pending
obtained-Served tick uuid d proxy e s got =
    let ends = start_proxy-concluded tick uuid d proxy ∙ ap (concluded uuid proxy) got in
    elim (Option-cases (delegate_proxy e.delegates s.delegate_proxy_id)) [
      | inl gone ↦ inr (gone, ends ∙ rw (concluded, gone) refl)
      | inr (delegate, found) ↦ inl (delegate, found, ends ∙ rw (concluded, found) refl)
    ]

-- How a start waits: a seat at once, a seat of the first later claim that gives one, or none.
abbrev pub Waits : (ℕ → Dispatcher → Dispatcher) → String → Dispatcher → Proxy → Type 0
Waits tick uuid d proxy =
    ((s : Seat) × ((claim d proxy.id).1 ≡ some s)
      × Served tick proxy.id d uuid proxy (claim d proxy.id).0 s)
    ⊎ (((n : ℕ) × (e : Dispatcher) × (s : Seat) × Waited tick proxy.id d n e
          × (n * seat_wait_step < d.seat_wait_time)
          × ((claim (tick n e) proxy.id).1 ≡ some s)
          × Served tick proxy.id d uuid proxy (claim (tick n e) proxy.id).0 s)
        ⊎ ((n : ℕ) × (e : Dispatcher) × Waited tick proxy.id d n e
            × (d.seat_wait_time ≤ n * seat_wait_step)
            × (n * seat_wait_step < d.seat_wait_time + seat_wait_step)
            × (start_proxy tick uuid d proxy ≡ (remove_pending e proxy.id, err no_seat))))

-- With a configured wait time that is accepted, a start goes on with the seat that a claim at once
-- gives, or with the seat of the first later claim that gives one, whose sleep begins before the
-- wait time has passed; it fails for want of a seat only after claims in vain whose sleeps cover
-- the wait time, and are less than one step longer.
pub seat_wait_time_lem :
    (tick : ℕ → Dispatcher → Dispatcher) (uuid : String) (d : Dispatcher) (proxy : Proxy)
    (configured : Option ℤ)
    → seat_wait_time_of configured ≡ ok d.seat_wait_time
    → Waits tick uuid d proxy
unfolding obtain_seat concluded
seat_wait_time_lem tick uuid d proxy configured accepted =
    let bounds = iterations_lem configured d.seat_wait_time accepted in
    let limit = iterations d.seat_wait_time in
    elim (Option-cases (claim d proxy.id).1) [
      | inr (s, got) ↦
          let obtained : obtain_seat tick d proxy.id ≡ ((claim d proxy.id).0, some s) =
            rw got refl in
          inl (s, got, obtained-Served tick uuid d proxy _ s obtained)
      | inl none_got ↦
          let first = add_pending (claim d proxy.id).0 proxy.id in
          let waits : obtain_seat tick d proxy.id ≡ wait_for_seat tick proxy.id limit 0 first =
            rw none_got refl in
          elim (wait_for_seat-Ended tick proxy.id d limit 0 first (not_at_once none_got)) [
            | inl (e, w, ended) ↦
                let obtained = waits ∙ ended in
                inr (
                  inr (
                    limit + 0,
                    e,
                    w,
                    omega (arith, bounds),
                    omega (arith, bounds),
                    start_proxy-concluded tick uuid d proxy ∙ ap (concluded uuid proxy) obtained,
                  ))
            | inr (n, e, s, w, early, ended, got) ↦ inr (
                inl (
                  n,
                  e,
                  s,
                  w,
                  omega (arith, bounds),
                  got,
                  obtained-Served tick uuid d proxy _ s (waits ∙ ended),
                ))
          ]
    ]

-- A user whose start has ended, with a seat or without, is no longer in the waiting list.
pub start_proxy-pending :
    (tick : ℕ → Dispatcher → Dispatcher) (uuid : String) (d : Dispatcher) (proxy : Proxy)
    → contains (start_proxy tick uuid d proxy).0.pending proxy.id ≡ false
unfolding start_proxy remove_pending
start_proxy-pending tick uuid d proxy =
    let obtained = obtain_seat tick d proxy.id in
    let gone : contains (without proxy.id obtained.0.pending) proxy.id ≡ false = ground (
      arith,
      contains-without proxy.id obtained.0.pending proxy.id,
      str_eq_iff proxy.id proxy.id,
    ) in
    elim (Option-cases obtained.1) [
      | inl e ↦ rw (e, start_proxy) gone
      | inr (s, e) ↦ elim (Option-cases (delegate_proxy obtained.0.delegates s.delegate_proxy_id)) [
        | inl e' ↦ rw (e, start_proxy, e') gone
        | inr (delegate, e') ↦ rw (e, start_proxy, e') gone
      ]
    ]
