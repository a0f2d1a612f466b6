-- ===== src/Sharing/Scaler/Events.antt =====
-- The events that the scaler reacts to, and the seats that they leave alone.
use shinyproxy_rust.Base.{
  ◌/◌, String, str_eq, ◌≡◌, ◌≢◌, ◌⊎◌, inl, inr, Bool, not, ◌||◌, some, List, [], ◌∷◌, arith,
  Bool-cases, Option-cases,
}
use shinyproxy_rust.Base.Int.{pos_part, ◌-ℤ◌}
use shinyproxy_rust.Sharing.Seats.{
  DelegateProxy, available, to_remove, pending, delegate_status_eq, minimum_seats_available,
  seats_per_container, allow_container_re_use,
}
use shinyproxy_rust.Sharing.SeatStore.{seat, add_to_unclaimed_seats}
use shinyproxy_rust.Sharing.SeatStore.Invariant.{Inv}
use shinyproxy_rust.Sharing.SeatStore.Claims.{holder}
use shinyproxy_rust.Sharing.Delegates.{all_delegate_proxies, delegate_proxy}
use shinyproxy_rust.Sharing.Scaler.State.{Config, Scaler, ReconcileStatus}
use shinyproxy_rust.Sharing.Scaler.Create
use shinyproxy_rust.Sharing.Scaler.Removal.{
  scale_down_by, cleanup, mark_for_removal, mark_all_for_removal, remove_seat,
}
use shinyproxy_rust.Sharing.Scaler.Reconcile.{
  Round, available_seats, containers_for, reconcile, seat_released_by, seat_released, mark_foreign,
  on_leader_granted,
}
use shinyproxy_rust.Sharing.Scaler.Custody.{
  Held, FreshSeats, remove_other-Held, mark_for_removal-Held, mark_each-Held, cleanup-Held,
  scale_down_by-Held, scale_up-holder,
}

-- What the scaler is called for: the periodic rounds and cleanups, the leadership, a changed
-- configuration, and a released seat. The Boolean of `cleans` says whether this server leads.
pub data ScalerEvent : Type 0 where
  reconciles : Round → ScalerEvent
  cleans : Bool → ScalerEvent
  leads : Round → ScalerEvent
  marks : String → ScalerEvent
  marks_all : ScalerEvent
  released : String → Bool → Round → ScalerEvent

unfoldable pub react : Config → Scaler → ScalerEvent → Scaler
react c s (reconciles r) = reconcile c r s
react c s (cleans is_leader) = cleanup is_leader s
react c s (leads r) = on_leader_granted c r s
react c s (marks delegate_proxy_id) = mark_for_removal s delegate_proxy_id
react c s marks_all = mark_all_for_removal s
react c s (released seat_id crashed r) = seat_released c r s seat_id crashed

-- A round leaves the seats alone, scales up, or scales down.
reconcile-seats :
    (c : Config) (r : Round) (s : Scaler)
    → let minimum = minimum_seats_available c.extension in
      let free = available_seats s r.pending_users in
      let per = seats_per_container c.extension in
      ((reconcile c r s).seats ≡ s.seats)
      ⊎ (((reconcile c r s).seats
            ≡ (Create.scale_up c
                (record s { status = ReconcileStatus.scale_up })
                (containers_for (pos_part (minimum -ℤ free)) per)
                r.attempts).seats)
          ⊎ ((reconcile c r s).seats
              ≡ (scale_down_by
                  (record s { status = ReconcileStatus.scale_down })
                  (pos_part (free -ℤ minimum) / per)).seats))
unfolding reconcile
reconcile-seats c r s = ground arith

module _ (id proxy_id : String) (c : Config) where
  reconcile-holder :
      (r : Round) (s : Scaler)
      → FreshSeats id proxy_id r.attempts
      → Held id proxy_id s.seats
      → holder (reconcile c r s).seats id ≡ some proxy_id
  reconcile-holder r s fresh h = elim (reconcile-seats c r s) [
    | inl e ↦ rw e h.1
    | inr (inl e) ↦ rw e (scale_up-holder id proxy_id c _ _ r.attempts fresh h.1)
    | inr (inr e) ↦ rw e (scale_down_by-Held id proxy_id _ _ h).1
  ]

  mark_foreign-Held :
      (ds : List DelegateProxy) (s : Scaler)
      → Held id proxy_id s.seats
      → Held id proxy_id (mark_foreign c s ds).seats
  unfolding mark_foreign
  mark_foreign-Held [] s h = h
  mark_foreign-Held (d ∷ ds) s h =
      let marked = mark_for_removal-Held id proxy_id s d.proxy.id h in
      elim (Bool-cases (delegate_status_eq d.status pending)) [
        | inl e ↦ rw (e, mark_foreign) (mark_foreign-Held ds _ marked)
        | inr e ↦ elim (Bool-cases (str_eq d.proxy_spec_hash c.spec_hash)) [
          | inl same ↦ rw (e, mark_foreign, same) (mark_foreign-Held ds s h)
          | inr other ↦ rw (e, mark_foreign, other) (mark_foreign-Held ds _ marked)
        ]
      ]

  seat_released_by-holder :
      (r : Round) (s : Scaler) (seat_id : String) (crashed : Bool) (d : DelegateProxy)
      → FreshSeats id proxy_id r.attempts
      → seat_id ≢ id
      → Held id proxy_id s.seats
      → holder (seat_released_by c r s seat_id crashed d).seats id ≡ some proxy_id
  unfolding seat_released_by remove_seat
  seat_released_by-holder r s seat_id crashed d fresh ne h =
      let forgotten = remove_other-Held id proxy_id s.seats seat_id ne h in
      elim (Bool-cases (crashed || not (allow_container_re_use c.extension))) [
        | inl e ↦ rw e (
            reconcile-holder r _ fresh
              (mark_for_removal-Held id proxy_id (remove_seat s d seat_id) d.proxy.id forgotten))
        | inr e ↦ elim (Bool-cases (delegate_status_eq d.status available)) [
          | inl up ↦ rw (e, up) (unfold add_to_unclaimed_seats in ground (arith, h.1))
          | inr up ↦ elim (Bool-cases (delegate_status_eq d.status to_remove)) [
            | inl gone ↦ rw (e, up, gone) forgotten.1
            | inr gone ↦ rw (e, up, gone) h.1
          ]
        ]
      ]

  seat_released-holder :
      (r : Round) (s : Scaler) (seat_id : String) (crashed : Bool)
      → FreshSeats id proxy_id r.attempts
      → seat_id ≢ id
      → Held id proxy_id s.seats
      → holder (seat_released c r s seat_id crashed).seats id ≡ some proxy_id
  unfolding seat_released
  seat_released-holder r s seat_id crashed fresh ne h = elim (Option-cases (seat s.seats seat_id)) [
    | inl e ↦ rw (e, seat_released) h.1
    | inr (entry, e) ↦ elim (Option-cases (delegate_proxy s.delegates entry.delegate_proxy_id)) [
      | inl e' ↦ rw (e, seat_released, e') h.1
      | inr (d, e') ↦
          rw (e, seat_released, e') (seat_released_by-holder r s seat_id crashed d fresh ne h)
    ]
  ]

  -- The event releases another seat, and creates no seat with this id.
  abbrev pub Spares : ScalerEvent → Type 0
  Spares (reconciles r) = FreshSeats id proxy_id r.attempts
  Spares (leads r) = FreshSeats id proxy_id r.attempts
  Spares (released seat_id _ r) = (seat_id ≢ id) × FreshSeats id proxy_id r.attempts
  Spares _ = Unit {0}

  -- No event of the scaler takes a seat from the user who holds it: after a round, a cleanup, a
  -- change of leader, a mark for removal or the release of another seat, the holder is the same;
  -- the ids of new seats differ from the id of the seat, and the store satisfies its invariant
  -- before the event.
  pub react-holder :
      (s : Scaler) (event : ScalerEvent)
      → Spares event
      → Inv s.seats
      → holder s.seats id ≡ some proxy_id
      → holder (react c s event).seats id ≡ some proxy_id
  unfolding react on_leader_granted mark_all_for_removal
  react-holder s (reconciles r) fresh v h = reconcile-holder r s fresh (v, h)
  react-holder s (cleans is_leader) _ v h = (cleanup-Held id proxy_id is_leader s (v, h)).1
  react-holder s (leads r) fresh v h =
      reconcile-holder r _ fresh (mark_foreign-Held (all_delegate_proxies s.delegates) s (v, h))
  react-holder s (marks delegate_id) _ v h =
      (mark_for_removal-Held id proxy_id s delegate_id (v, h)).1
  react-holder s marks_all _ v h =
      (mark_each-Held id proxy_id (all_delegate_proxies s.delegates) s (v, h)).1
  react-holder s (released seat_id crashed r) spares v h =
      seat_released-holder r s seat_id crashed spares.1 spares.0 (v, h)
