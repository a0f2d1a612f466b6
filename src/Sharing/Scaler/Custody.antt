-- ===== src/Sharing/Scaler/Custody.antt =====
-- The seat that a user holds, through each operation of the scaler.
use shinyproxy_rust.Base.{
  ℕ, zero, suc, String, str_eq_iff, ◌≡◌, ◌≢◌, inl, inr, Bool, true, false, none, some, List, [],
  ◌∷◌, arith, Bool-cases, Option-cases,
}
use shinyproxy_rust.Base.Dict.{lookup, lookup-insert}
use shinyproxy_rust.Sharing.Seats.{DelegateProxy, is_claimed, seats_per_container, new_seat}
use shinyproxy_rust.Sharing.SeatStore.{
  MemorySeatStore, seat, add_seat, remove_seat_info, remove_seats_if_unclaimed,
}
use shinyproxy_rust.Sharing.SeatStore.Invariant.{
  Inv, remove_seat_info-Inv, remove_seats_if_unclaimed-Inv,
}
use shinyproxy_rust.Sharing.SeatStore.Claims.{holder}
use shinyproxy_rust.Sharing.SeatStore.History.{step, step-holder, removes, removes_if_unclaimed}
use shinyproxy_rust.Sharing.Delegates.{all_delegate_proxies, delegate_proxy}
use shinyproxy_rust.Sharing.Scaler.State.{Config, Scaler}
use shinyproxy_rust.Sharing.Scaler.Create.{Attempt, create_one, add_seats, seats_from}
use shinyproxy_rust.Sharing.Scaler.Create
use shinyproxy_rust.Sharing.Scaler.Create.Outcome.{create_one-seats, succeeds}
use shinyproxy_rust.Sharing.Scaler.Removal.{
  scale_down_by, cleanup, pick_marked, keep_claimed, mark, mark_for_removal, mark_each, may_clean,
}
use shinyproxy_rust.Sharing.Scaler.Removal.Effects.{
  pick_free-keeps, pick_marked-keeps, remove_delegate_proxies-seats,
}
use shinyproxy_rust.Sharing.Scaler.Reconcile.Target.{scale_down_by-seats}

module _ (id proxy_id : String) where
  -- The proxy holds the seat, in a store that satisfies its invariant.
  abbrev pub Held : MemorySeatStore → Type 0
  Held s = Inv s × (holder s id ≡ some proxy_id)

  remove_free-Held :
      (s : MemorySeatStore) (ids : List String) → Held s → Held (remove_seats_if_unclaimed s ids).0
  unfolding step
  remove_free-Held s ids h = (
    remove_seats_if_unclaimed-Inv s ids h.0,
    step-holder s (removes_if_unclaimed ids) id proxy_id tt tt h.0 h.1,
  )

  pub remove_other-Held :
      (s : MemorySeatStore) (seat_id : String)
      → seat_id ≢ id
      → Held s
      → Held (remove_seat_info s seat_id)
  unfolding step
  remove_other-Held s seat_id ne h = (
    remove_seat_info-Inv s seat_id h.0,
    step-holder s (removes seat_id) id proxy_id tt ne h.0 h.1,
  )

  -- A seat that is not claimed is not the seat that the proxy holds.
  not-Held :
      (s : MemorySeatStore) (seat_id : String) → Held s → holder s seat_id ≡ none → seat_id ≢ id
  not-Held s seat_id h free same = absurd (ground (arith, h.1, free, same))

  keep_claimed-Held :
      (s : MemorySeatStore) (ids : List String) → Held s → Held (keep_claimed s ids).0
  unfolding keep_claimed seat
  keep_claimed-Held s [] h = h
  keep_claimed-Held s (seat_id ∷ rest) h =
      let forgotten = keep_claimed-Held (remove_seat_info s seat_id) rest in
      elim (Option-cases (lookup seat_id s.seats)) [
        | inl e ↦
            rw (e, keep_claimed)
              (forgotten (remove_other-Held s seat_id (not-Held s seat_id h (rw e)) h))
        | inr (entry, e) ↦ elim (Bool-cases (is_claimed entry)) [
          | inl claimed ↦ rw (e, keep_claimed, claimed) (keep_claimed-Held s rest h)
          | inr free ↦
              let ne = not-Held s seat_id h (rw e (ground (arith, free))) in
              rw (e, keep_claimed, free) (forgotten (remove_other-Held s seat_id ne h))
        ]
      ]

  pub mark_for_removal-Held :
      (s : Scaler) (delegate_id : String)
      → Held s.seats
      → Held (mark_for_removal s delegate_id).seats
  unfolding mark_for_removal mark
  mark_for_removal-Held s delegate_id h =
      elim (Option-cases (delegate_proxy s.delegates delegate_id)) [
        | inl e ↦ rw (e, mark_for_removal) h
        | inr (d, e) ↦ rw (e, mark_for_removal) (keep_claimed-Held s.seats d.seat_ids h)
      ]

  pub mark_each-Held :
      (ds : List DelegateProxy) (s : Scaler) → Held s.seats → Held (mark_each s ds).seats
  unfolding mark_each
  mark_each-Held [] s h = h
  mark_each-Held (d ∷ ds) s h =
      mark_each-Held ds (mark_for_removal s d.proxy.id) (mark_for_removal-Held s d.proxy.id h)

  pub cleanup-Held :
      (is_leader : Bool) (s : Scaler) → Held s.seats → Held (cleanup is_leader s).seats
  unfolding cleanup
  cleanup-Held false s h = h
  cleanup-Held true s h = elim (Bool-cases (may_clean s.status)) [
    | inr e ↦ rw e h
    | inl e ↦
        let picked = pick_marked s.seats (all_delegate_proxies s.delegates) in
        let cleaned : Scaler = record s { seats = picked.0 } in
        rw (e, (remove_delegate_proxies-seats picked.1 cleaned).0)
          (pick_marked-keeps Held remove_free-Held s.seats (all_delegate_proxies s.delegates) h)
  ]

  pub scale_down_by-Held : (s : Scaler) (n : ℕ) → Held s.seats → Held (scale_down_by s n).seats
  scale_down_by-Held s n h =
      rw (scale_down_by-seats s n).0
        (pick_free-keeps Held remove_free-Held n s.seats (all_delegate_proxies s.delegates) h)

  -- None of the new seats gets the id of the seat that is held.
  abbrev pub FreshSeats : (ℕ → Attempt) → Type 0
  FreshSeats attempts = (n k : ℕ) → (attempts n).seat_uuid k ≢ id

  add_seats-holder :
      (n from : ℕ) (uuid : ℕ → String) (s : MemorySeatStore) (delegate_id : String)
      → ((k : ℕ) → uuid k ≢ id)
      → holder s id ≡ some proxy_id
      → holder (add_seats s delegate_id (seats_from n from uuid)) id ≡ some proxy_id
  unfolding add_seats seats_from add_seat
  add_seats-holder zero from uuid s delegate_id fresh h = h
  add_seats-holder (suc n) from uuid s delegate_id fresh h =
      add_seats-holder n (suc from) uuid (add_seat s (new_seat (uuid from) delegate_id)) delegate_id
        fresh
        (ground (
          arith,
          str_eq_iff (uuid from) id,
          fresh from,
          lookup-insert (uuid from) id (new_seat (uuid from) delegate_id) s.seats,
        ))

  pub scale_up-holder :
      (c : Config) (n : ℕ) (s : Scaler) (attempts : ℕ → Attempt)
      → FreshSeats attempts
      → holder s.seats id ≡ some proxy_id
      → holder (Create.scale_up c s n attempts).seats id ≡ some proxy_id
  unfolding Create.scale_up
  scale_up-holder c zero s attempts fresh h = h
  scale_up-holder c (suc n) s attempts fresh h =
      let a = attempts 0 in
      scale_up-holder c n (create_one c s a) (λ k. attempts (suc k)) (λ k. fresh (suc k))
        (elim (Bool-cases (succeeds a)) [
          | inl e ↦
              rw ((create_one-seats c s a).0, e)
                (add_seats-holder (seats_per_container c.extension) 0 a.seat_uuid s.seats a.id
                  (fresh 0) h)
          | inr e ↦ rw ((create_one-seats c s a).0, e) h
        ])
