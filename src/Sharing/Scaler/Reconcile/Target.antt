-- ===== src/Sharing/Scaler/Reconcile/Target.antt =====
-- The number of free seats after a round of `reconcile`.
use shinyproxy_rust.Base.{
  ℕ, zero, suc, ◌+◌, ◌-◌, ◌*◌, ◌/◌, ◌≤◌, ◌<◌, ◌≡◌, refl, ◌∙◌, ◌⊎◌, inl, inr, true, false, some,
  arith,
}
use shinyproxy_rust.Base.Int.{◌<ℤ◌, parts_zero, pos, pos_part, ◌+ℤ◌, ◌-ℤ◌, ◌≤ℤ◌, int_laws}
use native.Mathlib.Nat.{div-add-mod, mod-lt}
use shinyproxy_rust.Sharing.Seats.{minimum_seats_available, seats_per_container}
use shinyproxy_rust.Sharing.SeatStore.{unclaimed_count}
use shinyproxy_rust.Sharing.SeatStore.Invariant.{Inv}
use shinyproxy_rust.Sharing.Delegates.{all_delegate_proxies, Every}
use shinyproxy_rust.Sharing.Scaler.Removal.{scale_down_by, pick_free}
use shinyproxy_rust.Sharing.Scaler.Removal.Effects.{
  AtMost, pick_free-unclaimed, remove_delegate_proxies-seats,
}
use shinyproxy_rust.Sharing.Scaler.State.{Config, Scaler, ReconcileStatus}
use shinyproxy_rust.Sharing.Scaler.Create.{scale_up, Attempt, create_one}
use shinyproxy_rust.Sharing.Scaler.Create
use shinyproxy_rust.Sharing.Scaler.Create.Outcome.{
  succeeds, create_one-seats, unclaimed_count-add_seats, length-seats_from,
}
use shinyproxy_rust.Sharing.Scaler.Reconcile.{
  Round, available_seats, at_maximum, containers_for, reconcile,
}

-- Ceiling division: enough containers, and none to spare.
pub containers_for_lem :
    (missing per : ℕ)
    → 0 < per
    → (missing ≤ containers_for missing per * per)
      × (containers_for missing per * per < missing + per)
unfolding containers_for
containers_for_lem missing per h =
    let n = missing + per - 1 in
    let split = div-add-mod n per in let small = mod-lt n h in omega arith

create_one-unclaimed :
    (c : Config) (s : Scaler) (a : Attempt)
    → succeeds a ≡ true
    → unclaimed_count (create_one c s a).seats
      ≡ unclaimed_count s.seats + seats_per_container c.extension
create_one-unclaimed c s a good = rw (
  (create_one-seats c s a).0,
  good,
  unclaimed_count-add_seats,
  length-seats_from (seats_per_container c.extension) 0 a.seat_uuid,
)

pub scale_up-seats :
    (c : Config) (s : Scaler) (count : ℕ) (attempts : ℕ → Attempt)
    → ((n : ℕ) → n < count → succeeds (attempts n) ≡ true)
    → (unclaimed_count (Create.scale_up c s count attempts).seats
        ≡ unclaimed_count s.seats + count * seats_per_container c.extension)
      × ((Create.scale_up c s count attempts).pending_seats ≡ s.pending_seats)
unfolding Create.scale_up
scale_up-seats c s zero attempts h = (omega arith, refl)
scale_up-seats c s (suc count) attempts h =
    let a = attempts 0 in
    let one = create_one-unclaimed c s a (h 0 (omega arith)) in
    let kept = (create_one-seats c s a).1 in
    let rest =
      scale_up-seats c (create_one c s a) count (λ n. attempts (suc n))
        (λ n k. h (suc n) (omega arith)) in
    (omega (arith, rest.0, one), rest.1 ∙ kept)

-- The branch of `reconcile` that scales up.
reconcile_up :
    (c : Config) (r : Round) (s : Scaler)
    → r.is_leader ≡ true
    → available_seats s r.pending_users <ℤ minimum_seats_available c.extension
    → at_maximum c s ≡ false
    → let missing =
        pos_part (minimum_seats_available c.extension -ℤ available_seats s r.pending_users) in
      reconcile c r s
      ≡ record (Create.scale_up c
          (record s { status = ReconcileStatus.scale_up })
          (containers_for missing (seats_per_container c.extension))
          r.attempts) { last_scale_up = some r.after_scale_up }
unfolding reconcile
reconcile_up c r s lead low room = ground arith

-- A round that finds too few free seats, on the leader and below the maximum, leaves at least the
-- minimum free when its containers all start, and less than one container more than that.
pub reconcile_reaches_minimum :
    (c : Config) (r : Round) (s : Scaler)
    → r.is_leader ≡ true
    → available_seats s r.pending_users <ℤ minimum_seats_available c.extension
    → at_maximum c s ≡ false
    → ((n : ℕ) → succeeds (r.attempts n) ≡ true)
    → let free = available_seats (reconcile c r s) r.pending_users in
      let minimum = minimum_seats_available c.extension in
      (minimum ≤ℤ free) × (free <ℤ minimum +ℤ pos (seats_per_container c.extension))
reconcile_reaches_minimum c r s lead low room good =
    let minimum = minimum_seats_available c.extension in
    let per = seats_per_container c.extension in
    let free = available_seats s r.pending_users in
    let missing = pos_part (minimum -ℤ free) in
    let up =
      scale_up-seats c (record s { status = ReconcileStatus.scale_up }) (containers_for missing per)
        r.attempts (λ n _. good n) in
    rw (reconcile_up c r s lead low room, up.0, up.1)
      (omega (
        int_laws,
        containers_for_lem missing per (unfold seats_per_container in omega arith),
        parts_zero (minimum -ℤ free),
      ))

pub scale_down_by-seats :
    (s : Scaler) (count : ℕ)
    → ((scale_down_by s count).seats
        ≡ (pick_free s.seats count (all_delegate_proxies s.delegates)).0)
      × ((scale_down_by s count).pending_seats ≡ s.pending_seats)
unfolding scale_down_by
scale_down_by-seats s count =
    let picked = pick_free s.seats count (all_delegate_proxies s.delegates) in
    remove_delegate_proxies-seats picked.1 (record s { seats = picked.0 })

-- With enough free seats a round leaves the seats alone or scales down by the surplus.
reconcile_down :
    (c : Config) (r : Round) (s : Scaler)
    → minimum_seats_available c.extension ≤ℤ available_seats s r.pending_users
    → let surplus =
        pos_part (available_seats s r.pending_users -ℤ minimum_seats_available c.extension) in
      (((reconcile c r s).seats ≡ s.seats) × ((reconcile c r s).pending_seats ≡ s.pending_seats))
      ⊎ (reconcile c r s
          ≡ scale_down_by
              (record s { status = ReconcileStatus.scale_down })
              (surplus / seats_per_container c.extension))
unfolding reconcile
reconcile_down c r s enough = ground arith

-- A round that finds enough free seats leaves at least the minimum free, in a store that satisfies
-- its invariant, when no container offers more seats than the configuration gives it.
pub reconcile_keeps_minimum :
    (c : Config) (r : Round) (s : Scaler)
    → Inv s.seats
    → Every (AtMost (seats_per_container c.extension)) (all_delegate_proxies s.delegates)
    → minimum_seats_available c.extension ≤ℤ available_seats s r.pending_users
    → minimum_seats_available c.extension ≤ℤ available_seats (reconcile c r s) r.pending_users
reconcile_keeps_minimum c r s v small enough =
    let minimum = minimum_seats_available c.extension in
    let per = seats_per_container c.extension in
    let surplus = pos_part (available_seats s r.pending_users -ℤ minimum) in
    let down = record s { status = ReconcileStatus.scale_down } in
    elim (reconcile_down c r s enough) [
      | inl (kept, still) ↦ rw (kept, still) enough
      | inr e ↦
          rw
            (
              e,
              (scale_down_by-seats down (surplus / per)).0,
              (scale_down_by-seats down (surplus / per)).1,
            )
            (omega (
              int_laws,
              parts_zero (available_seats s r.pending_users -ℤ minimum),
              div-add-mod surplus per,
              pick_free-unclaimed per (surplus / per) s.seats (all_delegate_proxies s.delegates) v
                  small,
            ))
    ]
