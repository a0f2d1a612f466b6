-- ===== src/Sharing/Scaler/Reconcile.antt =====
-- Comparing the free seats with the configuration, and the events that lead to it.
pub mod Target
use shinyproxy_rust.Base.{
  ℕ, ◌+◌, ◌-◌, ◌*◌, ◌/◌, String, str_eq, Bool, false, not, ◌&&◌, ◌||◌, Option, none, some, List, [],
  ◌∷◌, ltb, leb, ◌==◌, if◌then◌else◌,
}
use shinyproxy_rust.Base.Int.{ℤ, pos, negsuc, pos_part, ◌+ℤ◌, ◌-ℤ◌, ltb_ℤ}
use shinyproxy_rust.Sharing.Seats.{
  DelegateProxy, available, to_remove, pending, delegate_status_eq, minimum_seats_available,
  seats_per_container, scale_down_delay, allow_container_re_use,
}
use shinyproxy_rust.Sharing.SeatStore.{seat, add_to_unclaimed_seats, unclaimed_count, count}
use shinyproxy_rust.Sharing.Delegates.{delegate_proxy, all_delegate_proxies}
use shinyproxy_rust.Sharing.Scaler.State.{Config, Scaler, stable, scale_up, scale_down}
use shinyproxy_rust.Sharing.Scaler.Create
use shinyproxy_rust.Sharing.Scaler.Create.{Attempt}
use shinyproxy_rust.Sharing.Scaler.Removal.{scale_down_by, mark_for_removal, remove_seat}

-- What a round of `reconcile` reads besides the state: whether this server leads, the users that
-- wait, the clock (in nanoseconds) before and after a scale up, and the environment of each
-- delegate proxy that is created.
pub record Round : Type 0 where
  pub is_leader : Bool
  pub pending_users : ℤ
  pub now : ℕ
  pub after_scale_up : ℕ
  pub attempts : ℕ → Attempt

abbrev pub available_seats : Scaler → ℤ → ℤ
available_seats s pending_users = pos (unclaimed_count s.seats) +ℤ s.pending_seats -ℤ pending_users

-- `max_total_instances` allows no further container.
unfoldable pub at_maximum : Config → Scaler → Bool
at_maximum c s =
    ltb_ℤ (negsuc 0) c.max_total_instances
    && not (ltb_ℤ (pos (count s.seats)) c.max_total_instances)

-- The containers that give `missing` seats: ceiling division.
unfoldable pub containers_for : ℕ → ℕ → ℕ
containers_for missing per_container = (missing + per_container - 1) / per_container

abbrev pub nanos_per_second : ℕ
nanos_per_second = 1_000_000_000

-- Whether the last scale up is too recent for a scale down.
unfoldable pub too_recent : Config → Option ℕ → ℕ → Bool
too_recent c none now = false
too_recent c (some last_scale_up) now =
    ltb (now - last_scale_up) (scale_down_delay c.extension * nanos_per_second)

unfoldable pub reconcile : Config → Round → Scaler → Scaler
unfolding at_maximum containers_for too_recent
reconcile c r s =
    let free = available_seats s r.pending_users in
    let minimum = minimum_seats_available c.extension in
    let per_container = seats_per_container c.extension in
    if not r.is_leader
    then s
    else if ltb_ℤ free minimum
    then (if at_maximum c s
        then s
        else let missing = pos_part (minimum -ℤ free) in
          let s1 =
            Create.scale_up c (record s { status = scale_up })
              (containers_for missing per_container) r.attempts in
          record s1 { last_scale_up = some r.after_scale_up })
    else if ltb_ℤ (pos 0) s.pending_seats
    then record s { status = scale_up; last_scale_up = some r.now }
    else let surplus = pos_part (free -ℤ minimum) in
      if leb per_container surplus
      then (if surplus / per_container == 0
          then s
          else if too_recent c s.last_scale_up r.now
          then s
          else scale_down_by (record s { status = scale_down }) (surplus / per_container))
      else record s { status = stable }

unfoldable pub seat_released_by : Config → Round → Scaler → String → Bool → DelegateProxy → Scaler
unfolding remove_seat mark_for_removal
seat_released_by c r s seat_id crashed d =
    if crashed || not (allow_container_re_use c.extension)
    then reconcile c r (mark_for_removal (remove_seat s d seat_id) d.proxy.id)
    else if delegate_status_eq d.status available
    then record s { seats = add_to_unclaimed_seats s.seats seat_id }
    else if delegate_status_eq d.status to_remove
    then remove_seat s d seat_id
    else s

unfoldable pub seat_released : Config → Round → Scaler → String → Bool → Scaler
unfolding seat_released_by
seat_released c r s seat_id crashed = elim (seat s.seats seat_id) [
  | none ↦ s
  | some entry ↦ elim (delegate_proxy s.delegates entry.delegate_proxy_id) [
    | none ↦ s
    | some d ↦ seat_released_by c r s seat_id crashed d
  ]
]

-- The delegate proxies that are pending, or that another configuration created.
unfoldable pub mark_foreign : Config → Scaler → List DelegateProxy → Scaler
mark_foreign c s [] = s
mark_foreign c s (d ∷ ds) =
    mark_foreign c
      (if delegate_status_eq d.status pending
        then mark_for_removal s d.proxy.id
        else if not (str_eq d.proxy_spec_hash c.spec_hash)
        then mark_for_removal s d.proxy.id
        else s)
      ds

unfoldable pub on_leader_granted : Config → Round → Scaler → Scaler
unfolding mark_foreign
on_leader_granted c r s = reconcile c r (mark_foreign c s (all_delegate_proxies s.delegates))
