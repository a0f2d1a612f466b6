-- ===== src/Sharing/Scaler/Removal.antt =====
-- Removing delegate proxies: `scale_down`, `cleanup`, `mark_for_removal` and `remove_seat`.
pub mod Effects
use shinyproxy_rust.Base.{
  ℕ, zero, suc, String, Bool, true, false, not, ◌&&◌, none, some, List, [], ◌∷◌, if◌then◌else◌,
  without,
}
use shinyproxy_rust.Sharing.Seats.{
  DelegateProxy, is_claimed, available, to_remove, delegate_status_eq,
}
use shinyproxy_rust.Sharing.SeatStore.{
  MemorySeatStore, seat, remove_seat_info, remove_seats_if_unclaimed,
}
use shinyproxy_rust.Sharing.Delegates.{
  update_delegate_proxy, remove_delegate_proxy, delegate_proxy, all_delegate_proxies,
}
use shinyproxy_rust.Sharing.Scaler.State.{Scaler, ReconcileStatus, stable, scale_up, scale_down}

-- Stops the containers; an error of the backend is only logged.
unfoldable pub remove_delegate_proxies : Scaler → List DelegateProxy → Scaler
remove_delegate_proxies s [] = s
remove_delegate_proxies s (d ∷ ds) =
    remove_delegate_proxies
      (record s {
        delegates = remove_delegate_proxy s.delegates d.proxy.id;
        stopped = d.proxy.id ∷ s.stopped;
      })
      ds

-- The loop of `scale_down`: at most `count` delegate proxies whose seats are all free. The memory
-- store never reports a seat that is claimed during the removal. The caller asks for one
-- container at least.
unfoldable pub pick_free :
    MemorySeatStore → ℕ → List DelegateProxy → MemorySeatStore × List DelegateProxy
pick_free seats count [] = (seats, [])
pick_free seats zero (d ∷ ds) = (seats, [])
pick_free seats (suc count) (d ∷ ds) =
    let skip = pick_free seats (suc count) ds in
    let removal = remove_seats_if_unclaimed seats d.seat_ids in
    let taken = pick_free removal.0 count ds in
    if delegate_status_eq d.status available && removal.1 then (taken.0, d ∷ taken.1) else skip

unfoldable pub scale_down_by : Scaler → ℕ → Scaler
unfolding pick_free remove_delegate_proxies
scale_down_by s count =
    let (seats, picked) = pick_free s.seats count (all_delegate_proxies s.delegates) in
    remove_delegate_proxies (record s { seats = seats }) picked

-- The loop of `cleanup`.
unfoldable pub pick_marked :
    MemorySeatStore → List DelegateProxy → MemorySeatStore × List DelegateProxy
pick_marked seats [] = (seats, [])
pick_marked seats (d ∷ ds) =
    let skip = pick_marked seats ds in
    let removal = remove_seats_if_unclaimed seats d.seat_ids in
    let taken = pick_marked removal.0 ds in
    if not (delegate_status_eq d.status to_remove) then skip else elim d.seat_ids [
      | [] ↦ (skip.0, d ∷ skip.1)
      | _ ∷ _ ↦ if removal.1 then (taken.0, d ∷ taken.1) else skip
    ]

unfoldable pub may_clean : ReconcileStatus → Bool
may_clean stable = true
may_clean scale_down = true
may_clean scale_up = false

unfoldable pub cleanup : Bool → Scaler → Scaler
unfolding pick_marked may_clean remove_delegate_proxies
cleanup is_leader s =
    if not is_leader
    then s
    else if not (may_clean s.status)
    then s
    else let (seats, picked) = pick_marked s.seats (all_delegate_proxies s.delegates) in
      remove_delegate_proxies (record s { seats = seats }) picked

-- The seats that are still claimed are kept; the others are forgotten.
unfoldable pub keep_claimed : MemorySeatStore → List String → MemorySeatStore × List String
keep_claimed seats [] = (seats, [])
keep_claimed seats (seat_id ∷ rest) = elim (seat seats seat_id) [
  | none ↦ keep_claimed (remove_seat_info seats seat_id) rest
  | some entry ↦
      let kept = keep_claimed seats rest in
      let forgotten = keep_claimed (remove_seat_info seats seat_id) rest in
      if is_claimed entry then (kept.0, seat_id ∷ kept.1) else forgotten
]

unfoldable pub mark : Scaler → DelegateProxy → Scaler
unfolding keep_claimed
mark s d =
    let (seats, kept) = keep_claimed s.seats d.seat_ids in
    record s {
      seats = seats;
      delegates =
          update_delegate_proxy s.delegates (record d { status = to_remove; seat_ids = kept });
    }

unfoldable pub mark_for_removal : Scaler → String → Scaler
unfolding mark
mark_for_removal s delegate_proxy_id = elim (delegate_proxy s.delegates delegate_proxy_id) [
  | none ↦ s
  | some d ↦ mark s d
]

unfoldable pub mark_each : Scaler → List DelegateProxy → Scaler
mark_each s [] = s
mark_each s (d ∷ ds) = mark_each (mark_for_removal s d.proxy.id) ds

unfoldable pub mark_all_for_removal : Scaler → Scaler
unfolding mark_each mark_for_removal
mark_all_for_removal s = mark_each s (all_delegate_proxies s.delegates)

-- Forgets one seat of a delegate proxy.
unfoldable pub remove_seat : Scaler → DelegateProxy → String → Scaler
remove_seat s d seat_id = record s {
  seats = remove_seat_info s.seats seat_id;
  delegates =
      update_delegate_proxy s.delegates (record d { seat_ids = without seat_id d.seat_ids });
}
