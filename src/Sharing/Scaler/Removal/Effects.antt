-- ===== src/Sharing/Scaler/Removal/Effects.antt =====
-- What removing delegate proxies does to the seats.
use shinyproxy_rust.Base.{
  List-cases, length-le-without, ℕ, zero, suc, ◌+◌, ◌*◌, ◌≤◌, String, ◌≡◌, refl, inl, inr, ◌&&◌,
  List, [], ◌∷◌, arith, Bool-cases, length,
}
use shinyproxy_rust.Sharing.Seats.{DelegateProxy, available, delegate_status_eq}
use shinyproxy_rust.Sharing.SeatStore.{
  MemorySeatStore, unclaimed_count, remove_each, remove_seats_if_unclaimed, all_offered,
  remove_seat_info,
}
use shinyproxy_rust.Sharing.SeatStore.Invariant.{
  Inv, remove_seat_info-Inv, remove_seats_if_unclaimed-Inv,
}
use shinyproxy_rust.Sharing.Delegates.{Every}
use shinyproxy_rust.Sharing.Scaler.State.{Scaler}
use shinyproxy_rust.Sharing.Scaler.Removal.{
  to_remove, pick_free, pick_marked, remove_delegate_proxies,
}

-- The container offers `n` seats at most.
abbrev pub AtMost : ℕ → DelegateProxy → Type 0
AtMost n d = length d.seat_ids ≤ n

remove_each-unclaimed :
    (s : MemorySeatStore) (ids : List String)
    → Inv s
    → unclaimed_count s ≤ unclaimed_count (remove_each s ids) + length ids
unfolding remove_each unclaimed_count remove_seat_info
remove_each-unclaimed s [] v = omega arith
remove_each-unclaimed s (id ∷ rest) v = omega (
  arith,
  length-le-without id s.unclaimed v.distinct,
  remove_each-unclaimed (remove_seat_info s id) rest (remove_seat_info-Inv s id v),
)

pub remove_seats_if_unclaimed-unclaimed :
    (s : MemorySeatStore) (ids : List String)
    → Inv s
    → unclaimed_count s ≤ unclaimed_count (remove_seats_if_unclaimed s ids).0 + length ids
unfolding remove_seats_if_unclaimed
remove_seats_if_unclaimed-unclaimed s ids v = elim (Bool-cases (all_offered s.unclaimed ids)) [
  | inl e ↦ rw e (remove_each-unclaimed s ids v)
  | inr e ↦ rw e (omega arith)
]

pub remove_delegate_proxies-seats :
    (ds : List DelegateProxy) (s : Scaler)
    → ((remove_delegate_proxies s ds).seats ≡ s.seats)
      × ((remove_delegate_proxies s ds).pending_seats ≡ s.pending_seats)
unfolding remove_delegate_proxies
remove_delegate_proxies-seats [] s = (refl, refl)
remove_delegate_proxies-seats (d ∷ ds) s = remove_delegate_proxies-seats ds _

-- Picking `count` containers of `per` seats takes `count * per` free seats at most.
pub pick_free-unclaimed :
    (per count : ℕ) (seats : MemorySeatStore) (ds : List DelegateProxy)
    → Inv seats
    → Every (AtMost per) ds
    → unclaimed_count seats ≤ unclaimed_count (pick_free seats count ds).0 + count * per
unfolding pick_free
pick_free-unclaimed per zero seats [] v h = omega arith
pick_free-unclaimed per (suc count) seats [] v h = omega arith
pick_free-unclaimed per zero seats (d ∷ ds) v h = omega arith
pick_free-unclaimed per (suc count) seats (d ∷ ds) v h =
    let removal = remove_seats_if_unclaimed seats d.seat_ids in
    let removed = remove_seats_if_unclaimed-unclaimed seats d.seat_ids v in
    let taken =
      pick_free-unclaimed per count removal.0 ds (remove_seats_if_unclaimed-Inv seats d.seat_ids v)
        h.1 in
    let skip = pick_free-unclaimed per (suc count) seats ds v h.1 in
    elim (Bool-cases (delegate_status_eq d.status available && removal.1)) [
      | inl e ↦ rw e (omega (arith, h.0))
      | inr e ↦ rw e skip
    ]

-- A property of seat stores that removing free seats keeps.
module _ {ℓ} (P : MemorySeatStore → Type ℓ)
    (keep : (s : MemorySeatStore) (ids : List String)
      → P s
      → P (remove_seats_if_unclaimed s ids).0) where
  pub pick_free-keeps :
      (count : ℕ) (seats : MemorySeatStore) (ds : List DelegateProxy)
      → P seats
      → P (pick_free seats count ds).0
  unfolding pick_free
  pick_free-keeps zero seats [] p = p
  pick_free-keeps (suc count) seats [] p = p
  pick_free-keeps zero seats (d ∷ ds) p = p
  pick_free-keeps (suc count) seats (d ∷ ds) p =
      let removal = remove_seats_if_unclaimed seats d.seat_ids in
      let taken = pick_free-keeps count removal.0 ds (keep seats d.seat_ids p) in
      let skip = pick_free-keeps (suc count) seats ds p in
      elim (Bool-cases (delegate_status_eq d.status available && removal.1)) [
        | inl e ↦ rw e taken
        | inr e ↦ rw e skip
      ]

  pub pick_marked-keeps :
      (seats : MemorySeatStore) (ds : List DelegateProxy) → P seats → P (pick_marked seats ds).0
  unfolding pick_marked
  pick_marked-keeps seats [] p = p
  pick_marked-keeps seats (d ∷ ds) p =
      let removal = remove_seats_if_unclaimed seats d.seat_ids in
      let taken = pick_marked-keeps removal.0 ds (keep seats d.seat_ids p) in
      let skip = pick_marked-keeps seats ds p in
      elim (Bool-cases (delegate_status_eq d.status to_remove)) [
        | inr e ↦ rw e skip
        | inl e ↦ elim (List-cases d.seat_ids) [
          | inl bare ↦ rw (e, bare, pick_marked) skip
          | inr (id, ids, some_ids) ↦ elim (Bool-cases removal.1) [
            | inl t ↦ rw (e, some_ids, pick_marked, t) taken
            | inr t ↦ rw (e, some_ids, pick_marked, t) skip
          ]
        ]
      ]
