-- ===== src/Sharing/SeatStore.antt =====
-- crates/containerproxy/src/service/sharing/store.rs: `MemorySeatStore`. Each method is one step:
-- the lock on the queue is held to its end.
pub mod Invariant
pub mod Claims
pub mod History
use shinyproxy_rust.Base.{
  ℕ, String, Bool, true, false, not, ◌&&◌, Option, none, some, List, [], ◌∷◌, ◌++◌, if◌then◌else◌,
  length, contains, without,
}
use shinyproxy_rust.Base.Dict.{Dict, lookup, insert, remove, contains_key}
use shinyproxy_rust.Base.Int.{ℤ, sub_ℕ}
use shinyproxy_rust.Sharing.Seats.{Seat, is_claimed}

-- `unclaimed` is the queue of the seats that can be claimed, oldest first.
pub record MemorySeatStore : Type 0 where
  pub seats : Dict Seat
  pub unclaimed : List String

abbrev pub new_store : MemorySeatStore
new_store = record { seats = []; unclaimed = [] }

unfoldable pub add_seat : MemorySeatStore → Seat → MemorySeatStore
add_seat s seat = record {
  seats = insert seat.id seat s.seats;
  unclaimed = s.unclaimed ++ seat.id ∷ [];
}

unfoldable pub seat : MemorySeatStore → String → Option Seat
seat s seat_id = lookup seat_id s.seats

-- The loop of `claim_seat`: pops the queue until a seat that exists and is free.
unfoldable pub claim_loop : Dict Seat → List String → String → MemorySeatStore × Option Seat
claim_loop seats [] proxy_id = (record { seats = seats; unclaimed = [] }, none)
claim_loop seats (seat_id ∷ rest) proxy_id = elim (lookup seat_id seats) [
  | none ↦ claim_loop seats rest proxy_id
  | some entry ↦
      let claimed = record entry { delegating_proxy_id = some proxy_id } in
      let next = claim_loop seats rest proxy_id in
      if is_claimed entry
      then next
      else (record { seats = insert seat_id claimed seats; unclaimed = rest }, some claimed)
]

unfoldable pub claim_seat : MemorySeatStore → String → MemorySeatStore × Option Seat
unfolding claim_loop
claim_seat s claiming_proxy_id = claim_loop s.seats s.unclaimed claiming_proxy_id

unfoldable pub release_seat : MemorySeatStore → String → MemorySeatStore
release_seat s seat_id = elim (lookup seat_id s.seats) [
  | none ↦ s
  | some entry ↦ record s {
    seats = insert seat_id (record entry { delegating_proxy_id = none }) s.seats;
  }
]

unfoldable pub add_to_unclaimed_seats : MemorySeatStore → String → MemorySeatStore
add_to_unclaimed_seats s seat_id =
    if contains_key seat_id s.seats && not (contains s.unclaimed seat_id)
    then record s { unclaimed = s.unclaimed ++ seat_id ∷ [] }
    else s

-- Whether every id is in the queue.
unfoldable pub all_offered : List String → List String → Bool
all_offered queue [] = true
all_offered queue (seat_id ∷ rest) = contains queue seat_id && all_offered queue rest

unfoldable pub remove_each : MemorySeatStore → List String → MemorySeatStore
remove_each s [] = s
remove_each s (seat_id ∷ rest) =
    remove_each (record { seats = remove seat_id s.seats; unclaimed = without seat_id s.unclaimed })
      rest

-- `Ok(true)` or `Ok(false)`: the memory store never answers `Err(SeatClaimedDuringRemoval)`.
unfoldable pub remove_seats_if_unclaimed : MemorySeatStore → List String → MemorySeatStore × Bool
unfolding all_offered remove_each
remove_seats_if_unclaimed s seat_ids =
    if all_offered s.unclaimed seat_ids then (remove_each s seat_ids, true) else (s, false)

unfoldable pub remove_seat_info : MemorySeatStore → String → MemorySeatStore
remove_seat_info s seat_id = record {
  seats = remove seat_id s.seats;
  unclaimed = without seat_id s.unclaimed;
}

unfoldable pub unclaimed_count : MemorySeatStore → ℕ
unclaimed_count s = length s.unclaimed

unfoldable pub count : MemorySeatStore → ℕ
count s = length s.seats

-- An `i64` difference.
unfoldable pub claimed_count : MemorySeatStore → ℤ
unfolding count unclaimed_count
claimed_count s = sub_ℕ (count s) (unclaimed_count s)
