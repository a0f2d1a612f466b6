-- ===== src/Sharing/SeatStore/Claims.antt =====
-- What claiming and removing do to a seat store that satisfies its invariant.
use shinyproxy_rust.Base.{
  String, str_eq_iff, ◌≡◌, refl, ◌≢◌, inl, inr, true, Option, none, some, List, [], ◌∷◌, arith,
  Option-cases, contains,
}
use shinyproxy_rust.Base.Dict.{Dict, lookup, lookup-insert}
use shinyproxy_rust.Sharing.Seats.{Seat}
use shinyproxy_rust.Sharing.SeatStore.{release_seat, MemorySeatStore, claim_loop, claim_seat}
use shinyproxy_rust.Sharing.SeatStore.Invariant.{Inv, is_free, claim_loop_free}

-- The proxy that holds a seat.
abbrev pub holder_of : Option Seat → Option String
holder_of none = none
holder_of (some seat) = seat.delegating_proxy_id

abbrev pub holder : MemorySeatStore → String → Option String
holder s id = holder_of (lookup id s.seats)

-- A store answers a claim with `none` and stays as it is when its queue is empty. Otherwise it
-- takes the oldest offered seat off the queue, hands that seat to the claiming proxy, and leaves
-- the holder of every other seat as it was.
abbrev pub Claimed : MemorySeatStore → String → MemorySeatStore × Option Seat → List String → Type 0
Claimed s proxy_id r [] = (r.1 ≡ none) × (r.0.seats ≡ s.seats) × (r.0.unclaimed ≡ [])
Claimed s proxy_id r (oldest ∷ rest) =
    (seat : Seat) × (r.1 ≡ some seat)
    × (seat.id ≡ oldest)
    × (seat.delegating_proxy_id ≡ some proxy_id)
    × (lookup oldest r.0.seats ≡ some seat)
    × (r.0.unclaimed ≡ rest)
    × ((id : String) → id ≢ oldest → lookup id r.0.seats ≡ lookup id s.seats)

claim_loop-Claimed :
    (seats : Dict Seat) (queue : List String) (proxy_id : String)
    → Inv (record { seats = seats; unclaimed = queue })
    → Claimed
        (record { seats = seats; unclaimed = queue })
        proxy_id
        (claim_loop seats queue proxy_id)
        queue
unfolding claim_loop contains
claim_loop-Claimed seats [] proxy_id v = (refl, refl, refl)
claim_loop-Claimed seats (oldest ∷ rest) proxy_id v = elim (Option-cases (lookup oldest seats)) [
  | inl e ↦ absurd (ground (arith, v.offered_free oldest, str_eq_iff oldest oldest))
  | inr (entry, e) ↦
      let claimed : Seat = record entry { delegating_proxy_id = some proxy_id } in
      rw
        (claim_loop_free seats oldest rest proxy_id entry e
          (ground (arith, v.offered_free oldest, str_eq_iff oldest oldest)))
        (
          claimed,
          refl,
          ground (arith, v.keyed oldest, str_eq_iff entry.id oldest),
          refl,
          ground (arith, lookup-insert oldest oldest claimed seats, str_eq_iff oldest oldest),
          refl,
          λ id ne. ground (arith, lookup-insert oldest id claimed seats, str_eq_iff oldest id),
        )
]

-- In a store that satisfies its invariant a claim answers `none` and changes nothing when the
-- queue is empty; otherwise it takes the oldest offered seat off the queue, hands that seat to the
-- claiming proxy, and leaves every other seat as it was.
pub claim_seat-Claimed :
    (s : MemorySeatStore) (proxy_id : String)
    → Inv s
    → Claimed s proxy_id (claim_seat s proxy_id) s.unclaimed
unfolding claim_seat
claim_seat-Claimed s proxy_id v = claim_loop-Claimed s.seats s.unclaimed proxy_id v

-- What a successful claim says of the seat, with no look at the queue.
pub claim_seat_sound :
    (s : MemorySeatStore) (proxy_id : String) (seat : Seat)
    → Inv s
    → (claim_seat s proxy_id).1 ≡ some seat
    → (contains s.unclaimed seat.id ≡ true)
      × (is_free (lookup seat.id s.seats) ≡ true)
      × (holder (claim_seat s proxy_id).0 seat.id ≡ some proxy_id)
      × ((id : String)
          → id ≢ seat.id
          → lookup id (claim_seat s proxy_id).0.seats ≡ lookup id s.seats)
      × (lookup seat.id (claim_seat s proxy_id).0.seats ≡ some seat)
claim_seat_sound s proxy_id seat v e = go s.unclaimed refl (claim_seat-Claimed s proxy_id v)
  where
    go :
        (queue : List String)
        → s.unclaimed ≡ queue
        → Claimed s proxy_id (claim_seat s proxy_id) queue
        → (contains s.unclaimed seat.id ≡ true)
          × (is_free (lookup seat.id s.seats) ≡ true)
          × (holder (claim_seat s proxy_id).0 seat.id ≡ some proxy_id)
          × ((id : String)
              → id ≢ seat.id
              → lookup id (claim_seat s proxy_id).0.seats ≡ lookup id s.seats)
          × (lookup seat.id (claim_seat s proxy_id).0.seats ≡ some seat)
    go [] q c = absurd (ground (arith, c.0))
    go (oldest ∷ rest) q (claimed, is_it, same_id, held, found, later, others) =
        let same : claimed ≡ seat = cc in
        let here : contains s.unclaimed seat.id ≡ true =
          unfold contains in ground (arith, str_eq_iff oldest seat.id) in
        let stored : lookup seat.id (claim_seat s proxy_id).0.seats ≡ some seat = ground arith in
        (
          here,
          v.offered_free seat.id here,
          ground arith,
          (λ id ne. others id (λ p. ne (cc))),
          stored,
        )

-- A claim takes no seat away from its holder.
pub claim_seat-holder :
    (s : MemorySeatStore) (claimer id proxy_id : String)
    → Inv s
    → holder s id ≡ some proxy_id
    → holder (claim_seat s claimer).0 id ≡ some proxy_id
claim_seat-holder s claimer id proxy_id v h = go s.unclaimed refl (claim_seat-Claimed s claimer v)
  where
    go :
        (queue : List String)
        → s.unclaimed ≡ queue
        → Claimed s claimer (claim_seat s claimer) queue
        → holder (claim_seat s claimer).0 id ≡ some proxy_id
    go [] q c = rw c.1 h
    go (oldest ∷ rest) q c =
        let offered : contains s.unclaimed oldest ≡ true =
          unfold contains in ground (arith, str_eq_iff oldest oldest) in
        rw (c.6 id (λ e. absurd (ground (arith, v.offered_free oldest offered, e)))) h

pub release_seat-holder :
    (s : MemorySeatStore) (seat_id id : String)
    → seat_id ≢ id
    → holder (release_seat s seat_id) id ≡ holder s id
unfolding release_seat
release_seat-holder s seat_id id ne = elim (Option-cases (lookup seat_id s.seats)) [
  | inl e ↦ rw (e, release_seat) refl
  | inr (entry, e) ↦
      rw (e, release_seat)
        (ground (
          arith,
          str_eq_iff seat_id id,
          lookup-insert seat_id id (record entry { delegating_proxy_id = none }) s.seats,
        ))
]
