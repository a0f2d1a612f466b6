-- ===== src/Sharing/SeatStore/Invariant.antt =====
-- The queue of a seat store holds each seat at most once, and only seats that exist and are free.
use shinyproxy_rust.Base.{
  ◌≤◌, String, str_eq, str_eq_iff, ◌≡◌, refl, inl, inr, Bool, true, false, not, ◌&&◌, Option, none,
  some, List, [], ◌∷◌, ◌++◌, arith, Bool-cases, Option-cases, contains, AllDistinct, contains-snoc,
  contains-without, snoc-AllDistinct, without-AllDistinct,
}
use shinyproxy_rust.Base.Dict.{
  Dict, lookup, insert, contains_key, lookup-insert, lookup-remove, length-le_of_bound,
}
use shinyproxy_rust.Base.Int.{pos, ◌+ℤ◌}
use shinyproxy_rust.Sharing.Seats.{Seat, is_claimed}
use shinyproxy_rust.Sharing.SeatStore.{
  MemorySeatStore, new_store, add_seat, claim_loop, claim_seat, release_seat,
  add_to_unclaimed_seats, all_offered, remove_each, remove_seats_if_unclaimed, remove_seat_info,
  unclaimed_count, count, claimed_count,
}

-- The seat exists and nobody holds it.
abbrev pub is_free : Option Seat → Bool
is_free none = false
is_free (some seat) = not (is_claimed seat)

-- A seat is stored under its own id.
abbrev pub is_keyed : String → Option Seat → Bool
is_keyed id none = true
is_keyed id (some seat) = str_eq seat.id id

pub record Inv (s : MemorySeatStore) : Type 0 where
  pub keyed : (id : String) → is_keyed id (lookup id s.seats) ≡ true
  pub distinct : AllDistinct s.unclaimed
  pub offered_free :
      (id : String) → contains s.unclaimed id ≡ true → is_free (lookup id s.seats) ≡ true

pub new_store-Inv : Inv new_store
unfolding contains
new_store-Inv = record {
  keyed = λ id. unfold lookup in refl;
  distinct = tt;
  offered_free = λ id h. cc;
}

pub add_seat-Inv :
    (s : MemorySeatStore) (seat : Seat)
    → Inv s
    → is_claimed seat ≡ false
    → lookup seat.id s.seats ≡ none
    → Inv (add_seat s seat)
unfolding add_seat
add_seat-Inv s seat v free fresh = record {
  keyed = λ id.
      ground (arith, lookup-insert seat.id id seat s.seats, v.keyed id, str_eq_iff seat.id id);
  distinct = snoc-AllDistinct s.unclaimed seat.id not_offered v.distinct;
  offered_free = λ id h. ground (
    arith,
    contains-snoc s.unclaimed seat.id id,
    lookup-insert seat.id id seat s.seats,
    v.offered_free id,
    str_eq_iff seat.id id,
  );
}
  where
    not_offered : contains s.unclaimed seat.id ≡ false
    not_offered = ground (arith, v.offered_free seat.id)

-- One step of the claiming loop: a free seat at the head of the queue is taken.
pub claim_loop_free :
    (seats : Dict Seat) (seat_id : String) (rest : List String) (proxy_id : String) (entry : Seat)
    → lookup seat_id seats ≡ some entry
    → is_claimed entry ≡ false
    → claim_loop seats (seat_id ∷ rest) proxy_id ≡ (
      record {
        seats = insert seat_id (record entry { delegating_proxy_id = some proxy_id }) seats;
        unclaimed = rest;
      },
      some (record entry { delegating_proxy_id = some proxy_id }),
    )
unfolding claim_loop
claim_loop_free seats seat_id rest proxy_id entry e free = rw (e, claim_loop) (rw free)

pub claim_loop-Inv :
    (seats : Dict Seat) (queue : List String) (proxy_id : String)
    → Inv (record { seats = seats; unclaimed = queue })
    → Inv (claim_loop seats queue proxy_id).0
unfolding claim_loop contains
claim_loop-Inv seats [] proxy_id v = v
claim_loop-Inv seats (seat_id ∷ rest) proxy_id v = elim (Option-cases (lookup seat_id seats)) [
  | inl e ↦ absurd (ground (arith, v.offered_free seat_id, str_eq_iff seat_id seat_id))
  | inr (entry, e) ↦
      rw
        (claim_loop_free seats seat_id rest proxy_id entry e
          (ground (arith, v.offered_free seat_id, str_eq_iff seat_id seat_id)))
        (record {
          keyed = λ id. ground (
            arith,
            v.keyed id,
            v.keyed seat_id,
            str_eq_iff seat_id id,
            lookup-insert seat_id id (record entry { delegating_proxy_id = some proxy_id }) seats,
          );
          distinct = v.distinct.1;
          offered_free = λ id h. ground (
            arith,
            v.offered_free id,
            v.distinct.0,
            str_eq_iff seat_id id,
            lookup-insert seat_id id (record entry { delegating_proxy_id = some proxy_id }) seats,
          );
        })
]

pub claim_seat-Inv :
    (s : MemorySeatStore) (proxy_id : String) → Inv s → Inv (claim_seat s proxy_id).0
unfolding claim_seat
claim_seat-Inv s proxy_id v = claim_loop-Inv s.seats s.unclaimed proxy_id v

pub release_seat-Inv : (s : MemorySeatStore) (id : String) → Inv s → Inv (release_seat s id)
unfolding release_seat
release_seat-Inv s id v = elim (Option-cases (lookup id s.seats)) [
  | inl e ↦ rw (e, release_seat) v
  | inr (entry, e) ↦
      rw (e, release_seat)
        (record {
          keyed = λ j. ground (
            arith,
            lookup-insert id j (record entry { delegating_proxy_id = none }) s.seats,
            v.keyed j,
            v.keyed id,
            str_eq_iff id j,
          );
          distinct = v.distinct;
          offered_free = λ j h. ground (
            arith,
            lookup-insert id j (record entry { delegating_proxy_id = none }) s.seats,
            v.offered_free j h,
            str_eq_iff id j,
          );
        })
]

-- Offering a seat that somebody holds would break the invariant: the caller releases it first.
pub add_to_unclaimed_seats-Inv :
    (s : MemorySeatStore) (seat_id : String)
    → Inv s
    → ((entry : Seat) → lookup seat_id s.seats ≡ some entry → is_claimed entry ≡ false)
    → Inv (add_to_unclaimed_seats s seat_id)
unfolding add_to_unclaimed_seats
add_to_unclaimed_seats-Inv s seat_id v released =
    elim (Bool-cases (contains_key seat_id s.seats && not (contains s.unclaimed seat_id))) [
      | inr e ↦ rw e v
      | inl e ↦ rw e (record {
        keyed = v.keyed;
        distinct = snoc-AllDistinct s.unclaimed seat_id (ground arith) v.distinct;
        offered_free = λ id h. appended id h (ground arith);
      })
    ]
  where
    appended :
        (id : String)
        → contains (s.unclaimed ++ seat_id ∷ []) id ≡ true
        → contains_key seat_id s.seats ≡ true
        → is_free (lookup id s.seats) ≡ true
    appended id h k = elim (Option-cases (lookup seat_id s.seats)) [
      | inl none_e ↦ absurd (ground arith)
      | inr (entry, e) ↦ ground (
        arith,
        contains-snoc s.unclaimed seat_id id,
        v.offered_free id,
        released entry e,
        str_eq_iff seat_id id,
      )
    ]

pub remove_seat_info-Inv :
    (s : MemorySeatStore) (seat_id : String) → Inv s → Inv (remove_seat_info s seat_id)
unfolding remove_seat_info
remove_seat_info-Inv s seat_id v = record {
  keyed = λ id. ground (arith, lookup-remove seat_id id s.seats, v.keyed id);
  distinct = without-AllDistinct seat_id s.unclaimed v.distinct;
  offered_free = λ id h. ground (
    arith,
    contains-without seat_id s.unclaimed id,
    lookup-remove seat_id id s.seats,
    v.offered_free id,
  );
}

pub remove_each-Inv :
    (s : MemorySeatStore) (seat_ids : List String) → Inv s → Inv (remove_each s seat_ids)
unfolding remove_each remove_seat_info
remove_each-Inv s [] v = v
remove_each-Inv s (seat_id ∷ rest) v =
    remove_each-Inv (remove_seat_info s seat_id) rest (remove_seat_info-Inv s seat_id v)

pub remove_seats_if_unclaimed-Inv :
    (s : MemorySeatStore) (seat_ids : List String)
    → Inv s
    → Inv (remove_seats_if_unclaimed s seat_ids).0
unfolding remove_seats_if_unclaimed
remove_seats_if_unclaimed-Inv s seat_ids v = elim (Bool-cases (all_offered s.unclaimed seat_ids)) [
  | inl e ↦ rw e (remove_each-Inv s seat_ids v)
  | inr e ↦ rw e v
]

-- No more seats are offered than there are, so that the claimed count, computed as their
-- difference, is the number of the seats that are not offered.
pub unclaimed_count-le-count : (s : MemorySeatStore) → Inv s → unclaimed_count s ≤ count s
unfolding unclaimed_count count
unclaimed_count-le-count s v =
    length-le_of_bound s.unclaimed s.seats v.distinct λ id h. ground (arith, v.offered_free id h)

claimed_count_lem :
    (s : MemorySeatStore) → Inv s → claimed_count s +ℤ pos (unclaimed_count s) ≡ pos (count s)
unfolding claimed_count ◌+ℤ◌
claimed_count_lem s v = ground (arith, unclaimed_count-le-count s v)
