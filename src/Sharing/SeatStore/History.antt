-- ===== src/Sharing/SeatStore/History.antt =====
-- Histories of a seat store: any sequence of calls, in any order, from any number of users.
use shinyproxy_rust.Base.{
  ◌≤◌, String, str_eq_iff, ◌≡◌, refl, ◌∙◌, ◌≢◌, inl, inr, true, false, none, some, List, [], ◌∷◌,
  arith, if◌then◌else◌, Bool-cases, contains, without,
}
use shinyproxy_rust.Base.Dict.{lookup, remove, lookup-insert, lookup-remove}
use shinyproxy_rust.Sharing.Seats.{Seat, is_claimed}
use shinyproxy_rust.Sharing.SeatStore.{
  MemorySeatStore, new_store, add_seat, claim_seat, release_seat, add_to_unclaimed_seats,
  all_offered, remove_each, remove_seats_if_unclaimed, remove_seat_info, count, unclaimed_count,
}
use shinyproxy_rust.Sharing.SeatStore.Invariant.{
  Inv, is_free, new_store-Inv, add_seat-Inv, claim_seat-Inv, release_seat-Inv,
  add_to_unclaimed_seats-Inv, remove_seats_if_unclaimed-Inv, remove_seat_info-Inv,
  unclaimed_count-le-count,
}
use shinyproxy_rust.Sharing.SeatStore.Claims.{
  holder, claim_seat_sound, claim_seat-holder, release_seat-holder,
}

pub data SeatCall : Type 0 where
  adds : Seat → SeatCall
  claims releases offers removes : String → SeatCall
  removes_if_unclaimed : List String → SeatCall

unfoldable pub step : MemorySeatStore → SeatCall → MemorySeatStore
step s (adds seat) = add_seat s seat
step s (claims proxy_id) = (claim_seat s proxy_id).0
step s (releases seat_id) = release_seat s seat_id
step s (offers seat_id) = add_to_unclaimed_seats s seat_id
step s (removes seat_id) = remove_seat_info s seat_id
step s (removes_if_unclaimed seat_ids) = (remove_seats_if_unclaimed s seat_ids).0

-- How the rest of the server calls the store: a new seat has a fresh id and no holder, and only
-- a released seat is offered again.
abbrev pub Legal : MemorySeatStore → SeatCall → Type 0
Legal s (adds seat) = (is_claimed seat ≡ false) × (lookup seat.id s.seats ≡ none)
Legal s (offers seat_id) = holder s seat_id ≡ none
Legal s _ = Unit {0}

pub data Run (s : MemorySeatStore) : MemorySeatStore → List SeatCall → Type 0 where
  done : Run s s []
  next :
      {t : MemorySeatStore} {cs : List SeatCall} (c : SeatCall)
      → Run s t cs
      → Legal t c
      → Run s (step t c) (c ∷ cs)

pub step-Inv : (s : MemorySeatStore) (c : SeatCall) → Legal s c → Inv s → Inv (step s c)
unfolding step
step-Inv s (adds seat) legal v = add_seat-Inv s seat v legal.0 legal.1
step-Inv s (claims proxy_id) legal v = claim_seat-Inv s proxy_id v
step-Inv s (releases seat_id) legal v = release_seat-Inv s seat_id v
step-Inv s (offers seat_id) legal v =
    add_to_unclaimed_seats-Inv s seat_id v λ entry e. ground (arith, legal)
step-Inv s (removes seat_id) legal v = remove_seat_info-Inv s seat_id v
step-Inv s (removes_if_unclaimed seat_ids) legal v = remove_seats_if_unclaimed-Inv s seat_ids v

pub Run-Inv : {s t : MemorySeatStore} {cs : List SeatCall} → Run s t cs → Inv s → Inv t
Run-Inv done v = v
Run-Inv (next {t} c r legal) v = step-Inv t c legal (Run-Inv r v)

-- Every history of legal calls from the empty store keeps the invariant (seats are stored under
-- their ids, the queue holds each seat at most once and only free seats), so the free seats are no
-- more than the seats.
pub Run-from_new :
    {t : MemorySeatStore} {cs : List SeatCall}
    → Run new_store t cs
    → Inv t × (unclaimed_count t ≤ count t)
Run-from_new r = let v = Run-Inv r new_store-Inv in (v, unclaimed_count-le-count _ v)

pub lookup-remove_each :
    (s : MemorySeatStore) (ids : List String) (id : String)
    → lookup id (remove_each s ids).seats ≡ (if contains ids id then none else lookup id s.seats)
unfolding remove_each contains
lookup-remove_each s [] id = refl
lookup-remove_each s (seat_id ∷ rest) id = ground (
  arith,
  lookup-remove seat_id id s.seats,
  lookup-remove_each
      (record { seats = remove seat_id s.seats; unclaimed = without seat_id s.unclaimed }) rest id,
)

pub all_offered-contains :
    (queue ids : List String) (id : String)
    → all_offered queue ids ≡ true
    → contains ids id ≡ true
    → contains queue id ≡ true
unfolding all_offered contains
all_offered-contains queue [] id h k = cc
all_offered-contains queue (seat_id ∷ rest) id h k =
    ground (arith, all_offered-contains queue rest id, str_eq_iff seat_id id)

-- In a store that satisfies its invariant a removal that goes through takes only free seats, all
-- that were named and no others; one that is refused named a seat that is not offered, and changes
-- nothing.
pub remove_seats_if_unclaimed_lem :
    (s : MemorySeatStore) (ids : List String)
    → Inv s
    → ((remove_seats_if_unclaimed s ids).1 ≡ true
        → (id : String)
        → (contains ids id ≡ true → is_free (lookup id s.seats) ≡ true)
          × (lookup id (remove_seats_if_unclaimed s ids).0.seats
              ≡ (if contains ids id then none else lookup id s.seats)))
      × ((remove_seats_if_unclaimed s ids).1 ≡ false
          → (all_offered s.unclaimed ids ≡ false) × ((remove_seats_if_unclaimed s ids).0 ≡ s))
unfolding remove_seats_if_unclaimed
remove_seats_if_unclaimed_lem s ids v = elim (Bool-cases (all_offered s.unclaimed ids)) [
  | inl e ↦ rw e (
    λ _ id. (
      λ k. v.offered_free id (all_offered-contains s.unclaimed ids id e k),
      lookup-remove_each s ids id,
    ),
    λ p. absurd (ground (arith, p)),
  )
  | inr e ↦ rw e (λ p. absurd (ground (arith, p)), λ _. (refl, refl))
]

-- The call does not take a seat away from its holder.
abbrev pub Leaves : String → SeatCall → Type 0
Leaves id (releases seat_id) = seat_id ≢ id
Leaves id (removes seat_id) = seat_id ≢ id
Leaves id _ = Unit {0}

abbrev pub AllLeave : String → List SeatCall → Type 0
AllLeave id [] = Unit {0}
AllLeave id (c ∷ cs) = Leaves id c × AllLeave id cs

pub step-holder :
    (s : MemorySeatStore) (c : SeatCall) (id proxy_id : String)
    → Legal s c
    → Leaves id c
    → Inv s
    → holder s id ≡ some proxy_id
    → holder (step s c) id ≡ some proxy_id
unfolding step
step-holder s (adds seat) id proxy_id legal _ v h =
    unfold add_seat in
    ground (arith, lookup-insert seat.id id seat s.seats, legal, str_eq_iff seat.id id)
step-holder s (claims claimer) id proxy_id legal _ v h = claim_seat-holder s claimer id proxy_id v h
step-holder s (releases seat_id) id proxy_id legal other v h =
    release_seat-holder s seat_id id other ∙ h
step-holder s (offers seat_id) id proxy_id legal _ v h =
    unfold add_to_unclaimed_seats in ground arith
step-holder s (removes seat_id) id proxy_id legal other v h =
    unfold remove_seat_info in
    ground (arith, lookup-remove seat_id id s.seats, str_eq_iff seat_id id)
step-holder s (removes_if_unclaimed seat_ids) id proxy_id legal _ v h =
    let outcome = remove_seats_if_unclaimed_lem s seat_ids v in
    elim (Bool-cases (remove_seats_if_unclaimed s seat_ids).1) [
      | inl e ↦ let here = outcome.0 e id in rw here.1 (ground (arith, here.0))
      | inr e ↦ rw ((outcome.1 e).1) h
    ]

-- Over any history of legal calls a claimed seat stays with its holder, as long as no call
-- releases the seat or removes its information; the store satisfies its invariant at the start.
pub Run-holder :
    {s t : MemorySeatStore} {cs : List SeatCall} (id proxy_id : String)
    → Run s t cs
    → AllLeave id cs
    → Inv s
    → holder s id ≡ some proxy_id
    → holder t id ≡ some proxy_id
Run-holder id proxy_id done l v h = h
Run-holder id proxy_id (next {t} c r legal) l v h =
    step-holder t c id proxy_id legal l.0 (Run-Inv r v) (Run-holder id proxy_id r l.1 v h)

-- The seats that two claims give out differ, whatever legal calls of other users stand between the
-- claims, as long as none of them releases or removes the first seat.
pub two_claims_ne :
    {s t : MemorySeatStore} {cs : List SeatCall} (first second : Seat) (p q : String)
    → Inv s
    → (claim_seat s p).1 ≡ some first
    → Run (claim_seat s p).0 t cs
    → AllLeave first.id cs
    → (claim_seat t q).1 ≡ some second
    → first.id ≢ second.id
two_claims_ne {s} {t} first second p q v e r l e' same =
    let v' = claim_seat-Inv s p v in
    let held = Run-holder first.id p r l v' (claim_seat_sound s p first v e).2 in
    let free = (claim_seat_sound t q second (Run-Inv r v') e').1 in
    absurd (ground (arith, held, free, same))
