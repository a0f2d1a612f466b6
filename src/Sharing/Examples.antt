-- ===== src/Sharing/Examples.antt =====
-- Concrete seats, containers and users, and the theorems about sharing at them.
use shinyproxy_rust.Base.{
  ◌≤◌, String, ◌≡◌, refl, ◌≢◌, true, false, none, some, [], ◌∷◌, if◌then◌else◌, contains,
}
use shinyproxy_rust.Base.Dict.{lookup, insert}
use shinyproxy_rust.Base.Int.{pos}
use shinyproxy_rust.Sharing.Seats.{Seat, new_seat, ProxySharingSpecExtension}
use shinyproxy_rust.Sharing.SeatStore.{
  claim_loop, remove_seats_if_unclaimed, all_offered, unclaimed_count, count, MemorySeatStore,
  new_store, add_seat, claim_seat,
}
use shinyproxy_rust.Sharing.SeatStore.Invariant.{claim_seat-Inv, is_free, Inv}
use shinyproxy_rust.Sharing.SeatStore.Claims.{holder, Claimed, claim_seat-Claimed}
use shinyproxy_rust.Sharing.SeatStore.History.{
  step, adds, Run, done, next, two_claims_ne, Run-holder, Run-from_new,
  remove_seats_if_unclaimed_lem,
}

abbrev seat_a : Seat
seat_a = new_seat "a" "d1"

abbrev seat_b : Seat
seat_b = new_seat "b" "d1"

-- The seats `a` and `b` of the container `d1`, both offered.
abbrev pub two_seats : MemorySeatStore
two_seats = step (step new_store (adds seat_a)) (adds seat_b)

two_added : Run new_store two_seats (adds seat_b ∷ adds seat_a ∷ [])
unfolding step add_seat lookup insert
two_added = next (adds seat_b) (next (adds seat_a) done (refl, refl)) (refl, refl)

pub two_seats-Inv : Inv two_seats
two_seats-Inv = (Run-from_new two_added).0

Run-from_new_example : Inv two_seats × (unclaimed_count two_seats ≤ count two_seats)
Run-from_new_example = Run-from_new two_added

abbrev pub alices : Seat
alices = record seat_a { delegating_proxy_id = some "alice" }

abbrev bobs : Seat
bobs = record seat_b { delegating_proxy_id = some "bob" }

abbrev pub after_alice : MemorySeatStore
after_alice = (claim_seat two_seats "alice").0

alice_claims : (claim_seat two_seats "alice").1 ≡ some alices
unfolding claim_seat claim_loop step add_seat lookup insert
alice_claims = refl

-- A third seat arrives before the second claim.
abbrev seat_c : Seat
seat_c = new_seat "c" "d2"

abbrev later : MemorySeatStore
later = step after_alice (adds seat_c)

later-Run : Run after_alice later (adds seat_c ∷ [])
unfolding claim_seat claim_loop step add_seat lookup insert
later-Run = next (adds seat_c) done (refl, refl)

bob_claims : (claim_seat later "bob").1 ≡ some bobs
unfolding claim_seat claim_loop step add_seat lookup insert
bob_claims = refl

two_claims_ne_example : alices.id ≢ bobs.id
two_claims_ne_example =
    two_claims_ne alices bobs "alice" "bob" two_seats-Inv alice_claims later-Run (tt, tt) bob_claims

pub alice_holds : holder after_alice "a" ≡ some "alice"
unfolding claim_seat claim_loop step add_seat lookup insert
alice_holds = refl

pub after_alice-Inv : Inv after_alice
after_alice-Inv = claim_seat-Inv two_seats "alice" two_seats-Inv

Run-holder_example : holder later "a" ≡ some "alice"
Run-holder_example = Run-holder "a" "alice" later-Run (tt, tt) after_alice-Inv alice_holds

claim_seat-Claimed_example :
    Claimed two_seats "alice" (claim_seat two_seats "alice") two_seats.unclaimed
claim_seat-Claimed_example = claim_seat-Claimed two_seats "alice" two_seats-Inv

remove_seats_if_unclaimed_lem_example :
    ((remove_seats_if_unclaimed two_seats ("b" ∷ [])).1 ≡ true
      → (id : String)
      → (contains ("b" ∷ []) id ≡ true → is_free (lookup id two_seats.seats) ≡ true)
        × (lookup id (remove_seats_if_unclaimed two_seats ("b" ∷ [])).0.seats
            ≡ (if contains ("b" ∷ []) id then none else lookup id two_seats.seats)))
    × ((remove_seats_if_unclaimed two_seats ("b" ∷ [])).1 ≡ false
        → (all_offered two_seats.unclaimed ("b" ∷ []) ≡ false)
          × ((remove_seats_if_unclaimed two_seats ("b" ∷ [])).0 ≡ two_seats))
remove_seats_if_unclaimed_lem_example =
    remove_seats_if_unclaimed_lem two_seats ("b" ∷ []) two_seats-Inv

abbrev pub extension : ProxySharingSpecExtension
extension = record {
  minimum_seats_available_field = some (pos 2);
  allow_container_re_use_field = true;
  scale_down_delay_field = pos 2;
  seats_per_container_field = pos 1;
}
