-- ===== src/Sharing/ScalerExamples.antt =====
-- A scaler with two free seats, and the theorems about scaling at it.
use shinyproxy_rust.Base.{
  String, str_eq_iff, ◌≡◌, refl, true, ◌&&◌, none, some, [], ◌∷◌, ◌++◌, arith, if◌then◌else◌,
  contains,
}
use shinyproxy_rust.Base.Dict.{lookup, values}
use shinyproxy_rust.Base.Int.{◌<ℤ◌, ℤ, pos, negsuc, ◌+ℤ◌, ◌≤ℤ◌, int_laws}
use shinyproxy_rust.Model.Proxies.{new_proxy, new}
use shinyproxy_rust.Sharing.Seats.{
  DelegateProxy, available, minimum_seats_available, seats_per_container,
}
use shinyproxy_rust.Sharing.SeatStore.{unclaimed_count}
use shinyproxy_rust.Sharing.SeatStore.Claims.{holder}
use shinyproxy_rust.Sharing.SeatStore.History.{step}
use shinyproxy_rust.Sharing.SeatStore.{add_seat}
use shinyproxy_rust.Sharing.Delegates.{all_delegate_proxies-Every, delegate_proxy}
use shinyproxy_rust.Sharing.Scaler.State.{Config, Scaler, ReconcileStatus}
use shinyproxy_rust.Sharing.Seats.{new_seat}
use shinyproxy_rust.Sharing.Scaler.Create.{Attempt, create_one, add_seats}
use shinyproxy_rust.Sharing.Scaler.Create.Outcome.{
  succeeds, new_seats, Left, create_one-seats, create_one-Left,
}
use shinyproxy_rust.Sharing.Scaler.Removal.Effects.{AtMost}
use shinyproxy_rust.Sharing.Scaler.Reconcile.{Round, available_seats, reconcile, at_maximum}
use shinyproxy_rust.Sharing.Scaler.Reconcile.Target.{
  reconcile_reaches_minimum, reconcile_keeps_minimum,
}
use shinyproxy_rust.Sharing.Scaler.Events.{react, released, react-holder}
use shinyproxy_rust.Sharing.Examples.{
  two_seats, two_seats-Inv, after_alice, after_alice-Inv, alice_holds, extension,
}

abbrev pub config : Config
config = record {
  spec_id = "app";
  max_total_instances = negsuc 0;
  extension = extension;
  spec_hash = "hash";
  public_path_prefix = "/app_proxy/";
  instance_id = "instance";
  realm_id = none;
}

-- A container that starts and answers.
abbrev attempt : Attempt
attempt = record {
  id = "d2";
  resolved = some [];
  final_values = [];
  reachable = true;
  created_at = pos 1;
  started_at = pos 2;
  seat_uuid = λ _. "x";
}

abbrev unresolved : Attempt
unresolved = record {
  id = "d2";
  resolved = none;
  final_values = [];
  reachable = true;
  created_at = pos 1;
  started_at = pos 2;
  seat_uuid = λ _. "x";
}

abbrev pub delegate : DelegateProxy
delegate = record {
  proxy = new_proxy "d1" new;
  seat_ids = "a" ∷ [];
  status = available;
  proxy_spec_hash = "hash";
}

abbrev scaler : Scaler
scaler = record {
  seats = two_seats;
  delegates = record { delegate_proxies = ("d1", delegate) ∷ [] };
  pending_seats = pos 0;
  status = ReconcileStatus.stable;
  last_scale_up = none;
  stopped = [];
}

-- A round in which `pending_users` users wait.
abbrev round : ℤ → Round
round pending_users = record {
  is_leader = true;
  pending_users = pending_users;
  now = 5;
  after_scale_up = 6;
  attempts = λ _. attempt;
}

create_one-seats_example :
    ((create_one config scaler attempt).seats ≡ (
      if succeeds attempt
      then add_seats scaler.seats attempt.id (new_seats config attempt)
      else scaler.seats))
    × ((create_one config scaler attempt).pending_seats ≡ scaler.pending_seats)
    × ((create_one config scaler attempt).seats.unclaimed
        ≡ scaler.seats.unclaimed ++ (if succeeds attempt then new_seats config attempt else []))
    × ((id : String)
        → lookup id (create_one config scaler attempt).seats.seats ≡ (
            if succeeds attempt && contains (new_seats config attempt) id
            then some (new_seat id attempt.id)
            else lookup id scaler.seats.seats))
create_one-seats_example = create_one-seats config scaler attempt

create_one-Left_example :
    Left config unresolved (delegate_proxy (create_one config scaler unresolved).delegates "d2")
create_one-Left_example = create_one-Left config scaler unresolved

two_free : unclaimed_count two_seats ≡ 2
unfolding unclaimed_count step add_seat
two_free = refl

one_user_waits : available_seats scaler (pos 1) <ℤ minimum_seats_available extension
unfolding minimum_seats_available
one_user_waits = rw two_free (omega int_laws)

reconcile_reaches_minimum_example :
    let free = available_seats (reconcile config (round (pos 1)) scaler) (pos 1) in
    let minimum = minimum_seats_available extension in
    (minimum ≤ℤ free) × (free <ℤ minimum +ℤ pos (seats_per_container extension))
reconcile_reaches_minimum_example =
    reconcile_reaches_minimum config (round (pos 1)) scaler refl one_user_waits
      (unfold at_maximum in refl) (λ n. unfold succeeds in refl)

reconcile_keeps_minimum_example :
    minimum_seats_available extension
    ≤ℤ available_seats (reconcile config (round (pos 0)) scaler) (pos 0)
unfolding values seats_per_container
reconcile_keeps_minimum_example =
    reconcile_keeps_minimum config (round (pos 0)) scaler two_seats-Inv
      (all_delegate_proxies-Every (AtMost (seats_per_container extension)) scaler.delegates
        (omega arith, tt))
      (rw two_free (unfold minimum_seats_available in omega int_laws))

react-holder_example :
    holder
      (react config
        (record scaler { seats = after_alice })
        (released "b" true (round (pos 0)))).seats
      "a"
    ≡ some "alice"
react-holder_example =
    react-holder "a" "alice" config (record scaler { seats = after_alice })
      (released "b" true (round (pos 0)))
      (λ e. ground (arith, str_eq_iff "b" "a", e), λ n k e. ground (arith, str_eq_iff "x" "a", e))
      after_alice-Inv alice_holds
