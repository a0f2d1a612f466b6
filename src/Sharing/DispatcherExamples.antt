-- ===== src/Sharing/DispatcherExamples.antt =====
-- A user who gets a seat, and gives it back.
use shinyproxy_rust.Base.{ℕ, String, ◌≡◌, refl, ◌≢◌, true, none, some, [], ◌∷◌, is_some}
use shinyproxy_rust.Base.Dict.{lookup, insert}
use shinyproxy_rust.Base.Int.{pos}
use shinyproxy_rust.Base.Result.{ok}
use shinyproxy_rust.Model.RuntimeValues.{
  Json, value_string, value_string-add, string_value, add, new_values, to_value_string,
}
use shinyproxy_rust.Model.Keys
use shinyproxy_rust.Model.Proxies.{Proxy, new_proxy, new}
use shinyproxy_rust.Sharing.Seats.{Seat, DelegateProxy}
use shinyproxy_rust.Sharing.SeatStore.{new_store, seat, claim_seat, claim_loop, add_seat}
use shinyproxy_rust.Sharing.SeatStore.Claims.{holder}
use shinyproxy_rust.Sharing.SeatStore.History.{step}
use shinyproxy_rust.Sharing.Delegates.{delegate_proxy}
use shinyproxy_rust.Sharing.Dispatcher.{
  Dispatcher, seat_wait_time_of, start_proxy, stop_proxy, obtain_seat, point_at, remove_pending,
}
use shinyproxy_rust.Sharing.Dispatcher.Waiting.{Waits, seat_wait_time_lem}
use shinyproxy_rust.Sharing.Dispatcher.Leases.{start_proxy_lem, stop_proxy_lem}
use shinyproxy_rust.Sharing.Examples.{two_seats, two_seats-Inv, alices, after_alice}
use shinyproxy_rust.Sharing.ScalerExamples.{delegate}

abbrev pub dispatcher : Dispatcher
dispatcher = record {
  spec_id = "app";
  seats = two_seats;
  delegates = record { delegate_proxies = ("d1", delegate) ∷ [] };
  seat_wait_time = 3000;
  pending = [];
}

-- Nothing happens while the user waits.
abbrev pub quiet : ℕ → Dispatcher → Dispatcher
quiet n d = d

abbrev pub alices_app : Proxy
alices_app = new_proxy "alice" new

abbrev pub started_app : Proxy
started_app = point_at delegate alices "uuid" alices_app

-- No runtime value of this example is a document.
abbrev print_nothing : Json → String
print_nothing _ = ""

pub starts : (start_proxy quiet "uuid" dispatcher alices_app).1 ≡ ok started_app
unfolding start_proxy obtain_seat claim_seat claim_loop step add_seat lookup insert delegate_proxy
    remove_pending
starts = refl

start_proxy_lem_example :
    let left = (start_proxy quiet "uuid" dispatcher alices_app).0 in
    (s : Seat) × (d : DelegateProxy) × (value_string print_nothing started_app.runtime_values
        Keys.seat_id
      ≡ some s.id)
    × (holder left.seats s.id ≡ some "alice")
    × (seat left.seats s.id ≡ some s)
    × (delegate_proxy left.delegates s.delegate_proxy_id ≡ some d)
    × (started_app.target_id ≡ some d.proxy.id)
start_proxy_lem_example =
    start_proxy_lem quiet (λ n d v. v) print_nothing "uuid" dispatcher alices_app started_app
      two_seats-Inv starts

-- No seat is offered to begin with, and two are after the first sleep.
abbrev full_house : Dispatcher
full_house = record dispatcher { seats = new_store; seat_wait_time = 4000 }

abbrev seats_return : ℕ → Dispatcher → Dispatcher
seats_return n d = record d { seats = two_seats }

seat_wait_time_lem_example : Waits seats_return "uuid" full_house alices_app
seat_wait_time_lem_example =
    seat_wait_time_lem seats_return "uuid" full_house alices_app (some (pos 4000))
      (unfold seat_wait_time_of in refl)

-- An app that remembers the seat `a`.
abbrev seated_app : Proxy
seated_app = record alices_app {
  runtime_values = add new_values (string_value Keys.seat_id "a") true;
}

abbrev busy : Dispatcher
busy = record dispatcher { seats = after_alice }

remembers : value_string print_nothing seated_app.runtime_values Keys.seat_id ≡ some "a"
unfolding to_value_string
remembers = value_string-add print_nothing new_values (string_value Keys.seat_id "a")

stop_proxy_lem_example :
    let stopped = stop_proxy print_nothing busy seated_app in
    (holder stopped.0.seats "a" ≡ none)
    × (stopped.1 ≡ seat stopped.0.seats "a")
    × (is_some stopped.1 ≡ is_some (seat after_alice "a"))
    × ((id : String) → "a" ≢ id → holder stopped.0.seats id ≡ holder after_alice id)
stop_proxy_lem_example = stop_proxy_lem print_nothing busy seated_app "a" remembers
