-- ===== src/Service/StartExamples.antt =====
-- Apps that are stopped while they start, and apps that are not.
use shinyproxy_rust.Base.{◌≡◌, refl, true, some, []}
use shinyproxy_rust.Base.Dict.{lookup, insert}
use shinyproxy_rust.Base.Int.{pos}
use shinyproxy_rust.Model.RuntimeValues.{get}
use shinyproxy_rust.Base.Result.{err}
use shinyproxy_rust.Model.Proxies.{add_runtime_value}
use shinyproxy_rust.Sharing.Seats.{Seat}
use shinyproxy_rust.Sharing.SeatStore.Claims.{holder}
use shinyproxy_rust.Sharing.Dispatcher.{Dispatcher, point_at}
use shinyproxy_rust.Sharing.Examples.{two_seats-Inv}
use shinyproxy_rust.Sharing.DispatcherExamples.{dispatcher, quiet, alices_app, started_app, starts}
use shinyproxy_rust.Service.Stores.{proxy, add_proxy}
use shinyproxy_rust.Service.Proxies.{not_found, sharing_dispatcher}
use shinyproxy_rust.Service.Starting.{Start, start_shared, was_stopped}
use shinyproxy_rust.Service.Starting.Outcome.{start_shared-holder}
use shinyproxy_rust.Service.ProxyExamples.{service, print_nothing}

-- The store has no app of Alice when her start ends.
abbrev stopped_meanwhile : Start
stopped_meanwhile = record {
  tick = quiet;
  uuid = "uuid";
  containers = [];
  reachable = true;
  meanwhile = λ s. s;
  now = pos 7;
}

no_app : was_stopped (proxy service.store started_app.id) ≡ true
unfolding was_stopped proxy lookup add_proxy insert point_at add_runtime_value get
no_app = refl

start_shared-holder_example :
    let after = start_shared stopped_meanwhile service "app" dispatcher alices_app in
    (after.1 ≡ err not_found)
    × (left : Dispatcher) × (seat : Seat) × (sharing_dispatcher after.0 "app" ≡ some left)
    × (holder left.seats seat.id ≡ some "alice")
start_shared-holder_example =
    start_shared-holder print_nothing stopped_meanwhile service "app" dispatcher alices_app
      started_app (λ n e v. v) two_seats-Inv starts no_app
