-- ===== src/Sharing/Scaler/Create.antt =====
-- Creating delegate proxies: `scale_up` and `create_delegate_proxy`.
pub mod Outcome
use shinyproxy_rust.Base.{
  concat, ℕ, zero, suc, ◌/◌, String, ◌⊎◌, inl, inr, Bool, true, false, not, Option, none, some,
  List, [], ◌∷◌, ◌++◌, if◌then◌else◌,
}
use shinyproxy_rust.Base.Dict.{Dict, insert, values}
use shinyproxy_rust.Base.Int.{ℤ, pos, ◌+ℤ◌, ◌-ℤ◌}
use shinyproxy_rust.Model.RuntimeValues
use shinyproxy_rust.Model.RuntimeValues.{
  RuntimeValue, RuntimeValues, string_value, boolean_value, print_int, iter,
}
use shinyproxy_rust.Model.Keys
use shinyproxy_rust.Model.Proxies.{Proxy, Container, new_proxy, container_mut, new, up}
use shinyproxy_rust.Sharing.Seats.{
  DelegateProxy, pending_delegate, available, new_seat, seats_per_container,
}
use shinyproxy_rust.Sharing.SeatStore.{MemorySeatStore, add_seat}
use shinyproxy_rust.Sharing.Delegates.{
  add_delegate_proxy, update_delegate_proxy, remove_delegate_proxy,
}
use shinyproxy_rust.Sharing.Scaler.State.{Config, Scaler}

pub record StartedContainer : Type 0 where
  pub id : Option String
  pub runtime_values : RuntimeValues
  pub targets : Dict String

-- A container of the resolved app definition: the runtime values that its definition gives it,
-- and what the backend answers when it is started (`none` is an error).
pub record ContainerStart : Type 0 where
  pub index : ℤ
  pub values_given : List RuntimeValue
  pub started : Option StartedContainer

-- What the environment answers while one delegate proxy is created: its uuid, the resolved
-- containers (`none` when an expression cannot be resolved), the values added after the
-- resolution, whether the app answers in time, the two times, and the uuids of the seats.
pub record Attempt : Type 0 where
  pub id : String
  pub resolved : Option (List ContainerStart)
  pub final_values : List RuntimeValue
  pub reachable : Bool
  pub created_at : ℤ
  pub started_at : ℤ
  pub seat_uuid : ℕ → String

-- The runtime values of a delegate proxy, in the order in which they are added.
unfoldable pub delegate_values : Config → String → ℤ → List RuntimeValue
delegate_values c id created_at =
    boolean_value Keys.delegate_proxy true
    ∷ string_value Keys.public_path (concat c.public_path_prefix (concat id "/"))
    ∷ string_value Keys.instance_id c.instance_id
    ∷ string_value Keys.created_timestamp (print_int created_at)
    ∷ string_value Keys.proxy_id id
    ∷ (realm c.realm_id
        ++ string_value Keys.proxy_spec_id c.spec_id ∷ string_value Keys.target_id id ∷ [])
  where
    realm : Option String → List RuntimeValue
    realm none = []
    realm (some realm_id) = string_value Keys.realm_id realm_id ∷ []

unfoldable pub add_values : Proxy → List RuntimeValue → Bool → Proxy
add_values p vs override_existing = record p {
  runtime_values = RuntimeValues.add_each p.runtime_values vs override_existing;
}

unfoldable pub add_container_values : List RuntimeValue → Container → Container
add_container_values vs c = record c {
  runtime_values = RuntimeValues.add_each c.runtime_values vs false;
}

-- The containers of the proxy, with the values that their definitions give them.
unfoldable pub add_containers : Proxy → List ContainerStart → Proxy
unfolding add_container_values
add_containers p [] = p
add_containers p (c ∷ cs) =
    add_containers (container_mut p c.index (add_container_values c.values_given)) cs

unfoldable pub insert_targets : Dict String → Dict String → Dict String
insert_targets [] targets = targets
insert_targets ((mapping, target) ∷ rest) targets =
    insert_targets rest (insert mapping target targets)

-- What the backend answered for a started container.
unfoldable pub record_started : Proxy → ℤ → StartedContainer → Proxy
unfolding insert_targets
record_started p index started =
    let p' = container_mut p index (λ c. record c {
      id = started.id;
      runtime_values = RuntimeValues.add_each c.runtime_values (iter started.runtime_values) true;
    }) in
    record p' { targets = insert_targets started.targets p'.targets }

-- Starts the containers in turn; `inr` is the proxy when a container could not be started.
unfoldable pub start_containers : Proxy → List ContainerStart → Proxy ⊎ Proxy
unfolding record_started
start_containers p [] = inl p
start_containers p (c ∷ cs) = elim c.started [
  | none ↦ inr p
  | some started ↦ start_containers (record_started p c.index started) cs
]

-- `count` new seats of a container, numbered from `from`.
unfoldable pub seats_from : ℕ → ℕ → (ℕ → String) → List String
seats_from zero from uuid = []
seats_from (suc n) from uuid = uuid from ∷ seats_from n (suc from) uuid

unfoldable pub add_seats : MemorySeatStore → String → List String → MemorySeatStore
add_seats s delegate_proxy_id [] = s
add_seats s delegate_proxy_id (uuid ∷ rest) =
    add_seats (add_seat s (new_seat uuid delegate_proxy_id)) delegate_proxy_id rest

-- A failed start: the backend is asked to stop what exists, and the delegate proxy is forgotten.
unfoldable pub give_up : Scaler → String → Scaler
give_up s id = record s {
  delegates = remove_delegate_proxy s.delegates id;
  stopped = id ∷ s.stopped;
}

-- The delegate proxy of a container that answers, with its seats.
unfoldable pub published : Config → DelegateProxy → Proxy → Attempt → DelegateProxy
published c delegate proxy a = record delegate {
  proxy = record proxy { status = up; startup_timestamp = a.started_at };
  status = available;
  seat_ids = delegate.seat_ids ++ seats_from (seats_per_container c.extension) 0 a.seat_uuid;
}

-- The end of a successful start: the seats are published.
unfoldable pub publish : Config → Scaler → DelegateProxy → Proxy → Attempt → Scaler
unfolding seats_from add_seats published
publish c s delegate proxy a = record s {
  delegates = update_delegate_proxy s.delegates (published c delegate proxy a);
  seats = add_seats s.seats a.id (seats_from (seats_per_container c.extension) 0 a.seat_uuid);
}

-- The proxy as it is before its expressions are resolved.
unfoldable pub prepared : Config → DelegateProxy → Attempt → Proxy
unfolding add_values delegate_values
prepared c d a =
    add_values
      (record d.proxy {
        status = new;
        spec_id = some c.spec_id;
        target_id = some a.id;
        created_timestamp = a.created_at;
      })
      (delegate_values c a.id a.created_at) false

-- What follows the start of the containers.
unfoldable pub finish_start : Config → Scaler → DelegateProxy → Attempt → Proxy ⊎ Proxy → Scaler
unfolding give_up publish
finish_start c s d a (inr failed) = give_up s a.id
finish_start c s d a (inl started) =
    let d2 = record d { proxy = started } in
    let s2 = record s { delegates = update_delegate_proxy s.delegates d2 } in
    if a.reachable then publish c s2 d2 started a else give_up s2 a.id

unfoldable pub start_resolved :
    Config → Scaler → DelegateProxy → List ContainerStart → Attempt → Scaler
unfolding add_values add_containers start_containers finish_start prepared
start_resolved c s d containers a =
    let p = add_values (add_containers (prepared c d a) containers) a.final_values true in
    let s1 = record s { delegates = update_delegate_proxy s.delegates (record d { proxy = p }) } in
    finish_start c s1 d a (start_containers p containers)

-- When the expressions cannot be resolved the error is returned at once: the delegate proxy stays
-- in the store, pending.
unfoldable pub create_delegate_proxy : Config → Scaler → DelegateProxy → Attempt → Scaler
unfolding start_resolved
create_delegate_proxy c s d a = elim a.resolved [
  | none ↦ s
  | some containers ↦ start_resolved c s d containers a
]

-- One round of `scale_up`: the seats count as pending while the delegate proxy is created.
unfoldable pub create_one : Config → Scaler → Attempt → Scaler
unfolding create_delegate_proxy
create_one c s a =
    let d = pending_delegate (new_proxy a.id new) c.spec_hash in
    let per = pos (seats_per_container c.extension) in
    let s1 = record s {
      delegates = add_delegate_proxy s.delegates d;
      pending_seats = s.pending_seats +ℤ per;
    } in
    let s2 = create_delegate_proxy c s1 d a in record s2 { pending_seats = s2.pending_seats -ℤ per }

-- `count` rounds; round `n` meets the environment `attempts n`.
unfoldable pub scale_up : Config → Scaler → ℕ → (ℕ → Attempt) → Scaler
unfolding create_one
scale_up c s zero attempts = s
scale_up c s (suc count) attempts =
    scale_up c (create_one c s (attempts 0)) count (λ n. attempts (suc n))
