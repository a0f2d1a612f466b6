-- ===== src/Sharing/Scaler/Create/Outcome.antt =====
-- What one attempt to create a delegate proxy leaves behind.
use shinyproxy_rust.Base.{
  ℕ, zero, suc, ◌+◌, String, str_eq_iff, ◌≡◌, refl, sym, ap, subst, ◌∙◌, ◌⊎◌, inl, inr, Bool, true,
  false, ◌&&◌, Option, none, some, List, [], ◌∷◌, ◌++◌, arith, if◌then◌else◌, Bool-cases,
  Option-cases, is_some, length, length-append, contains,
}
use shinyproxy_rust.Base.Dict.{lookup-insert_eq, lookup-remove_self, lookup, lookup-insert}
use shinyproxy_rust.Base.Int.{+ℤ_cancel, pos, ◌+ℤ◌}
use shinyproxy_rust.Model.Proxies.{new, new_proxy, container_mut, Proxy}
use mathlib.Core.List.{append-nil, append_assoc}
use shinyproxy_rust.Sharing.Seats.{new_seat, DelegateProxy, pending, available, seats_per_container}
use shinyproxy_rust.Sharing.SeatStore.{MemorySeatStore, add_seat, unclaimed_count}
use shinyproxy_rust.Sharing.Delegates.{
  add_delegate_proxy, remove_delegate_proxy, update_delegate_proxy, delegate_proxy,
}
use shinyproxy_rust.Sharing.Scaler.State.{Config, Scaler}
use shinyproxy_rust.Sharing.Scaler.Create.{
  published, publish, give_up, pending_delegate, prepared, add_values, start_resolved, finish_start,
  create_delegate_proxy, Attempt, ContainerStart, start_containers, record_started, seats_from,
  add_seats, create_one, add_container_values, add_containers,
}

-- The backend starts every container.
pub all_started : List ContainerStart → Bool
all_started [] = true
all_started (c ∷ cs) = is_some c.started && all_started cs

-- The expressions resolve, every container starts and the app answers in time.
unfoldable pub succeeds : Attempt → Bool
unfolding all_started
succeeds a = elim a.resolved [ none ↦ false | some cs ↦ all_started cs && a.reachable ]

abbrev pub is_inl {ℓ κ} : {A : Type ℓ} {B : Type κ} → A ⊎ B → Bool
is_inl (inl a) = true
is_inl (inr b) = false

pub start_containers-is_inl :
    (p : Proxy) (cs : List ContainerStart) → is_inl (start_containers p cs) ≡ all_started cs
unfolding start_containers all_started
start_containers-is_inl p [] = refl
start_containers-is_inl p (c ∷ cs) = elim (Option-cases c.started) [
  | inl e ↦ rw (e, start_containers) refl
  | inr (started, e) ↦
      rw (e, start_containers) (start_containers-is_inl (record_started p c.index started) cs)
]

pub length-seats_from : (n from : ℕ) (uuid : ℕ → String) → length (seats_from n from uuid) ≡ n
unfolding seats_from
length-seats_from zero from uuid = refl
length-seats_from (suc n) from uuid = ap suc (length-seats_from n (suc from) uuid)

add_seats-unclaimed :
    (s : MemorySeatStore) (id : String) (ids : List String)
    → (add_seats s id ids).unclaimed ≡ s.unclaimed ++ ids
unfolding add_seats add_seat
add_seats-unclaimed s id [] = sym (append-nil s.unclaimed)
add_seats-unclaimed s id (uuid ∷ rest) =
    add_seats-unclaimed (add_seat s (new_seat uuid id)) id rest
    ∙ append_assoc s.unclaimed (uuid ∷ []) rest

lookup-add_seats :
    (s : MemorySeatStore) (id : String) (ids : List String) (seat_id : String)
    → lookup seat_id (add_seats s id ids).seats
      ≡ (if contains ids seat_id then some (new_seat seat_id id) else lookup seat_id s.seats)
unfolding add_seats add_seat contains
lookup-add_seats s id [] seat_id = refl
lookup-add_seats s id (uuid ∷ rest) seat_id = ground (
  arith,
  lookup-add_seats (add_seat s (new_seat uuid id)) id rest seat_id,
  lookup-insert uuid seat_id (new_seat uuid id) s.seats,
  str_eq_iff uuid seat_id,
)

pub unclaimed_count-add_seats :
    (s : MemorySeatStore) (id : String) (ids : List String)
    → unclaimed_count (add_seats s id ids) ≡ unclaimed_count s + length ids
unfolding add_seats add_seat unclaimed_count
unclaimed_count-add_seats s id [] = omega arith
unclaimed_count-add_seats s id (uuid ∷ rest) =
    omega (
      arith,
      length-append s.unclaimed (uuid ∷ []),
      unclaimed_count-add_seats (add_seat s _) id rest,
    )

-- The seats that a successful attempt publishes.
abbrev pub new_seats : Config → Attempt → List String
new_seats c a = seats_from (seats_per_container c.extension) 0 a.seat_uuid

-- The proxy keeps its id while it is set up.
start_containers-id :
    (p : Proxy) (cs : List ContainerStart) (q : Proxy) → start_containers p cs ≡ inl q → q.id ≡ p.id
unfolding start_containers record_started container_mut
start_containers-id p [] q e = ground (arith, e)
start_containers-id p (c ∷ cs) q e = elim (Option-cases c.started) [
  | inl f ↦ absurd (ground (arith, e, f))
  | inr (started, f) ↦
      start_containers-id (record_started p c.index started) cs q (rw (f, start_containers) at e)
]

add_containers-id : (p : Proxy) (cs : List ContainerStart) → (add_containers p cs).id ≡ p.id
unfolding add_containers container_mut
add_containers-id p [] = refl
add_containers-id p (c ∷ cs) =
    add_containers-id (container_mut p c.index (add_container_values c.values_given)) cs

-- What an attempt leaves of its delegate proxy: a pending one without seats if the expressions
-- cannot be resolved, an available one with its seats if all goes well, and none otherwise.
abbrev pub Left : Config → Attempt → Option DelegateProxy → Type 0
Left c a none = (succeeds a ≡ false) × (is_some a.resolved ≡ true)
Left c a (some d) =
    (d.proxy.id ≡ a.id)
    × (d.status ≡ (if is_some a.resolved then available else pending))
    × (d.seat_ids ≡ (if is_some a.resolved then new_seats c a else []))
    × (succeeds a ≡ is_some a.resolved)

finish_start-seats :
    (c : Config) (s : Scaler) (d : DelegateProxy) (a : Attempt) (r : Proxy ⊎ Proxy)
    → ((finish_start c s d a r).seats
        ≡ (if is_inl r && a.reachable then add_seats s.seats a.id (new_seats c a) else s.seats))
      × ((finish_start c s d a r).pending_seats ≡ s.pending_seats)
unfolding finish_start
finish_start-seats c s d a (inr failed) = (refl, refl)
finish_start-seats c s d a (inl started) = elim (Bool-cases a.reachable) [
  | inl e ↦ rw e (refl, refl)
  | inr e ↦ rw e (refl, refl)
]

create_delegate_proxy-seats :
    (c : Config) (s : Scaler) (d : DelegateProxy) (a : Attempt)
    → ((create_delegate_proxy c s d a).seats
        ≡ (if succeeds a then add_seats s.seats a.id (new_seats c a) else s.seats))
      × ((create_delegate_proxy c s d a).pending_seats ≡ s.pending_seats)
unfolding create_delegate_proxy succeeds start_resolved
create_delegate_proxy-seats c s d a = elim (Option-cases a.resolved) [
  | inl e ↦ rw (e, create_delegate_proxy, succeeds) (refl, refl)
  | inr (cs, e) ↦
      let p = add_values (add_containers (prepared c d a) cs) a.final_values true in
      let s1 : Scaler = record s {
        delegates = update_delegate_proxy s.delegates (record d { proxy = p });
      } in
      rw (e, create_delegate_proxy, succeeds, ← start_containers-is_inl p cs)
        (finish_start-seats c s1 d a (start_containers p cs))
]

-- An attempt to start a container publishes all the seats of the container when it succeeds and no
-- seat otherwise: they are stored as free seats of its delegate proxy and offered after the seats
-- offered before, and every other seat is as it was. It gives back what it had counted as pending.
pub create_one-seats :
    (c : Config) (s : Scaler) (a : Attempt)
    → ((create_one c s a).seats
        ≡ (if succeeds a then add_seats s.seats a.id (new_seats c a) else s.seats))
      × ((create_one c s a).pending_seats ≡ s.pending_seats)
      × ((create_one c s a).seats.unclaimed
          ≡ s.seats.unclaimed ++ (if succeeds a then new_seats c a else []))
      × ((id : String)
          → lookup id (create_one c s a).seats.seats ≡ (
              if succeeds a && contains (new_seats c a) id
              then some (new_seat id a.id)
              else lookup id s.seats.seats))
unfolding create_one
create_one-seats c s a =
    let d = pending_delegate (new_proxy a.id new) c.spec_hash in
    let per = pos (seats_per_container c.extension) in
    let s1 : Scaler = record s {
      delegates = add_delegate_proxy s.delegates d;
      pending_seats = s.pending_seats +ℤ per;
    } in
    let created = create_delegate_proxy-seats c s1 d a in
    (
      created.0,
      rw created.1 (+ℤ_cancel s.pending_seats per),
      rw created.0 (offered (succeeds a)),
      λ id. rw created.0 (stored (succeeds a) id),
    )
  where
    seats_of : Bool → MemorySeatStore
    seats_of good = if good then add_seats s.seats a.id (new_seats c a) else s.seats

    offered :
        (good : Bool)
        → (seats_of good).unclaimed ≡ s.seats.unclaimed ++ (if good then new_seats c a else [])
    offered true = add_seats-unclaimed s.seats a.id (new_seats c a)
    offered false = sym (append-nil s.seats.unclaimed)

    stored :
        (good : Bool) (id : String)
        → lookup id (seats_of good).seats ≡ (
            if good && contains (new_seats c a) id
            then some (new_seat id a.id)
            else lookup id s.seats.seats)
    stored true id = lookup-add_seats s.seats a.id (new_seats c a) id
    stored false id = refl

finish_start-Left :
    (c : Config) (s : Scaler) (d : DelegateProxy) (a : Attempt) (r : Proxy ⊎ Proxy)
    → is_some a.resolved ≡ true
    → succeeds a ≡ (is_inl r && a.reachable)
    → d.seat_ids ≡ []
    → ((q : Proxy) → r ≡ inl q → q.id ≡ a.id)
    → Left c a (delegate_proxy (finish_start c s d a r).delegates a.id)
unfolding finish_start give_up publish delegate_proxy remove_delegate_proxy update_delegate_proxy
finish_start-Left c s d a (inr failed) some_e good bare same =
    rw (lookup-remove_self a.id s.delegates.delegate_proxies) (good, some_e)
finish_start-Left c s d a (inl started) some_e good bare same = elim (Bool-cases a.reachable) [
  | inl e ↦
      let found : delegate_proxy (finish_start c s d a (inl started)).delegates a.id
          ≡ some (published c (record d { proxy = started }) started a) =
        rw e (lookup-insert_eq started.id a.id _ _ (same started refl)) in
      subst (Left c a) (sym found) (same started refl, ground arith, ground arith, ground arith)
  | inr e ↦
      let gone : delegate_proxy (finish_start c s d a (inl started)).delegates a.id ≡ none =
        rw e (lookup-remove_self a.id _) in
      subst (Left c a) (sym gone) (ground arith, some_e)
]

create_delegate_proxy-Left :
    (c : Config) (s : Scaler) (a : Attempt)
    → let d = pending_delegate (new_proxy a.id new) c.spec_hash in
      lookup a.id s.delegates.delegate_proxies ≡ some d
      → Left c a (delegate_proxy (create_delegate_proxy c s d a).delegates a.id)
unfolding create_delegate_proxy succeeds start_resolved delegate_proxy
create_delegate_proxy-Left c s a there = elim (Option-cases a.resolved) [
  | inl e ↦
      let d = pending_delegate (new_proxy a.id new) c.spec_hash in
      let found : delegate_proxy (create_delegate_proxy c s d a).delegates a.id ≡ some d =
        rw (e, create_delegate_proxy) there in
      subst (Left c a) (sym found) (refl, ground arith, ground arith, ground arith)
  | inr (cs, e) ↦
      let d = pending_delegate (new_proxy a.id new) c.spec_hash in
      let p = add_values (add_containers (prepared c d a) cs) a.final_values true in
      let s1 : Scaler = record s {
        delegates = update_delegate_proxy s.delegates (record d { proxy = p });
      } in
      let same : create_delegate_proxy c s d a ≡ finish_start c s1 d a (start_containers p cs) =
        rw (e, create_delegate_proxy) in
      subst (λ t. Left c a (delegate_proxy t.delegates a.id)) (sym same)
        (finish_start-Left c s1 d a (start_containers p cs) (rw e)
          (rw (e, succeeds, ← start_containers-is_inl p cs)) refl
          λ q r. start_containers-id p cs q r ∙ add_containers-id (prepared c d a) cs)
]

-- An attempt leaves its delegate proxy pending and without seats when the expressions cannot be
-- resolved, available with its seats when it succeeds, and forgotten otherwise.
pub create_one-Left :
    (c : Config) (s : Scaler) (a : Attempt)
    → Left c a (delegate_proxy (create_one c s a).delegates a.id)
unfolding create_one add_delegate_proxy
create_one-Left c s a =
    create_delegate_proxy-Left c _ a
      (lookup-insert_eq a.id a.id _ s.delegates.delegate_proxies refl)
