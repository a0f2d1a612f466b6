-- ===== src/Service/Leader/Election.antt =====
-- At most one server of a realm takes itself for the leader.
use shinyproxy_rust.Base.{
  ℕ, max, String, str_eq, str_eq_iff, ◌≡◌, subst, ◌∙◌, ◌≢◌, inl, inr, true, false, none, some, List,
  [], ◌∷◌, arith, if◌then◌else◌, Bool-cases,
}
use shinyproxy_rust.Service.Leader.{
  Redis, RedisLeaderService, new_service, acquire, release_lock, elect, resign, withdraw, lock_ttl,
}

-- The documented behaviour of the commands, on one key. A command that answers an error may still
-- have been carried out.
pub record RedisLaws {S : Type 0} (r : Redis S) (key : String) : Type 0 where
  pub set_true :
      (s : S) (owner : String) (ttl : ℕ)
      → (r.set_nx_ex s key owner ttl).1 ≡ true
      → (r.get s key ≡ none) × (r.get (r.set_nx_ex s key owner ttl).0 key ≡ some owner)
  pub set_held :
      (s : S) (owner other : String) (ttl : ℕ)
      → r.get s key ≡ some other
      → r.get (r.set_nx_ex s key owner ttl).0 key ≡ some other
  pub renew_true :
      (s : S) (owner : String) (ttl : ℕ)
      → (r.renew_if_owner s key owner ttl).1 ≡ true
      → r.get s key ≡ some owner
  pub renew_keeps :
      (s : S) (owner : String) (ttl : ℕ)
      → r.get (r.renew_if_owner s key owner ttl).0 key ≡ r.get s key
  pub delete_other :
      (s : S) (owner other : String)
      → owner ≢ other
      → r.get s key ≡ some other
      → r.get (r.delete_if_owner s key owner) key ≡ some other

module _ {S : Type 0} (r : Redis S) (key : String) (laws : RedisLaws r key) where
  -- The servers of a realm by their runtime id, and the Redis that they share.
  pub record Realm : Type 0 where
    pub redis : S
    pub services : String → RedisLeaderService

  abbrev set_service : Realm → String → S × RedisLeaderService → Realm
  set_service realm id (s, service) = record {
    redis = s;
    services = λ other. if str_eq id other then service else realm.services other;
  }

  -- A server elects, resigns or withdraws; or the lock runs out, at a new state of Redis.
  pub data LeaderEvent : Type 0 where
    elects resigns withdraws : String → LeaderEvent
    expires : S → LeaderEvent

  unfoldable pub leader_step : Realm → LeaderEvent → Realm
  leader_step realm (elects id) =
      let (s, service, _) = elect r key id realm.redis (realm.services id) in
      set_service realm id (s, service)
  leader_step realm (resigns id) =
      set_service realm id (resign r key id realm.redis (realm.services id))
  leader_step realm (withdraws id) =
      set_service realm id (withdraw r key id realm.redis (realm.services id))
  leader_step realm (expires s) = record realm { redis = s }

  -- The lock of a server that is the leader does not run out: it is renewed three times before.
  abbrev pub Timely : Realm → LeaderEvent → Type 0
  Timely realm (expires s) = (id : String) → (realm.services id).leader ≡ false
  Timely realm _ = Unit {0}

  -- Who takes itself for the leader holds the lock.
  abbrev pub LeaderHolds : Realm → Type 0
  LeaderHolds realm =
      (id : String) → (realm.services id).leader ≡ true → r.get realm.redis key ≡ some id

  acquire-get :
      (s : S) (owner other : String) (ttl : ℕ)
      → r.get s key ≡ some other
      → r.get (acquire r key s owner ttl).0 key ≡ some other
  unfolding acquire
  acquire-get s owner other ttl h =
      let held = laws.set_held s owner other (max ttl 1) h in
      elim (Bool-cases (r.connection s)) [
        | inr down ↦ rw down h
        | inl there ↦ elim (Bool-cases (r.set_nx_ex s key owner (max ttl 1)).1) [
          | inl set ↦ rw (there, set) held
          | inr set ↦
              rw (there, set)
                (laws.renew_keeps (r.set_nx_ex s key owner (max ttl 1)).0 owner (max ttl 1) ∙ held)
        ]
      ]

  acquire-true :
      (s : S) (owner : String) (ttl : ℕ)
      → (acquire r key s owner ttl).1 ≡ true
      → r.get (acquire r key s owner ttl).0 key ≡ some owner
  unfolding acquire
  acquire-true s owner ttl e = elim (Bool-cases (r.connection s)) [
    | inr down ↦ absurd (ground (arith, e, down))
    | inl there ↦ elim (Bool-cases (r.set_nx_ex s key owner (max ttl 1)).1) [
      | inl set ↦ rw (there, set) (laws.set_true s owner (max ttl 1) set).1
      | inr set ↦
          let after = (r.set_nx_ex s key owner (max ttl 1)).0 in
          let renewed : (r.renew_if_owner after key owner (max ttl 1)).1 ≡ true =
            ground (arith, e, there, set) in
          rw (there, set)
            (laws.renew_keeps after owner (max ttl 1)
              ∙ laws.renew_true after owner (max ttl 1) renewed)
    ]
  ]

  -- What an operation of the server `id` has to keep, on the lock and the flag that it leaves.
  abbrev Keeps : S → RedisLeaderService → String → S × RedisLeaderService → Type 0
  Keeps s service id after =
      ((other : String) → id ≢ other → r.get s key ≡ some other → r.get after.0 key ≡ some other)
      × ((service.leader ≡ true → r.get s key ≡ some id)
          → after.1.leader ≡ true
          → r.get after.0 key ≡ some id)

  elect-Keeps :
      (s : S) (service : RedisLeaderService) (id : String)
      → let after = elect r key id s service in Keeps s service id (after.0, after.1)
  unfolding elect
  elect-Keeps s service id = elim (Bool-cases service.participating) [
    | inr out ↦ rw out ((λ other ne h. h), λ h. h)
    | inl takes_part ↦
        rw takes_part
          ((λ other ne h. acquire-get s id other lock_ttl h), λ _ e. acquire-true s id lock_ttl e)
  ]

  resign-Keeps :
      (s : S) (service : RedisLeaderService) (id : String)
      → Keeps s service id (resign r key id s service)
  unfolding resign release_lock
  resign-Keeps s service id = elim (Bool-cases service.leader) [
    | inr follows ↦ rw follows ((λ other ne h. h), λ h e. absurd (ground (arith, e, follows)))
    | inl leads ↦ rw leads (
      (λ other ne h. elim (Bool-cases (r.connection s)) [
        | inl there ↦ rw there (laws.delete_other s id other ne h)
        | inr down ↦ rw down h
      ]),
      λ h e. absurd (ground (arith, e)),
    )
  ]

  withdraw-Keeps :
      (s : S) (service : RedisLeaderService) (id : String)
      → Keeps s service id (withdraw r key id s service)
  unfolding withdraw
  withdraw-Keeps s service id = elim (Bool-cases service.participating) [
    | inl takes_part ↦ rw takes_part (resign-Keeps s (record service { participating = false }) id)
    | inr out ↦ rw out ((λ other ne h. h), λ h. h)
  ]

  set_service-LeaderHolds :
      (realm : Realm) (id : String) (after : S × RedisLeaderService)
      → Keeps realm.redis (realm.services id) id after
      → LeaderHolds realm
      → LeaderHolds (set_service realm id after)
  set_service-LeaderHolds realm id after keeps holds other leads =
      elim (Bool-cases (str_eq id other)) [
        | inl same ↦
            let here : id ≡ other = (str_eq_iff id other).0 same in
            subst (λ x. r.get after.0 key ≡ some x) here
              (keeps.1 (holds id) (ground (arith, leads, same)))
        | inr differ ↦
            keeps.0 other (λ e. ground (arith, differ, str_eq_iff id other, e))
              (holds other (ground (arith, leads, differ)))
      ]

  leader_step-LeaderHolds :
      (realm : Realm) (event : LeaderEvent)
      → Timely realm event
      → LeaderHolds realm
      → LeaderHolds (leader_step realm event)
  unfolding leader_step
  leader_step-LeaderHolds realm (elects id) _ holds =
      set_service-LeaderHolds realm id _ (elect-Keeps realm.redis (realm.services id) id) holds
  leader_step-LeaderHolds realm (resigns id) _ holds =
      set_service-LeaderHolds realm id _ (resign-Keeps realm.redis (realm.services id) id) holds
  leader_step-LeaderHolds realm (withdraws id) _ holds =
      set_service-LeaderHolds realm id _ (withdraw-Keeps realm.redis (realm.services id) id) holds
  leader_step-LeaderHolds realm (expires s) timely holds =
      λ other leads. absurd (ground (arith, leads, timely other))

  -- The events of a realm from the start of its servers, the latest first.
  pub data Elections : Realm → List LeaderEvent → Type 0 where
    starts : (s : S) → Elections (record { redis = s; services = λ _. new_service }) []
    then_ :
        {realm : Realm} {events : List LeaderEvent} (event : LeaderEvent)
        → Elections realm events
        → Timely realm event
        → Elections (leader_step realm event) (event ∷ events)

  Elections-LeaderHolds :
      {realm : Realm} {events : List LeaderEvent} → Elections realm events → LeaderHolds realm
  Elections-LeaderHolds (starts s) = λ id leads. absurd (ground (arith, leads))
  Elections-LeaderHolds (then_ {realm} event before timely) =
      leader_step-LeaderHolds realm event timely (Elections-LeaderHolds before)

  -- Of the servers of a realm that share a lock at most one takes itself for the leader, after any
  -- sequence of elections, resignations and withdrawals, commands of Redis that fail included, as
  -- long as the lock does not run out while a server is the leader and Redis keeps its documented
  -- laws.
  pub one_leader :
      {realm : Realm} {events : List LeaderEvent} (a b : String)
      → Elections realm events
      → (realm.services a).leader ≡ true
      → (realm.services b).leader ≡ true
      → a ≡ b
  one_leader a b run leads leads' =
      let held = Elections-LeaderHolds run in
      let mine = held a leads in let yours = held b leads' in cc
