-- ===== src/Service/Leader.antt =====
-- crates/containerproxy/src/service/leader.rs: the election of `RedisLeaderService`, and
-- crates/containerproxy/src/store/redis.rs: `RedisLock`. The commands of Redis are the operations of
-- `Redis`; each answers as the code reads it, with the default that the code takes for an error.
pub mod Election
use shinyproxy_rust.Base.{
  concat, ℕ, max, String, Bool, true, false, not, Option, none, if◌then◌else◌,
}

-- A Redis server, as far as the lock uses it: whether there is a connection, `SET NX EX`, the two
-- scripts, and `GET`.
pub record Redis (S : Type 0) : Type 0 where
  pub connection : S → Bool
  pub set_nx_ex : S → String → String → ℕ → S × Bool
  pub renew_if_owner : S → String → String → ℕ → S × Bool
  pub delete_if_owner : S → String → String → S
  pub get : S → String → Option String

abbrev pub lock_ttl : ℕ
lock_ttl = 30

abbrev pub leader_key : String → String
leader_key prefix = concat prefix "__leader"

-- Takes the lock when it is free, or renews it when this owner holds it.
unfoldable pub acquire : {S : Type 0} → Redis S → String → S → String → ℕ → S × Bool
acquire r key s owner ttl =
    let set = r.set_nx_ex s key owner (max ttl 1) in
    if not (r.connection s)
    then (s, false)
    else if set.1
    then (set.0, true)
    else r.renew_if_owner set.0 key owner (max ttl 1)

unfoldable pub release_lock : {S : Type 0} → Redis S → String → S → String → S
release_lock r key s owner = if not (r.connection s) then s else r.delete_if_owner s key owner

unfoldable pub lock_holder : {S : Type 0} → Redis S → String → S → Option String
lock_holder r key s = if r.connection s then r.get s key else none

-- What a server keeps; its runtime id is an argument of the operations.
pub record RedisLeaderService : Type 0 where
  pub leader : Bool
  pub participating : Bool

abbrev pub new_service : RedisLeaderService
new_service = record { leader = false; participating = true }

unfoldable pub elect :
    {S : Type 0}
    → Redis S
    → String
    → String
    → S
    → RedisLeaderService
    → S × RedisLeaderService × Bool
unfolding acquire
elect r key runtime_id s service =
    let acquired = acquire r key s runtime_id lock_ttl in
    if not service.participating
    then (s, service, false)
    else (acquired.0, record service { leader = acquired.1 }, acquired.1)

unfoldable pub resign :
    {S : Type 0} → Redis S → String → String → S → RedisLeaderService → S × RedisLeaderService
unfolding release_lock
resign r key runtime_id s service =
    if service.leader
    then (release_lock r key s runtime_id, record service { leader = false })
    else (s, service)

unfoldable pub withdraw :
    {S : Type 0} → Redis S → String → String → S → RedisLeaderService → S × RedisLeaderService
unfolding resign
withdraw r key runtime_id s service =
    if service.participating
    then resign r key runtime_id s (record service { participating = false })
    else (s, service)
