-- ===== src/Service/Stores.antt =====
-- crates/containerproxy/src/store/memory.rs: `MemoryProxyStore` and `MemoryHeartbeatStore`.
pub mod Targets
use shinyproxy_rust.Base.{
  ℕ, ◌+◌, String, str_eq, Bool, true, false, ◌&&◌, Option, none, some, List, [], ◌∷◌, leb, ◌==◌,
  if◌then◌else◌, keep_if,
}
use shinyproxy_rust.Base.Dict.{Dict, lookup, insert, remove, values}
use shinyproxy_rust.Base.Int.{ℤ}
use shinyproxy_rust.Model.Proxies.{Proxy, target_id_of}
use Prim.Native.Char.{code}

pub record MemoryProxyStore : Type 0 where
  pub proxies : Dict Proxy
  pub case_sensitive_users : Bool

abbrev pub new_proxy_store : Bool → MemoryProxyStore
new_proxy_store case_sensitive_users = record {
  proxies = [];
  case_sensitive_users = case_sensitive_users;
}

-- `to_ascii_lowercase`, on the code of a character.
lower : ℕ → ℕ
lower n = if leb 65 n && leb n 90 then n + 32 else n

unfoldable pub eq_ignore_ascii_case : String → String → Bool
unfolding lower
eq_ignore_ascii_case String.[] String.[] = true
eq_ignore_ascii_case String.[] (String.◌∷◌ d t) = false
eq_ignore_ascii_case (String.◌∷◌ c s) String.[] = false
eq_ignore_ascii_case (String.◌∷◌ c s) (String.◌∷◌ d t) =
    (lower (code c) == lower (code d)) && eq_ignore_ascii_case s t

unfoldable pub owns : MemoryProxyStore → Proxy → String → Bool
owns s p user_id = elim p.user_id [
  | none ↦ false
  | some owner ↦
      if s.case_sensitive_users then str_eq owner user_id else eq_ignore_ascii_case owner user_id
]

unfoldable pub all_proxies : MemoryProxyStore → List Proxy
all_proxies s = values s.proxies

unfoldable pub add_proxy : MemoryProxyStore → Proxy → MemoryProxyStore
add_proxy s p = record s { proxies = insert p.id p s.proxies }

unfoldable pub update_proxy : MemoryProxyStore → Proxy → MemoryProxyStore
update_proxy s p = record s { proxies = insert p.id p s.proxies }

unfoldable pub remove_proxy : MemoryProxyStore → Proxy → MemoryProxyStore
remove_proxy s p = record s { proxies = remove p.id s.proxies }

-- `proxy` and `proxy_ref`.
unfoldable pub proxy : MemoryProxyStore → String → Option Proxy
proxy s proxy_id = lookup proxy_id s.proxies

unfoldable pub first_that : (Proxy → Bool) → List Proxy → Option Proxy
first_that test [] = none
first_that test (p ∷ ps) = if test p then some p else first_that test ps

unfoldable pub find_user_proxy_by_target : MemoryProxyStore → String → String → Option Proxy
unfolding first_that owns
find_user_proxy_by_target s user_id target_id =
    first_that (λ p. str_eq (target_id_of p) target_id && owns s p user_id) (values s.proxies)

unfoldable pub user_proxies : MemoryProxyStore → String → List Proxy
unfolding owns
user_proxies s user_id = keep_if (λ p. owns s p user_id) (values s.proxies)

pub record MemoryHeartbeatStore : Type 0 where
  pub heartbeats : Dict ℤ

abbrev pub new_heartbeat_store : MemoryHeartbeatStore
new_heartbeat_store = record { heartbeats = [] }

unfoldable pub update_heartbeat : MemoryHeartbeatStore → String → ℤ → MemoryHeartbeatStore
update_heartbeat s proxy_id timestamp = record {
  heartbeats = insert proxy_id timestamp s.heartbeats;
}

unfoldable pub heartbeat : MemoryHeartbeatStore → String → Option ℤ
heartbeat s proxy_id = lookup proxy_id s.heartbeats

unfoldable pub remove_heartbeat : MemoryHeartbeatStore → String → MemoryHeartbeatStore
remove_heartbeat s proxy_id = record { heartbeats = remove proxy_id s.heartbeats }
