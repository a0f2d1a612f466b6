-- ===== src/Sharing/Delegates.antt =====
-- crates/containerproxy/src/service/sharing/store.rs: `MemoryDelegateProxyStore`.
use shinyproxy_rust.Base.{String, inl, inr, Option, List, [], ◌∷◌, if◌then◌else◌, Bool-cases}
use shinyproxy_rust.Base.Dict.{Dict, lookup, insert, remove, values}
use Prim.Native.String.{compare}
use text.Mathlib.Text.{is_le}
use shinyproxy_rust.Sharing.Seats.{DelegateProxy}

pub record MemoryDelegateProxyStore : Type 0 where
  pub delegate_proxies : Dict DelegateProxy

unfoldable pub add_delegate_proxy :
    MemoryDelegateProxyStore → DelegateProxy → MemoryDelegateProxyStore
add_delegate_proxy s d = record { delegate_proxies = insert d.proxy.id d s.delegate_proxies }

unfoldable pub update_delegate_proxy :
    MemoryDelegateProxyStore → DelegateProxy → MemoryDelegateProxyStore
update_delegate_proxy s d = record { delegate_proxies = insert d.proxy.id d s.delegate_proxies }

unfoldable pub remove_delegate_proxy : MemoryDelegateProxyStore → String → MemoryDelegateProxyStore
remove_delegate_proxy s id = record { delegate_proxies = remove id s.delegate_proxies }

unfoldable pub delegate_proxy : MemoryDelegateProxyStore → String → Option DelegateProxy
delegate_proxy s id = lookup id s.delegate_proxies

-- `sort_by` on the ids, by insertion: stable, as the library's sort.
pub insert_sorted : DelegateProxy → List DelegateProxy → List DelegateProxy
insert_sorted d [] = d ∷ []
insert_sorted d (e ∷ es) =
    if is_le (compare d.proxy.id e.proxy.id) then d ∷ e ∷ es else e ∷ insert_sorted d es

pub sort_by_id : List DelegateProxy → List DelegateProxy
unfolding insert_sorted
sort_by_id [] = []
sort_by_id (d ∷ ds) = insert_sorted d (sort_by_id ds)

pub all_delegate_proxies : MemoryDelegateProxyStore → List DelegateProxy
unfolding sort_by_id
all_delegate_proxies s = sort_by_id (values s.delegate_proxies)

-- A predicate of every delegate proxy of a list, and of every one that the store would return.
abbrev pub Every {ℓ} : (DelegateProxy → Type ℓ) → List DelegateProxy → Type ℓ
Every P [] = Unit
Every P (d ∷ ds) = P d × Every P ds

insert_sorted-Every {ℓ} :
    (P : DelegateProxy → Type ℓ) (d : DelegateProxy) (ds : List DelegateProxy)
    → P d
    → Every P ds
    → Every P (insert_sorted d ds)
unfolding insert_sorted
insert_sorted-Every P d [] h k = (h, tt)
insert_sorted-Every P d (e ∷ es) h k = elim (Bool-cases (is_le (compare d.proxy.id e.proxy.id))) [
  | inl q ↦ rw q (h, k)
  | inr q ↦ rw q (k.0, insert_sorted-Every P d es h k.1)
]

sort_by_id-Every {ℓ} :
    (P : DelegateProxy → Type ℓ) (ds : List DelegateProxy) → Every P ds → Every P (sort_by_id ds)
unfolding sort_by_id
sort_by_id-Every P [] h = tt
sort_by_id-Every P (d ∷ ds) h =
    insert_sorted-Every P d (sort_by_id ds) h.0 (sort_by_id-Every P ds h.1)

pub all_delegate_proxies-Every {ℓ} :
    (P : DelegateProxy → Type ℓ) (s : MemoryDelegateProxyStore)
    → Every P (values s.delegate_proxies)
    → Every P (all_delegate_proxies s)
unfolding all_delegate_proxies
all_delegate_proxies-Every P s h = sort_by_id-Every P (values s.delegate_proxies) h
