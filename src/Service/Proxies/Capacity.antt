-- ===== src/Service/Proxies/Capacity.antt =====
-- The capacity that `create_proxy` respects.
use shinyproxy_rust.Base.{
  ℕ, ◌+◌, ◌≤◌, String, ◌≡◌, refl, subst, inl, inr, Bool, true, false, some, List, [], ◌∷◌, arith,
  Bool-cases, length, keep_if,
}
use shinyproxy_rust.Base.Dict.{lookup-insert_eq, Dict, lookup, insert, values}
use shinyproxy_rust.Base.Int.{◌<ℤ◌, parts_zero, ℤ, pos, negsuc, ◌≤ℤ◌}
use shinyproxy_rust.Base.Result.{Result, ok}
use shinyproxy_rust.Model.RuntimeValues.{RuntimeValue}
use shinyproxy_rust.Model.Proxies.{Proxy}
use shinyproxy_rust.Service.Stores.{add_proxy, proxy, all_proxies}
use shinyproxy_rust.Service.Proxies.{
  ProxyService, StartError, has_spec, count, count_by_spec, full, validate_capacity, created,
  create_proxy,
}

length-values-insert :
    (k : String) (p : Proxy) (d : Dict Proxy)
    → length (values (insert k p d)) ≤ length (values d) + 1
unfolding values insert
length-values-insert k p [] = omega arith
length-values-insert k p ((j, q) ∷ d) = ground (arith, length-values-insert k p d)

length-keep_if-insert :
    (f : Proxy → Bool) (k : String) (p : Proxy) (d : Dict Proxy)
    → length (keep_if f (values (insert k p d))) ≤ length (keep_if f (values d)) + 1
unfolding values insert keep_if
length-keep_if-insert f k p [] = ground arith
length-keep_if-insert f k p ((j, q) ∷ d) = ground (arith, length-keep_if-insert f k p d)

room :
    (maximum : ℤ) (used after : ℕ)
    → full maximum used ≡ false
    → after ≤ used + 1
    → negsuc 0 <ℤ maximum
    → pos after ≤ℤ maximum
unfolding full
room maximum used after h k m = ground (arith, h, k, m, parts_zero maximum)

validated :
    (s : ProxyService) (spec_id : String) (spec_maximum : ℤ)
    → validate_capacity s spec_id spec_maximum ≡ true
    → (full s.max_total_instances (count s) ≡ false)
      × (full spec_maximum (count_by_spec s spec_id) ≡ false)
unfolding validate_capacity
validated s spec_id spec_maximum h = ground (arith, h)

ok-injective : (p q : Proxy) → Path (Result Proxy StartError) (ok p) (ok q) → p ≡ q
ok-injective p q e = cc

-- A proxy that `create_proxy` returns is stored under its id, and with it neither the proxies of
-- the server nor those of the app definition are more than their maximum, where that is not
-- negative.
pub create_proxy-capacity :
    (s : ProxyService) (proxy_id user_id spec_id display_name : String) (spec_maximum : ℤ)
    (given : List RuntimeValue) (now : ℤ) (p : Proxy)
    → let answer = create_proxy s proxy_id user_id spec_id display_name spec_maximum given now in
      answer.1 ≡ ok p
      → (negsuc 0 <ℤ s.max_total_instances → pos (count answer.0) ≤ℤ s.max_total_instances)
        × (negsuc 0 <ℤ spec_maximum → pos (count_by_spec answer.0 spec_id) ≤ℤ spec_maximum)
        × (proxy answer.0.store p.id ≡ some p)
unfolding create_proxy all_proxies add_proxy proxy
create_proxy-capacity s proxy_id user_id spec_id display_name spec_maximum given now p e =
    elim (Bool-cases (validate_capacity s spec_id spec_maximum)) [
      | inr refused ↦ absurd (ground (arith, e, refused))
      | inl valid ↦
          let made = created proxy_id user_id spec_id display_name given now in
          let ok_made : Path (Result Proxy StartError) (ok made) (ok p) =
            ground (arith, e, valid) in
          let v = validated s spec_id spec_maximum valid in
          rw valid (
            room s.max_total_instances (count s) _ v.0
                (length-values-insert made.id made s.store.proxies),
            room spec_maximum (count_by_spec s spec_id) _ v.1
                (length-keep_if-insert (has_spec spec_id) made.id made s.store.proxies),
            subst (λ q. lookup q.id (insert made.id made s.store.proxies) ≡ some q)
                (ok-injective made p ok_made)
                (lookup-insert_eq made.id made.id made s.store.proxies refl),
          )
    ]
