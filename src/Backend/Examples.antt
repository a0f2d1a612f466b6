-- ===== src/Backend/Examples.antt =====
-- Two servers that share a registry of ports.
use shinyproxy_rust.Base.{ℕ, ◌≤◌, ◌<◌, ◌≡◌, ◌⊎◌, true, false, some, [], arith}
use shinyproxy_rust.Base.Dict.{lookup}
use shinyproxy_rust.Base.Result.{ok, err}
use shinyproxy_rust.Backend.Ports.{
  Allocated, PortAllocator, memory_port_registry, contains_port, is_taken, in_range, allocate,
  allocate_rounds, add_port, max_port, no_port_available,
}
use shinyproxy_rust.Backend.Ports.Search.{allocate_lem}
use shinyproxy_rust.Backend.Ports.Ownership.{OneOwner, Granted, allocate_shared, add_port-OneOwner}

abbrev allocator : PortAllocator
allocator = record { range_from = 20000; range_to = some 20001 }

abbrev one_port : Allocated
one_port = (add_port [] "a" 20000).0

allocate_lem_example :
    let answer = allocate memory_port_registry allocator "b" (λ _ t. t) one_port in
    ((answer ≡ (one_port, err no_port_available))
      × ((q : ℕ)
          → 20000 ≤ q
          → q ≤ max_port
          → in_range (some 20001) q ≡ true
          → is_taken one_port q ≡ true))
    ⊎ ((p : ℕ) × (answer ≡ ((add_port one_port "b" p).0, ok p))
        × (in_range (some 20001) p ≡ true)
        × (is_taken one_port p ≡ false)
        × (20000 ≤ p)
        × (p ≤ max_port)
        × ((q : ℕ) → 20000 ≤ q → q < p → is_taken one_port q ≡ true))
allocate_lem_example = allocate_lem allocator "b" one_port (omega arith)

nobody-OneOwner : OneOwner []
unfolding lookup contains_port
nobody-OneOwner a b port h k = absurd (ground (arith, h))

-- Another server takes the port 20001 before each claim.
abbrev rival : ℕ → Allocated → Allocated
rival n s = (add_port s "rival" 20001).0

allocate_shared_example :
    let answer = allocate_rounds memory_port_registry allocator "b" rival 3 one_port in
    OneOwner answer.0 × ((port : ℕ) → answer.1 ≡ ok port → Granted allocator "b" answer.0 port)
allocate_shared_example =
    allocate_shared allocator "b" rival (λ n s one. add_port-OneOwner s "rival" 20001 one) 3
      one_port (omega arith) (add_port-OneOwner [] "a" 20000 nobody-OneOwner)
