-- ===== src/Backend/Ports/Ownership.antt =====
-- No port has two owners, however the servers that share a registry interleave.
use shinyproxy_rust.Base.{
  ℕ, zero, suc, ◌≤◌, String, str_eq, str_eq_iff, ◌≡◌, refl, ap, subst, ◌∙◌, inl, inr, true, false,
  not, ◌&&◌, List, [], ◌∷◌, arith, ◌==◌, if◌then◌else◌, ==_iff, Bool-cases, unwrap_or,
}
use shinyproxy_rust.Base.Dict.{lookup, remove, lookup-insert, lookup-remove}
use shinyproxy_rust.Base.Result.{Result, ok}
use shinyproxy_rust.Backend.Ports.Search.{candidate_port_lem}
use shinyproxy_rust.Backend.Ports.{
  NoPortAvailable, in_range, Allocated, Meddling, PortAllocator, memory_port_registry,
  contains_port, all_ports, is_taken, insert_port, allocate_rounds, add_port, max_port,
}

abbrev pub ports_of : Allocated → String → List ℕ
ports_of s owner_id = unwrap_or (lookup owner_id s) []

-- A port that two owners have is a port of one owner.
abbrev pub OneOwner : Allocated → Type 0
OneOwner s =
    (a b : String) (port : ℕ)
    → contains_port (ports_of s a) port ≡ true
    → contains_port (ports_of s b) port ≡ true
    → a ≡ b

free_everywhere :
    (s : Allocated) (port : ℕ) (a : String)
    → is_taken s port ≡ false
    → contains_port (ports_of s a) port ≡ false
unfolding is_taken contains_port lookup
free_everywhere [] port a free = refl
free_everywhere (entry ∷ rest) port a free = ground (arith, free, free_everywhere rest port a)

insert_port_lem :
    (port : ℕ) (ports : List ℕ) (q : ℕ)
    → contains_port (insert_port port ports) q ≡ (if port == q then true else contains_port ports q)
unfolding insert_port contains_port
insert_port_lem port ports q = ground (arith, ==_iff port q)

-- The ports of an owner after a claim that went through.
pub ports_of-add_port :
    (s : Allocated) (owner_id a : String) (port q : ℕ)
    → is_taken s port ≡ false
    → contains_port (ports_of (add_port s owner_id port).0 a) q
      ≡ (if str_eq owner_id a && (port == q) then true else contains_port (ports_of s a) q)
unfolding add_port
ports_of-add_port s owner_id a port q free = ground (
  arith,
  free,
  insert_port_lem port (ports_of s owner_id) q,
  str_eq_iff owner_id a,
  lookup-insert owner_id a (insert_port port (ports_of s owner_id)) s,
)

pub add_port-OneOwner :
    (s : Allocated) (owner_id : String) (port : ℕ)
    → OneOwner s
    → OneOwner (add_port s owner_id port).0
add_port-OneOwner s owner_id port one a b q h k = elim (Bool-cases (is_taken s port)) [
  | inl taken ↦
      let kept : (add_port s owner_id port).0 ≡ s = unfold add_port in rw taken refl in
      one a b q (ground (arith, h, kept)) (ground (arith, k, kept))
  | inr free ↦ ground (
    arith,
    h,
    k,
    ports_of-add_port s owner_id a port q free,
    ports_of-add_port s owner_id b port q free,
    one a b q,
    free_everywhere s port a free,
    free_everywhere s port b free,
    str_eq_iff owner_id a,
    str_eq_iff owner_id b,
    ==_iff port q,
  )
]

pub release-OneOwner :
    (s : Allocated) (owner_id : String) → OneOwner s → OneOwner (remove owner_id s)
unfolding contains_port
release-OneOwner s owner_id one a b q h k =
    ground (arith, h, k, one a b q, lookup-remove owner_id a s, lookup-remove owner_id b s)

add_port-ports_of :
    (s : Allocated) (owner_id : String) (port : ℕ)
    → is_taken s port ≡ false
    → contains_port (ports_of (add_port s owner_id port).0 owner_id) port ≡ true
add_port-ports_of s owner_id port free =
    ports_of-add_port s owner_id owner_id port port free
    ∙ ground (arith, str_eq_iff owner_id owner_id, ==_iff port port)

add_port-answer :
    (s : Allocated) (owner_id : String) (port : ℕ)
    → (add_port s owner_id port).1 ≡ not (is_taken s port)
unfolding add_port
add_port-answer s owner_id port = ground arith

-- The owner has the port of the range, and nobody else has it.
abbrev pub Granted : PortAllocator → String → Allocated → ℕ → Type 0
Granted a owner_id s port =
    (in_range a.range_to port ≡ true)
    × (a.range_from ≤ port)
    × (contains_port (ports_of s owner_id) port ≡ true)
    × ((other : String) → contains_port (ports_of s other) port ≡ true → other ≡ owner_id)

ok-injective : (p q : ℕ) → Path (Result ℕ NoPortAvailable) (ok p) (ok q) → p ≡ q
ok-injective p q e = cc

-- A port that `allocate` gives an owner lies in the range, is that owner's in the registry
-- afterwards and has no other owner, and the registry still has no port with two owners, whatever
-- other servers that keep this do to the shared registry between the read and the claim of each
-- round; the range starts at a port, and no port has two owners before.
pub allocate_shared :
    (a : PortAllocator) (owner_id : String) (meddle : Meddling Allocated)
    → ((n : ℕ) (s : Allocated) → OneOwner s → OneOwner (meddle n s))
    → (n : ℕ) (s : Allocated) → a.range_from ≤ max_port
    → OneOwner s
    → let answer = allocate_rounds memory_port_registry a owner_id meddle n s in
      OneOwner answer.0 × ((port : ℕ) → answer.1 ≡ ok port → Granted a owner_id answer.0 port)
unfolding allocate_rounds
allocate_shared a owner_id meddle keep zero s small one =
    (one, λ port e. absurd (ground (arith, e)))
allocate_shared a owner_id meddle keep (suc n) s small one =
    let t = meddle n s in
    elim (candidate_port_lem a (all_ports s) small) [
      | inl (e, _) ↦ rw (e, allocate_rounds) (one, λ port e'. absurd (ground (arith, e')))
      | inr (p, e, fits, first) ↦
          let after = add_port-OneOwner t owner_id p (keep n s one) in
          elim (Bool-cases (is_taken t p)) [
            | inl taken ↦
                let refused = add_port-answer t owner_id p ∙ ap not taken in
                rw (e, allocate_rounds, refused)
                  (allocate_shared a owner_id meddle keep n (add_port t owner_id p).0 small after)
            | inr free ↦
                let added = add_port-answer t owner_id p ∙ ap not free in
                let mine = add_port-ports_of t owner_id p free in
                rw (e, allocate_rounds, added)
                  (
                    after,
                    λ port got.
                        subst (Granted a owner_id (add_port t owner_id p).0)
                          (ok-injective p port got)
                          (fits, first.0, mine, λ other h. after other owner_id p h mine),
                  )
          ]
    ]
