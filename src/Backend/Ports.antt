-- ===== src/Backend/Ports.antt =====
-- crates/containerproxy/src/backend/ports.rs: `PortRegistry`, `MemoryPortRegistry` and
-- `PortAllocator`. A port is a `u16`; `u16::MAX` is 65535.
pub mod Search
pub mod Ownership
use shinyproxy_rust.Base.{
  ℕ, zero, suc, ◌+◌, ◌-◌, ◌^◌, String, Bool, true, false, not, ◌||◌, Option, none, some, List, [],
  ◌∷◌, ◌++◌, ltb, leb, ◌==◌, if◌then◌else◌, unwrap_or, length, contains,
}
use shinyproxy_rust.Base.Dict.{Dict, lookup, insert, remove}
use shinyproxy_rust.Base.Result.{Result, ok, err}

pub data NoPortAvailable : Type 0 where
  no_port_available : NoPortAvailable

abbrev pub max_port : ℕ
max_port = 2 ^ 16 - 1

-- The ports of every owner.
abbrev pub Allocated : Type 0
Allocated = Dict (List ℕ)

unfoldable pub contains_port : List ℕ → ℕ → Bool
contains_port [] port = false
contains_port (p ∷ ps) port = if p == port then true else contains_port ps port

-- `values().flatten()`
unfoldable pub all_ports : Allocated → List ℕ
all_ports [] = []
all_ports (entry ∷ rest) = entry.1 ++ all_ports rest

-- A registry keeps a state of its own. `add` answers `false` when the port is taken.
pub record PortRegistry (S : Type 0) : Type 0 where
  pub allocated : S → Allocated
  pub add : S → String → ℕ → S × Bool
  pub release : S → String → S

pub owned : {S : Type 0} → PortRegistry S → S → String → List ℕ
owned r s owner_id = unwrap_or (lookup owner_id (r.allocated s)) []

-- `values().any(|ports| ports.contains(&port))`
unfoldable pub is_taken : Allocated → ℕ → Bool
is_taken [] port = false
is_taken (entry ∷ rest) port = contains_port entry.1 port || is_taken rest port

unfoldable pub insert_port : ℕ → List ℕ → List ℕ
insert_port port ports = if contains_port ports port then ports else port ∷ ports

unfoldable pub add_port : Allocated → String → ℕ → Allocated × Bool
unfolding is_taken insert_port
add_port s owner_id port =
    if is_taken s port
    then (s, false)
    else (insert owner_id (insert_port port (unwrap_or (lookup owner_id s) [])) s, true)

abbrev pub memory_port_registry : PortRegistry Allocated
memory_port_registry = record {
  allocated = λ s. s;
  add = add_port;
  release = λ s owner_id. remove owner_id s;
}

pub record PortAllocator : Type 0 where
  pub range_from : ℕ
  pub range_to : Option ℕ

-- `while allocated.contains(&candidate)`, with `checked_add`; on fuel.
unfoldable pub next_free : ℕ → List ℕ → ℕ → Option ℕ
next_free zero allocated candidate = none
next_free (suc fuel) allocated candidate =
    let rest = next_free fuel allocated (candidate + 1) in
    if not (contains_port allocated candidate)
    then some candidate
    else if leb max_port candidate
    then none
    else rest

unfoldable pub in_range : Option ℕ → ℕ → Bool
in_range none port = true
in_range (some range_to) port = not (ltb range_to port)

-- The port that a round of `allocate` tries.
unfoldable pub candidate_port : PortAllocator → List ℕ → Option ℕ
unfolding next_free in_range
candidate_port a allocated = elim (next_free (max_port + 1) allocated a.range_from) [
  | none ↦ none
  | some candidate ↦ if in_range a.range_to candidate then some candidate else none
]

-- What other servers do to a shared registry between the read and the claim of a round.
abbrev pub Meddling : Type 0 → Type 0
Meddling S = ℕ → S → S

unfoldable pub allocate_rounds :
    {S : Type 0}
    → PortRegistry S
    → PortAllocator
    → String
    → Meddling S
    → ℕ
    → S
    → S × Result ℕ NoPortAvailable
unfolding candidate_port all_ports
allocate_rounds r a owner_id meddle zero s = (s, err no_port_available)
allocate_rounds r a owner_id meddle (suc n) s =
    elim (candidate_port a (all_ports (r.allocated s))) [
      | none ↦ (s, err no_port_available)
      | some port ↦
          let added = r.add (meddle n s) owner_id port in
          let rest = allocate_rounds r a owner_id meddle n added.0 in
          if added.1 then (added.0, ok port) else rest
    ]

abbrev pub allocate :
    {S : Type 0}
    → PortRegistry S
    → PortAllocator
    → String
    → Meddling S
    → S
    → S × Result ℕ NoPortAvailable
allocate r a owner_id meddle s = allocate_rounds r a owner_id meddle 100 s

-- `add_existing_port` ignores the answer.
abbrev pub add_existing_port : {S : Type 0} → PortRegistry S → String → ℕ → S → S
add_existing_port r owner_id port s = (r.add s owner_id port).0

sizes : Allocated → ℕ
sizes [] = 0
sizes (entry ∷ rest) = length entry.1 + sizes rest

pub allocated_count : {S : Type 0} → PortRegistry S → S → ℕ
unfolding sizes
allocated_count r s = sizes (r.allocated s)
