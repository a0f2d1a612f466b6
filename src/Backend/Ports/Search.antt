-- ===== src/Backend/Ports/Search.antt =====
-- The search for a free port, and what `allocate` answers on a single server.
use shinyproxy_rust.Base.{
  ℕ, zero, suc, ◌+◌, ◌≤◌, ◌<◌, String, ◌≡◌, refl, subst, ◌⊎◌, inl, inr, true, false, ◌||◌, Option,
  none, some, List, [], ◌∷◌, ◌++◌, arith, leb, ◌==◌, Bool-cases,
}
use shinyproxy_rust.Base.Result.{ok, err}
use shinyproxy_rust.Backend.Ports.{
  Allocated, PortAllocator, memory_port_registry, contains_port, all_ports, is_taken, next_free,
  in_range, candidate_port, allocate, allocate_rounds, add_port, max_port, no_port_available,
}

-- `p` is the first port from `from` on that is not in the list.
abbrev pub FirstFree : List ℕ → ℕ → ℕ → Type 0
FirstFree allocated from p =
    (from ≤ p)
    × (p ≤ max_port)
    × (contains_port allocated p ≡ false)
    × ((q : ℕ) → from ≤ q → q < p → contains_port allocated q ≡ true)

-- A taken port and the taken ports after it.
taken_from :
    (allocated : List ℕ) (c q : ℕ)
    → contains_port allocated c ≡ true
    → c ≤ q
    → (c + 1 ≤ q → contains_port allocated q ≡ true)
    → contains_port allocated q ≡ true
taken_from allocated c q taken h later = elim (Bool-cases (c == q)) [
  | inl e ↦ subst (λ x. contains_port allocated x ≡ true) (ground (arith, e)) taken
  | inr e ↦ later (ground (arith, e, h))
]

-- With enough fuel the search ends at the first free port, or every port up to the last is taken.
next_free_lem :
    (fuel : ℕ) (allocated : List ℕ) (c : ℕ)
    → c ≤ max_port
    → max_port < c + fuel
    → ((next_free fuel allocated c ≡ none)
        × ((q : ℕ) → c ≤ q → q ≤ max_port → contains_port allocated q ≡ true))
      ⊎ ((p : ℕ) × (next_free fuel allocated c ≡ some p) × FirstFree allocated c p)
unfolding next_free
next_free_lem zero allocated c small enough = absurd (omega arith)
next_free_lem (suc fuel) allocated c small enough = elim (Bool-cases (contains_port allocated c)) [
  | inr free ↦
      inr (c, rw free refl, (omega arith, small, free, λ q h k. absurd (omega (arith, h, k))))
  | inl taken ↦ elim (Bool-cases (leb max_port c)) [
    | inl last ↦ inl (
      rw (taken, last) refl,
      λ q h k. subst (λ x. contains_port allocated x ≡ true) (ground (arith, last, h, k)) taken,
    )
    | inr more ↦ elim (next_free_lem fuel allocated (c + 1) (ground (arith, more)) (omega arith)) [
      | inl (e, all) ↦
          inl (rw (taken, more) e, λ q h k. taken_from allocated c q taken h (λ m. all q m k))
      | inr (p, e, first) ↦ inr (
        p,
        rw (taken, more) e,
        (
          omega (arith, first.0),
          first.1,
          first.2,
          λ q h k. taken_from allocated c q taken h (λ m. first.3 q m k),
        ),
      )
    ]
  ]
]

below_range :
    (range_to : Option ℕ) (p q : ℕ)
    → in_range range_to p ≡ false
    → in_range range_to q ≡ true
    → q < p
unfolding in_range
below_range none p q beyond fits = absurd (ground (arith, beyond))
below_range (some range_to) p q beyond fits = ground (arith, beyond, fits)

-- The first free port of the range, or the range has none.
pub candidate_port_lem :
    (a : PortAllocator) (allocated : List ℕ)
    → a.range_from ≤ max_port
    → ((candidate_port a allocated ≡ none)
        × ((q : ℕ)
            → a.range_from ≤ q
            → q ≤ max_port
            → in_range a.range_to q ≡ true
            → contains_port allocated q ≡ true))
      ⊎ ((p : ℕ) × (candidate_port a allocated ≡ some p)
          × (in_range a.range_to p ≡ true)
          × FirstFree allocated a.range_from p)
unfolding candidate_port
candidate_port_lem a allocated small =
    elim (next_free_lem (max_port + 1) allocated a.range_from small (omega arith)) [
      | inl (e, all) ↦ inl (rw (e, candidate_port) refl, λ q h k _. all q h k)
      | inr (p, e, first) ↦ elim (Bool-cases (in_range a.range_to p)) [
        | inl fits ↦ inr (p, rw (e, candidate_port, fits) refl, fits, first)
        | inr beyond ↦ inl (
          rw (e, candidate_port, beyond) refl,
          λ q h k fits. first.3 q h (below_range a.range_to p q beyond fits),
        )
      ]
    ]

contains_port-append :
    (ps qs : List ℕ) (port : ℕ)
    → contains_port (ps ++ qs) port ≡ (contains_port ps port || contains_port qs port)
unfolding contains_port
contains_port-append [] qs port = refl
contains_port-append (p ∷ ps) qs port = ground (arith, contains_port-append ps qs port)

pub is_taken-all_ports :
    (s : Allocated) (port : ℕ) → is_taken s port ≡ contains_port (all_ports s) port
unfolding is_taken all_ports contains_port
is_taken-all_ports [] port = refl
is_taken-all_ports (entry ∷ rest) port =
    ground (arith, contains_port-append entry.1 (all_ports rest) port, is_taken-all_ports rest port)

-- One round is enough when no other server meddles.
first_round :
    (n : ℕ) (a : PortAllocator) (owner_id : String) (s : Allocated)
    → a.range_from ≤ max_port
    → let answer = allocate_rounds memory_port_registry a owner_id (λ _ t. t) (suc n) s in
      ((answer ≡ (s, err no_port_available))
        × ((q : ℕ)
            → a.range_from ≤ q
            → q ≤ max_port
            → in_range a.range_to q ≡ true
            → is_taken s q ≡ true))
      ⊎ ((p : ℕ) × (answer ≡ ((add_port s owner_id p).0, ok p))
          × (in_range a.range_to p ≡ true)
          × (is_taken s p ≡ false)
          × (a.range_from ≤ p)
          × (p ≤ max_port)
          × ((q : ℕ) → a.range_from ≤ q → q < p → is_taken s q ≡ true))
unfolding allocate_rounds add_port
first_round n a owner_id s small = elim (candidate_port_lem a (all_ports s) small) [
  | inl (e, all) ↦
      inl (rw (e, allocate_rounds) refl, λ q h k fits. rw (is_taken-all_ports s q) (all q h k fits))
  | inr (p, e, fits, first) ↦
      let free : is_taken s p ≡ false = rw (is_taken-all_ports s p) first.2 in
      inr (
        p,
        rw (e, allocate_rounds, free) refl,
        fits,
        free,
        first.0,
        first.1,
        λ q h k. rw (is_taken-all_ports s q) (first.3 q h k),
      )
]

-- On a single server `allocate` gives the owner the first free port of the range, and records it;
-- it fails, and changes nothing, only when every port of the range is taken; the range starts at a
-- port.
pub allocate_lem :
    (a : PortAllocator) (owner_id : String) (s : Allocated)
    → a.range_from ≤ max_port
    → let answer = allocate memory_port_registry a owner_id (λ _ t. t) s in
      ((answer ≡ (s, err no_port_available))
        × ((q : ℕ)
            → a.range_from ≤ q
            → q ≤ max_port
            → in_range a.range_to q ≡ true
            → is_taken s q ≡ true))
      ⊎ ((p : ℕ) × (answer ≡ ((add_port s owner_id p).0, ok p))
          × (in_range a.range_to p ≡ true)
          × (is_taken s p ≡ false)
          × (a.range_from ≤ p)
          × (p ≤ max_port)
          × ((q : ℕ) → a.range_from ≤ q → q < p → is_taken s q ≡ true))
allocate_lem a owner_id s small = first_round 99 a owner_id s small
