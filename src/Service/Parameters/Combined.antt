-- ===== src/Service/Parameters/Combined.antt =====
-- crates/containerproxy/src/service/parameters.rs: the combinations that the form offers.
use shinyproxy_rust.Base.{
  ℕ, String, str_eq_iff, ◌≡◌, refl, sym, ap, ◌∙◌, ◌⊎◌, inl, inr, true, some, List, [], ◌∷◌, ◌++◌,
  arith, Bool-cases, Option-cases, contains,
}
use shinyproxy_rust.Model.Parameters.{ParameterValueSet, values_of}
use shinyproxy_rust.Service.Parameters.Form.{
  Indexes, index_of, extend, extend_all, combine, combinations_of_value_set, same_indexes,
  has_combination, push_new, combinations_of,
}
use mathlib.Core.List.{Memᴰ, append-nil, append_assoc}
use mathlib.Core.List.Memᴰ
use mathlib.Core.List.Memᴰ.{head, tail}

-- One index for each parameter, of a value that the value set has for it.
abbrev pub Picks : Indexes → ParameterValueSet → List String → List ℕ → Type 0
Picks indexes s [] [] = Unit {0}
Picks indexes s (i ∷ is) (n ∷ ns) =
    ((value : String) × (contains (values_of s i) value ≡ true)
      × (index_of indexes i value ≡ some n))
    × Picks indexes s is ns
Picks _ _ _ _ = ⊥

-- A combination with one more index.
abbrev Extended : Indexes → String → List (List ℕ) → List String → List ℕ → Type 0
Extended indexes i previous vs c =
    (before : List ℕ) × (n : ℕ) × (value : String) × Memᴰ before previous
    × (c ≡ before ++ n ∷ [])
    × (contains vs value ≡ true)
    × (index_of indexes i value ≡ some n)

mem-extend :
    (n : ℕ) (cs : List (List ℕ)) {c : List ℕ}
    → Memᴰ c (extend n cs)
    → (before : List ℕ) × Memᴰ before cs × (c ≡ before ++ n ∷ [])
mem-extend n [] m = elim m [ ]
mem-extend n (d ∷ cs) (head q) = (d, head refl, q)
mem-extend n (d ∷ cs) (tail m) =
    let (before, inside, e) = mem-extend n cs m in (before, tail inside, e)

mem-extend_all :
    (indexes : Indexes) (i : String) (previous : List (List ℕ)) (vs : List String) {c : List ℕ}
    → Memᴰ c (extend_all indexes i previous vs)
    → Extended indexes i previous vs c
unfolding extend_all contains
mem-extend_all indexes i previous [] m = elim m [ ]
mem-extend_all indexes i previous (v ∷ vs) {c} m = elim (Option-cases (index_of indexes i v)) [
  | inl e ↦ later (mem-extend_all indexes i previous vs (rw (extend_all, e) at m))
  | inr (n, e) ↦ elim (Memᴰ.append_cases (extend n previous) (rw (extend_all, e) at m)) [
    | inl here ↦
        let (before, inside, e') = mem-extend n previous here in
        (before, n, v, inside, e', ground (arith, str_eq_iff v v), e)
    | inr there ↦ later (mem-extend_all indexes i previous vs there)
  ]
]
  where
    later : Extended indexes i previous vs c → Extended indexes i previous (v ∷ vs) c
    later (before, n, value, inside, e, h, found) =
        (before, n, value, inside, e, ground arith, found)

mem-combine :
    (indexes : Indexes) (s : ParameterValueSet) (result : List (List ℕ)) (is : List String)
    {c : List ℕ}
    → Memᴰ c (combine indexes s result is)
    → (before rest : List ℕ) × Memᴰ before result × (c ≡ before ++ rest) × Picks indexes s is rest
unfolding combine
mem-combine indexes s result [] {c} m = (c, [], m, sym (append-nil c), tt)
mem-combine indexes s result (i ∷ is) {c} m =
    let (longer, rest, inside, e, picks) =
      mem-combine indexes s (extend_all indexes i result (values_of s i)) is m in
    let (before, n, value, inside', e', h, found) =
      mem-extend_all indexes i result (values_of s i) inside in
    (
      before,
      n ∷ rest,
      inside',
      e ∙ ap (λ x. x ++ rest) e' ∙ append_assoc before (n ∷ []) rest,
      ((value, h, found), picks),
    )

pub mem-combinations_of_value_set :
    (indexes : Indexes) (s : ParameterValueSet) (is : List String) {c : List ℕ}
    → Memᴰ c (combinations_of_value_set is s indexes)
    → Picks indexes s is c
unfolding combinations_of_value_set
mem-combinations_of_value_set indexes s is {c} m =
    let (before, rest, inside, e, picks) = mem-combine indexes s ([] ∷ []) is m in
    let nothing = Memᴰ.eq_of_singleton inside in rw (e, nothing) picks

mem-push_new :
    (allowed cs : List (List ℕ)) {c : List ℕ}
    → Memᴰ c (push_new allowed cs)
    → Memᴰ c allowed ⊎ Memᴰ c cs
unfolding push_new
mem-push_new allowed [] m = inl m
mem-push_new allowed (d ∷ cs) {c} m = elim (Bool-cases (has_combination allowed d)) [
  | inl e ↦ elim (mem-push_new allowed cs (rw e at m)) [
    | inl old ↦ inl old
    | inr added ↦ inr (tail added)
  ]
  | inr e ↦ elim (mem-push_new (allowed ++ d ∷ []) cs (rw e at m)) [
    | inl old ↦ elim (Memᴰ.append_cases allowed old) [
      | inl older ↦ inl older
      | inr last ↦ inr (head (Memᴰ.eq_of_singleton last))
    ]
    | inr added ↦ inr (tail added)
  ]
]

-- Every combination that is offered is picked from one of the value sets.
pub mem-combinations_of :
    (is : List String) (indexes : Indexes) (allowed : List (List ℕ)) (sets : List ParameterValueSet)
    {c : List ℕ}
    → Memᴰ c (combinations_of is indexes allowed sets)
    → Memᴰ c allowed ⊎ ((s : ParameterValueSet) × Memᴰ s sets × Picks indexes s is c)
unfolding combinations_of
mem-combinations_of is indexes allowed [] m = inl m
mem-combinations_of is indexes allowed (s ∷ sets) m =
    let found =
      mem-combinations_of is indexes (push_new allowed (combinations_of_value_set is s indexes))
        sets m in
    elim found [
      | inr (t, inside, picks) ↦ inr (t, tail inside, picks)
      | inl pushed ↦ elim (mem-push_new allowed (combinations_of_value_set is s indexes) pushed) [
        | inl old ↦ inl old
        | inr added ↦ inr (s, head refl, mem-combinations_of_value_set indexes s is added)
      ]
    ]

same_indexes→eq : (xs ys : List ℕ) → same_indexes xs ys ≡ true → xs ≡ ys
same_indexes→eq [] [] h = refl
same_indexes→eq (x ∷ xs) (y ∷ ys) h = ground (arith, same_indexes→eq xs ys)
same_indexes→eq [] (y ∷ ys) h = cc
same_indexes→eq (x ∷ xs) [] h = cc

pub has_combination-mem :
    (cs : List (List ℕ)) (c : List ℕ) → has_combination cs c ≡ true → Memᴰ c cs
unfolding has_combination
has_combination-mem [] c h = absurd cc
has_combination-mem (d ∷ cs) c h = elim (Bool-cases (same_indexes d c)) [
  | inl e ↦ head (sym (same_indexes→eq d c e))
  | inr e ↦ tail (has_combination-mem cs c (ground arith))
]
