-- ===== src/Service/Parameters/Offered.antt =====
-- crates/containerproxy/src/service/parameters.rs: what the form offers, `parse_and_validate_request`
-- accepts.
use shinyproxy_rust.Base.{
  get_elem?, ℕ, ◌-◌, String, str_eq_iff, ◌≡◌, refl, inl, inr, true, Option, none, some, List, [],
  ◌∷◌, arith, if◌then◌else◌, Bool-cases, Option-cases, is_some, unwrap_or, length, keep_if,
  contains, AllDistinct,
}
use shinyproxy_rust.Base.Dict.{Dict, lookup}
use shinyproxy_rust.Model.Parameters.{
  ParameterDefinition, ParameterValueSet, Parameters, definition_ids, ids, name_of_value,
  value_of_name, values_of,
}
use shinyproxy_rust.Service.Parameters.{
  Access, Accepted, ParameterValues, parse_and_validate_request,
}
use shinyproxy_rust.Base.Result.{ok}
use shinyproxy_rust.Service.Parameters.Accepted.{MeansValue, contains-definition_ids}
use shinyproxy_rust.Service.Parameters.Requests.{parse_and_validate_request-allowed}
use shinyproxy_rust.Service.Parameters.Validation.{validate_spec}
use shinyproxy_rust.Service.Parameters.Valid.{validate_spec-ok}
use shinyproxy_rust.Service.Parameters.Form.{
  Indexes, AllowedParametersForUser, accessible, shown, index_of, index_value_sets, no_choices,
  allowed_parameters_for_user,
}
use shinyproxy_rust.Service.Parameters.Indexed.{index_of-shown}
use shinyproxy_rust.Service.Parameters.Combined.{Picks, mem-combinations_of}
use mathlib.Core.List.{Memᴰ}
use mathlib.Core.List.Memᴰ
use mathlib.Core.List.Memᴰ.{head, tail}

-- What the form sends for a combination: the names at the indexes.
unfoldable pub submitted : Dict (List String) → List String → List ℕ → Dict String
unfolding lookup get_elem?
submitted names (i ∷ is) (n ∷ ns) =
    let rest = submitted names is ns in
    elim (get_elem? (unwrap_or (lookup i names) []) (n - 1)) [
      | none ↦ rest
      | some name ↦ (i, name) ∷ rest
    ]
submitted names _ _ = []

-- The values of the value sets can be told by what is shown for them: the name of a value names it,
-- and a value without a name is not the name of another.
abbrev pub Unambiguous : Parameters → Type 0
Unambiguous q =
    (s : ParameterValueSet)
    → Memᴰ s q.value_sets
    → (d : ParameterDefinition) → Memᴰ d q.definitions
    → (value : String) → contains (values_of s d.id) value ≡ true
    → value_of_name d (shown d value)
      ≡ (if is_some (name_of_value d value) then some value else none)

MeansValue-shown :
    (d : ParameterDefinition) (value : String)
    → value_of_name d (shown d value)
      ≡ (if is_some (name_of_value d value) then some value else none)
    → MeansValue d (shown d value) value
MeansValue-shown d value h = elim (Option-cases (name_of_value d value)) [
  | inl e ↦ inr (ground arith, ground arith, ground arith)
  | inr (name, e) ↦ inl (ground arith)
]

mem-accessible :
    (has_access : Access) (sets : List ParameterValueSet) {s : ParameterValueSet}
    → Memᴰ s (accessible has_access sets)
    → Memᴰ s sets × (has_access s.access_control ≡ true)
unfolding accessible keep_if
mem-accessible has_access [] m = elim m [ ]
mem-accessible has_access (t ∷ sets) m = elim (Bool-cases (has_access t.access_control)) [
  | inl e ↦ elim (Memᴰ.cases_cons (rw (accessible, keep_if, e) at m)) [
    | inl q ↦ (head q, rw q e)
    | inr m' ↦ let (inside, access) = mem-accessible has_access sets m' in (tail inside, access)
  ]
  | inr e ↦
      let (inside, access) = mem-accessible has_access sets (rw (accessible, keep_if, e) at m) in
      (tail inside, access)
]

module _ (indexes : Indexes) (names : Dict (List String)) (s : ParameterValueSet) where
  -- The names show the values that have an index.
  abbrev NamesShow : List ParameterDefinition → Type 0
  NamesShow ds =
      (d : ParameterDefinition)
      → Memᴰ d ds
      → (value : String) (index : ℕ) → index_of indexes d.id value ≡ some index
      → get_elem? (unwrap_or (lookup d.id names) []) (index - 1) ≡ some (shown d value)

  length-submitted :
      (ds : List ParameterDefinition) (ns : List ℕ)
      → NamesShow ds
      → Picks indexes s (definition_ids ds) ns
      → length (submitted names (definition_ids ds) ns) ≡ length (definition_ids ds)
  unfolding submitted
  length-submitted [] [] show picks = refl
  length-submitted [] (n ∷ ns) show picks = elim picks [ ]
  length-submitted (d ∷ ds) [] show picks = elim picks [ ]
  length-submitted (d ∷ ds) (n ∷ ns) show ((value, inside, found), picks) =
      let at = show d (head refl) value n found in
      let rest = length-submitted ds ns (λ e m. show e (tail m)) picks in ground arith

  lookup-submitted :
      (ds : List ParameterDefinition) (ns : List ℕ)
      → AllDistinct (definition_ids ds)
      → NamesShow ds
      → Picks indexes s (definition_ids ds) ns
      → (d : ParameterDefinition) → Memᴰ d ds
      → (value : String) × (lookup d.id (submitted names (definition_ids ds) ns)
          ≡ some (shown d value))
        × (contains (values_of s d.id) value ≡ true)
  unfolding submitted lookup
  lookup-submitted [] ns distinct show picks d m = elim m [ ]
  lookup-submitted (e ∷ ds) [] distinct show picks d m = elim picks [ ]
  lookup-submitted (e ∷ ds) (n ∷ ns) distinct show ((value, inside, found), picks) d (head q) =
      let at = show e (head refl) value n found in
      rw q (value, ground (arith, str_eq_iff e.id e.id), inside)
  lookup-submitted (e ∷ ds) (n ∷ ns) distinct show ((v, inside, found), picks) d (tail m) =
      let at = show e (head refl) v n found in
      let (value, at', inside') =
        lookup-submitted ds ns distinct.1 (λ x m. show x (tail m)) picks d m in
      (
        value,
        ground (arith, str_eq_iff e.id d.id, contains-definition_ids ds m, distinct.0),
        inside',
      )

-- The combination is accepted as a request.
abbrev pub IsAccepted : Parameters → Access → AllowedParametersForUser → List ℕ → Type 0
IsAccepted q has_access form c =
    (r : Accepted) × (parse_and_validate_request (some q) (some (submitted form.values (ids q) c))
        has_access
      ≡ ok (some r))

-- Every combination that the form offers a user is accepted when its names are sent back, if the
-- configuration is valid and the values can be told by what is shown for them.
pub offered-IsAccepted :
    (q : Parameters) (previous : Option ParameterValues) (has_access : Access)
    → validate_spec (some q) ≡ ok tt
    → Unambiguous q
    → (c : List ℕ)
    → let form = allowed_parameters_for_user (some q) previous has_access in
      Memᴰ c form.allowed_combinations → IsAccepted q has_access form c
unfolding allowed_parameters_for_user
offered-IsAccepted q previous has_access valid clear c m =
    let sets = accessible has_access q.value_sets in
    let choices = index_value_sets q.definitions no_choices sets in
    let distinct = (validate_spec-ok q valid).0 in
    elim (mem-combinations_of (ids q) choices.indexes [] sets m) [
      | inl none_yet ↦ elim none_yet [ ]
      | inr (s, inside, picks) ↦
          let (inside', access) = mem-accessible has_access q.value_sets inside in
          let show : NamesShow choices.indexes choices.names s q.definitions =
            λ d m value index h. (index_of-shown q.definitions distinct sets d m value index h).1 in
          parse_and_validate_request-allowed q (submitted choices.names (ids q) c) has_access s
            (length-submitted choices.indexes choices.names s q.definitions c show picks) inside'
            access
            (λ d m.
              let (value, given, has) =
                lookup-submitted choices.indexes choices.names s q.definitions c distinct show picks
                  d m in
              (
                value,
                (
                  shown d value,
                  given,
                  MeansValue-shown d value (clear s inside' d m value has),
                  has,
                ),
              ))
    ]
