-- ===== src/Service/Parameters/Requests.antt =====
-- crates/containerproxy/src/service/parameters.rs: what each answer of `parse_and_validate_request`
-- says.
use shinyproxy_rust.Base.{
  if_ind, String, str_eq_iff, ◌≡◌, refl, ap, subst, ◌≢◌, inl, inr, true, not, Option, none, some,
  List, [], ◌∷◌, arith, ◌==◌, Bool-cases, Option-cases, length, contains, AllDistinct,
}
use shinyproxy_rust.Base.Dict.{Dict, lookup, values}
use shinyproxy_rust.Model.Parameters.{
  ParameterDefinition, ParameterValueSet, Parameters, definition_ids, ids,
}
use shinyproxy_rust.Service.Parameters.{
  Access, Accepted, ParameterValues, InvalidParameters, not_provided, wrong_number, missing_value,
  not_allowed, convert_if_allowed, convert_values, names_of, first_allowed, missing,
  parse_and_validate_request,
}
use shinyproxy_rust.Service.Parameters.Accepted.{
  AllowsAll, TakenFrom, convert_values-each, convert_values-allowed,
}
use shinyproxy_rust.Base.Result.{Result, ok, err}
use mathlib.Core.List.{Memᴰ}
use mathlib.Core.List.Memᴰ.{head, tail}

module _ (ds : List ParameterDefinition) (provided : Dict String) where
  convert_if_allowed-some :
      (s : ParameterValueSet) {r : Accepted}
      → AllDistinct (definition_ids ds)
      → convert_if_allowed ds s provided ≡ some r
      → TakenFrom ds s provided r.1
  unfolding convert_if_allowed
  convert_if_allowed-some s {r} distinct h = elim (Option-cases (convert_values ds s provided [])) [
    | inl e ↦ absurd cc
    | inr (values, e) ↦
        let same : r
            ≡ (names_of ds provided, record { backend_values = values; value_set_name = s.name }) =
          ground arith in
        rw same (refl, convert_values-each s provided ds [] distinct e)
  ]

  convert_if_allowed-allows :
      (s : ParameterValueSet)
      → AllowsAll ds s provided
      → (r : Accepted) × (convert_if_allowed ds s provided ≡ some r)
  unfolding convert_if_allowed
  convert_if_allowed-allows s allows =
      let (values, e) = convert_values-allowed s provided ds [] allows in
      (
        (names_of ds provided, record { backend_values = values; value_set_name = s.name }),
        rw (convert_if_allowed, e) refl,
      )

  module _ (has_access : Access) where
    -- A value set that the user may use, from which the values come.
    abbrev pub Found : List ParameterValueSet → ParameterValues → Type 0
    Found sets values =
        (s : ParameterValueSet) × Memᴰ s sets
        × (has_access s.access_control ≡ true)
        × TakenFrom ds s provided values

    first_allowed-some :
        (sets : List ParameterValueSet) {r : Accepted}
        → AllDistinct (definition_ids ds)
        → first_allowed has_access ds sets provided ≡ some r
        → Found sets r.1
    unfolding first_allowed
    first_allowed-some [] distinct h = absurd cc
    first_allowed-some (s ∷ sets) {r} distinct h = elim (Bool-cases (has_access s.access_control)) [
      | inl access ↦ elim (Option-cases (convert_if_allowed ds s provided)) [
        | inl e ↦ later (first_allowed-some sets {r = r} distinct (ground arith))
        | inr (r', e) ↦
            (s, head refl, access, convert_if_allowed-some s {r = r} distinct (ground arith))
      ]
      | inr refused ↦ later (first_allowed-some sets {r = r} distinct (ground arith))
    ]
      where
        later : Found sets r.1 → Found (s ∷ sets) r.1
        later (t, inside, access, taken) = (t, tail inside, access, taken)

    pub first_allowed-allows :
        (sets : List ParameterValueSet) {s : ParameterValueSet}
        → Memᴰ s sets
        → has_access s.access_control ≡ true
        → AllowsAll ds s provided
        → (r : Accepted) × (first_allowed has_access ds sets provided ≡ some r)
    unfolding first_allowed
    first_allowed-allows [] inside access allows = elim inside [ ]
    first_allowed-allows (t ∷ sets) (head q) access allows =
        let (r, e) = convert_if_allowed-allows t (subst (λ x. AllowsAll ds x provided) q allows) in
        (r, ground (arith, ap (λ x. x.access_control) q))
    first_allowed-allows (t ∷ sets) (tail inside) access allows =
        elim (Option-cases (convert_if_allowed ds t provided)) [
          | inl e ↦
              let (r, e') = first_allowed-allows sets inside access allows in (r, ground arith)
          | inr (r, e) ↦ elim (Bool-cases (has_access t.access_control)) [
            | inl open_ ↦ (r, ground arith)
            | inr shut ↦
                let (r', e') = first_allowed-allows sets inside access allows in (r', ground arith)
          ]
        ]

missing-some :
    (is : List String) (provided : Dict String) {i : String}
    → missing is provided ≡ some i
    → (contains is i ≡ true) × (lookup i provided ≡ none)
unfolding missing contains
missing-some [] provided h = absurd cc
missing-some (j ∷ is) provided {i} h = elim (Option-cases (lookup j provided)) [
  | inl e ↦ (ground (arith, str_eq_iff j i), ground arith)
  | inr (given, e) ↦
      let (inside, absent) = missing-some is provided {i = i} (ground arith) in
      (ground arith, absent)
]

-- What an answer to a request says.
abbrev pub Judged :
    Parameters → Dict String → Access → Result (Option Accepted) InvalidParameters → Type 0
Judged q provided has_access (ok none) = ⊥
Judged q provided has_access (ok (some r)) =
    Found q.definitions provided has_access q.value_sets r.1
Judged q provided has_access (err not_provided) = ⊥
Judged q provided has_access (err wrong_number) = length provided ≢ length (ids q)
Judged q provided has_access (err (missing_value i)) =
    (contains (ids q) i ≡ true) × (lookup i provided ≡ none)
Judged q provided has_access (err not_allowed) =
    (s : ParameterValueSet)
    → Memᴰ s q.value_sets
    → has_access s.access_control ≡ true
    → ¬ AllowsAll q.definitions s provided

-- An accepted request has the values of a value set that the user may use, for each parameter the
-- value that the user means, under the name of the set; a request that is refused has another
-- number of values than there are parameters, lacks the parameter that is named, or has values
-- that no value set allows that the user may use; the ids of the parameters are distinct.
pub parse_and_validate_request_lem :
    (q : Parameters) (provided : Dict String) (has_access : Access)
    → AllDistinct (ids q)
    → Judged q provided has_access (parse_and_validate_request (some q) (some provided) has_access)
unfolding parse_and_validate_request
parse_and_validate_request_lem q provided has_access distinct =
    if_ind (Judged q provided has_access) (not (length provided == length (ids q)))
      (λ h. ground arith)
      (λ h. elim (Option-cases (missing (ids q) provided)) [
        | inr (i, e) ↦ rw e (missing-some (ids q) provided e)
        | inl none_missing ↦
            elim (Option-cases (first_allowed has_access q.definitions q.value_sets provided)) [
              | inr (r, e) ↦
                  rw (none_missing, e)
                    (first_allowed-some q.definitions provided has_access q.value_sets distinct e)
              | inl e ↦
                  rw (none_missing, e)
                    (λ s inside access allows.
                      let (r, e') =
                        first_allowed-allows q.definitions provided has_access q.value_sets inside
                          access allows in
                      cc)
            ]
      ])

missing-none :
    (ds : List ParameterDefinition) (s : ParameterValueSet) (provided : Dict String)
    → AllowsAll ds s provided
    → missing (definition_ids ds) provided ≡ none
unfolding missing
missing-none [] s provided allows = refl
missing-none (d ∷ ds) s provided allows =
    let (value, (given, found, means, inside)) = allows d (head refl) in
    let rest = missing-none ds s provided (λ e m. allows e (tail m)) in ground arith

-- A request is accepted when it has as many values as there are parameters and a value set that the
-- user may use has all of them.
pub parse_and_validate_request-allowed :
    (q : Parameters) (provided : Dict String) (has_access : Access) (s : ParameterValueSet)
    → length provided ≡ length (ids q)
    → Memᴰ s q.value_sets
    → has_access s.access_control ≡ true
    → AllowsAll q.definitions s provided
    → (r : Accepted) × (parse_and_validate_request (some q) (some provided) has_access
        ≡ ok (some r))
unfolding parse_and_validate_request
parse_and_validate_request-allowed q provided has_access s all inside access allows =
    let (r, e) =
      first_allowed-allows q.definitions provided has_access q.value_sets inside access allows in
    let e' = missing-none q.definitions s provided allows in (r, ground arith)
