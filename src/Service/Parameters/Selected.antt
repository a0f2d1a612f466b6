-- ===== src/Service/Parameters/Selected.antt =====
-- crates/containerproxy/src/service/parameters.rs: the selection that the form shows.
use shinyproxy_rust.Base.{
  ℕ, ◌≡◌, refl, ◌⊎◌, inl, inr, Option, none, some, List, arith, Bool-cases, Option-cases,
}
use shinyproxy_rust.Base.Dict.{values}
use shinyproxy_rust.Model.Parameters.{ParameterDefinition, Parameters}
use shinyproxy_rust.Service.Parameters.{Access, ParameterValues}
use shinyproxy_rust.Base.Result.{ok}
use shinyproxy_rust.Service.Parameters.Validation.{validate_spec}
use shinyproxy_rust.Service.Parameters.Form.{
  Indexes, accessible, index_value_sets, no_choices, zeros, previous_indexes, previous_indexes,
  previously_used, first_default, default_indexes, has_combination, default_selection,
  allowed_parameters_for_user,
}
use shinyproxy_rust.Service.Parameters.Combined.{has_combination-mem}
use shinyproxy_rust.Service.Parameters.Offered.{Unambiguous, IsAccepted, offered-IsAccepted}
use mathlib.Core.List.{Memᴰ}

previously_used-mem :
    (ds : List ParameterDefinition) (allowed : List (List ℕ)) (indexes : Indexes)
    (previous : Option ParameterValues) {r : List ℕ}
    → previously_used ds allowed indexes previous ≡ some r
    → Memᴰ r allowed
unfolding previously_used
previously_used-mem ds allowed indexes none h = absurd cc
previously_used-mem ds allowed indexes (some values) {r} h =
    elim (Option-cases (previous_indexes indexes values ds)) [
      | inl e ↦ absurd cc
      | inr (found, e) ↦ elim (Bool-cases (has_combination allowed found)) [
        | inl e' ↦
            let same : r ≡ found = ground arith in rw same (has_combination-mem allowed found e')
        | inr e' ↦ absurd (ground arith)
      ]
    ]

default_selection-mem :
    (ds : List ParameterDefinition) (allowed : List (List ℕ)) (indexes : Indexes)
    (previous : Option ParameterValues)
    → (default_selection ds allowed indexes previous ≡ zeros ds)
      ⊎ Memᴰ (default_selection ds allowed indexes previous) allowed
unfolding default_selection
default_selection-mem ds allowed indexes previous =
    elim (Option-cases (previously_used ds allowed indexes previous)) [
      | inr (r, e) ↦
          inr (rw (default_selection, e) (previously_used-mem ds allowed indexes previous e))
      | inl unused ↦ elim (Option-cases (first_default ds)) [
        | inl e ↦ inl (rw (default_selection, unused, e) refl)
        | inr (value, e) ↦ elim (Option-cases (default_indexes indexes ds)) [
          | inl e' ↦ inl (rw (default_selection, unused, e, e') refl)
          | inr (r, e') ↦ elim (Bool-cases (has_combination allowed r)) [
            | inl e'' ↦
                inr (rw (default_selection, unused, e, e', e'') (has_combination-mem allowed r e''))
            | inr e'' ↦ inl (rw (default_selection, unused, e, e', e'') refl)
          ]
        ]
      ]
    ]

-- The selection that the form shows, from the app that the user ran before or from the defaults,
-- is none, or is accepted when its names are sent back; the configuration is valid and the values
-- can be told by what is shown for them.
pub default_value-IsAccepted :
    (q : Parameters) (previous : Option ParameterValues) (has_access : Access)
    → validate_spec (some q) ≡ ok tt
    → Unambiguous q
    → let form = allowed_parameters_for_user (some q) previous has_access in
      (form.default_value ≡ zeros q.definitions) ⊎ IsAccepted q has_access form form.default_value
unfolding allowed_parameters_for_user
default_value-IsAccepted q previous has_access valid clear =
    let form = allowed_parameters_for_user (some q) previous has_access in
    let sets = accessible has_access q.value_sets in
    let choices = index_value_sets q.definitions no_choices sets in
    elim (default_selection-mem q.definitions form.allowed_combinations choices.indexes previous) [
      | inl e ↦ inl e
      | inr m ↦ inr (offered-IsAccepted q previous has_access valid clear form.default_value m)
    ]
