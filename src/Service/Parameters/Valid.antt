-- ===== src/Service/Parameters/Valid.antt =====
-- crates/containerproxy/src/service/parameters.rs: what `validate_spec` promises of the parameters
-- it accepts.
use shinyproxy_rust.Base.{
  is_empty, ℕ, ◌+◌, ◌≤◌, String, str_eq, str_eq_iff, ◌≡◌, refl, sym, subst, ◌∙◌, ◌⊎◌, inl, inr,
  true, false, not, ◌&&◌, none, some, List, [], ◌∷◌, arith, ◌==◌, if◌then◌else◌, Bool-cases,
  Option-cases, is_some, unwrap_or, length, keep_if, length-keep_if-le, contains, AllDistinct,
}
use shinyproxy_rust.Base.Dict.{length-le_of_bound}
use shinyproxy_rust.Model.Parameters.{
  ParameterDefinition, ParameterValueSet, Parameters, definition_ids, ids, contains_parameter,
  values_of,
}
use shinyproxy_rust.Service.Parameters.Validation.{
  is_valid_parameter_id, validate_definitions, unique, validate_values, validate_value_sets, offers,
  validate_defaults, has_default, with_default, validate_parameters, validate_spec,
  validate_template,
}
use shinyproxy_rust.Base.Result.{and_then, ok, and_then-eq-ok, if-err-eq-ok, Result-cases}
use mathlib.Core.List.{Memᴰ}
use mathlib.Core.List.Memᴰ.{head, tail}

-- The parameters that have values are those that are defined.
abbrev pub HasParameters : List String → ParameterValueSet → Type 0
HasParameters is s =
    (i : String)
    → (contains_parameter s i ≡ contains is i)
      × (contains is i ≡ true → AllDistinct (values_of s i))

-- No parameter has a default value, or each has one that a value set offers.
abbrev pub HasDefaults : Parameters → Type 0
HasDefaults q =
    ((d : ParameterDefinition) → Memᴰ d q.definitions → d.default_value ≡ none)
    ⊎ ((d : ParameterDefinition)
        → Memᴰ d q.definitions
        → (value : String) × (d.default_value ≡ some value)
          × (offers q.value_sets d.id value ≡ true))

abbrev pub IsValid : Parameters → Type 0
IsValid q =
    AllDistinct (ids q)
    × ((d : ParameterDefinition) → Memᴰ d q.definitions → is_valid_parameter_id d.id ≡ true)
    × ((s : ParameterValueSet) → Memᴰ s q.value_sets → HasParameters (ids q) s)
    × HasDefaults q

validate_definitions-ok :
    (seen : List String) (ds : List ParameterDefinition)
    → validate_definitions seen ds ≡ ok tt
    → AllDistinct (definition_ids ds)
      × ((k : String) → contains (definition_ids ds) k ≡ true → contains seen k ≡ false)
      × ((d : ParameterDefinition) → Memᴰ d ds → is_valid_parameter_id d.id ≡ true)
unfolding validate_definitions contains
validate_definitions-ok seen [] h = (tt, (λ k e. absurd cc), λ d m. elim m [ ])
validate_definitions-ok seen (d ∷ ds) h =
    let (distinct, fresh, valid) = validate_definitions-ok (d.id ∷ seen) ds (ground arith) in
    (
      (ground (arith, fresh d.id, str_eq_iff d.id d.id), distinct),
      (λ k e. ground (arith, fresh k, str_eq_iff d.id k)),
      λ e m. valid_cons (ground arith) valid e m,
    )
  where
    valid_cons :
        is_valid_parameter_id d.id ≡ true
        → ((e : ParameterDefinition) → Memᴰ e ds → is_valid_parameter_id e.id ≡ true)
        → (e : ParameterDefinition) → Memᴰ e (d ∷ ds)
        → is_valid_parameter_id e.id ≡ true
    valid_cons here later e (head q) = rw q here
    valid_cons here later e (tail m) = later e m

contains-unique : (xs : List String) (a : String) → contains (unique xs) a ≡ contains xs a
unfolding contains unique
contains-unique [] a = refl
contains-unique (x ∷ xs) a =
    ground (arith, contains-unique xs a, contains-unique xs x, str_eq_iff x a)

length-unique-le : (xs : List String) → length (unique xs) ≤ length xs
unfolding unique
length-unique-le [] = omega arith
length-unique-le (x ∷ xs) = ground (arith, length-unique-le xs)

unique-AllDistinct : (xs : List String) → length xs ≡ length (unique xs) → AllDistinct xs
unfolding unique
unique-AllDistinct [] h = tt
unique-AllDistinct (x ∷ xs) h =
    ground (arith, unique-AllDistinct xs, length-unique-le xs, contains-unique xs x)

validate_values-ok :
    (index : ℕ) (s : ParameterValueSet) (is : List String)
    → validate_values index s is ≡ ok tt
    → (i : String) → contains is i ≡ true
    → (contains_parameter s i ≡ true) × AllDistinct (values_of s i)
unfolding validate_values contains
validate_values-ok index s [] h i e = absurd cc
validate_values-ok index s (j ∷ is) h i e = elim (Bool-cases (str_eq j i)) [
  | inl same ↦
      rw (sym ((str_eq_iff j i).0 same))
        (ground arith, unique-AllDistinct (values_of s j) (ground arith))
  | inr differ ↦ validate_values-ok index s is (ground arith) i (ground arith)
]

-- Distinct parameters that have values are all that have values, if there are as many of them.
no_others :
    (is : List String) (s : ParameterValueSet)
    → AllDistinct is
    → length s.values ≡ length is
    → ((i : String) → contains is i ≡ true → contains_parameter s i ≡ true)
    → (k : String) → contains is k ≡ false
    → contains_parameter s k ≡ false
unfolding contains_parameter contains
no_others is s distinct same bound k absent = elim (Bool-cases (contains_parameter s k)) [
  | inr e ↦ e
  | inl e ↦ absurd (
      omega (
        arith,
        length-le_of_bound (k ∷ is) s.values (absent, distinct)
            (λ j m. ground (arith, bound j, str_eq_iff k j)),
      ))
]

HasParameters_lem :
    (is : List String) (s : ParameterValueSet) (index : ℕ)
    → AllDistinct is
    → validate_values index s is ≡ ok tt
    → length s.values ≡ length is
    → HasParameters is s
HasParameters_lem is s index distinct h same i = (
  elim (Bool-cases (contains is i)) [
    | inl e ↦ (validate_values-ok index s is h i e).0 ∙ sym e
    | inr e ↦
        no_others is s distinct same (λ j e'. (validate_values-ok index s is h j e').0) i e ∙ sym e
  ],
  λ e. (validate_values-ok index s is h i e).1,
)

validate_value_sets-ok :
    (index : ℕ) (is : List String) (sets : List ParameterValueSet)
    → AllDistinct is
    → validate_value_sets index is sets ≡ ok tt
    → (s : ParameterValueSet) → Memᴰ s sets
    → HasParameters is s
unfolding validate_value_sets and_then
validate_value_sets-ok index is [] distinct h s m = elim m [ ]
validate_value_sets-ok index is (t ∷ sets) distinct h s (head q) =
    elim (Result-cases (validate_values index t is)) [
      | inl (u, e) ↦
          subst (HasParameters is) (sym q) (HasParameters_lem is t index distinct e (ground arith))
      | inr (u, e) ↦ absurd cc
    ]
validate_value_sets-ok index is (t ∷ sets) distinct h s (tail m) =
    elim (Result-cases (validate_values index t is)) [
      | inl (u, e) ↦ validate_value_sets-ok (index + 1) is sets distinct (ground arith) s m
      | inr (u, e) ↦ absurd cc
    ]

with_default-zero :
    (ds : List ParameterDefinition) {d : ParameterDefinition}
    → with_default ds ≡ 0
    → Memᴰ d ds
    → d.default_value ≡ none
unfolding with_default keep_if
with_default-zero [] h m = elim m [ ]
with_default-zero (d ∷ ds) h (head q) = rw q (ground arith)
with_default-zero (d ∷ ds) h (tail m) = with_default-zero ds (ground arith) m

with_default-all :
    (ds : List ParameterDefinition) {d : ParameterDefinition}
    → with_default ds ≡ length ds
    → Memᴰ d ds
    → is_some d.default_value ≡ true
unfolding with_default keep_if
with_default-all [] h m = elim m [ ]
with_default-all (d ∷ ds) h (head q) =
    rw q
      (ground (arith, length-keep_if-le (λ (d : ParameterDefinition). is_some d.default_value) ds))
with_default-all (d ∷ ds) h (tail m) =
    with_default-all ds
      (ground (arith, length-keep_if-le (λ (d : ParameterDefinition). is_some d.default_value) ds))
      m

validate_defaults-ok :
    (sets : List ParameterValueSet) (ds : List ParameterDefinition) {d : ParameterDefinition}
    → validate_defaults sets ds ≡ ok tt
    → Memᴰ d ds
    → offers sets d.id (unwrap_or d.default_value "") ≡ true
unfolding validate_defaults
validate_defaults-ok sets [] h m = elim m [ ]
validate_defaults-ok sets (d ∷ ds) h (head q) = rw q (ground arith)
validate_defaults-ok sets (d ∷ ds) h (tail m) = validate_defaults-ok sets ds (ground arith) m

has_default-all :
    (ds : List ParameterDefinition) {d : ParameterDefinition}
    → with_default ds ≡ length ds
    → Memᴰ d ds
    → has_default ds ≡ true
has_default-all [] h m = elim m [ ]
has_default-all (d ∷ ds) h m = with_default-all (d ∷ ds) h (head refl)

HasDefaults_lem :
    (q : Parameters)
    → (with_default q.definitions ≡ 0) ⊎ (with_default q.definitions ≡ length q.definitions)
    → (if has_default q.definitions then validate_defaults q.value_sets q.definitions else ok tt)
      ≡ ok tt
    → HasDefaults q
HasDefaults_lem q (inl e) h = inl (λ d m. with_default-zero q.definitions e m)
HasDefaults_lem q (inr e) h = inr (λ d m.
    let checked = rw (has_default-all q.definitions e m) at h in
    let offered = validate_defaults-ok q.value_sets q.definitions checked m in
    elim (Option-cases d.default_value) [
      | inl e' ↦ absurd (ground (arith, with_default-all q.definitions e m))
      | inr (value, e') ↦ (value, e', rw e' at offered)
    ])

-- Parameters that `validate_spec` accepts have distinct valid ids; each value set has values for
-- exactly these parameters, each value once; and either no parameter has a default, or each has
-- one that a value set offers.
pub validate_spec-ok : (q : Parameters) → validate_spec (some q) ≡ ok tt → IsValid q
unfolding validate_spec validate_parameters
validate_spec-ok q h =
    let n = with_default q.definitions in
    let (a, h1) = if-err-eq-ok (is_empty q.definitions) _ h in
    let (b, h2) = if-err-eq-ok (is_empty q.value_sets) _ h1 in
    let (u, defined, h3) = and_then-eq-ok (validate_definitions [] q.definitions) _ h2 in
    let (counted, h4) = if-err-eq-ok (not (n == 0) && not (n == length q.definitions)) _ h3 in
    let (v, sets, h5) = and_then-eq-ok (validate_value_sets 0 (ids q) q.value_sets) _ h4 in
    let (w, defaults, h6) = and_then-eq-ok _ (λ _. validate_template q.template) h5 in
    let (distinct, fresh, valid) = validate_definitions-ok [] q.definitions defined in
    (
      distinct,
      valid,
      validate_value_sets-ok 0 (ids q) q.value_sets distinct sets,
      HasDefaults_lem q (ground arith) defaults,
    )
