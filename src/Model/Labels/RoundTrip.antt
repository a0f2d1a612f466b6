-- ===== src/Model/Labels/RoundTrip.antt =====
-- crates/containerproxy/src/model/runtime_value.rs: the labels of a container give back the values
-- that are written as labels.
use shinyproxy_rust.Base.{
  String, str_eq, str_eq_iff, ◌≡◌, refl, sym, ap, subst, ◌∙◌, inl, inr, true, false, Option, none,
  some, List, [], ◌∷◌, ◌++◌, arith, if◌then◌else◌, Bool-cases, contains,
}
use shinyproxy_rust.Base.Dict.{
  insert_absent, AllAbsent, AllAbsent-snoc, AllAbsent-nil, Dict, lookup, insert, keys, values,
}
use shinyproxy_rust.Model.RuntimeValues.{
  new_values, Json, RuntimeValueKey, RuntimeValue, RuntimeValues, add, to_value_string,
}
use shinyproxy_rust.Model.Labels.{
  RuntimeValueRegistry, as_label, collect, labels, by_label, parse_each, has_required, parse_labels,
}
use shinyproxy_rust.Model.Labels.Texts.{HasKind, parse-to_value_string}
use mathlib.Core.Option.{some-injective}
use mathlib.Core.List.{append_assoc, append-nil}

-- The values are stored under their environment variables, are of the kinds of their keys, and the
-- registry has their keys.
abbrev pub IsStored :
    (Json → String) → (String → Option Json) → RuntimeValueRegistry → Dict RuntimeValue → Type 0
IsStored print_json read_json ks [] = Unit {0}
IsStored print_json read_json ks ((env_var, v) ∷ m) =
    (v.key.env_var ≡ env_var)
    × (contains (keys m) env_var ≡ false)
    × HasKind print_json read_json v.key.kind v.data_of
    × (by_label ks v.key.label ≡ some v.key)
    × IsStored print_json read_json ks m

-- The values that are written as labels.
unfoldable pub labelled : Dict RuntimeValue → Dict RuntimeValue
labelled [] = []
labelled ((env_var, v) ∷ m) = if as_label v.key then (env_var, v) ∷ labelled m else labelled m

labels_in : Dict RuntimeValue → List String
labels_in [] = []
labels_in ((env_var, v) ∷ m) = v.key.label ∷ labels_in m

entries : (Json → String) → Dict RuntimeValue → Dict String
entries print_json [] = []
entries print_json ((env_var, v) ∷ m) =
    if as_label v.key
    then (v.key.label, to_value_string print_json v) ∷ entries print_json m
    else entries print_json m

module _ (print_json : Json → String) (read_json : String → Option Json)
    (ks : RuntimeValueRegistry) where
  -- Another value has another label.
  fresh_label :
      (label : String) (k : RuntimeValueKey) (m : Dict RuntimeValue)
      → by_label ks label ≡ some k
      → contains (keys m) k.env_var ≡ false
      → IsStored print_json read_json ks m
      → contains (labels_in m) label ≡ false
  unfolding contains keys labels_in
  fresh_label label k [] found fresh stored = refl
  fresh_label label k ((env_var, v) ∷ m) found fresh (same, distinct, kind, known, stored) =
      let later = fresh_label label k m found (ground arith) stored in
      elim (Bool-cases (str_eq v.key.label label)) [
        | inr e ↦ ground arith
        | inl e ↦
            let known' =
              subst (λ l. by_label ks l ≡ some v.key) ((str_eq_iff v.key.label label).0 e) known in
            let one = some-injective k v.key (sym found ∙ known') in
            absurd (ground (arith, str_eq_iff env_var k.env_var, ap (λ x. x.env_var) one))
      ]

  entries-labelled :
      (env_var : String) (v : RuntimeValue) (m : Dict RuntimeValue)
      → as_label v.key ≡ true
      → entries print_json ((env_var, v) ∷ m)
        ≡ (v.key.label, to_value_string print_json v) ∷ entries print_json m
  unfolding entries
  entries-labelled env_var v m e = rw e refl

  entries-other :
      (env_var : String) (v : RuntimeValue) (m : Dict RuntimeValue)
      → as_label v.key ≡ false
      → entries print_json ((env_var, v) ∷ m) ≡ entries print_json m
  unfolding entries
  entries-other env_var v m e = rw e refl

  collect-entries :
      (done : Dict String) (m : Dict RuntimeValue)
      → IsStored print_json read_json ks m
      → AllAbsent done (labels_in m)
      → collect as_label (λ v. v.key.label) (to_value_string print_json) done (values m)
        ≡ done ++ entries print_json m
  unfolding collect values labels_in entries
  collect-entries done [] stored absent = sym (append-nil done)
  collect-entries done ((env_var, v) ∷ m) (same, distinct, kind, known, stored) absent =
      elim (Bool-cases (as_label v.key)) [
        | inr e ↦
            let text = to_value_string print_json v in
            let step : (if as_label v.key then insert v.key.label text done else done) ≡ done =
              rw e refl in
            ap (λ d. collect as_label (λ x. x.key.label) (to_value_string print_json) d (values m))
              step
            ∙ collect-entries done m stored absent.1
            ∙ ap (λ x. done ++ x) (sym (entries-other env_var v m e))
        | inl e ↦
            let text = to_value_string print_json v in
            let fresh =
              fresh_label v.key.label v.key m known
                (subst (λ n. contains (keys m) n ≡ false) (sym same) distinct) stored in
            let longer = done ++ (v.key.label, text) ∷ [] in
            let step : (if as_label v.key then insert v.key.label text done else done) ≡ longer =
              rw e (insert_absent v.key.label text done absent.0) in
            let later =
              collect-entries longer m stored
                (AllAbsent-snoc done v.key.label text (labels_in m) absent.1 fresh) in
            ap (λ d. collect as_label (λ x. x.key.label) (to_value_string print_json) d (values m))
              step
            ∙ later
            ∙ append_assoc done ((v.key.label, text) ∷ []) (entries print_json m)
            ∙ ap (λ x. done ++ x) (sym (entries-labelled env_var v m e))
      ]

  -- One round of the loop.
  parse_each-value :
      (done : Dict RuntimeValue) (env_var : String) (v : RuntimeValue) (rest : Dict String)
      → v.key.env_var ≡ env_var
      → HasKind print_json read_json v.key.kind v.data_of
      → by_label ks v.key.label ≡ some v.key
      → lookup env_var done ≡ none
      → parse_each read_json ks
          (record { values_of = done })
          ((v.key.label, to_value_string print_json v) ∷ rest)
        ≡ parse_each read_json ks (record { values_of = done ++ (env_var, v) ∷ [] }) rest
  unfolding add parse_each
  parse_each-value done env_var v rest same kind known absent =
      let value = parse-to_value_string print_json read_json v kind in
      rw (parse_each, known, value)
        (ap (λ d. parse_each read_json ks (record { values_of = d }) rest)
          (ap (λ k. insert k v done) same ∙ insert_absent env_var v done absent))

  parse_each-entries :
      (done m : Dict RuntimeValue)
      → IsStored print_json read_json ks m
      → AllAbsent done (keys m)
      → parse_each read_json ks (record { values_of = done }) (entries print_json m)
        ≡ some (record { values_of = done ++ labelled m })
  unfolding parse_each keys entries labelled add
  parse_each-entries done [] stored absent = rw (append-nil done) refl
  parse_each-entries done ((env_var, v) ∷ m) (same, distinct, kind, known, stored) absent =
      elim (Bool-cases (as_label v.key)) [
        | inr e ↦
            let stays : labelled ((env_var, v) ∷ m) ≡ labelled m = rw e refl in
            ap (parse_each read_json ks (record { values_of = done })) (entries-other env_var v m e)
            ∙ parse_each-entries done m stored absent.1
            ∙ ap (λ d. some (record { values_of = done ++ d })) (sym stays)
        | inl e ↦
            let later =
              parse_each-entries (done ++ (env_var, v) ∷ []) m stored
                (AllAbsent-snoc done env_var v (keys m) absent.1 distinct) in
            let stays : labelled ((env_var, v) ∷ m) ≡ (env_var, v) ∷ labelled m = rw e refl in
            ap (parse_each read_json ks (record { values_of = done }))
              (entries-labelled env_var v m e)
            ∙ parse_each-value done env_var v (entries print_json m) same kind known absent.0
            ∙ later
            ∙ ap (λ d. some (record { values_of = d }))
                (append_assoc done ((env_var, v) ∷ []) (labelled m)
                  ∙ ap (λ x. done ++ x) (sym stays))
      ]

  -- The labels that are written for runtime values are read back as exactly the values that are
  -- written as labels: texts, integers of 64 bits, Booleans, names of containers and JSON
  -- documents that are read back from their print; the values are stored under their environment
  -- variables, the registry has their keys, and none that it requires is missing.
  pub parse_labels-labels :
      (rs : RuntimeValues)
      → IsStored print_json read_json ks rs.values_of
      → has_required ks (record { values_of = labelled rs.values_of }) ≡ true
      → parse_labels read_json ks (labels print_json rs)
        ≡ some (record { values_of = labelled rs.values_of })
  unfolding labels parse_labels
  parse_labels-labels rs stored required =
      let written : labels print_json rs ≡ entries print_json rs.values_of =
        collect-entries [] rs.values_of stored (AllAbsent-nil String _) in
      let read : parse_each read_json ks new_values (entries print_json rs.values_of)
          ≡ some (record { values_of = labelled rs.values_of }) =
        parse_each-entries [] rs.values_of stored (AllAbsent-nil RuntimeValue _) in
      ap (parse_labels read_json ks) written ∙ rw (parse_labels, read, required) refl
