-- ===== src/Model/Labels/Texts.antt =====
-- crates/containerproxy/src/model/runtime_value.rs: the text of a runtime value reads back.
use shinyproxy_rust.Base.{
  String, ◌≡◌, refl, ap, inl, inr, Bool, true, false, Option, some, Option-cases,
}
use shinyproxy_rust.Base.Int.{InI64, ℤ}
use shinyproxy_rust.Base.Result.{ok}
use shinyproxy_rust.Model.RuntimeValues.{
  ValueKind, RuntimeValueKey, Json, print_int, RuntimeValueData, RuntimeValue, text_of,
  to_value_string, get_json, get_field, as_str_json,
}
use shinyproxy_rust.Model.Labels.{split_once, new_name, name_json, parse}
use shinyproxy_rust.Model.Labels.Numbers.{parse_int-print_int}
use shinyproxy_rust.Spel.Lexer.{characters}
use shinyproxy_rust.Spel.Conversions.{
  trim, trim_start, trim_end, is_white_space, eq_ignore_ascii_case, same_ignoring_case,
  ascii_lowercase,
}

-- A value that is of the kind of its key; a JSON document is one that is read back from its print.
pub data HasKind (print_json : Json → String) (read_json : String → Option Json)
    : ValueKind → RuntimeValueData → Type 0 where
  a_str : (s : String) → HasKind print_json read_json ValueKind.str (RuntimeValueData.str s)
  an_integer :
      (z : ℤ) → InI64 z → HasKind print_json read_json ValueKind.integer (RuntimeValueData.int z)
  a_bool : (b : Bool) → HasKind print_json read_json ValueKind.bool (RuntimeValueData.bool b)
  a_json :
      (j : Json)
      → read_json (print_json j) ≡ some j
      → HasKind print_json read_json ValueKind.json (RuntimeValueData.json j)
  a_name :
      (s : String)
      → HasKind print_json read_json ValueKind.backend_container_name
          (RuntimeValueData.json (name_json (new_name s)))

new_name-value : (s : String) → (new_name s).value ≡ s
unfolding new_name
new_name-value s = elim (Option-cases (split_once (characters s))) [
  | inl e ↦ rw (new_name, e) refl
  | inr (p, e) ↦ rw (new_name, e) refl
]

module _ (print_json : Json → String) (read_json : String → Option Json) where
  parse-an_integer :
      (k : RuntimeValueKey) (z : ℤ)
      → InI64 z
      → parse read_json (record k { kind = ValueKind.integer }) (print_int z)
        ≡ ok (RuntimeValueData.int z)
  unfolding parse
  parse-an_integer k z h = rw (parse, parse_int-print_int z h) refl

  pub parse-to_value_string :
      (v : RuntimeValue)
      → HasKind print_json read_json v.key.kind v.data_of
      → parse read_json v.key (to_value_string print_json v) ≡ ok v.data_of
  unfolding parse to_value_string text_of get_json get_field as_str_json eq_ignore_ascii_case trim
      trim_start trim_end characters is_white_space same_ignoring_case ascii_lowercase
  parse-to_value_string v h = go h
    where
      go :
          {kind : ValueKind} {value : RuntimeValueData}
          → HasKind print_json read_json kind value
          → parse read_json (record v.key { kind = kind }) (text_of print_json value kind)
            ≡ ok value
      go (a_str s) = refl
      go (an_integer z h) = parse-an_integer v.key z h
      go (a_bool true) = refl
      go (a_bool false) = refl
      go (a_json j e) = rw (parse, e) refl
      go (a_name s) =
          ap (λ t. parse read_json (record v.key { kind = ValueKind.backend_container_name }) t)
            (new_name-value s)
