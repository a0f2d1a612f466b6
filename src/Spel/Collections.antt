-- ===== src/Spel/Collections.antt =====
-- crates/spel/src/eval.rs: the methods of lists and maps.
use shinyproxy_rust.Base.{
  ℕ, suc, String, str_eq, Bool, true, false, Option, none, some, List, [], ◌∷◌, ◌==◌, if◌then◌else◌,
  is_some, unwrap_or,
}
use shinyproxy_rust.Base.Int.{pos, pos_part}
use shinyproxy_rust.Base.Result.{Result, ok, err, and_then}
use shinyproxy_rust.Spel.Conversions.{as_int, as_list}
use shinyproxy_rust.Spel.Values.{
  Value, Values, Fields, Platform, EvalError, null, bool, int, str, list, map_, no_values,
  value_then, no_fields, field_then, no_method, to_display_string,
}
use shinyproxy_rust.Spel.Methods.{
  equals, count_values, get_value, any_value, all_values, position, argument, index_or_missing,
  find_method,
}
use Prim.Native.String.{compare as compare_text}
use text.Mathlib.Text.{is_lt}

-- `BTreeMap::get` and `BTreeMap::insert`, which keeps the order of the keys.
unfoldable pub get_field : String → Fields → Option Value
get_field key no_fields = none
get_field key (field_then k v fs) = if str_eq k key then some v else get_field key fs

unfoldable pub insert_field : String → Value → Fields → Fields
insert_field key value no_fields = field_then key value no_fields
insert_field key value (field_then k v fs) =
    if str_eq k key
    then field_then key value fs
    else if is_lt (compare_text key k)
    then field_then key value (field_then k v fs)
    else field_then k v (insert_field key value fs)

unfoldable pub count_fields : Fields → ℕ
count_fields no_fields = 0
count_fields (field_then k v fs) = suc (count_fields fs)

unfoldable pub field_keys : Fields → Values
field_keys no_fields = no_values
field_keys (field_then k v fs) = value_then (str k) (field_keys fs)

unfoldable pub field_values : Fields → Values
field_values no_fields = no_values
field_values (field_then k v fs) = value_then v (field_values fs)

pub data ListMethod : Type 0 where
  size is_empty contains_item contains_all get_item index_of stream to_string : ListMethod

abbrev pub list_methods : List (String × ℕ × ListMethod)
list_methods =
    ("size", 0, ListMethod.size)
    ∷ ("length", 0, ListMethod.size)
    ∷ ("isEmpty", 0, ListMethod.is_empty)
    ∷ ("contains", 1, contains_item)
    ∷ ("containsAll", 1, contains_all)
    ∷ ("get", 1, get_item)
    ∷ ("indexOf", 1, index_of)
    ∷ ("stream", 0, stream)
    ∷ ("toString", 0, to_string)
    ∷ []

pub data MapMethod : Type 0 where
  size is_empty get_entry get_or_default contains_key contains_value : MapMethod
  key_set values_of : MapMethod

abbrev pub map_methods : List (String × ℕ × MapMethod)
map_methods =
    ("size", 0, MapMethod.size)
    ∷ ("isEmpty", 0, MapMethod.is_empty)
    ∷ ("get", 1, get_entry)
    ∷ ("getOrDefault", 2, get_or_default)
    ∷ ("containsKey", 1, contains_key)
    ∷ ("containsValue", 1, contains_value)
    ∷ ("keySet", 0, key_set)
    ∷ ("values", 0, values_of)
    ∷ []

abbrev pub no_items : Values → Bool
no_items no_values = true
no_items (value_then _ _) = false

module _ (p : Platform) where
  unfoldable pub list_method : ListMethod → Values → Value → Result Value EvalError
  unfolding count_values any_value all_values as_list equals get_value position as_int and_then
      to_display_string
  list_method ListMethod.size items a = ok (int (pos (count_values items)))
  list_method ListMethod.is_empty items a = ok (bool (no_items items))
  list_method contains_item items a = ok (bool (any_value (λ item. equals p item a) items))
  list_method contains_all items a =
      ok (
        bool
          (all_values (λ expected. any_value (λ item. equals p item expected) items) (as_list a)))
  list_method get_item items a =
      and_then (as_int p a) (λ index. ok (unwrap_or (get_value (pos_part index) items) null))
  list_method index_of items a = ok (index_or_missing (position (λ item. equals p item a) items))
  list_method stream items a = ok (list items)
  list_method to_string items a = ok (str (to_display_string p (list items)))

  unfoldable pub call_list_method : Values → String → Values → Result Value EvalError
  unfolding find_method count_values get_value list_method
  call_list_method items name arguments =
      elim (find_method name (count_values arguments) list_methods) [
        | none ↦ err (no_method (list items) name)
        | some method ↦ list_method method items (argument 0 arguments)
      ]

  unfoldable pub map_method : MapMethod → Fields → Value → Value → Result Value EvalError
  unfolding count_fields get_field field_keys field_values any_value equals to_display_string
  map_method MapMethod.size entries a b = ok (int (pos (count_fields entries)))
  map_method MapMethod.is_empty entries a b = ok (bool (count_fields entries == 0))
  map_method get_entry entries a b = ok (unwrap_or (get_field (to_display_string p a) entries) null)
  map_method get_or_default entries a b =
      ok (unwrap_or (get_field (to_display_string p a) entries) b)
  map_method contains_key entries a b =
      ok (bool (is_some (get_field (to_display_string p a) entries)))
  map_method contains_value entries a b =
      ok (bool (any_value (λ value. equals p value a) (field_values entries)))
  map_method key_set entries a b = ok (list (field_keys entries))
  map_method values_of entries a b = ok (list (field_values entries))

  unfoldable pub call_map_method : Fields → String → Values → Result Value EvalError
  unfolding find_method count_values get_value map_method
  call_map_method entries name arguments =
      elim (find_method name (count_values arguments) map_methods) [
        | none ↦ err (no_method (map_ entries) name)
        | some method ↦ map_method method entries (argument 0 arguments) (argument 1 arguments)
      ]
