-- ===== src/Api/Merge.antt =====
-- `_data` and `_merge` of lambda_function.py: one telemetry from the records, newest first.
pub mod Newest
use connected_vehicle_health.Prelude.{
  String, Bool, true, false, Option, none, some, List, [], ◌∷◌, ◌++◌, str_eq, if◌then◌else◌,
}
use connected_vehicle_health.Prelude.Assoc.{lookup}
use connected_vehicle_health.Json.{
  Value, Fields, str, obj, end, field, get, get_or, as_dict, py_str,
}

module _ {N : Type 0} where
  -- `_data`; `loads` is `json.loads` followed by `_native`, and `none` the error that it raises.
  unfoldable pub data_of : (String → Option (Value N)) → Option (Value N) → Fields N
  unfolding as_dict
  data_of loads (some (obj fields)) = fields
  data_of loads (some (str s)) = elim (loads s) [
    | none ↦ end
    | some parsed ↦ elim (as_dict parsed) [ none ↦ end | some fields ↦ fields ]
  ]
  data_of loads _ = end

  -- A new key at the end of a dict.
  unfoldable pub snoc : String → Value N → Fields N → Fields N
  snoc k v end = field k v end
  snoc k v (field j w fs) = field j w (snoc k v fs)

  -- The inner loop of `_merge`: only names that are not there yet.
  unfoldable pub absorb : Fields N → Fields N → Fields N
  unfolding get snoc
  absorb telemetry end = telemetry
  absorb telemetry (field name value fs) =
      absorb (elim (get name telemetry) [ none ↦ snoc name value telemetry | some _ ↦ telemetry ])
        fs

module _ {N : Type 0} (render : Value N → String) where
  unfoldable pub class_of : Fields N → String
  unfolding get_or py_str
  class_of record_fields = py_str render (get_or "data_class" (str "unknown") record_fields)

  -- `latest_by_class`, one record on.
  unfoldable pub note_class : List (String × Fields N) → Fields N → List (String × Fields N)
  unfolding class_of lookup
  note_class latest record_fields = elim (lookup (class_of record_fields) latest) [
    | none ↦ latest ++ (class_of record_fields, record_fields) ∷ []
    | some _ ↦ latest
  ]

module _ {N : Type 0} (render : Value N → String) (loads : String → Option (Value N)) where
  -- The outer loop of `_merge`, from what has been merged so far.
  unfoldable pub merge_from :
      Fields N → List (String × Fields N) → List (Fields N) → Fields N × List (String × Fields N)
  unfolding absorb note_class data_of
  merge_from telemetry latest [] = (telemetry, latest)
  merge_from telemetry latest (r ∷ rs) =
      merge_from (absorb telemetry (data_of loads (get "data" r))) (note_class render latest r) rs

  -- `_merge`
  unfoldable pub merge : List (Fields N) → Fields N × List (String × Fields N)
  unfolding merge_from
  merge = merge_from end []
