-- ===== src/Api/Event.antt =====
-- `_device_id`, `_route` and the reading of a query string, from an event of lambda_function.py.
use Prim.Native.Char.{code}
use Prim.Native.String.{◌∷◌, []}
use connected_vehicle_health.Prelude.{
  ℕ, min, max, String, Bool, true, false, not, Option, none, some, ◌==◌, str_eq, if◌then◌else◌,
}
use connected_vehicle_health.Prelude.Int.{ℤ, at_least_zero}
use connected_vehicle_health.Json.{
  Value, Fields, null, bool, num, str, arr, obj, nil, cons, end, field, get, get_or,
}

-- `text.rsplit("/", 1)[-1]`, where `whole` is what to give back without a "/".
unfoldable pub after_slash : String → String → String
after_slash whole [] = whole
after_slash whole (c ∷ s) = after_slash (if code c == code "/" then s else whole) s

unfoldable pub last_segment : String → String
unfolding after_slash
last_segment s = after_slash s s

module _ {N : Type 0} (is_zero : N → Bool) where
  unfoldable pub truthy : Value N → Bool
  truthy null = false
  truthy (bool b) = b
  truthy (num n) = not (is_zero n)
  truthy (str s) = not (str_eq s "")
  truthy (arr nil) = false
  truthy (arr (cons v vs)) = true
  truthy (obj end) = false
  truthy (obj (field k v fs)) = true

  -- `value or {}`, to be asked for keys; `none` is the error of a value that has no `get`.
  unfoldable pub dict_or_empty : Option (Value N) → Option (Fields N)
  unfolding truthy
  dict_or_empty none = some end
  dict_or_empty (some (obj fs)) = some fs
  dict_or_empty (some v) = if truthy v then none else some end

  -- `x or d` of `x = fields.get(name)`
  unfoldable pub get_or_else : String → Value N → Fields N → Value N
  unfolding truthy get
  get_or_else name d fs = elim (get name fs) [ none ↦ d | some v ↦ if truthy v then v else d ]

  -- `_device_id`, with the value of DEFAULT_DEVICE_ID.
  unfoldable pub device_id_of : String → Fields N → Option (Value N)
  unfolding dict_or_empty get get_or_else
  device_id_of default_id event = elim (dict_or_empty (get "pathParameters" event)) [
    | none ↦ none
    | some path ↦ some (get_or_else "device_id" (get_or_else "deviceId" (str default_id) path) path)
  ]

  -- `_route`
  unfoldable pub route_of : Fields N → Option (Value N × Value N)
  unfolding dict_or_empty get get_or
  route_of event = elim (dict_or_empty (get "requestContext" event)) [
    | none ↦ none
    | some context ↦ elim (dict_or_empty (get "http" context)) [
      | none ↦ none
      | some http ↦
          some
            (get_or "routeKey" (str "") event, get_or "path" (get_or "rawPath" (str "") event) http)
    ]
  ]

  -- `max(1, min(1440, int(query.get("minutes", "60"))))`, or 60; `int_of_value` is Python's `int`,
  -- and `none` its TypeError or ValueError.
  unfoldable pub minutes_of_query : (Value N → Option ℤ) → Fields N → ℕ
  unfolding get_or
  minutes_of_query int_of_value query = elim (int_of_value (get_or "minutes" (str "60") query)) [
    | none ↦ 60
    | some n ↦ max 1 (min 1440 (at_least_zero n))
  ]

module _ {N : Type 0} where
  -- A value that has the methods of a text.
  unfoldable pub as_text : Value N → Option String
  as_text (str s) = some s
  as_text _ = none
