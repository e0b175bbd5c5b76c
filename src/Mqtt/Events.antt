-- ===== src/Mqtt/Events.antt =====
-- The answers of the modem that mqtt_manager.py reads: `_parse_event`, `_event_value` and
-- `_require_result`. `int_of` is Python's `int` of a text, and `none` its ValueError.
pub mod Printed
mod Tests
use mathlib.Core.List
use connected_vehicle_health.Prelude.{
  ℕ, ◌+◌, ◌-◌, ◌*◌, String, Bool, true, false, Option, none, some, List, [], ◌∷◌, leb, ◌==◌,
  if◌then◌else◌,
}
use connected_vehicle_health.Prelude.Int.{ℤ, pos, negsuc}
use connected_vehicle_health.Text.{strip, take_text, text_length}
use connected_vehicle_health.Text.Search.{
  starts_with, from_marker, cut, after_last, split_on, without,
}

-- The length of `text[start:start + n]`, where the text has `total` characters: a negative end
-- counts from the end of the text.
unfoldable pub slice_length : ℕ → ℕ → ℤ → ℕ
slice_length start total (pos n) = n
slice_length start total (negsuc n) = if leb (n + 1) start then 0 else total - (n + 1)

-- Whether `int(fields[-1].strip()) == 0`, for what `int` gives.
unfoldable pub is_zero_int : Option ℤ → Bool
is_zero_int (some (pos n)) = n == 0
is_zero_int _ = false

-- The last part of `text.split(",")`.
unfoldable pub last_field : String → String
unfolding after_last
last_field text = elim (after_last "," text) [ none ↦ text | some field ↦ field ]

module _ (int_of : String → Option ℤ) where
  -- The value at the end of `line`, where `rest` is what follows the line in the text.
  unfoldable pub value_of : String → String → String → Option String
  unfolding after_last slice_length
  value_of text line rest = elim (after_last "," line) [
    | none ↦ none
    | some digits ↦ elim (int_of digits) [
      | none ↦ none
      | some length ↦ some (
          take_text (slice_length (text_length text - text_length rest) (text_length text) length)
            rest)
    ]
  ]

  -- `_event_value`
  unfoldable pub event_value : String → String → Option String
  unfolding value_of from_marker cut
  event_value text marker = elim (from_marker marker text) [
    | none ↦ none
    | some found ↦ elim (cut "\n" found) [
      | none ↦ none
      | some (line, rest) ↦ value_of text line rest
    ]
  ]

  -- `_parse_event`
  unfoldable pub parse_event : String → Option String × Option String
  unfolding event_value without
  parse_event event =
      let text = without "\r" event in
      (event_value text "+CMQTTRXTOPIC:", event_value text "+CMQTTRXPAYLOAD:")

  -- A line that starts with the prefix and ends in a zero.
  unfoldable pub is_success : String → String → Bool
  unfolding starts_with cut last_field is_zero_int
  is_success prefix line =
      if starts_with prefix line
      then (elim (cut ":" line) [
        | none ↦ false
        | some (name, fields) ↦ is_zero_int (int_of (strip (last_field fields)))
      ])
      else false

  -- The loop of `_require_result`.
  unfoldable pub some_success : String → List String → Bool
  unfolding is_success
  some_success prefix [] = false
  some_success prefix (line ∷ lines) =
      let rest = some_success prefix lines in if is_success prefix line then true else rest

  -- `_require_result`: whether it returns, and does not raise its OSError.
  unfoldable pub require_result : String → String → Bool
  unfolding some_success split_on without
  require_result response prefix = some_success prefix (split_on "\n" (without "\r" response))
