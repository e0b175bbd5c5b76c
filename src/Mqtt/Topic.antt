-- ===== src/Mqtt/Topic.antt =====
-- `_message_kind`, `_safe` and `_topic` of mqtt_manager.py.
pub mod Safe
pub mod Parts
mod Tests
use Prim.Native.Char.{Char, code}
use Prim.Native.String.{◌∷◌, [], ◌++◌}
use connected_vehicle_health.Prelude.{ℕ, String, Bool, ◌&&◌, ◌||◌, leb, ◌==◌, str_eq, if◌then◌else◌}
use connected_vehicle_health.Text.{lower, strip, take_text}
use connected_vehicle_health.Config.{mqtt_topic_prefix}
use connected_vehicle_health.Json.{Value, str, Fields, get_or, py_str}

-- The class of a queued message, a text in the source.
pub data Kind : Type 0 where
  event response diagnostic fast slow telemetry : Kind

-- The tests on the message type and the data class that `_message_kind` and `_topic` share.
unfoldable pub classify : String → String → Kind
classify message_type data_class =
    if str_eq message_type "event" || str_eq data_class "event"
    then event
    else if str_eq message_type "diagnostic" || str_eq data_class "diagnostic"
    then diagnostic
    else if str_eq data_class "fast"
    then fast
    else if str_eq data_class "slow"
    then slow
    else telemetry

-- The last part of a topic, by the tests of `_topic`.
unfoldable pub suffix : String → String → String
suffix message_type data_class =
    if str_eq message_type "event" || str_eq data_class "event"
    then "event"
    else if str_eq message_type "diagnostic" || str_eq data_class "diagnostic"
    then "diagnostic"
    else if str_eq data_class "fast"
    then "telemetry/fast"
    else if str_eq data_class "slow"
    then "telemetry/slow"
    else "telemetry"

-- The characters that `_safe` keeps: digits, small letters and the dash.
unfoldable pub is_valid : Char → Bool
is_valid c =
    leb 48 (code c) && leb (code c) 57 || leb 97 (code c) && leb (code c) 122 || code c == b'-'

-- The loop of `_safe`.
unfoldable pub replace_invalid : String → String
unfolding is_valid
replace_invalid [] = []
replace_invalid (c ∷ s) = (if is_valid c then c else "-") ∷ replace_invalid s

-- `text or "unknown"`
unfoldable pub or_unknown : String → String
or_unknown [] = "unknown"
or_unknown (c ∷ s) = c ∷ s

module _ {N : Type 0} (render : Value N → String) where
  unfoldable pub message_type_of : Fields N → String
  message_type_of parsed = lower (py_str render (get_or "message_type" (str "telemetry") parsed))

  unfoldable pub data_class_of : Fields N → String
  data_class_of parsed = lower (py_str render (get_or "data_class" (str "") parsed))

  -- `_message_kind`
  unfoldable pub message_kind : Fields N → Kind
  unfolding classify message_type_of data_class_of
  message_kind parsed = classify (message_type_of parsed) (data_class_of parsed)

  -- `_safe`
  unfoldable pub safe : Value N → String
  unfolding replace_invalid or_unknown
  safe value = or_unknown (take_text 40 (replace_invalid (lower (strip (py_str render value)))))

  -- `_topic`
  unfoldable pub topic : Fields N → String
  unfolding safe suffix message_type_of data_class_of
  topic parsed =
      let area = safe (get_or "area" (get_or "site" (str "process") parsed) parsed) in
      let device_type = safe (get_or "device_type" (str "device") parsed) in
      let device_id = safe (get_or "device_id" (get_or "node_id" (str "unknown") parsed) parsed) in
      mqtt_topic_prefix
      ++ ("/"
          ++ (area
              ++ ("/"
                  ++ (device_type
                      ++ ("/"
                          ++ (device_id
                              ++ ("/"
                                  ++ suffix (message_type_of parsed) (data_class_of parsed))))))))
