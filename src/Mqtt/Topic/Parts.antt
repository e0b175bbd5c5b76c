-- ===== src/Mqtt/Topic/Parts.antt =====
-- The topic of a message, by `_topic` of mqtt_manager.py.
use Prim.Native.String.{◌++◌}
use connected_vehicle_health.Prelude.{◌≤◌, ◌<◌, ◌≡◌, refl, String, none, some, List, [], ◌∷◌}
use connected_vehicle_health.Config.{mqtt_topic_prefix}
use connected_vehicle_health.Json.{Value, Fields, str, get, get_or, py_str}
use connected_vehicle_health.Text.{strip, text_length}
use connected_vehicle_health.Mqtt.Topic.{message_kind, safe, topic}
use connected_vehicle_health.Mqtt.Topic.Safe.{
  AllValid, IsCleaned, suffix_of_kind, suffix-classify, safe_lem, safe-IsCleaned,
}

-- The value of the first of the keys that a message has.
abbrev pub first_of : {N : Type 0} → List String → Value N → Fields N → Value N
first_of [] default parsed = default
first_of (key ∷ keys) default parsed = elim (get key parsed) [
  | none ↦ first_of keys default parsed
  | some value ↦ value
]

module _ {N : Type 0} (render : Value N → String) where
  -- A part of a topic that stands for a value: its cleaned text, of 1 to 40 characters, all of them
  -- digits, small letters or dashes.
  abbrev pub IsPart : Value N → String → Type 0
  IsPart value part =
      IsCleaned (strip (py_str render value)) part
      × AllValid part
      × (0 < text_length part)
      × (text_length part ≤ 40)

  safe-IsPart : (value : Value N) → IsPart value (safe render value)
  safe-IsPart value =
      let (valid, some_left, short) = safe_lem render value in
      (safe-IsCleaned render value, valid, some_left, short)

  -- The topic is the prefix, three parts and the suffix of the message's kind, with a slash between
  -- each two. The parts are the area, or else the site, or else "process"; the device type, or else
  -- "device"; and the device id, or else the node id, or else "unknown". Of each the text stands
  -- there without white space around it and in small letters, with a dash for each character that
  -- is no digit, letter or dash, cut to 40 characters, or "unknown" if it is empty; so that no part
  -- is empty or has a slash or a wildcard.
  pub topic_lem :
      (parsed : Fields N)
      → (area : String) × (device_type : String) × (device_id : String) × (topic render parsed
          ≡ mqtt_topic_prefix
            ++ ("/"
                ++ (area
                    ++ ("/"
                        ++ (device_type
                            ++ ("/"
                                ++ (device_id
                                    ++ ("/" ++ suffix_of_kind (message_kind render parsed)))))))))
        × IsPart (first_of ("area" ∷ "site" ∷ []) (str "process") parsed) area
        × IsPart (first_of ("device_type" ∷ []) (str "device") parsed) device_type
        × IsPart (first_of ("device_id" ∷ "node_id" ∷ []) (str "unknown") parsed) device_id
  unfolding topic message_kind get_or
  topic_lem parsed =
      let a = get_or "area" (get_or "site" (str "process") parsed) parsed in
      let t = get_or "device_type" (str "device") parsed in
      let d = get_or "device_id" (get_or "node_id" (str "unknown") parsed) parsed in
      (
        safe render a,
        safe render t,
        safe render d,
        rw suffix-classify refl,
        safe-IsPart a,
        safe-IsPart t,
        safe-IsPart d,
      )
