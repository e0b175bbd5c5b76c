-- ===== src/Mqtt/Topic/Tests.antt =====
-- A topic of mqtt_manager.py, and the theorems at it.
use Prim.Native.String.{◌++◌}
use connected_vehicle_health.Prelude.{◌≡◌, refl, String}
use connected_vehicle_health.Config.{mqtt_topic_prefix}
use connected_vehicle_health.Json.{Value, Fields, str, end, field, py_str, get, get_or}
use connected_vehicle_health.Text.{take_text, lower, strip}
use connected_vehicle_health.Mqtt.Topic.{message_kind, topic}
use connected_vehicle_health.Mqtt.Topic.Safe.{suffix_of_kind}
use connected_vehicle_health.Mqtt.Topic.Parts.{IsPart, topic_lem}

abbrev render : Value Unit → String
render _ = "None"

-- A device id that tries to leave its level of the topic.
abbrev message : Fields Unit
message = field "device_id" (str "../Car#1") (field "data_class" (str "FAST") end)

topic_of_message :
    topic render message ≡ "dt/iiot-lab/factory1/process/device/---car-1/telemetry/fast"
unfolding topic take_text lower strip py_str get_or
topic_of_message = refl

topic_lem_example :
    (area : String) × (device_type : String) × (device_id : String) × (topic render message
      ≡ mqtt_topic_prefix
        ++ ("/"
            ++ (area
                ++ ("/"
                    ++ (device_type
                        ++ ("/"
                            ++ (device_id
                                ++ ("/" ++ suffix_of_kind (message_kind render message)))))))))
    × IsPart render (str "process") area
    × IsPart render (str "device") device_type
    × IsPart render (str "../Car#1") device_id
unfolding get
topic_lem_example = topic_lem render message
