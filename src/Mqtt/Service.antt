-- ===== src/Mqtt/Service.antt =====
-- `MQTTManager.start` of mqtt_manager.py: the publishing task, cut at its awaits. While it waits
-- for the modem, the other tasks of the event loop run and may call `enqueue`.
pub mod Race
pub mod Lost
pub mod Runs
pub mod Invariant
pub mod Reached
mod Tests
use connected_vehicle_health.Prelude.{
  ℕ, ◌+◌, ◌*◌, min, String, Bool, true, false, not, ◌||◌, Option, none, some, List, [], ◌∷◌, str_eq,
  if◌then◌else◌, ◌⊎◌, inl, inr,
}
use connected_vehicle_health.Config.{
  mqtt_command_topic, mqtt_response_topic, mqtt_reconnect_max_seconds,
}
use connected_vehicle_health.Json.{Value, Fields, str, null, get, as_dict}
use connected_vehicle_health.Mqtt.Queue.{Entry, Outbox, empty, enqueue_entry, enqueue_priority}

-- The fields of a `MQTTManager`; `outbox` holds those that its queue methods change.
pub record MqttManager : Type 0 where
  pub outbox : Outbox
  pub open outbox use *
  pub connected : Bool
  pub state : String
  pub published : ℕ
  pub failed : ℕ
  pub last_error : Option String
  pub last_topic : Option String
  pub commands_received : ℕ
  pub commands_rejected : ℕ

unfoldable pub init : MqttManager
init = record {
  outbox = empty;
  connected = false;
  state = "STARTING";
  published = 0;
  failed = 0;
  last_error = none;
  last_topic = none;
  commands_received = 0;
  commands_rejected = 0;
}

-- Where the task waits: at the top of its loop (or in one of its sleeps there), in `_connect`, in
-- `_publish` for the entry that it read at the head of the queue, or in `read_mqtt_event`.
pub data Phase : Type 0 where
  ready : Phase
  connecting : Phase
  publishing : Entry → Phase
  reading : Phase

-- The task: the manager, the point that it has reached, and its local variable `delay`.
pub record Publisher : Type 0 where
  pub mqtt : MqttManager
  pub open mqtt use *
  pub phase : Phase
  pub delay : ℕ

unfoldable pub start : Publisher
unfolding init
start = record { mqtt = init; phase = ready; delay = 5 }

-- The branch on `self.queue`.
unfoldable pub next_phase : List Entry → Phase
next_phase [] = reading
next_phase (e ∷ q) = publishing e

-- One pass of the loop up to its first await; `lte` is `modem.responding and modem.data_active`.
unfoldable pub loop_top : Bool → Publisher → Publisher
unfolding next_phase
loop_top lte p =
    if not lte
    then record p { mqtt = record p.mqtt { state = "WAITING FOR LTE" }; phase = ready }
    else if not p.connected
    then record p { mqtt = record p.mqtt { state = "PROVISIONING" }; phase = connecting }
    else record p { phase = next_phase p.queue }

-- `_connect` returns: its last assignments, the reset of `delay`, and the branch on the queue.
unfoldable pub connect_done : Publisher → Publisher
unfolding next_phase
connect_done p = record p {
  mqtt = record p.mqtt { connected = true; state = "CONNECTED"; last_error = none };
  phase = next_phase p.queue;
  delay = 5;
}

-- `self.queue.pop(0)`
unfoldable pub pop_front : List Entry → Option (List Entry)
pop_front [] = none
pop_front (e ∷ q) = some q

-- `_publish` returns; `none` is the IndexError of `pop(0)` on an empty queue.
unfoldable pub publish_done : Entry → Publisher → Option Publisher
unfolding pop_front
publish_done e p = elim (pop_front p.queue) [
  | none ↦ none
  | some q ↦ some (record p {
    mqtt = record p.mqtt {
      outbox = record p.outbox { queue = q };
      published = p.published + 1;
      last_topic = some e.topic;
    };
    phase = ready;
  })
]

-- The `except` clause, with its clean-up and its sleep.
unfoldable pub recover : String → Publisher → Publisher
recover exc p = record p {
  mqtt = record p.mqtt {
    connected = false;
    state = "RECONNECTING";
    failed = p.failed + 1;
    last_error = some exc;
  };
  phase = ready;
  delay = min (p.delay * 2) mqtt_reconnect_max_seconds;
}

-- Another task calls `enqueue`.
unfoldable pub arrive : Entry → Publisher → Publisher
arrive new p = record p { mqtt = record p.mqtt { outbox = (enqueue_entry new p.outbox).1 } }

-- What `_handle_event` decides about a request: the answer's status, and whether it was rejected.
pub data Verdict (N : Type 0) : Type 0 where
  ignored : Verdict N
  accepted : Value N → Verdict N
  rejected : Value N → String → Verdict N

module _ {N : Type 0} where
  -- A field of the request, `None` if it is missing.
  unfoldable pub request_field : String → Fields N → Value N
  unfolding get
  request_field k fields = elim (get k fields) [ none ↦ null | some v ↦ v ]

  -- `command == "get_status"`
  unfoldable pub is_get_status : Value N → Bool
  is_get_status (str s) = str_eq s "get_status"
  is_get_status v = false

  -- The `try` of `_handle_event` on a parsed payload.
  unfoldable pub judge_request : Value N → Verdict N
  unfolding as_dict request_field is_get_status
  judge_request request = elim (as_dict request) [
    | none ↦ rejected null "command must be an object"
    | some fields ↦
        if is_get_status (request_field "command" fields)
        then accepted (request_field "request_id" fields)
        else rejected (request_field "request_id" fields) "command not allowed"
  ]

  -- The same, where `parse` gives the parsed payload or the text of the error it raised.
  unfoldable pub judge_payload : (String → Value N ⊎ String) → String → Verdict N
  unfolding judge_request
  judge_payload parse payload = elim (parse payload) [
    | inl request ↦ judge_request request
    | inr exc ↦ rejected null exc
  ]

  -- `_handle_event` on the topic and payload of `_parse_event`.
  unfoldable pub judge_event :
      (String → Value N ⊎ String) → Option String → Option String → Verdict N
  unfolding judge_payload
  judge_event parse none payload = ignored
  judge_event parse (some topic) none = ignored
  judge_event parse (some topic) (some payload) =
      if str_eq topic mqtt_command_topic then judge_payload parse payload else ignored

  -- The counters and the response that goes into the queue; `dumps` is the text of the response,
  -- which also shows the counters of the manager.
  unfoldable pub respond :
      (MqttManager → Verdict N → String) → Verdict N → MqttManager → MqttManager
  respond dumps ignored m = m
  respond dumps (accepted request_id) m = record m {
    outbox = (enqueue_priority mqtt_response_topic (dumps m (accepted request_id)) m.outbox).1;
    commands_received = m.commands_received + 1;
  }
  respond dumps (rejected request_id error) m = record m {
    outbox =
        (enqueue_priority mqtt_response_topic (dumps m (rejected request_id error)) m.outbox).1;
    commands_received = m.commands_received + 1;
    commands_rejected = m.commands_rejected + 1;
  }

  -- `read_mqtt_event` returns: `none` for no event, or the topic and payload of one.
  unfoldable pub read_done :
      (String → Value N ⊎ String)
      → (MqttManager → Verdict N → String)
      → Option (Option String × Option String)
      → Publisher
      → Publisher
  unfolding judge_event respond
  read_done parse dumps none p = record p { phase = ready }
  read_done parse dumps (some (topic, payload)) p = record p {
    mqtt = respond dumps (judge_event parse topic payload) p.mqtt;
    phase = ready;
  }
