-- ===== src/Mqtt/Service/Runs.antt =====
-- Every schedule of the publishing task and of the tasks that call `enqueue`, as a step relation.
use connected_vehicle_health.Prelude.{
  ℕ, ◌+◌, ◌≤◌, ◌≡◌, ◌≢◌, ◌⊎◌, String, Bool, true, Option, none, some, List, ◌∷◌, length,
}
use connected_vehicle_health.Config.{
  mqtt_queue_capacity, mqtt_response_topic, mqtt_reconnect_max_seconds,
}
use connected_vehicle_health.Json.{Value}
use connected_vehicle_health.Mqtt.Topic.{response}
use connected_vehicle_health.Mqtt.Queue.{Entry, is_important}
use connected_vehicle_health.Mqtt.Queue.Account.{accounted}
use connected_vehicle_health.Mqtt.Queue.Important.{IsOrdered}
use connected_vehicle_health.Mqtt.Service.{
  MqttManager, Publisher, Phase, ready, connecting, publishing, reading, start, loop_top,
  connect_done, publish_done, recover, arrive, Verdict, ignored, accepted, rejected, judge_event,
  read_done,
}

-- How many responses a verdict queues.
abbrev pub handed : {N : Type 0} → Verdict N → ℕ
handed ignored = 0
handed (accepted request_id) = 1
handed (rejected request_id error) = 1

module _ {N : Type 0} (parse : String → Value N ⊎ String)
    (dumps : MqttManager → Verdict N → String) where
  -- How many responses a wait for events queues.
  abbrev pub answers : Option (Option String × Option String) → ℕ
  answers none = 0
  answers (some (topic, payload)) = handed (judge_event parse topic payload)

  -- One step, with the number of messages that it hands to the queue.
  pub data Step : ℕ → Publisher → Publisher → Type 0 where
    arrives :
        (p : Publisher) (new : Entry)
        → new.kind ≢ response
        → new.topic ≢ mqtt_response_topic
        → Step 1 p (arrive new p)
    loops : (p : Publisher) (lte : Bool) → p.phase ≡ ready → Step 0 p (loop_top lte p)
    connects : (p : Publisher) → p.phase ≡ connecting → Step 0 p (connect_done p)
    publishes :
        (p p' : Publisher) (e : Entry)
        → p.phase ≡ publishing e
        → publish_done e p ≡ some p'
        → Step 0 p p'
    fails : (p : Publisher) (exc : String) → p.phase ≢ ready → Step 0 p (recover exc p)
    reads :
        (p : Publisher) (received : Option (Option String × Option String))
        → p.phase ≡ reading
        → Step (answers received) p (read_done parse dumps received p)

  -- The states that can be reached when `n` messages have been handed to the queue.
  pub data Reach : ℕ → Publisher → Type 0 where
    here : Reach 0 start
    next : {n k : ℕ} {p p' : Publisher} → Reach n p → Step k p p' → Reach (n + k) p'

-- The entry that is being published is still in the queue, at its head if it is an event or a
-- response.
abbrev pub HeadKept : Phase → List Entry → Type 0
HeadKept (publishing e) q =
    (1 ≤ length q)
    × (is_important e.kind ≡ true → (r : List Entry) × (q ≡ e ∷ r))
    × (e.kind ≡ response → e.topic ≡ mqtt_response_topic)
HeadKept _ q = Unit

pub record Inv (n : ℕ) (p : Publisher) : Type 0 where
  pub ordered : IsOrdered p.queue
  pub bounded : length p.queue ≤ mqtt_queue_capacity
  pub counted : accounted p.outbox + p.published ≡ n
  pub kept : HeadKept p.phase p.queue
  pub judged : p.commands_rejected ≤ p.commands_received
  pub backoff_low : 5 ≤ p.delay
  pub backoff_high : p.delay ≤ mqtt_reconnect_max_seconds
