-- ===== src/Mqtt/Service/Tests.antt =====
-- Runs of the publishing task of mqtt_manager.py, and the theorems at them.
use connected_vehicle_health.Prelude.{
  ℕ, ◌+◌, ◌≤◌, ◌≡◌, ◌⊎◌, inl, inr, refl, String, true, some, [], ◌∷◌, length, arith, eq_iff, str_eq,
  if◌then◌else◌,
}
use connected_vehicle_health.Config.{
  mqtt_queue_capacity, mqtt_response_topic, mqtt_command_topic, mqtt_reconnect_max_seconds,
}
use connected_vehicle_health.Json.{Value, str, obj, field, end}
use connected_vehicle_health.Mqtt.Topic.{event, fast}
use connected_vehicle_health.Mqtt.Queue.{
  Entry, empty, is_event, is_important, enqueue_priority, enqueue_entry,
}
use connected_vehicle_health.Mqtt.Queue.Account.{accounted}
use connected_vehicle_health.Mqtt.Queue.Important.{IsOrdered}
use connected_vehicle_health.Mqtt.Service.{
  MqttManager, Publisher, Phase, publishing, connecting, Verdict, init, start, loop_top,
  connect_done, publish_done, arrive, respond, judge_event,
}
use connected_vehicle_health.Mqtt.Service.Lost.{event_lost}
use connected_vehicle_health.Mqtt.Service.Runs.{arrives, loops, connects, Reach, here, next}
use connected_vehicle_health.Mqtt.Service.Reached.{Reach-accounts, Reach-publish}

abbrev hot : Entry
hot = record { topic = "v/event"; payload = "hot"; kind = event }

abbrev speed : String → Entry
speed payload = record { topic = "v/telemetry/fast"; payload = payload; kind = fast }

-- A parser that knows one request, and a printer.
abbrev parse : String → Value ℕ ⊎ String
parse s =
    if str_eq s "status"
    then inl (obj (field "command" (str "get_status") end))
    else inr "invalid JSON"

abbrev dumps : MqttManager → Verdict ℕ → String
dumps m v = "{}"

-- A request for the status is answered, and one that cannot be parsed is rejected.
requests_answered :
    ((respond dumps
        (judge_event parse (some mqtt_command_topic) (some "status"))
        init).commands_rejected
      ≡ 0)
    × (length
          ((respond dumps (judge_event parse (some mqtt_command_topic) (some "status")) init).queue)
        ≡ 1)
    × ((respond dumps
          (judge_event parse (some mqtt_command_topic) (some "{"))
          init).commands_rejected
        ≡ 1)
unfolding respond judge_event init enqueue_priority
requests_answered = (refl, refl, refl)

-- The task that publishes what is at the head of the queue.
abbrev busy : Entry → Publisher
busy e = record {
  mqtt = record init { outbox = record empty { queue = e ∷ [] }; connected = true };
  phase = publishing e;
  delay = 5;
}

event_lost_example :
    (p' : Publisher) × (publish_done (speed "60") (arrive hot (busy (speed "60"))) ≡ some p')
    × (p'.queue ≡ speed "60" ∷ [])
    × (p'.published ≡ (busy (speed "60")).published + 1)
unfolding is_event is_important
event_lost_example = event_lost (speed "60") hot [] (busy (speed "60")) refl refl (omega arith) refl

-- An event arrives at the start, and the task connects and begins to publish it.
abbrev publishing_hot : Publisher
publishing_hot = connect_done (loop_top true (arrive hot start))

connecting_then : (loop_top true (arrive hot start)).phase ≡ connecting
unfolding loop_top arrive start init
connecting_then = refl

publishing_then : publishing_hot.phase ≡ publishing hot
unfolding loop_top arrive start init connect_done enqueue_entry
publishing_then = refl

ready_then : (arrive hot start).phase ≡ Phase.ready
unfolding arrive start
ready_then = refl

publishing_hot-Reach : Reach parse dumps 1 publishing_hot
publishing_hot-Reach =
    next
      (next
        (next here (
          arrives start hot (λ h. absurd (ground (arith, h)))
            (ground (arith, eq_iff hot.topic mqtt_response_topic))))
        (loops (arrive hot start) true ready_then))
      (connects (loop_top true (arrive hot start)) connecting_then)

Reach-accounts_example :
    (accounted publishing_hot.outbox + publishing_hot.published ≡ 1)
    × (length publishing_hot.queue ≤ mqtt_queue_capacity)
    × IsOrdered publishing_hot.queue
    × (5 ≤ publishing_hot.delay)
    × (publishing_hot.delay ≤ mqtt_reconnect_max_seconds)
    × (publishing_hot.commands_rejected ≤ publishing_hot.commands_received)
Reach-accounts_example = Reach-accounts parse dumps publishing_hot-Reach

Reach-publish_example :
    (p' : Publisher) × (publish_done hot publishing_hot ≡ some p')
    × (publishing_hot.queue ≡ hot ∷ p'.queue)
unfolding is_important
Reach-publish_example = Reach-publish parse dumps hot publishing_hot-Reach publishing_then refl
