-- ===== src/Mqtt/Service/Lost.antt =====
-- Two messages that `start` of mqtt_manager.py pops without publishing them, because its
-- `queue.pop(0)` takes whatever is at the head when the publication of another message returns.
use connected_vehicle_health.Prelude.{
  ◌+◌, ◌<◌, ◌≡◌, refl, true, false, some, List, ◌∷◌, arith, length,
}
use connected_vehicle_health.Config.{mqtt_queue_capacity}
use connected_vehicle_health.Mqtt.Queue.{
  Entry, Outbox, is_event, is_important, insert_important, insert_index, insert_at,
  enqueue_important, enqueue_entry,
}
use connected_vehicle_health.Mqtt.Service.{Publisher, Phase, arrive, publish_done, pop_front}

insert_front :
    (e new : Entry) (q : List Entry)
    → is_important e.kind ≡ false
    → insert_important new (e ∷ q) ≡ new ∷ e ∷ q
unfolding insert_important insert_index insert_at
insert_front e new q low = ground arith

enqueue_front :
    (e new : Entry) (q : List Entry) (o : Outbox)
    → is_important e.kind ≡ false
    → is_event new.kind ≡ true
    → length o.queue < mqtt_queue_capacity
    → o.queue ≡ e ∷ q
    → (enqueue_entry new o).1.queue ≡ new ∷ e ∷ q
unfolding enqueue_entry enqueue_important
enqueue_front e new q o low ev room same = ground (arith, insert_front e new q low)

after_publish :
    (e x : Entry) (r : List Entry) (p : Publisher)
    → p.queue ≡ x ∷ r
    → (p' : Publisher) × (publish_done e p ≡ some p')
      × (p'.queue ≡ r)
      × (p'.published ≡ p.published + 1)
unfolding publish_done
after_publish e x r p at = (
  record p {
    mqtt = record p.mqtt {
      outbox = record p.outbox { queue = r };
      published = p.published + 1;
      last_topic = some e.topic;
    };
    phase = Phase.ready;
  },
  rw (at, pop_front) refl,
  refl,
  refl,
)

-- Whenever an event arrives, with room in the queue, while telemetry from the head of the queue is
-- being published, the queue afterwards is what it was before: the event is gone without having
-- been published, it is counted as published, and the telemetry is still at the head.
pub event_lost :
    (e new : Entry) (q : List Entry) (p : Publisher)
    → is_important e.kind ≡ false
    → is_event new.kind ≡ true
    → length p.queue < mqtt_queue_capacity
    → p.queue ≡ e ∷ q
    → (p' : Publisher) × (publish_done e (arrive new p) ≡ some p')
      × (p'.queue ≡ e ∷ q)
      × (p'.published ≡ p.published + 1)
unfolding arrive
event_lost e new q p low ev room same =
    after_publish e new (e ∷ q) (arrive new p) (enqueue_front e new q p.outbox low ev room same)
