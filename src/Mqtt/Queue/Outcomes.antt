-- ===== src/Mqtt/Queue/Outcomes.antt =====
-- What a caller of `enqueue` and `_enqueue_important` of mqtt_manager.py gets, result by result.
use connected_vehicle_health.Prelude.{◌+◌, ◌≤◌, ◌≡◌, ◌≢◌, true, false, [], ◌∷◌, ◌++◌, length}
use connected_vehicle_health.Config.{mqtt_queue_capacity, mqtt_response_topic}
use connected_vehicle_health.Mqtt.Queue.{
  Entry, Outbox, is_event, is_important, enqueue_important, enqueue_entry,
}
use connected_vehicle_health.Mqtt.Queue.Account.{accounted, enqueue-accounts}
use connected_vehicle_health.Mqtt.Queue.Important.{important, IsOrdered, IsAddressed}
use connected_vehicle_health.Mqtt.Queue.Fifo.{enqueue_important_lem}
use connected_vehicle_health.Mqtt.Queue.Latest.{latest, IsFresh, enqueue-latest}

-- A call of `enqueue` on a queue within its capacity leaves it within its capacity and no shorter,
-- and exactly one more message is queued, dropped or coalesced.
pub enqueue-counts :
    (new : Entry) (o : Outbox)
    → length o.queue ≤ mqtt_queue_capacity
    → (accounted (enqueue_entry new o).1 ≡ accounted o + 1)
      × (length o.queue ≤ length (enqueue_entry new o).1.queue)
      × (length (enqueue_entry new o).1.queue ≤ mqtt_queue_capacity)
enqueue-counts new o h = let (count, grows, fits) = enqueue-accounts new o in (count, grows, fits h)

module _ (new : Entry) (o : Outbox) where
  -- An event or a response that `_enqueue_important` accepts, on an ordered queue, comes to stand
  -- behind all the events and responses of the queue, none of which is taken; the queue stays
  -- ordered.
  pub enqueue_important-accepted :
      is_important new.kind ≡ true
      → IsAddressed new
      → IsOrdered o.queue
      → (enqueue_important new o).0 ≡ true
      → (important (enqueue_important new o).1.queue ≡ important o.queue ++ new ∷ [])
        × IsOrdered (enqueue_important new o).1.queue
  enqueue_important-accepted high a v ok =
      let (accepted, refused, ordered) = enqueue_important_lem new o high a v in
      (accepted ok, ordered)

  -- `_enqueue_important` refuses an event or a response, on an ordered queue, only if the queue is
  -- full and holds nothing but events and responses, and then leaves the queue as it is.
  pub enqueue_important-refused :
      is_important new.kind ≡ true
      → IsAddressed new
      → IsOrdered o.queue
      → (enqueue_important new o).0 ≡ false
      → ((enqueue_important new o).1.queue ≡ o.queue)
        × (important o.queue ≡ o.queue)
        × (mqtt_queue_capacity ≤ length o.queue)
  enqueue_important-refused high a v bad =
      let (accepted, refused, ordered) = enqueue_important_lem new o high a v in refused bad

  -- When `enqueue` accepts a message that is no event, on a queue with at most one value for each
  -- topic (that of the command responses aside), the queue then holds exactly one value for the
  -- message's topic, which is the message, and still at most one for each other topic.
  pub enqueue-latest_accepted :
      new.topic ≢ mqtt_response_topic
      → IsFresh o.queue
      → is_event new.kind ≡ false
      → (enqueue_entry new o).0 ≡ true
      → (latest new.topic (enqueue_entry new o).1.queue ≡ new ∷ [])
        × IsFresh (enqueue_entry new o).1.queue
  enqueue-latest_accepted nt v low ok =
      let (values, fresh) = enqueue-latest new o nt v in ((values low).0 ok, fresh)

  -- When `enqueue` refuses a message that is no event, on such a queue, the queue is unchanged.
  pub enqueue-latest_refused :
      new.topic ≢ mqtt_response_topic
      → IsFresh o.queue
      → is_event new.kind ≡ false
      → (enqueue_entry new o).0 ≡ false
      → (enqueue_entry new o).1.queue ≡ o.queue
  enqueue-latest_refused nt v low bad =
      let (values, fresh) = enqueue-latest new o nt v in (values low).1 bad
