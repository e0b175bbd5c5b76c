-- ===== src/Mqtt/Queue/Fifo.antt =====
-- The queue methods of mqtt_manager.py as seen by events and responses: first in, first out, and
-- refused only when nothing else is left to give up.
use connected_vehicle_health.Prelude.{
  ◌≤◌, ◌≡◌, ◌≢◌, refl, ap, ◌∙◌, true, false, ◌&&◌, none, List, [], ◌∷◌, ◌++◌, arith, length, leb,
  All, Option-cases, Bool-cases, inl, inr, if◌then◌else◌,
}
use connected_vehicle_health.Config.{mqtt_queue_capacity, mqtt_response_topic}
use connected_vehicle_health.Mqtt.Topic.{Kind, response, diagnostic, fast, slow, telemetry}
use connected_vehicle_health.Mqtt.Queue.{
  Entry, Outbox, is_event, is_important, same_kind, coalesce, first_found, lowest_priority_index,
  pop_at, enqueue_important, append_telemetry, enqueue_entry,
}
use connected_vehicle_health.Mqtt.Queue.Important.{
  important, NoneImportant, IsOrdered, IsAddressed, important-coalesce, IsOrdered-coalesce,
  evict-important, last_index-none, important-insert, IsOrdered-insert,
}

All-important :
    (q : List Entry)
    → All (λ e. same_kind e.kind diagnostic ≡ false) q
    → All (λ e. same_kind e.kind fast ≡ false) q
    → All (λ e. same_kind e.kind slow ≡ false) q
    → All (λ e. same_kind e.kind telemetry ≡ false) q
    → important q ≡ q
unfolding important is_important same_kind
All-important [] d f s t = refl
All-important (e ∷ q) d f s t = ground (arith, All-important q d.1 f.1 s.1 t.1)

none_left : (q : List Entry) → lowest_priority_index q ≡ none → important q ≡ q
unfolding lowest_priority_index first_found
none_left q h =
    All-important q (last_index-none diagnostic q (ground arith))
      (last_index-none fast q (ground arith)) (last_index-none slow q (ground arith))
      (last_index-none telemetry q (ground arith))

-- `_enqueue_important` on an ordered queue puts an event or a response behind the others and takes
-- none of them. It refuses one only if the queue is full of events and responses, and then leaves
-- the queue as it is. The queue stays ordered.
pub enqueue_important_lem :
    (new : Entry) (o : Outbox)
    → is_important new.kind ≡ true
    → IsAddressed new
    → IsOrdered o.queue
    → ((enqueue_important new o).0 ≡ true
        → important (enqueue_important new o).1.queue ≡ important o.queue ++ new ∷ [])
      × ((enqueue_important new o).0 ≡ false
          → ((enqueue_important new o).1.queue ≡ o.queue)
            × (important o.queue ≡ o.queue)
            × (mqtt_queue_capacity ≤ length o.queue))
      × IsOrdered (enqueue_important new o).1.queue
unfolding enqueue_important
enqueue_important_lem new o high a v =
    elim (Bool-cases (leb mqtt_queue_capacity (length o.queue))) [
      | inr room ↦ rw room (
        λ _. important-insert new high o.queue v,
        λ h. absurd (cc),
        IsOrdered-insert new high a o.queue v,
      )
      | inl full ↦ elim (Option-cases (lowest_priority_index o.queue)) [
        | inl p ↦ rw (full, p) (λ h. absurd (cc), λ _. (refl, none_left o.queue p, ground arith), v)
        | inr (i, p) ↦
            let (same, v') = evict-important o.queue i p v in
            rw (full, p)
              (
                λ _. important-insert new high (pop_at i o.queue) v' ∙ ap (λ q. q ++ new ∷ []) same,
                λ h. absurd (cc),
                IsOrdered-insert new high a (pop_at i o.queue) v',
              )
      ]
    ]

important-snoc :
    (new : Entry) (q : List Entry)
    → is_important new.kind ≡ false
    → important (q ++ new ∷ []) ≡ important q
unfolding important
important-snoc new [] h = ground arith
important-snoc new (e ∷ q) h = ground (arith, important-snoc new q h)

low-snoc :
    (new : Entry) (q : List Entry)
    → is_important new.kind ≡ false
    → NoneImportant q
    → NoneImportant (q ++ new ∷ [])
low-snoc new [] h n = (h, tt)
low-snoc new (e ∷ q) h n = (n.0, low-snoc new q h n.1)

IsOrdered-snoc :
    (new : Entry) (q : List Entry)
    → is_important new.kind ≡ false
    → new.kind ≢ response
    → IsOrdered q
    → IsOrdered (q ++ new ∷ [])
IsOrdered-snoc new [] h nr v = (λ _. tt, λ k. absurd (nr k), tt)
IsOrdered-snoc new (e ∷ q) h nr v =
    (λ l. low-snoc new q h (v.0 l), v.1, IsOrdered-snoc new q h nr v.2)

-- A message that is no event changes none of the events and responses that are queued.
append-important :
    (new : Entry) (o : Outbox)
    → is_important new.kind ≡ false
    → new.kind ≢ response
    → IsOrdered o.queue
    → (important (append_telemetry new o).1.queue ≡ important o.queue)
      × IsOrdered (append_telemetry new o).1.queue
unfolding append_telemetry
append-important new o low nr v = elim (Bool-cases (leb mqtt_queue_capacity (length o.queue))) [
  | inl full ↦ rw full (refl, v)
  | inr room ↦ rw room (important-snoc new o.queue low, IsOrdered-snoc new o.queue low nr v)
]

low_of_not_event : (k : Kind) → is_event k ≡ false → k ≢ response → is_important k ≡ false
unfolding is_event is_important
low_of_not_event k h nr = ground arith

high_of_event : (k : Kind) → is_event k ≡ true → is_important k ≡ true
unfolding is_event is_important
high_of_event k h = ground arith

enqueue_event_lem :
    (new : Entry) (o : Outbox)
    → is_important new.kind ≡ true
    → IsAddressed new
    → IsOrdered o.queue
    → (important (enqueue_important new o).1.queue ≡ (
        if (enqueue_important new o).0 then important o.queue ++ new ∷ [] else important o.queue))
      × IsOrdered (enqueue_important new o).1.queue
enqueue_event_lem new o high a v =
    let (accepted, refused, v') = enqueue_important_lem new o high a v in
    elim (Bool-cases (enqueue_important new o).0) [
      | inl t ↦ (rw t (accepted t), v')
      | inr f ↦ (rw f (ap important (refused f).0), v')
    ]

-- On an ordered queue `enqueue` adds an event that it accepts behind the other events and
-- responses, and nothing else ever changes them: no telemetry, and no event that is refused. The
-- queue stays ordered. This is for messages that `enqueue` builds: no responses, and never with
-- the response topic.
pub enqueue-important :
    (new : Entry) (o : Outbox)
    → new.kind ≢ response
    → new.topic ≢ mqtt_response_topic
    → IsOrdered o.queue
    → (important (enqueue_entry new o).1.queue ≡ (
        if is_event new.kind && (enqueue_entry new o).0
        then important o.queue ++ new ∷ []
        else important o.queue))
      × IsOrdered (enqueue_entry new o).1.queue
unfolding enqueue_entry
enqueue-important new o nr nt v = elim (Bool-cases (is_event new.kind)) [
  | inl ev ↦ rw ev (
      enqueue_event_lem new o (high_of_event new.kind ev)
        (record { responds = λ k. absurd (nr k); reports = λ _. nt }) v)
  | inr no_event ↦
      let low = low_of_not_event new.kind no_event nr in
      elim (Option-cases (coalesce new o.queue)) [
        | inl p ↦ rw (no_event, p) (append-important new o low nr v)
        | inr (q, p) ↦
            rw (no_event, p)
              (
                important-coalesce new low nt o.queue q v p,
                IsOrdered-coalesce new low nt nr o.queue q v p,
              )
      ]
]
