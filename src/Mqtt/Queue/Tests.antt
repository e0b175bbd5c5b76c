-- ===== src/Mqtt/Queue/Tests.antt =====
-- Runs of the queue of mqtt_manager.py on a few messages, and the theorems at them.
use connected_vehicle_health.Prelude.{
  ℕ, zero, suc, ◌+◌, ◌≤◌, ◌<◌, ◌≡◌, refl, String, true, false, some, List, [], ◌∷◌, ◌++◌, length,
  arith, get_elem?, drop, All, eq_iff, if◌then◌else◌, ◌&&◌,
}
use connected_vehicle_health.Config.{mqtt_queue_capacity, mqtt_response_topic}
use connected_vehicle_health.Mqtt.Topic.{Kind, event, diagnostic, fast, slow}
use connected_vehicle_health.Mqtt.Queue.{
  Entry, Outbox, empty, is_event, is_important, lowest_priority_index, enqueue_important,
  enqueue_entry,
}
use connected_vehicle_health.Mqtt.Queue.Account.{accounted}
use connected_vehicle_health.Mqtt.Queue.Important.{important, IsOrdered, IsAddressed}
use connected_vehicle_health.Mqtt.Queue.Fifo.{enqueue-important}
use connected_vehicle_health.Mqtt.Queue.Latest.{latest, IsFresh, stale_event}
use connected_vehicle_health.Mqtt.Queue.Victim.{rank, lowest_priority_index_lem}
use connected_vehicle_health.Mqtt.Queue.Outcomes.{
  enqueue-counts, enqueue_important-accepted, enqueue-latest_accepted,
}

abbrev entry : String → String → Kind → Entry
entry topic payload kind = record { topic = topic; payload = payload; kind = kind }

abbrev hot : Entry
hot = entry "v/event" "hot" event

abbrev speed : String → Entry
speed payload = entry "v/telemetry/fast" payload fast

abbrev fuel : Entry
fuel = entry "v/telemetry/slow" "fuel" slow

abbrev holding : List Entry → Outbox
holding queue = record empty { queue = queue }

abbrev copies : ℕ → Entry → List Entry
copies zero e = []
copies (suc n) e = e ∷ copies n e

-- A new speed takes the place of the old one.
speed_replaced :
    enqueue_entry (speed "61") (holding (hot ∷ speed "60" ∷ fuel ∷ []))
    ≡ (true, record (holding (hot ∷ speed "61" ∷ fuel ∷ [])) { coalesced = 1 })
unfolding enqueue_entry
speed_replaced = refl

-- An event comes to stand behind the event and in front of the telemetry.
event_first :
    enqueue_entry (entry "v/event" "cold" event) (holding (hot ∷ fuel ∷ []))
    ≡ (true, holding (hot ∷ entry "v/event" "cold" event ∷ fuel ∷ []))
unfolding enqueue_entry
event_first = refl

-- In a full queue the last diagnostic gives way, although a fast value stands behind it.
diagnostic_evicted :
    (enqueue_entry hot (holding (entry "d" "1" diagnostic ∷ copies 19 (speed "60")))).1.queue
    ≡ hot ∷ copies 19 (speed "60")
unfolding enqueue_entry
diagnostic_evicted = refl

mixed-IsOrdered : IsOrdered (hot ∷ fuel ∷ [])
unfolding is_important
mixed-IsOrdered = (
  λ h. absurd (ground (arith, h)),
  (λ h. absurd (ground (arith, h))),
  (λ _. tt, (λ h. absurd (ground (arith, h))), tt),
)

hot-IsAddressed : IsAddressed hot
hot-IsAddressed = record {
  responds = λ h. absurd (ground (arith, h));
  reports = λ _. ground (arith, eq_iff hot.topic mqtt_response_topic);
}

enqueue-counts_example :
    (accounted (enqueue_entry hot (holding (speed "60" ∷ []))).1
      ≡ accounted (holding (speed "60" ∷ [])) + 1)
    × (1 ≤ length (enqueue_entry hot (holding (speed "60" ∷ []))).1.queue)
    × (length (enqueue_entry hot (holding (speed "60" ∷ []))).1.queue ≤ mqtt_queue_capacity)
enqueue-counts_example = enqueue-counts hot (holding (speed "60" ∷ [])) (omega arith)

abbrev mixed : Outbox
mixed = holding (hot ∷ fuel ∷ [])

abbrev cold : Entry
cold = entry "v/event" "cold" event

enqueue-important_example :
    (important (enqueue_entry fuel mixed).1.queue ≡ (
      if is_event fuel.kind && (enqueue_entry fuel mixed).0
      then important mixed.queue ++ fuel ∷ []
      else important mixed.queue))
    × IsOrdered (enqueue_entry fuel mixed).1.queue
enqueue-important_example =
    enqueue-important fuel mixed (λ h. absurd (ground (arith, h)))
      (ground (arith, eq_iff fuel.topic mqtt_response_topic)) mixed-IsOrdered

accepts_cold : (enqueue_important cold mixed).0 ≡ true
unfolding enqueue_important
accepts_cold = refl

cold-IsAddressed : IsAddressed cold
cold-IsAddressed = record {
  responds = λ h. absurd (ground (arith, h));
  reports = λ _. ground (arith, eq_iff cold.topic mqtt_response_topic);
}

cold-is_important : is_important cold.kind ≡ true
unfolding is_important
cold-is_important = refl

enqueue_important-accepted_example :
    (important (enqueue_important cold mixed).1.queue ≡ important mixed.queue ++ cold ∷ [])
    × IsOrdered (enqueue_important cold mixed).1.queue
enqueue_important-accepted_example =
    enqueue_important-accepted cold mixed cold-is_important cold-IsAddressed mixed-IsOrdered
      accepts_cold

-- A queue full of events.
abbrev jammed : Outbox
jammed = holding (copies 20 hot)

copies-IsOrdered : (n : ℕ) → IsOrdered (copies n hot)
unfolding is_important
copies-IsOrdered zero = tt
copies-IsOrdered (suc n) =
    (λ h. absurd (ground (arith, h)), (λ h. absurd (ground (arith, h))), copies-IsOrdered n)

refuses_cold : (enqueue_important cold jammed).0 ≡ false
unfolding enqueue_important
refuses_cold = refl

copies-latest : (n : ℕ) (t : String) → latest t (copies n hot) ≡ []
unfolding latest
copies-latest zero t = refl
copies-latest (suc n) t = rw (stale_event t hot (unfold is_event in refl)) (copies-latest n t)

copies-IsFresh : (n : ℕ) → IsFresh (copies n hot)
copies-IsFresh n t h = rw (copies-latest n t) (omega arith)

fuel-is_event : is_event fuel.kind ≡ false
unfolding is_event
fuel-is_event = refl

refuses_fuel : (enqueue_entry fuel jammed).0 ≡ false
unfolding enqueue_entry
refuses_fuel = refl

accepts_fuel : (enqueue_entry fuel (holding (copies 2 hot))).0 ≡ true
unfolding enqueue_entry
accepts_fuel = refl

enqueue-latest_accepted_example :
    (latest fuel.topic (enqueue_entry fuel (holding (copies 2 hot))).1.queue ≡ fuel ∷ [])
    × IsFresh (enqueue_entry fuel (holding (copies 2 hot))).1.queue
enqueue-latest_accepted_example =
    enqueue-latest_accepted fuel (holding (copies 2 hot))
      (ground (arith, eq_iff fuel.topic mqtt_response_topic)) (copies-IsFresh 2) fuel-is_event
      accepts_fuel

abbrev three : List Entry
three = hot ∷ speed "60" ∷ fuel ∷ []

victim_of_three : lowest_priority_index three ≡ some 1
unfolding lowest_priority_index
victim_of_three = refl

lowest_priority_index_lem_example :
    (e : Entry) × (get_elem? three 1 ≡ some e)
    × (rank e.kind < 4)
    × All (λ x. rank e.kind ≤ rank x.kind) three
    × All (λ x. rank e.kind < rank x.kind) (drop 2 three)
lowest_priority_index_lem_example = lowest_priority_index_lem three 1 victim_of_three
