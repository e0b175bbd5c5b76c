-- ===== src/Mqtt/Queue.antt =====
-- The outgoing queue of mqtt_manager.py: `enqueue`, `_enqueue_important` and what they call.
pub mod Account
pub mod Important
pub mod Fifo
pub mod Latest
pub mod Victim
pub mod Outcomes
mod Tests
use connected_vehicle_health.Prelude.{
  ℕ, zero, suc, ◌+◌, String, Bool, true, false, not, ◌&&◌, ◌||◌, Option, none, some, List, [], ◌∷◌,
  ◌++◌, length, leb, str_eq, if◌then◌else◌,
}
use connected_vehicle_health.Config.{mqtt_queue_capacity, mqtt_response_topic}
use connected_vehicle_health.Json.{Value, Fields, as_dict}
use connected_vehicle_health.Mqtt.Topic.{
  Kind, event, response, diagnostic, fast, slow, telemetry, message_kind, topic,
}

-- A tuple of the queue.
pub record Entry : Type 0 where
  pub topic : String
  pub payload : String
  pub kind : Kind

-- The queue and the counters of a `MQTTManager` that its queue methods change.
pub record Outbox : Type 0 where
  pub queue : List Entry
  pub dropped : ℕ
  pub coalesced : ℕ
  pub priority_evictions : ℕ

abbrev pub empty : Outbox
empty = record { queue = []; dropped = 0; coalesced = 0; priority_evictions = 0 }

unfoldable pub is_event : Kind → Bool
is_event event = true
is_event _ = false

-- `kind in ("event", "response")`
unfoldable pub is_important : Kind → Bool
is_important event = true
is_important response = true
is_important _ = false

-- `kind == wanted`
unfoldable pub same_kind : Kind → Kind → Bool
same_kind event event = true
same_kind response response = true
same_kind diagnostic diagnostic = true
same_kind fast fast = true
same_kind slow slow = true
same_kind telemetry telemetry = true
same_kind _ _ = false

-- The test of the coalescing loop at one entry.
unfoldable pub is_stale : String → Entry → Bool
unfolding is_event
is_stale topic e = str_eq e.topic topic && not (is_event e.kind)

-- The loop, from the last entry to the first: the first match is replaced, and `none` is no match.
unfoldable pub coalesce : Entry → List Entry → Option (List Entry)
unfolding is_stale
coalesce new [] = none
coalesce new (e ∷ q) = elim (coalesce new q) [
  | some q' ↦ some (e ∷ q')
  | none ↦ if is_stale new.topic e then some (new ∷ q) else none
]

-- The inner loop of `_lowest_priority_index`: the index of the last entry of a kind.
unfoldable pub last_index : Kind → List Entry → Option ℕ
unfolding same_kind
last_index wanted [] = none
last_index wanted (e ∷ q) = elim (last_index wanted q) [
  | some i ↦ some (suc i)
  | none ↦ if same_kind e.kind wanted then some 0 else none
]

-- The outer loop, over the kinds in the order in which they are given up; `none` is -1.
unfoldable pub first_found : List Kind → List Entry → Option ℕ
unfolding last_index
first_found [] q = none
first_found (wanted ∷ others) q = elim (last_index wanted q) [
  | some i ↦ some i
  | none ↦ first_found others q
]

abbrev pub low_kinds : List Kind
low_kinds = diagnostic ∷ fast ∷ slow ∷ telemetry ∷ []

-- `_lowest_priority_index`
unfoldable pub lowest_priority_index : List Entry → Option ℕ
unfolding first_found
lowest_priority_index = first_found low_kinds

-- `queue.pop(i)`, the rest of the queue; an index out of range does not occur.
unfoldable pub pop_at : ℕ → List Entry → List Entry
pop_at i [] = []
pop_at zero (e ∷ q) = q
pop_at (suc i) (e ∷ q) = e ∷ pop_at i q

-- The loop that moves `insert_at` past the events and responses at the front.
unfoldable pub insert_index : List Entry → ℕ
unfolding is_important
insert_index [] = 0
insert_index (e ∷ q) = let rest = insert_index q in if is_important e.kind then suc rest else 0

-- `queue.insert(i, entry)`
unfoldable pub insert_at : ℕ → Entry → List Entry → List Entry
insert_at zero new q = new ∷ q
insert_at (suc i) new [] = new ∷ []
insert_at (suc i) new (e ∷ q) = e ∷ insert_at i new q

-- The insertion at the end of `_enqueue_important`.
unfoldable pub insert_important : Entry → List Entry → List Entry
unfolding insert_index insert_at
insert_important new q = insert_at (insert_index q) new q

-- `_enqueue_important`: the result, and the new state.
unfoldable pub enqueue_important : Entry → Outbox → Bool × Outbox
unfolding lowest_priority_index pop_at insert_important
enqueue_important new o =
    if leb mqtt_queue_capacity (length o.queue)
    then elim (lowest_priority_index o.queue) [
      | none ↦ (false, record o { dropped = o.dropped + 1 })
      | some i ↦ (
        true,
        record o {
          queue = insert_important new (pop_at i o.queue);
          dropped = o.dropped + 1;
          priority_evictions = o.priority_evictions + 1;
        },
      )
    ]
    else (true, record o { queue = insert_important new o.queue })

-- `_enqueue_priority`
unfoldable pub enqueue_priority : String → String → Outbox → Bool × Outbox
unfolding enqueue_important
enqueue_priority topic payload =
    enqueue_important (record { topic = topic; payload = payload; kind = response })

-- `enqueue` for a message that is no event and found nothing to replace.
unfoldable pub append_telemetry : Entry → Outbox → Bool × Outbox
append_telemetry new o =
    if leb mqtt_queue_capacity (length o.queue)
    then (false, record o { dropped = o.dropped + 1 })
    else (true, record o { queue = o.queue ++ new ∷ [] })

-- `enqueue`, given the topic and the kind.
unfoldable pub enqueue_entry : Entry → Outbox → Bool × Outbox
unfolding enqueue_important append_telemetry coalesce is_event
enqueue_entry new o =
    if is_event new.kind then enqueue_important new o else elim (coalesce new o.queue) [
      | some q ↦ (true, record o { queue = q; coalesced = o.coalesced + 1 })
      | none ↦ append_telemetry new o
    ]

module _ {N : Type 0} (render : Value N → String) where
  -- The tuple that `enqueue` makes of a payload.
  unfoldable pub entry_of : String → Fields N → Entry
  entry_of payload parsed = record {
    topic = topic render parsed;
    payload = payload;
    kind = message_kind render parsed;
  }

  -- `enqueue`; `none` is the AttributeError for a parsed value that is no dict.
  unfoldable pub enqueue : String → Value N → Outbox → Option (Bool × Outbox)
  unfolding enqueue_entry entry_of as_dict
  enqueue payload parsed o = elim (as_dict parsed) [
    | none ↦ none
    | some fields ↦ some (enqueue_entry (entry_of payload fields) o)
  ]
