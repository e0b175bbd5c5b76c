-- ===== src/Mqtt/Queue/Account.antt =====
-- How many messages the queue of mqtt_manager.py holds, and where every message went.
use connected_vehicle_health.Prelude.{
  ℕ, zero, suc, ◌+◌, ◌≤◌, ◌<◌, ◌≡◌, some, List, [], ◌∷◌, arith, length, length-append, Option-cases,
  inl, inr,
}
use connected_vehicle_health.Config.{mqtt_queue_capacity}
use connected_vehicle_health.Mqtt.Topic.{Kind}
use connected_vehicle_health.Mqtt.Queue.{
  Entry, Outbox, coalesce, last_index, first_found, lowest_priority_index, low_kinds, pop_at,
  insert_index, insert_at, insert_important, enqueue_important, append_telemetry, enqueue_entry,
}

length-coalesce :
    (new : Entry) (q : List Entry) (q' : List Entry)
    → coalesce new q ≡ some q'
    → length q' ≡ length q
unfolding coalesce
length-coalesce new [] q' h = cc
length-coalesce new (e ∷ q) q' h = elim (Option-cases (coalesce new q)) [
  | inl p ↦ ground arith
  | inr (r, p) ↦ ground (arith, length-coalesce new q r p)
]

pub last_index-lt :
    (wanted : Kind) (q : List Entry) (i : ℕ) → last_index wanted q ≡ some i → i < length q
unfolding last_index
last_index-lt wanted [] i h = cc
last_index-lt wanted (e ∷ q) i h = elim (Option-cases (last_index wanted q)) [
  | inl p ↦ ground arith
  | inr (r, p) ↦ ground (arith, last_index-lt wanted q r p)
]

first_found-lt :
    (kinds : List Kind) (q : List Entry) (i : ℕ) → first_found kinds q ≡ some i → i < length q
unfolding first_found
first_found-lt [] q i h = cc
first_found-lt (k ∷ kinds) q i h = elim (Option-cases (last_index k q)) [
  | inl p ↦ first_found-lt kinds q i (ground arith)
  | inr (r, p) ↦ last_index-lt k q i (ground arith)
]

pub length-pop_at : (i : ℕ) (q : List Entry) → i < length q → length (pop_at i q) + 1 ≡ length q
unfolding pop_at
length-pop_at i [] h = absurd (omega arith)
length-pop_at zero (e ∷ q) h = omega arith
length-pop_at (suc i) (e ∷ q) h = omega (arith, length-pop_at i q (omega arith))

length-insert_at :
    (i : ℕ) (new : Entry) (q : List Entry) → length (insert_at i new q) ≡ length q + 1
unfolding insert_at
length-insert_at zero new q = omega arith
length-insert_at (suc i) new [] = omega arith
length-insert_at (suc i) new (e ∷ q) = omega (arith, length-insert_at i new q)

pub length-insert_important :
    (new : Entry) (q : List Entry) → length (insert_important new q) ≡ length q + 1
unfolding insert_important
length-insert_important new q = length-insert_at (insert_index q) new q

length-evict :
    (q : List Entry) (i : ℕ) → lowest_priority_index q ≡ some i → length (pop_at i q) + 1 ≡ length q
unfolding lowest_priority_index
length-evict q i h = length-pop_at i q (first_found-lt low_kinds q i h)

-- Every message that was handed over, and is still here or was given up.
abbrev pub accounted : Outbox → ℕ
accounted o = length o.queue + o.dropped + o.coalesced

abbrev pub Accounts : Outbox → Outbox → Type 0
Accounts o o' =
    (accounted o' ≡ accounted o + 1)
    × (length o.queue ≤ length o'.queue)
    × (length o.queue ≤ mqtt_queue_capacity → length o'.queue ≤ mqtt_queue_capacity)

pub enqueue_important-Accounts : (new : Entry) (o : Outbox) → Accounts o (enqueue_important new o).1
unfolding enqueue_important
enqueue_important-Accounts new o = elim (Option-cases (lowest_priority_index o.queue)) [
  | inl p ↦ ground (arith, length-insert_important new o.queue)
  | inr (i, p) ↦ ground (
    arith,
    length-evict o.queue i p,
    length-insert_important new (pop_at i o.queue),
    length-insert_important new o.queue,
  )
]

append_telemetry-Accounts : (new : Entry) (o : Outbox) → Accounts o (append_telemetry new o).1
unfolding append_telemetry
append_telemetry-Accounts new o = ground (arith, length-append o.queue (new ∷ []))

-- Each call of `enqueue` is accounted for by exactly one more message that is queued, dropped or
-- coalesced; the queue never shrinks, and a queue within its capacity stays within it.
pub enqueue-accounts :
    (new : Entry) (o : Outbox)
    → (accounted (enqueue_entry new o).1 ≡ accounted o + 1)
      × (length o.queue ≤ length (enqueue_entry new o).1.queue)
      × (length o.queue ≤ mqtt_queue_capacity
          → length (enqueue_entry new o).1.queue ≤ mqtt_queue_capacity)
unfolding enqueue_entry
enqueue-accounts new o = elim (Option-cases (coalesce new o.queue)) [
  | inl p ↦ ground (arith, enqueue_important-Accounts new o, append_telemetry-Accounts new o)
  | inr (q, p) ↦ ground (arith, enqueue_important-Accounts new o, length-coalesce new o.queue q p)
]
