-- ===== src/Mqtt/Queue/Latest.antt =====
-- Coalescing in the queue of mqtt_manager.py: one value for each topic, and the newest.
use connected_vehicle_health.Prelude.{
  ℕ, zero, suc, ◌+◌, ◌≤◌, ◌≡◌, ◌≢◌, ◌⊎◌, refl, ap, sym, subst, String, true, false, none, some,
  List, [], ◌∷◌, ◌++◌, arith, length, leb, Option-cases, Bool-cases, inl, inr, eq_iff, str_eq,
  if◌then◌else◌,
}
use connected_vehicle_health.Config.{mqtt_queue_capacity, mqtt_response_topic}
use connected_vehicle_health.Mqtt.Queue.{
  Entry, Outbox, is_event, is_stale, coalesce, lowest_priority_index, pop_at, insert_index,
  insert_at, insert_important, enqueue_important, append_telemetry, enqueue_entry,
}

-- The entries for a topic that a newer value of it replaces.
unfoldable pub latest : String → List Entry → List Entry
latest t [] = []
latest t (e ∷ q) = if is_stale t e then e ∷ latest t q else latest t q

-- At most one such entry for each topic but that of the command responses.
abbrev pub IsFresh : List Entry → Type 0
IsFresh q = (t : String) → t ≢ mqtt_response_topic → length (latest t q) ≤ 1

stale_self : (e : Entry) → is_event e.kind ≡ false → is_stale e.topic e ≡ true
unfolding is_stale
stale_self e h = ground (arith, eq_iff e.topic e.topic)

stale_other : (t : String) (e : Entry) → e.topic ≢ t → is_stale t e ≡ false
unfolding is_stale
stale_other t e h = ground (arith, eq_iff e.topic t)

pub stale_event : (t : String) (e : Entry) → is_event e.kind ≡ true → is_stale t e ≡ false
unfolding is_stale
stale_event t e h = ground (arith, eq_iff e.topic t)

stale_topic : (t : String) (e : Entry) → is_stale t e ≡ true → e.topic ≡ t
unfolding is_stale
stale_topic t e h = ground (arith, eq_iff e.topic t)

module _ (new : Entry) (low : is_event new.kind ≡ false) where
  latest-none : (q : List Entry) → coalesce new q ≡ none → latest new.topic q ≡ []
  unfolding coalesce latest
  latest-none [] h = refl
  latest-none (e ∷ q) h = elim (Option-cases (coalesce new q)) [
    | inl p ↦ ground (arith, latest-none q p)
    | inr (r, p) ↦ absurd (ground arith)
  ]

  pub latest-found :
      (q q' : List Entry) → coalesce new q ≡ some q' → 1 ≤ length (latest new.topic q)
  unfolding coalesce latest
  latest-found [] q' h = cc
  latest-found (e ∷ q) q' h = elim (Option-cases (coalesce new q)) [
    | inl p ↦ ground arith
    | inr (r, p) ↦ ground (arith, latest-found q r p)
  ]

  latest-coalesce :
      (q q' : List Entry)
      → length (latest new.topic q) ≤ 1
      → coalesce new q ≡ some q'
      → latest new.topic q' ≡ new ∷ []
  unfolding coalesce latest
  latest-coalesce [] q' one h = cc
  latest-coalesce (e ∷ q) q' one h = elim (Option-cases (coalesce new q)) [
    | inl p ↦ ground (arith, latest-none q p, stale_self new low)
    | inr (r, p) ↦ ground (arith, latest-coalesce q r, latest-found q r p)
  ]

  latest-coalesce_ne :
      (t : String)
      → new.topic ≢ t
      → (q q' : List Entry) → coalesce new q ≡ some q'
      → latest t q' ≡ latest t q
  unfolding coalesce latest
  latest-coalesce_ne t ne [] q' h = cc
  latest-coalesce_ne t ne (e ∷ q) q' h = elim (Option-cases (coalesce new q)) [
    | inl p ↦ ground (arith, stale_other t new ne, stale_topic new.topic e, stale_other t e)
    | inr (r, p) ↦ ground (arith, latest-coalesce_ne t ne q r p)
  ]

length-latest-pop :
    (t : String) (i : ℕ) (q : List Entry) → length (latest t (pop_at i q)) ≤ length (latest t q)
unfolding pop_at latest
length-latest-pop t i [] = omega arith
length-latest-pop t zero (e ∷ q) = ground arith
length-latest-pop t (suc i) (e ∷ q) = ground (arith, length-latest-pop t i q)

latest-insert_at :
    (t : String) (new : Entry)
    → is_stale t new ≡ false
    → (i : ℕ) (q : List Entry) → latest t (insert_at i new q) ≡ latest t q
unfolding insert_at latest
latest-insert_at t new h zero q = rw h
latest-insert_at t new h (suc i) [] = rw h
latest-insert_at t new h (suc i) (e ∷ q) = ground (arith, latest-insert_at t new h i q)

latest-insert :
    (t : String) (new : Entry) (q : List Entry)
    → is_stale t new ≡ false
    → latest t (insert_important new q) ≡ latest t q
unfolding insert_important
latest-insert t new q h = latest-insert_at t new h (insert_index q) q

latest-snoc :
    (t : String) (new : Entry) (q : List Entry)
    → latest t (q ++ new ∷ []) ≡ latest t q ++ (if is_stale t new then new ∷ [] else [])
unfolding latest
latest-snoc t new [] = ground arith
latest-snoc t new (e ∷ q) = ground (arith, latest-snoc t new q)

length-latest-snoc :
    (t : String) (new : Entry) (q : List Entry)
    → length (latest t (q ++ new ∷ [])) ≡ length (latest t q) + (if is_stale t new then 1 else 0)
unfolding latest
length-latest-snoc t new [] = ground arith
length-latest-snoc t new (e ∷ q) = ground (arith, length-latest-snoc t new q)

-- `_enqueue_important` adds no value that a later one would replace.
pub enqueue_important-latest :
    (t : String) (new : Entry) (o : Outbox)
    → is_stale t new ≡ false
    → length (latest t (enqueue_important new o).1.queue) ≤ length (latest t o.queue)
unfolding enqueue_important
enqueue_important-latest t new o h = elim (Option-cases (lowest_priority_index o.queue)) [
  | inl p ↦ ground (arith, latest-insert t new o.queue)
  | inr (i, p) ↦ ground (
    arith,
    latest-insert t new o.queue,
    latest-insert t new (pop_at i o.queue),
    length-latest-pop t i o.queue,
  )
]

topic_cases : (e : Entry) (t : String) → (e.topic ≡ t) ⊎ (e.topic ≢ t)
topic_cases e t = elim (Bool-cases (str_eq e.topic t)) [
  | inl same ↦ inl ((eq_iff e.topic t).0 same)
  | inr other ↦ inr (λ p. ground (arith, eq_iff e.topic t))
]

module _ (new : Entry) (o : Outbox) (low : is_event new.kind ≡ false) where
  append-latest :
      latest new.topic o.queue ≡ []
      → ((append_telemetry new o).0 ≡ true
          → latest new.topic (append_telemetry new o).1.queue ≡ new ∷ [])
        × ((append_telemetry new o).0 ≡ false → (append_telemetry new o).1.queue ≡ o.queue)
  unfolding append_telemetry
  append-latest h = ground (arith, latest-snoc new.topic new o.queue, stale_self new low)

  append-length :
      (t : String)
      → latest new.topic o.queue ≡ []
      → length (latest t o.queue) ≤ 1
      → length (latest t (append_telemetry new o).1.queue) ≤ 1
  unfolding append_telemetry
  append-length t h one = elim (Bool-cases (leb mqtt_queue_capacity (length o.queue))) [
    | inl full ↦ rw full one
    | inr room ↦ elim (topic_cases new t) [
      | inl same ↦
          let none_yet : latest t o.queue ≡ [] = subst (λ s. latest s o.queue ≡ []) same h in
          rw room (ground (arith, length-latest-snoc t new o.queue))
      | inr other ↦
          rw room (ground (arith, length-latest-snoc t new o.queue, stale_other t new other))
    ]
  ]

  coalesce-length :
      (t : String) (q' : List Entry)
      → coalesce new o.queue ≡ some q'
      → length (latest t o.queue) ≤ 1
      → length (latest t q') ≤ 1
  coalesce-length t q' p one = elim (topic_cases new t) [
    | inl same ↦
        subst (λ s. length (latest s q') ≤ 1) same
          (omega (
            arith,
            ap length (
                latest-coalesce new low o.queue q'
                  (subst (λ s. length (latest s o.queue) ≤ 1) (sym same) one) p),
          ))
    | inr other ↦ rw (latest-coalesce_ne new low t other o.queue q' p) one
  ]

-- When `enqueue` accepts a message that is no event, the queue holds exactly one value for its
-- topic, and it is this one; when it refuses it, the queue is unchanged. The queue never holds two
-- values for a topic, command responses aside.
pub enqueue-latest :
    (new : Entry) (o : Outbox)
    → new.topic ≢ mqtt_response_topic
    → IsFresh o.queue
    → (is_event new.kind ≡ false
        → ((enqueue_entry new o).0 ≡ true
            → latest new.topic (enqueue_entry new o).1.queue ≡ new ∷ [])
          × ((enqueue_entry new o).0 ≡ false → (enqueue_entry new o).1.queue ≡ o.queue))
      × IsFresh (enqueue_entry new o).1.queue
unfolding enqueue_entry
enqueue-latest new o nt v = elim (Bool-cases (is_event new.kind)) [
  | inl ev ↦ rw ev (
    λ h. absurd (cc),
    λ t nr. omega (arith, v t nr, enqueue_important-latest t new o (stale_event t new ev)),
  )
  | inr low ↦ elim (Option-cases (coalesce new o.queue)) [
    | inl p ↦
        rw (low, p)
          (
            λ _. append-latest new o low (latest-none new low o.queue p),
            λ t nr. append-length new o low t (latest-none new low o.queue p) (v t nr),
          )
    | inr (q, p) ↦
        rw (low, p)
          (
            λ _. (λ _. latest-coalesce new low o.queue q (v new.topic nt) p, λ h. absurd (cc)),
            λ t nr. coalesce-length new o low t q p (v t nr),
          )
  ]
]
