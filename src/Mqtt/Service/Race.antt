-- ===== src/Mqtt/Service/Race.antt =====
-- What happens to the message that `start` of mqtt_manager.py is publishing while others arrive:
-- it reads the head of the queue before the wait, and pops the head after it.
use connected_vehicle_health.Prelude.{
  ℕ, zero, suc, ◌+◌, ◌≡◌, ◌≢◌, refl, true, false, some, List, [], ◌∷◌, ◌++◌, arith, length, leb,
  All, Option-cases, Bool-cases, inl, inr, eq_iff,
}
use connected_vehicle_health.Config.{mqtt_queue_capacity, mqtt_response_topic}
use connected_vehicle_health.Mqtt.Topic.{response}
use connected_vehicle_health.Mqtt.Queue.{
  Entry, Outbox, is_event, is_important, is_stale, coalesce, lowest_priority_index, pop_at,
  insert_important, insert_index, insert_at, enqueue_important, append_telemetry, enqueue_entry,
}
use connected_vehicle_health.Mqtt.Queue.Victim.{lowest_priority_index_lem, rank}
use connected_vehicle_health.Mqtt.Service.{Publisher, Phase, arrive, publish_done, pop_front}

module _ (e new : Entry) (high : is_important e.kind ≡ true) where
  rank_high : rank e.kind ≡ 4
  unfolding is_important
  rank_high = ground arith

  evict_head :
      (q : List Entry) (i : ℕ)
      → lowest_priority_index (e ∷ q) ≡ some i
      → (r : List Entry) × (pop_at i (e ∷ q) ≡ e ∷ r)
  unfolding pop_at
  evict_head q zero h =
      let (x, at, low, least, rest) = lowest_priority_index_lem (e ∷ q) zero h in
      absurd (ground (arith, rank_high))
  evict_head q (suc i) h = (pop_at i q, refl)

  insert_head : (q : List Entry) → (r : List Entry) × (insert_important new (e ∷ q) ≡ e ∷ r)
  unfolding insert_important insert_index insert_at
  insert_head q = (insert_at (insert_index q) new q, ground (arith, high))

  pub important_head :
      (q : List Entry) (o : Outbox)
      → o.queue ≡ e ∷ q
      → (r : List Entry) × ((enqueue_important new o).1.queue ≡ e ∷ r)
  unfolding enqueue_important
  important_head q o same = elim (Bool-cases (leb mqtt_queue_capacity (length o.queue))) [
    | inr room ↦ let (r, at) = insert_head q in (r, rw (room, same) at)
    | inl full ↦ elim (Option-cases (lowest_priority_index o.queue)) [
      | inl p ↦ (q, rw (full, p) same)
      | inr (i, p) ↦
          let (r, left) = evict_head q i (rw same at p) in
          let (r', at) = insert_head r in (r', rw (full, p, same, left) at)
    ]
  ]

  append_head :
      (q : List Entry) (o : Outbox)
      → o.queue ≡ e ∷ q
      → (r : List Entry) × ((append_telemetry new o).1.queue ≡ e ∷ r)
  unfolding append_telemetry
  append_head q o same = elim (Bool-cases (leb mqtt_queue_capacity (length o.queue))) [
    | inl full ↦ (q, rw full same)
    | inr room ↦ (q ++ new ∷ [], rw (room, same) refl)
  ]

module _ (e new : Entry) (high : is_important e.kind ≡ true)
    (fits : e.kind ≡ response → e.topic ≡ mqtt_response_topic)
    (nt : new.topic ≢ mqtt_response_topic) where
  not_stale : is_stale new.topic e ≡ false
  unfolding is_stale is_important is_event
  not_stale = ground (arith, eq_iff e.topic new.topic)

  coalesce_head :
      (q q' : List Entry) → coalesce new (e ∷ q) ≡ some q' → (r : List Entry) × (q' ≡ e ∷ r)
  unfolding coalesce
  coalesce_head q q' h = elim (Option-cases (coalesce new q)) [
    | inl p ↦ absurd (ground (arith, not_stale))
    | inr (r, p) ↦ (r, ground arith)
  ]

  pub enqueue_head :
      (q : List Entry) (o : Outbox)
      → o.queue ≡ e ∷ q
      → (r : List Entry) × ((enqueue_entry new o).1.queue ≡ e ∷ r)
  unfolding enqueue_entry
  enqueue_head q o same = elim (Bool-cases (is_event new.kind)) [
    | inl ev ↦ rw ev (important_head e new high q o same)
    | inr low ↦ elim (Option-cases (coalesce new o.queue)) [
      | inl p ↦ rw (low, p) (append_head e new high q o same)
      | inr (q', p) ↦ let (r, at) = coalesce_head q q' (rw same at p) in (r, rw (low, p) at)
    ]
  ]

-- Other tasks call `enqueue` for these messages, in turn, during one wait.
unfoldable pub arrive_all : List Entry → Publisher → Publisher
unfolding arrive
arrive_all [] p = p
arrive_all (new ∷ news) p = arrive_all news (arrive new p)

arrivals_head :
    (e : Entry)
    → is_important e.kind ≡ true
    → (e.kind ≡ response → e.topic ≡ mqtt_response_topic)
    → (news : List Entry) → All (λ n. n.topic ≢ mqtt_response_topic) news
    → (q : List Entry) (p : Publisher) → p.queue ≡ e ∷ q
    → (r : List Entry) × ((arrive_all news p).queue ≡ e ∷ r)
unfolding arrive_all
arrivals_head e high fits [] nt q p same = (q, same)
arrivals_head e high fits (new ∷ news) nt q p same =
    let (r, at) = enqueue_head e new high fits nt.0 q p.outbox same in
    arrivals_head e high fits news nt.1 r (arrive new p) (unfold arrive in at)

-- An event or response that is being published is the entry that is popped afterwards, whatever
-- `enqueue` is handed in the meantime (its topics are never that of the responses): it stays at
-- the head of the queue, and leaves the queue only when its publication has succeeded.
pub important_popped :
    (e : Entry) (news : List Entry) (q : List Entry) (p : Publisher)
    → is_important e.kind ≡ true
    → (e.kind ≡ response → e.topic ≡ mqtt_response_topic)
    → All (λ n. n.topic ≢ mqtt_response_topic) news
    → p.queue ≡ e ∷ q
    → (r : List Entry) × (p' : Publisher) × ((arrive_all news p).queue ≡ e ∷ r)
      × (publish_done e (arrive_all news p) ≡ some p')
      × (p'.queue ≡ r)
unfolding publish_done
important_popped e news q p high fits nt same =
    let (r, at) = arrivals_head e high fits news nt q p same in
    (
      r,
      record p {
        mqtt = record (arrive_all news p).mqtt {
          outbox = record (arrive_all news p).outbox { queue = r };
          published = (arrive_all news p).published + 1;
          last_topic = some e.topic;
        };
        phase = Phase.ready;
        delay = (arrive_all news p).delay;
      },
      at,
      rw (at, pop_front) refl,
      refl,
    )
