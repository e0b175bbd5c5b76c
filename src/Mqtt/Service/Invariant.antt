-- ===== src/Mqtt/Service/Invariant.antt =====
-- What holds of the publishing task of mqtt_manager.py in every state that any schedule reaches.
use native.Mathlib.Nat.{add-zero}
use connected_vehicle_health.Prelude.{
  ℕ, ◌+◌, ◌≤◌, ◌≡◌, ◌≢◌, ◌⊎◌, refl, ap, sym, subst, String, Bool, true, some, List, [], ◌∷◌, arith,
  length, Bool-cases, inl, inr,
}
use connected_vehicle_health.Config.{mqtt_response_topic}
use connected_vehicle_health.Mqtt.Topic.{response}
use connected_vehicle_health.Mqtt.Queue.{
  Entry, Outbox, is_important, enqueue_priority, enqueue_entry,
}
use connected_vehicle_health.Mqtt.Queue.Account.{
  Accounts, enqueue-accounts, enqueue_important-Accounts,
}
use connected_vehicle_health.Mqtt.Queue.Important.{IsOrdered}
use connected_vehicle_health.Mqtt.Queue.Fifo.{enqueue-important, enqueue_important_lem}
use connected_vehicle_health.Mqtt.Service.Race.{enqueue_head}
use connected_vehicle_health.Mqtt.Service.{
  MqttManager, Publisher, Phase, ready, publishing, start, next_phase, loop_top, connect_done,
  publish_done, pop_front, recover, arrive, Verdict, ignored, accepted, rejected, respond,
}
use connected_vehicle_health.Mqtt.Service.Runs.{handed, HeadKept, Inv}

pub start-Inv : Inv 0 start
unfolding start
start-Inv = record {
  ordered = tt;
  bounded = omega arith;
  counted = refl;
  kept = tt;
  judged = omega arith;
  backoff_low = omega arith;
  backoff_high = omega arith;
}

-- Whatever is at the head of an ordered queue when it is read, it is at the head.
next-HeadKept : (q : List Entry) → IsOrdered q → HeadKept (next_phase q) q
unfolding next_phase
next-HeadKept [] v = tt
next-HeadKept (e ∷ q) v = (omega arith, λ _. (q, refl), v.1)

-- What an insertion that keeps heads does to the entry that is being published.
HeadKept-grow :
    (ph : Phase) (q q' : List Entry)
    → length q ≤ length q'
    → ((e : Entry) (r : List Entry)
        → is_important e.kind ≡ true
        → (e.kind ≡ response → e.topic ≡ mqtt_response_topic)
        → q ≡ e ∷ r
        → (r' : List Entry) × (q' ≡ e ∷ r'))
    → HeadKept ph q
    → HeadKept ph q'
HeadKept-grow (publishing e) q q' len head h =
    (omega arith, λ high. let (r, at) = h.1 high in head e r high h.2 at, h.2)
HeadKept-grow ready q q' len head h = tt
HeadKept-grow _ q q' len head h = tt

pub arrive-Inv :
    (n : ℕ) (p : Publisher) (new : Entry)
    → new.kind ≢ response
    → new.topic ≢ mqtt_response_topic
    → Inv n p
    → Inv (n + 1) (arrive new p)
unfolding arrive
arrive-Inv n p new nr nt v =
    let (count, grows, fits) = enqueue-accounts new p.outbox in
    record {
      ordered = (enqueue-important new p.outbox nr nt v.ordered).1;
      bounded = fits v.bounded;
      counted = omega (arith, v.counted);
      kept =
          HeadKept-grow p.phase p.queue (enqueue_entry new p.outbox).1.queue grows
            (λ e r high f at. enqueue_head e new high f nt r p.outbox at) v.kept;
      judged = v.judged;
      backoff_low = v.backoff_low;
      backoff_high = v.backoff_high;
    }

pub loop_top-Inv : (n : ℕ) (p : Publisher) (lte : Bool) → Inv n p → Inv n (loop_top lte p)
unfolding loop_top
loop_top-Inv n p lte v = elim (Bool-cases lte) [
  | inr off ↦ rw off (record {
    ordered = v.ordered;
    bounded = v.bounded;
    counted = v.counted;
    kept = tt;
    judged = v.judged;
    backoff_low = v.backoff_low;
    backoff_high = v.backoff_high;
  })
  | inl on ↦ elim (Bool-cases p.connected) [
    | inl up ↦
        rw (on, up)
          (record {
            ordered = v.ordered;
            bounded = v.bounded;
            counted = v.counted;
            kept = next-HeadKept p.queue v.ordered;
            judged = v.judged;
            backoff_low = v.backoff_low;
            backoff_high = v.backoff_high;
          })
    | inr down ↦
        rw (on, down)
          (record {
            ordered = v.ordered;
            bounded = v.bounded;
            counted = v.counted;
            kept = tt;
            judged = v.judged;
            backoff_low = v.backoff_low;
            backoff_high = v.backoff_high;
          })
  ]
]

pub connect_done-Inv : (n : ℕ) (p : Publisher) → Inv n p → Inv n (connect_done p)
unfolding connect_done
connect_done-Inv n p v = record {
  ordered = v.ordered;
  bounded = v.bounded;
  counted = v.counted;
  kept = next-HeadKept p.queue v.ordered;
  judged = v.judged;
  backoff_low = omega arith;
  backoff_high = omega arith;
}

pub recover-Inv : (n : ℕ) (p : Publisher) (exc : String) → Inv n p → Inv n (recover exc p)
unfolding recover
recover-Inv n p exc v = record {
  ordered = v.ordered;
  bounded = v.bounded;
  counted = v.counted;
  kept = tt;
  judged = v.judged;
  backoff_low = omega (arith, v.backoff_low);
  backoff_high = omega arith;
}

unfoldable pub published : Entry → List Entry → Publisher → Publisher
published e r p = record p {
  mqtt = record p.mqtt {
    outbox = record p.outbox { queue = r };
    published = p.published + 1;
    last_topic = some e.topic;
  };
  phase = ready;
}

pub publish_done-published :
    (e x : Entry) (r : List Entry) (p : Publisher)
    → p.queue ≡ x ∷ r
    → publish_done e p ≡ some (published e r p)
unfolding publish_done published
publish_done-published e x r p at = rw (at, pop_front)

queue_cases : (q : List Entry) → (q ≡ []) ⊎ ((x : Entry) × (r : List Entry) × (q ≡ x ∷ r))
queue_cases [] = inl refl
queue_cases (x ∷ r) = inr (x, r, refl)

IsOrdered-tail :
    (q : List Entry) (x : Entry) (r : List Entry) → q ≡ x ∷ r → IsOrdered q → IsOrdered r
IsOrdered-tail q x r at v = let w : IsOrdered (x ∷ r) = subst IsOrdered at v in w.2

published-Inv :
    (n : ℕ) (p : Publisher) (e x : Entry) (r : List Entry)
    → p.queue ≡ x ∷ r
    → Inv n p
    → Inv n (published e r p)
unfolding published
published-Inv n p e x r at v = record {
  ordered = IsOrdered-tail p.queue x r at v.ordered;
  bounded = omega (arith, v.bounded, ap length at);
  counted = omega (arith, v.counted, ap length at);
  kept = tt;
  judged = v.judged;
  backoff_low = v.backoff_low;
  backoff_high = v.backoff_high;
}

-- While an entry is being published the queue is not empty, so `pop(0)` succeeds.
pub publish_pops :
    (n : ℕ) (p : Publisher) (e : Entry)
    → p.phase ≡ publishing e
    → Inv n p
    → (x : Entry) × (r : List Entry) × (p.queue ≡ x ∷ r)
publish_pops n p e ph v =
    let k : HeadKept (publishing e) p.queue = subst (λ t. HeadKept t p.queue) ph v.kept in
    elim (queue_cases p.queue) [
      | inl none_left ↦ absurd (omega (arith, k.0, ap length none_left))
      | inr found ↦ found
    ]

pub publish_done-Inv :
    (n : ℕ) (p p' : Publisher) (e : Entry)
    → p.phase ≡ publishing e
    → publish_done e p ≡ some p'
    → Inv n p
    → Inv n p'
publish_done-Inv n p p' e ph done v =
    let (x, r, at) = publish_pops n p e ph v in
    let same : published e r p ≡ p' = cc (publish_done-published e x r p at) in
    subst (Inv n) same (published-Inv n p e x r at v)

priority-keeps :
    (payload : String) (o : Outbox)
    → IsOrdered o.queue
    → IsOrdered (enqueue_priority mqtt_response_topic payload o).1.queue
      × Accounts o (enqueue_priority mqtt_response_topic payload o).1
unfolding enqueue_priority
priority-keeps payload o v =
    let new : Entry = record { topic = mqtt_response_topic; payload = payload; kind = response } in
    (
      (enqueue_important_lem new o (unfold is_important in refl)
          (record { responds = λ _. refl; reports = λ h. absurd (h refl) }) v).2,
      enqueue_important-Accounts new o,
    )

module _ {N : Type 0} (dumps : MqttManager → Verdict N → String) where
  pub respond-Inv :
      (n : ℕ) (p : Publisher) (verdict : Verdict N)
      → Inv n p
      → Inv (n + handed verdict) (record p { mqtt = respond dumps verdict p.mqtt; phase = ready })
  unfolding respond
  respond-Inv n p ignored v = record {
    ordered = v.ordered;
    bounded = v.bounded;
    counted = omega (arith, v.counted);
    kept = tt;
    judged = v.judged;
    backoff_low = v.backoff_low;
    backoff_high = v.backoff_high;
  }
  respond-Inv n p (accepted request_id) v =
      let (ordered', (count, grows, fits)) =
        priority-keeps (dumps p.mqtt (accepted request_id)) p.outbox v.ordered in
      record {
        ordered = ordered';
        bounded = fits v.bounded;
        counted = omega (arith, v.counted);
        kept = tt;
        judged = omega (arith, v.judged);
        backoff_low = v.backoff_low;
        backoff_high = v.backoff_high;
      }
  respond-Inv n p (rejected request_id error) v =
      let (ordered', (count, grows, fits)) =
        priority-keeps (dumps p.mqtt (rejected request_id error)) p.outbox v.ordered in
      record {
        ordered = ordered';
        bounded = fits v.bounded;
        counted = omega (arith, v.counted);
        kept = tt;
        judged = omega (arith, v.judged);
        backoff_low = v.backoff_low;
        backoff_high = v.backoff_high;
      }

-- A step that hands over nothing.
pub zero_step : (n : ℕ) (p : Publisher) → Inv n p → Inv (n + 0) p
zero_step n p v = subst (λ m. Inv m p) (sym (add-zero n)) v

pub same_head :
    (q : List Entry) (e x : Entry) (r r' : List Entry) → q ≡ x ∷ r → q ≡ e ∷ r' → q ≡ e ∷ r
same_head q e x r r' a b = cc
