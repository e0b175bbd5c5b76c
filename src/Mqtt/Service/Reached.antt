-- ===== src/Mqtt/Service/Reached.antt =====
-- What every schedule of the publishing task of mqtt_manager.py leads to.
use connected_vehicle_health.Prelude.{
  ℕ, ◌+◌, ◌≤◌, ◌≡◌, ◌⊎◌, subst, String, true, Option, none, some, ◌∷◌, arith, length,
}
use connected_vehicle_health.Config.{mqtt_queue_capacity, mqtt_reconnect_max_seconds}
use connected_vehicle_health.Json.{Value}
use connected_vehicle_health.Mqtt.Queue.{Entry, is_important}
use connected_vehicle_health.Mqtt.Queue.Account.{accounted}
use connected_vehicle_health.Mqtt.Queue.Important.{IsOrdered}
use connected_vehicle_health.Mqtt.Service.{
  MqttManager, Publisher, publishing, loop_top, connect_done, publish_done, recover, Verdict,
  judge_event, read_done,
}
use connected_vehicle_health.Mqtt.Service.Runs.{
  answers, Step, arrives, loops, connects, publishes, fails, reads, Reach, here, next, HeadKept,
  Inv,
}
use connected_vehicle_health.Mqtt.Service.Invariant.{
  respond-Inv, start-Inv, arrive-Inv, loop_top-Inv, connect_done-Inv, recover-Inv, published,
  publish_done-published, publish_pops, publish_done-Inv, zero_step, same_head,
}

module _ {N : Type 0} (parse : String → Value N ⊎ String)
    (dumps : MqttManager → Verdict N → String) where
  read_done-Inv :
      (n : ℕ) (p : Publisher) (received : Option (Option String × Option String))
      → Inv n p
      → Inv (n + answers parse dumps received) (read_done parse dumps received p)
  unfolding read_done
  read_done-Inv n p none v = record {
    ordered = v.ordered;
    bounded = v.bounded;
    counted = omega (arith, v.counted);
    kept = tt;
    judged = v.judged;
    backoff_low = v.backoff_low;
    backoff_high = v.backoff_high;
  }
  read_done-Inv n p (some (topic, payload)) v =
      respond-Inv dumps n p (judge_event parse topic payload) v

  Step-Inv : {k : ℕ} {p p' : Publisher} (n : ℕ) → Step parse dumps k p p' → Inv n p → Inv (n + k) p'
  Step-Inv n (arrives p new nr nt) v = arrive-Inv n p new nr nt v
  Step-Inv n (loops p lte ph) v = zero_step n (loop_top lte p) (loop_top-Inv n p lte v)
  Step-Inv n (connects p ph) v = zero_step n (connect_done p) (connect_done-Inv n p v)
  Step-Inv n (publishes p p' e ph done) v = zero_step n p' (publish_done-Inv n p p' e ph done v)
  Step-Inv n (fails p exc ph) v = zero_step n (recover exc p) (recover-Inv n p exc v)
  Step-Inv n (reads p received ph) v = read_done-Inv n p received v

  Reach-Inv : {n : ℕ} {p : Publisher} → Reach parse dumps n p → Inv n p
  Reach-Inv here = start-Inv
  Reach-Inv (next {n = n} r st) = Step-Inv n st (Reach-Inv r)

  -- However the tasks are interleaved, and whatever fails: when `n` messages have been handed to the
  -- queue, each is queued, dropped, coalesced or counted as published. The queue is within its
  -- capacity, with the events and responses in front; the back-off lies between 5 seconds and the
  -- configured maximum; and no more commands were rejected than received.
  pub Reach-accounts :
      {n : ℕ} {p : Publisher}
      → Reach parse dumps n p
      → (accounted p.outbox + p.published ≡ n)
        × (length p.queue ≤ mqtt_queue_capacity)
        × IsOrdered p.queue
        × (5 ≤ p.delay)
        × (p.delay ≤ mqtt_reconnect_max_seconds)
        × (p.commands_rejected ≤ p.commands_received)
  Reach-accounts r =
      let v = Reach-Inv r in
      (v.counted, v.bounded, v.ordered, v.backoff_low, v.backoff_high, v.judged)

  -- However the tasks are interleaved: when a publication returns, `pop(0)` finds an entry, and
  -- what is left is the queue without it.
  pub Reach-pops :
      {n : ℕ} {p : Publisher} (e : Entry)
      → Reach parse dumps n p
      → p.phase ≡ publishing e
      → (p' : Publisher) × (x : Entry) × (publish_done e p ≡ some p') × (p.queue ≡ x ∷ p'.queue)
  unfolding published
  Reach-pops {n} {p} e r ph =
      let (x, rest, at) = publish_pops n p e ph (Reach-Inv r) in
      (published e rest p, x, publish_done-published e x rest p at, at)

  -- However the tasks are interleaved: when the publication of an event or a response returns, the
  -- entry that is popped is the one that was published.
  pub Reach-publish :
      {n : ℕ} {p : Publisher} (e : Entry)
      → Reach parse dumps n p
      → p.phase ≡ publishing e
      → is_important e.kind ≡ true
      → (p' : Publisher) × (publish_done e p ≡ some p') × (p.queue ≡ e ∷ p'.queue)
  Reach-publish {n} {p} e r ph high =
      let (p', x, done, at) = Reach-pops e r ph in
      let k : HeadKept (publishing e) p.queue =
        subst (λ t. HeadKept t p.queue) ph (Reach-Inv r).kept in
      let (r', head) = k.1 high in (p', done, same_head p.queue e x p'.queue r' at head)
