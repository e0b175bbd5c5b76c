-- ===== src/Tcp/Server/Intake.antt =====
-- What a stream of messages does to the services of the gateway.
use connected_vehicle_health.Prelude.{
  ℕ, suc, ◌+◌, map, false, true, if◌then◌else◌, ◌≤◌, ◌≡◌, refl, ap, subst, ◌∙◌, String, Bool,
  Option, none, some, List, [], ◌∷◌, length, leb, arith, Bool-cases, Option-cases, inl, inr,
}
use connected_vehicle_health.Prelude.Int.{ℤ, at_least_zero}
use connected_vehicle_health.Config.{mqtt_queue_capacity}
use connected_vehicle_health.Method.{Result, ok, raised}
use connected_vehicle_health.Json.{Value, null, as_dict}
use connected_vehicle_health.Devices.Bounds.{IsValid, update-IsValid}
use connected_vehicle_health.Mqtt.Queue.{Outbox, enqueue, enqueue_entry, entry_of}
use connected_vehicle_health.Mqtt.Queue.Account.{enqueue-accounts}
use connected_vehicle_health.Tcp.Server.{
  TcpServer, Gateway, is_present, update_rate, note_packet, queue_message, accept, receive_message,
  client_error, check_json,
}

-- A queue, if there is one, within its capacity.
abbrev pub Fits : Option Outbox → Type 0
Fits none = Unit
Fits (some o) = length o.queue ≤ mqtt_queue_capacity

-- The registry is valid and the queue within its capacity.
pub record IsSound {R : Type 0} (g : Gateway R) : Type 0 where
  pub registry : IsValid g.devices
  pub queued : Fits g.mqtt

-- A message, as it is received: what its reading and decoding, its parsing and the writing of its
-- acknowledgement give.
pub record Packet (N : Type 0) : Type 0 where
  pub ticks : ℕ
  pub now : String
  pub ip : String
  pub decoded : Result String
  pub parsed : Option (Value N)
  pub sent : Result (Unit {0})

-- The text is decoded and its acknowledgement is sent.
abbrev pub is_taken : {A B : Type 0} → Result A → Result B → Bool
is_taken (ok payload) (ok _) = true
is_taken (ok payload) (raised error) = false
is_taken (raised error) sent = false

-- The messages of which that holds.
abbrev pub taken_of : {N : Type 0} → List (Packet N) → ℕ
taken_of [] = 0
taken_of (p ∷ ps) = if is_taken p.decoded p.sent then suc (taken_of ps) else taken_of ps

module _ {R N : Type 0} (rate : ℕ → ℕ → R) (zero_rate : R) (ticks_diff : ℕ → ℕ → ℤ)
    (render : Value N → String) (exc : String) where
  -- The messages of all the connections, in the order in which they are answered, and for each
  -- whether its connection goes on.
  unfoldable pub receive_all : List (Packet N) → Gateway R → List Bool × Gateway R
  unfolding receive_message
  receive_all [] g = ([], g)
  receive_all (p ∷ ps) g =
      let (goes_on, g') =
        receive_message rate zero_rate ticks_diff render exc p.ticks p.now p.ip p.decoded p.parsed
          p.sent g in
      let (rest, g'') = receive_all ps g' in (goes_on ∷ rest, g'')

  enqueue-fits :
      (payload : String) (parsed : Value N) (o : Outbox) (accepted : Bool) (o' : Outbox)
      → length o.queue ≤ mqtt_queue_capacity
      → enqueue render payload parsed o ≡ some (accepted, o')
      → length o'.queue ≤ mqtt_queue_capacity
  unfolding enqueue
  enqueue-fits payload parsed o accepted o' low h = elim (Option-cases (as_dict parsed)) [
    | inl e ↦ absurd (ground (arith, h, e))
    | inr (fields, e) ↦
        let (count, grows, fits) = enqueue-accounts (entry_of render payload fields) o in
        let same : enqueue_entry (entry_of render payload fields) o ≡ (accepted, o') =
          ground (arith, h, e) in
        omega (arith, fits low, ap (λ r. length r.1.queue) same)
  ]

  -- The gateway after a message has been queued; the rest of it is as it was.
  abbrev Queued : Gateway R → Gateway R → Type 0
  Queued g g' = IsSound g' × (g'.tcp ≡ g.tcp)

  queue_message-Queued :
      (payload : String) (parsed : Value N) (g : Gateway R)
      → IsSound g
      → Queued g (queue_message rate zero_rate ticks_diff render exc payload parsed g)
  unfolding queue_message
  queue_message-Queued payload parsed g v = elim (Option-cases g.mqtt) [
    | inl e ↦ rw e (record { registry = v.registry; queued = tt }, refl)
    | inr (outbox, e) ↦
        let low : length outbox.queue ≤ mqtt_queue_capacity = subst Fits e v.queued in
        elim (Bool-cases (is_present parsed)) [
          | inr absent ↦ rw (e, absent) (record { registry = v.registry; queued = low }, refl)
          | inl present ↦ elim (Option-cases (enqueue render payload parsed outbox)) [
            | inl h ↦ rw (e, present, h) (record { registry = v.registry; queued = low }, refl)
            | inr ((accepted, outbox'), h) ↦
                let fits = enqueue-fits payload parsed outbox accepted outbox' low h in
                rw (e, present, h) (record { registry = v.registry; queued = fits }, refl)
          ]
        ]
  ]

  note_packet-count :
      (ticks : ℕ) (now ip payload : String) (t : TcpServer R)
      → TcpServer.packet_count (note_packet rate zero_rate ticks_diff ticks now ip payload t)
        ≡ t.packet_count + 1
  unfolding note_packet update_rate
  note_packet-count ticks now ip payload t =
      elim (Bool-cases (leb 1000 (at_least_zero (ticks_diff ticks t.rate_started)))) [
        | inl h ↦ rw h refl
        | inr h ↦ rw h refl
      ]

  -- A message leaves the gateway sound and is counted once.
  abbrev Counted : ℕ → Gateway R → Gateway R → Type 0
  Counted n g g' = IsSound g' × (g'.tcp.packet_count ≡ g.tcp.packet_count + n)

  accept-Counted :
      (ticks : ℕ) (now ip payload : String) (parsed : Value N) (g : Gateway R)
      → IsSound g
      → Counted 1 g (accept rate zero_rate ticks_diff render exc ticks now ip payload parsed g)
  unfolding accept
  accept-Counted ticks now ip payload parsed g v =
      let (sound, same) = queue_message-Queued payload parsed _ (record {
        registry = update-IsValid render now ip payload parsed g.devices v.registry;
        queued = v.queued;
      }) in
      (sound, ap TcpServer.packet_count same ∙ note_packet-count ticks now ip payload g.tcp)

  added :
      (taken : Bool) (old now end rest : ℕ)
      → now ≡ old + (if taken then 1 else 0)
      → end ≡ now + rest
      → end ≡ old + (if taken then suc rest else rest)
  added true old now end rest count total = omega (arith, count, total)
  added false old now end rest count total = omega (arith, count, total)

  -- A message is counted if it is taken, and else its connection ends.
  abbrev Received : Bool → Gateway R → Bool × Gateway R → Type 0
  Received taken g r = (r.0 ≡ taken) × Counted (if taken then 1 else 0) g r.1

  client_error-Received :
      (ip error : String) (g : Gateway R)
      → IsSound g
      → Received false g (false, client_error rate zero_rate ticks_diff render exc ip error g)
  unfolding client_error
  client_error-Received ip error g v =
      (refl, (record { registry = v.registry; queued = v.queued }, omega arith))

  receive_message-Received :
      (ticks : ℕ) (now ip : String) (decoded : Result String) (parsed : Option (Value N))
      (sent : Result (Unit {0})) (g : Gateway R)
      → IsSound g
      → Received
          (is_taken decoded sent)
          g
          (receive_message rate zero_rate ticks_diff render exc ticks now ip decoded parsed sent g)
  unfolding receive_message check_json
  receive_message-Received ticks now ip (raised error) parsed sent g v =
      client_error-Received ip error g v
  receive_message-Received ticks now ip (ok payload) none (raised error) g v =
      client_error-Received ip error _ (record { registry = v.registry; queued = v.queued })
  receive_message-Received ticks now ip (ok payload) (some parsed) (raised error) g v =
      client_error-Received ip error g v
  receive_message-Received ticks now ip (ok payload) none (ok done) g v = (
    refl,
    accept-Counted ticks now ip payload null _
        (record { registry = v.registry; queued = v.queued }),
  )
  receive_message-Received ticks now ip (ok payload) (some parsed) (ok done) g v =
      (refl, accept-Counted ticks now ip payload parsed g v)

  -- Whatever messages arrive from whatever clients, valid JSON or not, decoded or not, and whether
  -- or not their acknowledgements can be sent: the registry stays valid and the queue within its
  -- capacity. The server counts once each message that is decoded and acknowledged, and no other,
  -- and the connection goes on after these alone.
  pub receive_all-counts :
      (ps : List (Packet N)) (g : Gateway R)
      → IsSound g
      → IsSound (receive_all ps g).1
        × (TcpServer.packet_count (Gateway.tcp (receive_all ps g).1)
            ≡ g.tcp.packet_count + taken_of ps)
        × ((receive_all ps g).0 ≡ map (λ p. is_taken p.decoded p.sent) ps)
  unfolding receive_all
  receive_all-counts [] g v = (v, omega arith, refl)
  receive_all-counts (p ∷ ps) g v =
      let taken = is_taken p.decoded p.sent in
      let (goes_on, (sound, count)) =
        receive_message-Received p.ticks p.now p.ip p.decoded p.parsed p.sent g v in
      let (all_sound, total, flags) = receive_all-counts ps _ sound in
      (all_sound, added taken _ _ _ _ count total, λ i. goes_on i ∷ flags i)
