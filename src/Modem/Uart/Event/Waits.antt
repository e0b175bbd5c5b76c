-- ===== src/Modem/Uart/Event/Waits.antt =====
-- When the wait of `read_mqtt_event` of modem_manager.py comes to an end, and when it does not.
use connected_vehicle_health.Prelude.{
  ℕ, zero, suc, ◌+◌, ◌-◌, ◌*◌, ◌≤◌, ◌<◌, ◌≡◌, refl, String, true, false, Option, none, some, List,
  [], ◌∷◌, ◌++◌, ltb, arith, Bool-cases, Option-cases, inl, inr, ap,
}
use connected_vehicle_health.Modem.Uart.{Port}
use connected_vehicle_health.Modem.Uart.Ends.{IsClock}
use connected_vehicle_health.Modem.Uart.Event.{
  Waiting, has_start, has_end, take_event, finished, event_pass, event_loop, waiting_from,
}

-- A bound on the passes that are left, for `left` chunks that are still to come.
abbrev passes_left : ℕ → ℕ → ℕ → ℕ
passes_left deadline now left = deadline - now + left * 3001

module _ (port : Port) where
  open port use {S, now, read, sleep, decode}

  -- The chunks come to an end: `left` says how many are still to come.
  pub record IsFinite (left : S → ℕ) : Type 0 where
    pub silent : (s : S) → left (read s).1 ≤ left s
    pub spoken :
        (s : S) (b : ℕ) (bs : List ℕ) → (read s).0 ≡ some (b ∷ bs) → left (read s).1 < left s
    pub asleep : (s : S) → left (sleep 10 s) ≤ left s

  module _ (clock : IsClock port) (left : S → ℕ) (finite : IsFinite left) where
    pass-shrinks :
        (s : S) (chunk : Option (List ℕ)) (w : Waiting)
        → (read s).0 ≡ chunk
        → now s < w.deadline
        → passes_left
            (event_pass port (now (read s).1) chunk w).0.deadline
            (now (sleep 10 (read s).1))
            (left (sleep 10 (read s).1))
          < passes_left w.deadline (now s) (left s)
    unfolding event_pass take_event
    pass-shrinks s none w at early = omega (
      arith,
      early,
      clock.read_keeps s,
      clock.sleep_moves 10 (read s).1,
      finite.silent s,
      finite.asleep (read s).1,
    )
    pass-shrinks s (some []) w at early = omega (
      arith,
      early,
      clock.read_keeps s,
      clock.sleep_moves 10 (read s).1,
      finite.silent s,
      finite.asleep (read s).1,
    )
    pass-shrinks s (some (b ∷ bs)) w at early =
        elim (Bool-cases (has_start (decode (w.response ++ b ∷ bs)))) [
          | inl opened ↦ rw opened (
              omega (
                arith,
                early,
                clock.read_keeps s,
                clock.sleep_moves 10 (read s).1,
                finite.spoken s b bs at,
                finite.asleep (read s).1,
              ))
          | inr closed ↦ rw closed (
              omega (
                arith,
                early,
                clock.read_keeps s,
                clock.sleep_moves 10 (read s).1,
                finite.spoken s b bs at,
                finite.asleep (read s).1,
              ))
        ]

    abbrev Ended : Option (Option String × S) → Type 0
    Ended r = (event : Option String) × (s' : S) × (r ≡ some (event, s'))

    event_loop-Ended :
        (fuel : ℕ) (w : Waiting) (s : S)
        → passes_left w.deadline (now s) (left s) < fuel
        → Ended (event_loop port fuel w s)
    unfolding event_loop
    event_loop-Ended zero w s enough = absurd (omega (arith, enough))
    event_loop-Ended (suc fuel) w s enough =
        let pass = event_pass port (now (read s).1) (read s).0 w in
        elim (Bool-cases (ltb (now s) w.deadline)) [
          | inr late ↦ rw late (none, s, refl)
          | inl early ↦ elim (Option-cases pass.1) [
            | inr (text, found) ↦ rw (early, found) (some text, (read s).1, refl)
            | inl waiting ↦
                rw (early, waiting)
                  (event_loop-Ended fuel pass.0 (sleep 10 (read s).1) (
                    omega
                      (arith, enough, pass-shrinks s (read s).0 w refl (ground (arith, early)))))
          ]
        ]

    -- When only finitely many chunks are still to come, `read_mqtt_event` ends: it returns an event
    -- or nothing, within one pass for each millisecond of its timeout and 3001 for each chunk.
    pub read_mqtt_event-ends :
        (timeout : ℕ) (s : S)
        → Ended (event_loop port (suc (timeout + left s * 3001)) (waiting_from port timeout s) s)
    unfolding waiting_from
    read_mqtt_event-ends timeout s =
        event_loop-Ended (suc (timeout + left s * 3001)) (waiting_from port timeout s) s
          (omega arith)

  -- Bytes that keep coming: what is read is never empty, and with it the text has the start of an
  -- event and no end.
  pub record IsFlood (P : List ℕ → Type 0) : Type 0 where
    pub speaks :
        (s : S)
        → (b : ℕ) × (bs : List ℕ) × ((read s).0 ≡ some (b ∷ bs))
          × ((r : List ℕ)
              → P r
              → P (r ++ b ∷ bs)
                × (has_start (decode (r ++ b ∷ bs)) ≡ true)
                × (has_end (decode (r ++ b ∷ bs)) ≡ false))
    pub prompt : (s : S) → now (sleep 10 (read s).1) < now (read s).1 + 3000

  module _ (P : List ℕ → Type 0) (flood : IsFlood P) where
    flood_pass :
        (chunk : Option (List ℕ)) (b : ℕ) (bs : List ℕ) (time : ℕ) (w : Waiting)
        → chunk ≡ some (b ∷ bs)
        → has_start (decode (w.response ++ b ∷ bs)) ≡ true
        → has_end (decode (w.response ++ b ∷ bs)) ≡ false
        → event_pass port time chunk w ≡ (
          record { deadline = time + 3000; response = w.response ++ b ∷ bs; started = true },
          none,
        )
    unfolding event_pass
    flood_pass chunk b bs time w at opened open_end =
        rw (at, take_event, finished, opened, open_end) refl

    -- If every read gives a chunk, with each chunk the text that has come has the start of an event
    -- and still no end of one (IsFlood, for any texts `P` that the chunks lead to from one to the
    -- next), and a pause of 10 milliseconds takes less than three seconds, then a wait that is not
    -- yet past its deadline does not end, whatever the deadline is: no number of passes is enough.
    pub read_mqtt_event-starves :
        (fuel : ℕ) (w : Waiting) (s : S)
        → P w.response
        → now s < w.deadline
        → event_loop port fuel w s ≡ none
    unfolding event_loop
    read_mqtt_event-starves zero w s p early = refl
    read_mqtt_event-starves (suc fuel) w s p early =
        let (b, bs, at, grows) = flood.speaks s in
        let (p', opened, open_end) = grows w.response p in
        let before : ltb (now s) w.deadline ≡ true = ground (arith, early) in
        let next : Waiting = record {
          deadline = now (read s).1 + 3000;
          response = w.response ++ b ∷ bs;
          started = true;
        } in
        let pass = event_pass port (now (read s).1) (read s).0 w in
        let whole = flood_pass (read s).0 b bs (now (read s).1) w at opened open_end in
        let unfinished : pass.1 ≡ none = ap (λ x. x.1) whole in
        let after : pass.0 ≡ next = ap (λ x. x.0) whole in
        rw (before, unfinished, after)
          (read_mqtt_event-starves fuel next (sleep 10 (read s).1) p' (flood.prompt s))
