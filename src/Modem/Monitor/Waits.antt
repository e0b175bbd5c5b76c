-- ===== src/Modem/Monitor/Waits.antt =====
-- `_wait_for_modem` of modem_manager.py comes to an end.
use connected_vehicle_health.Prelude.{
  ℕ, zero, suc, ◌+◌, ◌-◌, ◌*◌, ◌≤◌, ◌<◌, ◌≡◌, refl, Bool, true, false, Option, some, ltb, arith,
  Bool-cases, inl, inr,
}
use connected_vehicle_health.Config.{modem_startup_timeout_seconds}
use connected_vehicle_health.Method.{ok}
use connected_vehicle_health.Modem.Line.{Line}
use connected_vehicle_health.Modem.Monitor.{has_ok, wait_loop, wait_for_modem}

module _ (line : Line) where
  open line use {S, command, sleep, ticks, command_keeps, sleep_moves}

  -- The loop has come to an end: it found the modem, or the time is over.
  abbrev Waited : ℕ → Option (Bool × S) → Type 0
  Waited deadline r =
      (found : Bool) × (s' : S) × (r ≡ some (found, s')) × (found ≡ false → deadline ≤ ticks s')

  wait_loop-Waited :
      (deadline fuel : ℕ) (s : S)
      → deadline - ticks s < fuel
      → Waited deadline (wait_loop line deadline fuel s)
  unfolding wait_loop
  wait_loop-Waited deadline zero s enough = absurd (omega (arith, enough))
  wait_loop-Waited deadline (suc fuel) s enough =
      let answer = command "AT" 1000 false s in
      elim (Bool-cases (ltb (ticks s) deadline)) [
        | inr late ↦ rw late (false, s, refl, λ _. ground arith)
        | inl early ↦ elim (Bool-cases (has_ok answer.0)) [
          | inl found ↦ rw (early, found) (true, answer.1, refl, λ t. absurd (ground (arith, t)))
          | inr silent ↦
              rw (early, silent)
                (wait_loop-Waited deadline fuel (sleep 500 answer.1)
                  (ground (arith, command_keeps "AT" 1000 false s, sleep_moves 500 answer.1)))
        ]
      ]

  -- A wait for the modem does not run on: it finds the modem, or it ends when the start-up time of
  -- MODEM_STARTUP_TIMEOUT_SECONDS is over.
  pub wait_for_modem-ends :
      (s : S)
      → (found : Bool) × (s' : S) × (wait_loop line
            (ticks s + modem_startup_timeout_seconds * 1000)
            (suc (modem_startup_timeout_seconds * 1000))
            s
          ≡ some (found, s'))
        × (wait_for_modem line s ≡ (ok found, s'))
        × (found ≡ false → ticks s + modem_startup_timeout_seconds * 1000 ≤ ticks s')
  unfolding wait_for_modem
  wait_for_modem-ends s =
      let timeout = modem_startup_timeout_seconds * 1000 in
      let (found, s', done, over) =
        wait_loop-Waited (ticks s + timeout) (suc timeout) s (omega arith) in
      (found, s', done, rw (wait_for_modem, done) refl, over)
