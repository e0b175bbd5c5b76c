-- ===== src/Modem/Monitor.antt =====
-- `ModemManager.start` of modem_manager.py: the first check, the passes of its loop, and the waiting
-- for the modem.
pub mod Steady
pub mod Waits
use Prim.Native.String.{◌++◌}
use connected_vehicle_health.Prelude.{
  ℕ, zero, suc, ◌+◌, ◌-◌, ◌*◌, String, Bool, true, false, not, ◌&&◌, Option, none, some, List, [],
  ◌∷◌, leb, ltb, if◌then◌else◌,
}
use connected_vehicle_health.Config.{
  modem_startup_timeout_seconds, modem_internet_test_interval_seconds,
}
use connected_vehicle_health.Text.Search.{occurs_in}
use connected_vehicle_health.Method.{
  Result, ok, raised, Method, ◌>>=◌, ◌>>◌, pure, raise, gets, look, modify, log, info, warning,
  error, when, branch, handle, on_line,
}
use connected_vehicle_health.Modem.{ModemManager}
use connected_vehicle_health.Modem.Line.{Line}
use connected_vehicle_health.Modem.Attach.{configure_and_check}
use connected_vehicle_health.Modem.Internet.{test_internet, start_internet_test, internet_test_task}

-- `"OK" in response`, for a command that may have raised.
unfoldable pub has_ok : Result String → Bool
unfolding occurs_in
has_ok (ok response) = occurs_in "OK" response
has_ok (raised exc) = false

-- Whether a test is due: there was none, or the last was long enough ago.
unfoldable pub is_due : Option ℕ → ℕ → Bool
is_due none now = true
is_due (some last) now = leb (modem_internet_test_interval_seconds * 1000) (now - last)

-- What happens to a manager, one after the other.
pub data Event : Type 0 where
  passed requested : Event

module _ (line : Line) where
  open line use {S, command, initialize, power_key, sleep, ticks}

  -- The loop of `_wait_for_modem`, for at most `fuel` passes.
  unfoldable pub wait_loop : ℕ → ℕ → S → Option (Bool × S)
  unfolding has_ok
  wait_loop deadline zero s = none
  wait_loop deadline (suc fuel) s =
      let more = wait_loop deadline fuel (sleep 500 (command "AT" 1000 false s).1) in
      if ltb (ticks s) deadline
      then (if has_ok (command "AT" 1000 false s).0
          then some (true, (command "AT" 1000 false s).1)
          else more)
      else some (false, s)

  -- `_wait_for_modem`; the loop ends within one pass for each millisecond, and one more.
  unfoldable pub wait_for_modem : S → Result Bool × S
  unfolding wait_loop
  wait_for_modem s =
      let timeout = modem_startup_timeout_seconds * 1000 in
      elim (wait_loop (ticks s + timeout) (suc timeout) s) [
        | none ↦ (ok false, s)
        | some (found, s') ↦ (ok found, s')
      ]

  -- `_record_error`
  unfoldable pub record_error : String → Method ModemManager S (Unit {0})
  record_error exc = do
    modify (λ m. record m { last_error = some exc })
    log (error ("LTE modem: " ++ exc))

  -- A call that returns nothing and does not raise.
  abbrev pub run_on_line : (S → S) → Method ModemManager S (Unit {0})
  run_on_line f = on_line (λ s. (ok tt, f s))

  -- The first `try` of `start`.
  unfoldable pub first_check : Method ModemManager S (Unit {0})
  unfolding wait_for_modem configure_and_check
  first_check = do
    run_on_line initialize
    found ← on_line wait_for_modem
    when (not found) (do
      log (warning "LTE modem did not answer; applying PWRKEY sequence")
      run_on_line power_key)
    again ← on_line wait_for_modem
    branch again
        (do
          modify (λ m. record m { responding = true })
          log (info "LTE modem responding")
          configure_and_check line)
        (raise "A7670 did not respond to AT commands")

  -- `start`, up to its loop.
  unfoldable pub begin : Method ModemManager S (Unit {0})
  unfolding first_check record_error
  begin = do modify (λ m. record m { running = true }); handle first_check record_error

  -- The recovery of a modem that did not respond.
  unfoldable pub reconnect : Method ModemManager S (Unit {0})
  unfolding wait_for_modem
  reconnect = do
    modify (λ m. record m { reconnect_count = m.reconnect_count + 1 })
    found ← on_line wait_for_modem
    modify (λ m. record m { responding = found })
    when found (modify (λ m. record m { pdp_configured = false }))

  -- The check of a modem that responds, and the test of the internet if it is due.
  unfoldable pub check_and_test : Method ModemManager S (Unit {0})
  unfolding configure_and_check is_due test_internet
  check_and_test = do
    configure_and_check line
    now ← look ticks
    m ← gets (λ m. m)
    when (m.data_active && is_due m.last_test_ticks now) (test_internet line)

  -- The `try` of a pass of the loop.
  unfoldable pub try_pass : Method ModemManager S (Unit {0})
  unfolding reconnect check_and_test
  try_pass = do
    responds ← gets (λ m. m.responding)
    when (not responds) reconnect
    ready ← gets (λ m. m.responding)
    when ready check_and_test

  -- A pass of the loop.
  unfoldable pub monitor_pass : Method ModemManager S (Unit {0})
  unfolding try_pass record_error
  monitor_pass =
      handle try_pass (λ exc. do modify (λ m. record m { responding = false }); record_error exc)

  -- A request for a test by the web server, with the task that it starts.
  unfoldable pub requested_test : Method ModemManager S (Unit {0})
  unfolding start_internet_test internet_test_task
  requested_test = do started ← start_internet_test line; when started (internet_test_task line)

  unfoldable pub run : List Event → Method ModemManager S (Unit {0})
  unfolding monitor_pass requested_test
  run [] = pure tt
  run (passed ∷ events) = monitor_pass >> run events
  run (requested ∷ events) = requested_test >> run events

  -- `start`, as far as the given events; the first of its passes comes first.
  unfoldable pub serve : List Event → Method ModemManager S (Unit {0})
  unfolding begin monitor_pass run
  serve events = do begin; monitor_pass; run events
