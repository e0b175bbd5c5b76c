-- ===== src/Modem/Uart/Event.antt =====
-- `read_mqtt_event` of modem_manager.py: the wait for an event that the modem reports by itself.
pub mod Waits
mod Tests
use connected_vehicle_health.Prelude.{
  ℕ, zero, suc, ◌+◌, String, Bool, true, false, ◌&&◌, ◌||◌, Option, none, some, List, [], ◌∷◌, ◌++◌,
  ltb, if◌then◌else◌,
}
use connected_vehicle_health.Text.Search.{occurs_in}
use connected_vehicle_health.Modem.Uart.{Port}

-- The local variables of the loop.
pub record Waiting : Type 0 where
  pub deadline : ℕ
  pub response : List ℕ
  pub started : Bool

unfoldable pub has_start : String → Bool
unfolding occurs_in
has_start text = occurs_in "+CMQTTRXSTART:" text

unfoldable pub has_end : String → Bool
unfolding occurs_in
has_end text = occurs_in "+CMQTTRXEND:" text

module _ (port : Port) where
  open port use {S, now, read, sleep, decode}

  -- What a chunk that is not empty changes, at the given time.
  unfoldable pub take_event : ℕ → List ℕ → Waiting → Waiting
  unfolding has_start
  take_event time chunk w =
      let text = decode (w.response ++ chunk) in
      record {
        deadline = if has_start text then time + 3000 else w.deadline;
        response = w.response ++ chunk;
        started = has_start text || w.started;
      }

  -- The event, if it is complete.
  unfoldable pub finished : Waiting → Option String
  unfolding has_end
  finished w = if w.started && has_end (decode w.response) then some (decode w.response) else none

  -- A pass of the loop: the variables after it, and the event if there is one.
  unfoldable pub event_pass : ℕ → Option (List ℕ) → Waiting → Waiting × Option String
  unfolding take_event finished
  event_pass time none w = (w, none)
  event_pass time (some []) w = (w, none)
  event_pass time (some (b ∷ bs)) w =
      (take_event time (b ∷ bs) w, finished (take_event time (b ∷ bs) w))

  -- The loop, for at most `fuel` passes.
  unfoldable pub event_loop : ℕ → Waiting → S → Option (Option String × S)
  unfolding event_pass
  event_loop zero w s = none
  event_loop (suc fuel) w s =
      let (chunk, s') = read s in
      let (w', event) = event_pass (now s') chunk w in
      let more = event_loop fuel w' (sleep 10 s') in
      if ltb (now s) w.deadline
      then (elim event [ none ↦ more | some text ↦ some (some text, s') ])
      else some (none, s)

  -- The variables at the start, for a timeout in milliseconds.
  unfoldable pub waiting_from : ℕ → S → Waiting
  waiting_from timeout s = record { deadline = now s + timeout; response = []; started = false }
