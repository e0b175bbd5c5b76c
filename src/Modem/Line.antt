-- ===== src/Modem/Line.antt =====
-- What a ModemManager uses of its line to the modem, of the board's clock and of MicroPython.
use connected_vehicle_health.Prelude.{ℕ, ◌+◌, ◌≤◌, String, Bool, Option}
use connected_vehicle_health.Prelude.Int.{ℤ}
use connected_vehicle_health.Method.{Result}

pub record Line : Type 1 where
  pub S : Type 0
  -- `command`, with its timeout and `allow_error`
  pub command : String → ℕ → Bool → S → Result String × S
  -- The exchange of `test_internet`, for a command and a timeout.
  pub exchange_ping : String → ℕ → S → Result String × S
  -- `_initialize_hardware` and `_power_key_sequence`
  pub initialize : S → S
  pub power_key : S → S
  pub sleep : ℕ → S → S
  -- `time.ticks_ms()` and `_clock_text()`
  pub ticks : S → ℕ
  pub clock_text : S → String
  -- `int` of a text, and `str` of a number or `None`
  pub int_of : String → Option ℤ
  pub render : Option ℤ → String
  -- The clock does not go back, and a pause takes at least its time.
  pub command_keeps :
      (text : String) (timeout : ℕ) (allow_error : Bool) (s : S)
      → ticks s ≤ ticks (command text timeout allow_error s).1
  pub sleep_moves : (n : ℕ) (s : S) → ticks s + n ≤ ticks (sleep n s)
