-- ===== src/Modem/Uart/Serves.antt =====
-- The UART as the line that ModemManager's methods use.
use connected_vehicle_health.Prelude.{ℕ, ◌≤◌, String, Bool, Option, none, some}
use connected_vehicle_health.Prelude.Int.{ℤ}
use connected_vehicle_health.Method.{Result, ok, raised}
use connected_vehicle_health.Modem.Line.{Line}
use connected_vehicle_health.Modem.Uart.{Port, run_command, await_ping}
use connected_vehicle_health.Modem.Uart.Ends.{IsClock, run_command-ends}

-- The result of a wait; every wait has one.
unfoldable pub settle : {A S : Type 0} → S → Option (Result A × S) → Result A × S
settle s none = (raised "", s)
settle s (some r) = r

-- The text of a wait, which does not raise.
unfoldable pub settle_text : {S : Type 0} → S → Option (String × S) → Result String × S
settle_text s none = (ok "", s)
settle_text s (some (text, s')) = (ok text, s')

module _ (port : Port) (clock : IsClock port) where
  pub run_command_keeps :
      (text : String) (timeout : ℕ) (allow_error : Bool) (s : port.S)
      → port.now s ≤ port.now (settle s (run_command port text timeout allow_error s)).1
  unfolding settle
  run_command_keeps text timeout allow_error s =
      let (r, s', done, moved, reply) = run_command-ends port clock text timeout allow_error s in
      rw (done, settle) moved

  unfoldable pub uart_line :
      (initialize power_key : port.S → port.S) (clock_text : port.S → String)
      (int_of : String → Option ℤ) (render : Option ℤ → String)
      → Line
  unfolding settle settle_text run_command await_ping
  uart_line initialize power_key clock_text int_of render = record {
    S = port.S;
    command = λ text timeout allow_error s. settle s (run_command port text timeout allow_error s);
    exchange_ping = λ text timeout s. settle_text s (await_ping port text timeout s);
    initialize = initialize;
    power_key = power_key;
    sleep = port.sleep;
    ticks = port.now;
    clock_text = clock_text;
    int_of = int_of;
    render = render;
    command_keeps = run_command_keeps;
    sleep_moves = clock.sleep_moves;
  }
