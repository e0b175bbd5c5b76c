-- ===== src/Modem/Tests.antt =====
-- A modem with fixed answers for the theorems on modem_manager.py.
use connected_vehicle_health.Prelude.{
  ℕ, ◌+◌, ◌*◌, ◌≤◌, ◌≡◌, refl, String, Bool, true, false, Option, none, some, List, [], ◌∷◌, str_eq,
  ◌==◌, arith, if◌then◌else◌, suc,
}
use connected_vehicle_health.Prelude.Int.{ℤ, pos, negsuc}
use connected_vehicle_health.Config.{modem_startup_timeout_seconds}
use connected_vehicle_health.Text.{glue}
use connected_vehicle_health.Text.Decimal.{read_onto}
use connected_vehicle_health.Method.{
  Result, ok, raised, Session, Ended, ◌>>=◌, modify, log, gets, look, on_line, pure, when, branch,
  handle, finally,
}
use connected_vehicle_health.Modem.{ModemManager, init}
use connected_vehicle_health.Modem.Line.{Line}
use connected_vehicle_health.Modem.Uart.{Port, run_command}
use connected_vehicle_health.Modem.Uart.Ends.{IsClock, IsReply, run_command-ends}
use connected_vehicle_health.Modem.Attach.{configure_and_check}
use connected_vehicle_health.Modem.Attach.Checked.{
  IsSound, IsChecked, configure_and_check-IsChecked,
}
use connected_vehicle_health.Modem.Internet.{test_internet}
use connected_vehicle_health.Modem.Internet.Tested.{IsTested, test_internet-IsTested}
use connected_vehicle_health.Modem.Monitor.{serve, passed, requested, wait_loop, wait_for_modem}
use connected_vehicle_health.Modem.Monitor.Steady.{init-IsSound, IsSteady, serve-IsSteady}
use connected_vehicle_health.Modem.Monitor.Waits.{wait_for_modem-ends}

abbrev digits : String → Option ℤ
digits s = elim (read_onto 0 s) [ none ↦ none | some n ↦ some (pos n) ]

-- The answers of a modem on a network, whose address is known.
abbrev answer : String → Result String
answer text =
    if str_eq text "ATI"
    then ok "ATI\r\nA7670E\r\n\r\nOK\r\n"
    else if str_eq text "AT+CPIN?"
    then ok "\r\n+CPIN: READY\r\n\r\nOK\r\n"
    else if str_eq text "AT+CSQ"
    then ok "\r\n+CSQ: 20,99\r\n\r\nOK\r\n"
    else if str_eq text "AT+CEREG?"
    then ok "\r\n+CEREG: 0,5\r\n\r\nOK\r\n"
    else if str_eq text "AT+COPS?"
    then ok "\r\n+COPS: 0,0,\"Operator\",7\r\n\r\nOK\r\n"
    else if str_eq text "AT+CGATT?"
    then ok "\r\n+CGATT: 1\r\n\r\nOK\r\n"
    else if str_eq text "AT+CGPADDR=1"
    then ok "\r\n+CGPADDR: 1,\"10.1.2.3\"\r\n\r\nOK\r\n"
    else ok "\r\nOK\r\n"

abbrev online : Line
online = record {
  S = ℕ;
  command = λ text timeout allow_error s. (answer text, s + 10);
  exchange_ping = λ text timeout s. (
    ok
        "\r\nOK\r\n\r\n+CPING: 1,8.8.8.8,48,40,255\r\n+CPING: 1,8.8.8.8,48,45,255\r\n+CPING: 3,2\r\n",
    s + 900,
  );
  initialize = λ s. s;
  power_key = λ s. s;
  sleep = λ n s. s + n;
  ticks = λ s. s;
  clock_text = λ s. "2026-01-01 00:00:00 UTC";
  int_of = digits;
  render = λ o. "20";
  command_keeps = λ text timeout allow_error s. omega arith;
  sleep_moves = λ n s. omega arith;
}

-- A modem that does not answer.
abbrev silent : Line
silent = record {
  S = ℕ;
  command = λ text timeout allow_error s. (raised "timed out", s + timeout);
  exchange_ping = λ text timeout s. (ok "", s + timeout);
  initialize = λ s. s;
  power_key = λ s. s + 4200;
  sleep = λ n s. s + n;
  ticks = λ s. s;
  clock_text = λ s. "";
  int_of = digits;
  render = λ o. "None";
  command_keeps = λ text timeout allow_error s. omega arith;
  sleep_moves = λ n s. omega arith;
}

abbrev session : Session ModemManager ℕ
session = record { self = init; line = 0; notes = [] }

serve-IsSteady_example :
    Ended (λ _. IsSteady) (λ _. ⊥) (serve online (requested ∷ passed ∷ []) session)
serve-IsSteady_example = serve-IsSteady online (requested ∷ passed ∷ []) session refl

configure_and_check-IsChecked_example :
    Ended (λ _. IsChecked) IsSound (configure_and_check online session)
configure_and_check-IsChecked_example = configure_and_check-IsChecked online session init-IsSound

test_internet-IsTested_example : Ended (λ _. IsTested init) (λ _. ⊥) (test_internet silent session)
test_internet-IsTested_example = test_internet-IsTested silent session

wait_for_modem-ends_example :
    (found : Bool) × (s' : ℕ) × (wait_loop silent
        (0 + modem_startup_timeout_seconds * 1000)
        (suc (modem_startup_timeout_seconds * 1000))
        0
      ≡ some (found, s'))
    × (wait_for_modem silent 0 ≡ (ok found, s'))
    × (found ≡ false → 0 + modem_startup_timeout_seconds * 1000 ≤ s')
wait_for_modem-ends_example = wait_for_modem-ends silent 0

-- The data session of the modem that answers, its address and the mean of its latencies.
active_session :
    let m = (serve online (requested ∷ passed ∷ []) session).1.self in
    (m.data_active ≡ true)
    × (m.mobile_ip ≡ some "10.1.2.3")
    × (m.operator ≡ "Operator")
    × (m.signal_dbm ≡ some (negsuc 72))
    × (m.ping_latency_ms ≡ some (pos 42))
unfolding serve init ◌>>=◌ modify log gets look on_line pure when branch handle finally read_onto
active_session = (refl, refl, refl, refl, refl)

-- A UART that gives one byte in each read, then no more.
abbrev reply_bytes : List ℕ
reply_bytes = 13 ∷ 10 ∷ 79 ∷ 75 ∷ 13 ∷ 10 ∷ []

abbrev next_byte : ℕ × List ℕ → Option (List ℕ) × (ℕ × List ℕ)
next_byte (t, []) = (none, (t, []))
next_byte (t, b ∷ bs) = (some (b ∷ []), (t, bs))

abbrev text_of_bytes : List ℕ → String
text_of_bytes [] = ""
text_of_bytes (b ∷ bs) =
    glue (if b == 13 then "\r" else if b == 10 then "\n" else if b == 79 then "O" else "K")
      (text_of_bytes bs)

abbrev port : Port
port = record {
  S = ℕ × List ℕ;
  now = λ s. s.0;
  read = next_byte;
  write = λ text s. s;
  drain = λ s. s;
  sleep = λ n s. (s.0 + n, s.1);
  decode = text_of_bytes;
}

next_byte_keeps : (s : ℕ × List ℕ) → s.0 ≤ (next_byte s).1.0
next_byte_keeps (t, []) = omega arith
next_byte_keeps (t, b ∷ bs) = omega arith

clock : IsClock port
clock = record {
  read_keeps = next_byte_keeps;
  write_keeps = λ text s. omega arith;
  drain_keeps = λ s. omega arith;
  sleep_moves = λ n s. omega arith;
}

run_command-ends_example :
    (r : Result String) × (s' : ℕ × List ℕ) × (run_command port "AT" 1000 false (0, reply_bytes)
      ≡ some (r, s'))
    × (0 ≤ s'.0)
    × IsReply port clock "AT" false 1000 s'.0 r
run_command-ends_example = run_command-ends port clock "AT" 1000 false (0, reply_bytes)

-- Five pauses, for the six bytes.
five_pauses : run_command port "AT" 1000 false (0, reply_bytes) ≡ some (ok "\r\nOK\r\n", (100, []))
unfolding run_command
five_pauses = refl
