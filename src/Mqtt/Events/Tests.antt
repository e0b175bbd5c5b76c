-- ===== src/Mqtt/Events/Tests.antt =====
-- Events and answers of the modem for mqtt_manager.py, and the theorem at one of them.
use Prim.Native.Char.{Char}
use Prim.Native.String.{◌∷◌, []}
use connected_vehicle_health.Prelude.{ℕ, ◌≡◌, refl, String, true, false, Option, none, some, arith}
use connected_vehicle_health.Prelude.Int.{ℤ, pos}
use connected_vehicle_health.Config.{mqtt_command_topic}
use connected_vehicle_health.Text.{take_text, strip}
use connected_vehicle_health.Text.Decimal.{
  show_decimal, read_onto, is_digit, AllDigits, show_decimal-AllDigits, read-show_decimal,
}
use connected_vehicle_health.Mqtt.Events.{event_value, parse_event, require_result}
use connected_vehicle_health.Mqtt.Events.Printed.{
  Lacks, IsPrinter, event_text, parse_event-event_text,
}

-- `int` of a text of digits.
abbrev int_of : String → Option ℤ
int_of s = elim (read_onto 0 s) [ none ↦ none | some n ↦ some (pos n) ]

AllDigits-Lacks : (x : Char) (s : String) → is_digit x ≡ false → AllDigits s → Lacks x s
unfolding is_digit
AllDigits-Lacks x [] h a = tt
AllDigits-Lacks x (c ∷ s) h (d, a) = (ground arith, AllDigits-Lacks x s h a)

decimal-Lacks : (x : Char) (n : ℕ) → is_digit x ≡ false → Lacks x (show_decimal n)
decimal-Lacks x n h = AllDigits-Lacks x (show_decimal n) h (show_decimal-AllDigits n)

decimal-read : (n : ℕ) → int_of (show_decimal n) ≡ some (pos n)
decimal-read n = rw (int_of, read-show_decimal n) refl

decimal-IsPrinter : IsPrinter int_of show_decimal
unfolding is_digit
decimal-IsPrinter = record {
  no_plus = λ n. decimal-Lacks "+" n refl;
  no_comma = λ n. decimal-Lacks "," n refl;
  no_return = λ n. decimal-Lacks "\r" n refl;
  no_newline = λ n. decimal-Lacks "\n" n refl;
  read_back = decimal-read;
}

-- A request on two lines, with commas.
abbrev request : String
request = "{\"command\": \"get_status\",\n \"request_id\": 7}"

parse_event-event_text_example :
    parse_event int_of (event_text int_of show_decimal "\r\n" mqtt_command_topic request)
    ≡ (some mqtt_command_topic, some request)
parse_event-event_text_example =
    parse_event-event_text int_of show_decimal decimal-IsPrinter mqtt_command_topic request
      (ground arith) (ground arith) (ground arith)

-- A payload with a carriage return is read past its end: its length counts what was taken out.
return_over_read :
    event_value int_of "+CMQTTRXPAYLOAD: 0,4\na\nb\n+CMQTTRXEND: 0" "+CMQTTRXPAYLOAD:"
    ≡ some "a\nb\n"
unfolding event_value read_onto take_text
return_over_read = refl

-- The last field is the result, and a line with another result is passed over.
results :
    (require_result int_of "\r\nOK\r\n\r\n+CMQTTPUB: 0,0\r\n" "+CMQTTPUB:" ≡ true)
    × (require_result int_of "\r\nOK\r\n\r\n+CMQTTPUB: 0,19\r\n" "+CMQTTPUB:" ≡ false)
unfolding require_result read_onto strip
results = (refl, refl)
